-- ===== src/Filesys/Delete/Blocks.antt =====
-- filesys/file_system.cpp: the loops of `handle_delete` over block numbers.
use operation_system_proj_c.Prelude.{
  ℕ, zero, suc, ◌+◌, ◌<◌, ◌≤◌, ◌≡◌, ◌≢◌, refl, sym, ap, ◌∙◌, ◌==◌, Bool-cases, inl, inr, List, [],
  ◌∷◌, ◌++◌, arith, some, get_elem?, get_elem?-some, get_elem?-set_self, set, length, length-set,
  take, drop, append-nil, append_assoc,
}
use operation_system_proj_c.Filesys.Types.{Inode}
use operation_system_proj_c.Filesys.Disk.{DiskApi}
use operation_system_proj_c.Filesys.Monad.{Fs, returns}
use operation_system_proj_c.Filesys.Monad.Ends.{index-get_elem?}
use operation_system_proj_c.Filesys.Delete.{shift_left, free_blocks}

-- `bs` is `blocks` without the element at `k`, in the places below `k + n`.
pub record IsShifted (blocks : List ℕ) (k n : ℕ) (bs : List ℕ) : Type 0 where
  pub before : (i : ℕ) → i < k → get_elem? bs i ≡ get_elem? blocks i
  pub after : (i : ℕ) → k ≤ i → i < k + n → get_elem? bs i ≡ get_elem? blocks (i + 1)
  pub size : length bs ≡ length blocks

get_elem?-set_ne : (xs : List ℕ) (i j v : ℕ) → i ≢ j → get_elem? (set xs i v) j ≡ get_elem? xs j
get_elem?-set_ne [] i j v n = refl
get_elem?-set_ne (x ∷ xs) zero zero v n = absurd (n refl)
get_elem?-set_ne (x ∷ xs) zero (suc j) v n = refl
get_elem?-set_ne (x ∷ xs) (suc i) zero v n = refl
get_elem?-set_ne (x ∷ xs) (suc i) (suc j) v n = get_elem?-set_ne xs i j v (λ e. n (ap suc e))

shift_left-step :
    (n k b : ℕ) (blocks : List ℕ)
    → get_elem? blocks (k + 1) ≡ some b
    → shift_left blocks k (suc n) ≡ shift_left (set blocks k b) (k + 1) n
unfolding shift_left
shift_left-step n k b blocks e = rw (e, shift_left) refl

-- Inside the array the loop of `handle_delete` takes out the element at `k`.
pub shift_left-IsShifted :
    (n k : ℕ) (blocks : List ℕ)
    → k + n < length blocks
    → (bs : List ℕ) × (shift_left blocks k n ≡ some bs) × IsShifted blocks k n bs
unfolding shift_left
shift_left-IsShifted zero k blocks h = (
  blocks,
  refl,
  record { before = λ i _. refl; after = λ i a b. absurd (omega (arith, a, b)); size = refl },
)
shift_left-IsShifted (suc n) k blocks h =
    let (b, at) = get_elem?-some blocks (k + 1) (omega (arith, h)) in
    let next = set blocks k b in
    let (bs, run, s) =
      shift_left-IsShifted n (k + 1) next (omega (arith, h, length-set blocks k b)) in
    (
      bs,
      shift_left-step n k b blocks at ∙ run,
      record {
        before = λ i lt.
            s.before i (omega (arith, lt)) ∙ get_elem?-set_ne blocks k i b (omega (arith, lt));
        after = λ i le lt. elim (Bool-cases (i == k)) [
          | inl e ↦
              let same : i ≡ k = ground (arith, e) in
              rw same (
                s.before k (omega arith)
                ∙ get_elem?-set_self blocks k b (omega (arith, h))
                ∙ sym at)
          | inr ne ↦
              let more : k + 1 ≤ i = ground (arith, ne, le) in
              s.after i more (omega (arith, lt))
              ∙ get_elem?-set_ne blocks k (i + 1) b (omega (arith, more))
        ];
        size = s.size ∙ length-set blocks k b;
      },
    )

drop-get_elem? :
    (xs : List ℕ) (i : ℕ) {b : ℕ} → get_elem? xs i ≡ some b → drop i xs ≡ b ∷ drop (i + 1) xs
drop-get_elem? [] i e = ground (arith, e)
drop-get_elem? (x ∷ xs) zero e = ground (arith, e)
drop-get_elem? (x ∷ xs) (suc i) {b = b} e =
    let next : suc (i + 1) ≡ suc i + 1 = omega arith in
    drop-get_elem? xs i e ∙ ap (λ n. b ∷ drop n (x ∷ xs)) next

module _ ⦃api : DiskApi⦄ where
  open api use {Disk}

  pub free_blocks_lem :
      (n i : ℕ) (inode : Inode) (s : Fs Disk)
      → i + n ≤ length inode.blocks
      → free_blocks inode i n s ≡ (
        returns tt,
        record s { free_block_list = s.free_block_list ++ take n (drop i inode.blocks) },
      )
  unfolding free_blocks
  free_blocks_lem zero i inode s h =
      ap (λ l. (returns tt, record s { free_block_list = l })) (sym (append-nil s.free_block_list))
  free_blocks_lem (suc n) i inode s h =
      let (b, at) = get_elem?-some inode.blocks i (omega (arith, h)) in
      let s1 = record s { free_block_list = s.free_block_list ++ b ∷ [] } in
      rw
        (index-get_elem? inode.blocks i s at, free_blocks_lem n (i + 1) inode s1 (omega (arith, h)))
        (ap (λ l. (returns tt, record s { free_block_list = l }))
          (append_assoc s.free_block_list (b ∷ []) (take n (drop (i + 1) inode.blocks))
            ∙ ap (λ l. s.free_block_list ++ take (suc n) l)
                (sym (drop-get_elem? inode.blocks i at))))
