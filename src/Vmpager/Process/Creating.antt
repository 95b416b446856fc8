-- ===== src/Vmpager/Process/Creating.antt =====
-- vmpager/vm_pager.cpp: the loop of `vm_create` over the pages of the parent.
use operation_system_proj_c.Prelude.{
  update_self, ℕ, zero, suc, ◌+◌, ◌<◌, ◌≤◌, ◌≡◌, ◌≢◌, refl, sym, ap, subst, ◌∙◌, true, false,
  Bool-cases, Option, none, some, arith, length, count, update, if◌then◌else◌, ◌==◌, inl, inr,
}
use operation_system_proj_c.Vmpager.State.{Pager, MemBlock, ProcessInfo, has_pte}
use operation_system_proj_c.Vmpager.Process.{copy_pages}
use operation_system_proj_c.Vmpager.Process.Forking.{copy_virtual_page-Shared}
use operation_system_proj_c.Vmpager.Memory.Eviction.{}
use operation_system_proj_c.Vmpager.Memory.{frames, IsValid}

-- How many of the `n` pages from `i` on are backed by the swap file.
abbrev pub swap_page : (ℕ → MemBlock) → Option ℕ → ℕ
swap_page f none = 0
swap_page f (some b) = if (f b).is_swap then 1 else 0

abbrev pub swap_pages : (ℕ → MemBlock) → (ℕ → Option ℕ) → ℕ → ℕ → ℕ
swap_pages f d i zero = 0
swap_pages f d i (suc n) = swap_page f (d i) + swap_pages f d (i + 1) n

swap_page-same :
    (f g : ℕ → MemBlock) (o : Option ℕ)
    → ((x : ℕ) → (f x).is_swap ≡ (g x).is_swap)
    → swap_page f o ≡ swap_page g o
swap_page-same f g none h = refl
swap_page-same f g (some b) h = rw (h b) refl

swap_pages-same :
    (f g : ℕ → MemBlock) (d : ℕ → Option ℕ) (i n : ℕ)
    → ((x : ℕ) → (f x).is_swap ≡ (g x).is_swap)
    → swap_pages f d i n ≡ swap_pages g d i n
swap_pages-same f g d i zero h = refl
swap_pages-same f g d i (suc n) h =
    omega (arith, swap_page-same f g (d i) h, swap_pages-same f g d (i + 1) n h)

-- What the loop leaves: `c'` is the child, with the `n` pages from `i` on of the parent `p`.
pub record Forked {P F : Type 0} (child i n : ℕ) (p c c' : ProcessInfo) (s s' : Pager P F)
    : Type 0 where
  pub valid : IsValid s'
  pub conserved : (page : ℕ) → count page (frames s') ≡ count page (frames s)
  pub child_info : s'.process_info_mp child ≡ some c'
  pub pages :
      (j : ℕ)
      → i ≤ j
      → j < i + n
      → (c'.valid j ≡ true)
        × (c'.data_location j ≡ p.data_location j)
        × ((b : ℕ) → p.data_location j ≡ some b → has_pte (child, j) (s'.blocks b).ptes ≡ true)
  pub before : (j : ℕ) → j < i → (c'.valid j ≡ c.valid j) × (c'.data_location j ≡ c.data_location j)
  pub kept :
      (e : ℕ × ℕ) (x : ℕ) → has_pte e (s.blocks x).ptes ≡ true → has_pte e (s'.blocks x).ptes ≡ true
  pub reserved :
      length s.free_swap_blocks
      ≡ length s'.free_swap_blocks + swap_pages s.blocks p.data_location i n

module _ {P F : Type 0} (parent child : ℕ) (p : ProcessInfo) (apart : child ≢ parent) where
  -- The loop of `vm_create` comes to its end for a parent whose pages have blocks, if there are as many
  -- free swap blocks as the parent has pages of the swap file, and takes as many. The invariant holds
  -- afterwards and every page of memory can be given out as often as before. The child has the blocks
  -- of the parent's pages, each has the child's page in its set, and no page leaves the set of a block.
  pub copy_pages-Forked :
      (n i : ℕ) (c : ProcessInfo) (s : Pager P F)
      → IsValid s
      → s.process_info_mp parent ≡ some p
      → s.process_info_mp child ≡ some c
      → ((j : ℕ) → i ≤ j → j < i + n → (b : ℕ) × (p.data_location j ≡ some b))
      → swap_pages s.blocks p.data_location i n ≤ length s.free_swap_blocks
      → (c' : ProcessInfo) × (s' : Pager P F) × (copy_pages parent child i n s ≡ some (tt, s'))
        × Forked child i n p c c' s s'
  unfolding copy_pages
  copy_pages-Forked zero i c s valid known new at enough = (
    c,
    s,
    refl,
    record {
      valid = valid;
      conserved = λ x. refl;
      child_info = new;
      pages = λ j low high. absurd (omega (arith, low, high));
      before = λ j h. (refl, refl);
      kept = λ e x h. h;
      reserved = omega arith;
    },
  )
  copy_pages-Forked (suc n) i c s valid known new at enough =
      let (b, at_b) = at i (omega arith) (omega arith) in
      let one : swap_page s.blocks (p.data_location i) ≡ swap_page s.blocks (some b) =
        ap (swap_page s.blocks) at_b in
      let (t, run, sh) =
        copy_virtual_page-Shared parent child i b p c s valid apart known new at_b (λ e.
          let taken : swap_page s.blocks (some b) ≡ 1 = rw e refl in
          omega (arith, enough, one, taken)) in
      let rest = swap_pages-same t.blocks s.blocks p.data_location (i + 1) n sh.is_swap in
      let (c', s', run', f) =
        copy_pages-Forked n (i + 1)
          (record c {
            valid = update c.valid i true;
            data_location = update c.data_location i (some b);
          })
          t sh.valid (sh.parent_info ∙ known) sh.child_info
          (λ j low high. at j (omega (arith, low)) (omega (arith, high)))
          (omega (arith, rest, enough, one, sh.reserved)) in
      let here = f.before i (omega arith) in
      let Copy : ℕ → Type 0 = λ j.
        (c'.valid j ≡ true)
        × (c'.data_location j ≡ p.data_location j)
        × ((x : ℕ) → p.data_location j ≡ some x → has_pte (child, j) (s'.blocks x).ptes ≡ true) in
      let copied : Copy i = (
        here.0 ∙ update_self c.valid i true,
        here.1 ∙ update_self c.data_location i (some b) ∙ sym at_b,
        λ x e.
            let same : b ≡ x = cc (at_b, e) in
            f.kept (child, i) x
              (subst (λ y. has_pte (child, i) (t.blocks y).ptes ≡ true) same sh.listed),
      ) in
      (
        c',
        s',
        rw (run, run') refl,
        record {
          valid = f.valid;
          conserved = λ x. f.conserved x ∙ sh.conserved x;
          child_info = f.child_info;
          pages = λ j low high. elim (Bool-cases (j == i)) [
            | inl e ↦ let same : j ≡ i = ground (arith, e) in subst Copy (sym same) copied
            | inr e ↦ f.pages j (ground (arith, low, e)) (omega (arith, high))
          ];
          before = λ j h.
              let (valid_j, data_j) = f.before j (omega (arith, h)) in
              let other : (i == j) ≡ false = ground (arith, h) in
              (valid_j ∙ rw other refl, data_j ∙ rw other refl);
          kept = λ e x h. f.kept e x (sh.kept e x h);
          reserved = omega (arith, rest, one, sh.reserved, f.reserved);
        },
      )
