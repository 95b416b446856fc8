-- ===== src/Vmpager/Memory/Copying.antt =====
-- vmpager/utils.cpp and vm_pager.cpp: the copy that a write to a shared block makes.
use operation_system_proj_c.Prelude.{
  update_self, ℕ, ◌+◌, ◌<◌, ◌≤◌, ◌≡◌, ◌≢◌, ◌⊎◌, refl, sym, ap, subst, ◌∙◌, true, Bool-cases, some,
  List, [], ◌∷◌, arith, length, count, count-append, update, ◌==◌, inl, inr,
}
use operation_system_proj_c.Vmpager.Api.{VmApi}
use operation_system_proj_c.Vmpager.State.{
  Pager, MemBlock, ProcessInfo, pop_back, has_pte, erase_pte, pte_eq, as_ppage, set_block,
}
use operation_system_proj_c.Vmpager.Faults.{is_copy_on_writable}
use operation_system_proj_c.Vmpager.Cache.{
  copied, point_at, copy_block_handler, detach, copy_on_write,
}
use operation_system_proj_c.Vmpager.Memory.{locations, frames, IsCached, IsBlock, IsValid}
use operation_system_proj_c.Vmpager.Memory.Eviction.{}
use operation_system_proj_c.Vmpager.Memory.Joining.{joined, joined-IsValid, joined-conserved}
use operation_system_proj_c.Vmpager.Memory.Adjusting.{
  Fits, adjusted, adjusted-IsValid, adjusted-conserved,
}
use operation_system_proj_c.Vmpager.Memory.Entries.{
  read_fault_handler-Opened, update_block_permissions-tables,
}
use operation_system_proj_c.Vmpager.Memory.Caching.{HasMemory, make_room-Kept}

pop_back-some :
    (xs : List ℕ)
    → 0 < length xs
    → (y : ℕ) × (ys : List ℕ) × (pop_back xs ≡ some (y, ys)) × (length ys + 1 ≡ length xs)
unfolding pop_back
pop_back-some [] h = absurd (omega (arith, h))
pop_back-some (x ∷ []) h = (x, [], refl, omega arith)
pop_back-some (x ∷ z ∷ zs) h =
    let (y, ys, e, n) = pop_back-some (z ∷ zs) (omega arith) in
    (y, x ∷ ys, rw e refl, omega (arith, n))

length-erase_pte :
    (e : ℕ × ℕ) (xs : List (ℕ × ℕ))
    → (length (erase_pte e xs) ≤ length xs)
      × (has_pte e xs ≡ true → length (erase_pte e xs) + 1 ≡ length xs)
unfolding erase_pte has_pte
length-erase_pte e [] = (omega arith, λ h. cc h)
length-erase_pte e (x ∷ xs) =
    let (le, eq) = length-erase_pte e xs in
    elim (Bool-cases (pte_eq e x)) [
      | inl t ↦ rw t (omega arith, λ h. omega arith)
      | inr f ↦ rw f (omega (arith, le), λ h. omega (arith, eq h))
    ]

writable_cases :
    (m : MemBlock)
    → is_copy_on_writable m ≡ true
    → (m.is_swap ≡ true) × ((m.location ≡ 0) ⊎ (1 < length m.ptes))
unfolding is_copy_on_writable
writable_cases m h = elim (Bool-cases (m.location == 0)) [
  | inl e ↦ (ground (arith, h), inl (ground (arith, e)))
  | inr e ↦ (ground (arith, h), inr (ground (arith, h, e)))
]

count-location :
    (f : ℕ → MemBlock) (xs : List ℕ) (b : ℕ)
    → count b xs ≢ 0
    → (f b).location ≡ 0
    → count 0 (locations f xs) ≢ 0
count-location f [] b n e = absurd (n refl)
count-location f (x ∷ xs) b n e = elim (Bool-cases (b == x)) [
  | inl same ↦
      let z : (f x).location ≡ 0 = subst (λ y. (f y).location ≡ 0) (ground (arith, same)) e in
      ground arith
  | inr other ↦ ground (arith, count-location f xs b (ground (arith, n, other)) e)
]

-- What the copy of a block for the page `v` of the current process leaves: the block `n` is the
-- copy.
pub record Copied {P F : Type 0} (s s' : Pager P F) (info : ProcessInfo) (v n : ℕ) : Type 0 where
  pub valid : IsValid s'
  pub conserved : (page : ℕ) → count page (frames s') ≡ count page (frames s)
  pub below : n < s'.next_block
  pub fresh : n ≢ 0
  pub copy : (page : ℕ) × (k : ℕ) × (s'.blocks n ≡ copied page k (s.curr_pid, v))
  pub process_info_mp : s'.process_info_mp s.curr_pid ≡ some (point_at v n info)
  pub curr_pid : s'.curr_pid ≡ s.curr_pid

module _ ⦃vm : VmApi⦄ where
  open vm use {Page, Files}

  -- The block `old` has a swap block to give away.
  pub copy_block_handler-Copied :
      (info : ProcessInfo) (v old : ℕ) (t : Pager Page Files) (page : ℕ) (rest : List ℕ)
      → t.free_mem_blocks ≡ page ∷ rest
      → IsValid t
      → old < t.next_block
      → 0 < length (t.blocks old).swap_blocks
      → (old ≢ 0 → length (t.blocks old).ptes < length (t.blocks old).swap_blocks)
      → (count old t.clock_queue ≢ 0 → 1 < length (t.blocks old).swap_blocks)
      → (t' : Pager Page Files) × (copy_block_handler info v old t ≡ some (t.next_block, t'))
        × Copied t t' info v t.next_block
  unfolding copy_block_handler
  copy_block_handler-Copied info v old t page rest free valid below pos spare queued =
      let (k, left, popped, shorter) = pop_back-some (t.blocks old).swap_blocks pos in
      let m = record (t.blocks old) { swap_blocks = left } in
      let fits : Fits t old m = record {
        location = refl;
        resident = λ e. e;
        type = λ e. e;
        backed = λ n e. omega (arith, shorter, queued n);
        is_block = λ z. record {
          reserved = λ e. omega (arith, shorter, spare z);
          away = (valid.blocks old z).away;
        };
      } in
      let pte : ℕ × ℕ = (t.curr_pid, v) in
      let b = t.next_block in
      let infos = update t.process_info_mp t.curr_pid (some (point_at v b info)) in
      let moved = record (t.page_tables t.curr_pid v) { ppage = as_ppage page } in
      let tables = update t.page_tables t.curr_pid (update (t.page_tables t.curr_pid) v moved) in
      let u = adjusted t valid old m fits tables infos t.tmp_buffer in
      let valid_u = adjusted-IsValid t valid old m fits tables infos t.tmp_buffer in
      let new = copied page k pte in
      let g = update u.blocks b new in
      let self : g b ≡ new = update_self u.blocks b new in
      let fresh : b ≢ 0 = omega (arith, below) in
      let absent : count b t.clock_queue ≡ 0 = elim (Bool-cases (count b t.clock_queue == 0)) [
        | inl e ↦ ground (arith, e)
        | inr e ↦ absurd (omega (arith, (valid.known b (ground (arith, e))).1))
      ] in
      let is_cached : IsCached (g b) =
        rw self (record { resident = refl; type = refl; backed = λ e. omega arith }) in
      let is_block : IsBlock (g b) =
        rw self (record { reserved = λ e. omega arith; away = λ e. cc e }) in
      let at_page : (g b).location ≡ page = rw self refl in
      let others : (x : ℕ) → x ≢ b → g x ≡ u.blocks x = λ x ne. ground (arith, ne) in
      let physmem = update t.physmem page t.tmp_buffer in
      let j =
        joined u valid_u b page rest free g (b + 1) fresh (omega arith) (omega arith) absent
          is_cached is_block at_page others tables physmem infos in
      let valid_j =
        joined-IsValid u valid_u b page rest free g (b + 1) fresh (omega arith) (omega arith) absent
          is_cached is_block at_page others tables physmem infos in
      let all_j =
        joined-conserved u valid_u b page rest free g (b + 1) fresh (omega arith) (omega arith)
          absent is_cached is_block at_page others tables physmem infos in
      (
        j,
        simp (free, popped),
        record {
          valid = valid_j;
          conserved =
              λ p. all_j p ∙ adjusted-conserved t valid old m fits tables infos t.tmp_buffer p;
          below = omega arith;
          fresh = fresh;
          copy = (page, k, self);
          process_info_mp = update_self t.process_info_mp t.curr_pid (some (point_at v b info));
          curr_pid = refl;
        },
      )

  -- The block `b` holds the page `v` of the current process: its entry is in the set, or the block is
  -- `zero_page`, with a swap block for the page.
  pub record Holds (v b : ℕ) (s : Pager Page Files) : Type 0 where
    pub below : b < s.next_block
    pub listed : b ≢ 0 → has_pte (s.base, v) (s.blocks b).ptes ≡ true
    pub zero : b ≡ 0 → 0 < length (s.blocks 0).swap_blocks

  -- A block in the queue is not in page 0, so it is copied only if pages share it.
  queued-shared :
      (b : ℕ) (s : Pager Page Files)
      → count 0 (frames s) ≡ 0
      → is_copy_on_writable (s.blocks b) ≡ true
      → count b s.clock_queue ≢ 0
      → 1 < length (s.blocks b).ptes
  queued-shared b s pinned writable n =
      let apart = count-append 0 s.free_mem_blocks (locations s.blocks s.clock_queue) in
      elim (writable_cases (s.blocks b) writable).1 [
        | inl e ↦
            absurd (count-location s.blocks s.clock_queue b n e (omega (arith, apart, pinned)))
        | inr e ↦ e
      ]

  -- The state in which the page `v` is off the block `b`.
  record Detached (v b : ℕ) (s s' : Pager Page Files) : Type 0 where
    valid : IsValid s'
    conserved : (page : ℕ) → count page (frames s') ≡ count page (frames s)
    clock_queue : s'.clock_queue ≡ s.clock_queue
    free_mem_blocks : s'.free_mem_blocks ≡ s.free_mem_blocks
    next_block : s'.next_block ≡ s.next_block
    curr_pid : s'.curr_pid ≡ s.curr_pid
    ptes : (s'.blocks b).ptes ≡ erase_pte (s.base, v) (s.blocks b).ptes
    swap_blocks : (s'.blocks b).swap_blocks ≡ (s.blocks b).swap_blocks

  detach_lem : (v b : ℕ) (s : Pager Page Files) → IsValid s → Detached v b s (detach v b s)
  unfolding detach
  detach_lem v b s valid =
      let (tables, read, _) = read_fault_handler-Opened b s in
      let m1 = record (s.blocks b) { referenced = true; resident = true } in
      let fits1 : Fits s b m1 = record {
        location = refl;
        resident = λ e. refl;
        type = λ e. e;
        backed = λ n. (valid.cached b n).backed;
        is_block = λ z. record { reserved = (valid.blocks b z).reserved; away = λ e. cc e };
      } in
      let u = adjusted s valid b m1 fits1 tables s.process_info_mp s.tmp_buffer in
      let valid_u = adjusted-IsValid s valid b m1 fits1 tables s.process_info_mp s.tmp_buffer in
      let all_u = adjusted-conserved s valid b m1 fits1 tables s.process_info_mp s.tmp_buffer in
      let one : u.blocks b ≡ m1 = update_self s.blocks b m1 in
      let pte : ℕ × ℕ = (s.base, v) in
      let m2 = record (u.blocks b) { ptes = erase_pte pte (u.blocks b).ptes } in
      let two : update u.blocks b m2 b ≡ m2 = update_self u.blocks b m2 in
      let (tables2, updated) = update_block_permissions-tables b (set_block u b m2) in
      let fits2 : Fits u b m2 = record {
        location = refl;
        resident = λ e. e;
        type = λ e. e;
        backed = λ n. (valid_u.cached b n).backed;
        is_block = λ z. record {
          reserved = λ e.
              omega (
                arith,
                (length-erase_pte pte (u.blocks b).ptes).0,
                (valid_u.blocks b z).reserved e,
              );
          away = (valid_u.blocks b z).away;
        };
      } in
      let buffer = s.physmem (update u.blocks b m2 b).location in
      let a = adjusted u valid_u b m2 fits2 tables2 u.process_info_mp buffer in
      let valid_a = adjusted-IsValid u valid_u b m2 fits2 tables2 u.process_info_mp buffer in
      let all_a = adjusted-conserved u valid_u b m2 fits2 tables2 u.process_info_mp buffer in
      let ends : Detached v b s a = record {
        valid = valid_a;
        conserved = λ p. all_a p ∙ all_u p;
        clock_queue = refl;
        free_mem_blocks = refl;
        next_block = refl;
        curr_pid = refl;
        ptes = ap (λ x. x.ptes) two ∙ ap (λ x. erase_pte pte x.ptes) one;
        swap_blocks = ap (λ x. x.swap_blocks) two ∙ ap (λ x. x.swap_blocks) one;
      } in
      rw (read, updated) ends

  -- A write to the page `v`, which the block `b` holds and shares with other pages, comes to its end: the
  -- page gets a block of its own, as `copied` makes it. Every page of the memory is where it can be
  -- given out as often as before.
  pub copy_on_write-Copied :
      (info : ProcessInfo) (v b : ℕ) (s : Pager Page Files)
      → IsValid s
      → HasMemory s
      → count 0 (frames s) ≡ 0
      → Holds v b s
      → is_copy_on_writable (s.blocks b) ≡ true
      → (n : ℕ) × (s' : Pager Page Files) × (copy_on_write info v b s ≡ some (n, s'))
        × Copied s s' info v n
  unfolding copy_on_write
  copy_on_write-Copied info v b s valid memory pinned holds writable =
      let is_swap : (s.blocks b).is_swap ≡ true = (writable_cases (s.blocks b) writable).0 in
      let d = detach_lem v b s valid in
      let u = detach v b s in
      let room : HasMemory u = λ e q. memory (sym d.free_mem_blocks ∙ e) (sym d.clock_queue ∙ q) in
      let (page, rest, t, run, free, kept) = make_room-Kept u d.valid room in
      let same = kept.same b in
      let swaps : length (t.blocks b).swap_blocks ≡ length (s.blocks b).swap_blocks =
        ap length (same.swap_blocks ∙ d.swap_blocks) in
      let pages : length (t.blocks b).ptes ≡ length (erase_pte (s.base, v) (s.blocks b).ptes) =
        ap length (same.ptes ∙ d.ptes) in
      let (erased_le, erased) = length-erase_pte (s.base, v) (s.blocks b).ptes in
      let spare : b ≢ 0 → length (t.blocks b).ptes < length (t.blocks b).swap_blocks = λ z.
        omega (arith, swaps, pages, erased (holds.listed z), (valid.blocks b z).reserved is_swap) in
      let queued : count b t.clock_queue ≢ 0 → 1 < length (t.blocks b).swap_blocks = λ n.
        let in_s : count b s.clock_queue ≢ 0 =
          ground (arith, n, kept.shorter b, ap (count b) d.clock_queue) in
        omega (
          arith,
          swaps,
          queued-shared b s pinned writable in_s,
          (valid.blocks b (valid.known b in_s).0).reserved is_swap,
        ) in
      let pos : 0 < length (t.blocks b).swap_blocks = elim (Bool-cases (b == 0)) [
        | inl e ↦
            let z : b ≡ 0 = ground (arith, e) in
            omega (arith, swaps, ap (λ x. length (s.blocks x).swap_blocks) z, holds.zero z)
        | inr e ↦ omega (arith, spare (ground (arith, e)))
      ] in
      let below : b < t.next_block = omega (arith, holds.below, d.next_block, kept.next_block) in
      let (s', copy_run, c) =
        copy_block_handler-Copied info v b t page rest free kept.valid below pos spare queued in
      let pid : t.curr_pid ≡ s.curr_pid = kept.curr_pid ∙ d.curr_pid in
      (
        t.next_block,
        s',
        rw (run, copy_run) refl,
        record {
          valid = c.valid;
          conserved = λ p. c.conserved p ∙ kept.conserved p ∙ d.conserved p;
          below = c.below;
          fresh = c.fresh;
          copy = (c.copy.0, c.copy.1, c.copy.2 ∙ ap (λ x. copied c.copy.0 c.copy.1 (x, v)) pid);
          process_info_mp = ap s'.process_info_mp (sym pid) ∙ c.process_info_mp;
          curr_pid = c.curr_pid ∙ pid;
        },
      )
