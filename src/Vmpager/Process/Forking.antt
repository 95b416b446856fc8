-- ===== src/Vmpager/Process/Forking.antt =====
-- vmpager/utils.cpp and vm_pager.cpp: `vm_create` copies the pages of the parent.
use operation_system_proj_c.Prelude.{
  update_self, ℕ, ◌+◌, ◌<◌, ◌≤◌, ◌≡◌, ◌≢◌, refl, sym, ap, subst, ◌∙◌, true, false, Bool-cases,
  Option, some, List, [], ◌∷◌, ◌++◌, arith, length, length-append, count, update, if◌then◌else◌,
  ◌==◌, ==-refl, inl, inr,
}
use mathlib.Core.Path.{fun_ext}
use operation_system_proj_c.Vmpager.Faults.{forbid_write}
use operation_system_proj_c.Vmpager.State.{
  for_entries, set_block, set_process, Pager, MemBlock, ProcessInfo, PageTableEntry, has_pte,
  insert_pte, pte_eq,
}
use operation_system_proj_c.Vmpager.Process.{share_entry, reserve_copy, copy_virtual_page}
use operation_system_proj_c.Vmpager.Memory.{frames, IsValid}
use operation_system_proj_c.Vmpager.Memory.Eviction.{}
use operation_system_proj_c.Vmpager.Memory.Adjusting.{
  Fits, adjusted, adjusted-IsValid, adjusted-conserved,
}

update-update :
    {A : Type 0} (f : ℕ → A) (b : ℕ) (x y : A) → update (update f b x) b y ≡ update f b y
update-update f b x y = fun_ext (λ q. same q)
  where
    same : (q : ℕ) → update (update f b x) b y q ≡ update f b y q
    same q = ground arith

length-insert_pte : (e : ℕ × ℕ) (xs : List (ℕ × ℕ)) → length (insert_pte e xs) ≤ length xs + 1
unfolding insert_pte
length-insert_pte e xs = elim (Bool-cases (has_pte e xs)) [
  | inl t ↦ rw t (omega arith)
  | inr f ↦ rw f (omega (arith, length-append xs (e ∷ [])))
]

has_pte-append :
    (e x : ℕ × ℕ) (xs : List (ℕ × ℕ)) → has_pte e xs ≡ true → has_pte e (xs ++ x ∷ []) ≡ true
unfolding has_pte
has_pte-append e x [] h = cc h
has_pte-append e x (y ∷ ys) h = elim (Bool-cases (pte_eq e y)) [
  | inl t ↦ rw t refl
  | inr f ↦ rw f (has_pte-append e x ys (rw f at h))
]

has_pte-last : (e : ℕ × ℕ) (xs : List (ℕ × ℕ)) → has_pte e (xs ++ e ∷ []) ≡ true
unfolding has_pte
has_pte-last (p, i) [] = rw (==-refl p, ==-refl i) refl
has_pte-last e (y ∷ ys) = elim (Bool-cases (pte_eq e y)) [
  | inl t ↦ rw t refl
  | inr f ↦ rw f (has_pte-last e ys)
]

has_pte-insert_pte : (e : ℕ × ℕ) (xs : List (ℕ × ℕ)) → has_pte e (insert_pte e xs) ≡ true
unfolding insert_pte
has_pte-insert_pte e xs = elim (Bool-cases (has_pte e xs)) [
  | inl t ↦ rw t t
  | inr f ↦ rw f (has_pte-last e xs)
]

has_pte-kept :
    (e x : ℕ × ℕ) (xs : List (ℕ × ℕ)) → has_pte e xs ≡ true → has_pte e (insert_pte x xs) ≡ true
unfolding insert_pte
has_pte-kept e x xs h = elim (Bool-cases (has_pte x xs)) [
  | inl t ↦ rw t h
  | inr f ↦ rw f (has_pte-append e x xs h)
]

-- What the copy of the page `i`, which the block `b` holds, leaves for the child `c`.
pub record Shared {P F : Type 0} (parent child i b : ℕ) (c : ProcessInfo) (s s' : Pager P F)
    : Type 0 where
  pub valid : IsValid s'
  pub conserved : (page : ℕ) → count page (frames s') ≡ count page (frames s)
  pub parent_info : s'.process_info_mp parent ≡ s.process_info_mp parent
  pub child_info :
      s'.process_info_mp child
      ≡ some (record c {
        valid = update c.valid i true;
        data_location = update c.data_location i (some b);
      })
  pub is_swap : (x : ℕ) → (s'.blocks x).is_swap ≡ (s.blocks x).is_swap
  pub listed : has_pte (child, i) (s'.blocks b).ptes ≡ true
  pub kept :
      (e : ℕ × ℕ) (x : ℕ) → has_pte e (s.blocks x).ptes ≡ true → has_pte e (s'.blocks x).ptes ≡ true
  pub reserved :
      length s.free_swap_blocks
      ≡ length s'.free_swap_blocks + (if (s.blocks b).is_swap then 1 else 0)

module _ {P F : Type 0} (parent child i b : ℕ) (p c : ProcessInfo) (s : Pager P F)
    (valid : IsValid s) (apart : child ≢ parent) (known : s.process_info_mp parent ≡ some p)
    (new : s.process_info_mp child ≡ some c) (at_b : p.data_location i ≡ some b) (swaps : List ℕ)
    (free : List ℕ)
    (enough : (s.blocks b).is_swap ≡ true → length (s.blocks b).swap_blocks < length swaps)
    (at_least : length (s.blocks b).swap_blocks ≤ length swaps)
    (tables : ℕ → ℕ → PageTableEntry) where
  abbrev shared_block : MemBlock
  shared_block = record (s.blocks b) {
    ptes = insert_pte (child, i) (s.blocks b).ptes;
    swap_blocks = swaps;
  }

  abbrev infos : ℕ → Option ProcessInfo
  infos = update s.process_info_mp child (
      some (record c {
        valid = update c.valid i true;
        data_location = update c.data_location i (some b);
      }))

  shared_block-Fits : Fits s b shared_block
  shared_block-Fits = record {
    location = refl;
    resident = λ e. e;
    type = λ e. e;
    backed = λ k e. omega (arith, enough e);
    is_block = λ z. record {
      reserved = λ e. omega (
        arith,
        enough e,
        (valid.blocks b z).reserved e,
        length-insert_pte (child, i) (s.blocks b).ptes,
      );
      away = (valid.blocks b z).away;
    };
  }

  abbrev sharing : Pager P F
  sharing = adjusted s valid b shared_block shared_block-Fits tables infos s.tmp_buffer

  abbrev shared_state : Pager P F
  shared_state = record sharing { free_swap_blocks = free }

  shared_state-IsValid : IsValid shared_state
  shared_state-IsValid =
      let v = adjusted-IsValid s valid b shared_block shared_block-Fits tables infos s.tmp_buffer in
      record {
        distinct = v.distinct;
        known = v.known;
        cached = v.cached;
        blocks = v.blocks;
        zero_resident = v.zero_resident;
      }

  self : shared_state.blocks b ≡ shared_block
  self = update_self s.blocks b shared_block

  others : (x : ℕ) → x ≢ b → shared_state.blocks x ≡ s.blocks x
  others x z = ground (arith, z)

  shared_state-Shared :
      length s.free_swap_blocks ≡ length free + (if (s.blocks b).is_swap then 1 else 0)
      → Shared parent child i b c s shared_state
  shared_state-Shared taken = record {
    valid = shared_state-IsValid;
    conserved =
        adjusted-conserved s valid b shared_block shared_block-Fits tables infos s.tmp_buffer;
    parent_info = ground (arith, apart);
    child_info = update_self s.process_info_mp child (
        some (record c {
          valid = update c.valid i true;
          data_location = update c.data_location i (some b);
        }));
    is_swap = λ x. elim (Bool-cases (x == b)) [
      | inl t ↦ let e : x ≡ b = ground (arith, t) in rw (e, self) refl
      | inr f ↦ ap (λ m. m.is_swap) (others x (ground (arith, f)))
    ];
    listed = rw self (has_pte-insert_pte (child, i) (s.blocks b).ptes);
    kept = λ e x h. elim (Bool-cases (x == b)) [
      | inl t ↦
          let same : x ≡ b = ground (arith, t) in
          subst
            (λ y.
              has_pte e (s.blocks y).ptes ≡ true → has_pte e (shared_state.blocks y).ptes ≡ true)
            (sym same) (λ k. rw self (has_pte-kept e (child, i) (s.blocks b).ptes k)) h
      | inr f ↦ rw (others x (ground (arith, f))) h
    ];
    reserved = taken;
  }

reserve_copy-run :
    {P F : Type 0} (b n : ℕ) (rest : List ℕ) (u : Pager P F)
    → u.free_swap_blocks ≡ n ∷ rest
    → (tables : ℕ → ℕ → PageTableEntry) × (reserve_copy b u
        ≡ some (
          tt,
          record u {
            blocks =
                update u.blocks b
                  (record (u.blocks b) { swap_blocks = (u.blocks b).swap_blocks ++ n ∷ [] });
            free_swap_blocks = rest;
            page_tables = tables;
          },
        ))
unfolding reserve_copy
reserve_copy-run b n rest u e = elim (Bool-cases (b == 0)) [
  | inl z ↦ (u.page_tables, simp (e, z))
  | inr z ↦ (for_entries (u.blocks b).ptes forbid_write u.page_tables, simp (e, z))
]

module _ {P F : Type 0} (parent child i b : ℕ) (p c : ProcessInfo) (s : Pager P F)
    (valid : IsValid s) (apart : child ≢ parent) (known : s.process_info_mp parent ≡ some p)
    (new : s.process_info_mp child ≡ some c) (at_b : p.data_location i ≡ some b) where
  abbrev Copies : Type 0
  Copies =
      (s' : Pager P F) × (copy_virtual_page parent child i s ≡ some (tt, s'))
      × Shared parent child i b c s s'

  copy_file : (s.blocks b).is_swap ≡ false → Copies
  unfolding copy_virtual_page share_entry
  copy_file f =
      let m = s.blocks b in
      let enough : (s.blocks b).is_swap ≡ true → length m.swap_blocks < length m.swap_blocks =
        λ e. cc (e, f) in
      let tables = (share_entry parent child i (s.blocks b).is_swap s).page_tables in
      (
        shared_state parent child i b p c s valid apart known new at_b m.swap_blocks
            s.free_swap_blocks enough (omega arith) tables,
        simp (known, new, at_b, f),
        shared_state-Shared parent child i b p c s valid apart known new at_b m.swap_blocks
            s.free_swap_blocks enough (omega arith) tables (rw f (omega arith)),
      )

  copy_swap :
      (n : ℕ) (rest : List ℕ) → (s.blocks b).is_swap ≡ true → s.free_swap_blocks ≡ n ∷ rest → Copies
  unfolding copy_virtual_page share_entry
  copy_swap n rest t free =
      let m = s.blocks b in
      let swaps = m.swap_blocks ++ n ∷ [] in
      let longer = length-append m.swap_blocks (n ∷ []) in
      let enough : (s.blocks b).is_swap ≡ true → length m.swap_blocks < length swaps =
        λ e. omega (arith, longer) in
      let more : length m.swap_blocks ≤ length swaps = omega (arith, longer) in
      let m1 = record m { ptes = insert_pte (child, i) m.ptes } in
      let c' = record c {
        valid = update c.valid i true;
        data_location = update c.data_location i (some b);
      } in
      let u =
        share_entry parent child i (s.blocks b).is_swap
          (set_block (set_process child (some c') s) b m1) in
      let (tables, run) = reserve_copy-run b n rest u free in
      let here : u.blocks b ≡ m1 = update_self s.blocks b m1 in
      let m2 = record m1 { swap_blocks = swaps } in
      let same : update u.blocks b
            (record (u.blocks b) { swap_blocks = (u.blocks b).swap_blocks ++ n ∷ [] })
          ≡ update s.blocks b m2 =
        ap (λ x. update u.blocks b (record x { swap_blocks = x.swap_blocks ++ n ∷ [] })) here
        ∙ update-update s.blocks b m1 m2 in
      let ends : copy_virtual_page parent child i s ≡ reserve_copy b u =
        simp (known, new, at_b, t) in
      (
        shared_state parent child i b p c s valid apart known new at_b swaps rest enough more
            tables,
        ends
            ∙ run
            ∙ ap
                (λ f.
                  some (tt, record u { blocks = f; free_swap_blocks = rest; page_tables = tables }))
                same,
        shared_state-Shared parent child i b p c s valid apart known new at_b swaps rest enough more
            tables (rw t (omega (arith, ap length free))),
      )

  copy_by_free :
      (free : List ℕ)
      → s.free_swap_blocks ≡ free
      → ((s.blocks b).is_swap ≡ true → 0 < length free)
      → Copies
  copy_by_free [] e enough = elim (Bool-cases (s.blocks b).is_swap) [
    | inl t ↦ absurd (omega (arith, enough t))
    | inr f ↦ copy_file f
  ]
  copy_by_free (n ∷ rest) e enough = elim (Bool-cases (s.blocks b).is_swap) [
    | inl t ↦ copy_swap n rest t e
    | inr f ↦ copy_file f
  ]

  -- The copy of a page comes to its end, if there is a swap block for a page of the swap file.
  pub copy_virtual_page-Shared :
      ((s.blocks b).is_swap ≡ true → 0 < length s.free_swap_blocks)
      → (s' : Pager P F) × (copy_virtual_page parent child i s ≡ some (tt, s'))
        × Shared parent child i b c s s'
  copy_virtual_page-Shared enough = copy_by_free s.free_swap_blocks refl enough
