-- ===== src/Vmpager/Memory/Entries.antt =====
-- vmpager/utils.cpp: what the loops over a set of page table entries do to one entry.
use operation_system_proj_c.Prelude.{
  ℕ, ◌≡◌, refl, true, false, Bool-cases, List, [], ◌∷◌, arith, update, ◌==◌, ◌&&◌, inl, inr, length,
}
use operation_system_proj_c.Vmpager.State.{
  Pager, MemBlock, PageTableEntry, for_entries, has_pte, pte_eq,
}
use operation_system_proj_c.Vmpager.Faults.{
  allow_read, allow_write, keeps_write, read_fault_handler, write_fault_handler,
  update_block_permissions, allow_first,
}

-- An entry after a change of the entry `(p, j)`.
changed :
    (Q : PageTableEntry → Type 0) (t : ℕ → ℕ → PageTableEntry) (p j : ℕ) (e : PageTableEntry)
    (pid i : ℕ)
    → (pte_eq (pid, i) (p, j) ≡ true → Q e)
    → (pte_eq (pid, i) (p, j) ≡ false → Q (t pid i))
    → Q (update t p (update (t p) j e) pid i)
changed Q t p j e pid i hit miss = elim (Bool-cases (p == pid)) [
  | inl a ↦ elim (Bool-cases (j == i)) [
    | inl c ↦ rw (a, c) (hit (ground (arith, a, c)))
    | inr c ↦
        let same : p ≡ pid = ground (arith, a) in rw (a, c) (rw same (miss (ground (arith, c))))
  ]
  | inr a ↦ rw a (miss (ground (arith, a)))
]

entry_hit :
    (Q : PageTableEntry → Type 0) (f : PageTableEntry → PageTableEntry)
    → ((e : PageTableEntry) → Q e → Q (f e))
    → (p j pid i : ℕ) (t : ℕ → ℕ → PageTableEntry) → pte_eq (pid, i) (p, j) ≡ true
    → Q (t pid i)
    → Q (f (t p j))
entry_hit Q f keep p j pid i t e h =
    let a : p ≡ pid = ground (arith, e) in
    let c : j ≡ i = ground (arith, e) in rw (a, c) (keep (t pid i) h)

-- What each change keeps, the loop keeps.
for_entries-keeps :
    (Q : PageTableEntry → Type 0) (f : PageTableEntry → PageTableEntry)
    → ((e : PageTableEntry) → Q e → Q (f e))
    → (xs : List (ℕ × ℕ)) (t : ℕ → ℕ → PageTableEntry) (pid i : ℕ) → Q (t pid i)
    → Q (for_entries xs f t pid i)
unfolding for_entries
for_entries-keeps Q f keep [] t pid i h = h
for_entries-keeps Q f keep ((p, j) ∷ xs) t pid i h =
    for_entries-keeps Q f keep xs (update t p (update (t p) j (f (t p j)))) pid i
      (changed Q t p j (f (t p j)) pid i (λ e. entry_hit Q f keep p j pid i t e h) (λ e. h))

-- What each change brings about, the loop brings about for the entries of the set.
for_entries-all :
    (Q : PageTableEntry → Type 0) (f : PageTableEntry → PageTableEntry)
    → ((e : PageTableEntry) → Q (f e))
    → (xs : List (ℕ × ℕ)) (t : ℕ → ℕ → PageTableEntry) (pid i : ℕ) → has_pte (pid, i) xs ≡ true
    → Q (for_entries xs f t pid i)
unfolding for_entries has_pte
for_entries-all Q f all [] t pid i h = cc h
for_entries-all Q f all ((p, j) ∷ xs) t pid i h =
    let t' = update t p (update (t p) j (f (t p j))) in
    elim (Bool-cases (pte_eq (pid, i) (p, j))) [
      | inl e ↦
          for_entries-keeps Q f (λ x q. all x) xs t' pid i
            (changed Q t p j (f (t p j)) pid i (λ x. all (t p j)) (λ x. cc (e, x)))
      | inr e ↦ for_entries-all Q f all xs t' pid i (rw e at h)
    ]

-- What a handler makes of the page table entries of the block `m`.
pub record Opened (m : MemBlock) (old new : ℕ → ℕ → PageTableEntry) : Type 0 where
  pub readable : (pid i : ℕ) → has_pte (pid, i) m.ptes ≡ true → (new pid i).read_enable ≡ true
  pub writable : (pid i : ℕ) → (old pid i).write_enable ≡ true → (new pid i).write_enable ≡ true

module _ {P F : Type 0} (b : ℕ) (s : Pager P F) where
  pub read_fault_handler-Opened :
      (tables : ℕ → ℕ → PageTableEntry) × (read_fault_handler b s ≡ record s {
        blocks = update s.blocks b (record (s.blocks b) { referenced = true; resident = true });
        page_tables = tables;
      })
      × Opened (s.blocks b) s.page_tables tables
  unfolding read_fault_handler
  read_fault_handler-Opened =
      let m : MemBlock = s.blocks b in
      let old = s.page_tables in
      let wide = for_entries m.ptes allow_write old in
      elim (Bool-cases (keeps_write m)) [
        | inl e ↦ (
          for_entries m.ptes allow_read wide,
          rw e refl,
          record {
            readable =
                for_entries-all (λ x. x.read_enable ≡ true) allow_read (λ x. refl) m.ptes wide;
            writable = λ pid i h.
                for_entries-keeps (λ x. x.write_enable ≡ true) allow_read (λ x q. q) m.ptes wide pid
                  i
                  (for_entries-keeps (λ x. x.write_enable ≡ true) allow_write (λ x q. refl) m.ptes
                    old pid i h);
          },
        )
        | inr e ↦ (
          for_entries m.ptes allow_read old,
          rw e refl,
          record {
            readable =
                for_entries-all (λ x. x.read_enable ≡ true) allow_read (λ x. refl) m.ptes old;
            writable = λ pid i h.
                for_entries-keeps (λ x. x.write_enable ≡ true) allow_read (λ x q. q) m.ptes old pid
                  i h;
          },
        )
      ]

  pub write_fault_handler-all :
      (pid i : ℕ)
      → has_pte (pid, i) (s.blocks b).ptes ≡ true
      → ((write_fault_handler b s).page_tables pid i).write_enable ≡ true
  unfolding write_fault_handler
  write_fault_handler-all pid i h =
      for_entries-all (λ x. x.write_enable ≡ true) allow_write (λ x. refl) (s.blocks b).ptes
        s.page_tables pid i h

allow_first-tables :
    {P F : Type 0} (xs : List (ℕ × ℕ)) (s : Pager P F)
    → (tables : ℕ → ℕ → PageTableEntry) × (allow_first xs s ≡ record s { page_tables = tables })
allow_first-tables [] s = (s.page_tables, refl)
allow_first-tables ((p, j) ∷ xs) s = ((allow_first ((p, j) ∷ xs) s).page_tables, refl)

-- `update_block_permissions` changes page table entries only.
pub update_block_permissions-tables :
    {P F : Type 0} (b : ℕ) (s : Pager P F)
    → (tables : ℕ → ℕ → PageTableEntry) × (update_block_permissions b s
        ≡ record s { page_tables = tables })
unfolding update_block_permissions
update_block_permissions-tables b s =
    let m : MemBlock = s.blocks b in
    elim (Bool-cases (m.dirty && length m.ptes == 1 && m.referenced)) [
      | inl e ↦ let (tables, eq) = allow_first-tables m.ptes s in (tables, rw e eq)
      | inr e ↦ (s.page_tables, rw e refl)
    ]
