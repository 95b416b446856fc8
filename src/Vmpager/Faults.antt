-- ===== src/Vmpager/Faults.antt =====
-- vmpager/utils.cpp: the permissions of the pages that share a block, and the test for a copy.
use operation_system_proj_c.Prelude.{
  ℕ, Bool, true, false, List, [], ◌∷◌, ltb, ◌==◌, not, ◌&&◌, ◌||◌, if◌then◌else◌, length,
}
use operation_system_proj_c.Vmpager.State.{
  Pager, MemBlock, PageTableEntry, for_ptes, set_block, set_entry, entry,
}

abbrev pub allow_write : PageTableEntry → PageTableEntry
allow_write e = record e { write_enable = true }

abbrev pub allow_read : PageTableEntry → PageTableEntry
allow_read e = record e { read_enable = true }

abbrev pub forbid_write : PageTableEntry → PageTableEntry
forbid_write e = record e { write_enable = false }

abbrev pub forbid_all : PageTableEntry → PageTableEntry
forbid_all e = record e { read_enable = false; write_enable = false }

-- The test of `read_fault_handler` for write permission.
abbrev pub keeps_write : MemBlock → Bool
keeps_write m = m.dirty && (m.is_swap && length m.ptes == 1 || not m.is_swap)

unfoldable pub read_fault_handler : {P F : Type 0} → ℕ → Pager P F → Pager P F
read_fault_handler b s =
    let m = s.blocks b in
    let s1 = if keeps_write m then for_ptes m.ptes allow_write s else s in
    let s2 = set_block s1 b (record m { referenced = true; resident = true }) in
    for_ptes m.ptes allow_read s2

unfoldable pub write_fault_handler : {P F : Type 0} → ℕ → Pager P F → Pager P F
write_fault_handler b s =
    let m = s.blocks b in set_block (for_ptes m.ptes allow_write s) b (record m { dirty = true })

-- The first page of a set gets all permissions.
abbrev pub allow_first : {P F : Type 0} → List (ℕ × ℕ) → Pager P F → Pager P F
allow_first [] s = s
allow_first (x ∷ xs) s = set_entry s x (allow_read (allow_write (entry s x)))

unfoldable pub update_block_permissions : {P F : Type 0} → ℕ → Pager P F → Pager P F
update_block_permissions b s =
    let m = s.blocks b in
    if m.dirty && length m.ptes == 1 && m.referenced then allow_first m.ptes s else s

unfoldable pub is_copy_on_writable : MemBlock → Bool
is_copy_on_writable m = (m.location == 0 || ltb 1 (length m.ptes)) && m.is_swap
