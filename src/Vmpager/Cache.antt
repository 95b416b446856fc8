-- ===== src/Vmpager/Cache.antt =====
-- vmpager/utils.cpp and vm_pager.cpp: bringing a block into memory, copy on write, and `vm_fault`.
use operation_system_proj_c.Prelude.{
  ℕ, ◌+◌, Bool, true, false, none, some, [], ◌∷◌, ◌++◌, not, leb, ◌||◌, if◌then◌else◌, is_empty,
  update, tail,
}
use operation_system_proj_c.Vmpager.Api.{VmApi}
use operation_system_proj_c.Vmpager.State.{
  Pager, MemBlock, ProcessInfo, PageTableEntry, Op, phys, is_phys, front, pop_back, erase_pte,
  set_block, set_entry, entry, set_process, for_ptes, as_ppage, new_mem_block, process_info, get,
  modify, assert, need, pure, when, ◌>>=◌, ◌>>◌,
}
use operation_system_proj_c.Vmpager.Address.{addr_to_index}
use operation_system_proj_c.Vmpager.Faults.{
  read_fault_handler, write_fault_handler, update_block_permissions, is_copy_on_writable,
}
use operation_system_proj_c.Vmpager.Evict.{evict_phys_page}

abbrev pub points_to : ℕ → PageTableEntry → PageTableEntry
points_to page e = record { ppage = as_ppage page; read_enable = true; write_enable = false }

-- `page_info_table[v].data_location = b`
abbrev pub point_at : ℕ → ℕ → ProcessInfo → ProcessInfo
point_at v b info = record info { data_location = update info.data_location v (some b) }

-- The new block that `copy_block_handler` makes in page `page` with the swap block `n`.
abbrev pub copied : ℕ → ℕ → ℕ × ℕ → MemBlock
copied page n pte = record (new_mem_block page phys) {
  is_swap = true;
  swap_blocks = n ∷ [];
  ptes = pte ∷ [];
  dirty = true;
  resident = true;
  referenced = true;
}

module _ ⦃vm : VmApi⦄ where
  open vm use {Page, Files, file_read}

  -- `if (free_mem_blocks.empty()) evict_phys_page();`
  unfoldable pub make_room : Op Page Files (Unit {0})
  make_room s = if is_empty s.free_mem_blocks then evict_phys_page s else some (tt, s)

  -- The end of `cache_nonresident_page`, after a read that succeeded into page `page`.
  unfoldable pub settle : ℕ → ℕ → Pager Page Files → Pager Page Files
  settle b page s =
      let m = s.blocks b in
      let s1 = record s {
        free_mem_blocks = tail s.free_mem_blocks;
        clock_queue = s.clock_queue ++ b ∷ [];
      } in
      let s2 = set_block s1 b (record m {
        type = phys;
        referenced = true;
        resident = true;
        dirty = false;
        location = page;
      }) in
      for_ptes m.ptes (points_to page) s2

  -- `false` is the result -1.
  unfoldable pub cache_nonresident_page : ℕ → Op Page Files Bool
  cache_nonresident_page b = do
    s ← get
    assert (not (s.blocks b).resident)
    assert (not (is_phys (s.blocks b).type))
    make_room
    t ← get
    page ← need (front t.free_mem_blocks)
    let m = t.blocks b
    let r = file_read t.files (if m.is_swap then none else some m.filename) m.location
    modify (λ u. record u { physmem = update u.physmem page r.1 })
    when r.0 (modify (settle b page))
    pure r.0

  -- `copy_block_handler` for virtual page `v` of the process `info`, whose pointer is `old`.
  unfoldable pub copy_block_handler : ProcessInfo → ℕ → ℕ → Op Page Files ℕ
  copy_block_handler info v old = do
    s ← get
    page ← need (front s.free_mem_blocks)
    taken ← need (pop_back (s.blocks old).swap_blocks)
    let pte : ℕ × ℕ = (s.curr_pid, v)
    let b = s.next_block
    modify (λ u. set_block u old (record (u.blocks old) { swap_blocks = taken.1 }))
    modify (λ u. set_block u b (copied page taken.0 pte))
    modify (set_process s.curr_pid (some (point_at v b info)))
    modify (λ u. set_entry u pte (record (entry u pte) { ppage = as_ppage page }))
    modify (λ u. record u {
      next_block = b + 1;
      free_mem_blocks = tail u.free_mem_blocks;
      clock_queue = u.clock_queue ++ b ∷ [];
      physmem = update u.physmem page u.tmp_buffer;
    })
    pure b

  -- The part of `vm_fault` that takes virtual page `v` off the block `b`, whose content it keeps in
  -- `tmp_buffer`.
  unfoldable pub detach : ℕ → ℕ → Pager Page Files → Pager Page Files
  detach v b s =
      let s1 = read_fault_handler b s in
      let m = s1.blocks b in
      let s2 = set_block s1 b (record m { ptes = erase_pte (s1.base, v) m.ptes }) in
      let s3 = update_block_permissions b s2 in
      record s3 { tmp_buffer = s3.physmem (s3.blocks b).location }

  -- The part of `vm_fault` that copies the block `b` for virtual page `v`; it gives the new block.
  unfoldable pub copy_on_write : ProcessInfo → ℕ → ℕ → Op Page Files ℕ
  copy_on_write info v b = do modify (detach v b); make_room; copy_block_handler info v b

  -- `vm_fault` when the block is in memory, up to the permissions of the block that it gives.
  unfoldable pub write_access : ProcessInfo → ℕ → ℕ → Op Page Files ℕ
  write_access info v b = do
    s ← get
    target ← (if is_copy_on_writable (s.blocks b) then copy_on_write info v b else pure b)
    modify (write_fault_handler target)
    pure target

  -- `if (!resident) { … }`
  unfoldable pub ensure_resident : ℕ → Op Page Files Bool
  ensure_resident b s = if (s.blocks b).resident then some (true, s) else cache_nonresident_page b s

  -- The end of `vm_fault`, when the block is known to be in memory or not to be readable.
  unfoldable pub access : ProcessInfo → ℕ → ℕ → Bool → Bool → Op Page Files Bool
  access info v b write_flag false = pure false
  access info v b write_flag true = do
    target ← (if write_flag then write_access info v b else pure b)
    modify (read_fault_handler target)
    pure true

  -- `vm_fault` for the virtual page `v`.
  unfoldable pub fault_at : ProcessInfo → ℕ → Bool → Op Page Files Bool
  fault_at info v write_flag = do
    b ← need (info.data_location v)
    present ← ensure_resident b
    access info v b write_flag present

  -- `false` is the result -1.
  unfoldable pub vm_fault : ℕ → Bool → Op Page Files Bool
  vm_fault addr write_flag = do
    s ← get
    info ← process_info s.curr_pid
    let v = addr_to_index addr
    (if leb info.next_invalid_page v || not (info.valid v)
        then pure false
        else fault_at info v write_flag)
