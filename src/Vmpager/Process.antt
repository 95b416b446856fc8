-- ===== src/Vmpager/Process.antt =====
-- vmpager/vm_pager.cpp and utils.cpp: the start of the pager, and processes: `vm_create`,
-- `vm_switch`, `vm_destroy`.
pub mod Start
pub mod Queue
pub mod Forking
pub mod Creating
use operation_system_proj_c.Prelude.{
  ℕ, zero, suc, ◌+◌, Bool, true, false, none, some, List, [], ◌∷◌, ◌++◌, not, ltb, ◌==◌, ◌&&◌, ◌||◌,
  if◌then◌else◌, is_empty, length, tail, update,
}
use operation_system_proj_c.Vmpager.Api.{VmApi}
use operation_system_proj_c.Vmpager.State.{
  Pager, MemBlock, ProcessInfo, Op, phys, front, pop_back, insert_pte, erase_pte, set_block,
  set_entry, set_process, for_ptes, map_file, new_mem_block, new_process_info, default_entry,
  process_info, get, modify, need, pure, when, ◌>>=◌, ◌>>◌,
}
use operation_system_proj_c.Vmpager.Faults.{forbid_write, update_block_permissions}

-- The numbers `from`, `from + 1`, …, `n` of them.
unfoldable pub range_from : ℕ → ℕ → List ℕ
range_from from zero = []
range_from from (suc n) = from ∷ range_from (from + 1) n

-- `useless_mem_blocks.find(page) != end`
unfoldable pub has_page : ℕ → List ℕ → Bool
has_page page [] = false
has_page page (x ∷ xs) = page == x || has_page page xs

-- The loop of `inspect_clock_queue`, `n` rounds: the first block goes to the end or is dropped.
unfoldable pub inspect_rounds : ℕ → (ℕ → MemBlock) → List ℕ → List ℕ → List ℕ
inspect_rounds zero blocks useless queue = queue
inspect_rounds (suc n) blocks useless [] = []
inspect_rounds (suc n) blocks useless (b ∷ rest) =
    inspect_rounds n blocks useless
      (if has_page (blocks b).location useless then rest else rest ++ b ∷ [])

unfoldable pub inspect_clock_queue : {P F : Type 0} → List ℕ → Pager P F → Pager P F
inspect_clock_queue useless s = record s {
  clock_queue = inspect_rounds (length s.clock_queue) s.blocks (0 ∷ useless) s.clock_queue;
}

-- `process_info_mp[pid] = make_shared<kernel_process_info>()`, with an empty page table.
unfoldable pub add_process : {P F : Type 0} → ℕ → ℕ → Pager P F → Pager P F
add_process uninitialized pid s =
    record (set_process pid (some (new_process_info uninitialized)) s) {
      page_tables = update s.page_tables pid (λ i. default_entry);
    }

unfoldable pub share_entry : {P F : Type 0} → ℕ → ℕ → ℕ → Bool → Pager P F → Pager P F
share_entry parent child i is_swap s =
    let p = s.page_tables parent i in
    let c = s.page_tables child i in
    set_entry s (child, i)
      (record {
        ppage = p.ppage;
        read_enable = p.read_enable;
        write_enable = (if is_swap then c.write_enable else p.write_enable);
      })

-- The swap block that the child's page `i` reserves, and the write bits of a page that is copied
-- when it is written.
unfoldable pub reserve_copy : {P F : Type 0} → ℕ → Op P F (Unit {0})
reserve_copy b = do
  s ← get
  n ← need (front s.free_swap_blocks)
  let m = s.blocks b
  modify (λ u. set_block u b (record m { swap_blocks = m.swap_blocks ++ n ∷ [] }))
  modify (λ u. record u { free_swap_blocks = tail u.free_swap_blocks })
  when (not (b == 0)) (modify (for_ptes m.ptes forbid_write))

-- `copy_virtual_page`; `b` is what the parent's page `i` points to.
unfoldable pub copy_virtual_page : {P F : Type 0} → ℕ → ℕ → ℕ → Op P F (Unit {0})
copy_virtual_page parent child i = do
  p ← process_info parent
  c ← process_info child
  b ← need (p.data_location i)
  s ← get
  let m = s.blocks b
  modify (
      set_process child (
        some (record c {
          valid = update c.valid i true;
          data_location = update c.data_location i (some b);
        })))
  modify (λ u. set_block u b (record m { ptes = insert_pte (child, i) m.ptes }))
  modify (share_entry parent child i m.is_swap)
  when m.is_swap (reserve_copy b)

-- The loop over the parent's pages, `n` of them from page `i` on.
unfoldable pub copy_pages : {P F : Type 0} → ℕ → ℕ → ℕ → ℕ → Op P F (Unit {0})
copy_pages parent child i zero = pure tt
copy_pages parent child i (suc n) =
    let rest = copy_pages parent child (i + 1) n in do copy_virtual_page parent child i; rest

-- The part of `vm_create` for a parent that the pager knows; `false` is the result -1.
unfoldable pub copy_parent : {P F : Type 0} → ℕ → ℕ → ProcessInfo → Op P F Bool
copy_parent parent child p = do
  s ← get
  (if ltb (length s.free_swap_blocks) p.num_swap_blocks then pure false else (do
    c ← process_info child
    modify (
        set_process child (
          some (record c {
            num_swap_blocks = p.num_swap_blocks;
            next_invalid_page = p.next_invalid_page;
          })))
    copy_pages parent child 0 p.next_invalid_page
    pure true))

-- `uninitialized` is what stands in `num_swap_blocks` of the new object.
unfoldable pub vm_create : {P F : Type 0} → ℕ → ℕ → ℕ → Op P F Bool
vm_create uninitialized parent child = do
  modify (add_process uninitialized child)
  s ← get
  elim (s.process_info_mp parent) [ none ↦ pure true | some p ↦ copy_parent parent child p ]

unfoldable pub vm_switch : {P F : Type 0} → ℕ → Pager P F → Pager P F
vm_switch pid s = elim (s.process_info_mp pid) [
  | none ↦ s
  | some p ↦ record s { curr_pid = pid; base = pid }
]

-- What the end of a process does with a block of a file.
unfoldable pub leave_file : {P F : Type 0} → ℕ → Pager P F → Pager P F
leave_file b s =
    let m = s.blocks b in
    if is_empty m.ptes && not m.resident
    then record s { file_mapping_table = map_file s.file_mapping_table m.filename m.block_num none }
    else s

-- What it does with a swap-backed block that stays in memory: the result is the page that is free
-- now, if there is one.
unfoldable pub leave_memory : {P F : Type 0} → ℕ → Pager P F → List ℕ × Pager P F
leave_memory b s =
    let m = s.blocks b in
    let s1 = update_block_permissions b s in
    if is_empty m.ptes
    then (m.location ∷ [], record s1 { free_mem_blocks = s1.free_mem_blocks ++ m.location ∷ [] })
    else ([], s1)

-- What it does with a swap-backed block.
unfoldable pub leave_swap : {P F : Type 0} → ℕ → Op P F (List ℕ)
leave_swap b = do
  s ← get
  let m = s.blocks b
  taken ← need (pop_back m.swap_blocks)
  modify (λ u. record u { free_swap_blocks = u.free_swap_blocks ++ taken.0 ∷ [] })
  modify (λ u. set_block u b (record m { swap_blocks = taken.1 }))
  (if not m.resident || b == 0 then pure [] else (λ u. some (leave_memory b u)))

-- The body of the loop of `vm_destroy`, for page `i`: the pages that it frees.
unfoldable pub leave_page : {P F : Type 0} → ProcessInfo → ℕ → Op P F (List ℕ)
leave_page info i = do
  b ← need (info.data_location i)
  modify
      (λ s. set_block s b (record (s.blocks b) { ptes = erase_pte (s.base, i) (s.blocks b).ptes }))
  s ← get
  (if (s.blocks b).is_swap then leave_swap b else (do modify (leave_file b); pure []))

-- The loop, `n` pages from page `i` on.
unfoldable pub leave_pages : {P F : Type 0} → ProcessInfo → ℕ → ℕ → Op P F (List ℕ)
leave_pages info i zero = pure []
leave_pages info i (suc n) =
    let rest = leave_pages info (i + 1) n in
    do freed ← leave_page info i; more ← rest; pure (freed ++ more)

unfoldable pub vm_destroy : {P F : Type 0} → Op P F (Unit {0})
vm_destroy = do
  s ← get
  info ← process_info s.curr_pid
  useless ← leave_pages info 0 info.next_invalid_page
  modify (inspect_clock_queue useless)
  modify (λ u. set_process u.curr_pid none u)

module _ ⦃vm : VmApi⦄ where
  open vm use {Page, Files, zeroes}

  -- The state in which the pager starts; page 0 of the memory belongs to `zero_page`.
  unfoldable pub vm_init : ℕ → ℕ → (ℕ → Page) → Files → Pager Page Files
  vm_init memory_pages swap_blocks physmem files = record {
    blocks = λ b. new_mem_block 0 phys;
    next_block = 1;
    clock_queue = [];
    curr_pid = 0;
    base = 0;
    free_mem_blocks = tail (range_from 0 memory_pages);
    free_swap_blocks = range_from 0 swap_blocks;
    process_info_mp = λ pid. none;
    page_tables = λ pid i. default_entry;
    file_mapping_table = λ name n. none;
    physmem = update physmem 0 zeroes;
    tmp_buffer = zeroes;
    files = files;
  }
