-- ===== src/Vmpager/Map.antt =====
-- vmpager/vm_pager.cpp and utils.cpp: `vm_map`.
pub mod Reading
pub mod Swapping
use operation_system_proj_c.Prelude.{
  ℕ, zero, suc, ◌+◌, ◌%◌, ◌^◌, true, false, Option, none, some, List, [], ◌∷◌, ◌++◌, not, ltb, leb,
  ◌==◌, ◌&&◌, ◌||◌, if◌then◌else◌, is_empty, tail, update,
}
use operation_system_proj_c.Vmpager.Api.{VmApi}
use operation_system_proj_c.Vmpager.State.{
  Pager, MemBlock, ProcessInfo, PageTableEntry, Op, file, front, insert_pte, set_block, set_entry,
  entry, set_process, map_file, as_ppage, new_mem_block, process_info, get, modify, need, pure,
  bind_result, ◌>>=◌, ◌>>◌,
}
use operation_system_proj_c.Vmpager.Address.{
  num_virt_addr, arena_base, arena_size, addr_to_index, index_to_addr, calculate_page_offset,
}
use operation_system_proj_c.Vmpager.Cache.{point_at, ensure_resident}

-- The entry of a page, at the place that `page_table_base_register` points to.
abbrev pub at_base : {P F : Type 0} → Pager P F → ℕ → ℕ × ℕ
at_base s i = (s.base, i)

-- `map_swap_block`: the new page shares `zero_page` and reserves a swap block.
unfoldable pub map_swap_block : {P F : Type 0} → ProcessInfo → ℕ → Op P F ProcessInfo
map_swap_block info new_page = do
  s ← get
  n ← need (front s.free_swap_blocks)
  modify (λ u.
      set_entry u (at_base u new_page)
        (record { ppage = 0; read_enable = true; write_enable = false }))
  modify (λ u.
      set_block u 0
        (record (u.blocks 0) { swap_blocks = (u.blocks 0).swap_blocks ++ n ∷ []; is_swap = true }))
  modify (λ u. record u { free_swap_blocks = tail u.free_swap_blocks })
  pure (record (point_at new_page 0 info) { num_swap_blocks = (info.num_swap_blocks + 1) % 2 ^ 32 })

-- `map_file_block`: a new block for a block of a file that is not mapped yet.
unfoldable pub map_file_block : {P F : Type 0} → ProcessInfo → List ℕ → ℕ → ℕ → Op P F ProcessInfo
map_file_block info filename_str block new_page = do
  s ← get
  let b = s.next_block
  let m = record (new_mem_block block file) {
    is_swap = false;
    resident = false;
    referenced = false;
    block_num = block;
    filename = filename_str;
    ptes = at_base s new_page ∷ [];
  }
  modify (λ u. record (set_block u b m) {
    next_block = b + 1;
    file_mapping_table = map_file u.file_mapping_table filename_str block (some b);
  })
  modify (λ u.
      set_entry u (at_base u new_page)
        (record { ppage = as_ppage block; read_enable = false; write_enable = false }))
  pure (point_at new_page b info)

-- The entry that a further page of a mapped block starts with: that of another page of the block,
-- if there is one.
abbrev pub first_entry : {P F : Type 0} → Pager P F → MemBlock → PageTableEntry → PageTableEntry
first_entry s m old = elim m.ptes [
  | x ∷ xs ↦ entry s x
  | [] ↦ record {
    ppage = (if m.resident then as_ppage m.location else old.ppage);
    read_enable = m.resident && m.referenced;
    write_enable = m.resident && m.referenced && m.dirty;
  }
]

-- `update_file_block`: a further page for the mapped block `b`.
unfoldable pub update_file_block : {P F : Type 0} → ProcessInfo → ℕ → ℕ → Op P F ProcessInfo
update_file_block info b new_page = do
  s ← get
  let m = s.blocks b
  modify (λ u. set_entry u (at_base u new_page) (first_entry u m (entry u (at_base u new_page))))
  modify (λ u. set_block u b (record m { ptes = insert_pte (at_base u new_page) m.ptes }))
  pure (point_at new_page b info)

module _ ⦃vm : VmApi⦄ where
  open vm use {Page, Files, char_at}

  -- `get_data`; `none` is the result -1.
  unfoldable pub get_data : ProcessInfo → ℕ → Op Page Files (Option ℕ)
  get_data info addr = do
    b ← need (info.data_location (addr_to_index addr))
    present ← ensure_resident b
    s ← get
    pure (
        if present
        then some (char_at (s.physmem (s.blocks b).location) (calculate_page_offset addr))
        else none)

  -- The loop of `read_filename_str`, with fuel: the characters from `addr` on, behind `name`.
  unfoldable pub read_chars : ℕ → ProcessInfo → ℕ → List ℕ → Op Page Files (Option (List ℕ))
  read_chars zero info addr name s = none
  read_chars (suc fuel) info addr name s =
      let more = λ (c : ℕ). read_chars fuel info (addr + 1) (name ++ c ∷ []) in
      if leb num_virt_addr (addr_to_index addr) || not (info.valid (addr_to_index addr))
      then some (none, s)
      else bind_result
          (λ (next : Option ℕ). elim next [
            | none ↦ pure none
            | some c ↦ if c == 0 then pure (some name) else more c
          ])
          (get_data info addr s)

  -- `read_filename_str`; `none` is the result -1. Behind the arena there is no valid page, so the
  -- loop takes at most as many rounds as the arena has bytes, and one more.
  unfoldable pub read_filename_str : ProcessInfo → ℕ → Op Page Files (Option (List ℕ))
  read_filename_str info filename =
      if ltb filename arena_base then pure none else read_chars (arena_size + 1) info filename []

  -- A page of a file: the block is the one in `file_mapping_table`, or a new one.
  unfoldable pub map_file_page : ProcessInfo → List ℕ → ℕ → ℕ → Op Page Files ProcessInfo
  map_file_page info filename_str block new_page = do
    s ← get
    elim (s.file_mapping_table filename_str block) [
      | none ↦ map_file_block info filename_str block new_page
      | some b ↦ update_file_block info b new_page
    ]

  -- The end of `vm_map`: the page is valid, and its address is the result.
  unfoldable pub finish_map : ℕ → ProcessInfo → Op Page Files (Option ℕ)
  finish_map new_page info = do
    modify (λ s.
        set_process s.curr_pid
          (some (record info {
            next_invalid_page = new_page + 1;
            valid = update info.valid new_page true;
          }))
          s)
    pure (some (index_to_addr new_page))

  -- `vm_map` of a page that is backed by the swap file.
  unfoldable pub map_swap_page : ProcessInfo → ℕ → Op Page Files (Option ℕ)
  map_swap_page info new_page = do
    s ← get
    (if is_empty s.free_swap_blocks
        then pure none
        else (do info' ← map_swap_block info new_page; finish_map new_page info'))

  -- `vm_map` of a page of a file.
  unfoldable pub map_named_page : ProcessInfo → ℕ → ℕ → ℕ → Op Page Files (Option ℕ)
  map_named_page info filename block new_page = do
    name ← read_filename_str info filename
    elim name [
      | none ↦ pure none
      | some filename_str ↦ do
        info' ← map_file_page info filename_str block new_page
        finish_map new_page info'
    ]

  -- `none` is the result `nullptr`; so is the file name `nullptr`.
  unfoldable pub vm_map : Option ℕ → ℕ → Op Page Files (Option ℕ)
  vm_map filename block = do
    s ← get
    info ← process_info s.curr_pid
    (if leb num_virt_addr info.next_invalid_page then pure none else elim filename [
      | none ↦ map_swap_page info info.next_invalid_page
      | some name ↦ map_named_page info name block info.next_invalid_page
    ])
