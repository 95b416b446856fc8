-- ===== src/Vmpager/Evict.antt =====
-- vmpager/utils.cpp: `evict_phys_page`, the clock algorithm.
pub mod Clock
use operation_system_proj_c.Prelude.{
  ℕ, zero, suc, ◌+◌, Bool, true, false, Option, none, some, List, [], ◌∷◌, ◌++◌, not, if◌then◌else◌,
  is_empty, length,
}
use operation_system_proj_c.Vmpager.Api.{VmApi}
use operation_system_proj_c.Vmpager.State.{
  Pager, MemBlock, Op, is_phys, swap, file, front, set_block, for_ptes, map_file, get, modify,
  assert, need, pure, when, ◌>>=◌, ◌>>◌,
}
use operation_system_proj_c.Vmpager.Faults.{forbid_all}

-- One round of the loop: the block loses its permissions and its reference and goes to the end.
unfoldable pub second_chance : {P F : Type 0} → ℕ → List ℕ → Pager P F → Pager P F
second_chance b rest s =
    let m = s.blocks b in
    let s1 = for_ptes m.ptes forbid_all s in
    let s2 = set_block s1 b (record m { referenced = false }) in
    record s2 { clock_queue = rest ++ b ∷ [] }

-- The loop, with fuel: the first block that is not referenced leaves the queue.
unfoldable pub find_victim : {P F : Type 0} → ℕ → Op P F ℕ
find_victim zero s = none
find_victim (suc fuel) s = elim s.clock_queue [
  | [] ↦ none
  | b ∷ rest ↦
      let again = find_victim fuel (second_chance b rest s) in
      if (s.blocks b).referenced then again else some (b, record s { clock_queue = rest })
]

-- Where the content of an evicted block goes.
pub record Target : Type 0 where
  pub filename : Option (List ℕ)
  pub block : ℕ

module _ ⦃vm : VmApi⦄ where
  open vm use {Page, Files, file_write}

  -- The part of a block that has been chosen, up to the end of its physical page.
  unfoldable pub release : ℕ → Pager Page Files → Pager Page Files
  release b s =
      let m = s.blocks b in
      let s1 = for_ptes m.ptes forbid_all s in
      let s2 = record s1 { free_mem_blocks = s1.free_mem_blocks ++ m.location ∷ [] } in
      set_block s2 b (record m { resident = false; dirty = false; referenced = false })

  -- The part that sends the block to its file or to the swap file.
  unfoldable pub retarget : ℕ → Op Page Files Target
  retarget b s =
      let m = s.blocks b in
      if not m.is_swap
      then (let s1 = set_block s b (record m { type = file; location = m.block_num }) in
          some (
            record { filename = some m.filename; block = m.block_num },
            (if is_empty m.ptes
                then record s1 {
                  file_mapping_table = map_file s1.file_mapping_table m.filename m.block_num none;
                }
                else s1),
          ))
      else elim (front m.swap_blocks) [
        | none ↦ none
        | some n ↦ some (
          record { filename = none; block = n },
          set_block s b (record m { type = swap; location = n }),
        )
      ]

  -- The write of a dirty page, from page `page` of physical memory.
  unfoldable pub write_back : Target → ℕ → Pager Page Files → Pager Page Files
  write_back t page s = record s { files = file_write s.files t.filename t.block (s.physmem page) }

  unfoldable pub evict_phys_page : Op Page Files (Unit {0})
  evict_phys_page = do
    s ← get
    first ← need (front s.clock_queue)
    assert (is_phys (s.blocks first).type)
    b ← find_victim (length s.clock_queue + 1)
    chosen ← get
    let m = chosen.blocks b
    assert (is_phys m.type)
    modify (release b)
    target ← retarget b
    when m.dirty (modify (write_back target m.location))
