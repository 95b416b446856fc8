-- ===== src/Vmpager/Map/Swapping.antt =====
-- vmpager/vm_pager.cpp and utils.cpp: `vm_map` of a page that is backed by the swap file.
use operation_system_proj_c.Prelude.{
  ℕ, ◌+◌, ◌%◌, ◌^◌, ◌<◌, ◌≤◌, ◌≡◌, ◌≢◌, ◌⊎◌, refl, true, false, Option, none, some, List, [], ◌∷◌,
  ◌++◌, count, update,
}
use operation_system_proj_c.Vmpager.Api.{VmApi}
use operation_system_proj_c.Vmpager.State.{Pager, MemBlock, ProcessInfo, PageTableEntry}
use operation_system_proj_c.Vmpager.Address.{num_virt_addr, addr_to_index, index_to_addr}
use operation_system_proj_c.Vmpager.Cache.{point_at}
use operation_system_proj_c.Vmpager.Map.Reading.{IsReady}
use operation_system_proj_c.Vmpager.Memory.{frames}
use operation_system_proj_c.Vmpager.Memory.Eviction.{}
use operation_system_proj_c.Vmpager.Memory.Adjusting.{Fits, adjusted}
use operation_system_proj_c.Vmpager.Memory.Accessing.{refused}

module _ ⦃vm : VmApi⦄ where
  open vm use {Page, Files}

  -- What `vm_map` of a page of the swap file leaves, for the process `info` of the state `s`.
  pub record Mapped (info : ProcessInfo) (s s' : Pager Page Files) (r : Option ℕ) : Type 0 where
    pub room : info.next_invalid_page < num_virt_addr
    pub result : r ≡ some (index_to_addr info.next_invalid_page)
    pub page : addr_to_index (index_to_addr info.next_invalid_page) ≡ info.next_invalid_page
    pub info' : ProcessInfo
    pub process : s'.process_info_mp s.curr_pid ≡ some info'
    pub ready : IsReady info' s'
    pub next : info'.next_invalid_page ≡ info.next_invalid_page + 1
    pub accepted : refused info' info.next_invalid_page ≡ false
    pub shares : info'.data_location info.next_invalid_page ≡ some 0
    pub others : (v : ℕ) → v ≢ info.next_invalid_page → info'.data_location v ≡ info.data_location v
    pub entry :
        s'.page_tables s.base info.next_invalid_page
        ≡ record { ppage = 0; read_enable = true; write_enable = false }
    pub conserved : (p : ℕ) → count p (frames s') ≡ count p (frames s)
    pub taken :
        (n : ℕ) × (s.free_swap_blocks ≡ n ∷ s'.free_swap_blocks)
        × ((s'.blocks 0).swap_blocks ≡ (s.blocks 0).swap_blocks ++ n ∷ [])
    pub reserved :
        (n : ℕ)
        → count n s'.free_swap_blocks + count n (s'.blocks 0).swap_blocks
          ≡ count n s.free_swap_blocks + count n (s.blocks 0).swap_blocks

  module _ (info : ProcessInfo) (s : Pager Page Files) (ready : IsReady info s) (n : ℕ)
      (rest : List ℕ) (free : s.free_swap_blocks ≡ n ∷ rest)
      (fits_arena : info.next_invalid_page < num_virt_addr) where
    abbrev new_page : ℕ
    new_page = info.next_invalid_page

    abbrev zero_after : MemBlock
    zero_after = record (s.blocks 0) {
      swap_blocks = (s.blocks 0).swap_blocks ++ n ∷ [];
      is_swap = true;
    }

    abbrev info_after : ProcessInfo
    info_after = record (point_at new_page 0 info) {
      num_swap_blocks = (info.num_swap_blocks + 1) % 2 ^ 32;
      next_invalid_page = new_page + 1;
      valid = update info.valid new_page true;
    }

    abbrev fresh_entry : PageTableEntry
    fresh_entry = record { ppage = 0; read_enable = true; write_enable = false }

    zero-Fits : Fits s 0 zero_after
    zero-Fits = record {
      location = refl;
      resident = λ e. e;
      type = λ e. e;
      backed = λ k. absurd ((ready.valid.known 0 k).0 refl);
      is_block = λ z. absurd (z refl);
    }

    abbrev tables : ℕ → ℕ → PageTableEntry
    tables = update s.page_tables s.base (update (s.page_tables s.base) new_page fresh_entry)

    abbrev infos : ℕ → Option ProcessInfo
    infos = update s.process_info_mp s.curr_pid (some info_after)

    abbrev reserving : Pager Page Files
    reserving = adjusted s ready.valid 0 zero_after zero-Fits tables infos s.tmp_buffer

    abbrev mapped_state : Pager Page Files
    mapped_state = record reserving { free_swap_blocks = rest }

  abbrev Ends : ProcessInfo → Pager Page Files → Option (Option ℕ × Pager Page Files) → Type 0
  Ends info s result =
      (r : Option ℕ) × (s' : Pager Page Files) × (result ≡ some (r, s'))
      × (((r ≡ none)
            × (s' ≡ s)
            × ((num_virt_addr ≤ info.next_invalid_page) ⊎ (s.free_swap_blocks ≡ [])))
          ⊎ Mapped info s s' r)
