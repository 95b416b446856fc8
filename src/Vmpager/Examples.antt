-- ===== src/Vmpager/Examples.antt =====
-- The pager on a memory of two pages, with concrete files: the theorems at states that meet their
-- hypotheses, and tests.
use operation_system_proj_c.Prelude.{
  ℕ, ◌+◌, ◌<◌, ◌≤◌, ◌≡◌, ◌≢◌, ◌↔◌, refl, subst, Bool, true, false, Bool-cases, none, some, [], ◌∷◌,
  arith, count, update, if◌then◌else◌, ◌==◌, inl, inr,
}
use operation_system_proj_c.Vmpager.Api.{VmApi}
use operation_system_proj_c.Vmpager.State.{Pager, MemBlock, ProcessInfo, phys, swap, default_entry}
use operation_system_proj_c.Vmpager.Address.{
  page_size, arena_base, arena_size, num_virt_addr, addr_to_index, index_to_addr,
  calculate_page_offset,
}
use operation_system_proj_c.Vmpager.Address.Pages.{
  addr_to_index-index_to_addr, addr_to_index-lt_iff,
}
use operation_system_proj_c.Vmpager.Evict.{find_victim, evict_phys_page}
use operation_system_proj_c.Vmpager.Evict.Clock.{Chosen, find_victim-Chosen}
use operation_system_proj_c.Vmpager.Cache.{cache_nonresident_page, vm_fault}
use operation_system_proj_c.Vmpager.Memory.{frames, IsCached, IsBlock, IsValid}
use operation_system_proj_c.Vmpager.Memory.Eviction.{Evicted, evict_phys_page-Evicted}
use operation_system_proj_c.Vmpager.Memory.Copying.{Holds}
use operation_system_proj_c.Vmpager.Memory.Caching.{Cached, cache_nonresident_page-Cached}
use operation_system_proj_c.Vmpager.Memory.Accessing.{IsPinned, Faulted, refused}
use operation_system_proj_c.Vmpager.Memory.Faulting.{vm_fault-Faulted}
use operation_system_proj_c.Vmpager.Memory.Caching.{HasMemory}
use operation_system_proj_c.Vmpager.Map.{read_filename_str}
use operation_system_proj_c.Vmpager.Map.Reading.{IsReady, Outcome, read_filename_str-Outcome}
use operation_system_proj_c.Vmpager.Process.{vm_init, inspect_clock_queue}
use operation_system_proj_c.Vmpager.State.{new_process_info}
use operation_system_proj_c.Vmpager.Process.{copy_pages}
use operation_system_proj_c.Vmpager.Process.Creating.{Forked, copy_pages-Forked}
use operation_system_proj_c.Vmpager.Process.Start.{vm_init-IsValid}
use operation_system_proj_c.Vmpager.Process.Queue.{useful, inspect_clock_queue-useful}
use operation_system_proj_c.Prelude.{zero, suc, ltb, ◌&&◌}
use operation_system_proj_c.Vmpager.State.{has_pte}

-- A page is a number. Every read succeeds and gives the number of the block.
instance abbrev pub toy_vm : VmApi
toy_vm = record {
  Page = ℕ;
  Files = ℕ;
  zeroes = 0;
  char_at = λ page i. page;
  file_read = λ files name block. (true, block);
  file_write = λ files name block page. files + 1;
}

abbrev zero_block : MemBlock
zero_block = record {
  dirty = false;
  referenced = true;
  resident = true;
  is_swap = true;
  swap_blocks = 4 ∷ [];
  ptes = [];
  location = 0;
  type = phys;
  filename = [];
  block_num = 0;
}

-- Block 1 holds page 0 of process 7 and is in memory; every other block is in the swap file.
abbrev block_one : MemBlock
block_one = record zero_block {
  dirty = true;
  swap_blocks = 2 ∷ [];
  ptes = (7, 0) ∷ [];
  location = 1;
}

abbrev sent_block : MemBlock
sent_block = record zero_block {
  referenced = false;
  resident = false;
  swap_blocks = 3 ∷ [];
  location = 3;
  type = swap;
}

abbrev process_seven : ProcessInfo
process_seven = record {
  valid = λ i. true;
  data_location = λ i. if i == 0 then some 1 else some 0;
  next_invalid_page = 2;
  num_swap_blocks = 2;
}

-- Memory is full.
abbrev full : Pager ℕ ℕ
full = record {
  blocks = update (update (λ b. sent_block) 1 block_one) 0 zero_block;
  next_block = 3;
  clock_queue = 1 ∷ [];
  curr_pid = 7;
  base = 7;
  free_mem_blocks = [];
  free_swap_blocks = 5 ∷ [];
  process_info_mp = λ pid. if pid == 7 then some process_seven else none;
  page_tables = λ pid i. default_entry;
  file_mapping_table = λ name n. none;
  physmem = λ page. 0;
  tmp_buffer = 0;
  files = 0;
}

in_full : (b : ℕ) → count b full.clock_queue ≢ 0 → 1 ≡ b
in_full b n = ground arith

IsBlock-cases : (b : ℕ) → IsBlock (update (λ x. sent_block) 1 block_one b)
IsBlock-cases b = elim (Bool-cases (1 == b)) [
  | inl e ↦ rw e (record { reserved = λ s. omega arith; away = λ r. cc r })
  | inr e ↦ rw e (record { reserved = λ s. omega arith; away = λ r. refl })
]

full-IsValid : IsValid full
full-IsValid = record {
  distinct = (omega arith, tt);
  known = λ b n. (omega (arith, in_full b n), omega (arith, in_full b n));
  cached = λ b n.
      subst (λ x. IsCached (full.blocks x)) (in_full b n)
        (record { resident = refl; type = refl; backed = λ s. omega arith });
  blocks = λ b z. let apart : (0 == b) ≡ false = ground (arith, z) in rw apart (IsBlock-cases b);
  zero_resident = refl;
}

full-IsPinned : IsPinned full
full-IsPinned = record { location = refl; is_swap = refl; alone = refl; known = omega arith }

find_victim-Chosen_example :
    (v : ℕ) × (s' : Pager ℕ ℕ) × (find_victim 2 full ≡ some (v, s')) × Chosen full v s'
find_victim-Chosen_example = find_victim-Chosen full (λ e. cc e) (omega arith, tt)

evict_phys_page-Evicted_example :
    (s' : Pager ℕ ℕ) × (evict_phys_page full ≡ some (tt, s')) × Evicted full s'
evict_phys_page-Evicted_example = evict_phys_page-Evicted full full-IsValid (λ e. cc e)

cache_nonresident_page-Cached_example :
    (success : Bool) × (s' : Pager ℕ ℕ) × (cache_nonresident_page 2 full ≡ some (success, s'))
    × Cached 2 full s' success
cache_nonresident_page-Cached_example =
    cache_nonresident_page-Cached 2 full full-IsValid (λ e q. cc q) refl (omega arith)
      (λ s. omega arith)

-- A write to page 1, which shares `zero_page`: block 1 leaves memory for the copy.
vm_fault-Faulted_example :
    (success : Bool) × (s' : Pager ℕ ℕ) × (vm_fault 0x600010000 true full ≡ some (success, s'))
    × IsValid s'
    × ((page : ℕ) → count page (frames s') ≡ count page (frames full))
    × (refused process_seven (addr_to_index 0x600010000) ≡ true → (success ≡ false) × (s' ≡ full))
    × (success ≡ true → Faulted true 7 (addr_to_index 0x600010000) s')
unfolding addr_to_index
vm_fault-Faulted_example =
    vm_fault-Faulted 0x600010000 true full process_seven full-IsValid (λ e q. cc q) full-IsPinned
      refl refl
      (λ r. (
        0,
        refl,
        record { below = omega arith; listed = λ z. absurd (z refl); zero = λ z. omega arith },
      ))

addr_to_index-index_to_addr_example :
    (addr_to_index (index_to_addr 3 + 17) ≡ 3)
    × (calculate_page_offset (index_to_addr 3 + 17) ≡ 17)
    × (arena_base ≤ index_to_addr 3 + 17)
    × (index_to_addr 3 + 17 < arena_base + arena_size)
addr_to_index-index_to_addr_example = addr_to_index-index_to_addr 3 17 (omega arith) (omega arith)

addr_to_index-lt_iff_example :
    (addr_to_index 0x5ffffffff < num_virt_addr)
    ↔ ((arena_base < 0x5ffffffff + page_size) × (0x5ffffffff < arena_base + arena_size))
addr_to_index-lt_iff_example = addr_to_index-lt_iff 0x5ffffffff (omega arith)

-- The byte before the arena has the number of its first page.
before_arena : addr_to_index 0x5ffffffff ≡ 0
unfolding addr_to_index
before_arena = refl

seven_holds : (v : ℕ) → (b : ℕ) × (process_seven.data_location v ≡ some b) × Holds v b full
unfolding has_pte
seven_holds zero =
    (1, refl, record { below = omega arith; listed = λ z. refl; zero = λ e. omega arith })
seven_holds (suc v) = (
  0,
  ground arith,
  record { below = omega arith; listed = λ z. absurd (z refl); zero = λ e. omega arith },
)

seven-IsReady : IsReady process_seven full
seven-IsReady = record {
  valid = full-IsValid;
  memory = λ e q. cc q;
  pinned = full-IsPinned;
  mapped = λ v e. seven_holds v;
}

read_filename_str-Outcome_example :
    Outcome process_seven full (read_filename_str process_seven 0x600000003 full)
    × (0x600000003 < arena_base
        → read_filename_str process_seven 0x600000003 full ≡ some (none, full))
read_filename_str-Outcome_example =
    read_filename_str-Outcome process_seven 0x600000003 full seven-IsReady (omega arith)

vm_init-IsValid_example :
    IsValid (vm_init 4 8 (λ page. page) 0)
    × IsPinned (vm_init 4 8 (λ page. page) 0)
    × ((page : ℕ)
        → count page (frames (vm_init 4 8 (λ x. x) 0))
          ≡ (if ltb 0 page && ltb page 4 then 1 else 0))
    × (2 ≤ 4 → HasMemory (vm_init 4 8 (λ page. page) 0))
vm_init-IsValid_example = vm_init-IsValid 4 8 (λ page. page) 0

inspect_clock_queue-useful_example :
    inspect_clock_queue (1 ∷ []) full
    ≡ record full { clock_queue = useful full.blocks (0 ∷ 1 ∷ []) full.clock_queue }
inspect_clock_queue-useful_example = inspect_clock_queue-useful (1 ∷ []) full

-- Process 7 copies itself into process 8.
abbrev forking : Pager ℕ ℕ
forking = record full {
  process_info_mp = λ pid.
      if pid == 7 then some process_seven else if pid == 8 then some (new_process_info 0) else none;
}

forking-IsValid : IsValid forking
forking-IsValid = record {
  distinct = full-IsValid.distinct;
  known = full-IsValid.known;
  cached = full-IsValid.cached;
  blocks = full-IsValid.blocks;
  zero_resident = full-IsValid.zero_resident;
}

copy_pages-Forked_example :
    (c' : ProcessInfo) × (s' : Pager ℕ ℕ) × (copy_pages 7 8 0 1 forking ≡ some (tt, s'))
    × Forked 8 0 1 process_seven (new_process_info 0) c' forking s'
copy_pages-Forked_example =
    copy_pages-Forked 7 8 process_seven (omega arith) 1 0 (new_process_info 0) forking
      forking-IsValid refl refl (λ j low high. ((seven_holds j).0, (seven_holds j).1)) (omega arith)
