-- ===== src/Vmpager/Address.antt =====
-- vmpager/vm_arena.h and utils.cpp: the arena, addresses and page numbers. Addresses are numbers
-- below 2^64.
pub mod Pages
use operation_system_proj_c.Prelude.{ℕ, ◌+◌, ◌-◌, ◌*◌, ◌/◌, ◌%◌, ◌^◌, ltb, if◌then◌else◌}

abbrev pub page_size : ℕ
page_size = 0x10000

abbrev pub arena_base : ℕ
arena_base = 0x600000000

abbrev pub arena_size : ℕ
arena_size = 0x01000000

abbrev pub num_virt_addr : ℕ
num_virt_addr = arena_size / page_size

-- The difference of pointers is signed and its quotient is rounded towards 0; then it becomes an
-- `unsigned int`.
unfoldable pub addr_to_index : ℕ → ℕ
addr_to_index addr =
    if ltb addr arena_base
    then (2 ^ 32 - ((arena_base - addr) / page_size) % 2 ^ 32) % 2 ^ 32
    else ((addr - arena_base) / page_size) % 2 ^ 32

-- The product is one of `unsigned int`, which wraps.
unfoldable pub index_to_addr : ℕ → ℕ
index_to_addr index = arena_base + (index * page_size) % 2 ^ 32

unfoldable pub calculate_page_offset : ℕ → ℕ
calculate_page_offset addr = addr % page_size
