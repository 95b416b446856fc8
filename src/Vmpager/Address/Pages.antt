-- ===== src/Vmpager/Address/Pages.antt =====
-- vmpager/utils.cpp: the pages of the arena and the addresses in them.
use operation_system_proj_c.Prelude.{ℕ, ◌+◌, ◌≤◌, ◌<◌, ◌≡◌, ◌↔◌, arith, ltb, Bool-cases, inl, inr}
use operation_system_proj_c.Vmpager.Address.{
  page_size, arena_base, arena_size, num_virt_addr, addr_to_index, index_to_addr,
  calculate_page_offset,
}

-- An address in page `i` of the arena, `o` bytes behind its first, is found in page `i` at the offset
-- `o`, and lies in the arena.
pub addr_to_index-index_to_addr :
    (i o : ℕ)
    → i < num_virt_addr
    → o < page_size
    → (addr_to_index (index_to_addr i + o) ≡ i)
      × (calculate_page_offset (index_to_addr i + o) ≡ o)
      × (arena_base ≤ index_to_addr i + o)
      × (index_to_addr i + o < arena_base + arena_size)
unfolding addr_to_index index_to_addr calculate_page_offset
addr_to_index-index_to_addr i o h k = (ground arith, omega arith, omega arith, omega arith)

-- Of the addresses below 2^47 those have the number of a page that are in the arena, or less than one
-- page before it, since the quotient is rounded towards 0; all others have no page number below
-- `num_virt_addr`.
pub addr_to_index-lt_iff :
    (addr : ℕ)
    → addr < 0x800000000000
    → (addr_to_index addr < num_virt_addr)
      ↔ ((arena_base < addr + page_size) × (addr < arena_base + arena_size))
unfolding addr_to_index
addr_to_index-lt_iff addr h = elim (Bool-cases (ltb addr arena_base)) [
  | inl e ↦
      let below : addr < arena_base = ground (arith, e) in
      rw e ((λ k. (omega (arith, k), omega arith)), λ k. omega (arith, k))
  | inr e ↦
      let above : arena_base ≤ addr = ground (arith, e) in
      rw e ((λ k. (omega arith, omega (arith, k))), λ k. omega (arith, k))
]
