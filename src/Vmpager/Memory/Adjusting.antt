-- ===== src/Vmpager/Memory/Adjusting.antt =====
-- vmpager/utils.cpp: changes of a block that leave it where it is.
use operation_system_proj_c.Prelude.{
  update_self, ℕ, ◌<◌, ◌≡◌, ◌≢◌, sym, subst, ap, true, Bool-cases, Option, ◌++◌, arith, length,
  count, update, ◌==◌, inl, inr,
}
use operation_system_proj_c.Vmpager.State.{Pager, MemBlock, ProcessInfo, PageTableEntry, is_phys}
use operation_system_proj_c.Vmpager.Memory.{frames, IsCached, IsBlock, IsValid, locations-same}
use operation_system_proj_c.Vmpager.Memory.Eviction.{}

-- What a change of the block `b` of `s` into `m` has to respect.
pub record Fits {P F : Type 0} (s : Pager P F) (b : ℕ) (m : MemBlock) : Type 0 where
  pub location : m.location ≡ (s.blocks b).location
  pub resident : (s.blocks b).resident ≡ true → m.resident ≡ true
  pub type : is_phys (s.blocks b).type ≡ true → is_phys m.type ≡ true
  pub backed : count b s.clock_queue ≢ 0 → m.is_swap ≡ true → 0 < length m.swap_blocks
  pub is_block : b ≢ 0 → IsBlock m

module _ {P F : Type 0} (s : Pager P F) (valid : IsValid s) (b : ℕ) (m : MemBlock)
    (fits : Fits s b m) (tables : ℕ → ℕ → PageTableEntry) (infos : ℕ → Option ProcessInfo)
    (buffer : P) where
  abbrev pub adjusted : Pager P F
  adjusted = record s {
    blocks = update s.blocks b m;
    page_tables = tables;
    process_info_mp = infos;
    tmp_buffer = buffer;
  }

  self : adjusted.blocks b ≡ m
  self = update_self s.blocks b m

  others : (x : ℕ) → x ≢ b → adjusted.blocks x ≡ s.blocks x
  others x ne = ground (arith, ne)

  IsCached-self : count b s.clock_queue ≢ 0 → IsCached m
  IsCached-self n = record {
    resident = fits.resident (valid.cached b n).resident;
    type = fits.type (valid.cached b n).type;
    backed = fits.backed n;
  }

  pub adjusted-IsValid : IsValid adjusted
  adjusted-IsValid = record {
    distinct = valid.distinct;
    known = valid.known;
    cached = λ x n. elim (Bool-cases (x == b)) [
      | inl e ↦
          let same : x ≡ b = ground (arith, e) in
          subst (λ y. count y s.clock_queue ≢ 0 → IsCached (adjusted.blocks y)) (sym same)
            (λ k. rw self (IsCached-self k)) n
      | inr f ↦ rw (others x (ground (arith, f))) (valid.cached x n)
    ];
    blocks = λ x z. elim (Bool-cases (x == b)) [
      | inl e ↦
          let same : x ≡ b = ground (arith, e) in
          subst (λ y. y ≢ 0 → IsBlock (adjusted.blocks y)) (sym same)
            (λ k. rw self (fits.is_block k)) z
      | inr f ↦ rw (others x (ground (arith, f))) (valid.blocks x z)
    ];
    zero_resident = elim (Bool-cases (0 == b)) [
      | inl e ↦
          let same : 0 ≡ b = ground (arith, e) in
          subst (λ y. (s.blocks y).resident ≡ true → (adjusted.blocks y).resident ≡ true) (sym same)
            (λ k. rw self (fits.resident k)) valid.zero_resident
      | inr f ↦ rw (others 0 (ground (arith, f))) valid.zero_resident
    ];
  }

  location_lem : (x : ℕ) → (adjusted.blocks x).location ≡ (s.blocks x).location
  location_lem x = elim (Bool-cases (x == b)) [
    | inl e ↦ let same : x ≡ b = ground (arith, e) in rw (same, self) fits.location
    | inr f ↦ ap (λ y. y.location) (others x (ground (arith, f)))
  ]

  pub adjusted-conserved : (page : ℕ) → count page (frames adjusted) ≡ count page (frames s)
  adjusted-conserved page =
      ap (λ l. count page (s.free_mem_blocks ++ l))
        (locations-same adjusted.blocks s.blocks s.clock_queue (λ x n. location_lem x))
