-- ===== src/Vmpager/Memory/Joining.antt =====
-- vmpager/utils.cpp: a block takes a free page and goes to the end of the clock queue.
use operation_system_proj_c.Prelude.{
  ℕ, ◌+◌, ◌<◌, ◌≤◌, ◌≡◌, ◌≢◌, sym, ap, ◌∙◌, Bool-cases, Option, List, [], ◌∷◌, ◌++◌, arith, count,
  count-append, ◌==◌, inl, inr,
}
use operation_system_proj_c.Vmpager.State.{Pager, MemBlock, ProcessInfo, PageTableEntry}
use operation_system_proj_c.Vmpager.Memory.{
  locations, frames, IsCached, IsBlock, IsValid, locations-same, locations-append, Distinct-count,
  count-Distinct,
}

-- The block `b`, which is not in the queue, takes the page `page` from the free ones.
module _ {P F : Type 0} (t : Pager P F) (valid : IsValid t) (b page : ℕ) (rest : List ℕ)
    (free : t.free_mem_blocks ≡ page ∷ rest) (g : ℕ → MemBlock) (next : ℕ) (not_zero : b ≢ 0)
    (below : b < next) (grows : t.next_block ≤ next) (absent : count b t.clock_queue ≡ 0)
    (is_cached : IsCached (g b)) (is_block : IsBlock (g b)) (at_page : (g b).location ≡ page)
    (others : (x : ℕ) → x ≢ b → g x ≡ t.blocks x) (tables : ℕ → ℕ → PageTableEntry) (memory : ℕ → P)
    (infos : ℕ → Option ProcessInfo) where
  abbrev pub joined : Pager P F
  joined = record t {
    blocks = g;
    next_block = next;
    clock_queue = t.clock_queue ++ b ∷ [];
    free_mem_blocks = rest;
    process_info_mp = infos;
    page_tables = tables;
    physmem = memory;
  }

  joined-count : (x : ℕ) → count x joined.clock_queue ≡ count x t.clock_queue + count x (b ∷ [])
  joined-count x = count-append x t.clock_queue (b ∷ [])

  older : (x : ℕ) → count x joined.clock_queue ≢ 0 → x ≢ b → count x t.clock_queue ≢ 0
  older x n e = ground (arith, joined-count x, n, e)

  pub joined-IsValid : IsValid joined
  joined-IsValid = record {
    distinct = count-Distinct joined.clock_queue (λ x.
        ground (arith, joined-count x, absent, Distinct-count t.clock_queue valid.distinct x));
    known = λ x n. elim (Bool-cases (x == b)) [
      | inl e ↦ let same : x ≡ b = ground (arith, e) in rw same (not_zero, below)
      | inr f ↦
          let old = valid.known x (older x n (ground (arith, f))) in
          (old.0, omega (arith, old.1, grows))
    ];
    cached = λ x n. elim (Bool-cases (x == b)) [
      | inl e ↦ let same : x ≡ b = ground (arith, e) in rw same is_cached
      | inr f ↦
          let ne : x ≢ b = ground (arith, f) in rw (others x ne) (valid.cached x (older x n ne))
    ];
    blocks = λ x z. elim (Bool-cases (x == b)) [
      | inl e ↦ let same : x ≡ b = ground (arith, e) in rw same is_block
      | inr f ↦ rw (others x (ground (arith, f))) (valid.blocks x z)
    ];
    zero_resident = rw (others 0 (λ e. not_zero (sym e))) valid.zero_resident;
  }

  pub joined-conserved : (p : ℕ) → count p (frames joined) ≡ count p (frames t)
  joined-conserved p =
      let same : locations g t.clock_queue ≡ locations t.blocks t.clock_queue =
        locations-same g t.blocks t.clock_queue (λ x n.
          ap (λ m. m.location) (others x (λ e. n (ap (λ y. count y t.clock_queue) e ∙ absent)))) in
      omega (
        arith,
        ap (count p) (locations-append g t.clock_queue (b ∷ [])),
        ap (count p) same,
        ap (λ x. count p (x ∷ [])) at_page,
        ap (count p) free,
        count-append p (locations g t.clock_queue) (locations g (b ∷ [])),
        count-append p rest (locations g (t.clock_queue ++ b ∷ [])),
        count-append p t.free_mem_blocks (locations t.blocks t.clock_queue),
      )
