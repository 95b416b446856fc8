-- ===== src/Vmpager/Memory/Eviction.antt =====
-- vmpager/utils.cpp: `evict_phys_page` and the invariant of memory.
use operation_system_proj_c.Prelude.{
  update_self, ℕ, ◌<◌, ◌≤◌, ◌≡◌, ◌≢◌, refl, sym, ap, subst, ◌∙◌, Bool, true, false, Bool-cases,
  Option, none, some, List, [], ◌∷◌, ◌++◌, arith, length, count, count-append, update, ◌==◌, inl,
  inr, is_empty,
}
use operation_system_proj_c.Vmpager.Api.{VmApi}
use operation_system_proj_c.Vmpager.State.{
  Pager, MemBlock, PageTableEntry, is_phys, swap, file, front, when, modify, map_file,
}
use operation_system_proj_c.Vmpager.Evict.{release, retarget, write_back, Target, evict_phys_page}
use operation_system_proj_c.Vmpager.Evict.Clock.{
  Chosen, clear, clear-cases, clear-out, find_victim-Chosen,
}
use operation_system_proj_c.Vmpager.Memory.{
  locations, frames, IsCached, IsBlock, IsValid, locations-same, clear-location, Chosen-count,
  Chosen-locations, Chosen-in, Distinct-count, count-Distinct,
}

-- What an eviction may do to a block.
pub record Same (m m' : MemBlock) : Type 0 where
  pub ptes : m'.ptes ≡ m.ptes
  pub swap_blocks : m'.swap_blocks ≡ m.swap_blocks
  pub is_swap : m'.is_swap ≡ m.is_swap

-- What an eviction keeps.
pub record Kept {P F : Type 0} (s s' : Pager P F) : Type 0 where
  pub valid : IsValid s'
  pub conserved : (page : ℕ) → count page (frames s') ≡ count page (frames s)
  pub outside : (b : ℕ) → count b s.clock_queue ≡ 0 → s'.blocks b ≡ s.blocks b
  pub same : (b : ℕ) → Same (s.blocks b) (s'.blocks b)
  pub shorter : (b : ℕ) → count b s'.clock_queue ≤ count b s.clock_queue
  pub next_block : s'.next_block ≡ s.next_block
  pub process_info_mp : s'.process_info_mp ≡ s.process_info_mp
  pub curr_pid : s'.curr_pid ≡ s.curr_pid
  pub base : s'.base ≡ s.base
  pub tmp_buffer : s'.tmp_buffer ≡ s.tmp_buffer
  pub free_swap_blocks : s'.free_swap_blocks ≡ s.free_swap_blocks

-- An eviction: one page more is free.
pub record Evicted {P F : Type 0} (s s' : Pager P F) : Type 0 where
  pub kept : Kept s s'
  pub room : (page : ℕ) × (s'.free_mem_blocks ≡ s.free_mem_blocks ++ page ∷ [])

-- The block `v` after its eviction.
record IsSent (m m' : MemBlock) : Type 0 where
  same : Same m m'
  resident : m'.resident ≡ false
  type : is_phys m'.type ≡ false

pub front-some : (xs : List ℕ) → 0 < length xs → (n : ℕ) × (front xs ≡ some n)
front-some [] h = absurd (omega (arith, h))
front-some (x ∷ xs) h = (x, refl)

front-in : (xs : List ℕ) → xs ≢ [] → (n : ℕ) × (front xs ≡ some n) × (count n xs ≢ 0)
front-in [] h = absurd (h refl)
front-in (x ∷ xs) h = (x, refl, ground arith)

Same-trans : {a b c : MemBlock} → Same a b → Same b c → Same a c
Same-trans p q = record {
  ptes = q.ptes ∙ p.ptes;
  swap_blocks = q.swap_blocks ∙ p.swap_blocks;
  is_swap = q.is_swap ∙ p.is_swap;
}

Same-clear : (xs : List ℕ) (f : ℕ → MemBlock) (b : ℕ) → Same (f b) (clear xs f b)
Same-clear xs f b = elim (clear-cases xs f b) [
  | inl e ↦ rw e (record { ptes = refl; swap_blocks = refl; is_swap = refl })
  | inr e ↦ rw e (record { ptes = refl; swap_blocks = refl; is_swap = refl })
]

clear-resident : (xs : List ℕ) (f : ℕ → MemBlock) (b : ℕ) → (clear xs f b).resident ≡ (f b).resident
clear-resident xs f b = elim (clear-cases xs f b) [ inl e ↦ rw e refl | inr e ↦ rw e refl ]

-- A block that the clock hand has passed or not is cached, or a block, as before.
IsCached-clear : (xs : List ℕ) (f : ℕ → MemBlock) (b : ℕ) → IsCached (f b) → IsCached (clear xs f b)
IsCached-clear xs f b c = elim (clear-cases xs f b) [
  | inl e ↦ rw e c
  | inr e ↦ rw e (record { resident = c.resident; type = c.type; backed = c.backed })
]

IsBlock-clear : (xs : List ℕ) (f : ℕ → MemBlock) (b : ℕ) → IsBlock (f b) → IsBlock (clear xs f b)
IsBlock-clear xs f b k = elim (clear-cases xs f b) [
  | inl e ↦ rw e k
  | inr e ↦ rw e (record { reserved = k.reserved; away = k.away })
]

IsBlock-Sent : (m m' : MemBlock) → IsBlock m → IsSent m m' → IsBlock m'
IsBlock-Sent m m' k t = record {
  reserved = λ e. rw (t.same.ptes, t.same.swap_blocks) (k.reserved (sym t.same.is_swap ∙ e));
  away = λ e. t.type;
}

-- The state after the block `v` has left the queue and its page is free.
module _ {P F : Type 0} {s s1 : Pager P F} {v : ℕ} (valid : IsValid s) (c : Chosen s v s1)
    (g : ℕ → MemBlock) (sent : IsSent (s.blocks v) (g v))
    (others : (b : ℕ) → b ≢ v → g b ≡ clear c.skipped s.blocks b) (tables : ℕ → ℕ → PageTableEntry)
    (table : List ℕ → ℕ → Option ℕ) (files : F) (freed : ℕ)
    (freed_eq : freed ≡ (s.blocks v).location) where
  abbrev vacated : Pager P F
  vacated = record s {
    blocks = g;
    clock_queue = c.queue;
    free_mem_blocks = s.free_mem_blocks ++ freed ∷ [];
    page_tables = tables;
    file_mapping_table = table;
    files = files;
  }

  queue-le : (b : ℕ) → count b c.queue ≤ count b s.clock_queue
  queue-le b = omega (arith, Chosen-count c b)

  -- The chosen block is gone from the queue, so the blocks in it are as the hand left them.
  queue-ne : (b : ℕ) → count b c.queue ≢ 0 → b ≢ v
  queue-ne b n e =
      ground (arith, n, e, Chosen-count c v, Distinct-count s.clock_queue valid.distinct v)

  in_queue : (b : ℕ) → count b c.queue ≢ 0 → count b s.clock_queue ≢ 0
  in_queue b n = omega (arith, n, queue-le b)

  vacated-IsValid : IsValid vacated
  vacated-IsValid = record {
    distinct =
        count-Distinct c.queue
          (λ b. omega (arith, queue-le b, Distinct-count s.clock_queue valid.distinct b));
    known = λ b n. valid.known b (in_queue b n);
    cached = λ b n.
        rw (others b (queue-ne b n))
          (IsCached-clear c.skipped s.blocks b (valid.cached b (in_queue b n)));
    blocks = λ b z. elim (Bool-cases (b == v)) [
      | inl t ↦
          let same : b ≡ v = ground (arith, t) in
          rw same
            (IsBlock-Sent (s.blocks v) (g v) (valid.blocks v (valid.known v (Chosen-in c)).0) sent)
      | inr f ↦
          rw (others b (ground (arith, f))) (IsBlock-clear c.skipped s.blocks b (valid.blocks b z))
    ];
    zero_resident =
        rw (others 0 (λ e. (valid.known v (Chosen-in c)).0 (sym e)))
          (clear-resident c.skipped s.blocks 0 ∙ valid.zero_resident);
  }

  vacated-conserved : (page : ℕ) → count page (frames vacated) ≡ count page (frames s)
  vacated-conserved page =
      let same : locations g c.queue ≡ locations s.blocks c.queue =
        locations-same g s.blocks c.queue (λ b n.
          ap (λ m. m.location) (others b (queue-ne b n)) ∙ clear-location c.skipped s.blocks b) in
      omega (
        arith,
        ap (count page) same,
        Chosen-locations c s.blocks page,
        ap (λ x. count page (x ∷ [])) freed_eq,
        count-append page (s.free_mem_blocks ++ freed ∷ []) (locations g c.queue),
        count-append page s.free_mem_blocks (freed ∷ []),
        count-append page s.free_mem_blocks (locations s.blocks s.clock_queue),
      )

  skipped-in : (b : ℕ) → count b c.skipped ≢ 0 → count b s.clock_queue ≢ 0
  skipped-in b n = elim c.order [
    | inl (rest, clock, _, _, _) ↦ rw clock (omega (arith, n, count-append b c.skipped (v ∷ rest)))
    | inr (all, _, _) ↦ subst (λ q. count b q ≢ 0) all n
  ]

  -- Blocks that are not in the queue are not touched.
  outside_lem : (b : ℕ) → count b s.clock_queue ≡ 0 → g b ≡ s.blocks b
  outside_lem b n =
      others b (λ e. Chosen-in c (ap (λ x. count x s.clock_queue) (sym e) ∙ n))
      ∙ clear-out c.skipped s.blocks b (ground (arith, n, skipped-in b))

  same_lem : (b : ℕ) → Same (s.blocks b) (g b)
  same_lem b = elim (Bool-cases (b == v)) [
    | inl t ↦ let e : b ≡ v = ground (arith, t) in rw e sent.same
    | inr f ↦ rw (others b (ground (arith, f))) (Same-clear c.skipped s.blocks b)
  ]

  vacated-Kept : Kept s vacated
  vacated-Kept = record {
    valid = vacated-IsValid;
    conserved = vacated-conserved;
    outside = λ b n. outside_lem b n;
    same = λ b. same_lem b;
    shorter = queue-le;
    next_block = refl;
    process_info_mp = refl;
    curr_pid = refl;
    base = refl;
    tmp_buffer = refl;
    free_swap_blocks = refl;
  }

  vacated-Evicted : Evicted s vacated
  vacated-Evicted = record { kept = vacated-Kept; room = (freed, refl) }

module _ ⦃vm : VmApi⦄ where
  open vm use {Page, Files, file_write}

  -- The end of `evict_phys_page` for the block `v`.
  retarget-sends :
      (v : ℕ) (s : Pager Page Files)
      → ((s.blocks v).is_swap ≡ true → 0 < length (s.blocks v).swap_blocks)
      → (t : Target) × (m : MemBlock) × (table : List ℕ → ℕ → Option ℕ) × (retarget v s
          ≡ some (t, record s { blocks = update s.blocks v m; file_mapping_table = table }))
        × Same (s.blocks v) m
        × (m.resident ≡ (s.blocks v).resident)
        × (is_phys m.type ≡ false)
  unfolding retarget
  retarget-sends v s backed = elim (Bool-cases (s.blocks v).is_swap) [
    | inr f ↦ elim (Bool-cases (is_empty (s.blocks v).ptes)) [
      | inl e ↦ (
        record { filename = some (s.blocks v).filename; block = (s.blocks v).block_num },
        record (s.blocks v) { type = file; location = (s.blocks v).block_num },
        map_file s.file_mapping_table (s.blocks v).filename (s.blocks v).block_num none,
        simp (f, e),
        record { ptes = refl; swap_blocks = refl; is_swap = refl },
        refl,
        refl,
      )
      | inr e ↦ (
        record { filename = some (s.blocks v).filename; block = (s.blocks v).block_num },
        record (s.blocks v) { type = file; location = (s.blocks v).block_num },
        s.file_mapping_table,
        ground arith,
        record { ptes = refl; swap_blocks = refl; is_swap = refl },
        refl,
        refl,
      )
    ]
    | inl t ↦
        let (n, first) = front-some (s.blocks v).swap_blocks (backed t) in
        (
          record { filename = none; block = n },
          record (s.blocks v) { type = swap; location = n },
          s.file_mapping_table,
          simp (t, first),
          record { ptes = refl; swap_blocks = refl; is_swap = refl },
          refl,
          refl,
        )
  ]

  -- The write of the content, if there is one.
  write_back-ends :
      (dirty : Bool) (t : Target) (page : ℕ) (s : Pager Page Files)
      → (files : Files) × (when dirty (modify (write_back t page)) s
          ≡ some (tt, record s { files = files }))
  unfolding write_back
  write_back-ends true t page s = (file_write s.files t.filename t.block (s.physmem page), refl)
  write_back-ends false t page s = (s.files, refl)

  -- With a block in the clock queue `evict_phys_page` comes to its end: no assertion fails and no empty
  -- queue is read. One page more is free, every page is where it can be given out as often as
  -- before, the blocks in the queue stay valid, and blocks outside it are not touched.
  pub evict_phys_page-Evicted :
      (s : Pager Page Files)
      → IsValid s
      → s.clock_queue ≢ []
      → (s' : Pager Page Files) × (evict_phys_page s ≡ some (tt, s')) × Evicted s s'
  unfolding evict_phys_page release
  evict_phys_page-Evicted s valid n =
      let (b0, first, in0) = front-in s.clock_queue n in
      let first_phys = (valid.cached b0 in0).type in
      let (v, s1, run, c) = find_victim-Chosen s n valid.distinct in
      let cached = IsCached-clear c.skipped s.blocks v (valid.cached v (Chosen-in c)) in
      let m = clear c.skipped s.blocks v in
      let s2 : Pager Page Files = record s {
        blocks = clear c.skipped s.blocks;
        page_tables = c.tables;
        clock_queue = c.queue;
      } in
      let m1 = record m { resident = false; dirty = false; referenced = false } in
      let one : (release v s2).blocks v ≡ m1 = update_self s2.blocks v m1 in
      let (t, m', table, sent, same, resident, away) =
        retarget-sends v (release v s2)
          (subst (λ x. x.is_swap ≡ true → 0 < length x.swap_blocks) (sym one) cached.backed) in
      let g = update (release v s2).blocks v m' in
      let two : g v ≡ m' = update_self (release v s2).blocks v m' in
      let s3 : Pager Page Files = record (release v s2) {
        blocks = g;
        file_mapping_table = table;
      } in
      let (files, back) = write_back-ends m.dirty t m.location s3 in
      let released : Same m m1 = record { ptes = refl; swap_blocks = refl; is_swap = refl } in
      let is_sent : IsSent (s.blocks v) m' = record {
        same =
            Same-trans (Same-clear c.skipped s.blocks v)
              (Same-trans released (subst (λ x. Same x m') one same));
        resident = resident ∙ ap (λ x. x.resident) one;
        type = away;
      } in
      let found = run ∙ ap (λ u. some (v, u)) c.after in
      (
        record s3 { files = files },
        rw (first, first_phys, found, cached.type, sent, back) refl,
        vacated-Evicted valid c g (rw two is_sent) (λ b ne. ground (arith, ne))
            (release v s2).page_tables table files m.location (clear-location c.skipped s.blocks v),
      )
