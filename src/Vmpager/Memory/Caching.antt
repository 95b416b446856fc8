-- ===== src/Vmpager/Memory/Caching.antt =====
-- vmpager/utils.cpp: `cache_nonresident_page` and the invariant of memory.
use operation_system_proj_c.Prelude.{
  update_self, ℕ, ◌<◌, ◌≡◌, ◌≢◌, refl, sym, ap, ◌∙◌, Bool, true, false, Bool-cases, none, some,
  List, [], ◌∷◌, ◌++◌, arith, length, count, count-append, update, if◌then◌else◌, ◌==◌, ==-refl,
  inl, inr, tail,
}
use operation_system_proj_c.Vmpager.Api.{VmApi}
use operation_system_proj_c.Vmpager.State.{Pager, MemBlock, is_phys, phys, for_entries}
use operation_system_proj_c.Vmpager.Evict.{evict_phys_page}
use operation_system_proj_c.Vmpager.Memory.{frames, IsCached, IsBlock, IsValid}
use operation_system_proj_c.Vmpager.Memory.Eviction.{Same, Kept, evict_phys_page-Evicted}
use operation_system_proj_c.Vmpager.Cache.{make_room, settle, points_to, cache_nonresident_page}
use operation_system_proj_c.Vmpager.Memory.Joining.{joined, joined-IsValid, joined-conserved}

Same-refl : (m : MemBlock) → Same m m
Same-refl m = record { ptes = refl; swap_blocks = refl; is_swap = refl }

Kept-refl : {P F : Type 0} (s : Pager P F) → IsValid s → Kept s s
Kept-refl s valid = record {
  valid = valid;
  conserved = λ p. refl;
  outside = λ b n. refl;
  same = λ b. Same-refl (s.blocks b);
  shorter = λ b. omega arith;
  next_block = refl;
  process_info_mp = refl;
  curr_pid = refl;
  base = refl;
  tmp_buffer = refl;
  free_swap_blocks = refl;
}

-- `zero_page` is not in the queue, so an eviction does not touch it.
zero_lem : {P F : Type 0} (s t : Pager P F) → IsValid s → Kept s t → t.blocks 0 ≡ s.blocks 0
zero_lem s t valid kept = kept.outside 0 (elim (Bool-cases (count 0 s.clock_queue == 0)) [
  | inl e ↦ ground (arith, e)
  | inr e ↦ absurd ((valid.known 0 (ground (arith, e))).0 refl)
])

-- There is memory: a free page, or a block that can be evicted.
abbrev pub HasMemory : {P F : Type 0} → Pager P F → Type 0
HasMemory s = s.free_mem_blocks ≡ [] → s.clock_queue ≢ []

append-ne : (xs : List ℕ) (x : ℕ) → xs ++ x ∷ [] ≢ []
append-ne [] x e = cc e
append-ne (y ∷ ys) x e = cc e

module _ ⦃vm : VmApi⦄ where
  open vm use {Page, Files, file_read}

  make_room-full : (s : Pager Page Files) → s.free_mem_blocks ≡ [] → make_room s ≡ evict_phys_page s
  unfolding make_room
  make_room-full s e = simp (e)

  make_room-free :
      (s : Pager Page Files) (page : ℕ) (rest : List ℕ)
      → s.free_mem_blocks ≡ page ∷ rest
      → make_room s ≡ some (tt, s)
  unfolding make_room
  make_room-free s page rest e = simp (e)

  room_cases :
      (s : Pager Page Files) (free : List ℕ)
      → s.free_mem_blocks ≡ free
      → IsValid s
      → HasMemory s
      → (page : ℕ) × (rest : List ℕ) × (t : Pager Page Files) × (make_room s ≡ some (tt, t))
        × (t.free_mem_blocks ≡ page ∷ rest)
        × Kept s t
  room_cases s (page ∷ rest) e valid memory =
      (page, rest, s, make_room-free s page rest e, e, Kept-refl s valid)
  room_cases s [] e valid memory =
      let (t, run, evicted) = evict_phys_page-Evicted s valid (memory e) in
      (
        evicted.room.0,
        [],
        t,
        make_room-full s e ∙ run,
        evicted.room.1 ∙ ap (λ l. l ++ evicted.room.0 ∷ []) e,
        evicted.kept,
      )

  -- When memory is full, a page becomes free; otherwise nothing happens.
  pub make_room-Kept :
      (s : Pager Page Files)
      → IsValid s
      → HasMemory s
      → (page : ℕ) × (rest : List ℕ) × (t : Pager Page Files) × (make_room s ≡ some (tt, t))
        × (t.free_mem_blocks ≡ page ∷ rest)
        × Kept s t
  make_room-Kept s valid memory = room_cases s s.free_mem_blocks refl valid memory

  -- What the read for the block `b` gives, and the state with the page that it fills.
  abbrev fetched : ℕ → Pager Page Files → Bool × Page
  fetched b t =
      let m = t.blocks b in
      file_read t.files (if m.is_swap then none else some m.filename) m.location

  abbrev filled : ℕ → ℕ → Pager Page Files → Pager Page Files
  filled b page t = record t { physmem = update t.physmem page (fetched b t).1 }

  filled-IsValid : (b page : ℕ) (t : Pager Page Files) → IsValid t → IsValid (filled b page t)
  filled-IsValid b page t valid = record {
    distinct = valid.distinct;
    known = valid.known;
    cached = valid.cached;
    blocks = valid.blocks;
    zero_resident = valid.zero_resident;
  }

  abbrev settled_block : ℕ → MemBlock → MemBlock
  settled_block page m = record m {
    type = phys;
    referenced = true;
    resident = true;
    dirty = false;
    location = page;
  }

  Same-moved : (page : ℕ) {m m' : MemBlock} → Same m m' → Same m (settled_block page m')
  Same-moved page h = record { ptes = h.ptes; swap_blocks = h.swap_blocks; is_swap = h.is_swap }

  fetch_ends :
      (b page : ℕ) (rest : List ℕ) (s t : Pager Page Files)
      → (s.blocks b).resident ≡ false
      → is_phys (s.blocks b).type ≡ false
      → make_room s ≡ some (tt, t)
      → t.free_mem_blocks ≡ page ∷ rest
      → cache_nonresident_page b s
        ≡ some (
          (fetched b t).0,
          (if (fetched b t).0 then settle b page (filled b page t) else filled b page t),
        )
  unfolding cache_nonresident_page
  fetch_ends b page rest s t away type run free = elim (Bool-cases (fetched b t).0) [
    | inl good ↦ simp (away, type, run, free, good)
    | inr bad ↦ simp (away, type, run, free, bad)
  ]

  -- What comes of reading the block `b` into memory.
  pub record Cached (b : ℕ) (s s' : Pager Page Files) (success : Bool) : Type 0 where
    pub valid : IsValid s'
    pub conserved : (page : ℕ) → count page (frames s') ≡ count page (frames s)
    pub present : success ≡ true → (s'.blocks b).resident ≡ true
    pub queued : success ≡ true → count b s'.clock_queue ≡ 1
    pub memory : HasMemory s'
    pub zero : s'.blocks 0 ≡ s.blocks 0
    pub same : (x : ℕ) → Same (s.blocks x) (s'.blocks x)
    pub next_block : s'.next_block ≡ s.next_block
    pub process_info_mp : s'.process_info_mp ≡ s.process_info_mp
    pub curr_pid : s'.curr_pid ≡ s.curr_pid
    pub base : s'.base ≡ s.base
    pub free_swap_blocks : s'.free_swap_blocks ≡ s.free_swap_blocks

  loaded :
      (b : ℕ) (s : Pager Page Files) (valid : IsValid s) (page : ℕ) (rest : List ℕ)
      (t : Pager Page Files) (free : t.free_mem_blocks ≡ page ∷ rest) (kept : Kept s t)
      → b < s.next_block
      → ((s.blocks b).is_swap ≡ true → 0 < length (s.blocks b).swap_blocks)
      → b ≢ 0
      → count b s.clock_queue ≡ 0
      → t.blocks b ≡ s.blocks b
      → (fetched b t).0 ≡ true
      → cache_nonresident_page b s
        ≡ some (
          (fetched b t).0,
          (if (fetched b t).0 then settle b page (filled b page t) else filled b page t),
        )
      → (success : Bool) × (s' : Pager Page Files) × (cache_nonresident_page b s
          ≡ some (success, s'))
        × Cached b s s' success
  unfolding settle
  loaded b s valid page rest t free kept below backed not_zero absent here good ends =
      let m : MemBlock = t.blocks b in
      let m' = settled_block page m in
      let g = update t.blocks b m' in
      let self : g b ≡ m' = update_self t.blocks b m' in
      let u = filled b page t in
      let valid_u = filled-IsValid b page t kept.valid in
      let below_u : b < t.next_block = omega (arith, below, kept.next_block) in
      let absent_u : count b t.clock_queue ≡ 0 = omega (arith, absent, kept.shorter b) in
      let is_cached : IsCached (g b) =
        rw self (record { resident = refl; type = refl; backed = rw here backed }) in
      let is_block : IsBlock (g b) =
        rw self (record { reserved = (kept.valid.blocks b not_zero).reserved; away = λ e. cc e }) in
      let tables = for_entries m.ptes (points_to page) t.page_tables in
      let at_page : (g b).location ≡ page = rw self refl in
      let others : (x : ℕ) → x ≢ b → g x ≡ t.blocks x = λ x ne. ground (arith, ne) in
      let j =
        joined u valid_u b page rest free g t.next_block not_zero below_u (omega arith) absent_u
          is_cached is_block at_page others tables u.physmem t.process_info_mp in
      let valid_j =
        joined-IsValid u valid_u b page rest free g t.next_block not_zero below_u (omega arith)
          absent_u is_cached is_block at_page others tables u.physmem t.process_info_mp in
      let all_j =
        joined-conserved u valid_u b page rest free g t.next_block not_zero below_u (omega arith)
          absent_u is_cached is_block at_page others tables u.physmem t.process_info_mp in
      (
        true,
        j,
        ends ∙ rw good (ap (λ l. some (true, record j { free_mem_blocks = tail l })) free),
        record {
          valid = valid_j;
          conserved = λ p. all_j p ∙ kept.conserved p;
          present = λ e. ap (λ x. x.resident) self;
          queued = λ e. ground (arith, absent_u, ==-refl b, count-append b t.clock_queue (b ∷ []));
          memory = λ e. append-ne t.clock_queue b;
          zero = others 0 (λ e. not_zero (sym e)) ∙ zero_lem s t valid kept;
          same = λ x. elim (Bool-cases (x == b)) [
            | inl e ↦
                let eq : x ≡ b = ground (arith, e) in rw (eq, self) (Same-moved page (kept.same b))
            | inr e ↦ rw (others x (ground (arith, e))) (kept.same x)
          ];
          next_block = kept.next_block;
          process_info_mp = kept.process_info_mp;
          curr_pid = kept.curr_pid;
          base = kept.base;
          free_swap_blocks = kept.free_swap_blocks;
        },
      )

  -- A block that is not in memory is no `zero_page`, is known, and has a swap block if it is backed by
  -- the swap file. Then `cache_nonresident_page` comes to its end, with no assertion failing and no empty
  -- queue read, whether or not the file can be read: the invariant holds afterwards and every page is
  -- where it can be given out as often as before. If the read succeeds, the block is in memory, and in
  -- the clock queue exactly once.
  pub cache_nonresident_page-Cached :
      (b : ℕ) (s : Pager Page Files)
      → IsValid s
      → HasMemory s
      → (s.blocks b).resident ≡ false
      → b < s.next_block
      → ((s.blocks b).is_swap ≡ true → 0 < length (s.blocks b).swap_blocks)
      → (success : Bool) × (s' : Pager Page Files) × (cache_nonresident_page b s
          ≡ some (success, s'))
        × Cached b s s' success
  unfolding settle
  cache_nonresident_page-Cached b s valid memory away below backed =
      let not_zero : b ≢ 0 =
        λ e. cc (ap (λ x. (s.blocks x).resident) e, away, valid.zero_resident) in
      let absent : count b s.clock_queue ≡ 0 = elim (Bool-cases (count b s.clock_queue == 0)) [
        | inl e ↦ ground (arith, e)
        | inr e ↦ cc (away, (valid.cached b (ground (arith, e))).resident)
      ] in
      let (page, rest, t, run, free, kept) = make_room-Kept s valid memory in
      let here : t.blocks b ≡ s.blocks b = kept.outside b absent in
      let ends = fetch_ends b page rest s t away ((valid.blocks b not_zero).away away) run free in
      let u = filled b page t in
      let valid_u = filled-IsValid b page t kept.valid in
      elim (Bool-cases (fetched b t).0) [
        | inr bad ↦ (
          false,
          u,
          ends ∙ rw bad refl,
          record {
            valid = valid_u;
            conserved = kept.conserved;
            present = λ e. cc e;
            queued = λ e. cc e;
            memory = λ e. cc (sym free ∙ e);
            zero = zero_lem s t valid kept;
            same = kept.same;
            next_block = kept.next_block;
            process_info_mp = kept.process_info_mp;
            curr_pid = kept.curr_pid;
            base = kept.base;
            free_swap_blocks = kept.free_swap_blocks;
          },
        )
        | inl good ↦
            loaded b s valid page rest t free kept below backed not_zero absent here good ends
      ]
