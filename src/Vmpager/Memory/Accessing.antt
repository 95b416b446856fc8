-- ===== src/Vmpager/Memory/Accessing.antt =====
-- vmpager/vm_pager.cpp: the two halves of `vm_fault`, bringing the block in and giving access to it.
use operation_system_proj_c.Prelude.{
  update_self, ℕ, ◌<◌, ◌≤◌, ◌≡◌, ◌≢◌, refl, sym, ap, ◌∙◌, Bool, true, false, not, leb, Bool-cases,
  Option, some, List, [], ◌∷◌, arith, length, count, ==-refl, ◌||◌, inl, inr,
}
use operation_system_proj_c.Vmpager.Api.{VmApi}
use operation_system_proj_c.Vmpager.State.{Pager, MemBlock, ProcessInfo, has_pte}
use operation_system_proj_c.Vmpager.Faults.{
  read_fault_handler, write_fault_handler, is_copy_on_writable,
}
use operation_system_proj_c.Vmpager.Cache.{point_at, write_access, ensure_resident, access}
use operation_system_proj_c.Vmpager.Memory.{frames, IsValid}
use operation_system_proj_c.Vmpager.Memory.Eviction.{}
use operation_system_proj_c.Vmpager.Memory.Caching.{HasMemory, cache_nonresident_page-Cached}
use operation_system_proj_c.Vmpager.Memory.Copying.{Holds, copy_on_write-Copied}
use operation_system_proj_c.Vmpager.Memory.Handling.{read_fault_handler-Handled, both-Handled}

-- Page 0 is that of `zero_page` alone, which is backed by the swap file.
pub record IsPinned {P F : Type 0} (s : Pager P F) : Type 0 where
  pub location : (s.blocks 0).location ≡ 0
  pub is_swap : (s.blocks 0).is_swap ≡ true
  pub alone : count 0 (frames s) ≡ 0
  pub known : 0 < s.next_block

has_pte-nonempty : (e : ℕ × ℕ) (xs : List (ℕ × ℕ)) → has_pte e xs ≡ true → 0 < length xs
unfolding has_pte
has_pte-nonempty e [] h = cc h
has_pte-nonempty e (x ∷ xs) h = omega arith

has_pte_self : (e : ℕ × ℕ) → has_pte e (e ∷ []) ≡ true
unfolding has_pte
has_pte_self (p, i) = rw (==-refl p, ==-refl i) refl

single_page : (m : MemBlock) → is_copy_on_writable m ≡ false → m.is_swap ≡ true → length m.ptes ≤ 1
unfolding is_copy_on_writable
single_page m h e = ground (arith, h, e)

pub zero_page-shared :
    (m : MemBlock) → m.location ≡ 0 → m.is_swap ≡ true → is_copy_on_writable m ≡ true
unfolding is_copy_on_writable
zero_page-shared m h e = ground (arith, h, e)

module _ ⦃vm : VmApi⦄ where
  open vm use {Page, Files}

  -- The state in which the block `b` is in memory, if it could be read.
  pub record Ensured (v b : ℕ) (s s' : Pager Page Files) (success : Bool) : Type 0 where
    pub valid : IsValid s'
    pub conserved : (page : ℕ) → count page (frames s') ≡ count page (frames s)
    pub resident : success ≡ true → (s'.blocks b).resident ≡ true
    pub memory : HasMemory s'
    pub zero : s'.blocks 0 ≡ s.blocks 0
    pub next_block : s'.next_block ≡ s.next_block
    pub holds : Holds v b s'
    pub all_hold : (v' b' : ℕ) → Holds v' b' s → Holds v' b' s'
    pub process_info_mp : s'.process_info_mp ≡ s.process_info_mp
    pub curr_pid : s'.curr_pid ≡ s.curr_pid
    pub base : s'.base ≡ s.base

  pub ensure_resident-Ensured :
      (v b : ℕ) (s : Pager Page Files)
      → IsValid s
      → HasMemory s
      → Holds v b s
      → (success : Bool) × (s' : Pager Page Files) × (ensure_resident b s ≡ some (success, s'))
        × Ensured v b s s' success
  unfolding ensure_resident
  ensure_resident-Ensured v b s valid memory holds = elim (Bool-cases (s.blocks b).resident) [
    | inl here ↦ (
      true,
      s,
      simp (here),
      record {
        valid = valid;
        conserved = λ p. refl;
        resident = λ e. here;
        memory = memory;
        zero = refl;
        next_block = refl;
        holds = holds;
        all_hold = λ v' b' h. h;
        process_info_mp = refl;
        curr_pid = refl;
        base = refl;
      },
    )
    | inr away ↦
        let not_zero : b ≢ 0 =
          λ e. cc (ap (λ x. (s.blocks x).resident) e, away, valid.zero_resident) in
        let listed = holds.listed not_zero in
        let nonempty : 0 < length (s.blocks b).ptes =
          has_pte-nonempty (s.base, v) (s.blocks b).ptes listed in
        let (success, s', run, c) =
          cache_nonresident_page-Cached b s valid memory away holds.below
            (λ e. omega (arith, nonempty, (valid.blocks b not_zero).reserved e)) in
        let moved : (v' b' : ℕ) → Holds v' b' s → Holds v' b' s' = λ v' b' h. record {
          below = omega (arith, h.below, c.next_block);
          listed = λ z. rw (c.base, (c.same b').ptes) (h.listed z);
          zero = λ e. rw (c.same 0).swap_blocks (h.zero e);
        } in
        (
          success,
          s',
          simp (away, run),
          record {
            valid = c.valid;
            conserved = c.conserved;
            resident = c.present;
            memory = c.memory;
            zero = c.zero;
            next_block = c.next_block;
            holds = moved v b holds;
            all_hold = moved;
            process_info_mp = c.process_info_mp;
            curr_pid = c.curr_pid;
            base = c.base;
          },
        )
  ]

  -- What a fault at the page `v` of the process `pid` leaves: `block` holds it and is in memory.
  -- The page may be read, unless it is still that of `zero_page`; after a write it may be written, its
  -- block is dirty and not `zero_page`, and no other page has a swap-backed block.
  pub record Faulted (write_flag : Bool) (pid v : ℕ) (s' : Pager Page Files) : Type 0 where
    pub block : ℕ
    pub info : ProcessInfo
    pub process : s'.process_info_mp pid ≡ some info
    pub holds : info.data_location v ≡ some block
    pub resident : (s'.blocks block).resident ≡ true
    pub readable : block ≢ 0 → (s'.page_tables pid v).read_enable ≡ true
    pub own : write_flag ≡ true → block ≢ 0
    pub dirty : write_flag ≡ true → (s'.blocks block).dirty ≡ true
    pub writable : write_flag ≡ true → (s'.page_tables pid v).write_enable ≡ true
    pub alone :
        write_flag ≡ true → (s'.blocks block).is_swap ≡ true → length (s'.blocks block).ptes ≤ 1

  -- The end of a fault, from the state `s`.
  abbrev pub Ends : Bool → ℕ → Pager Page Files → Option (Bool × Pager Page Files) → Type 0
  Ends write_flag v s result =
      (s' : Pager Page Files) × (result ≡ some (true, s'))
      × IsValid s'
      × ((page : ℕ) → count page (frames s') ≡ count page (frames s))
      × Faulted write_flag s.curr_pid v s'

  module _ (info : ProcessInfo) (v b : ℕ) (t : Pager Page Files) (valid : IsValid t)
      (base : t.base ≡ t.curr_pid) (holds : Holds v b t)
      (known : t.process_info_mp t.curr_pid ≡ some info)
      (at_b : info.data_location v ≡ some b) where
    listed : b ≢ 0 → has_pte (t.curr_pid, v) (t.blocks b).ptes ≡ true
    listed z = ap (λ x. has_pte (x, v) (t.blocks b).ptes) (sym base) ∙ holds.listed z

    access_read : (t.blocks b).resident ≡ true → Ends false v t (access info v b false true t)
    unfolding access
    access_read resident =
        let h = read_fault_handler-Handled b t valid in
        (
          read_fault_handler b t,
          refl,
          h.valid,
          h.conserved,
          record {
            block = b;
            info = info;
            process = ap (λ x. x t.curr_pid) h.process_info_mp ∙ known;
            holds = at_b;
            resident = h.resident;
            readable = λ z. h.readable t.curr_pid v (listed z);
            own = λ e. cc e;
            dirty = λ e. cc e;
            writable = λ e. cc e;
            alone = λ e. cc e;
          },
        )

    -- A write to a block that needs no copy.
    access_write :
        is_copy_on_writable (t.blocks b) ≡ false
        → b ≢ 0
        → Ends true v t (access info v b true true t)
    unfolding access write_access
    access_write single z =
        let h = both-Handled b t valid in
        (
          read_fault_handler b (write_fault_handler b t),
          simp (single),
          h.valid,
          h.conserved,
          record {
            block = b;
            info = info;
            process = ap (λ x. x t.curr_pid) h.process_info_mp ∙ known;
            holds = at_b;
            resident = h.resident;
            readable = λ z. h.readable t.curr_pid v (listed z);
            own = λ e. z;
            dirty = h.dirty;
            writable = λ e. h.writable refl t.curr_pid v (listed z);
            alone = λ e swap.
                omega
                  (arith, ap length h.ptes, single_page (t.blocks b) single (sym h.is_swap ∙ swap));
          },
        )

    -- A write to a block that is copied.
    access_copy :
        HasMemory t
        → count 0 (frames t) ≡ 0
        → is_copy_on_writable (t.blocks b) ≡ true
        → Ends true v t (access info v b true true t)
    unfolding access write_access
    access_copy memory alone shared =
        let (n, u, run, c) = copy_on_write-Copied info v b t valid memory alone holds shared in
        let (page, k, made) = c.copy in
        let h = both-Handled n u c.valid in
        let own : has_pte (t.curr_pid, v) (u.blocks n).ptes ≡ true =
          rw made (has_pte_self (t.curr_pid, v)) in
        (
          read_fault_handler n (write_fault_handler n u),
          simp (shared, run),
          h.valid,
          (λ p. h.conserved p ∙ c.conserved p),
          record {
            block = n;
            info = point_at v n info;
            process = ap (λ x. x t.curr_pid) h.process_info_mp ∙ c.process_info_mp;
            holds = update_self info.data_location v (some n);
            resident = h.resident;
            readable = λ z. h.readable t.curr_pid v own;
            own = λ e. c.fresh;
            dirty = h.dirty;
            writable = λ e. h.writable refl t.curr_pid v own;
            alone = λ e swap. omega (arith, ap length h.ptes, ap (λ m. length m.ptes) made);
          },
        )

  -- The test by which `vm_fault` refuses an access to the page `v`.
  abbrev pub refused : ProcessInfo → ℕ → Bool
  refused info v = leb info.next_invalid_page v || not (info.valid v)

  pub access-Ends :
      (info : ProcessInfo) (v b : ℕ) (write_flag : Bool) (t : Pager Page Files)
      → IsValid t
      → t.base ≡ t.curr_pid
      → Holds v b t
      → t.process_info_mp t.curr_pid ≡ some info
      → info.data_location v ≡ some b
      → (t.blocks b).resident ≡ true
      → HasMemory t
      → count 0 (frames t) ≡ 0
      → (b ≡ 0 → is_copy_on_writable (t.blocks b) ≡ true)
      → Ends write_flag v t (access info v b write_flag true t)
  access-Ends info v b false t valid base holds known at_b resident memory alone zero =
      access_read info v b t valid base holds known at_b resident
  access-Ends info v b true t valid base holds known at_b resident memory alone zero =
      elim (Bool-cases (is_copy_on_writable (t.blocks b))) [
        | inl e ↦ access_copy info v b t valid base holds known at_b memory alone e
        | inr e ↦ access_write info v b t valid base holds known at_b e (λ z. cc (zero z, e))
      ]
