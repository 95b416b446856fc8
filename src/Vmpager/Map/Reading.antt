-- ===== src/Vmpager/Map/Reading.antt =====
-- vmpager/utils.cpp: `get_data` and the loop of `read_filename_str`.
use operation_system_proj_c.Prelude.{
  ℕ, zero, suc, ◌+◌, ◌<◌, ◌≤◌, ◌≡◌, refl, ap, ◌∙◌, Bool, true, false, not, leb, ltb, Bool-cases,
  Option, none, some, List, [], ◌∷◌, ◌++◌, arith, count, if◌then◌else◌, ◌==◌, ◌||◌, inl, inr,
}
use operation_system_proj_c.Vmpager.Api.{VmApi}
use operation_system_proj_c.Vmpager.State.{Pager, ProcessInfo}
use operation_system_proj_c.Vmpager.Address.{
  arena_base, arena_size, num_virt_addr, addr_to_index, calculate_page_offset,
}
use operation_system_proj_c.Vmpager.Address.Pages.{addr_to_index-lt_iff}
use operation_system_proj_c.Vmpager.Map.{get_data, read_chars, read_filename_str}
use operation_system_proj_c.Vmpager.Memory.{frames, IsValid}
use operation_system_proj_c.Vmpager.Memory.Caching.{HasMemory}
use operation_system_proj_c.Vmpager.Memory.Copying.{Holds}
use operation_system_proj_c.Vmpager.Memory.Accessing.{IsPinned, Ensured, ensure_resident-Ensured}

module _ ⦃vm : VmApi⦄ where
  open vm use {Page, Files, char_at}

  -- What the pager relies on when it looks at the pages of the process `info`.
  pub record IsReady (info : ProcessInfo) (s : Pager Page Files) : Type 0 where
    pub valid : IsValid s
    pub memory : HasMemory s
    pub pinned : IsPinned s
    pub mapped :
        (v : ℕ) → info.valid v ≡ true → (b : ℕ) × (info.data_location v ≡ some b) × Holds v b s

  -- What reading a name leaves as it is.
  pub record Reads (info : ProcessInfo) (s s' : Pager Page Files) : Type 0 where
    pub ready : IsReady info s'
    pub conserved : (page : ℕ) → count page (frames s') ≡ count page (frames s)
    pub all_hold : (v b : ℕ) → Holds v b s → Holds v b s'
    pub zero : s'.blocks 0 ≡ s.blocks 0
    pub next_block : s'.next_block ≡ s.next_block
    pub process_info_mp : s'.process_info_mp ≡ s.process_info_mp
    pub curr_pid : s'.curr_pid ≡ s.curr_pid
    pub base : s'.base ≡ s.base

  Reads-refl : (info : ProcessInfo) (s : Pager Page Files) → IsReady info s → Reads info s s
  Reads-refl info s ready = record {
    ready = ready;
    conserved = λ p. refl;
    all_hold = λ v b h. h;
    zero = refl;
    next_block = refl;
    process_info_mp = refl;
    curr_pid = refl;
    base = refl;
  }

  Reads-trans :
      (info : ProcessInfo) (s t u : Pager Page Files)
      → Reads info s t
      → Reads info t u
      → Reads info s u
  Reads-trans info s t u p q = record {
    ready = q.ready;
    conserved = λ x. q.conserved x ∙ p.conserved x;
    all_hold = λ v b h. q.all_hold v b (p.all_hold v b h);
    zero = q.zero ∙ p.zero;
    next_block = q.next_block ∙ p.next_block;
    process_info_mp = q.process_info_mp ∙ p.process_info_mp;
    curr_pid = q.curr_pid ∙ p.curr_pid;
    base = q.base ∙ p.base;
  }

  Ensured-Reads :
      (info : ProcessInfo) (v b : ℕ) (s s' : Pager Page Files) (success : Bool)
      → IsReady info s
      → Ensured v b s s' success
      → Reads info s s'
  Ensured-Reads info v b s s' success ready c = record {
    ready = record {
      valid = c.valid;
      memory = c.memory;
      pinned = record {
        location = ap (λ m. m.location) c.zero ∙ ready.pinned.location;
        is_swap = ap (λ m. m.is_swap) c.zero ∙ ready.pinned.is_swap;
        alone = c.conserved 0 ∙ ready.pinned.alone;
        known = omega (arith, c.next_block, ready.pinned.known);
      };
      mapped = λ w e. let (x, at, h) = ready.mapped w e in (x, at, c.all_hold w x h);
    };
    conserved = c.conserved;
    all_hold = c.all_hold;
    zero = c.zero;
    next_block = c.next_block;
    process_info_mp = c.process_info_mp;
    curr_pid = c.curr_pid;
    base = c.base;
  }

  get_data-Reads :
      (info : ProcessInfo) (addr : ℕ) (s : Pager Page Files)
      → IsReady info s
      → info.valid (addr_to_index addr) ≡ true
      → (r : Option ℕ) × (s' : Pager Page Files) × (get_data info addr s ≡ some (r, s'))
        × Reads info s s'
  unfolding get_data
  get_data-Reads info addr s ready valid =
      let v = addr_to_index addr in
      let (b, at_b, holds) = ready.mapped v valid in
      let (success, t, run, c) = ensure_resident-Ensured v b s ready.valid ready.memory holds in
      (
        (if success
            then some (char_at (t.physmem (t.blocks b).location) (calculate_page_offset addr))
            else none),
        t,
        simp (at_b, run),
        Ensured-Reads info v b s t success ready c,
      )

  -- The outcome of the loop and of the function.
  abbrev pub Outcome :
      ProcessInfo → Pager Page Files → Option (Option (List ℕ) × Pager Page Files) → Type 0
  Outcome info s result =
      (r : Option (List ℕ)) × (s' : Pager Page Files) × (result ≡ some (r, s')) × Reads info s s'

  read_chars_next :
      (fuel : ℕ) (info : ProcessInfo) (addr : ℕ) (name : List ℕ) (s t : Pager Page Files)
      (r : Option ℕ)
      → (leb num_virt_addr (addr_to_index addr) || not (info.valid (addr_to_index addr))) ≡ false
      → get_data info addr s ≡ some (r, t)
      → Reads info s t
      → ((c : ℕ) → Outcome info t (read_chars fuel info (addr + 1) (name ++ c ∷ []) t))
      → Outcome info s (read_chars (suc fuel) info addr name s)
  unfolding read_chars
  read_chars_next fuel info addr name s t none e run reads later =
      (none, t, rw (e, run) refl, reads)
  read_chars_next fuel info addr name s t (some c) e run reads later = elim (Bool-cases (c == 0)) [
    | inl end ↦ (some name, t, rw (e, run, end) refl, reads)
    | inr more ↦
        let (r, u, rest, reads') = later c in
        (r, u, rw (e, run, more) rest, Reads-trans info s t u reads reads')
  ]

  read_chars-Outcome :
      (fuel : ℕ) (info : ProcessInfo) (addr : ℕ) (name : List ℕ) (s : Pager Page Files)
      → IsReady info s
      → arena_base ≤ addr
      → addr < 0x800000000000
      → arena_base + arena_size < addr + fuel
      → 0 < fuel
      → Outcome info s (read_chars fuel info addr name s)
  unfolding read_chars
  read_chars-Outcome zero info addr name s ready low high enough pos = absurd (omega (arith, pos))
  read_chars-Outcome (suc fuel) info addr name s ready low high enough pos =
      let v = addr_to_index addr in
      elim (Bool-cases (leb num_virt_addr v || not (info.valid v))) [
        | inl e ↦ (none, s, rw e refl, Reads-refl info s ready)
        | inr e ↦
            let inside : v < num_virt_addr = ground (arith, e) in
            let valid : info.valid v ≡ true = ground (arith, e) in
            let bound = ((addr_to_index-lt_iff addr high).0 inside).1 in
            let (r, t, run, reads) = get_data-Reads info addr s ready valid in
            read_chars_next fuel info addr name s t r e run reads (λ c.
              read_chars-Outcome fuel info (addr + 1) (name ++ c ∷ []) t reads.ready
                (omega (arith, low)) (omega (arith, bound)) (omega (arith, enough))
                (omega (arith, enough, bound)))
      ]

  -- For a name at an address below 2^47, and a state in which the pages of the process are held,
  -- `read_filename_str` comes to its end: the fuel of its loop suffices, whatever the pages contain. It
  -- leaves the processes as they are, and a state in which the pages are held and every page of memory
  -- can be given out as often as before. A name below the arena is refused.
  pub read_filename_str-Outcome :
      (info : ProcessInfo) (filename : ℕ) (s : Pager Page Files)
      → IsReady info s
      → filename < 0x800000000000
      → Outcome info s (read_filename_str info filename s)
        × (filename < arena_base → read_filename_str info filename s ≡ some (none, s))
  unfolding read_filename_str
  read_filename_str-Outcome info filename s ready high =
      elim (Bool-cases (ltb filename arena_base)) [
        | inl e ↦ ((none, s, rw e refl, Reads-refl info s ready), λ h. rw e refl)
        | inr e ↦ (
          rw e (
              read_chars-Outcome (arena_size + 1) info filename [] s ready (ground (arith, e)) high
                (ground (arith, e)) (omega arith)),
          λ h. absurd (ground (arith, e, h)),
        )
      ]
