-- ===== src/Vmpager/Memory/Faulting.antt =====
-- vmpager/vm_pager.cpp: the whole of `vm_fault`.
use operation_system_proj_c.Prelude.{
  ℕ, ◌≡◌, refl, sym, ap, subst, ◌∙◌, Bool, true, false, Bool-cases, some, count, inl, inr,
}
use operation_system_proj_c.Vmpager.Api.{VmApi}
use operation_system_proj_c.Vmpager.State.{Pager, ProcessInfo}
use operation_system_proj_c.Vmpager.Address.{addr_to_index}
use operation_system_proj_c.Vmpager.Faults.{is_copy_on_writable}
use operation_system_proj_c.Vmpager.Cache.{ensure_resident, access, fault_at, vm_fault}
use operation_system_proj_c.Vmpager.Memory.{frames, IsValid}
use operation_system_proj_c.Vmpager.Memory.Caching.{HasMemory}
use operation_system_proj_c.Vmpager.Memory.Copying.{Holds}
use operation_system_proj_c.Vmpager.Memory.Accessing.{
  IsPinned, Ensured, ensure_resident-Ensured, Faulted, refused, access-Ends, zero_page-shared,
}

module _ ⦃vm : VmApi⦄ where
  open vm use {Page, Files}

  module _ (info : ProcessInfo) (v b : ℕ) (write_flag : Bool) (s : Pager Page Files)
      (memory : HasMemory s) (pinned : IsPinned s) (base : s.base ≡ s.curr_pid)
      (known : s.process_info_mp s.curr_pid ≡ some info)
      (at_b : info.data_location v ≡ some b) where
    -- The result of `fault_at`.
    abbrev Result : Type 0
    Result =
        (success : Bool) × (s' : Pager Page Files) × (fault_at info v write_flag s
          ≡ some (success, s'))
        × IsValid s'
        × ((page : ℕ) → count page (frames s') ≡ count page (frames s))
        × (success ≡ true → Faulted write_flag s.curr_pid v s')

    fault_run :
        (success : Bool) (t : Pager Page Files)
        → ensure_resident b s ≡ some (success, t)
        → fault_at info v write_flag s ≡ access info v b write_flag success t
    unfolding fault_at
    fault_run success t run = simp (at_b, run)

    fault_present :
        (success : Bool) (t : Pager Page Files)
        → ensure_resident b s ≡ some (success, t)
        → Ensured v b s t success
        → Result
    unfolding access
    fault_present false t run c =
        (false, t, fault_run false t run ∙ refl, c.valid, c.conserved, λ e. cc e)
    fault_present true t run c =
        let zero : b ≡ 0 → is_copy_on_writable (t.blocks b) ≡ true = λ e.
          ap (λ x. is_copy_on_writable (t.blocks x)) e
          ∙ ap is_copy_on_writable c.zero
          ∙ zero_page-shared (s.blocks 0) pinned.location pinned.is_swap in
        let known_t =
          ap (λ x. t.process_info_mp x) c.curr_pid
          ∙ ap (λ x. x s.curr_pid) c.process_info_mp
          ∙ known in
        let (s', end, valid, all, done) =
          access-Ends info v b write_flag t c.valid (c.base ∙ base ∙ sym c.curr_pid) c.holds known_t
            at_b (c.resident refl) c.memory (c.conserved 0 ∙ pinned.alone) zero in
        (
          true,
          s',
          fault_run true t run ∙ end,
          valid,
          (λ p. all p ∙ c.conserved p),
          λ e. subst (λ x. Faulted write_flag x v s') c.curr_pid done,
        )

    fault_at-ends : IsValid s → Holds v b s → Result
    fault_at-ends valid holds =
        let (success, t, run, c) = ensure_resident-Ensured v b s valid memory holds in
        fault_present success t run c

  -- Let the invariant hold, with memory to give out, page 0 only for `zero_page`, and a current
  -- process that the pager knows; and if the address is in a mapped page, let a block hold that
  -- page. Then `vm_fault` comes to its end on a read and on a write, with no assertion failing and
  -- no empty queue read. The invariant holds afterwards and every page of memory is where it can
  -- be given out as often as before. An address for which the test of `vm_fault` fails, since the
  -- page that `addr_to_index` gives is not below the next invalid page or not valid, is refused
  -- and nothing changes; by `addr_to_index` an address less than a page below the arena counts as
  -- one of page 0. If the fault succeeds, a block that is in memory holds the page, and the page
  -- may be read, unless its block is still `zero_page`; after a write the page may be written, its
  -- block is dirty and not `zero_page`, and a swap-backed block has no other page.
  pub vm_fault-Faulted :
      (addr : ℕ) (write_flag : Bool) (s : Pager Page Files) (info : ProcessInfo)
      → IsValid s
      → HasMemory s
      → IsPinned s
      → s.base ≡ s.curr_pid
      → s.process_info_mp s.curr_pid ≡ some info
      → (refused info (addr_to_index addr) ≡ false
          → (b : ℕ) × (info.data_location (addr_to_index addr) ≡ some b)
            × Holds (addr_to_index addr) b s)
      → (success : Bool) × (s' : Pager Page Files) × (vm_fault addr write_flag s
          ≡ some (success, s'))
        × IsValid s'
        × ((page : ℕ) → count page (frames s') ≡ count page (frames s))
        × (refused info (addr_to_index addr) ≡ true → (success ≡ false) × (s' ≡ s))
        × (success ≡ true → Faulted write_flag s.curr_pid (addr_to_index addr) s')
  unfolding vm_fault
  vm_fault-Faulted addr write_flag s info valid memory pinned base known mapped =
      let v = addr_to_index addr in
      elim (Bool-cases (refused info v)) [
        | inl e ↦ (false, s, simp (known, e), valid, (λ p. refl), (λ x. (refl, refl)), λ x. cc x)
        | inr e ↦
            let (b, at_b, holds) = mapped e in
            let (success, s', run, valid', all, done) =
              fault_at-ends info v b write_flag s memory pinned base known at_b valid holds in
            (success, s', simp (known, e, run), valid', all, (λ x. cc (x, e)), done)
      ]
