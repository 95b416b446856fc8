-- ===== src/Vmpager/Memory/Handling.antt =====
-- vmpager/utils.cpp: `write_fault_handler` and `read_fault_handler` at the end of `vm_fault`.
use operation_system_proj_c.Prelude.{update_self, ℕ, ◌≡◌, refl, ap, ◌∙◌, Bool, true, false, count}
use operation_system_proj_c.Vmpager.State.{Pager, has_pte}
use operation_system_proj_c.Vmpager.Faults.{read_fault_handler, write_fault_handler}
use operation_system_proj_c.Vmpager.Memory.{frames, IsValid}
use operation_system_proj_c.Vmpager.Memory.Eviction.{}
use operation_system_proj_c.Vmpager.Memory.Adjusting.{
  Fits, adjusted, adjusted-IsValid, adjusted-conserved,
}
use operation_system_proj_c.Vmpager.Memory.Entries.{
  read_fault_handler-Opened, write_fault_handler-all,
}

-- What the handlers at the end of `vm_fault` do for the block `n`.
pub record Handled {P F : Type 0} (write_flag : Bool) (n : ℕ) (s s' : Pager P F) : Type 0 where
  pub valid : IsValid s'
  pub conserved : (page : ℕ) → count page (frames s') ≡ count page (frames s)
  pub process_info_mp : s'.process_info_mp ≡ s.process_info_mp
  pub curr_pid : s'.curr_pid ≡ s.curr_pid
  pub resident : (s'.blocks n).resident ≡ true
  pub dirty : write_flag ≡ true → (s'.blocks n).dirty ≡ true
  pub ptes : (s'.blocks n).ptes ≡ (s.blocks n).ptes
  pub is_swap : (s'.blocks n).is_swap ≡ (s.blocks n).is_swap
  pub readable :
      (pid i : ℕ)
      → has_pte (pid, i) (s.blocks n).ptes ≡ true
      → (s'.page_tables pid i).read_enable ≡ true
  pub writable :
      write_flag ≡ true
      → (pid i : ℕ) → has_pte (pid, i) (s.blocks n).ptes ≡ true
      → (s'.page_tables pid i).write_enable ≡ true

module _ {P F : Type 0} (n : ℕ) (s : Pager P F) (valid : IsValid s) where
  read-Fits : Fits s n (record (s.blocks n) { referenced = true; resident = true })
  read-Fits = record {
    location = refl;
    resident = λ e. refl;
    type = λ e. e;
    backed = λ k. (valid.cached n k).backed;
    is_block = λ z. record { reserved = (valid.blocks n z).reserved; away = λ e. cc e };
  }

  write-Fits : Fits s n (record (s.blocks n) { dirty = true })
  write-Fits = record {
    location = refl;
    resident = λ e. e;
    type = λ e. e;
    backed = λ k. (valid.cached n k).backed;
    is_block =
        λ z. record { reserved = (valid.blocks n z).reserved; away = (valid.blocks n z).away };
  }

  pub read_fault_handler-Handled : Handled false n s (read_fault_handler n s)
  read_fault_handler-Handled =
      let (tables, read, opened) = read_fault_handler-Opened n s in
      let m = record (s.blocks n) { referenced = true; resident = true } in
      let self = update_self s.blocks n m in
      let ends : Handled false n s
          (adjusted s valid n m read-Fits tables s.process_info_mp s.tmp_buffer) =
        record {
          valid = adjusted-IsValid s valid n m read-Fits tables s.process_info_mp s.tmp_buffer;
          conserved =
              adjusted-conserved s valid n m read-Fits tables s.process_info_mp s.tmp_buffer;
          process_info_mp = refl;
          curr_pid = refl;
          resident = ap (λ x. x.resident) self;
          dirty = λ e. cc e;
          ptes = ap (λ x. x.ptes) self;
          is_swap = ap (λ x. x.is_swap) self;
          readable = opened.readable;
          writable = λ e. cc e;
        } in
      rw read ends

-- The same after a write.
module _ {P F : Type 0} (n : ℕ) (s : Pager P F) (valid : IsValid s) where
  pub both-Handled : Handled true n s (read_fault_handler n (write_fault_handler n s))
  unfolding write_fault_handler
  both-Handled =
      let m = record (s.blocks n) { dirty = true } in
      let tables1 = (write_fault_handler n s).page_tables in
      let u = adjusted s valid n m (write-Fits n s valid) tables1 s.process_info_mp s.tmp_buffer in
      let valid_u =
        adjusted-IsValid s valid n m (write-Fits n s valid) tables1 s.process_info_mp
          s.tmp_buffer in
      let all_u =
        adjusted-conserved s valid n m (write-Fits n s valid) tables1 s.process_info_mp
          s.tmp_buffer in
      let one : u.blocks n ≡ m = update_self s.blocks n m in
      let (tables, read, opened) = read_fault_handler-Opened n u in
      let m2 = record (u.blocks n) { referenced = true; resident = true } in
      let self = update_self u.blocks n m2 in
      let fits = read-Fits n u valid_u in
      let ends : Handled true n s
          (adjusted u valid_u n m2 fits tables u.process_info_mp u.tmp_buffer) =
        record {
          valid = adjusted-IsValid u valid_u n m2 fits tables u.process_info_mp u.tmp_buffer;
          conserved = λ p.
              adjusted-conserved u valid_u n m2 fits tables u.process_info_mp u.tmp_buffer p
              ∙ all_u p;
          process_info_mp = refl;
          curr_pid = refl;
          resident = ap (λ x. x.resident) self;
          dirty = λ e. ap (λ x. x.dirty) self ∙ ap (λ x. x.dirty) one;
          ptes = ap (λ x. x.ptes) self ∙ ap (λ x. x.ptes) one;
          is_swap = ap (λ x. x.is_swap) self ∙ ap (λ x. x.is_swap) one;
          readable = λ pid i h. opened.readable pid i (ap (λ x. has_pte (pid, i) x.ptes) one ∙ h);
          writable = λ e pid i h. opened.writable pid i (write_fault_handler-all n s pid i h);
        } in
      rw read ends
