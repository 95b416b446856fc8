-- ===== src/Threadlib/System/Switching.antt =====
-- threadlib/utils.cpp: what `wait_and_pop` changes.
use operation_system_proj_c.Prelude.{ℕ, ◌≡◌, arith, head_or, tail}
use operation_system_proj_c.Threadlib.System.{System, executing, idle_thread, wait_and_pop}

-- The cpu `c` goes on with the first ready thread, or its idle thread, and nothing else changes.
pub record Switched (s s' : System) (c : ℕ) : Type 0 where
  pub runs : executing s' c ≡ head_or (idle_thread s c) s.ready_threads
  pub ready : s'.ready_threads ≡ tail s.ready_threads
  pub infos : s'.infos ≡ s.infos
  pub finished : s'.finished_threads ≡ s.finished_threads

pub wait_and_pop-Switched : (s : System) (c curr : ℕ) → Switched s (wait_and_pop s c curr).0 c
unfolding wait_and_pop
wait_and_pop-Switched s c curr = ground arith
