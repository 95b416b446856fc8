-- ===== src/Threadlib/System.antt =====
-- threadlib/cpu.h, constants.h and utils.cpp: the state that the library keeps and its scheduler.
-- A thread is named by the address of its `thread_info`; 0 is the null pointer. A cpu is a number.
-- Each function is the body of an operation that runs under `os_guard`, so it is one atomic step.
pub mod Switching
use operation_system_proj_c.Prelude.{
  ℕ, Bool, true, false, Option, none, some, List, [], ◌∷◌, ◌++◌, ◌==◌, if◌then◌else◌, update,
}

-- `struct thread_info`, less the saved registers and the stack.
pub record ThreadInfo : Type 0 where
  pub threads_waiting : List ℕ
  pub finished : Bool

-- The members that the library adds to `class cpu`.
pub record Cpu : Type 0 where
  pub executing_thread : ℕ
  pub waiting_thread : ℕ

-- `infos` is the heap of thread_info objects (`none`: not allocated, or destroyed), and `sent` the
-- cpus to which `interrupt_send` was called.
pub record System : Type 0 where
  pub ready_threads : List ℕ
  pub finished_threads : List ℕ
  pub suspended_cpus : List ℕ
  pub cpus : ℕ → Cpu
  pub infos : ℕ → Option ThreadInfo
  pub sent : List ℕ

-- How control leaves an operation: back to the caller, by `swapcontext` or by `setcontext`.
pub data Transfer : Type 0 where
  stay : Transfer
  swap_context : ℕ → ℕ → Transfer
  set_context : ℕ → Transfer

abbrev pub executing : System → ℕ → ℕ
executing s c = (s.cpus c).executing_thread

abbrev pub idle_thread : System → ℕ → ℕ
idle_thread s c = (s.cpus c).waiting_thread

abbrev pub set_executing : System → ℕ → ℕ → System
set_executing s c t = record s {
  cpus = update s.cpus c (record (s.cpus c) { executing_thread = t });
}

-- `weak_ptr::lock`: null once the object is gone.
abbrev pub weak_lock : System → ℕ → ℕ
weak_lock s t = elim (s.infos t) [ none ↦ 0 | some i ↦ t ]

wake_first : System → List ℕ → System
wake_first s [] = s
wake_first s (c ∷ rest) = record s { suspended_cpus = rest; sent = s.sent ++ c ∷ [] }

-- `push_and_signal`
unfoldable pub push_and_signal : System → ℕ → System
unfolding wake_first
push_and_signal s t =
    wake_first (record s { ready_threads = s.ready_threads ++ t ∷ [] }) s.suspended_cpus

-- The thread that `wait_and_pop` runs next, with the ready queue that is left.
unfoldable pub next_thread : ℕ → List ℕ → ℕ × List ℕ
next_thread idle [] = (idle, [])
next_thread idle (t ∷ rest) = (t, rest)

-- `wait_and_pop`, up to the transfer of control.
unfoldable pub wait_and_pop : System → ℕ → ℕ → System × Transfer
unfolding next_thread
wait_and_pop s c curr =
    let (new_thread, rest) = next_thread (idle_thread s c) s.ready_threads in
    let s' = set_executing (record s { ready_threads = rest }) c new_thread in
    if weak_lock s curr == 0
    then (s', set_context new_thread)
    else if curr == new_thread
    then (s', stay)
    else (s', swap_context curr new_thread)

-- `create_thread` and the thread constructor; the allocator returned the address `t`.
unfoldable pub create_thread : System → ℕ → System
create_thread s t = record s {
  infos = update s.infos t (some (record { threads_waiting = []; finished = false }));
}

unfoldable pub spawn : System → ℕ → System
unfolding create_thread push_and_signal
spawn s t = push_and_signal (create_thread s t) t

idle_turn : System → ℕ → List ℕ → System × Transfer
idle_turn s c [] = (record s { suspended_cpus = s.suspended_cpus ++ c ∷ [] }, stay)
idle_turn s c (t ∷ rest) =
    (set_executing (record s { ready_threads = rest }) c t, swap_context (idle_thread s c) t)

-- One round of `wait_for_ready_thread`: suspend the cpu, or run the first ready thread.
unfoldable pub wait_for_ready_thread : System → ℕ → System × Transfer
unfolding idle_turn
wait_for_ready_thread s c = idle_turn s c s.ready_threads
