-- ===== src/Threadlib/Thread.antt =====
-- threadlib/thread.cpp: yield, join, and the end of a thread in `func_with_swap`.
pub mod RoundRobin
pub mod Joining
use operation_system_proj_c.Prelude.{
  ℕ, Bool, true, false, Option, none, some, List, [], ◌∷◌, ◌++◌, ◌||◌, ◌==◌, if◌then◌else◌, update,
}
use operation_system_proj_c.Threadlib.System.{
  System, ThreadInfo, Transfer, stay, swap_context, executing, idle_thread, set_executing,
  weak_lock, wait_and_pop,
}
use operation_system_proj_c.Threadlib.Cv.{push_all}

yield_to : System → ℕ → ℕ → List ℕ → System × Transfer
yield_to s c curr [] = (s, stay)
yield_to s c curr (t ∷ rest) =
    (set_executing (record s { ready_threads = rest ++ curr ∷ [] }) c t, swap_context curr t)

-- `thread::yield`
unfoldable pub yield : System → ℕ → System × Transfer
unfolding yield_to
yield s c =
    if executing s c == idle_thread s c
    then (s, stay)
    else yield_to s c (executing s c) s.ready_threads

-- `joined->threads_waiting.push(waiter)`
unfoldable pub add_waiter : System → ℕ → ThreadInfo → ℕ → System
add_waiter s joined i waiter = record s {
  infos =
      update s.infos joined
        (some (record i { threads_waiting = i.threads_waiting ++ waiter ∷ [] }));
}

join_info : System → ℕ → ℕ → ThreadInfo → System × Transfer
unfolding add_waiter wait_and_pop
join_info s c joined i =
    if i.finished
    then (s, stay)
    else (let curr = executing s c in
        wait_and_pop (add_waiter (set_executing s c 0) joined i curr) c curr)

-- `thread::join` of the thread at address `joined`
unfoldable pub join : System → ℕ → ℕ → System × Transfer
unfolding join_info
join s c joined = elim (s.infos joined) [ none ↦ (s, stay) | some i ↦ join_info s c joined i ]

-- `while (!finished_threads.empty()) finished_threads.pop()`, which destroys the objects.
unfoldable pub destroy_all : (ℕ → Option ThreadInfo) → List ℕ → ℕ → Option ThreadInfo
destroy_all infos [] = infos
destroy_all infos (t ∷ rest) = destroy_all (update infos t none) rest

-- `threads_waiting` of a thread, through its pointer.
unfoldable pub joiners : System → ℕ → List ℕ
joiners s t = elim (s.infos t) [ none ↦ [] | some i ↦ i.threads_waiting ]

-- The joiners become ready, and the thread `curr` is marked and listed as finished.
unfoldable pub retire : System → ℕ → System
retire s curr =
    let woken = push_all s (joiners s curr) in
    record woken {
      infos = update woken.infos curr (some (record { threads_waiting = []; finished = true }));
      finished_threads = woken.finished_threads ++ curr ∷ [];
    }

-- The block of `func_with_swap` after `func(arg)`, up to the transfer of control.
unfoldable pub finish : System → ℕ → System × Transfer
finish s c =
    let curr = executing s c in
    let cleared = record s {
      infos = destroy_all s.infos s.finished_threads;
      finished_threads = [];
    } in
    wait_and_pop (set_executing (retire cleared curr) c 0) c 0
