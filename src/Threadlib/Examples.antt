-- ===== src/Threadlib/Examples.antt =====
-- threadlib/: small machines on which the theorems about the thread library apply.
use operation_system_proj_c.Prelude.{
  ℕ, ◌≡◌, ◌≢◌, refl, ◌↔◌, false, none, some, [], ◌∷◌, ◌++◌, arith, take, head_or, ◌==◌,
  if◌then◌else◌,
}
use operation_system_proj_c.Threadlib.System.{System, ThreadInfo, stay, executing, push_and_signal}
use operation_system_proj_c.Threadlib.Mutex.{Mutex, lock, unlock}
use operation_system_proj_c.Threadlib.Mutex.Fifo.{
  IsValid, holders, lock-refines_queue, unlock-refines_queue, unlock-none_iff,
}
use operation_system_proj_c.Threadlib.Cv.{Cv, signal, broadcast}
use operation_system_proj_c.Threadlib.Cv.Wakeups.{Woken, signal_wakes_first, broadcast_wakes_all}
use operation_system_proj_c.Threadlib.Thread.{yield, join, finish, joiners}
use operation_system_proj_c.Threadlib.Thread.RoundRobin.{yield_times, yields_reach}
use operation_system_proj_c.Threadlib.Thread.Joining.{
  join-joiners, finish_wakes_joiners, finish_destroys_finished,
}
use operation_system_proj_c.Threadlib.Schedule.{Machine, here, next, population, unlocks, yields}
use operation_system_proj_c.Threadlib.Schedule.Conservation.{Reach-population}

abbrev info_of : ℕ → ThreadInfo
info_of t =
    if t == 1
    then record { threads_waiting = 5 ∷ 6 ∷ []; finished = false }
    else record { threads_waiting = []; finished = false }

-- Cpu 0 runs thread 1 and cpu 1 its idle thread 99; threads 2 and 3 are ready, and 4 has finished.
abbrev two_cpus : System
two_cpus = record {
  ready_threads = 2 ∷ 3 ∷ [];
  finished_threads = 4 ∷ [];
  suspended_cpus = 1 ∷ [];
  cpus = λ c.
      if c == 0
      then record { executing_thread = 1; waiting_thread = 98 }
      else record { executing_thread = 99; waiting_thread = 99 };
  infos = λ t. some (info_of t);
  sent = [];
}

-- Thread 7 holds it, and 8 waits.
abbrev contended : Mutex
contended = record { waiting_threads = 8 ∷ []; free = false; owned_thread = 7 }

-- Thread 1 holds it, and 8 waits.
abbrev owned : Mutex
owned = record { waiting_threads = 8 ∷ []; free = false; owned_thread = 1 }

contended-IsValid : IsValid contended
contended-IsValid = record {
  free_empty = λ h. ground (arith, h);
  owned = λ _. ground arith;
  waiting = (ground arith, tt);
}

owned-IsValid : IsValid owned
owned-IsValid = record {
  free_empty = λ h. ground (arith, h);
  owned = λ _. ground arith;
  waiting = (ground arith, tt);
}

lock-refines_queue_example :
    let (m', s', tr) = lock two_cpus 0 contended in
    IsValid m'
    × (holders m' ≡ holders contended ++ 1 ∷ [])
    × (holders contended ≡ [] → (s' ≡ two_cpus) × (tr ≡ stay))
    × (holders contended ≢ [] → executing s' 0 ≡ 2 × (s'.ready_threads ≡ 3 ∷ []))
lock-refines_queue_example =
    lock-refines_queue two_cpus 0 contended contended-IsValid (ground arith)

abbrev handed_over : Mutex
handed_over = record { waiting_threads = []; free = false; owned_thread = 8 }

unlock_owned : unlock two_cpus 0 owned ≡ some (handed_over, push_and_signal two_cpus 8)
unfolding unlock
unlock_owned = refl

unlock-refines_queue_example :
    IsValid handed_over
    × (holders owned ≡ 1 ∷ holders handed_over)
    × ((push_and_signal two_cpus 8).ready_threads ≡ 2 ∷ 3 ∷ take 1 (holders handed_over))
unlock-refines_queue_example =
    unlock-refines_queue two_cpus 0 owned owned-IsValid (ground arith) unlock_owned

unlock-none_iff_example :
    (unlock two_cpus 0 contended ≡ none) ↔ (head_or 0 (holders contended) ≢ executing two_cpus 0)
unlock-none_iff_example =
    unlock-none_iff two_cpus 0 contended contended-IsValid (ground arith) (λ _. ground arith)

abbrev start : Machine
start = record { system = two_cpus; mutex = owned; cv = record { waiting_threads = 10 ∷ [] } }

abbrev unlocked : Machine
unlocked = record start { mutex = handed_over; system = push_and_signal two_cpus 8 }

Reach-population_example :
    population 1 2 (record unlocked { system = (yield (push_and_signal two_cpus 8) 0).0 })
    ≡ population 1 2 start
Reach-population_example =
    Reach-population 1 2 (λ c h. ground arith)
      (next (next here (unlocks 0 (omega arith) unlock_owned)) (yields 0 (omega arith)))

yields_reach_example :
    (executing (yield_times 2 two_cpus 0) 0 ≡ 3)
    × ((yield_times 2 two_cpus 0).ready_threads ≡ 1 ∷ 2 ∷ [])
yields_reach_example = yields_reach two_cpus 0 3 (2 ∷ []) [] (ground arith) (ground arith, tt) refl

join-joiners_example :
    let s' = (join two_cpus 0 2).0 in
    (joiners s' 2 ≡ joiners two_cpus 2 ++ 1 ∷ [])
    × (executing s' 0 ≡ 2)
    × (s'.ready_threads ≡ 3 ∷ [])
join-joiners_example = join-joiners two_cpus 0 2 (info_of 2) refl refl

finish_wakes_joiners_example :
    let s' = (finish two_cpus 0).0 in
    (executing s' 0 ≡ 2)
    × (s'.ready_threads ≡ 3 ∷ 5 ∷ 6 ∷ [])
    × (s'.finished_threads ≡ 1 ∷ [])
    × (join s' 1 1 ≡ (s', stay))
finish_wakes_joiners_example = finish_wakes_joiners two_cpus 0 1 (info_of 1) refl refl

finish_destroys_finished_example :
    let s' = (finish two_cpus 0).0 in (s'.infos 4 ≡ none) × (join s' 1 4 ≡ (s', stay))
finish_destroys_finished_example =
    finish_destroys_finished two_cpus 0 1 4 (ground arith) (ground arith)

abbrev three_waiting : Cv
three_waiting = record { waiting_threads = 10 ∷ 11 ∷ 12 ∷ [] }

signal_wakes_first_example :
    Woken two_cpus (signal two_cpus three_waiting).1 (10 ∷ [])
    × ((signal two_cpus three_waiting).0.waiting_threads ≡ 11 ∷ 12 ∷ [])
signal_wakes_first_example = signal_wakes_first two_cpus three_waiting

broadcast_wakes_all_example :
    Woken two_cpus (broadcast two_cpus three_waiting).1 (10 ∷ 11 ∷ 12 ∷ [])
    × ((broadcast two_cpus three_waiting).0.waiting_threads ≡ [])
broadcast_wakes_all_example = broadcast_wakes_all two_cpus three_waiting
