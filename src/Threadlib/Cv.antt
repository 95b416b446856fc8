-- ===== src/Threadlib/Cv.antt =====
-- threadlib/cv.cpp. A condition variable is its queue of waiting threads.
pub mod Wakeups
use operation_system_proj_c.Prelude.{ℕ, Option, none, some, List, [], ◌∷◌, ◌++◌}
use operation_system_proj_c.Threadlib.System.{
  System, Transfer, executing, set_executing, push_and_signal, wait_and_pop,
}
use operation_system_proj_c.Threadlib.Mutex.{Mutex, lock, unlock}

pub record Cv : Type 0 where
  pub waiting_threads : List ℕ

-- The block of `cv::wait` under the guard, after `unlock_mutex` has succeeded.
unfoldable pub enqueue_waiter : System → ℕ → Cv → Mutex → Cv × Mutex × System × Transfer
unfolding wait_and_pop
enqueue_waiter s c v m =
    let curr = executing s c in
    let (s', tr) = wait_and_pop (set_executing s c 0) c curr in
    (record v { waiting_threads = v.waiting_threads ++ curr ∷ [] }, m, s', tr)

-- `cv::wait` up to the transfer of control; `none` is the runtime_error of `unlock_mutex`. The
-- thread goes on, once it runs again, with `wait_return`.
unfoldable pub wait : System → ℕ → Cv → Mutex → Option (Cv × Mutex × System × Transfer)
unfolding unlock enqueue_waiter
wait s c v m = elim (unlock s c m) [ none ↦ none | some (m', s') ↦ some (enqueue_waiter s' c v m') ]

-- The end of `cv::wait`: take the mutex again.
unfoldable pub wait_return : System → ℕ → Mutex → Mutex × System × Transfer
unfolding lock
wait_return s c m = lock s c m

signal_first : System → Cv → List ℕ → Cv × System
unfolding push_and_signal
signal_first s v [] = (v, s)
signal_first s v (t ∷ rest) = (record v { waiting_threads = rest }, push_and_signal s t)

-- `cv::signal`
unfoldable pub signal : System → Cv → Cv × System
unfolding signal_first
signal s v = signal_first s v v.waiting_threads

-- The loop of `cv::broadcast`, and of the end of a thread: wake every thread of a queue, in order.
unfoldable pub push_all : System → List ℕ → System
unfolding push_and_signal
push_all s [] = s
push_all s (t ∷ rest) = push_all (push_and_signal s t) rest

-- `cv::broadcast`
unfoldable pub broadcast : System → Cv → Cv × System
unfolding push_all
broadcast s v = (record v { waiting_threads = [] }, push_all s v.waiting_threads)
