-- ===== src/Threadlib/Schedule.antt =====
-- threadlib/: the library as a state machine. Any of the cpus 0 … n - 1 makes the next step, which
-- is one call under the guard; one mutex and one condition variable are shared by all threads.
pub mod Conservation
use operation_system_proj_c.Prelude.{
  ℕ, zero, suc, ◌+◌, ◌<◌, ◌≡◌, ◌≢◌, refl, ◌∙◌, some, true, false, List, [], ◌∷◌, ◌++◌, arith, count,
  if◌then◌else◌, ◌==◌, ap, Option-cases, inl, inr,
}
use operation_system_proj_c.Threadlib.System.{
  System, Cpu, Transfer, executing, idle_thread, wait_for_ready_thread, push_and_signal,
}
use operation_system_proj_c.Threadlib.Mutex.{Mutex, lock, unlock}
use operation_system_proj_c.Threadlib.Cv.{
  Cv, wait, wait_return, enqueue_waiter, signal, broadcast, push_all,
}
use operation_system_proj_c.Threadlib.Cv.Wakeups.{push_all-Woken}
use operation_system_proj_c.Threadlib.Thread.{yield}
use operation_system_proj_c.Threadlib.Places.{
  places, places-lock, places-unlock, places-wait, places-signal, places-broadcast, places-yield,
}

pub record Machine : Type 0 where
  pub system : System
  pub mutex : Mutex
  pub cv : Cv

-- One call, made by the thread that runs on cpu `c`; an `unlock` or a `wait` that raises the
-- runtime error changes nothing and is no step. The last is the idle thread of a cpu.
pub data Step (n : ℕ) (k : Machine) : Machine → Type 0 where
  locks :
      (c : ℕ)
      → c < n
      → Step n k
          (record k { mutex = (lock k.system c k.mutex).0; system = (lock k.system c k.mutex).1 })
  unlocks :
      (c : ℕ) {m : Mutex} {s : System}
      → c < n
      → unlock k.system c k.mutex ≡ some (m, s)
      → Step n k (record k { mutex = m; system = s })
  waits :
      (c : ℕ) {v : Cv} {m : Mutex} {s : System} {tr : Transfer}
      → c < n
      → wait k.system c k.cv k.mutex ≡ some (v, m, s, tr)
      → Step n k (record { mutex = m; system = s; cv = v })
  signals : Step n k (record k { cv = (signal k.system k.cv).0; system = (signal k.system k.cv).1 })
  broadcasts :
      Step n k (record k { cv = (broadcast k.system k.cv).0; system = (broadcast k.system k.cv).1 })
  yields : (c : ℕ) → c < n → Step n k (record k { system = (yield k.system c).0 })
  idles :
      (c : ℕ)
      → c < n
      → executing k.system c ≡ idle_thread k.system c
      → Step n k (record k { system = (wait_for_ready_thread k.system c).0 })

pub data Reach (n : ℕ) (k : Machine) : Machine → Type 0 where
  here : Reach n k k
  next : {a b : Machine} → Reach n k a → Step n a b → Reach n k b

-- On how many of the first `n` cpus thread `t` runs.
unfoldable pub running : ℕ → ℕ → System → ℕ
running t zero s = 0
running t (suc n) s = running t n s + count t (executing s n ∷ [])

-- In how many places of the whole machine thread `t` stands.
unfoldable pub population : ℕ → ℕ → Machine → ℕ
population t n k =
    running t n k.system
    + count t k.system.ready_threads
    + count t k.mutex.waiting_threads
    + count t k.cv.waiting_threads
