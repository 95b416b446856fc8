-- ===== src/Threadlib/Places.antt =====
-- threadlib/: no operation on a mutex or a condition variable loses or duplicates a thread.
use operation_system_proj_c.Prelude.{
  ℕ, ◌+◌, inl, inr, ◌≡◌, ◌≢◌, some, [], ◌∷◌, arith, count, count-append, Option-cases,
}
use operation_system_proj_c.Threadlib.System.{System, Transfer, executing, idle_thread}
use operation_system_proj_c.Threadlib.Mutex.{Mutex, lock, unlock}
use operation_system_proj_c.Threadlib.Cv.{Cv, enqueue_waiter, wait, signal, broadcast}
use operation_system_proj_c.Threadlib.Cv.Wakeups.{push_all-Woken}
use operation_system_proj_c.Threadlib.Thread.{yield}

-- How often thread `t` runs on cpu `c`, is ready, waits for the mutex, or waits on the condition.
abbrev pub places : ℕ → ℕ → System → Mutex → Cv → ℕ
places t c s m v =
    count t (executing s c ∷ [])
    + count t s.ready_threads
    + count t m.waiting_threads
    + count t v.waiting_threads

pub places-lock :
    (t c : ℕ) (s : System) (m : Mutex) (v : Cv)
    → t ≢ idle_thread s c
    → places t c (lock s c m).1 (lock s c m).0 v ≡ places t c s m v
unfolding lock
places-lock t c s m v n = ground (arith, count-append t m.waiting_threads (executing s c ∷ []))

pub places-unlock :
    (t d c : ℕ) (s : System) (m : Mutex) (v : Cv) {m' : Mutex} {s' : System}
    → unlock s c m ≡ some (m', s')
    → (places t d s' m' v ≡ places t d s m v) × (s'.cpus ≡ s.cpus)
unfolding unlock
places-unlock t d c s m v e = (grind (arith, count-append), ground arith)

places-enqueue_waiter :
    (t c : ℕ) (s : System) (m : Mutex) (v : Cv)
    → t ≢ idle_thread s c
    → let (v', m', s', _) = enqueue_waiter s c v m in places t c s' m' v' ≡ places t c s m v
unfolding enqueue_waiter
places-enqueue_waiter t c s m v n =
    ground (arith, count-append t v.waiting_threads (executing s c ∷ []))

pub places-wait :
    (t c : ℕ) (s : System) (m : Mutex) (v : Cv) {v' : Cv} {m' : Mutex} {s' : System} {tr : Transfer}
    → t ≢ idle_thread s c
    → wait s c v m ≡ some (v', m', s', tr)
    → places t c s' m' v' ≡ places t c s m v
unfolding wait
places-wait t c s m v n e = elim (Option-cases (unlock s c m)) [
  | inl q ↦ ground (arith, q)
  | inr ((m1, s1), q) ↦
      let (kept, same) = places-unlock t c c s m v q in
      ground (arith, q, kept, same, places-enqueue_waiter t c s1 m1 v)
]

pub places-signal :
    (t c : ℕ) (s : System) (m : Mutex) (v : Cv)
    → places t c (signal s v).1 m (signal s v).0 ≡ places t c s m v
unfolding signal
places-signal t c s m v = grind (arith, count-append)

pub places-broadcast :
    (t c : ℕ) (s : System) (m : Mutex) (v : Cv)
    → places t c (broadcast s v).1 m (broadcast s v).0 ≡ places t c s m v
unfolding broadcast
places-broadcast t c s m v =
    ground
      (arith, push_all-Woken s v.waiting_threads, count-append t s.ready_threads v.waiting_threads)

pub places-yield :
    (t c : ℕ) (s : System) (m : Mutex) (v : Cv) → places t c (yield s c).0 m v ≡ places t c s m v
unfolding yield
places-yield t c s m v = grind (arith, count-append)
