-- ===== src/Threadlib/Cv/Wakeups.antt =====
-- threadlib/cv.cpp and utils.cpp: which threads and which cpus `signal` and `broadcast` wake.
use operation_system_proj_c.Prelude.{
  ℕ, ◌≡◌, refl, List, [], ◌∷◌, ◌++◌, arith, append-nil, append_assoc, drop-drop_one,
  take_one-append-take, take, drop, length, tail,
}
use operation_system_proj_c.Threadlib.System.{System, push_and_signal}
use operation_system_proj_c.Threadlib.Cv.{Cv, signal, broadcast, push_all}

-- What waking the threads `ts`, in this order, does to the queues.
pub record Woken (s s' : System) (ts : List ℕ) : Type 0 where
  pub ready : s'.ready_threads ≡ s.ready_threads ++ ts
  pub suspended : s'.suspended_cpus ≡ drop (length ts) s.suspended_cpus
  pub sent : s'.sent ≡ s.sent ++ take (length ts) s.suspended_cpus
  pub cpus : s'.cpus ≡ s.cpus
  pub infos : s'.infos ≡ s.infos
  pub finished : s'.finished_threads ≡ s.finished_threads

push_and_signal-Woken : (s : System) (t : ℕ) → Woken s (push_and_signal s t) (t ∷ [])
unfolding push_and_signal
push_and_signal-Woken s t = ground (arith, append-nil s.sent)

Woken-trans :
    {s s1 s2 : System} {t : ℕ} {ts : List ℕ}
    → Woken s s1 (t ∷ [])
    → Woken s1 s2 ts
    → Woken s s2 (t ∷ ts)
Woken-trans {s} {s1} {s2} {t} {ts} a b = ground (
  arith,
  append_assoc s.ready_threads (t ∷ []) ts,
  append_assoc s.sent (take 1 s.suspended_cpus) (take (length ts) (drop 1 s.suspended_cpus)),
  drop-drop_one (length ts) s.suspended_cpus,
  take_one-append-take (length ts) s.suspended_cpus,
)

pub push_all-Woken : (s : System) (ts : List ℕ) → Woken s (push_all s ts) ts
unfolding push_all
push_all-Woken s [] = ground (arith, append-nil s.ready_threads, append-nil s.sent)
push_all-Woken s (t ∷ ts) =
    Woken-trans (push_and_signal-Woken s t) (push_all-Woken (push_and_signal s t) ts)

-- `signal` moves the thread that has waited longest, and no other, to the end of the ready queue,
-- and interrupts the cpu that has been suspended longest; with no waiting thread it does nothing.
pub signal_wakes_first :
    (s : System) (v : Cv)
    → Woken s (signal s v).1 (take 1 v.waiting_threads)
      × ((signal s v).0.waiting_threads ≡ tail v.waiting_threads)
unfolding signal
signal_wakes_first s v = ground (arith, append-nil s.ready_threads, append-nil s.sent)

-- `broadcast` moves all the waiting threads to the end of the ready queue, in the order in which
-- they came, and interrupts one suspended cpu for each, as far as there are such.
pub broadcast_wakes_all :
    (s : System) (v : Cv)
    → Woken s (broadcast s v).1 v.waiting_threads × ((broadcast s v).0.waiting_threads ≡ [])
unfolding broadcast
broadcast_wakes_all s v = (push_all-Woken s v.waiting_threads, refl)
