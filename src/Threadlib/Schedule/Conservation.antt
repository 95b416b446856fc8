-- ===== src/Threadlib/Schedule/Conservation.antt =====
-- threadlib/: no call loses a thread or duplicates one, over all cpus.
use operation_system_proj_c.Prelude.{
  ℕ, zero, suc, ◌+◌, ◌<◌, ◌≤◌, ◌≡◌, ◌≢◌, refl, ◌∙◌, some, [], ◌∷◌, arith, count, ap, Option-cases,
  inl, inr, dec_lt, subst,
}
use operation_system_proj_c.Threadlib.System.{
  System, Transfer, executing, idle_thread, wait_for_ready_thread,
}
use operation_system_proj_c.Threadlib.Mutex.{Mutex, lock, unlock}
use operation_system_proj_c.Threadlib.Cv.{Cv, wait, enqueue_waiter, signal, broadcast}
use operation_system_proj_c.Threadlib.Cv.Wakeups.{push_all-Woken}
use operation_system_proj_c.Threadlib.Thread.{yield}
use operation_system_proj_c.Threadlib.Places.{
  places, places-lock, places-unlock, places-wait, places-signal, places-broadcast, places-yield,
}
use operation_system_proj_c.Threadlib.Schedule.{
  Machine, Step, locks, unlocks, waits, signals, broadcasts, yields, idles, Reach, here, next,
  running, population,
}

-- Only cpu `c` may have changed the thread that it runs, and no cpu its idle thread.
record Local (c : ℕ) (s s' : System) : Type 0 where
  others : (d : ℕ) → d ≢ c → executing s' d ≡ executing s d
  idle : (d : ℕ) → idle_thread s' d ≡ idle_thread s d

lock-Local : (s : System) (c : ℕ) (m : Mutex) → Local c s (lock s c m).1
unfolding lock
lock-Local s c m = record { others = λ d n. ground arith; idle = λ d. ground arith }

yield-Local : (s : System) (c : ℕ) → Local c s (yield s c).0
unfolding yield
yield-Local s c = record { others = λ d n. ground arith; idle = λ d. ground arith }

idle-Local : (s : System) (c : ℕ) → Local c s (wait_for_ready_thread s c).0
unfolding wait_for_ready_thread
idle-Local s c = record { others = λ d n. ground arith; idle = λ d. ground arith }

cpus-Local : {s s' : System} (c : ℕ) → s'.cpus ≡ s.cpus → Local c s s'
cpus-Local c e = record {
  others = λ d n. ap (λ f. (f d).executing_thread) e;
  idle = λ d. ap (λ f. (f d).waiting_thread) e;
}

enqueue_waiter-Local :
    (s : System) (c : ℕ) (v : Cv) (m : Mutex) → Local c s (enqueue_waiter s c v m).2
unfolding enqueue_waiter
enqueue_waiter-Local s c v m = record { others = λ d n. ground arith; idle = λ d. ground arith }

-- A local change of the running threads, summed over the cpus.
running-Local_of_le :
    (t n c : ℕ) {s s' : System} → Local c s s' → n ≤ c → running t n s' ≡ running t n s
unfolding running
running-Local_of_le t zero c l h = refl
running-Local_of_le t (suc n) c l h = ground (arith, running-Local_of_le t n c l, l.others n)

running-Local :
    (t n c : ℕ) {s s' : System}
    → Local c s s'
    → c < n
    → running t n s' + count t (executing s c ∷ []) ≡ running t n s + count t (executing s' c ∷ [])
unfolding running
running-Local t zero c l h = absurd (omega arith)
running-Local t (suc n) c {s} {s'} l h = elim (dec_lt c n) [
  | yes p ↦ ground (arith, running-Local t n c l p, l.others n)
  | no p ↦ ground (arith, running-Local_of_le t n c l)
]

wait-Local :
    (s : System) (c : ℕ) (v : Cv) (m : Mutex) {v' : Cv} {m' : Mutex} {s' : System} {tr : Transfer}
    → wait s c v m ≡ some (v', m', s', tr)
    → Local c s s'
unfolding wait
wait-Local s c v m {s'} e = elim (Option-cases (unlock s c m)) [
  | inl q ↦ absurd (ground (arith, q))
  | inr ((m1, s1), q) ↦
      let same : s1.cpus ≡ s.cpus = (places-unlock 0 c c s m v q).1 in
      let l = enqueue_waiter-Local s1 c v m1 in
      let eq : (enqueue_waiter s1 c v m1).2 ≡ s' = ground (arith, q) in
      subst (Local c s) eq (record {
        others = λ d n. l.others d n ∙ ap (λ f. (f d).executing_thread) same;
        idle = λ d. l.idle d ∙ ap (λ f. (f d).waiting_thread) same;
      })
]

signal-cpus : (s : System) (v : Cv) → (signal s v).1.cpus ≡ s.cpus
unfolding signal
signal-cpus s v = ground arith

broadcast-cpus : (s : System) (v : Cv) → (broadcast s v).1.cpus ≡ s.cpus
unfolding broadcast
broadcast-cpus s v = (push_all-Woken s v.waiting_threads).cpus

places-idle :
    (t c : ℕ) (s : System) (m : Mutex) (v : Cv)
    → t ≢ idle_thread s c
    → executing s c ≡ idle_thread s c
    → places t c (wait_for_ready_thread s c).0 m v ≡ places t c s m v
unfolding wait_for_ready_thread
places-idle t c s m v n e = ground arith

-- A call that changes only one cpu and keeps the threads around that cpu keeps the population.
population-Local :
    (t n c : ℕ) (k k' : Machine)
    → c < n
    → Local c k.system k'.system
    → places t c k'.system k'.mutex k'.cv ≡ places t c k.system k.mutex k.cv
    → population t n k' ≡ population t n k
unfolding population
population-Local t n c k k' h l e = omega (arith, running-Local t n c l h)

population-cpus :
    (t n : ℕ) (k k' : Machine)
    → k'.system.cpus ≡ k.system.cpus
    → places t 0 k'.system k'.mutex k'.cv ≡ places t 0 k.system k.mutex k.cv
    → population t n k' ≡ population t n k
unfolding population
population-cpus t n k k' l e =
    let same : running t n k'.system ≡ running t n k.system =
      running-Local_of_le t n n (cpus-Local n l) (omega arith) in
    omega (arith, ap (λ f. count t ((f 0).executing_thread ∷ [])) l)

Step-idle :
    {n : ℕ} {k k' : Machine}
    → Step n k k'
    → (d : ℕ) → idle_thread k'.system d ≡ idle_thread k.system d
Step-idle {k} (locks c h) d = (lock-Local k.system c k.mutex).idle d
Step-idle {k} (unlocks c h e) d =
    ap (λ f. (f d).waiting_thread) (places-unlock 0 0 c k.system k.mutex k.cv e).1
Step-idle {k} (waits c h e) d = (wait-Local k.system c k.cv k.mutex e).idle d
Step-idle {k} signals d = ap (λ f. (f d).waiting_thread) (signal-cpus k.system k.cv)
Step-idle {k} broadcasts d = ap (λ f. (f d).waiting_thread) (broadcast-cpus k.system k.cv)
Step-idle {k} (yields c h) d = (yield-Local k.system c).idle d
Step-idle {k} (idles c h e) d = (idle-Local k.system c).idle d

-- `t` is the idle thread of none of the cpus.
abbrev pub Works : ℕ → ℕ → Machine → Type 0
Works t n k = (c : ℕ) → c < n → t ≢ idle_thread k.system c

Step-population :
    (t n : ℕ) {k k' : Machine} → Works t n k → Step n k k' → population t n k' ≡ population t n k
Step-population t n {k} {k'} w (locks c h) =
    population-Local t n c k k' h (lock-Local k.system c k.mutex)
      (places-lock t c k.system k.mutex k.cv (w c h))
Step-population t n {k} {k'} w (unlocks c h e) =
    population-cpus t n k k' (places-unlock t 0 c k.system k.mutex k.cv e).1
      (places-unlock t 0 c k.system k.mutex k.cv e).0
Step-population t n {k} {k'} w (waits c h e) =
    population-Local t n c k k' h (wait-Local k.system c k.cv k.mutex e)
      (places-wait t c k.system k.mutex k.cv (w c h) e)
Step-population t n {k} {k'} w signals =
    population-cpus t n k k' (signal-cpus k.system k.cv) (places-signal t 0 k.system k.mutex k.cv)
Step-population t n {k} {k'} w broadcasts =
    population-cpus t n k k' (broadcast-cpus k.system k.cv)
      (places-broadcast t 0 k.system k.mutex k.cv)
Step-population t n {k} {k'} w (yields c h) =
    population-Local t n c k k' h (yield-Local k.system c) (places-yield t c k.system k.mutex k.cv)
Step-population t n {k} {k'} w (idles c h e) =
    population-Local t n c k k' h (idle-Local k.system c)
      (places-idle t c k.system k.mutex k.cv (w c h) e)

Works-Step : (t n : ℕ) {k k' : Machine} → Step n k k' → Works t n k → Works t n k'
Works-Step t n st w c h = rw (Step-idle st c) (w c h)

Reach-Works : (t n : ℕ) {k k' : Machine} → Reach n k k' → Works t n k → Works t n k'
Reach-Works t n here w = w
Reach-Works t n (next r st) w = Works-Step t n st (Reach-Works t n r w)

-- Whatever calls the threads of `n` cpus make on a mutex and a condition variable, and however the
-- cpus take turns, a thread that is no cpu's idle thread stands afterwards in exactly as many
-- places as before (it runs, is ready, or waits), so none is lost and none is duplicated.
pub Reach-population :
    (t n : ℕ) {k k' : Machine} → Works t n k → Reach n k k' → population t n k' ≡ population t n k
Reach-population t n w here = refl
Reach-population t n w (next r st) =
    Step-population t n (Reach-Works t n r w) st ∙ Reach-population t n w r
