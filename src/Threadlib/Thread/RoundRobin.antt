-- ===== src/Threadlib/Thread/RoundRobin.antt =====
-- threadlib/thread.cpp: `yield` gives the cpu to the ready threads in turn.
use operation_system_proj_c.Prelude.{
  ℕ, zero, suc, ◌≡◌, ◌≢◌, ◌∙◌, ap, List, [], ◌∷◌, ◌++◌, arith, append_assoc, length,
}
use operation_system_proj_c.Threadlib.System.{System, executing, idle_thread}
use operation_system_proj_c.Threadlib.Thread.{yield}

-- `n` yields, one after the other, on cpu `c`.
pub yield_times : ℕ → System → ℕ → System
yield_times zero s c = s
yield_times (suc n) s c = yield_times n (yield s c).0 c

-- No thread of the list is the idle thread of cpu `c`.
abbrev pub AllWork : System → ℕ → List ℕ → Type 0
AllWork s c [] = Unit {0}
AllWork s c (t ∷ ts) = (t ≢ idle_thread s c) × AllWork s c ts

record Turn (s s' : System) (c t : ℕ) (ts : List ℕ) : Type 0 where
  runs : executing s' c ≡ t
  queue : s'.ready_threads ≡ ts
  idle : idle_thread s' c ≡ idle_thread s c

yield-Turn :
    (s : System) (c t : ℕ) (rest : List ℕ)
    → executing s c ≢ idle_thread s c
    → s.ready_threads ≡ t ∷ rest
    → Turn s (yield s c).0 c t (rest ++ executing s c ∷ [])
unfolding yield
yield-Turn s c t rest n e = ground arith

AllWork-idle :
    (s s' : System) (c : ℕ) (ts : List ℕ)
    → idle_thread s' c ≡ idle_thread s c
    → AllWork s c ts
    → AllWork s' c ts
AllWork-idle s s' c [] e w = tt
AllWork-idle s s' c (t ∷ ts) e w = (rw e w.0, AllWork-idle s s' c ts e w.1)

yields-Turn :
    (s : System) (c t : ℕ) (before after : List ℕ)
    → executing s c ≢ idle_thread s c
    → AllWork s c before
    → s.ready_threads ≡ before ++ t ∷ after
    → Turn s (yield_times (suc (length before)) s c) c t (after ++ executing s c ∷ before)
unfolding yield_times
yields-Turn s c t [] after n w e = yield-Turn s c t after n e
yields-Turn s c t (x ∷ xs) after n w e =
    let one = yield-Turn s c x (xs ++ t ∷ after) n e in
    let s1 = (yield s c).0 in
    let rest =
      yields-Turn s1 c t xs (after ++ executing s c ∷ []) (rw (one.runs, one.idle) w.0)
        (AllWork-idle s s1 c xs one.idle w.1)
        (one.queue ∙ append_assoc xs (t ∷ after) (executing s c ∷ [])) in
    record {
      runs = rest.runs;
      queue =
          rest.queue
          ∙ append_assoc after (executing s c ∷ []) (executing s1 c ∷ xs)
          ∙ ap (λ y. after ++ executing s c ∷ y ∷ xs) one.runs;
      idle = rest.idle ∙ one.idle;
    }

-- A thread that has `i` threads before it in the ready queue runs after `i + 1` yields on one cpu,
-- if neither the running thread nor those before it are the idle thread, and the queue then holds
-- the threads behind it, the one that ran, and those that were before it, in this order.
pub yields_reach :
    (s : System) (c t : ℕ) (before after : List ℕ)
    → executing s c ≢ idle_thread s c
    → AllWork s c before
    → s.ready_threads ≡ before ++ t ∷ after
    → (executing (yield_times (suc (length before)) s c) c ≡ t)
      × ((yield_times (suc (length before)) s c).ready_threads ≡ after ++ executing s c ∷ before)
yields_reach s c t before after n w e =
    let turn = yields-Turn s c t before after n w e in (turn.runs, turn.queue)
