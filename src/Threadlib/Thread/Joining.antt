-- ===== src/Threadlib/Thread/Joining.antt =====
-- threadlib/thread.cpp: `join` and the end of a thread.
use operation_system_proj_c.Prelude.{
  ℕ, ◌≡◌, ◌≢◌, refl, ◌∙◌, ap, true, false, count, update, Option, none, some, List, [], ◌∷◌, ◌++◌,
  arith, head_or, tail,
}
use operation_system_proj_c.Threadlib.System.{
  System, ThreadInfo, stay, executing, idle_thread, set_executing,
}
use operation_system_proj_c.Threadlib.System.Switching.{Switched, wait_and_pop-Switched}
use operation_system_proj_c.Threadlib.Cv.Wakeups.{push_all-Woken}
use operation_system_proj_c.Threadlib.Thread.{retire, join, finish, destroy_all, joiners}

-- Joining a thread that runs puts the caller last among its joiners and gives the cpu to the next
-- ready thread, or to the idle thread if none is ready; the ready queue loses its head.
pub join-joiners :
    (s : System) (c joined : ℕ) (i : ThreadInfo)
    → s.infos joined ≡ some i
    → i.finished ≡ false
    → let s' = (join s c joined).0 in
      (joiners s' joined ≡ joiners s joined ++ executing s c ∷ [])
      × (executing s' c ≡ head_or (idle_thread s c) s.ready_threads)
      × (s'.ready_threads ≡ tail s.ready_threads)
unfolding join joiners
join-joiners s c joined i e f = (ground arith, ground arith, ground arith)

destroy_all-other :
    (infos : ℕ → Option ThreadInfo) (ts : List ℕ) (t : ℕ)
    → count t ts ≡ 0
    → destroy_all infos ts t ≡ infos t
unfolding destroy_all
destroy_all-other infos [] t e = refl
destroy_all-other infos (x ∷ xs) t e = ground (arith, destroy_all-other (update infos x none) xs t)

destroy_all-gone :
    (infos : ℕ → Option ThreadInfo) (ts : List ℕ) (t : ℕ)
    → infos t ≡ none
    → destroy_all infos ts t ≡ none
unfolding destroy_all
destroy_all-gone infos [] t e = e
destroy_all-gone infos (x ∷ xs) t e = destroy_all-gone (update infos x none) xs t (ground arith)

destroy_all-listed :
    (infos : ℕ → Option ThreadInfo) (ts : List ℕ) (t : ℕ)
    → count t ts ≢ 0
    → destroy_all infos ts t ≡ none
unfolding destroy_all
destroy_all-listed infos [] t n = absurd (n refl)
destroy_all-listed infos (x ∷ xs) t n = ground (
  arith,
  destroy_all-listed (update infos x none) xs t,
  destroy_all-gone (update infos x none) xs t,
)

record Retired (s s' : System) (curr : ℕ) : Type 0 where
  queue : s'.ready_threads ≡ s.ready_threads ++ joiners s curr
  finished : s'.finished_threads ≡ s.finished_threads ++ curr ∷ []
  mark : s'.infos curr ≡ some (record { threads_waiting = []; finished = true })
  others : (t : ℕ) → t ≢ curr → s'.infos t ≡ s.infos t
  cpus : s'.cpus ≡ s.cpus

retire-Retired : (s : System) (curr : ℕ) → Retired s (retire s curr) curr
unfolding retire
retire-Retired s curr =
    let w = push_all-Woken s (joiners s curr) in
    record {
      queue = w.ready;
      finished = ap (λ l. l ++ curr ∷ []) w.finished;
      mark = ground arith;
      others = λ t n. ground (arith, ap (λ f. f t) w.infos);
      cpus = w.cpus;
    }

join-finished :
    (s : System) (c t : ℕ) {i : ThreadInfo}
    → s.infos t ≡ some i
    → i.finished ≡ true
    → join s c t ≡ (s, stay)
unfolding join
join-finished s c t e f = ground arith

join-gone : (s : System) (c t : ℕ) → s.infos t ≡ none → join s c t ≡ (s, stay)
unfolding join
join-gone s c t e = rw (e, join)

abbrev clear : System → System
clear s = record s { infos = destroy_all s.infos s.finished_threads; finished_threads = [] }

-- The state in which the cpu looks for its next thread.
abbrev vacated : System → ℕ → System
vacated s c = set_executing (retire (clear s) (executing s c)) c 0

finish-Switched : (s : System) (c : ℕ) → Switched (vacated s c) (finish s c).0 c
unfolding finish
finish-Switched s c = wait_and_pop-Switched (vacated s c) c 0

-- At the end of a thread that is not yet listed as finished, all its joiners are put at the end of
-- the ready queue in the order in which they came, the cpu goes to the first ready thread (to the
-- idle thread if there is none), the thread is the only one listed as finished, and a join of it
-- from any cpu then returns at once.
pub finish_wakes_joiners :
    (s : System) (c c' : ℕ) (i : ThreadInfo)
    → s.infos (executing s c) ≡ some i
    → count (executing s c) s.finished_threads ≡ 0
    → let s' = (finish s c).0 in
      (executing s' c ≡ head_or (idle_thread s c) (s.ready_threads ++ i.threads_waiting))
      × (s'.ready_threads ≡ tail (s.ready_threads ++ i.threads_waiting))
      × (s'.finished_threads ≡ executing s c ∷ [])
      × (join s' c' (executing s c) ≡ (s', stay))
unfolding joiners
finish_wakes_joiners s c c' i e n =
    let sw = finish-Switched s c in
    let r = retire-Retired (clear s) (executing s c) in
    let info = destroy_all-other s.infos s.finished_threads (executing s c) n ∙ e in
    (
      ground (arith, sw.runs, r.queue, r.cpus, info),
      ground (arith, sw.ready, r.queue, info),
      sw.finished ∙ r.finished,
      join-finished _ c' _ (ap (λ f. f (executing s c)) sw.infos ∙ r.mark) refl,
    )

-- The end of a thread destroys every other thread that was listed as finished, and a join of such a
-- thread from any cpu returns at once.
pub finish_destroys_finished :
    (s : System) (c c' t : ℕ)
    → count t s.finished_threads ≢ 0
    → t ≢ executing s c
    → let s' = (finish s c).0 in (s'.infos t ≡ none) × (join s' c' t ≡ (s', stay))
finish_destroys_finished s c c' t n d =
    let sw = finish-Switched s c in
    let r = retire-Retired (clear s) (executing s c) in
    let gone : (finish s c).0.infos t ≡ none =
      ap (λ f. f t) sw.infos ∙ r.others t d ∙ destroy_all-listed s.infos s.finished_threads t n in
    (gone, join-gone _ c' t gone)
