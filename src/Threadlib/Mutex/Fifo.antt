-- ===== src/Threadlib/Mutex/Fifo.antt =====
-- threadlib/mutex.cpp refines a queue: the owner, then the waiting threads in order of arrival.
use operation_system_proj_c.Prelude.{
  ℕ, ◌≡◌, ◌≢◌, true, false, none, some, List, [], ◌∷◌, ◌++◌, if◌then◌else◌, arith, ◌↔◌, take, tail,
  head_or, append-nil,
}
use operation_system_proj_c.Threadlib.System.{System, stay, executing, idle_thread}
use operation_system_proj_c.Threadlib.Mutex.{Mutex, lock, unlock}

abbrev pub AllNonnull : List ℕ → Type 0
AllNonnull [] = Unit {0}
AllNonnull (t ∷ ts) = (t ≢ 0) × AllNonnull ts

-- The abstract lock: who holds it, then who is to hold it, in order.
abbrev pub holders : Mutex → List ℕ
holders m = if m.free then [] else m.owned_thread ∷ m.waiting_threads

-- A free mutex has no owner and nobody waits for it; no thread in it is null.
pub record IsValid (m : Mutex) : Type 0 where
  pub free_empty : m.free ≡ true → m.waiting_threads ≡ []
  pub owned : m.free ≡ false → m.owned_thread ≢ 0
  pub waiting : AllNonnull m.waiting_threads

AllNonnull-append : (xs : List ℕ) (t : ℕ) → AllNonnull xs → t ≢ 0 → AllNonnull (xs ++ t ∷ [])
AllNonnull-append [] t h n = (n, tt)
AllNonnull-append (x ∷ xs) t h n = (h.0, AllNonnull-append xs t h.1 n)

lock-IsValid :
    (s : System) (c : ℕ) (m : Mutex) → IsValid m → executing s c ≢ 0 → IsValid (lock s c m).0
unfolding lock
lock-IsValid s c m v n =
    ground
      (arith, v.free_empty, v.owned, AllNonnull-append m.waiting_threads (executing s c) v.waiting)

-- On a well-formed mutex `lock` puts the calling thread last among the holders and keeps the mutex
-- well formed. If there was no holder the caller goes on and the system is unchanged; otherwise
-- the cpu runs the next ready thread, or its idle thread if none is ready, and the ready queue
-- loses its head.
pub lock-refines_queue :
    (s : System) (c : ℕ) (m : Mutex)
    → IsValid m
    → executing s c ≢ 0
    → let (m', s', tr) = lock s c m in
      IsValid m'
      × (holders m' ≡ holders m ++ executing s c ∷ [])
      × (holders m ≡ [] → (s' ≡ s) × (tr ≡ stay))
      × (holders m ≢ []
          → executing s' c ≡ head_or (idle_thread s c) s.ready_threads
            × (s'.ready_threads ≡ tail s.ready_threads))
unfolding lock
lock-refines_queue s c m v n = (
  lock-IsValid s c m v n,
  ground (arith, v.free_empty),
  ground (arith, v.free_empty),
  ground (arith, v.free_empty),
)

-- When `unlock` succeeds on a well-formed mutex, the caller was the first of the holders and is
-- taken off, the order of the others is kept, the mutex stays well formed, and the next holder, if
-- there is one, is put at the end of the ready queue.
pub unlock-refines_queue :
    (s : System) (c : ℕ) (m : Mutex) {m' : Mutex} {s' : System}
    → IsValid m
    → executing s c ≢ 0
    → unlock s c m ≡ some (m', s')
    → IsValid m'
      × (holders m ≡ executing s c ∷ holders m')
      × (s'.ready_threads ≡ s.ready_threads ++ take 1 (holders m'))
unfolding unlock
unlock-refines_queue s c m v n e = (
  ground (arith, v.free_empty, v.owned, v.waiting),
  ground (arith, v.free_empty),
  ground (arith, v.free_empty, append-nil s.ready_threads),
)

-- On a well-formed mutex whose owner still exists, `unlock` raises the runtime error exactly when
-- the calling thread is not the first of the holders.
pub unlock-none_iff :
    (s : System) (c : ℕ) (m : Mutex)
    → IsValid m
    → executing s c ≢ 0
    → (m.free ≡ false → s.infos m.owned_thread ≢ none)
    → (unlock s c m ≡ none) ↔ (head_or 0 (holders m) ≢ executing s c)
unfolding unlock
unlock-none_iff s c m v n alive = (ground (arith, alive, v.owned), ground (arith, alive, v.owned))
