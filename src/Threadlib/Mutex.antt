-- ===== src/Threadlib/Mutex.antt =====
-- threadlib/mutex.cpp.
pub mod Fifo
use operation_system_proj_c.Prelude.{
  ℕ, Bool, true, false, Option, none, some, List, [], ◌∷◌, ◌++◌, not, ◌||◌, ◌==◌, if◌then◌else◌,
}
use operation_system_proj_c.Threadlib.System.{
  System, Transfer, stay, executing, set_executing, weak_lock, push_and_signal, wait_and_pop,
}

pub record Mutex : Type 0 where
  pub waiting_threads : List ℕ
  pub free : Bool
  pub owned_thread : ℕ

-- `mutex::mutex`
abbrev pub new_mutex : Mutex
new_mutex = record { waiting_threads = []; free = true; owned_thread = 0 }

-- `mutex::lock`, up to the transfer of control.
unfoldable pub lock : System → ℕ → Mutex → Mutex × System × Transfer
unfolding wait_and_pop
lock s c m =
    let curr = executing s c in
    if not m.free
    then (let (s', tr) = wait_and_pop (set_executing s c 0) c curr in
        (record m { waiting_threads = m.waiting_threads ++ curr ∷ [] }, s', tr))
    else (record m { free = false; owned_thread = curr }, s, stay)

hand_off : System → Mutex → List ℕ → Mutex × System
unfolding push_and_signal
hand_off s m [] = (record m { owned_thread = 0; free = true }, s)
hand_off s m (t ∷ rest) =
    (record m { waiting_threads = rest; owned_thread = t; free = false }, push_and_signal s t)

-- `mutex::unlock_mutex`, and so `mutex::unlock`; `none` is the runtime_error.
unfoldable pub unlock : System → ℕ → Mutex → Option (Mutex × System)
unfolding hand_off
unlock s c m =
    if m.free || not (executing s c == weak_lock s m.owned_thread)
    then none
    else some (hand_off s m m.waiting_threads)
