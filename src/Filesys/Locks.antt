-- ===== src/Filesys/Locks.antt =====
-- filesys/file_system.cpp: the locks of inodes. `m_ptr` is a boost::shared_mutex; `held` says which
-- mutexes the request has, and in which mode. A request that asks for a mutex that it has itself in
-- a mode that excludes the new one waits for ever, and stops here; other requests are not modelled. To
-- release a mutex in a mode in which it is not held is undefined in boost, and stops the process here.
pub mod Balance
use operation_system_proj_c.Prelude.{
  ℕ, ◌+◌, ◌-◌, ◌%◌, ◌^◌, Bool, true, false, Option, none, some, List, [], ◌∷◌, ◌==◌, ◌&&◌, ◌||◌,
  if◌then◌else◌, update,
}
use operation_system_proj_c.Filesys.Monad.{
  Fs, M, Outcome, returns, aborts, Mode, shared, upgrade, exclusive,
}

abbrev pub mode_eq : Mode → Mode → Bool
mode_eq shared shared = true
mode_eq upgrade upgrade = true
mode_eq exclusive exclusive = true
mode_eq _ _ = false

-- Whether a mutex that is held in the mode `k` cannot be taken in the mode `m`: many can share it, one
-- of them for upgrade.
abbrev pub excludes : Mode → Mode → Bool
excludes shared shared = false
excludes shared upgrade = false
excludes upgrade shared = false
excludes _ _ = true

-- Whether the request waits for a mutex that it has itself.
unfoldable pub waits : ℕ → Mode → List (ℕ × Mode) → Bool
waits b m [] = false
waits b m ((c, k) ∷ l) = (excludes m k && b == c) || waits b m l

-- Take one entry out of the list; `none` if it is not there.
unfoldable pub remove_held : ℕ → Mode → List (ℕ × Mode) → Option (List (ℕ × Mode))
remove_held b m [] = none
remove_held b m ((c, k) ∷ l) =
    if b == c && mode_eq m k
    then some l
    else elim (remove_held b m l) [ none ↦ none | some l' ↦ some ((c, k) ∷ l') ]

-- `lock_map[b].num_readers++`, where a missing entry is made with 0; `unsigned int` wraps.
abbrev pub count_up : Option ℕ → ℕ
count_up none = 1
count_up (some n) = (n + 1) % 2 ^ 32

-- `num_readers--`, and the entry is erased at 0.
abbrev pub count_down : ℕ → Option ℕ
count_down n = let n' = (n + 2 ^ 32 - 1) % 2 ^ 32 in if n' == 0 then none else some n'

unfoldable pub lock_inode : {D : Type 0} → Mode → ℕ → M D (Unit {0})
lock_inode m b s = if waits b m s.held then (aborts, s) else (
  returns tt,
  record s {
    lock_map = update s.lock_map b (some (count_up (s.lock_map b)));
    held = (b, m) ∷ s.held;
  },
)

release_held : {D : Type 0} → ℕ → ℕ → Option (List (ℕ × Mode)) → Fs D → Outcome (Unit {0}) × Fs D
release_held b n none s = (aborts, s)
release_held b n (some l) s =
    (returns tt, record s { lock_map = update s.lock_map b (count_down n); held = l })

-- `assert(lock_map.find(b) != lock_map.end())`, then the release.
unfoldable pub unlock_inode : {D : Type 0} → Mode → ℕ → M D (Unit {0})
unfolding release_held remove_held
unlock_inode m b s = elim (s.lock_map b) [
  | none ↦ (aborts, s)
  | some n ↦ release_held b n (remove_held b m s.held) s
]

unfoldable pub lock_inode_read : {D : Type 0} → ℕ → M D (Unit {0})
unfolding lock_inode
lock_inode_read b = lock_inode shared b

unfoldable pub unlock_inode_read : {D : Type 0} → ℕ → M D (Unit {0})
unfolding unlock_inode
unlock_inode_read b = unlock_inode shared b

unfoldable pub lock_inode_upgrade : {D : Type 0} → ℕ → M D (Unit {0})
unfolding lock_inode
lock_inode_upgrade b = lock_inode upgrade b

unfoldable pub unlock_inode_upgrade : {D : Type 0} → ℕ → M D (Unit {0})
unfolding unlock_inode
unlock_inode_upgrade b = unlock_inode upgrade b

unfoldable pub unlock_inode_write : {D : Type 0} → ℕ → M D (Unit {0})
unfolding unlock_inode
unlock_inode_write b = unlock_inode exclusive b

exchange_held : {D : Type 0} → ℕ → Option (List (ℕ × Mode)) → Fs D → Outcome (Unit {0}) × Fs D
exchange_held b none s = (aborts, s)
exchange_held b (some l) s =
    if waits b exclusive l
    then (aborts, s)
    else (returns tt, record s { held = (b, exclusive) ∷ l })

-- `unlock_upgrade_and_lock` on the mutex; the number of readers stays.
unfoldable pub upgrade_to_write_lock : {D : Type 0} → ℕ → M D (Unit {0})
unfolding exchange_held remove_held
upgrade_to_write_lock b s = elim (s.lock_map b) [
  | none ↦ (aborts, s)
  | some n ↦ exchange_held b (remove_held b upgrade s.held) s
]
