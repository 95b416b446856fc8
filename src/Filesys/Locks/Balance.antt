-- ===== src/Filesys/Locks/Balance.antt =====
-- filesys/file_system.cpp: what taking, upgrading and releasing locks does to `lock_map` and to the
-- list of held mutexes.
use operation_system_proj_c.Prelude.{
  ℕ, ◌+◌, ◌<◌, ◌^◌, ◌≡◌, refl, Option, some, List, [], ◌∷◌, false, update, arith, ◌==◌, ap, true,
  ◌∙◌, if◌then◌else◌, Option-cases, inl, inr,
}
use mathlib.Core.Path.{fun_ext}
use operation_system_proj_c.Filesys.Monad.{Fs, Mode, shared, upgrade, exclusive, returns}
use operation_system_proj_c.Filesys.Locks.{
  count_up, count_down, lock_inode, unlock_inode, upgrade_to_write_lock, remove_held, mode_eq,
  excludes, waits,
}

-- The part of the state that locks change.
pub record LockState : Type 0 where
  pub lock_map : ℕ → Option ℕ
  pub held : List (ℕ × Mode)

abbrev pub locks : {D : Type 0} → Fs D → LockState
locks s = record { lock_map = s.lock_map; held = s.held }

abbrev pub relock : {D : Type 0} → LockState → Fs D → Fs D
relock l s = record s { lock_map = l.lock_map; held = l.held }

-- One more mutex is held.
abbrev pub acquire : Mode → ℕ → LockState → LockState
acquire m b l = record {
  lock_map = update l.lock_map b (some (count_up (l.lock_map b)));
  held = (b, m) ∷ l.held;
}

-- The request holds no mutex, every entry counts at least one holder, and there is room for four more.
pub record IsIdle (l : LockState) : Type 0 where
  pub nothing_held : l.held ≡ []
  pub counts : (b n : ℕ) → l.lock_map b ≡ some n → (0 < n) × (n + 4 < 2 ^ 32)

pub waits-nothing : (b : ℕ) (m : Mode) (l : LockState) → IsIdle l → waits b m l.held ≡ false
unfolding waits
waits-nothing b m l idle = rw idle.nothing_held refl

-- Beside a mutex that is shared, one can be shared or taken for upgrade.
pub waits-shared :
    (b c : ℕ) (m : Mode) (l : LockState)
    → excludes m shared ≡ false
    → IsIdle l
    → waits b m ((c, shared) ∷ l.held) ≡ false
unfolding waits
waits-shared b c m l can idle = rw (idle.nothing_held, can) refl

-- Beside another mutex, one can be taken.
pub waits-apart :
    (b c : ℕ) (m k : Mode) (l : LockState)
    → (b == c) ≡ false
    → IsIdle l
    → waits b m ((c, k) ∷ l.held) ≡ false
unfolding waits
waits-apart b c m k l apart idle = rw (idle.nothing_held, apart) (ground arith)

pub remove_held-first :
    (b : ℕ) (m : Mode) (l : List (ℕ × Mode)) → remove_held b m ((b, m) ∷ l) ≡ some l
unfolding remove_held
remove_held-first b shared l = ground arith
remove_held-first b upgrade l = ground arith
remove_held-first b exclusive l = ground arith

mode_eq→eq : (m k : Mode) → mode_eq m k ≡ true → m ≡ k
mode_eq→eq m k h = ground arith

pub remove_held-second :
    (b c : ℕ) (m k : Mode) (l : List (ℕ × Mode))
    → remove_held b m ((c, k) ∷ (b, m) ∷ l) ≡ some ((c, k) ∷ l)
unfolding remove_held
remove_held-second b c m k l = ground (arith, remove_held-first b m l, mode_eq→eq m k)

-- With room, counting down undoes counting up, once and below another count.
count_down-count_up :
    (l : LockState) (b : ℕ) → IsIdle l → count_down (count_up (l.lock_map b)) ≡ l.lock_map b
count_down-count_up l b r = elim (Option-cases (l.lock_map b)) [
  | inl e ↦ rw e
  | inr (n, e) ↦ ground (arith, e, r.counts b n e)
]

lock_map-release :
    (l : LockState) (b : ℕ)
    → IsIdle l
    → update (acquire shared b l).lock_map b (count_down (count_up (l.lock_map b))) ≡ l.lock_map
lock_map-release l b r = fun_ext λ x. ground (arith, count_down-count_up l b r)

-- What stands at `b` after it was counted up, and then `c` was.
abbrev second_count : ℕ → ℕ → LockState → ℕ
second_count b c l =
    if c == b then count_up (some (count_up (l.lock_map b))) else count_up (l.lock_map b)

lock_map-release_second :
    (l : LockState) (b c : ℕ)
    → IsIdle l
    → update (acquire shared c (acquire shared b l)).lock_map b (count_down (second_count b c l))
      ≡ (acquire shared c l).lock_map
lock_map-release_second l b c r = fun_ext λ x. elim (Option-cases (l.lock_map b)) [
  | inl e ↦ ground (arith, e)
  | inr (n, e) ↦ ground (arith, e, r.counts b n e)
]

module _ {D : Type 0} (s : Fs D) where
  unlock_inode_lem :
      (m : Mode) (b n : ℕ) (h : List (ℕ × Mode))
      → s.lock_map b ≡ some n
      → remove_held b m s.held ≡ some h
      → unlock_inode m b s
        ≡ (returns tt, record s { lock_map = update s.lock_map b (count_down n); held = h })
  unfolding unlock_inode
  unlock_inode_lem m b n h e q = ground (arith, e, q)

module _ {D : Type 0} (s : Fs D) where
  pub lock_inode-acquire :
      (m : Mode) (b : ℕ) (l : LockState)
      → waits b m l.held ≡ false
      → lock_inode m b (relock l s) ≡ (returns tt, relock (acquire m b l) s)
  unfolding lock_inode
  lock_inode-acquire m b l can = rw can refl

  pub unlock_inode-acquire :
      (m : Mode) (b : ℕ) (l : LockState)
      → IsIdle l
      → unlock_inode m b (relock (acquire m b l) s) ≡ (returns tt, relock l s)
  unlock_inode-acquire m b l r =
      unlock_inode_lem (relock (acquire m b l) s) m b (count_up (l.lock_map b)) l.held
        (ground arith) (remove_held-first b m l.held)
      ∙ ap (λ lm. (returns tt, record s { lock_map = lm; held = l.held })) (lock_map-release l b r)

  -- The lock below the last one that was taken can be released first.
  pub unlock_inode-acquire_second :
      (m k : Mode) (b c : ℕ) (l : LockState)
      → IsIdle l
      → unlock_inode m b (relock (acquire k c (acquire m b l)) s)
        ≡ (returns tt, relock (acquire k c l) s)
  unlock_inode-acquire_second m k b c l r =
      unlock_inode_lem (relock (acquire k c (acquire m b l)) s) m b (second_count b c l)
        ((c, k) ∷ l.held) (ground arith) (remove_held-second b c m k l.held)
      ∙ ap (λ lm. (returns tt, record s { lock_map = lm; held = (c, k) ∷ l.held }))
          (lock_map-release_second l b c r)

  pub upgrade_to_write_lock-acquire :
      (b : ℕ) (l : LockState)
      → waits b exclusive l.held ≡ false
      → upgrade_to_write_lock b (relock (acquire upgrade b l) s)
        ≡ (returns tt, relock (acquire exclusive b l) s)
  unfolding upgrade_to_write_lock
  upgrade_to_write_lock-acquire b l can = ground (arith, can, remove_held-first b upgrade l.held)
