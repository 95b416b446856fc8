-- ===== src/Filesys/Monad.antt =====
-- filesys/file_system.h: the state of the server and the effects of one request. The request runs
-- alone: what other threads do between its steps is not part of this state.
pub mod Ends
use operation_system_proj_c.Prelude.{
  ℕ, Bool, true, false, Option, none, some, List, ltb, if◌then◌else◌, get_elem?,
}
use operation_system_proj_c.Filesys.Types.{Inode, Direntry, fs_disksize}
use operation_system_proj_c.Filesys.Disk.{DiskApi}

-- The messages of the exceptions that a request can raise.
pub data Error : Type 0 where
  not_owner_of_dir not_a_directory directory_not_found not_a_file not_owner_of_file : Error
  not_writable no_space_write path_exists no_space_create not_directory_or_owner : Error
  delete_root target_not_found not_owner_of_target directory_not_empty : Error

-- A request returns, throws, or stops the process: an assertion fails, or an array is read out of
-- bounds.
pub data Outcome {ℓ} (A : Type ℓ) : Type ℓ where
  returns : A → Outcome A
  throws : Error → Outcome A
  aborts : Outcome A

pub data Mode : Type 0 where
  shared upgrade exclusive : Mode

-- `FileSystem`, with the disk. `lock_map` gives `num_readers`, and `held` lists the shared mutexes
-- that this request holds and how.
pub record Fs (D : Type 0) : Type 0 where
  pub disk : D
  pub free_block_list : List ℕ
  pub lock_map : ℕ → Option ℕ
  pub held : List (ℕ × Mode)

abbrev pub M : Type 0 → Type 0 → Type 0
M D A = Fs D → Outcome A × Fs D

abbrev pub bind_outcome : {D A B : Type 0} → (A → M D B) → Outcome A → Fs D → Outcome B × Fs D
bind_outcome f (returns a) s = f a s
bind_outcome f (throws e) s = (throws e, s)
bind_outcome f aborts s = (aborts, s)

infixl 5 ◌>>=◌ ◌>>◌
abbrev pub ◌>>=◌ : {D A B : Type 0} → M D A → (A → M D B) → M D B
◌>>=◌ m f s = let r = m s in bind_outcome f r.0 r.1

abbrev pub ◌>>◌ : {D B : Type 0} → M D (Unit {0}) → M D B → M D B
m >> k = m >>= λ _. k

abbrev pub pure : {D A : Type 0} → A → M D A
pure a s = (returns a, s)

abbrev pub throw : {D A : Type 0} → Error → M D A
throw e s = (throws e, s)

abbrev pub abort : {D A : Type 0} → M D A
abort s = (aborts, s)

-- `assert`
abbrev pub assert : {D : Type 0} → Bool → M D (Unit {0})
assert true = pure tt
assert false = abort

-- A read of an array; out of bounds it stops the process.
unfoldable pub index : {D A : Type 0} → List A → ℕ → M D A
index xs i s = elim (get_elem? xs i) [ none ↦ (aborts, s) | some a ↦ (returns a, s) ]

abbrev pub when : {D : Type 0} → Bool → M D (Unit {0}) → M D (Unit {0})
when true m = m
when false m = pure tt

module _ ⦃api : DiskApi⦄ where
  open api use {Disk, Block, read, write, as_inode, as_direntries}

  -- "Asserts on failure": a block that is not on the disk.
  unfoldable pub disk_readblock : ℕ → M Disk Block
  disk_readblock b s = if ltb b fs_disksize then (returns (read s.disk b), s) else (aborts, s)

  unfoldable pub disk_writeblock : ℕ → Block → M Disk (Unit {0})
  disk_writeblock b x s =
      if ltb b fs_disksize then (returns tt, record s { disk = write s.disk b x }) else (aborts, s)

  unfoldable pub read_inode : ℕ → M Disk Inode
  unfolding disk_readblock
  read_inode b = do x ← disk_readblock b; pure (as_inode x)

  unfoldable pub read_direntries : ℕ → M Disk (List Direntry)
  unfolding disk_readblock
  read_direntries b = do x ← disk_readblock b; pure (as_direntries x)
