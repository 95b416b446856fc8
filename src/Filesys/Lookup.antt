-- ===== src/Filesys/Lookup.antt =====
-- filesys/file_system.cpp: `find_next_inode`, `find_parent_inode`,
-- `get_parent_inode_and_upgradeable_lock` and `validate_parent_inode`.
pub mod Tree
pub mod Find
pub mod Walk
pub mod Resolve
use operation_system_proj_c.Prelude.{
  ℕ, zero, suc, ◌+◌, List, [], ◌∷◌, ◌==◌, if◌then◌else◌, not, ◌&&◌, ◌||◌, is_empty,
}
use operation_system_proj_c.Filesys.Types.{
  Direntry, Inode, Command, str_eq, undefined_block, root_inode,
}
use operation_system_proj_c.Filesys.Disk.{DiskApi}
use operation_system_proj_c.Filesys.Monad.{
  M, pure, throw, assert, index, when, ◌>>=◌, ◌>>◌, read_inode, read_direntries, not_owner_of_dir,
  not_a_directory, directory_not_found, not_directory_or_owner,
}
use operation_system_proj_c.Filesys.Locks.{
  lock_inode_read, unlock_inode_read, lock_inode_upgrade, unlock_inode_upgrade,
}
use operation_system_proj_c.Filesys.Path.{get_parent_dir, get_target, directory_names}

-- The inner loop: the first used entry of that name.
unfoldable pub find_entry : List ℕ → List Direntry → ℕ
find_entry name [] = undefined_block
find_entry name (e ∷ es) =
    if not (e.inode_block == 0) && str_eq e.name name then e.inode_block else find_entry name es

abbrev pub dir_type : ℕ
dir_type = b'd'

abbrev pub file_type : ℕ
file_type = b'f'

module _ ⦃api : DiskApi⦄ where
  open api use {Disk, Block}

  -- The outer loop: blocks `i`, `i + 1`, … of the directory, `n` of them.
  unfoldable pub find_in_blocks : List ℕ → Inode → ℕ → ℕ → M Disk ℕ
  find_in_blocks name inode i zero = pure undefined_block
  find_in_blocks name inode i (suc n) =
      let rest = find_in_blocks name inode (i + 1) n in
      do
        b ← index inode.blocks i
        es ← read_direntries b
        let result = find_entry name es
        if not (result == undefined_block) then pure result else rest

  unfoldable pub find_next_inode : List ℕ → ℕ → List ℕ → M Disk ℕ
  find_next_inode next_dir_name target user_name = do
    curr_inode ← read_inode target
    when (not (target == 0) && not (str_eq user_name curr_inode.owner))
        (unlock_inode_read target >> throw not_owner_of_dir)
    when (not (curr_inode.type == dir_type)) (unlock_inode_read target >> throw not_a_directory)
    result ← find_in_blocks next_dir_name curr_inode 0 curr_inode.size
    when (result == undefined_block) (unlock_inode_read target >> throw directory_not_found)
    pure result

  -- The loop of `find_parent_inode`: a reader lock goes down the path, hand over hand.
  unfoldable pub walk : List ℕ → ℕ → List (List ℕ) → M Disk ℕ
  walk user_name target [] = pure target
  walk user_name target (dir_name ∷ []) = pure target
  walk user_name target (dir_name ∷ next_name ∷ names) =
      let rest = λ (next : ℕ). walk user_name next (next_name ∷ names) in
      do
        assert (not (is_empty dir_name) || target == root_inode)
        next ← find_next_inode next_name target user_name
        lock_inode_read next
        unlock_inode_read target
        rest next

  unfoldable pub find_parent_inode : List ℕ → List ℕ → M Disk ℕ
  find_parent_inode path_name user_name = do
    parent_path ← get_parent_dir path_name
    lock_inode_read root_inode
    walk user_name root_inode (directory_names parent_path)

  unfoldable pub get_parent_inode_and_upgradeable_lock : Command → List ℕ → M Disk ℕ
  get_parent_inode_and_upgradeable_lock command parent_path =
      if is_empty parent_path then (do lock_inode_upgrade root_inode; pure root_inode) else (do
        grandparent ← find_parent_inode parent_path command.username
        parent_dirname ← get_target parent_path
        parent ← find_next_inode parent_dirname grandparent command.username
        lock_inode_upgrade parent
        unlock_inode_read grandparent
        pure parent)

  unfoldable pub validate_parent_inode : Command → List ℕ → Inode → ℕ → M Disk (Unit {0})
  validate_parent_inode command parent_path parent_inode parent =
      when
        (not (is_empty parent_path)
          && (not (parent_inode.type == dir_type)
              || not (str_eq parent_inode.owner command.username)))
        (unlock_inode_upgrade parent >> throw not_directory_or_owner)
