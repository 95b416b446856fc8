-- ===== src/Filesys/ReadWrite.antt =====
-- filesys/file_system.cpp: `handle_read` and `handle_write`.
pub mod Reading
pub mod Steps
pub mod Writing
use operation_system_proj_c.Prelude.{
  ℕ, ◌+◌, Bool, true, false, [], ◌∷◌, ltb, leb, ◌==◌, if◌then◌else◌, not, ◌||◌, is_empty, set, ◌++◌,
}
use operation_system_proj_c.Filesys.Types.{Inode, Command, str_eq, fs_maxfileblocks}
use operation_system_proj_c.Filesys.Disk.{DiskApi}
use operation_system_proj_c.Filesys.Monad.{
  M, Outcome, returns, pure, throw, index, when, ◌>>=◌, ◌>>◌, disk_readblock, disk_writeblock,
  read_inode, not_a_file, not_owner_of_file, not_writable, no_space_write,
}
use operation_system_proj_c.Filesys.Locks.{
  lock_inode_read, unlock_inode_read, lock_inode_upgrade, unlock_inode_upgrade,
  upgrade_to_write_lock, unlock_inode_write,
}
use operation_system_proj_c.Filesys.Path.{get_target}
use operation_system_proj_c.Filesys.Lookup.{find_parent_inode, find_next_inode, file_type}

-- `free_block_list.front()` and `pop()`; the callers test for an empty list first.
abbrev pub pop_free : {D : Type 0} → M D ℕ
pop_free s = elim s.free_block_list [
  | [] ↦ (Outcome.aborts, s)
  | b ∷ rest ↦ (returns b, record s { free_block_list = rest })
]

abbrev pub free_is_empty : {D : Type 0} → M D Bool
free_is_empty s = (returns (is_empty s.free_block_list), s)

abbrev pub push_free : {D : Type 0} → ℕ → M D (Unit {0})
push_free b s = (returns tt, record s { free_block_list = s.free_block_list ++ b ∷ [] })

module _ ⦃api : DiskApi⦄ where
  open api use {Disk, Block, of_inode}

  -- The part of `handle_read` that has the reader lock of the target.
  unfoldable pub read_target : Command → ℕ → M Disk Block
  read_target command target = do
    target_inode ← read_inode target
    when (not (target_inode.type == file_type) || leb target_inode.size command.block)
        (unlock_inode_read target >> throw not_a_file)
    when (not (str_eq command.username target_inode.owner))
        (unlock_inode_read target >> throw not_owner_of_file)
    b ← index target_inode.blocks command.block
    data_read ← disk_readblock b
    unlock_inode_read target
    pure data_read

  unfoldable pub handle_read : Command → M Disk Block
  handle_read command = do
    parent ← find_parent_inode command.pathname command.username
    target_name ← get_target command.pathname
    target ← find_next_inode target_name parent command.username
    lock_inode_read target
    unlock_inode_read parent
    read_target command target

  -- The block of `handle_write` for a write behind the end: take a free block.
  unfoldable pub grow : ℕ → Inode → M Disk Inode
  grow target inode = do
    none_free ← free_is_empty
    when (none_free || inode.size == fs_maxfileblocks)
        (unlock_inode_upgrade target >> throw no_space_write)
    free_block ← pop_free
    pure (record inode { blocks = set inode.blocks inode.size free_block; size = inode.size + 1 })

  -- The writes of `handle_write`: over a block that is there, or to a new block and then the inode.
  unfoldable pub write_data : Command → Block → ℕ → Inode → Bool → M Disk (Unit {0})
  write_data command content target inode false = do
    upgrade_to_write_lock target
    b ← index inode.blocks command.block
    disk_writeblock b content
  write_data command content target inode true = do
    b ← index inode.blocks command.block
    disk_writeblock b content
    upgrade_to_write_lock target
    disk_writeblock target (of_inode inode)

  -- The part of `handle_write` that has the upgradeable lock of the target.
  unfoldable pub write_target : Command → Block → ℕ → M Disk (Unit {0})
  write_target command content target = do
    target_inode ← read_inode target
    when (not (target_inode.type == file_type) || ltb target_inode.size command.block)
        (unlock_inode_upgrade target >> throw not_writable)
    when (not (str_eq command.username target_inode.owner))
        (unlock_inode_upgrade target >> throw not_owner_of_file)
    let increase_file_size = command.block == target_inode.size
    inode ← (if increase_file_size then grow target target_inode else pure target_inode)
    write_data command content target inode increase_file_size
    unlock_inode_write target

  unfoldable pub handle_write : Command → Block → M Disk (Unit {0})
  handle_write command content = do
    parent ← find_parent_inode command.pathname command.username
    target_name ← get_target command.pathname
    target ← find_next_inode target_name parent command.username
    lock_inode_upgrade target
    unlock_inode_read parent
    write_target command content target
