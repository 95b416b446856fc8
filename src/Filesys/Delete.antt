-- ===== src/Filesys/Delete.antt =====
-- filesys/file_system.cpp: `handle_delete`.
pub mod Blocks
pub mod Effects
pub mod Locating
pub mod Deleting
use operation_system_proj_c.Prelude.{
  ℕ, zero, suc, ◌+◌, ◌-◌, Bool, true, false, Option, none, some, List, [], ◌∷◌, ◌==◌, if◌then◌else◌,
  not, ◌&&◌, set, get_elem?,
}
use operation_system_proj_c.Filesys.Types.{Direntry, Inode, Command, str_eq}
use operation_system_proj_c.Filesys.Disk.{DiskApi}
use operation_system_proj_c.Filesys.Monad.{
  M, abort, pure, throw, index, when, ◌>>=◌, ◌>>◌, disk_writeblock, read_inode, read_direntries,
  delete_root, target_not_found, not_owner_of_target, directory_not_empty,
}
use operation_system_proj_c.Filesys.Locks.{
  lock_inode_upgrade, unlock_inode_upgrade, upgrade_to_write_lock, unlock_inode_write,
}
use operation_system_proj_c.Filesys.Path.{slash, get_parent_dir, get_target}
use operation_system_proj_c.Filesys.Lookup.{
  get_parent_inode_and_upgradeable_lock, validate_parent_inode, dir_type, file_type,
}
use operation_system_proj_c.Filesys.Create.{unused_entry}
use operation_system_proj_c.Filesys.ReadWrite.{push_free}

unfoldable pub is_block_empty : List Direntry → Bool
is_block_empty [] = true
is_block_empty (e ∷ es) = if not (e.inode_block == 0) then false else is_block_empty es

-- The variables of the search: the entry's inode, its block's place in the parent, its place in the
-- block, and the block.
pub record Found : Type 0 where
  pub child_inode_block : ℕ
  pub dir_block_index : ℕ
  pub dir_entry_index : ℕ
  pub dir_block : List Direntry

-- The inner loop: the place and the inode of the first used entry of that name, from entry `j` on.
unfoldable pub locate_entry : List ℕ → ℕ → List Direntry → Option (ℕ × ℕ)
locate_entry name j [] = none
locate_entry name j (e ∷ es) =
    if not (e.inode_block == 0) && str_eq e.name name
    then some (j, e.inode_block)
    else locate_entry name (j + 1) es

-- `for (i = k; i < k + n; ++i) blocks[i] = blocks[i + 1]`
unfoldable pub shift_left : List ℕ → ℕ → ℕ → Option (List ℕ)
shift_left blocks k zero = some blocks
shift_left blocks k (suc n) = elim (get_elem? blocks (k + 1)) [
  | none ↦ none
  | some b ↦ shift_left (set blocks k b) (k + 1) n
]

abbrev pub removed : Found → List Direntry
removed f = set f.dir_block f.dir_entry_index unused_entry

module _ ⦃api : DiskApi⦄ where
  open api use {Disk, Block, of_inode, of_direntries}

  -- The outer loop over `n` blocks of the directory, from block `i` on, until the entry is found.
  unfoldable pub locate : List ℕ → Inode → ℕ → ℕ → M Disk (Option Found)
  locate name inode i zero = pure none
  locate name inode i (suc n) =
      let rest = locate name inode (i + 1) n in
      do
        b ← index inode.blocks i
        es ← read_direntries b
        elim (locate_entry name 0 es) [
          | none ↦ rest
          | some (j, child) ↦ pure (
              some (record {
                child_inode_block = child;
                dir_block_index = i;
                dir_entry_index = j;
                dir_block = es;
              }))
        ]

  -- The entry is gone: write its block, or take the block out of the directory and free it.
  unfoldable pub unlink : ℕ → Inode → Found → M Disk (Unit {0})
  unlink parent inode f =
      if is_block_empty (removed f)
      then (do
        empty_block ← index inode.blocks f.dir_block_index
        blocks ←
            elim (shift_left inode.blocks f.dir_block_index (inode.size - 1 - f.dir_block_index)) [
              | none ↦ abort
              | some bs ↦ pure bs
            ]
        disk_writeblock parent (of_inode (record inode { size = inode.size - 1; blocks = blocks }))
        push_free empty_block)
      else (do
        b ← index inode.blocks f.dir_block_index
        disk_writeblock b (of_direntries (removed f)))

  -- The loop that frees the blocks of a file: `n` of them, from block `i` on.
  unfoldable pub free_blocks : Inode → ℕ → ℕ → M Disk (Unit {0})
  free_blocks inode i zero = pure tt
  free_blocks inode i (suc n) =
      let rest = free_blocks inode (i + 1) n in do b ← index inode.blocks i; push_free b; rest

  -- `handle_delete` from step 4 on: the parent is held for upgrade, and the entry has been found.
  unfoldable pub delete_child : Command → ℕ → Inode → Found → M Disk (Unit {0})
  delete_child command parent parent_inode f = do
    let child = f.child_inode_block
    upgrade_to_write_lock parent
    lock_inode_upgrade child
    child_inode ← read_inode child
    when (not (str_eq child_inode.owner command.username))
        (unlock_inode_write parent >> unlock_inode_upgrade child >> throw not_owner_of_target)
    when (child_inode.type == dir_type && not (child_inode.size == 0))
        (unlock_inode_write parent >> unlock_inode_upgrade child >> throw directory_not_empty)
    unlink parent parent_inode f
    upgrade_to_write_lock child
    unlock_inode_write parent
    push_free child
    when (child_inode.type == file_type) (free_blocks child_inode 0 child_inode.size)
    unlock_inode_write child

  -- The end of `handle_delete`, by what the search found.
  unfoldable pub delete_located : Command → ℕ → Inode → Option Found → M Disk (Unit {0})
  delete_located command parent parent_inode none =
      unlock_inode_upgrade parent >> throw target_not_found
  delete_located command parent parent_inode (some f) = delete_child command parent parent_inode f

  unfoldable pub handle_delete : Command → M Disk (Unit {0})
  handle_delete command = do
    when (str_eq command.pathname (slash ∷ [])) (throw delete_root)
    parent_path ← get_parent_dir command.pathname
    target_name ← get_target command.pathname
    parent ← get_parent_inode_and_upgradeable_lock command parent_path
    parent_inode ← read_inode parent
    validate_parent_inode command parent_path parent_inode parent
    found ← locate target_name parent_inode 0 parent_inode.size
    delete_located command parent parent_inode found
