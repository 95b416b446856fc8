-- ===== src/Filesys/Create.antt =====
-- filesys/file_system.cpp: `handle_create`.
pub mod Effects
pub mod Searching
pub mod Scanning
pub mod Creating
use operation_system_proj_c.Prelude.{
  ℕ, zero, suc, ◌+◌, Bool, true, false, List, [], ◌∷◌, ◌==◌, if◌then◌else◌, ◌||◌, set, replicate,
  leb, length,
}
use operation_system_proj_c.Filesys.Types.{
  Direntry, Inode, Command, str_eq, fs_maxfilename, fs_maxusername, fs_maxfileblocks, fs_direntries,
  undefined_block,
}
use operation_system_proj_c.Filesys.Disk.{DiskApi}
use operation_system_proj_c.Filesys.Monad.{
  M, assert, pure, throw, index, when, ◌>>=◌, ◌>>◌, disk_writeblock, read_inode, read_direntries,
  path_exists, no_space_create,
}
use operation_system_proj_c.Filesys.Locks.{
  unlock_inode_upgrade, upgrade_to_write_lock, unlock_inode_write,
}
use operation_system_proj_c.Filesys.Path.{get_parent_dir, get_target}
use operation_system_proj_c.Filesys.Lookup.{
  get_parent_inode_and_upgradeable_lock, validate_parent_inode,
}
use operation_system_proj_c.Filesys.ReadWrite.{pop_free, free_is_empty}

-- The variables `is_empty_direntry`, `new_direntry_location`, `new_direntry_block` and
-- `updated_direntries_block` of the search for a free entry.
pub record Slot : Type 0 where
  pub is_empty_direntry : Bool
  pub location : ℕ
  pub block : ℕ
  pub entries : List Direntry

abbrev pub unused_entry : Direntry
unused_entry = record { name = []; inode_block = 0 }

-- After the `memset`.
abbrev pub no_slot : Slot
no_slot = record {
  is_empty_direntry = false;
  location = 0;
  block = undefined_block;
  entries = replicate fs_direntries unused_entry;
}

-- The lowest free entry is kept.
unfoldable pub take_slot : ℕ → List Direntry → ℕ → Slot → Slot
take_slot b es j slot =
    if slot.is_empty_direntry
    then slot
    else record { is_empty_direntry = true; location = j; block = b; entries = es }

-- `updated_direntries_block[location]` gets the name and the inode of the new file.
unfoldable pub fill_slot : Slot → List ℕ → ℕ → List Direntry
fill_slot slot target_name new_inode_block =
    set slot.entries slot.location (record { name = target_name; inode_block = new_inode_block })

-- `strcpy` of a text into an array of `n` characters and a NUL; behind its end it stops the process.
abbrev pub strcpy : {D : Type 0} → ℕ → List ℕ → M D (Unit {0})
strcpy n text = assert (leb (length text) n)

module _ ⦃api : DiskApi⦄ where
  open api use {Disk, Block, of_inode, of_direntries, uninitialized}

  -- The inner loop over the entries `j`, `j + 1`, … of block `b`, whose whole content is `tmp`.
  unfoldable pub scan_entries :
      List ℕ → ℕ → ℕ → List Direntry → ℕ → List Direntry → Slot → M Disk Slot
  scan_entries target parent b tmp j [] slot = pure slot
  scan_entries target parent b tmp j (e ∷ es) slot =
      let rest = λ (next : Slot). scan_entries target parent b tmp (j + 1) es next in
      if e.inode_block == 0
      then rest (take_slot b tmp j slot)
      else (if str_eq e.name target
          then (unlock_inode_upgrade parent >> throw path_exists)
          else rest slot)

  -- The outer loop over `n` blocks of the directory, from block `i` on.
  unfoldable pub scan_blocks : List ℕ → ℕ → Inode → ℕ → ℕ → Slot → M Disk Slot
  scan_blocks target parent inode i zero slot = pure slot
  scan_blocks target parent inode i (suc n) slot =
      let rest = λ (next : Slot). scan_blocks target parent inode (i + 1) n next in
      do
        b ← index inode.blocks i
        tmp ← read_direntries b
        next ← scan_entries target parent b tmp 0 tmp slot
        rest next

  -- No free entry: the directory takes a free block.
  unfoldable pub grow_directory : ℕ → Inode → M Disk (ℕ × Inode)
  grow_directory parent inode = do
    none_free ← free_is_empty
    when (none_free || inode.size == fs_maxfileblocks)
        (unlock_inode_upgrade parent >> throw no_space_create)
    new_direntry_block ← pop_free
    pure (
      new_direntry_block,
      record inode { blocks = set inode.blocks inode.size new_direntry_block },
    )

  -- The two orders of writes of `handle_create`.
  unfoldable pub link : ℕ → Inode → ℕ → List Direntry → Bool → M Disk (Unit {0})
  link parent inode direntry_block entries true = do
    upgrade_to_write_lock parent
    disk_writeblock direntry_block (of_direntries entries)
  link parent inode direntry_block entries false = do
    disk_writeblock direntry_block (of_direntries entries)
    upgrade_to_write_lock parent
    disk_writeblock parent (of_inode (record inode { size = inode.size + 1 }))

  abbrev pub new_inode : Command → Inode
  new_inode command = record {
    type = command.type;
    owner = command.username;
    size = 0;
    blocks = uninitialized;
  }

  -- The part of `handle_create` after the search: the first test of the free list throws with the
  -- lock of the parent still held, as the code does.
  unfoldable pub create_in : Command → List ℕ → ℕ → Inode → Slot → M Disk (Unit {0})
  create_in command target_name parent parent_inode slot = do
    none_free ← free_is_empty
    when none_free (throw no_space_create)
    new_inode_block ← pop_free
    strcpy fs_maxfilename target_name
    let entries = fill_slot slot target_name new_inode_block
    strcpy fs_maxusername command.username
    place ←
        (if slot.is_empty_direntry
          then pure (slot.block, parent_inode)
          else grow_directory parent parent_inode)
    disk_writeblock new_inode_block (of_inode (new_inode command))
    link parent place.1 place.0 entries slot.is_empty_direntry
    unlock_inode_write parent

  unfoldable pub handle_create : Command → M Disk (Unit {0})
  handle_create command = do
    parent_path ← get_parent_dir command.pathname
    target_name ← get_target command.pathname
    parent ← get_parent_inode_and_upgradeable_lock command parent_path
    parent_inode ← read_inode parent
    validate_parent_inode command parent_path parent_inode parent
    slot ← scan_blocks target_name parent parent_inode 0 parent_inode.size no_slot
    create_in command target_name parent parent_inode slot
