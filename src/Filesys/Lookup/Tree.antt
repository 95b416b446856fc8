-- ===== src/Filesys/Lookup/Tree.antt =====
-- filesys/: the file system on a disk as a tree of inodes, and when an image is well formed.
use operation_system_proj_c.Prelude.{ℕ, ◌≡◌, ◌≢◌, ◌<◌, ◌≤◌, some, List, get_elem?}
use operation_system_proj_c.Filesys.Types.{
  Direntry, Inode, fs_disksize, fs_maxfileblocks, root_inode,
}
use operation_system_proj_c.Filesys.Disk.{DiskApi}
use operation_system_proj_c.Filesys.Lookup.{dir_type}

module _ ⦃api : DiskApi⦄ where
  open api use {Disk, Block, read, as_inode, as_direntries}

  abbrev pub inode_at : Disk → ℕ → Inode
  inode_at d b = as_inode (read d b)

  -- Block number `k` of the file or directory is block `b` of the disk.
  abbrev pub HasBlock : Inode → ℕ → ℕ → Type 0
  HasBlock i k b = (k < i.size) × (get_elem? i.blocks k ≡ some b)

  -- The directory `i` has a used entry of that name, for the inode in block `c`.
  pub record HasEntry (d : Disk) (i : Inode) (name : List ℕ) (c : ℕ) : Type 0 where
    pub k : ℕ
    pub b : ℕ
    pub j : ℕ
    pub entry : Direntry
    pub block : HasBlock i k b
    pub place : get_elem? (as_direntries (read d b)) j ≡ some entry
    pub named : entry.name ≡ name
    pub points : entry.inode_block ≡ c
    pub used : c ≢ 0

  -- The blocks that hold inodes: the root, and what a directory points to.
  pub data IsInode (d : Disk) : ℕ → Type 0 where
    root : IsInode d root_inode
    child :
        {b c : ℕ} {name : List ℕ}
        → IsInode d b
        → (inode_at d b).type ≡ dir_type
        → HasEntry d (inode_at d b) name c
        → IsInode d c

  -- No directory has an entry for itself.
  abbrev pub NoSelfEntry : Disk → Type 0
  NoSelfEntry d =
      (b : ℕ) (name : List ℕ)
      → IsInode d b
      → (inode_at d b).type ≡ dir_type
      → HasEntry d (inode_at d b) name b
      → ⊥

  pub record BlocksFit (i : Inode) : Type 0 where
    pub size : i.size ≤ fs_maxfileblocks
    pub blocks : (k b : ℕ) → HasBlock i k b → b < fs_disksize

  -- All inodes, and all the blocks that they name, are on the disk.
  abbrev pub WellFormed : Disk → Type 0
  WellFormed d = (b : ℕ) → IsInode d b → (b < fs_disksize) × BlocksFit (inode_at d b)
