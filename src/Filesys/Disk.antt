-- ===== src/Filesys/Disk.antt =====
-- filesys/fs_server.h: what the code relies on of the disk and of the layout of a block. The disk is
-- implemented outside this repository, so it is an interface.
use operation_system_proj_c.Prelude.{ℕ, ◌≡◌, ◌≢◌, ◌<◌, ◌≤◌, ◌^◌, List, [], ◌∷◌, length}
use operation_system_proj_c.Filesys.Types.{
  Direntry, Inode, fs_disksize, fs_direntries, fs_maxfilename, fs_maxusername, fs_maxfileblocks,
}

-- A text of at most `n` characters, none of them NUL, in an array with room for a NUL behind it.
abbrev pub AllCharacters : List ℕ → Type 0
AllCharacters [] = Unit {0}
AllCharacters (c ∷ cs) = (0 < c) × (c < 2 ^ 8) × AllCharacters cs

abbrev pub IsText : ℕ → List ℕ → Type 0
IsText n w = (length w ≤ n) × AllCharacters w

abbrev pub AllNumbers : List ℕ → Type 0
AllNumbers [] = Unit {0}
AllNumbers (b ∷ bs) = (b < 2 ^ 32) × AllNumbers bs

-- The values that the fields of the two structures can hold.
pub record InodeFits (i : Inode) : Type 0 where
  pub type : i.type < 2 ^ 8
  pub owner : IsText fs_maxusername i.owner
  pub size : i.size < 2 ^ 32
  pub blocks : length i.blocks ≡ fs_maxfileblocks
  pub numbers : AllNumbers i.blocks

abbrev pub EntriesFit : List Direntry → Type 0
EntriesFit [] = Unit {0}
EntriesFit (e ∷ es) = IsText fs_maxfilename e.name × (e.inode_block < 2 ^ 32) × EntriesFit es

-- A block is what `disk_readblock` copies to memory. The code reads it as an inode, as an array of
-- directory entries, or as plain bytes: `as_…` is the cast from memory, `of_…` the one to memory.
-- `uninitialized` is the content of an array of block numbers that nobody has written.
pub record DiskApi : Type 1 where
  pub Disk : Type 0
  pub Block : Type 0
  pub read : Disk → ℕ → Block
  pub write : Disk → ℕ → Block → Disk
  pub as_inode : Block → Inode
  pub of_inode : Inode → Block
  pub as_direntries : Block → List Direntry
  pub of_direntries : List Direntry → Block
  pub uninitialized : List ℕ
  pub read-write_self : (d : Disk) (b : ℕ) (x : Block) → b < fs_disksize → read (write d b x) b ≡ x
  pub read-write_ne :
      (d : Disk) (b c : ℕ) (x : Block) → b < fs_disksize → b ≢ c → read (write d b x) c ≡ read d c
  pub as_inode-of_inode : (i : Inode) → InodeFits i → as_inode (of_inode i) ≡ i
  pub as_direntries-of_direntries :
      (es : List Direntry)
      → length es ≡ fs_direntries
      → EntriesFit es
      → as_direntries (of_direntries es) ≡ es
  pub length-blocks : (x : Block) → length (as_inode x).blocks ≡ fs_maxfileblocks
  pub length-as_direntries : (x : Block) → length (as_direntries x) ≡ fs_direntries
  pub length-uninitialized : length uninitialized ≡ fs_maxfileblocks
