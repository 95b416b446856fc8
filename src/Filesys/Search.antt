-- ===== src/Filesys/Search.antt =====
-- filesys/file_system.cpp: the search for free blocks when the server starts, up to the constructor of
-- FileSystem. A set of blocks is a list, in which a block may stand more than once. The search takes
-- fuel, one unit for each inode; `none` means that the fuel ran out.
pub mod Tree
pub mod Loop
pub mod Rounds
pub mod Free
use operation_system_proj_c.Prelude.{
  ℕ, zero, suc, ◌+◌, Bool, true, false, Option, none, some, List, [], ◌∷◌, ◌++◌, not, ◌==◌, ◌||◌,
  if◌then◌else◌,
}
use operation_system_proj_c.Filesys.Types.{Direntry, Inode, fs_disksize, root_inode}
use operation_system_proj_c.Filesys.Disk.{DiskApi}
use operation_system_proj_c.Filesys.Monad.{
  Fs, M, Outcome, returns, index, read_inode, read_direntries, assert, pure, ◌>>=◌, ◌>>◌,
}
use operation_system_proj_c.Filesys.Lookup.{dir_type, file_type}

-- `used_file_blocks.find(b) != end()`
abbrev pub contains : ℕ → List ℕ → Bool
contains b [] = false
contains b (x ∷ xs) = b == x || contains b xs

-- `used_file_blocks` and `search`
pub record Search : Type 0 where
  pub used_file_blocks : List ℕ
  pub search : List ℕ

-- The loop over the entries of a block.
unfoldable pub bfs_direntries : List Direntry → Search → Search
bfs_direntries [] s = s
bfs_direntries (e ∷ es) s = bfs_direntries es (
    if e.inode_block == 0 then s else record {
      used_file_blocks = e.inode_block ∷ s.used_file_blocks;
      search = s.search ++ e.inode_block ∷ [];
    })

module _ {D : Type 0} where
  -- The blocks of the inode from number `i` on, `n` of them.
  unfoldable pub bfs_file_inode : ℕ → ℕ → Inode → List ℕ → M D (List ℕ)
  bfs_file_inode zero i inode used = pure used
  bfs_file_inode (suc n) i inode used = do
    used_block ← index inode.blocks i
    bfs_file_inode n (i + 1) inode (used_block ∷ used)

module _ ⦃api : DiskApi⦄ where
  open api use {Disk}

  unfoldable pub bfs_directory_inode : ℕ → ℕ → Inode → Search → M Disk Search
  bfs_directory_inode zero i inode s = pure s
  bfs_directory_inode (suc n) i inode s = do
    used_block ← index inode.blocks i
    tmp_block ← read_direntries used_block
    bfs_directory_inode n (i + 1) inode
        (bfs_direntries tmp_block (record s { used_file_blocks = used_block ∷ s.used_file_blocks }))

  -- The body of the loop, for the block `curr_block` of an inode.
  unfoldable pub visit : ℕ → Search → M Disk Search
  visit curr_block s = do
    inode_to_search ← read_inode curr_block
    (if inode_to_search.type == file_type
        then (do
          used ← bfs_file_inode inode_to_search.size 0 inode_to_search s.used_file_blocks
          pure (record s { used_file_blocks = used }))
        else (do
          assert (inode_to_search.type == dir_type)
          bfs_directory_inode inode_to_search.size 0 inode_to_search s))

  unfoldable pub search_loop : ℕ → Search → M Disk (Option (List ℕ))
  search_loop zero s = pure none
  search_loop (suc fuel) s = elim s.search [
    | [] ↦ pure (some s.used_file_blocks)
    | curr_block ∷ rest ↦ (do
      next ← visit curr_block (record s { search = rest })
      search_loop fuel next)
  ]

  unfoldable pub find_free_blocks : ℕ → M Disk (Option (List ℕ))
  find_free_blocks fuel =
      search_loop fuel (record { used_file_blocks = root_inode ∷ []; search = root_inode ∷ [] })

-- The blocks from `b` on, `n` of them, that are not used.
unfoldable pub unused : List ℕ → ℕ → ℕ → List ℕ
unused used b zero = []
unused used b (suc n) =
    let rest = unused used (b + 1) n in if contains b used then rest else b ∷ rest

module _ ⦃api : DiskApi⦄ where
  open api use {Disk}

  abbrev fill_free_list : Option (List ℕ) → M Disk (Option (Unit {0}))
  fill_free_list none s = (returns none, s)
  fill_free_list (some used) s = (
    returns (some tt),
    record s { free_block_list = s.free_block_list ++ unused used 0 fs_disksize },
  )

  -- The constructor of FileSystem.
  unfoldable pub new_file_system : ℕ → M Disk (Option (Unit {0}))
  new_file_system fuel = find_free_blocks fuel >>= fill_free_list
