-- ===== src/Filesys/Search/Loop.antt =====
-- filesys/file_system.cpp: one inode of the search, and the loop.
use operation_system_proj_c.Prelude.{
  ℕ, zero, suc, ◌+◌, ◌<◌, ◌≤◌, ◌≡◌, ◌⊎◌, inl, inr, refl, sym, ap, ◌∙◌, Bool-cases, List, [], ◌∷◌,
  ◌++◌, append-nil, append_assoc, ◌==◌, ◌||◌, if◌then◌else◌, arith, get_or, length, lt→ltb,
}
use operation_system_proj_c.Filesys.Types.{Direntry, Inode, fs_disksize}
use operation_system_proj_c.Filesys.Disk.{DiskApi}
use operation_system_proj_c.Filesys.Monad.{Fs, returns, read_inode, read_direntries}
use operation_system_proj_c.Filesys.Monad.Ends.{index-get_elem?}
use operation_system_proj_c.Filesys.Lookup.{dir_type, file_type}
use operation_system_proj_c.Filesys.Lookup.Tree.{inode_at, BlocksFit}
use operation_system_proj_c.Filesys.Search.{
  contains, Search, bfs_direntries, bfs_file_inode, bfs_directory_inode, visit,
}
use operation_system_proj_c.Filesys.Search.Tree.{
  contains-append, pointers, gather, name_at, pointers_at, children, get_elem?-get_or,
}

bfs_direntries-search :
    (es : List Direntry) (s : Search) → (bfs_direntries es s).search ≡ s.search ++ pointers es
unfolding bfs_direntries
bfs_direntries-search [] s = sym (append-nil s.search)
bfs_direntries-search (e ∷ es) s = elim (Bool-cases (e.inode_block == 0)) [
  | inl z ↦ rw (z, bfs_direntries) (bfs_direntries-search es s)
  | inr z ↦
      rw (z, bfs_direntries)
        (bfs_direntries-search es (record {
          used_file_blocks = e.inode_block ∷ s.used_file_blocks;
          search = s.search ++ e.inode_block ∷ [];
        })
          ∙ append_assoc s.search (e.inode_block ∷ []) (pointers es))
]

bfs_direntries-used :
    (b : ℕ) (es : List Direntry) (s : Search)
    → contains b (bfs_direntries es s).used_file_blocks
      ≡ (contains b (pointers es) || contains b s.used_file_blocks)
unfolding bfs_direntries
bfs_direntries-used b [] s = refl
bfs_direntries-used b (e ∷ es) s = elim (Bool-cases (e.inode_block == 0)) [
  | inl z ↦ rw (z, bfs_direntries) (bfs_direntries-used b es s)
  | inr z ↦
      let next : Search = record {
        used_file_blocks = e.inode_block ∷ s.used_file_blocks;
        search = s.search ++ e.inode_block ∷ [];
      } in
      rw (z, bfs_direntries) (ground (arith, bfs_direntries-used b es next))
]

-- The blocks of an inode, one after the other.
bfs_file_inode-run :
    {D : Type 0} (n i : ℕ) (inode : Inode) (used : List ℕ) (fs : Fs D)
    → i + n ≤ length inode.blocks
    → (used' : List ℕ) × (bfs_file_inode n i inode used fs ≡ (returns used', fs))
      × ((b : ℕ)
          → contains b used' ≡ (contains b (gather (name_at inode.blocks) i n) || contains b used))
unfolding bfs_file_inode
bfs_file_inode-run zero i inode used fs h = (used, refl, λ b. refl)
bfs_file_inode-run (suc n) i inode used fs h =
    let b0 = get_or inode.blocks i 0 in
    let here = index-get_elem? inode.blocks i fs (get_elem?-get_or inode.blocks i (omega arith)) in
    let (used', run, spec) = bfs_file_inode-run n (i + 1) inode (b0 ∷ used) fs (omega arith) in
    (used', rw (here, run) refl, λ b. ground (arith, spec b))

module _ ⦃api : DiskApi⦄ where
  open api use {Disk, read, as_direntries, length-blocks}

  read_direntries-run :
      (b : ℕ) (fs : Fs Disk)
      → b < fs_disksize
      → read_direntries b fs ≡ (returns (as_direntries (read fs.disk b)), fs)
  unfolding read_direntries
  read_direntries-run b fs h = rw (lt→ltb b fs_disksize h) refl

  read_inode-run :
      (b : ℕ) (fs : Fs Disk)
      → b < fs_disksize
      → read_inode b fs ≡ (returns (inode_at fs.disk b), fs)
  unfolding read_inode
  read_inode-run b fs h = rw (lt→ltb b fs_disksize h) refl

  bfs_directory_inode-run :
      (n i : ℕ) (inode : Inode) (s : Search) (fs : Fs Disk)
      → i + n ≤ length inode.blocks
      → ((k : ℕ) → k < i + n → get_or inode.blocks k 0 < fs_disksize)
      → (s' : Search) × (bfs_directory_inode n i inode s fs ≡ (returns s', fs))
        × (s'.search ≡ s.search ++ gather (pointers_at fs.disk inode.blocks) i n)
        × ((b : ℕ)
            → contains b s'.used_file_blocks ≡ (
                contains b (gather (name_at inode.blocks) i n)
                || (contains b (gather (pointers_at fs.disk inode.blocks) i n)
                    || contains b s.used_file_blocks)))
  unfolding bfs_directory_inode
  bfs_directory_inode-run zero i inode s fs h on_disk =
      (s, refl, sym (append-nil s.search), λ b. refl)
  bfs_directory_inode-run (suc n) i inode s fs h on_disk =
      let b0 = get_or inode.blocks i 0 in
      let here =
        index-get_elem? inode.blocks i fs (get_elem?-get_or inode.blocks i (omega arith)) in
      let es = as_direntries (read fs.disk b0) in
      let load : read_direntries b0 fs ≡ (returns es, fs) =
        read_direntries-run b0 fs (on_disk i (omega arith)) in
      let s1 : Search = record s { used_file_blocks = b0 ∷ s.used_file_blocks } in
      let next = bfs_direntries es s1 in
      let (s', run, queue, spec) =
        bfs_directory_inode-run n (i + 1) inode next fs (omega arith)
          (λ k low. on_disk k (omega (arith, low))) in
      let rest = gather (pointers_at fs.disk inode.blocks) (i + 1) n in
      (
        s',
        rw (here, load, run) refl,
        queue
            ∙ ap (λ l. l ++ rest) (bfs_direntries-search es s1)
            ∙ append_assoc s.search (pointers es) rest,
        λ b.
            ground
              (arith, spec b, bfs_direntries-used b es s1, contains-append b (pointers es) rest),
      )

  -- What the search goes on with after the inode in block `c`.
  abbrev pub next_of : Disk → ℕ → List ℕ
  next_of d c = if (inode_at d c).type == file_type then [] else children d c

  abbrev pub names_of : Disk → ℕ → List ℕ
  names_of d c = gather (name_at (inode_at d c).blocks) 0 (inode_at d c).size

  abbrev pub HasType : Inode → Type 0
  HasType i = (i.type ≡ file_type) ⊎ (i.type ≡ dir_type)

  pub visit-run :
      (c : ℕ) (s : Search) (fs : Fs Disk)
      → c < fs_disksize
      → BlocksFit (inode_at fs.disk c)
      → HasType (inode_at fs.disk c)
      → (s' : Search) × (visit c s fs ≡ (returns s', fs))
        × (s'.search ≡ s.search ++ next_of fs.disk c)
        × ((b : ℕ)
            → contains b s'.used_file_blocks ≡ (
                contains b (names_of fs.disk c)
                || (contains b (next_of fs.disk c) || contains b s.used_file_blocks)))
  unfolding visit
  visit-run c s fs on_disk fits (inl file) =
      let i = inode_at fs.disk c in
      let (used, run, spec) =
        bfs_file_inode-run i.size 0 i s.used_file_blocks fs
          (omega (arith, fits.size, length-blocks (read fs.disk c))) in
      (
        record s { used_file_blocks = used },
        rw (read_inode-run c fs on_disk, file, run) refl,
        rw file (sym (append-nil s.search)),
        λ b. rw file (spec b),
      )
  visit-run c s fs on_disk fits (inr dir) =
      let i = inode_at fs.disk c in
      let room : 0 + i.size ≤ length i.blocks =
        omega (arith, fits.size, length-blocks (read fs.disk c)) in
      let (s', run, queue, spec) = bfs_directory_inode-run i.size 0 i s fs room (λ k low.
        fits.blocks k (get_or i.blocks k 0)
          (omega (arith, low), get_elem?-get_or i.blocks k (omega (arith, low, room)))) in
      (s', rw (read_inode-run c fs on_disk, dir, run) refl, rw dir queue, λ b. rw dir (spec b))
