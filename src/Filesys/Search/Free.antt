-- ===== src/Filesys/Search/Free.antt =====
-- filesys/file_system.cpp: the list of free blocks that the constructor of FileSystem makes.
use operation_system_proj_c.Prelude.{
  ℕ, zero, suc, ◌+◌, ◌<◌, ◌≤◌, ◌≡◌, refl, sym, ap, subst, true, not, Bool-cases, none, some, List,
  [], ◌∷◌, ◌==◌, ◌&&◌, ltb, leb, if◌then◌else◌, arith, count, inl, inr,
}
use operation_system_proj_c.Filesys.Types.{root_inode, fs_disksize}
use operation_system_proj_c.Filesys.Disk.{DiskApi}
use operation_system_proj_c.Filesys.Monad.{Fs, returns}
use operation_system_proj_c.Filesys.Lookup.Tree.{inode_at, IsInode, WellFormed, root}
use operation_system_proj_c.Filesys.Search.{contains, unused, find_free_blocks, new_file_system}
use operation_system_proj_c.Filesys.Search.Tree.{IsUsed, inode, named, IsInode-Chain}
use operation_system_proj_c.Filesys.Search.Loop.{HasType}
use operation_system_proj_c.Filesys.Search.Rounds.{Forest, Searched, search_loop-Searched}

count-unused :
    (x : ℕ) (used : List ℕ) (b n : ℕ)
    → count x (unused used b n)
      ≡ (if leb b x && ltb x (b + n) && not (contains x used) then 1 else 0)
unfolding unused
count-unused x used b zero = ground arith
count-unused x used b (suc n) = elim (Bool-cases (b == x)) [
  | inl e ↦
      let same : x ≡ b = ground (arith, e) in
      let inside : contains x used ≡ contains b used = ap (λ y. contains y used) same in
      ground (arith, same, inside, count-unused x used (b + 1) n)
  | inr e ↦ ground (arith, e, count-unused x used (b + 1) n)
]

module _ ⦃api : DiskApi⦄ where
  open api use {Disk}

  -- The server before the constructor has run.
  abbrev pub unmounted : Disk → Fs Disk
  unmounted d = record { disk = d; free_block_list = []; lock_map = λ b. none; held = [] }

  -- The list holds the blocks of the disk that are not used, each once.
  pub record IsFree (d : Disk) (l : List ℕ) : Type 0 where
    pub used : (b : ℕ) → IsUsed d b → count b l ≡ 0
    pub outside : (b : ℕ) → fs_disksize ≤ b → count b l ≡ 0
    pub free : (b : ℕ) → b < fs_disksize → ¬ IsUsed d b → count b l ≡ 1

  IsUsed-seen :
      (d : Disk) (used : List ℕ)
      → Searched d (root_inode ∷ []) (root_inode ∷ []) used
      → (b : ℕ) → IsUsed d b
      → contains b used ≡ true
  IsUsed-seen d used found b (inode p) = found.inodes root_inode b refl (IsInode-Chain d p)
  IsUsed-seen d used found b (named {c} {k} p own) =
      found.blocks root_inode c k b refl (IsInode-Chain d p) own

  -- On a well-formed disk whose inodes are files and directories, and whose tree below the root is finite,
  -- the constructor comes to its end if it has a round for each inode and one more; it reads no block
  -- outside the disk, no assertion fails, and the disk is as before. The list of free blocks then
  -- holds every block of the disk that neither holds an inode nor is named by one, exactly once, and
  -- no other block.
  pub new_file_system-IsFree :
      (fuel n : ℕ) (d : Disk)
      → WellFormed d
      → ((c : ℕ) → IsInode d c → HasType (inode_at d c))
      → Forest d (root_inode ∷ []) n
      → n < fuel
      → (l : List ℕ) × (new_file_system fuel (unmounted d)
          ≡ (returns (some tt), record (unmounted d) { free_block_list = l }))
        × IsFree d l
  unfolding new_file_system find_free_blocks
  new_file_system-IsFree fuel n d fits types forest enough =
      let (used, run, found) =
        search_loop-Searched (unmounted d) fits types fuel n (root_inode ∷ []) (root_inode ∷ [])
          forest enough
          (λ c h.
            let same : c ≡ root_inode = ground (arith, h) in subst (IsInode d) (sym same) root)
          (λ c h. h)
          (λ c h.
            let same : c ≡ root_inode = ground (arith, h) in
            subst (IsUsed d) (sym same) (inode root)) in
      (
        unused used 0 fs_disksize,
        rw run refl,
        record {
          used = λ b u.
              let seen = IsUsed-seen d used found b u in
              ground (arith, count-unused b used 0 fs_disksize, seen);
          outside = λ b h. ground (arith, count-unused b used 0 fs_disksize, h);
          free = λ b h fresh. elim (Bool-cases (contains b used)) [
            | inl e ↦ absurd (fresh (found.sound b e))
            | inr e ↦ ground (arith, count-unused b used 0 fs_disksize, h, e)
          ];
        },
      )
