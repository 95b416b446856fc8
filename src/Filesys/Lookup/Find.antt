-- ===== src/Filesys/Lookup/Find.antt =====
-- filesys/file_system.cpp: `find_next_inode` finds an entry, and what it does to the locks.
use operation_system_proj_c.Prelude.{
  ℕ, zero, suc, ◌+◌, ◌≡◌, ◌≢◌, ◌<◌, refl, ◌∙◌, sym, ap, false, some, List, [], ◌∷◌, get_elem?,
  arith, ◌==◌, not, ◌&&◌, length, Bool-cases, inl, inr, ◌⊎◌, get_elem?-some,
}
use operation_system_proj_c.Filesys.Types.{
  Direntry, Inode, str_eq, str_eq_iff, undefined_block, fs_disksize, fs_maxfileblocks,
}
use operation_system_proj_c.Filesys.Disk.{DiskApi}
use operation_system_proj_c.Filesys.Monad.{
  Fs, shared, returns, throws, Error, read_inode, read_direntries, index,
}
use operation_system_proj_c.Filesys.Monad.Ends.{Ends, Ends-cases}
use operation_system_proj_c.Filesys.Locks.{unlock_inode_read}
use operation_system_proj_c.Filesys.Locks.Balance.{
  LockState, IsIdle, relock, acquire, unlock_inode-acquire,
}
use operation_system_proj_c.Filesys.Lookup.{find_entry, find_in_blocks, find_next_inode, dir_type}
use operation_system_proj_c.Filesys.Lookup.Tree.{
  inode_at, HasBlock, HasEntry, IsInode, child, BlocksFit, WellFormed,
}

-- What `find_entry` returns, unless it is the undefined block, is the inode of a used entry of that
-- name.
find_entry_lem :
    (name : List ℕ) (es : List Direntry)
    → find_entry name es ≢ undefined_block
    → (j : ℕ) × (e : Direntry) × (get_elem? es j ≡ some e)
      × (e.name ≡ name)
      × (e.inode_block ≡ find_entry name es)
      × (find_entry name es ≢ 0)
unfolding find_entry
find_entry_lem name [] n = absurd (n refl)
find_entry_lem name (e ∷ es) n =
    elim (Bool-cases (not (e.inode_block == 0) && str_eq e.name name)) [
      | inl hit ↦ (0, e, refl, ground (arith, str_eq_iff e.name name), ground arith, ground arith)
      | inr miss ↦
          let rest : find_entry name (e ∷ es) ≡ find_entry name es = rw miss refl in
          let (j, x, at, named, points, used) = find_entry_lem name es (rw rest at n) in
          (suc j, x, at, named, points ∙ sym rest, rw rest used)
    ]

permitted_lem :
    (target : ℕ) (user owner : List ℕ)
    → (not (target == 0) && not (str_eq user owner)) ≡ false
    → (target ≡ 0) ⊎ (owner ≡ user)
permitted_lem target user owner h = elim (Bool-cases (target == 0)) [
  | inl top ↦ inl (ground arith)
  | inr below ↦ inr (ground (arith, str_eq_iff user owner))
]

module _ ⦃api : DiskApi⦄ where
  open api use {Disk, Block, read, as_inode, as_direntries, length-blocks}

  pub read_inode_lem :
      (b : ℕ) (s : Fs Disk) → b < fs_disksize → read_inode b s ≡ (returns (inode_at s.disk b), s)
  unfolding read_inode
  read_inode_lem b s h = ground arith

  pub read_direntries_lem :
      (b : ℕ) (s : Fs Disk)
      → b < fs_disksize
      → read_direntries b s ≡ (returns (as_direntries (read s.disk b)), s)
  unfolding read_direntries
  read_direntries_lem b s h = ground arith

  find_in_blocks_lem :
      (name : List ℕ) (inode : Inode) (i n : ℕ) (s : Fs Disk)
      → BlocksFit inode
      → length inode.blocks ≡ fs_maxfileblocks
      → i + n ≡ inode.size
      → (r : ℕ) × (find_in_blocks name inode i n s ≡ (returns r, s))
        × (r ≢ undefined_block → HasEntry s.disk inode name r)
  unfolding find_in_blocks index
  find_in_blocks_lem name inode i zero s fit len e = (undefined_block, refl, λ n. absurd (n refl))
  find_in_blocks_lem name inode i (suc n) s fit len e =
      let (b, at) = get_elem?-some inode.blocks i (omega (arith, fit.size)) in
      let here : HasBlock inode i b = (omega arith, at) in
      let es = as_direntries (read s.disk b) in
      let load = read_direntries_lem b s (fit.blocks i b here) in
      elim (Bool-cases (not (find_entry name es == undefined_block))) [
        | inl hit ↦
            let (j, x, place, named, points, used) = find_entry_lem name es (ground arith) in
            (
              find_entry name es,
              ground (arith, at, load, hit),
              λ n. record {
                k = i;
                b = b;
                j = j;
                entry = x;
                block = here;
                place = place;
                named = named;
                points = points;
                used = used;
              },
            )
        | inr miss ↦
            let (r, run, has) = find_in_blocks_lem name inode (i + 1) n s fit len (omega arith) in
            (r, ground (arith, at, load, miss, run), has)
      ]

  -- A request that has given back the lock.
  abbrev GaveBack : LockState → Fs Disk → Fs Disk → Type 0
  GaveBack l s s' = s' ≡ relock l s

  -- What `find_next_inode` returns: a directory that the user may search has an entry of the name.
  pub record Stepped (d : Disk) (user_name name : List ℕ) (target r : ℕ) : Type 0 where
    pub is_dir : (inode_at d target).type ≡ dir_type
    pub permitted : (target ≡ 0) ⊎ ((inode_at d target).owner ≡ user_name)
    pub entry : HasEntry d (inode_at d target) name r

  -- From a state in which the request has the reader lock of the inode `target` of a well-formed
  -- disk, `find_next_inode` returns an inode that the directory names, with the state unchanged, or
  -- throws with this lock released and all else unchanged; it never stops the process.
  pub find_next_inode-Ends :
      (name user_name : List ℕ) (target : ℕ) (l : LockState) (s : Fs Disk)
      → WellFormed s.disk
      → IsIdle l
      → IsInode s.disk target
      → Ends
          (λ r s'.
            (s' ≡ relock (acquire shared target l) s)
            × Stepped s.disk user_name name target r
            × IsInode s.disk r)
          (λ s'. s' ≡ relock l s)
          ⊥
          (find_next_inode name target user_name (relock (acquire shared target l) s))
  unfolding find_next_inode unlock_inode_read
  find_next_inode-Ends name user_name target l s wf room here =
      let (on_disk, fit) = wf target here in
      let s0 = relock (acquire shared target l) s in
      let i = inode_at s.disk target in
      let load : read_inode target s0 ≡ (returns i, s0) = read_inode_lem target s0 on_disk in
      let back = unlock_inode-acquire s shared target l room in
      let (r, run, has) =
        find_in_blocks_lem name i 0 i.size s0 fit (length-blocks _) (omega arith) in
      rw load (elim (Bool-cases (not (target == 0) && not (str_eq user_name i.owner))) [
        | inl denied ↦ rw (denied, back) refl
        | inr allowed ↦ rw allowed (elim (Bool-cases (not (i.type == dir_type))) [
          | inl file ↦ rw (file, back) refl
          | inr dir ↦
              rw (dir, run)
                (elim (Bool-cases (r == undefined_block)) [
                  | inl missing ↦ rw (missing, back) refl
                  | inr found ↦ rw found (
                      let entry = has (ground (arith, found)) in
                      let is_dir : i.type ≡ dir_type = ground (arith, dir) in
                      (
                        refl,
                        record {
                          is_dir = is_dir;
                          permitted = permitted_lem target user_name i.owner allowed;
                          entry = entry;
                        },
                        child here is_dir entry,
                      ))
                ])
        ])
      ])

  -- The same, as the two ways in which the call ends.
  pub find_next_inode-cases :
      (name user_name : List ℕ) (target : ℕ) (l : LockState) (s : Fs Disk)
      → WellFormed s.disk
      → IsIdle l
      → IsInode s.disk target
      → let s0 = relock (acquire shared target l) s in
        ((r : ℕ) × (find_next_inode name target user_name s0 ≡ (returns r, s0))
          × Stepped s.disk user_name name target r
          × IsInode s.disk r)
        ⊎ ((e : Error) × (find_next_inode name target user_name s0 ≡ (throws e, relock l s)))
  find_next_inode-cases name user_name target l s wf room here =
      elim (Ends-cases
        (λ r s'.
          (s' ≡ relock (acquire shared target l) s)
          × Stepped s.disk user_name name target r
          × IsInode s.disk r)
        (λ s'. s' ≡ relock l s) _ (find_next_inode-Ends name user_name target l s wf room here)) [
          | inl (r, s', run, (same, stepped, there)) ↦
              inl (r, run ∙ ap (λ x. (returns r, x)) same, stepped, there)
          | inr (e, s', run, same) ↦ inr (e, run ∙ ap (λ x. (throws e, x)) same)
        ]
