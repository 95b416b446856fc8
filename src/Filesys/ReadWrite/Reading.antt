-- ===== src/Filesys/ReadWrite/Reading.antt =====
-- filesys/file_system.cpp: what `handle_read` returns, and that it leaves everything as it was.
use operation_system_proj_c.Prelude.{
  ℕ, ◌≡◌, ◌≢◌, ◌≤◌, ◌⊎◌, true, ◌<◌, refl, arith, ◌==◌, not, ◌||◌, leb, inl, inr, Bool-cases,
  get_elem?-some,
}
use operation_system_proj_c.Filesys.Types.{Command, Inode, str_eq, str_eq_iff, fs_disksize}
use operation_system_proj_c.Filesys.Disk.{DiskApi}
use operation_system_proj_c.Filesys.Monad.{Fs, shared, returns, read_inode, disk_readblock}
use operation_system_proj_c.Filesys.Monad.Ends.{Ends, Ends-map_both, index-get_elem?}
use operation_system_proj_c.Filesys.Locks.{lock_inode_read, unlock_inode_read}
use operation_system_proj_c.Filesys.Locks.Balance.{
  waits-shared, LockState, IsIdle, relock, acquire, locks, unlock_inode-acquire,
  unlock_inode-acquire_second,
}
use operation_system_proj_c.Filesys.Lookup.{file_type}
use operation_system_proj_c.Filesys.Lookup.Tree.{inode_at, HasBlock, IsInode, WellFormed}
use operation_system_proj_c.Filesys.Lookup.Find.{read_inode_lem}
use operation_system_proj_c.Filesys.Lookup.Resolve.{
  Resolves, Missed, lost_parent, lost_target, no_parent, no_target, found, resolve,
}
use operation_system_proj_c.Filesys.Path.Names.{IsPath}
use operation_system_proj_c.Filesys.ReadWrite.{read_target, handle_read}

module _ ⦃api : DiskApi⦄ where
  open api use {Disk, Block, read, length-blocks}

  -- `content` is block `command.block` of the file in inode `target`, which the user owns.
  pub record ReadFrom (d : Disk) (command : Command) (target : ℕ) (content : Block) : Type 0 where
    pub is_file : (inode_at d target).type ≡ file_type
    pub owner : (inode_at d target).owner ≡ command.username
    pub b : ℕ
    pub block : HasBlock (inode_at d target) command.block b
    pub content_eq : content ≡ read d b

  -- The inode is no file, has no such block, or is not the user's.
  abbrev pub Unreadable : Command → Inode → Type 0
  Unreadable command i =
      (i.type ≢ file_type) ⊎ (i.size ≤ command.block) ⊎ (i.owner ≢ command.username)

  -- Why a read throws: the path leads to no inode, or to one that the user cannot read there.
  pub data ReadRefused (command : Command) (s : Fs Disk) : Type 0 where
    no_inode : Missed command.pathname command.username s → ReadRefused command s
    denied :
        (target : ℕ)
        → Resolves s.disk command.username command.pathname target
        → Unreadable command (inode_at s.disk target)
        → ReadRefused command s

  unreadable :
      (command : Command) (i : Inode)
      → (not (i.type == file_type) || leb i.size command.block) ≡ true
      → Unreadable command i
  unreadable command i bad = elim (Bool-cases (i.type == file_type)) [
    | inl file ↦ inr (inl (ground (arith, bad, file)))
    | inr other ↦ inl (λ e. ground (arith, other, e))
  ]

  pub disk_readblock_lem :
      (b : ℕ) (s : Fs Disk) → b < fs_disksize → disk_readblock b s ≡ (returns (read s.disk b), s)
  unfolding disk_readblock
  disk_readblock_lem b s h = ground arith

  read_target-Ends :
      (command : Command) (target : ℕ) (l : LockState) (s : Fs Disk)
      → WellFormed s.disk
      → IsIdle l
      → IsInode s.disk target
      → Ends
          (λ content s'. (s' ≡ relock l s) × ReadFrom s.disk command target content)
          (λ s'. (s' ≡ relock l s) × Unreadable command (inode_at s.disk target))
          ⊥
          (read_target command target (relock (acquire shared target l) s))
  unfolding read_target unlock_inode_read
  read_target-Ends command target l s wf room there =
      let (on_disk, fit) = wf target there in
      let s0 = relock (acquire shared target l) s in
      let i = inode_at s.disk target in
      let load : read_inode target s0 ≡ (returns i, s0) = read_inode_lem target s0 on_disk in
      let back = unlock_inode-acquire s shared target l room in
      rw load (elim (Bool-cases (not (i.type == file_type) || leb i.size command.block)) [
        | inl bad ↦ rw (bad, back) (refl, unreadable command i bad)
        | inr good ↦ rw good (elim (Bool-cases (not (str_eq command.username i.owner))) [
          | inl foreign ↦
              rw (foreign, back)
                (
                  refl,
                  inr (inr (λ e. ground (arith, foreign, e, str_eq_iff command.username i.owner))),
                )
          | inr own ↦
              let inside : command.block < i.size = ground arith in
              let (b, at) =
                get_elem?-some i.blocks command.block
                  (omega (arith, fit.size, length-blocks (read s.disk target))) in
              let content = disk_readblock_lem b s0 (fit.blocks command.block b (inside, at)) in
              rw (own, index-get_elem? i.blocks command.block s0 at, content, back)
                (
                  refl,
                  record {
                    is_file = ground arith;
                    owner = ground (arith, str_eq_iff command.username i.owner);
                    b = b;
                    block = (inside, at);
                    content_eq = refl;
                  },
                )
        ])
      ])

  -- On a well-formed disk, for a path of the form that the parser lets through, for a request that
  -- holds no lock, with room in the lock counts, `handle_read` either returns the block asked for,
  -- of the file that the path leads to, name for name, through directories that the user may
  -- search, and that the user owns, or throws, and then `find_parent_inode` or `find_next_inode`
  -- has thrown, or the path leads to an inode that is no file, has no such block or is not the
  -- user's. Either way the disk, the free list, the lock counts and the held locks are as before,
  -- and no assertion, no read outside an array or the disk, no release of a lock that is not held
  -- and no lock that it has itself stops it.
  pub handle_read-Ends :
      (command : Command) (s : Fs Disk)
      → WellFormed s.disk
      → IsIdle (locks s)
      → IsPath command.pathname
      → Ends
          (λ content s'.
            (s' ≡ s)
            × ((target : ℕ) × Resolves s.disk command.username command.pathname target
                × ReadFrom s.disk command target content))
          (λ s'. (s' ≡ s) × ReadRefused command s)
          ⊥
          (handle_read command s)
  unfolding handle_read lock_inode_read unlock_inode_read
  handle_read-Ends command s wf room v =
      elim (resolve command.pathname command.username (locks s) s wf room v) [
        | no_parent e run ↦ rw run (refl, no_inode (lost_parent e run))
        | no_target e parent name run named failed ↦
            rw (run, named, failed) (refl, no_inode (lost_target e parent name _ run named failed))
        | found parent target name run named next resolves ↦
            rw
              (
                run,
                named,
                next,
                waits-shared target parent shared (locks s) refl room,
                unlock_inode-acquire_second s shared shared parent target (locks s) room,
              )
              (Ends-map_both (λ content s'. (s' ≡ s) × ReadFrom s.disk command target content)
                (λ content s'.
                  (s' ≡ s)
                  × ((x : ℕ) × Resolves s.disk command.username command.pathname x
                      × ReadFrom s.disk command x content))
                (λ s'. (s' ≡ s) × Unreadable command (inode_at s.disk target))
                (λ s'. (s' ≡ s) × ReadRefused command s) ⊥
                (read_target command target (relock (acquire shared target (locks s)) s))
                (λ content s' h. (h.0, (target, resolves, h.1)))
                (λ s' h. (h.0, denied target resolves h.1))
                (read_target-Ends command target (locks s) s wf room resolves.inode))
      ]
