-- ===== src/Filesys/ReadWrite/Writing.antt =====
-- filesys/file_system.cpp: what `handle_write` changes.
use operation_system_proj_c.Prelude.{
  ℕ, ◌≡◌, ◌≢◌, ◌⊎◌, ◌<◌, refl, List, [], ◌∷◌, arith, ◌==◌, not, ◌||◌, ltb, inl, inr, Bool-cases,
  get_elem?-some, true, is_empty, get_elem?-set_self,
}
use operation_system_proj_c.Filesys.Types.{
  Command, Inode, str_eq, str_eq_iff, fs_disksize, fs_maxfileblocks,
}
use operation_system_proj_c.Filesys.Disk.{DiskApi}
use operation_system_proj_c.Filesys.Monad.{Fs, shared, upgrade, exclusive, returns, read_inode}
use operation_system_proj_c.Filesys.Monad.Ends.{Ends, Ends-map_both}
use operation_system_proj_c.Filesys.Locks.{
  lock_inode_upgrade, unlock_inode_upgrade, unlock_inode_read, unlock_inode_write,
}
use operation_system_proj_c.Filesys.Locks.Balance.{
  waits-shared, LockState, IsIdle, relock, acquire, locks, unlock_inode-acquire,
  unlock_inode-acquire_second,
}
use operation_system_proj_c.Filesys.Lookup.{file_type}
use operation_system_proj_c.Filesys.Lookup.Tree.{inode_at, HasBlock, IsInode, WellFormed}
use operation_system_proj_c.Filesys.Lookup.Find.{read_inode_lem}
use operation_system_proj_c.Filesys.Lookup.Resolve.{
  Resolves, Missed, lost_parent, lost_target, no_parent, no_target, found, resolve,
}
use operation_system_proj_c.Filesys.Path.Names.{IsPath}
use operation_system_proj_c.Filesys.ReadWrite.{write_data, write_target, handle_write}
use operation_system_proj_c.Filesys.ReadWrite.Steps.{
  AllBelow, AllBelow-cases, grown, write_over, write_behind, grow-full, grow-room,
}

empty_lem : (xs : List ℕ) → is_empty xs ≡ true → xs ≡ []
empty_lem [] h = refl
empty_lem (x ∷ xs) h = cc h

module _ ⦃api : DiskApi⦄ where
  open api use {Disk, Block, read, write, of_inode, length-blocks}

  -- The two ways in which a write of `content` to the file in inode `target` changes the state: a
  -- block of the file is overwritten, or the first free block is put behind its last one.
  pub data Written (s : Fs Disk) (command : Command) (target : ℕ) (content : Block)
      : Fs Disk → Type 0 where
    overwritten :
        (b : ℕ)
        → HasBlock (inode_at s.disk target) command.block b
        → Written s command target content (record s { disk = write s.disk b content })
    appended :
        (b : ℕ) (rest : List ℕ)
        → command.block ≡ (inode_at s.disk target).size
        → command.block < fs_maxfileblocks
        → s.free_block_list ≡ b ∷ rest
        → Written s command target content (record s {
          disk =
              write (write s.disk b content) target (of_inode (grown (inode_at s.disk target) b));
          free_block_list = rest;
        })

  -- The outcome of a write that returns, for the inode `target`.
  abbrev pub WrittenTo : Command → Block → ℕ → Fs Disk → Fs Disk → Type 0
  WrittenTo command content target s s' =
      ((inode_at s.disk target).type ≡ file_type)
      × ((inode_at s.disk target).owner ≡ command.username)
      × Written s command target content s'

  -- The inode is no file, ends before the block, or is not the user's; or the block is the first behind
  -- its end and the file cannot take another.
  abbrev pub Unwritable : Command → Inode → List ℕ → Type 0
  Unwritable command i free =
      (i.type ≢ file_type)
      ⊎ (i.size < command.block)
      ⊎ (i.owner ≢ command.username)
      ⊎ ((command.block ≡ i.size) × ((free ≡ []) ⊎ (i.size ≡ fs_maxfileblocks)))

  -- Why a write throws: the path leads to no inode, or to one that the user cannot write there.
  pub data WriteRefused (command : Command) (s : Fs Disk) : Type 0 where
    no_inode : Missed command.pathname command.username s → WriteRefused command s
    denied :
        (target : ℕ)
        → Resolves s.disk command.username command.pathname target
        → Unwritable command (inode_at s.disk target) s.free_block_list
        → WriteRefused command s

  unwritable :
      (command : Command) (i : Inode) (free : List ℕ)
      → (not (i.type == file_type) || ltb i.size command.block) ≡ true
      → Unwritable command i free
  unwritable command i free bad = elim (Bool-cases (i.type == file_type)) [
    | inl file ↦ inr (inl (ground (arith, bad, file)))
    | inr other ↦ inl (λ e. ground (arith, other, e))
  ]

  -- What is left of a write behind the end, after all tests of the inode, with a free block.
  append_rest :
      (command : Command) (content : Block) (target b : ℕ) (rest : List ℕ) (l : LockState)
      (s : Fs Disk)
      → IsIdle l
      → b < fs_disksize
      → target < fs_disksize
      → command.block ≡ (inode_at s.disk target).size
      → (inode_at s.disk target).size < fs_maxfileblocks
      → write_data command content target
          (grown (inode_at s.disk target) b)
          true
          (relock (acquire upgrade target l) (record s { free_block_list = rest }))
        ≡ (
          returns tt,
          relock (acquire exclusive target l) (record s {
            disk =
                write (write s.disk b content) target (of_inode (grown (inode_at s.disk target) b));
            free_block_list = rest;
          }),
        )
  append_rest command content target b rest l s room fits on_disk at_end small =
      write_behind command content target b (grown (inode_at s.disk target) b) l
        (record s { free_block_list = rest }) room fits on_disk
        (rw at_end (
          get_elem?-set_self (inode_at s.disk target).blocks (inode_at s.disk target).size b
            (omega (arith, small, length-blocks (read s.disk target)))))

  write_target-Ends :
      (command : Command) (content : Block) (target : ℕ) (l : LockState) (s : Fs Disk)
      → WellFormed s.disk
      → AllBelow fs_disksize s.free_block_list
      → IsIdle l
      → IsInode s.disk target
      → Ends
          (λ _ s'. WrittenTo command content target (relock l s) s')
          (λ s'. (s' ≡ relock l s) × Unwritable command (inode_at s.disk target) s.free_block_list)
          ⊥
          (write_target command content target (relock (acquire upgrade target l) s))
  unfolding write_target unlock_inode_upgrade unlock_inode_write
  write_target-Ends command content target l s wf below room there =
      let (on_disk, fit) = wf target there in
      let s0 = relock (acquire upgrade target l) s in
      let i = inode_at s.disk target in
      let load : read_inode target s0 ≡ (returns i, s0) = read_inode_lem target s0 on_disk in
      let back = unlock_inode-acquire s upgrade target l room in
      rw load (elim (Bool-cases (not (i.type == file_type) || ltb i.size command.block)) [
        | inl bad ↦ rw (bad, back) (refl, unwritable command i s.free_block_list bad)
        | inr good ↦ rw good (elim (Bool-cases (not (str_eq command.username i.owner))) [
          | inl foreign ↦
              rw (foreign, back)
                (
                  refl,
                  inr (
                      inr (
                        inl
                          (λ e. ground (arith, foreign, e, str_eq_iff command.username i.owner)))),
                )
          | inr own ↦
              let is_file : i.type ≡ file_type = ground arith in
              let owned : i.owner ≡ command.username =
                ground (arith, str_eq_iff command.username i.owner) in
              rw own (elim (Bool-cases (command.block == i.size)) [
                | inl behind ↦
                    rw behind (elim (AllBelow-cases fs_disksize s.free_block_list below) [
                      | inl none_free ↦
                          let full : (is_empty s.free_block_list || i.size == fs_maxfileblocks)
                              ≡ true =
                            rw none_free refl in
                          rw (grow-full target l s room full)
                            (refl, inr (inr (inr (ground arith, inl (empty_lem _ none_free)))))
                      | inr (b, rest, free, fits) ↦ elim (Bool-cases (i.size == fs_maxfileblocks)) [
                        | inl largest ↦
                            let full : (is_empty s.free_block_list || i.size == fs_maxfileblocks)
                                ≡ true =
                              rw (free, largest) refl in
                            rw (grow-full target l s room full)
                              (refl, inr (inr (inr (ground arith, inr (ground arith)))))
                        | inr small ↦
                            let at_end : command.block ≡ i.size = ground arith in
                            let less : i.size < fs_maxfileblocks = ground (arith, fit.size) in
                            let s1 = record s {
                              disk = write (write s.disk b content) target (of_inode (grown i b));
                              free_block_list = rest;
                            } in
                            rw
                              (
                                grow-room target b rest l s free small,
                                append_rest command content target b rest l s room fits on_disk
                                    at_end less,
                                unlock_inode-acquire s1 exclusive target l room,
                              )
                              (is_file, owned, appended b rest at_end (omega arith) free)
                      ]
                    ])
                | inr within ↦
                    let inside : command.block < i.size = ground arith in
                    let (b, at) =
                      get_elem?-some i.blocks command.block
                        (omega (arith, fit.size, length-blocks (read s.disk target))) in
                    rw
                      (
                        within,
                        write_over command content target b l s room
                            (fit.blocks command.block b (inside, at)) at,
                        unlock_inode-acquire (record s { disk = write s.disk b content }) exclusive
                            target l room,
                      )
                      (is_file, owned, overwritten b (inside, at))
              ])
        ])
      ])

  -- On a well-formed disk, with free blocks that are on the disk, a path of the form that the
  -- parser lets through, for a request that holds no lock, with room in the lock counts:
  -- `handle_write` either returns, and then the target is what the path leads to, name for name,
  -- through directories that the user may search, it is a file of the user, and either the block
  -- asked for is overwritten or, if it is the first one behind the end and below the limit, the
  -- first free block is written and put into the inode, and nothing else changes; or it throws,
  -- and then the state is as before, and `find_parent_inode` or `find_next_inode` has thrown, or
  -- the path leads to an inode that is no file, ends before the block, is not the user's, or
  -- cannot take another block although the block asked for is the first behind its end: no block
  -- is free, or it has 124. It never stops the process, does not ask for a lock that it has itself
  -- in a mode that excludes the new one, and gives back all its locks.
  pub handle_write-Ends :
      (command : Command) (content : Block) (s : Fs Disk)
      → WellFormed s.disk
      → AllBelow fs_disksize s.free_block_list
      → IsIdle (locks s)
      → IsPath command.pathname
      → Ends
          (λ _ s'.
            (target : ℕ) × Resolves s.disk command.username command.pathname target
            × WrittenTo command content target s s')
          (λ s'. (s' ≡ s) × WriteRefused command s)
          ⊥
          (handle_write command content s)
  unfolding handle_write lock_inode_upgrade unlock_inode_read
  handle_write-Ends command content s wf below room v =
      elim (resolve command.pathname command.username (locks s) s wf room v) [
        | no_parent e run ↦ rw run (refl, no_inode (lost_parent e run))
        | no_target e parent name run named failed ↦
            rw (run, named, failed) (refl, no_inode (lost_target e parent name _ run named failed))
        | found parent target name run named next resolves ↦
            rw
              (
                run,
                named,
                next,
                waits-shared target parent upgrade (locks s) refl room,
                unlock_inode-acquire_second s shared upgrade parent target (locks s) room,
              )
              (Ends-map_both (λ _ s'. WrittenTo command content target s s')
                (λ _ s'.
                  (x : ℕ) × Resolves s.disk command.username command.pathname x
                  × WrittenTo command content x s s')
                (λ s'. (s' ≡ s) × Unwritable command (inode_at s.disk target) s.free_block_list)
                (λ s'. (s' ≡ s) × WriteRefused command s) ⊥
                (write_target command content target (relock (acquire upgrade target (locks s)) s))
                (λ _ s' h. (target, resolves, h)) (λ s' h. (h.0, denied target resolves h.1))
                (write_target-Ends command content target (locks s) s wf below room resolves.inode))
      ]
