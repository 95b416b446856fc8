-- ===== src/Filesys/Create/Effects.antt =====
-- filesys/file_system.cpp: what `handle_create` changes once the place of the entry is known.
use operation_system_proj_c.Prelude.{
  ℕ, ◌+◌, ◌≡◌, ◌<◌, refl, List, [], ◌∷◌, arith, ◌==◌, ◌||◌, inl, inr, ◌⊎◌, ap, ◌∙◌, Bool-cases,
  true, false, set, is_empty, ◌≤◌, leb, length,
}
use operation_system_proj_c.Filesys.Types.{
  Direntry, Command, Inode, fs_disksize, fs_maxfilename, fs_maxusername, fs_maxfileblocks,
}
use operation_system_proj_c.Filesys.Disk.{DiskApi}
use operation_system_proj_c.Filesys.Monad.{
  Fs, Outcome, upgrade, exclusive, returns, throws, no_space_create,
}
use operation_system_proj_c.Filesys.Locks.{unlock_inode_upgrade, unlock_inode_write}
use operation_system_proj_c.Filesys.Locks.Balance.{
  waits-nothing, LockState, IsIdle, relock, acquire, unlock_inode-acquire,
  upgrade_to_write_lock-acquire,
}
use operation_system_proj_c.Filesys.ReadWrite.Steps.{AllBelow, disk_writeblock_lem}
use operation_system_proj_c.Filesys.Create.{
  Slot, fill_slot, grow_directory, link, new_inode, create_in,
}

-- The directory after its new block is in it.
abbrev pub longer : Inode → ℕ → Inode
longer i b = record i { blocks = set i.blocks i.size b; size = i.size + 1 }

module _ ⦃api : DiskApi⦄ where
  open api use {Disk, Block, write, of_inode, of_direntries, uninitialized}

  -- The inode of an empty file or directory of the user.
  abbrev pub created_inode : Command → Inode
  created_inode command = record {
    type = command.type;
    owner = command.username;
    size = 0;
    blocks = uninitialized;
  }

  -- How the end of `handle_create` ends, with the upgradeable lock of `parent` taken on top of `l`.
  -- Without a free block it throws and keeps the lock. With a free entry in the directory, the new
  -- inode is written and then the block of the entry. Without one, a second free block is put
  -- into the directory; if there is none, or if the directory is as large as it can be, it throws,
  -- and the first free block is gone from the list.
  pub data Creation (command : Command) (name : List ℕ) (parent : ℕ) (i : Inode) (slot : Slot)
      (l : LockState) (s : Fs Disk) : Outcome (Unit {0}) × Fs Disk → Type 0 where
    no_block :
        s.free_block_list ≡ []
        → Creation command name parent i slot l s
            (throws no_space_create, relock (acquire upgrade parent l) s)
    in_place :
        (n : ℕ) (rest : List ℕ)
        → s.free_block_list ≡ n ∷ rest
        → slot.is_empty_direntry ≡ true
        → Creation command name parent i slot l s (
          returns tt,
          relock l (record s {
            disk = write (write s.disk n (of_inode (created_inode command))) slot.block (
                of_direntries
                  (set slot.entries slot.location (record { name = name; inode_block = n })));
            free_block_list = rest;
          }),
        )
    no_room :
        (n : ℕ) (rest : List ℕ)
        → s.free_block_list ≡ n ∷ rest
        → slot.is_empty_direntry ≡ false
        → (rest ≡ []) ⊎ (i.size ≡ fs_maxfileblocks)
        → Creation command name parent i slot l s
            (throws no_space_create, relock l (record s { free_block_list = rest }))
    in_new_block :
        (n b : ℕ) (rest : List ℕ)
        → s.free_block_list ≡ n ∷ b ∷ rest
        → slot.is_empty_direntry ≡ false
        → Creation command name parent i slot l s (
          returns tt,
          relock l (record s {
            disk =
                write
                  (write (write s.disk n (of_inode (created_inode command))) b (
                    of_direntries
                      (set slot.entries slot.location (record { name = name; inode_block = n }))))
                  parent
                  (of_inode (longer i b));
            free_block_list = rest;
          }),
        )

  -- Two free blocks, one, or none.
  free_cases :
      (xs : List ℕ)
      → AllBelow fs_disksize xs
      → (xs ≡ [])
        ⊎ ((n : ℕ) × (rest : List ℕ) × (xs ≡ n ∷ rest)
            × (n < fs_disksize)
            × AllBelow fs_disksize rest)
  free_cases [] h = inl refl
  free_cases (n ∷ rest) (h, hs) = inr (n, rest, refl, h, hs)

  link-in_place :
      (parent b : ℕ) (i : Inode) (es : List Direntry) (l : LockState) (s : Fs Disk)
      → IsIdle l
      → b < fs_disksize
      → link parent i b es true (relock (acquire upgrade parent l) s) ≡ (
        returns tt,
        relock (acquire exclusive parent l) (record s { disk = write s.disk b (of_direntries es) }),
      )
  unfolding link
  link-in_place parent b i es l s room fits =
      rw
        (
          upgrade_to_write_lock-acquire s parent l (waits-nothing parent exclusive l room),
          disk_writeblock_lem b (of_direntries es) (relock (acquire exclusive parent l) s) fits,
        )
        refl

  link-in_new_block :
      (parent b : ℕ) (i : Inode) (es : List Direntry) (l : LockState) (s : Fs Disk)
      → IsIdle l
      → b < fs_disksize
      → parent < fs_disksize
      → link parent i b es false (relock (acquire upgrade parent l) s) ≡ (
        returns tt,
        relock (acquire exclusive parent l) (record s {
          disk =
              write
                (write s.disk b (of_direntries es))
                parent
                (of_inode (record i { size = i.size + 1 }));
        }),
      )
  unfolding link
  link-in_new_block parent b i es l s room fits on_disk =
      let s1 = record s { disk = write s.disk b (of_direntries es) } in
      let i1 = record i { size = i.size + 1 } in
      rw
        (
          disk_writeblock_lem b (of_direntries es) (relock (acquire upgrade parent l) s) fits,
          upgrade_to_write_lock-acquire s1 parent l (waits-nothing parent exclusive l room),
          disk_writeblock_lem parent (of_inode i1) (relock (acquire exclusive parent l) s1) on_disk,
        )
        refl

  grow_directory-full :
      (parent : ℕ) (i : Inode) (l : LockState) (s : Fs Disk)
      → IsIdle l
      → (is_empty s.free_block_list || i.size == fs_maxfileblocks) ≡ true
      → grow_directory parent i (relock (acquire upgrade parent l) s)
        ≡ (throws no_space_create, relock l s)
  unfolding grow_directory unlock_inode_upgrade
  grow_directory-full parent i l s room full =
      rw (full, unlock_inode-acquire s upgrade parent l room) refl

  grow_directory-room :
      (parent b : ℕ) (rest : List ℕ) (i : Inode) (l : LockState) (s : Fs Disk)
      → s.free_block_list ≡ b ∷ rest
      → (i.size == fs_maxfileblocks) ≡ false
      → grow_directory parent i (relock (acquire upgrade parent l) s) ≡ (
        returns (b, record i { blocks = set i.blocks i.size b }),
        relock (acquire upgrade parent l) (record s { free_block_list = rest }),
      )
  unfolding grow_directory
  grow_directory-room parent b rest i l s e fits = rw (e, fits) refl

  -- Once `handle_create` has searched the directory, its end is always one of the four of
  -- `Creation`, if the name and the user's name fit into their arrays, the free blocks, the directory and the block of a found entry are on the disk and
  -- there is room in the lock counts; it never stops the process.
  pub create_in-Creation :
      (command : Command) (name : List ℕ) (parent : ℕ) (i : Inode) (slot : Slot) (l : LockState)
      (s : Fs Disk)
      → IsIdle l
      → AllBelow fs_disksize s.free_block_list
      → parent < fs_disksize
      → slot.block < fs_disksize ⊎ (slot.is_empty_direntry ≡ false)
      → length name ≤ fs_maxfilename
      → length command.username ≤ fs_maxusername
      → Creation command name parent i slot l s
          (create_in command name parent i slot (relock (acquire upgrade parent l) s))
  unfolding create_in unlock_inode_write fill_slot
  create_in-Creation command name parent i slot l s room below on_disk place name_fits user_fits =
      let name_ok : leb (length name) fs_maxfilename ≡ true = ground (arith, name_fits) in
      let user_ok : leb (length command.username) fs_maxusername ≡ true =
        ground (arith, user_fits) in
      let s0 = relock (acquire upgrade parent l) s in
      elim (free_cases s.free_block_list below) [
        | inl e ↦
            let run : create_in command name parent i slot s0 ≡ (throws no_space_create, s0) =
              rw e refl in
            rw run (no_block e)
        | inr (n, rest, e, fits, fits_rest) ↦
            let x = of_inode (new_inode command) in
            let s1 = record s { free_block_list = rest } in
            let es = fill_slot slot name n in
            elim (Bool-cases slot.is_empty_direntry) [
              | inl t ↦
                  let s2 = record s1 { disk = write s.disk n x } in
                  let s3 = record s2 { disk = write s2.disk slot.block (of_direntries es) } in
                  let in_slot : slot.block < fs_disksize = elim place [
                    | inl h ↦ h
                    | inr f ↦ ground (arith, t, f)
                  ] in
                  let run : create_in command name parent i slot s0 ≡ (returns tt, relock l s3) =
                    rw
                      (
                        e,
                        name_ok,
                        user_ok,
                        t,
                        disk_writeblock_lem n x (relock (acquire upgrade parent l) s1) fits,
                        link-in_place parent slot.block i es l s2 room in_slot,
                        unlock_inode-acquire s3 exclusive parent l room,
                      )
                      refl in
                  rw run (in_place n rest e t)
              | inr f ↦ elim (free_cases rest fits_rest) [
                | inl none_left ↦
                    let run : create_in command name parent i slot s0
                        ≡ (throws no_space_create, relock l s1) =
                      rw
                        (
                          e,
                          name_ok,
                          user_ok,
                          f,
                          grow_directory-full parent i l s1 room (rw none_left refl),
                        )
                        refl in
                    rw run (no_room n rest e f (inl none_left))
                | inr (b, rest2, e2, fits2, _) ↦ elim (Bool-cases (i.size == fs_maxfileblocks)) [
                  | inl largest ↦
                      let run : create_in command name parent i slot s0
                          ≡ (throws no_space_create, relock l s1) =
                        rw
                          (
                            e,
                            name_ok,
                            user_ok,
                            f,
                            grow_directory-full parent i l s1 room (rw (e2, largest) refl),
                          )
                          refl in
                      rw run (no_room n rest e f (inr (ground arith)))
                  | inr small ↦
                      let s2 = record s { free_block_list = rest2; disk = write s.disk n x } in
                      let i2 = record i { blocks = set i.blocks i.size b } in
                      let s3 = record s2 {
                        disk =
                            write (write s2.disk b (of_direntries es)) parent
                              (of_inode (longer i b));
                      } in
                      let run : create_in command name parent i slot s0
                          ≡ (returns tt, relock l s3) =
                        rw
                          (
                            e,
                            name_ok,
                            user_ok,
                            f,
                            grow_directory-room parent b rest2 i l s1 e2 small,
                            disk_writeblock_lem n x
                                (relock (acquire upgrade parent l)
                                  (record s { free_block_list = rest2 }))
                                fits,
                            link-in_new_block parent b i2 es l s2 room fits2 on_disk,
                            unlock_inode-acquire s3 exclusive parent l room,
                          )
                          refl in
                      let both : s.free_block_list ≡ n ∷ b ∷ rest2 = e ∙ ap (λ t. n ∷ t) e2 in
                      rw run (in_new_block n b rest2 both f)
                ]
              ]
            ]
      ]
