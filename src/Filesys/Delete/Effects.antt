-- ===== src/Filesys/Delete/Effects.antt =====
-- filesys/file_system.cpp: what `handle_delete` changes once the entry is found.
use operation_system_proj_c.Prelude.{
  ℕ, ◌+◌, ◌-◌, ◌<◌, ◌≤◌, ◌≡◌, refl, subst, sym, ap, ◌∙◌, ◌==◌, ◌&&◌, not, if◌then◌else◌, true,
  false, Bool-cases, inl, inr, List, [], ◌∷◌, ◌++◌, arith, get_elem?-some, length, take, append-nil,
  append_assoc,
}
use operation_system_proj_c.Filesys.Types.{
  Inode, Command, str_eq, str_eq_iff, fs_disksize, fs_maxfileblocks,
}
use operation_system_proj_c.Filesys.Disk.{DiskApi}
use operation_system_proj_c.Filesys.Monad.{Fs, upgrade, exclusive, returns, read_inode}
use operation_system_proj_c.Filesys.Monad.Ends.{Ends, index-get_elem?}
use operation_system_proj_c.Filesys.Locks.{
  lock_inode_upgrade, unlock_inode_upgrade, unlock_inode_write,
}
use operation_system_proj_c.Filesys.Locks.Balance.{
  waits-nothing, waits-apart, LockState, IsIdle, relock, acquire, unlock_inode-acquire,
  unlock_inode-acquire_second, upgrade_to_write_lock-acquire,
}
use operation_system_proj_c.Filesys.Lookup.{dir_type, file_type}
use operation_system_proj_c.Filesys.Lookup.Tree.{inode_at, HasBlock, BlocksFit}
use operation_system_proj_c.Filesys.Lookup.Find.{read_inode_lem}
use operation_system_proj_c.Filesys.ReadWrite.Steps.{disk_writeblock_lem}
use operation_system_proj_c.Filesys.Delete.{Found, is_block_empty, removed, unlink, delete_child}
use operation_system_proj_c.Filesys.Delete.Blocks.{IsShifted, shift_left-IsShifted, free_blocks_lem}

append_freed :
    (free freed : List ℕ) (child : ℕ) (blocks same : List ℕ)
    → same ≡ blocks
    → ((free ++ freed) ++ child ∷ []) ++ blocks ≡ free ++ (freed ++ child ∷ same)
append_freed free freed child blocks same e =
    append_assoc (free ++ freed) (child ∷ []) blocks
    ∙ append_assoc free freed (child ∷ blocks)
    ∙ ap (λ l. free ++ (freed ++ child ∷ l)) (sym e)

append_child :
    (free freed : List ℕ) (child : ℕ) (none_left : List ℕ)
    → none_left ≡ []
    → free ++ (freed ++ child ∷ none_left) ≡ (free ++ freed) ++ child ∷ []
append_child free freed child none_left e =
    ap (λ l. free ++ (freed ++ child ∷ l)) e ∙ sym (append_assoc free freed (child ∷ []))

module _ ⦃api : DiskApi⦄ where
  open api use {Disk, read, write, of_inode, of_direntries, length-blocks}

  -- The disk after the entry `f` is gone from the directory, and the blocks that this frees: the
  -- block of the entry is written without it; or, if no used entry is left in it, it is taken out of
  -- the directory's blocks.
  pub data Unlinked (d : Disk) (parent : ℕ) (inode : Inode) (f : Found)
      : Disk → List ℕ → Type 0 where
    kept :
        (b : ℕ)
        → is_block_empty (removed f) ≡ false
        → HasBlock inode f.dir_block_index b
        → Unlinked d parent inode f (write d b (of_direntries (removed f))) []
    dropped :
        (b : ℕ) (bs : List ℕ)
        → is_block_empty (removed f) ≡ true
        → HasBlock inode f.dir_block_index b
        → IsShifted inode.blocks f.dir_block_index (inode.size - 1 - f.dir_block_index) bs
        → Unlinked d parent inode f
            (write d parent (of_inode (record inode { size = inode.size - 1; blocks = bs })))
            (b ∷ [])

  unlink-Unlinked :
      (parent : ℕ) (inode : Inode) (f : Found) (s : Fs Disk)
      → parent < fs_disksize
      → BlocksFit inode
      → length inode.blocks ≡ fs_maxfileblocks
      → f.dir_block_index < inode.size
      → (d : Disk) × (freed : List ℕ) × (unlink parent inode f s
          ≡ (returns tt, record s { disk = d; free_block_list = s.free_block_list ++ freed }))
        × Unlinked s.disk parent inode f d freed
  unfolding unlink
  unlink-Unlinked parent inode f s on_disk fit size inside =
      let (b, at) = get_elem?-some inode.blocks f.dir_block_index (omega (arith, fit.size)) in
      let load = index-get_elem? inode.blocks f.dir_block_index s at in
      elim (Bool-cases (is_block_empty (removed f))) [
        | inl t ↦
            let (bs, shift, shifted) =
              shift_left-IsShifted (inode.size - 1 - f.dir_block_index) f.dir_block_index
                inode.blocks (omega (arith, fit.size)) in
            let i = record inode { size = inode.size - 1; blocks = bs } in
            (
              write s.disk parent (of_inode i),
              b ∷ [],
              rw (t, load, shift, disk_writeblock_lem parent (of_inode i) s on_disk) refl,
              dropped b bs t (inside, at) shifted,
            )
        | inr e ↦ (
          write s.disk b (of_direntries (removed f)),
          [],
          rw
              (
                e,
                load,
                disk_writeblock_lem b (of_direntries (removed f)) s
                    (fit.blocks f.dir_block_index b (inside, at)),
              )
              (ap
                (λ l. (
                  returns tt,
                  record s {
                    disk = write s.disk b (of_direntries (removed f));
                    free_block_list = l;
                  },
                ))
                (sym (append-nil s.free_block_list))),
          kept b e (inside, at),
        )
      ]

  -- The blocks of a file; a directory that is deleted has none.
  abbrev pub file_blocks : Inode → List ℕ
  file_blocks i = if i.type == file_type then take i.size i.blocks else []

  -- The outcome of a deletion that returns.
  pub data Deleted (command : Command) (parent : ℕ) (i : Inode) (f : Found) (l : LockState)
      (s : Fs Disk) : Fs Disk → Type 0 where
    deleted :
        {d : Disk} {freed : List ℕ}
        → (inode_at s.disk f.child_inode_block).owner ≡ command.username
        → ((inode_at s.disk f.child_inode_block).type ≡ dir_type
            → (inode_at s.disk f.child_inode_block).size ≡ 0)
        → Unlinked s.disk parent i f d freed
        → Deleted command parent i f l s (
            relock l (record s {
              disk = d;
              free_block_list =
                  s.free_block_list
                  ++ (freed
                      ++ f.child_inode_block ∷ file_blocks (inode_at s.disk f.child_inode_block));
            }))

  -- With the parent's upgradeable lock and no other, and the entry found, which is not for the parent, on a disk on which the parent, the child
  -- and their blocks lie, `handle_delete` ends in one of two ways. It returns if the user owns the
  -- child and the child is no directory with blocks: then the entry is gone, and the block of the
  -- entry if it became empty, the child's inode and, for a file, its blocks are put behind the free
  -- list. Otherwise it throws, with the disk and the free list as before. All locks are given
  -- back, and nothing stops the process.
  pub delete_child-Ends :
      (command : Command) (parent : ℕ) (i : Inode) (f : Found) (l : LockState) (s : Fs Disk)
      → IsIdle l
      → parent < fs_disksize
      → BlocksFit i
      → length i.blocks ≡ fs_maxfileblocks
      → f.dir_block_index < i.size
      → (f.child_inode_block == parent) ≡ false
      → f.child_inode_block < fs_disksize
      → BlocksFit (inode_at s.disk f.child_inode_block)
      → Ends
          (λ _ s'. Deleted command parent i f l s s')
          (λ s'. s' ≡ relock l s)
          ⊥
          (delete_child command parent i f (relock (acquire upgrade parent l) s))
  unfolding delete_child lock_inode_upgrade unlock_inode_write unlock_inode_upgrade
  delete_child-Ends command parent i f l s room on_disk fit size inside apart child_fits child_fit =
      let child = f.child_inode_block in
      let l1 = acquire exclusive parent l in
      let s2 = relock (acquire upgrade child l1) s in
      let k = inode_at s.disk child in
      let load : read_inode child s2 ≡ (returns k, s2) = read_inode_lem child s2 child_fits in
      let give = unlock_inode-acquire_second s exclusive upgrade parent child l room in
      let back = unlock_inode-acquire s upgrade child l room in
      rw
        (
          upgrade_to_write_lock-acquire s parent l (waits-nothing parent exclusive l room),
          waits-apart child parent upgrade exclusive l apart room,
          load,
        )
        (elim (Bool-cases (not (str_eq k.owner command.username))) [
          | inl foreign ↦ rw (foreign, give, back) refl
          | inr own ↦ rw own (elim (Bool-cases (k.type == dir_type && not (k.size == 0))) [
            | inl full ↦ rw (full, give, back) refl
            | inr can ↦
                let (d, freed, run, gone) = unlink-Unlinked parent i f s2 on_disk fit size inside in
                let s3 = record s { disk = d; free_block_list = s.free_block_list ++ freed } in
                let s4 = record s3 { free_block_list = s3.free_block_list ++ child ∷ [] } in
                let s5 = record s4 {
                  free_block_list = s4.free_block_list ++ take k.size k.blocks;
                } in
                let owner : k.owner ≡ command.username =
                  ground (arith, own, str_eq_iff k.owner command.username) in
                let empty : k.type ≡ dir_type → k.size ≡ 0 = λ e. ground (arith, can, e) in
                rw
                  (
                    can,
                    run,
                    upgrade_to_write_lock-acquire s3 child l1
                        (waits-apart child parent exclusive exclusive l apart room),
                    unlock_inode-acquire_second s3 exclusive exclusive parent child l room,
                  )
                  (elim (Bool-cases (k.type == file_type)) [
                    | inl file ↦
                        let all : 0 + k.size ≤ length k.blocks =
                          omega (arith, child_fit.size, length-blocks (read s.disk child)) in
                        rw
                          (
                            file,
                            free_blocks_lem k.size 0 k (relock (acquire exclusive child l) s4) all,
                            unlock_inode-acquire s5 exclusive child l room,
                          )
                          (subst
                            (λ fl.
                              Deleted command parent i f l s
                                (relock l (record s { disk = d; free_block_list = fl })))
                            (sym (
                              append_freed s.free_block_list freed child (take k.size k.blocks)
                                (file_blocks k) (rw file refl)))
                            (deleted owner empty gone))
                    | inr dir ↦
                        rw (dir, unlock_inode-acquire s4 exclusive child l room)
                          (subst
                            (λ fl.
                              Deleted command parent i f l s
                                (relock l (record s { disk = d; free_block_list = fl })))
                            (append_child s.free_block_list freed child (file_blocks k)
                              (rw dir refl))
                            (deleted owner empty gone))
                  ])
          ])
        ])
