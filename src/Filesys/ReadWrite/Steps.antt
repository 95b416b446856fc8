-- ===== src/Filesys/ReadWrite/Steps.antt =====
-- filesys/file_system.cpp: the parts of `handle_write`, run from a state with the lock of the target.
use operation_system_proj_c.Prelude.{
  ℕ, ◌+◌, ◌≡◌, ◌<◌, refl, List, [], ◌∷◌, arith, ◌==◌, ◌||◌, inl, inr, ◌⊎◌, get_elem?, true, false,
  set, some, is_empty,
}
use operation_system_proj_c.Filesys.Types.{Command, Inode, fs_disksize, fs_maxfileblocks}
use operation_system_proj_c.Filesys.Disk.{DiskApi}
use operation_system_proj_c.Filesys.Monad.{
  Fs, upgrade, exclusive, returns, throws, disk_writeblock, no_space_write,
}
use operation_system_proj_c.Filesys.Monad.Ends.{index-get_elem?}
use operation_system_proj_c.Filesys.Locks.{unlock_inode_upgrade}
use operation_system_proj_c.Filesys.Locks.Balance.{
  waits-nothing, LockState, IsIdle, relock, acquire, unlock_inode-acquire,
  upgrade_to_write_lock-acquire,
}
use operation_system_proj_c.Filesys.Lookup.Tree.{inode_at}
use operation_system_proj_c.Filesys.ReadWrite.{grow, write_data}

abbrev pub AllBelow : ℕ → List ℕ → Type 0
AllBelow n [] = Unit {0}
AllBelow n (x ∷ xs) = (x < n) × AllBelow n xs

-- The inode after a block has been put behind its last one.
abbrev pub grown : Inode → ℕ → Inode
grown i b = record i { blocks = set i.blocks i.size b; size = i.size + 1 }

pub AllBelow-cases :
    (n : ℕ) (xs : List ℕ)
    → AllBelow n xs
    → (is_empty xs ≡ true) ⊎ ((b : ℕ) × (rest : List ℕ) × (xs ≡ b ∷ rest) × (b < n))
AllBelow-cases n [] h = inl refl
AllBelow-cases n (x ∷ xs) h = inr (x, xs, refl, h.0)

module _ ⦃api : DiskApi⦄ where
  open api use {Disk, Block, read, write, of_inode, length-blocks}

  pub disk_writeblock_lem :
      (b : ℕ) (x : Block) (s : Fs Disk)
      → b < fs_disksize
      → disk_writeblock b x s ≡ (returns tt, record s { disk = write s.disk b x })
  unfolding disk_writeblock
  disk_writeblock_lem b x s h = ground arith

  pub write_over :
      (command : Command) (content : Block) (target b : ℕ) (l : LockState) (s : Fs Disk)
      → IsIdle l
      → b < fs_disksize
      → get_elem? (inode_at s.disk target).blocks command.block ≡ some b
      → write_data command content target
          (inode_at s.disk target)
          false
          (relock (acquire upgrade target l) s)
        ≡ (
          returns tt,
          relock (acquire exclusive target l) (record s { disk = write s.disk b content }),
        )
  unfolding write_data
  write_over command content target b l s room fits at =
      let i = inode_at s.disk target in
      let s1 = relock (acquire exclusive target l) s in
      rw
        (
          upgrade_to_write_lock-acquire s target l (waits-nothing target exclusive l room),
          index-get_elem? i.blocks command.block s1 at,
          disk_writeblock_lem b content s1 fits,
        )
        refl

  pub write_behind :
      (command : Command) (content : Block) (target b : ℕ) (inode : Inode) (l : LockState)
      (s : Fs Disk)
      → IsIdle l
      → b < fs_disksize
      → target < fs_disksize
      → get_elem? inode.blocks command.block ≡ some b
      → write_data command content target inode true (relock (acquire upgrade target l) s) ≡ (
        returns tt,
        relock
            (acquire exclusive target l)
            (record s { disk = write (write s.disk b content) target (of_inode inode) }),
      )
  unfolding write_data
  write_behind command content target b inode l s room fits on_disk at =
      let s1 = relock (acquire upgrade target l) s in
      let s2 = record s { disk = write s.disk b content } in
      let s3 = relock (acquire exclusive target l) s2 in
      rw
        (
          index-get_elem? inode.blocks command.block s1 at,
          disk_writeblock_lem b content s1 fits,
          upgrade_to_write_lock-acquire s2 target l (waits-nothing target exclusive l room),
          disk_writeblock_lem target (of_inode inode) s3 on_disk,
        )
        refl

  pub grow-full :
      (target : ℕ) (l : LockState) (s : Fs Disk)
      → IsIdle l
      → (is_empty s.free_block_list || (inode_at s.disk target).size == fs_maxfileblocks) ≡ true
      → grow target (inode_at s.disk target) (relock (acquire upgrade target l) s)
        ≡ (throws no_space_write, relock l s)
  unfolding grow unlock_inode_upgrade
  grow-full target l s room full = rw (full, unlock_inode-acquire s upgrade target l room) refl

  pub grow-room :
      (target b : ℕ) (rest : List ℕ) (l : LockState) (s : Fs Disk)
      → s.free_block_list ≡ b ∷ rest
      → ((inode_at s.disk target).size == fs_maxfileblocks) ≡ false
      → grow target (inode_at s.disk target) (relock (acquire upgrade target l) s) ≡ (
        returns (grown (inode_at s.disk target) b),
        relock (acquire upgrade target l) (record s { free_block_list = rest }),
      )
  unfolding grow
  grow-room target b rest l s e fits = rw (e, fits) refl
