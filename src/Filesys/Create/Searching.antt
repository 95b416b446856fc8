-- ===== src/Filesys/Create/Searching.antt =====
-- filesys/file_system.cpp: how `handle_create` comes to the directory and to the place of the entry.
use operation_system_proj_c.Prelude.{
  ℕ, zero, suc, ◌≡◌, ◌≢◌, ◌⊎◌, inl, inr, refl, sym, subst, Bool, true, false, Bool-cases, some,
  List, [], ◌∷◌, replicate, get_elem?, is_empty, not, ◌&&◌, ◌||◌, ◌==◌, arith,
}
use operation_system_proj_c.Filesys.Types.{Direntry, Inode, Command, str_eq, str_eq_iff, root_inode}
use operation_system_proj_c.Filesys.Disk.{DiskApi}
use operation_system_proj_c.Filesys.Monad.{
  Fs, shared, upgrade, returns, throws, Error, not_directory_or_owner,
}
use operation_system_proj_c.Filesys.Locks.{
  lock_inode_upgrade, unlock_inode_upgrade, unlock_inode_read, lock_inode,
}
use operation_system_proj_c.Filesys.Locks.Balance.{
  waits-nothing, waits-shared, LockState, IsIdle, relock, acquire, unlock_inode-acquire,
  unlock_inode-acquire_second,
}
use operation_system_proj_c.Filesys.Path.Names.{IsPath}
use operation_system_proj_c.Filesys.Lookup.{
  dir_type, get_parent_inode_and_upgradeable_lock, validate_parent_inode,
}
use operation_system_proj_c.Filesys.Lookup.Tree.{HasBlock, IsInode, root, WellFormed}
use operation_system_proj_c.Filesys.Lookup.Resolve.{Resolves, resolve, no_parent, no_target, found}
use operation_system_proj_c.Filesys.Create.{Slot, take_slot}

-- No used entry of the list has the name, and if an entry is unused, `taken` says so.
abbrev pub Searched : List ℕ → Bool → List Direntry → Type 0
Searched name taken es =
    (j : ℕ) (e : Direntry)
    → get_elem? es j ≡ some e
    → (e.inode_block ≢ 0 → e.name ≢ name) × (e.inode_block ≡ 0 → taken ≡ true)

pub Searched-more :
    (name : List ℕ) (taken : Bool) (e : Direntry) (es : List Direntry)
    → (e.inode_block ≢ 0 → e.name ≢ name) × (e.inode_block ≡ 0 → taken ≡ true)
    → Searched name taken es
    → Searched name taken (e ∷ es)
Searched-more name taken e es first rest zero x at =
    let same : e ≡ x = cc at in
    subst
      (λ (y : Direntry). (y.inode_block ≢ 0 → y.name ≢ name) × (y.inode_block ≡ 0 → taken ≡ true))
      same first
Searched-more name taken e es first rest (suc j) x at = rest j x at

pub Searched-later :
    (name : List ℕ) (before after : Bool) (es : List Direntry)
    → (before ≡ true → after ≡ true)
    → Searched name before es
    → Searched name after es
Searched-later name before after es kept h j e at =
    let (other, unused) = h j e at in (other, λ free. kept (unused free))

-- Eight entries with no name and no inode.
abbrev pub cleared : List Direntry
cleared = replicate 8 (record { name = []; inode_block = 0 })

module _ ⦃api : DiskApi⦄ where
  open api use {Disk, read, as_direntries, length-blocks}

  -- The parent path is empty, and then the directory is the root, or it leads there.
  abbrev pub ParentOf : Disk → List ℕ → List ℕ → ℕ → Type 0
  ParentOf d user_name path parent =
      ((path ≡ []) × (parent ≡ root_inode))
      ⊎ ((is_empty path ≡ false) × Resolves d user_name path parent)

  pub get_parent-cases :
      (command : Command) (path : List ℕ) (l : LockState) (s : Fs Disk)
      → WellFormed s.disk
      → IsIdle l
      → (is_empty path ≡ false → IsPath path)
      → ((parent : ℕ) × (get_parent_inode_and_upgradeable_lock command path (relock l s)
            ≡ (returns parent, relock (acquire upgrade parent l) s))
          × IsInode s.disk parent
          × ParentOf s.disk command.username path parent)
        ⊎ ((e : Error) × (get_parent_inode_and_upgradeable_lock command path (relock l s)
              ≡ (throws e, relock l s)))
  unfolding get_parent_inode_and_upgradeable_lock lock_inode_upgrade unlock_inode_read lock_inode
  get_parent-cases command [] l s wf room v =
      inl (root_inode, rw (waits-nothing root_inode upgrade l room) refl, root, inl (refl, refl))
  get_parent-cases command (x ∷ path) l s wf room v =
      elim (resolve (x ∷ path) command.username l s wf room (v refl)) [
        | no_parent e run ↦ inr (e, rw run refl)
        | no_target e parent name run named failed ↦ inr (e, rw (run, named, failed) refl)
        | found parent target name run named next resolves ↦ inl (
          target,
          rw
              (
                run,
                named,
                next,
                waits-shared target parent upgrade l refl room,
                unlock_inode-acquire_second s shared upgrade parent target l room,
              )
              refl,
          resolves.inode,
          inr (refl, resolves),
        )
      ]

  -- Below the root only a directory of the user passes.
  abbrev pub MayChange : Command → List ℕ → Inode → Type 0
  MayChange command path i =
      (is_empty path ≡ true) ⊎ ((i.type ≡ dir_type) × (i.owner ≡ command.username))

  pub validate-cases :
      (command : Command) (path : List ℕ) (i : Inode) (parent : ℕ) (l : LockState) (s : Fs Disk)
      → IsIdle l
      → let s0 = relock (acquire upgrade parent l) s in
        ((validate_parent_inode command path i parent s0 ≡ (returns tt, s0))
          × MayChange command path i)
        ⊎ (validate_parent_inode command path i parent s0
            ≡ (throws not_directory_or_owner, relock l s))
  unfolding validate_parent_inode unlock_inode_upgrade
  validate-cases command path i parent l s room =
      elim (Bool-cases (
        not (is_empty path)
        && (not (i.type == dir_type) || not (str_eq i.owner command.username)))) [
          | inl bad ↦ inr (rw (bad, unlock_inode-acquire s upgrade parent l room) refl)
          | inr good ↦ inl (
            rw good refl,
            elim (Bool-cases (is_empty path)) [
              | inl top ↦ inl top
              | inr below ↦ inr (
                ground (arith, good, below),
                ground (arith, good, below, str_eq_iff i.owner command.username),
              )
            ],
          )
        ]

  -- The search has found no place, and what goes to a new block is cleared and its first entry is the
  -- one to fill; or the place that it has found is an unused entry in a block of the directory.
  abbrev pub Vacant : Disk → Inode → Slot → Type 0
  Vacant d i slot =
      ((slot.is_empty_direntry ≡ false) × (slot.location ≡ 0) × (slot.entries ≡ cleared))
      ⊎ ((k : ℕ) × (e : Direntry) × HasBlock i k slot.block
          × (slot.entries ≡ as_direntries (read d slot.block))
          × (get_elem? slot.entries slot.location ≡ some e)
          × (e.inode_block ≡ 0))

  pub take_slot-Vacant :
      (d : Disk) (i : Inode) (k b j : ℕ) (e : Direntry) (slot : Slot)
      → HasBlock i k b
      → get_elem? (as_direntries (read d b)) j ≡ some e
      → e.inode_block ≡ 0
      → Vacant d i slot
      → Vacant d i (take_slot b (as_direntries (read d b)) j slot)
        × ((take_slot b (as_direntries (read d b)) j slot).is_empty_direntry ≡ true)
  unfolding take_slot
  take_slot-Vacant d i k b j e slot block at free old = elim (Bool-cases slot.is_empty_direntry) [
    | inl t ↦
        subst (λ x. Vacant d i x × (x.is_empty_direntry ≡ true)) (sym (taken_before t)) (old, t)
    | inr f ↦ rw f (inr (k, e, block, refl, at, free), refl)
  ]
    where
      taken_before :
          slot.is_empty_direntry ≡ true → take_slot b (as_direntries (read d b)) j slot ≡ slot
      taken_before t = rw t refl
