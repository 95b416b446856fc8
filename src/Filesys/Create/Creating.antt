-- ===== src/Filesys/Create/Creating.antt =====
-- filesys/file_system.cpp: the whole of `handle_create`.
use operation_system_proj_c.Prelude.{
  ℕ, ◌≤◌, length, ◌≢◌, some, get_elem?, ◌<◌, ◌≡◌, ◌⊎◌, inl, inr, refl, sym, subst, ◌∙◌, false, List,
  arith,
}
use operation_system_proj_c.Filesys.Types.{Direntry, Inode, Command, fs_disksize, fs_maxusername}
use operation_system_proj_c.Filesys.Disk.{DiskApi}
use operation_system_proj_c.Filesys.Monad.{
  Fs, Outcome, upgrade, returns, throws, Error, path_exists, not_directory_or_owner, read_inode,
  ◌>>=◌, ◌>>◌,
}
use operation_system_proj_c.Filesys.Locks.Balance.{IsIdle, relock, acquire, locks}
use operation_system_proj_c.Filesys.Path.{get_parent_dir, get_target}
use operation_system_proj_c.Filesys.Path.Names.{Parts, split_path-cases}
use operation_system_proj_c.Filesys.Request.Accepted.{IsPathname}
use operation_system_proj_c.Filesys.Request.Target.{target_fits}
use operation_system_proj_c.Filesys.Lookup.{
  get_parent_inode_and_upgradeable_lock, validate_parent_inode,
}
use operation_system_proj_c.Filesys.Lookup.Tree.{
  inode_at, HasBlock, HasEntry, BlocksFit, WellFormed,
}
use operation_system_proj_c.Filesys.Lookup.Find.{read_inode_lem}
use operation_system_proj_c.Filesys.ReadWrite.Steps.{AllBelow}
use operation_system_proj_c.Filesys.Create.{Slot, no_slot, scan_blocks, create_in, handle_create}
use operation_system_proj_c.Filesys.Create.Effects.{Creation, create_in-Creation}
use operation_system_proj_c.Filesys.Create.Searching.{
  ParentOf, get_parent-cases, MayChange, validate-cases, Vacant,
}
use operation_system_proj_c.Filesys.Create.Scanning.{scan_blocks-cases}

module _ ⦃api : DiskApi⦄ where
  open api use {Disk, read, as_direntries, length-blocks}

  -- What `handle_create` has found when it begins to write: the directory that the path names, in which
  -- the user may create, which has no entry of the name, and a place for one or no unused entry.
  pub record Site (command : Command) (d : Disk) : Type 0 where
    pub path : List ℕ
    pub name : List ℕ
    pub split : Parts command.pathname path name
    pub parent : ℕ
    pub parent_of : ParentOf d command.username path parent
    pub may_change : MayChange command path (inode_at d parent)
    pub slot : Slot
    pub vacant : Vacant d (inode_at d parent) slot
    pub no_unused :
        slot.is_empty_direntry ≡ false
        → (k b j : ℕ) (e : Direntry) → HasBlock (inode_at d parent) k b
        → get_elem? (as_direntries (read d b)) j ≡ some e
        → e.inode_block ≢ 0
    pub no_entry : (c : ℕ) → HasEntry d (inode_at d parent) name c → ⊥

  -- How `handle_create` ends: it throws and has changed nothing, or it gets to write.
  abbrev pub Created : Command → Fs Disk → Outcome (Unit {0}) × Fs Disk → Type 0
  Created command s r =
      ((e : Error) × (r ≡ (throws e, s)))
      ⊎ ((site : Site command s.disk) × Creation command site.name site.parent
            (inode_at s.disk site.parent) site.slot (locks s) s r)

  Vacant-below :
      (d : Disk) (i : Inode) (slot : Slot)
      → BlocksFit i
      → Vacant d i slot
      → slot.block < fs_disksize ⊎ (slot.is_empty_direntry ≡ false)
  Vacant-below d i slot fit (inl none_found) = inr none_found.0
  Vacant-below d i slot fit (inr (k, e, block, same, at, free)) =
      inl (fit.blocks k slot.block block)

  -- The steps of `handle_create` up to the first that fails.
  create_no_parent :
      (command : Command) (s : Fs Disk) (a b : List ℕ) (e : Error)
      → get_parent_dir command.pathname s ≡ (returns a, s)
      → get_target command.pathname s ≡ (returns b, s)
      → get_parent_inode_and_upgradeable_lock command a s ≡ (throws e, s)
      → handle_create command s ≡ (throws e, s)
  unfolding handle_create
  create_no_parent command s a b e e1 e2 e3 = rw (e1, e2, e3) refl

  create_located :
      (command : Command) (s : Fs Disk) (a b : List ℕ) (parent : ℕ)
      → get_parent_dir command.pathname s ≡ (returns a, s)
      → get_target command.pathname s ≡ (returns b, s)
      → let s0 = relock (acquire upgrade parent (locks s)) s in
        let i = inode_at s.disk parent in
        get_parent_inode_and_upgradeable_lock command a s ≡ (returns parent, s0)
        → read_inode parent s0 ≡ (returns i, s0)
        → handle_create command s
          ≡ (validate_parent_inode command a i parent
                >> (scan_blocks b parent i 0 i.size no_slot
                    >>= (λ slot. create_in command b parent i slot)))
              s0
  unfolding handle_create
  create_located command s a b parent e1 e2 e3 e4 = rw (e1, e2, e3, e4) refl

  pub handle_create-Created :
      (command : Command) (s : Fs Disk)
      → WellFormed s.disk
      → AllBelow fs_disksize s.free_block_list
      → IsIdle (locks s)
      → IsPathname command.pathname
      → length command.username ≤ fs_maxusername
      → Created command s (handle_create command s)
  handle_create-Created command s wf below room v user_fits =
      let (a, b, split, parent_runs, target_runs) = split_path-cases command.pathname v.path in
      let e1 = parent_runs s in
      let e2 = target_runs s in
      elim (get_parent-cases command a (locks s) s wf room split.parent) [
        | inr (e, run) ↦ inl (e, create_no_parent command s a b e e1 e2 run)
        | inl (parent, run, there, parent_of) ↦
            let (on_disk, fit) = wf parent there in
            let i = inode_at s.disk parent in
            let s0 = relock (acquire upgrade parent (locks s)) s in
            let located =
              create_located command s a b parent e1 e2 run (read_inode_lem parent s0 on_disk) in
            elim (validate-cases command a i parent (locks s) s room) [
              | inr bad ↦ inl (not_directory_or_owner, located ∙ rw bad refl)
              | inl (ok, may) ↦
                  elim (scan_blocks-cases b parent (locks s) s room i 0 i.size no_slot fit
                    (length-blocks (read s.disk parent)) (omega arith) (inl (refl, refl, refl))) [
                      | inr (run2, entry) ↦ inl (path_exists, located ∙ rw (ok, run2) refl)
                      | inl (slot, run2, vacant, none_named, _) ↦
                          let site : Site command s.disk = record {
                            path = a;
                            name = b;
                            split = split;
                            parent = parent;
                            parent_of = parent_of;
                            may_change = may;
                            slot = slot;
                            vacant = vacant;
                            no_unused = λ empty k x j e at there z.
                                absurd
                                  (cc (empty, (none_named k x (omega arith) at j e there).1 z));
                            no_entry = λ c h.
                                (none_named h.k h.b (omega arith) h.block h.j h.entry h.place).0
                                  (λ z. h.used (sym h.points ∙ z)) h.named;
                          } in
                          let reached : handle_create command s
                              ≡ create_in command b parent i slot s0 =
                            located ∙ rw (ok, run2) refl in
                          inr (
                            site,
                            subst (Creation command b parent i slot (locks s) s) (sym reached) (
                                create_in-Creation command b parent i slot (locks s) s room below
                                  on_disk (Vacant-below s.disk i slot fit vacant)
                                  (target_fits v split) user_fits),
                          )
                    ]
            ]
      ]
