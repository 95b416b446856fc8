-- ===== src/Filesys/Delete/Deleting.antt =====
-- filesys/file_system.cpp: the whole of `handle_delete`.
use operation_system_proj_c.Prelude.{
  ℕ, ◌≡◌, ◌⊎◌, inl, inr, refl, ap, subst, ◌==◌, ◌∙◌, true, false, Bool-cases, none, some, List, [],
  ◌∷◌, arith,
}
use operation_system_proj_c.Filesys.Types.{Inode, Command, str_eq, root_inode}
use operation_system_proj_c.Filesys.Disk.{DiskApi}
use operation_system_proj_c.Filesys.Monad.{
  Fs, Outcome, upgrade, returns, throws, Error, delete_root, target_not_found,
  not_directory_or_owner, read_inode, ◌>>=◌, ◌>>◌,
}
use operation_system_proj_c.Filesys.Locks.{unlock_inode_upgrade}
use operation_system_proj_c.Filesys.Locks.Balance.{
  LockState, IsIdle, relock, acquire, locks, unlock_inode-acquire,
}
use operation_system_proj_c.Filesys.Path.{slash, get_parent_dir, get_target}
use operation_system_proj_c.Filesys.Path.Names.{IsPath, Parts, split_path-cases}
use operation_system_proj_c.Filesys.Lookup.{
  dir_type, get_parent_inode_and_upgradeable_lock, validate_parent_inode,
}
use operation_system_proj_c.Filesys.Create.Searching.{
  ParentOf, get_parent-cases, MayChange, validate-cases,
}
use operation_system_proj_c.Filesys.Delete.{
  Found, locate, delete_child, delete_located, handle_delete,
}
use operation_system_proj_c.Filesys.Lookup.Tree.{
  inode_at, HasEntry, IsInode, child, NoSelfEntry, WellFormed,
}
use operation_system_proj_c.Filesys.Lookup.Find.{read_inode_lem}
use operation_system_proj_c.Filesys.Delete.Locating.{IsFound, IsFound-HasEntry, locate-cases}
use operation_system_proj_c.Filesys.Delete.Effects.{Deleted, delete_child-Ends}
use operation_system_proj_c.Filesys.Monad.Ends.{Ends, Ends-cases}

module _ ⦃api : DiskApi⦄ where
  open api use {Disk, read, length-blocks}

  -- What `handle_delete` has found when it begins to write: the directory that the path names, which is
  -- the root or the user's, and a used entry of the name in it, for the inode of a file or directory.
  pub record Target (command : Command) (d : Disk) : Type 0 where
    pub path : List ℕ
    pub name : List ℕ
    pub split : Parts command.pathname path name
    pub parent : ℕ
    pub parent_of : ParentOf d command.username path parent
    pub may_change : MayChange command path (inode_at d parent)
    pub found : Found
    pub is_found : IsFound d (inode_at d parent) name found
    pub inode : IsInode d found.child_inode_block

  -- How `handle_delete` ends: it throws and has changed nothing, or the target is deleted.
  abbrev pub Deletion : Command → Fs Disk → Outcome (Unit {0}) × Fs Disk → Type 0
  Deletion command s r =
      ((e : Error) × (r ≡ (throws e, s)))
      ⊎ ((t : Target command s.disk) × (s' : Fs Disk) × (r ≡ (returns tt, s'))
          × Deleted command t.parent (inode_at s.disk t.parent) t.found (locks s) s s')

  -- The steps of `handle_delete` up to the first that fails.
  delete_of_root :
      (command : Command) (s : Fs Disk)
      → str_eq command.pathname (slash ∷ []) ≡ true
      → handle_delete command s ≡ (throws delete_root, s)
  unfolding handle_delete
  delete_of_root command s e = rw e refl

  delete_no_parent :
      (command : Command) (s : Fs Disk) (a b : List ℕ) (e : Error)
      → str_eq command.pathname (slash ∷ []) ≡ false
      → get_parent_dir command.pathname s ≡ (returns a, s)
      → get_target command.pathname s ≡ (returns b, s)
      → get_parent_inode_and_upgradeable_lock command a s ≡ (throws e, s)
      → handle_delete command s ≡ (throws e, s)
  unfolding handle_delete
  delete_no_parent command s a b e e0 e1 e2 e3 = rw (e0, e1, e2, e3) refl

  delete_in_parent :
      (command : Command) (s : Fs Disk) (a b : List ℕ) (parent : ℕ)
      → str_eq command.pathname (slash ∷ []) ≡ false
      → get_parent_dir command.pathname s ≡ (returns a, s)
      → get_target command.pathname s ≡ (returns b, s)
      → let s0 = relock (acquire upgrade parent (locks s)) s in
        let i = inode_at s.disk parent in
        get_parent_inode_and_upgradeable_lock command a s ≡ (returns parent, s0)
        → read_inode parent s0 ≡ (returns i, s0)
        → handle_delete command s
          ≡ (validate_parent_inode command a i parent
                >> (locate b i 0 i.size >>= (λ o. delete_located command parent i o)))
              s0
  unfolding handle_delete
  delete_in_parent command s a b parent e0 e1 e2 e3 e4 = rw (e0, e1, e2, e3, e4) refl

  delete_nothing :
      (command : Command) (parent : ℕ) (i : Inode) (l : LockState) (s : Fs Disk)
      → IsIdle l
      → delete_located command parent i none (relock (acquire upgrade parent l) s)
        ≡ (throws target_not_found, relock l s)
  unfolding delete_located unlock_inode_upgrade
  delete_nothing command parent i l s room = rw (unlock_inode-acquire s upgrade parent l room) refl

  delete_some :
      (command : Command) (parent : ℕ) (i : Inode) (f : Found) (s : Fs Disk)
      → delete_located command parent i (some f) s ≡ delete_child command parent i f s
  unfolding delete_located
  delete_some command parent i f s = refl

  child_gone :
      (command : Command) (s : Fs Disk) (t : Target command s.disk)
      {r : Outcome (Unit {0}) × Fs Disk}
      → handle_delete command s ≡ r
      → Ends
          (λ _ s'. Deleted command t.parent (inode_at s.disk t.parent) t.found (locks s) s s')
          (λ s'. s' ≡ s)
          ⊥
          r
      → Deletion command s (handle_delete command s)
  child_gone command s t {r} reached h =
      elim (Ends-cases
        (λ _ s'. Deleted command t.parent (inode_at s.disk t.parent) t.found (locks s) s s')
        (λ s'. s' ≡ s) r h) [
          | inl (u, s', run, done) ↦ inr (t, s', reached ∙ run, done)
          | inr (e, s', run, same) ↦ inl (e, reached ∙ run ∙ ap (λ x. (throws e, x)) same)
        ]

  parent_dir :
      (command : Command) (path : List ℕ) (d : Disk) (parent : ℕ)
      → (inode_at d root_inode).type ≡ dir_type
      → ParentOf d command.username path parent
      → MayChange command path (inode_at d parent)
      → (inode_at d parent).type ≡ dir_type
  parent_dir command path d parent top (inl (e, at)) may = rw at top
  parent_dir command path d parent top (inr r) (inr (dir, own)) = dir
  parent_dir command path d parent top (inr r) (inl empty) = absurd (cc (r.0, empty))

  not_self :
      (d : Disk) (parent : ℕ) (name : List ℕ) (target : ℕ)
      → NoSelfEntry d
      → IsInode d parent
      → (inode_at d parent).type ≡ dir_type
      → HasEntry d (inode_at d parent) name target
      → (target == parent) ≡ false
  not_self d parent name target no_self there dir entry = elim (Bool-cases (target == parent)) [
    | inr apart ↦ apart
    | inl same ↦
        let at : target ≡ parent = ground (arith, same) in
        absurd
          (no_self parent name there dir (subst (HasEntry d (inode_at d parent) name) at entry))
  ]

  pub handle_delete-Deletion :
      (command : Command) (s : Fs Disk)
      → WellFormed s.disk
      → (inode_at s.disk root_inode).type ≡ dir_type
      → NoSelfEntry s.disk
      → IsIdle (locks s)
      → IsPath command.pathname
      → Deletion command s (handle_delete command s)
  handle_delete-Deletion command s wf top no_self room v =
      let (a, b, split, parent_runs, target_runs) = split_path-cases command.pathname v in
      let e1 = parent_runs s in
      let e2 = target_runs s in
      elim (Bool-cases (str_eq command.pathname (slash ∷ []))) [
        | inl whole ↦ inl (delete_root, delete_of_root command s whole)
        | inr e0 ↦ elim (get_parent-cases command a (locks s) s wf room split.parent) [
          | inr (e, run) ↦ inl (e, delete_no_parent command s a b e e0 e1 e2 run)
          | inl (parent, run, there, parent_of) ↦
              let (on_disk, fit) = wf parent there in
              let i = inode_at s.disk parent in
              let s0 = relock (acquire upgrade parent (locks s)) s in
              let located =
                delete_in_parent command s a b parent e0 e1 e2 run
                  (read_inode_lem parent s0 on_disk) in
              elim (validate-cases command a i parent (locks s) s room) [
                | inr bad ↦ inl (not_directory_or_owner, located ∙ rw bad refl)
                | inl (ok, may) ↦
                    elim (locate-cases b i 0 i.size s0 fit (length-blocks (read s.disk parent))
                      (omega arith)) [
                        | inl run2 ↦ inl (
                          target_not_found,
                          located
                              ∙ rw (ok, run2) (delete_nothing command parent i (locks s) s room),
                        )
                        | inr (f, run2, is_found) ↦
                            let dir = parent_dir command a s.disk parent top parent_of may in
                            let entry = IsFound-HasEntry s.disk i b f is_found in
                            let inode : IsInode s.disk f.child_inode_block =
                              child there dir entry in
                            let apart =
                              not_self s.disk parent b f.child_inode_block no_self there dir
                                entry in
                            let t : Target command s.disk = record {
                              path = a;
                              name = b;
                              split = split;
                              parent = parent;
                              parent_of = parent_of;
                              may_change = may;
                              found = f;
                              is_found = is_found;
                              inode = inode;
                            } in
                            let reached : handle_delete command s
                                ≡ delete_child command parent i f s0 =
                              located ∙ rw (ok, run2) (delete_some command parent i f s0) in
                            child_gone command s t reached (
                              delete_child-Ends command parent i f (locks s) s room on_disk fit
                                (length-blocks (read s.disk parent)) is_found.block.0 apart
                                (wf f.child_inode_block inode).0 (wf f.child_inode_block inode).1)
                      ]
              ]
        ]
      ]
