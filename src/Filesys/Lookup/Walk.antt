-- ===== src/Filesys/Lookup/Walk.antt =====
-- filesys/file_system.cpp: `find_parent_inode` goes down the path hand over hand.
use operation_system_proj_c.Prelude.{
  ℕ, ◌≡◌, refl, ◌∙◌, true, List, [], ◌∷◌, arith, is_empty, tail, ◌==◌, not, ◌||◌, inl, inr, ◌⊎◌, ap,
}
use operation_system_proj_c.Filesys.Types.{root_inode}
use operation_system_proj_c.Filesys.Disk.{DiskApi}
use operation_system_proj_c.Filesys.Monad.{Fs, shared, returns, throws, Error}
use operation_system_proj_c.Filesys.Monad.Ends.{Ends, Ends-cases, Ends-map}
use operation_system_proj_c.Filesys.Locks.{lock_inode_read, unlock_inode_read}
use operation_system_proj_c.Filesys.Locks.Balance.{
  waits-nothing, waits-shared, LockState, IsIdle, relock, acquire, unlock_inode-acquire_second,
}
use operation_system_proj_c.Filesys.Path.Names.{AllNonempty, Parts}
use operation_system_proj_c.Filesys.Path.{directory_names, get_parent_dir}
use operation_system_proj_c.Filesys.Lookup.{find_parent_inode, walk}
use operation_system_proj_c.Filesys.Lookup.Tree.{IsInode, root, WellFormed}
use operation_system_proj_c.Filesys.Lookup.Find.{Stepped, find_next_inode-cases}

-- Only the first name of a path may be empty, and only at the root.
abbrev pub NamesFit : ℕ → List (List ℕ) → Type 0
NamesFit target [] = Unit {0}
NamesFit target (x ∷ xs) = (is_empty x ≡ true → target ≡ root_inode) × AllNonempty xs

module _ ⦃api : DiskApi⦄ where
  open api use {Disk}

  -- The directories that the names after the first lead through, from `target` to `r`.
  pub data Walks (d : Disk) (user_name : List ℕ) : ℕ → List (List ℕ) → ℕ → Type 0 where
    stop_empty : {t : ℕ} → Walks d user_name t [] t
    stop : {t : ℕ} {x : List ℕ} → Walks d user_name t (x ∷ []) t
    down :
        {t u r : ℕ} {x y : List ℕ} {ns : List (List ℕ)}
        → Stepped d user_name y t u
        → Walks d user_name u (y ∷ ns) r
        → Walks d user_name t (x ∷ y ∷ ns) r

  abbrev Arrived : LockState → Fs Disk → List ℕ → ℕ → List (List ℕ) → ℕ → Fs Disk → Type 0
  Arrived l s user_name target names r s' =
      (s' ≡ relock (acquire shared r l) s)
      × IsInode s.disk r
      × Walks s.disk user_name target names r

  -- From the reader lock of `target` alone, the walk returns with the reader lock of the inode at
  -- the end of the path, or throws with no lock; nothing else changes, and no assertion fails.
  pub walk-Ends :
      (user_name : List ℕ) (target : ℕ) (names : List (List ℕ)) (l : LockState) (s : Fs Disk)
      → WellFormed s.disk
      → IsIdle l
      → IsInode s.disk target
      → NamesFit target names
      → Ends
          (Arrived l s user_name target names)
          (λ s'. s' ≡ relock l s)
          ⊥
          (walk user_name target names (relock (acquire shared target l) s))
  unfolding walk lock_inode_read unlock_inode_read
  walk-Ends user_name target [] l s wf room here fits = (refl, here, stop_empty)
  walk-Ends user_name target (x ∷ []) l s wf room here fits = (refl, here, stop)
  walk-Ends user_name target (x ∷ y ∷ ns) l s wf room here fits =
      let passes : (not (is_empty x) || target == root_inode) ≡ true = ground (arith, fits.0) in
      elim (find_next_inode-cases y user_name target l s wf room here) [
        | inr (e, run) ↦ rw (passes, run) refl
        | inl (r, run, stepped, there) ↦
            rw
              (
                passes,
                run,
                waits-shared r target shared l refl room,
                unlock_inode-acquire_second s shared shared target r l room,
              )
              (Ends-map (Arrived l s user_name r (y ∷ ns))
                (Arrived l s user_name target (x ∷ y ∷ ns)) (λ s'. s' ≡ relock l s) ⊥
                (walk user_name r (y ∷ ns) (relock (acquire shared r l) s))
                (λ a s' h. (h.0, h.1, down stepped h.2))
                (walk-Ends user_name r (y ∷ ns) l s wf room there (λ e. cc (fits.1.0), fits.1.1)))
      ]

  -- With no lock, `find_parent_inode` returns the last directory of the parent path with its reader
  -- lock, or throws with no lock.
  pub find_parent_inode-cases :
      (path user_name a b : List ℕ) (l : LockState) (s : Fs Disk)
      → WellFormed s.disk
      → IsIdle l
      → Parts path a b
      → get_parent_dir path (relock l s) ≡ (returns a, relock l s)
      → ((r : ℕ) × (find_parent_inode path user_name (relock l s)
            ≡ (returns r, relock (acquire shared r l) s))
          × IsInode s.disk r
          × Walks s.disk user_name root_inode (directory_names a) r)
        ⊎ ((e : Error) × (find_parent_inode path user_name (relock l s) ≡ (throws e, relock l s)))
  unfolding find_parent_inode lock_inode_read
  find_parent_inode-cases path user_name a b l s wf room split parent =
      let names = directory_names a in
      let start = waits-nothing root_inode shared l room in
      let walked = walk-Ends user_name root_inode names l s wf room root (fit names split.names) in
      elim (Ends-cases (Arrived l s user_name root_inode names) (λ s'. s' ≡ relock l s) _ walked) [
        | inl (r, s', run, (same, there, walks)) ↦
            inl (r, rw (parent, start) (run ∙ ap (λ x. (returns r, x)) same), there, walks)
        | inr (e, s', run, same) ↦ inr (e, rw (parent, start) (run ∙ ap (λ x. (throws e, x)) same))
      ]
    where
      fit : (ns : List (List ℕ)) → AllNonempty (tail ns) → NamesFit root_inode ns
      fit [] h = tt
      fit (n ∷ ns) h = (λ _. refl, h)
