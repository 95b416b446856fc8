-- ===== src/Filesys/Lookup/Resolve.antt =====
-- filesys/file_system.cpp: how `handle_read` and `handle_write` come to their target.
use operation_system_proj_c.Prelude.{ℕ, ◌≡◌, List, inl, inr}
use operation_system_proj_c.Filesys.Types.{root_inode}
use operation_system_proj_c.Filesys.Disk.{DiskApi}
use operation_system_proj_c.Filesys.Monad.{Fs, shared, returns, throws, Error}
use operation_system_proj_c.Filesys.Locks.Balance.{LockState, IsIdle, relock, acquire}
use operation_system_proj_c.Filesys.Path.{get_target, directory_names}
use operation_system_proj_c.Filesys.Path.Names.{IsPath, Parts, split_path-cases}
use operation_system_proj_c.Filesys.Lookup.{find_parent_inode, find_next_inode}
use operation_system_proj_c.Filesys.Lookup.Tree.{IsInode, WellFormed}
use operation_system_proj_c.Filesys.Lookup.Find.{Stepped, find_next_inode-cases}
use operation_system_proj_c.Filesys.Lookup.Walk.{find_parent_inode-cases, Walks}

module _ ⦃api : DiskApi⦄ where
  open api use {Disk}

  -- The path of a request leads to the inode `target`: the names before its last slash lead from the
  -- root, through directories that the user may search, to a directory, which has an entry for
  -- `target` of the name behind the last slash.
  pub record Resolves (d : Disk) (user_name path : List ℕ) (target : ℕ) : Type 0 where
    pub parent_path : List ℕ
    pub name : List ℕ
    pub split : Parts path parent_path name
    pub parent : ℕ
    pub walks : Walks d user_name root_inode (directory_names parent_path) parent
    pub last : Stepped d user_name name parent target
    pub inode : IsInode d target

  -- The path leads to no inode: one of the two searches for it throws.
  pub data Missed (path user_name : List ℕ) (s : Fs Disk) : Type 0 where
    lost_parent :
        (e : Error) → find_parent_inode path user_name s ≡ (throws e, s) → Missed path user_name s
    lost_target :
        (e : Error) (parent : ℕ) (name : List ℕ) (s0 : Fs Disk)
        → find_parent_inode path user_name s ≡ (returns parent, s0)
        → get_target path s0 ≡ (returns name, s0)
        → find_next_inode name parent user_name s0 ≡ (throws e, s)
        → Missed path user_name s

  -- The three calls that find the target, as they end.
  pub data Resolution (path user_name : List ℕ) (l : LockState) (s : Fs Disk) : Type 0 where
    no_parent :
        (e : Error)
        → find_parent_inode path user_name (relock l s) ≡ (throws e, relock l s)
        → Resolution path user_name l s
    no_target :
        (e : Error) (parent : ℕ) (name : List ℕ)
        → find_parent_inode path user_name (relock l s)
          ≡ (returns parent, relock (acquire shared parent l) s)
        → get_target path (relock (acquire shared parent l) s)
          ≡ (returns name, relock (acquire shared parent l) s)
        → find_next_inode name parent user_name (relock (acquire shared parent l) s)
          ≡ (throws e, relock l s)
        → Resolution path user_name l s
    found :
        (parent target : ℕ) (name : List ℕ)
        → find_parent_inode path user_name (relock l s)
          ≡ (returns parent, relock (acquire shared parent l) s)
        → get_target path (relock (acquire shared parent l) s)
          ≡ (returns name, relock (acquire shared parent l) s)
        → find_next_inode name parent user_name (relock (acquire shared parent l) s)
          ≡ (returns target, relock (acquire shared parent l) s)
        → Resolves s.disk user_name path target
        → Resolution path user_name l s

  pub resolve :
      (path user_name : List ℕ) (l : LockState) (s : Fs Disk)
      → WellFormed s.disk
      → IsIdle l
      → IsPath path
      → Resolution path user_name l s
  resolve path user_name l s wf room v =
      let (a, b, split, parent_run, target_run) = split_path-cases path v in
      elim (find_parent_inode-cases path user_name a b l s wf room split
        (parent_run (relock l s))) [
          | inr (e, run) ↦ no_parent e run
          | inl (parent, run, there, walks) ↦
              let named = target_run (relock (acquire shared parent l) s) in
              elim (find_next_inode-cases b user_name parent l s wf room there) [
                | inr (e, failed) ↦ no_target e parent b run named failed
                | inl (r, next, stepped, inode) ↦ found parent r b run named next (record {
                  parent_path = a;
                  name = b;
                  split = split;
                  parent = parent;
                  walks = walks;
                  last = stepped;
                  inode = inode;
                })
              ]
        ]
