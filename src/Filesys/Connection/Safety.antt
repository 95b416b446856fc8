-- ===== src/Filesys/Connection/Safety.antt =====
-- filesys/network_server.cpp: `handle_request`, for any bytes of a client.
use operation_system_proj_c.Prelude.{
  ℕ, ◌≡◌, ◌≢◌, ◌∙◌, ap, inl, inr, refl, sym, subst, Bool, false, Option, none, some, Option-cases,
  List,
}
use operation_system_proj_c.Filesys.Types.{
  Command, Inode, CommandType, fs_readblock, fs_writeblock, fs_create, fs_delete, invalid,
  root_inode, fs_disksize,
}
use operation_system_proj_c.Filesys.Disk.{DiskApi}
use operation_system_proj_c.Filesys.Monad.{Fs, M, Outcome, returns, throws, aborts}
use operation_system_proj_c.Filesys.Monad.Ends.{Ends}
use operation_system_proj_c.Filesys.Locks.Balance.{LockState, IsIdle, locks}
use operation_system_proj_c.Filesys.Lookup.{dir_type}
use operation_system_proj_c.Filesys.Lookup.Tree.{inode_at, NoSelfEntry, WellFormed}
use operation_system_proj_c.Filesys.ReadWrite.Steps.{AllBelow}
use operation_system_proj_c.Filesys.Create.{Slot, handle_create}
use operation_system_proj_c.Filesys.Create.Effects.{
  Creation, no_block, in_place, no_room, in_new_block,
}
use operation_system_proj_c.Filesys.Create.Creating.{handle_create-Created}
use operation_system_proj_c.Filesys.Delete.{handle_delete}
use operation_system_proj_c.Filesys.Delete.Deleting.{handle_delete-Deletion}
use operation_system_proj_c.Filesys.Request.{next_word, parse_command, parse_words, parse_message}
use operation_system_proj_c.Filesys.Request.Accepted.{
  HasCommand, parse_message-some, parse_command-HasCommand, parse_message-IsAccepted,
}
use operation_system_proj_c.Filesys.Server.{
  catch_all, serve, serve_parsed, serve_create, serve_delete,
}
use operation_system_proj_c.Filesys.Message.{Socket, receive_message}
use operation_system_proj_c.Filesys.Connection.{
  WireApi, reply, handle_create_request, handle_delete_request, dispatch, handle_request,
}
use operation_system_proj_c.Filesys.Connection.Answers.{
  handle_read_request-Answered, handle_write_request-Answered,
}

-- The call has returned or has thrown.
abbrev Ended : {D A : Type 0} → Outcome A × Fs D → Type 0
Ended o = Ends (λ _ _. Unit {0}) (λ _. Unit {0}) ⊥ o

-- The call has returned.
abbrev pub Returned : {D A : Type 0} → Outcome A × Fs D → Type 0
Returned {D} {A} o = (a : A) × (s : Fs D) × (o ≡ (returns a, s))

catch_all-Returned : {D A : Type 0} (o : Outcome A × Fs D) → Ended o → Returned (catch_all o)
unfolding catch_all
catch_all-Returned (returns a, s) h = (some a, s, refl)
catch_all-Returned (throws e, s) h = (none, s, refl)
catch_all-Returned (aborts, s) h = absurd h

serve-Returned :
    {D A : Type 0} (fresh : Command) (text : List ℕ) (handle : Command → M D A) (s : Fs D)
    → HasCommand text
    → ((command : Command)
        → parse_message fresh text ≡ some (some command)
        → Ended (handle command s))
    → Returned (serve fresh text handle s)
unfolding serve serve_parsed
serve-Returned fresh text handle s has h =
    let parsed = parse_message-some fresh text has in
    elim (Option-cases (parse_words fresh text)) [
      | inl e ↦ (none, s, rw (parsed, e, serve) refl)
      | inr (command, e) ↦
          let (a, s', run) =
            catch_all-Returned (handle command s) (h command (parsed ∙ ap some e)) in
          (a, s', rw (parsed, e, serve) run)
    ]

reply-Returned :
    {D A : Type 0} (o : Outcome (Option A) × Fs D) (sk : Socket)
    (answer : A → Socket → Bool × Socket)
    → Returned o
    → Returned (reply o sk answer).0
unfolding reply
reply-Returned o sk answer (none, s, e) = (false, s, rw e refl)
reply-Returned o sk answer (some a, s, e) = ((answer a sk).0, s, rw e refl)

module _ ⦃api : DiskApi⦄ where
  open api use {Disk, Block}

  Creation-Ended :
      {command : Command} {name : List ℕ} {parent : ℕ} {i : Inode} {slot : Slot} {l : LockState}
      {s : Fs Disk} {r : Outcome (Unit {0}) × Fs Disk}
      → Creation command name parent i slot l s r
      → Ended r
  Creation-Ended (no_block e) = tt
  Creation-Ended (in_place n rest e f) = tt
  Creation-Ended (no_room n rest e f g) = tt
  Creation-Ended (in_new_block n b rest e f) = tt

  -- The server is sound: the disk is well formed, its root is a directory, no directory has an entry
  -- for itself, the free blocks are on the disk, the request holds no lock, and there is room in the
  -- lock counts.
  pub record IsReady (s : Fs Disk) : Type 0 where
    pub well_formed : WellFormed s.disk
    pub top : (inode_at s.disk root_inode).type ≡ dir_type
    pub no_self : NoSelfEntry s.disk
    pub below : AllBelow fs_disksize s.free_block_list
    pub room : IsIdle (locks s)

  serve_create-Returned :
      (fresh : Command) (text : List ℕ) (s : Fs Disk)
      → HasCommand text
      → IsReady s
      → Returned (serve_create fresh text s)
  unfolding serve_create
  serve_create-Returned fresh text s has h =
      serve-Returned fresh text handle_create s has (λ command e.
        elim (handle_create-Created command s h.well_formed h.below h.room
          (parse_message-IsAccepted fresh text e).pathname
          (parse_message-IsAccepted fresh text e).username.1) [
            | inl (error, run) ↦ subst Ended (sym run) tt
            | inr (site, made) ↦ Creation-Ended made
          ])

  serve_delete-Returned :
      (fresh : Command) (text : List ℕ) (s : Fs Disk)
      → HasCommand text
      → IsReady s
      → Returned (serve_delete fresh text s)
  unfolding serve_delete
  serve_delete-Returned fresh text s has h =
      serve-Returned fresh text handle_delete s has (λ command e.
        elim (handle_delete-Deletion command s h.well_formed h.top h.no_self h.room
          (parse_message-IsAccepted fresh text e).pathname.path) [
            | inl (error, run) ↦ subst Ended (sym run) tt
            | inr (target, s', run, gone) ↦ subst Ended (sym run) tt
          ])

  module _ ⦃wire : WireApi Block⦄ where
    dispatch-Returned :
        (kind : CommandType) (fresh : Command) (text : List ℕ) (s : Fs Disk) (sk : Socket)
        → IsReady s
        → (kind ≢ invalid → HasCommand text)
        → Returned (dispatch kind fresh text s sk).0
    unfolding dispatch handle_create_request handle_delete_request
    dispatch-Returned fs_readblock fresh text s sk h has =
        elim (handle_read_request-Answered fresh text s sk (has (λ k. cc k)) h.well_formed h.room) [
          | inl refused ↦ (false, s, refused.0)
          | inr (content, found, answered) ↦ (answered.0, s, answered.1)
        ]
    dispatch-Returned fs_writeblock fresh text s sk h has =
        elim (handle_write_request-Answered fresh text s sk (has (λ k. cc k)) h.well_formed h.below
          h.room) [
            | inl refused ↦ (false, s, refused.0)
            | inr (s', whole, done, answered) ↦ (answered.0, s', answered.1)
          ]
    dispatch-Returned fs_create fresh text s sk h has =
        reply-Returned (serve_create fresh text s) sk _
          (serve_create-Returned fresh text s (has (λ k. cc k)) h)
    dispatch-Returned fs_delete fresh text s sk h has =
        reply-Returned (serve_delete fresh text s) sk _
          (serve_delete-Returned fresh text s (has (λ k. cc k)) h)
    dispatch-Returned invalid fresh text s sk h has = (false, s, refl)

    -- Whatever bytes a client sends, whatever the network does, and whatever the uninitialized
    -- command holds: on a well-formed disk whose root is a directory and on which no directory has
    -- an entry for itself, with free blocks that are on the disk, for a request that holds no
    -- lock, with room in the lock counts, and with no other request, `handle_request` returns. No
    -- exception escapes, no assertion fails, that of the parser included, no array or disk is read
    -- out of bounds, no name is copied behind the end of its array, no lock is released that is
    -- not held or asked for while the request has it in a mode that excludes the new one, and no
    -- empty list is popped.
    pub handle_request-Returned :
        (fresh : Command) (s : Fs Disk) (sk : Socket)
        → IsReady s
        → Returned (handle_request fresh s sk).0
    unfolding handle_request
    handle_request-Returned fresh s sk h = elim (Option-cases (receive_message sk)) [
      | inl e ↦ (false, s, rw (e, handle_request) refl)
      | inr (m, e) ↦
          let kind = parse_command (next_word m.0).0 in
          let (sent, s', run) =
            dispatch-Returned kind fresh m.0 s m.1 h (parse_command-HasCommand m.0) in
          (sent, s', rw (e, handle_request) run)
    ]
