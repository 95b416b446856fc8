-- ===== src/Filesys/Server/Serving.antt =====
-- filesys/network_server.cpp: reads and writes, whatever text the client sends.
use operation_system_proj_c.Prelude.{
  ℕ, ◌≡◌, refl, ap, ◌∙◌, Option, none, some, ◌⊎◌, Option-cases, inl, inr, List,
}
use operation_system_proj_c.Filesys.Types.{Command, fs_disksize}
use operation_system_proj_c.Filesys.Disk.{DiskApi}
use operation_system_proj_c.Filesys.Monad.{Fs, Outcome, returns, throws, aborts}
use operation_system_proj_c.Filesys.Monad.Ends.{Ends}
use operation_system_proj_c.Filesys.Locks.Balance.{IsIdle, locks}
use operation_system_proj_c.Filesys.Lookup.Tree.{WellFormed}
use operation_system_proj_c.Filesys.Lookup.Resolve.{Resolves}
use operation_system_proj_c.Filesys.ReadWrite.{handle_read, handle_write}
use operation_system_proj_c.Filesys.ReadWrite.Reading.{ReadFrom, ReadRefused, handle_read-Ends}
use operation_system_proj_c.Filesys.ReadWrite.Steps.{AllBelow}
use operation_system_proj_c.Filesys.ReadWrite.Writing.{WrittenTo, WriteRefused, handle_write-Ends}
use operation_system_proj_c.Filesys.Request.{parse_words, parse_message}
use operation_system_proj_c.Filesys.Request.Accepted.{
  HasCommand, parse_message-some, parse_message-IsAccepted,
}
use operation_system_proj_c.Filesys.Server.{
  catch_all, serve, serve_parsed, serve_read, serve_write, write_parsed, write_received,
}

-- What the handler returns: the value of a request that returned, or nothing after an exception.
catch_all-Ends :
    {D A : Type 0} (P : A → Fs D → Type 0) (E : Fs D → Type 0) (Q : Option A → Fs D → Type 0)
    (o : Outcome A × Fs D)
    → ((a : A) (s : Fs D) → P a s → Q (some a) s)
    → ((s : Fs D) → E s → Q none s)
    → Ends P E ⊥ o
    → Ends Q (λ _. ⊥) ⊥ (catch_all o)
unfolding catch_all
catch_all-Ends P E Q (returns a, s) f g h = f a s h
catch_all-Ends P E Q (throws e, s) f g h = g s h
catch_all-Ends P E Q (aborts, s) f g h = h

module _ ⦃api : DiskApi⦄ where
  open api use {Disk, Block}

  -- An answer to a read: none, or the block that the parsed command asks for.
  abbrev pub Answer : Command → List ℕ → Disk → Option Block → Type 0
  Answer fresh request_str d none = Unit {0}
  Answer fresh request_str d (some content) =
      (command : Command) × (target : ℕ) × (parse_message fresh request_str ≡ some (some command))
      × Resolves d command.username command.pathname target
      × ReadFrom d command target content

  -- Why a write is not carried out: the parser throws, or `handle_write` does.
  abbrev pub Unserved : Command → List ℕ → Fs Disk → Type 0
  Unserved fresh request_str s =
      (parse_message fresh request_str ≡ some none)
      ⊎ ((command : Command) × (parse_message fresh request_str ≡ some (some command))
          × WriteRefused command s)

  -- What a write with the block `content` does: nothing, or what the parsed command asks for.
  abbrev pub Effect : Command → List ℕ → Block → Fs Disk → Option (Unit {0}) → Fs Disk → Type 0
  Effect fresh request_str content s none s' = (s' ≡ s) × Unserved fresh request_str s
  Effect fresh request_str content s (some _) s' =
      (command : Command) × (target : ℕ) × (parse_message fresh request_str ≡ some (some command))
      × Resolves s.disk command.username command.pathname target
      × WrittenTo command content target s s'

  serve_read-refused :
      (fresh : Command) (request_str : List ℕ) (s : Fs Disk)
      → HasCommand request_str
      → parse_words fresh request_str ≡ none
      → serve_read fresh request_str s ≡ (returns none, s)
  unfolding serve_read serve serve_parsed
  serve_read-refused fresh request_str s has e =
      rw (parse_message-some fresh request_str has, e, serve_read, serve) refl

  serve_read-accepted :
      (fresh : Command) (request_str : List ℕ) (command : Command) (s : Fs Disk)
      → HasCommand request_str
      → parse_words fresh request_str ≡ some command
      → serve_read fresh request_str s ≡ catch_all (handle_read command s)
  unfolding serve_read serve serve_parsed
  serve_read-accepted fresh request_str command s has e =
      rw (parse_message-some fresh request_str has, e, serve_read, serve) refl

  serve_write-refused :
      (fresh : Command) (request_str : List ℕ) (received : Option Block) (s : Fs Disk)
      → HasCommand request_str
      → parse_words fresh request_str ≡ none
      → serve_write fresh request_str received s ≡ (returns none, s)
  unfolding serve_write write_parsed
  serve_write-refused fresh request_str received s has e =
      rw (parse_message-some fresh request_str has, e, serve_write) refl

  serve_write-accepted :
      (fresh : Command) (request_str : List ℕ) (content : Block) (command : Command) (s : Fs Disk)
      → HasCommand request_str
      → parse_words fresh request_str ≡ some command
      → serve_write fresh request_str (some content) s ≡ catch_all (handle_write command content s)
  unfolding serve_write write_parsed write_received
  serve_write-accepted fresh request_str content command s has e =
      rw (parse_message-some fresh request_str has, e, serve_write) refl

  -- Whatever text with a first word a client sends to be read, on a well-formed disk, for a request
  -- that holds no lock, with room in the lock counts, the handler ends without an exception, nothing stops the process, the state is as before, and
  -- what it answers, if it answers, is the block asked for of a file of the user.
  pub serve_read-Ends :
      (fresh : Command) (request_str : List ℕ) (s : Fs Disk)
      → HasCommand request_str
      → WellFormed s.disk
      → IsIdle (locks s)
      → Ends
          (λ answer s'. (s' ≡ s) × Answer fresh request_str s.disk answer)
          (λ _. ⊥)
          ⊥
          (serve_read fresh request_str s)
  serve_read-Ends fresh request_str s has wf room =
      elim (Option-cases (parse_words fresh request_str)) [
        | inl e ↦ rw (serve_read-refused fresh request_str s has e) (refl, tt)
        | inr (command, e) ↦
            let parsed : parse_message fresh request_str ≡ some (some command) =
              parse_message-some fresh request_str has ∙ ap some e in
            let accepted = parse_message-IsAccepted fresh request_str parsed in
            rw (serve_read-accepted fresh request_str command s has e) (
              catch_all-Ends
                (λ content s'.
                  (s' ≡ s)
                  × ((target : ℕ) × Resolves s.disk command.username command.pathname target
                      × ReadFrom s.disk command target content))
                (λ s'. (s' ≡ s) × ReadRefused command s)
                (λ answer s'. (s' ≡ s) × Answer fresh request_str s.disk answer)
                (handle_read command s)
                (λ content s' h. (h.0, (command, h.1.0, parsed, h.1.1, h.1.2))) (λ s' h. (h.0, tt))
                (handle_read-Ends command s wf room accepted.pathname.path))
      ]

  -- Whatever text that has a first word, so that the assertion of the parser holds, and whatever
  -- block a client sends to be written: on a well-formed disk, with free blocks that are on the
  -- disk, for a request that holds no lock, with room in the lock counts, the handler ends without
  -- an exception, nothing stops the process, and either nothing has changed, and the parser has
  -- thrown or `handle_write` has for one of its reasons, or the block asked for of the file of the
  -- user that the path of the request leads to has been overwritten or appended, and nothing else.
  pub serve_write-Ends :
      (fresh : Command) (request_str : List ℕ) (content : Block) (s : Fs Disk)
      → HasCommand request_str
      → WellFormed s.disk
      → AllBelow fs_disksize s.free_block_list
      → IsIdle (locks s)
      → Ends
          (λ answer s'. Effect fresh request_str content s answer s')
          (λ _. ⊥)
          ⊥
          (serve_write fresh request_str (some content) s)
  serve_write-Ends fresh request_str content s has wf below room =
      elim (Option-cases (parse_words fresh request_str)) [
        | inl e ↦
            rw (serve_write-refused fresh request_str (some content) s has e)
              (refl, inl (parse_message-some fresh request_str has ∙ ap some e))
        | inr (command, e) ↦
            let parsed : parse_message fresh request_str ≡ some (some command) =
              parse_message-some fresh request_str has ∙ ap some e in
            let accepted = parse_message-IsAccepted fresh request_str parsed in
            rw (serve_write-accepted fresh request_str content command s has e) (
              catch_all-Ends
                (λ _ s'.
                  (target : ℕ) × Resolves s.disk command.username command.pathname target
                  × WrittenTo command content target s s')
                (λ s'. (s' ≡ s) × WriteRefused command s)
                (λ answer s'. Effect fresh request_str content s answer s')
                (handle_write command content s) (λ _ s' h. (command, h.0, parsed, h.1, h.2))
                (λ s' h. (h.0, inr (command, parsed, h.1)))
                (handle_write-Ends command content s wf below room accepted.pathname.path))
      ]
