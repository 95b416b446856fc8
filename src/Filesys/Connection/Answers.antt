-- ===== src/Filesys/Connection/Answers.antt =====
-- filesys/network_server.cpp: what a client gets for the bytes that it sends.
use operation_system_proj_c.Filesys.Connection.Replies.{
  send_then-Sent, Refused, Answered, reply-Answered,
}
use operation_system_proj_c.Prelude.{
  ℕ, ◌≤◌, ◌≡◌, ◌⊎◌, inl, inr, refl, ap, subst, ◌∙◌, false, Bool-cases, none, some, Option-cases,
  List, [], ◌∷◌, ◌++◌, append_assoc, leb, length, take, drop, arith,
}
use operation_system_proj_c.Filesys.Types.{Command, fs_readblock, fs_writeblock, fs_disksize}
use operation_system_proj_c.Filesys.Disk.{DiskApi}
use operation_system_proj_c.Filesys.Monad.{Fs, returns}
use operation_system_proj_c.Filesys.Locks.Balance.{IsIdle, locks}
use operation_system_proj_c.Filesys.Lookup.Tree.{WellFormed}
use operation_system_proj_c.Filesys.ReadWrite.Steps.{AllBelow}
use operation_system_proj_c.Filesys.Request.{next_word, parse_command, parse_words}
use operation_system_proj_c.Filesys.Request.Accepted.{
  HasCommand, parse_message-some, parse_command-HasCommand,
}
use operation_system_proj_c.Filesys.Server.{serve_read, write_parsed, serve_write}
use operation_system_proj_c.Filesys.Server.Serving.{
  Answer, Effect, serve_read-Ends, serve_write-Ends,
}
use operation_system_proj_c.Filesys.Message.{fs_blocksize, Socket, receive_block, send_message}
use operation_system_proj_c.Filesys.Message.Framing.{
  IsMessage, receive_message_iff, Sent, send_bytes-Sent, send_message-Sent,
}
use operation_system_proj_c.Filesys.Message.Blocks.{receive_block_lem}
use operation_system_proj_c.Filesys.Connection.{
  WireApi, send_then, reply, send_block, handle_read_request, write_block_received,
  write_request_parsed, handle_write_request, dispatch, handle_request,
}

module _ ⦃api : DiskApi⦄ where
  open api use {Disk, Block}

  module _ ⦃wire : WireApi Block⦄ where
    open wire use {to_bytes, of_bytes, length-to_bytes}

    handle_write_request_closes :
        (fresh : Command) (text : List ℕ) (s : Fs Disk) (sk : Socket)
        → HasCommand text
        → (parse_words fresh text ≡ none) ⊎ (receive_block sk ≡ none)
        → handle_write_request fresh text s sk ≡ ((returns false, s), sk)
    unfolding handle_write_request write_request_parsed write_block_received
    handle_write_request_closes fresh text s sk has (inl e) =
        rw (parse_message-some fresh text has, e, handle_write_request) refl
    handle_write_request_closes fresh text s sk has (inr cut) =
        elim (Option-cases (parse_words fresh text)) [
          | inl e ↦ rw (parse_message-some fresh text has, e, handle_write_request) refl
          | inr (command, e) ↦
              rw (parse_message-some fresh text has, e, handle_write_request) (rw cut refl)
        ]

    handle_write_request_writes :
        (fresh : Command) (text : List ℕ) (s : Fs Disk) (sk sk1 : Socket) (bytes : List ℕ)
        (command : Command)
        → HasCommand text
        → parse_words fresh text ≡ some command
        → receive_block sk ≡ some (bytes, sk1)
        → handle_write_request fresh text s sk
          ≡ reply
              (serve_write fresh text (some (of_bytes bytes)) s)
              sk1
              (λ _ sk2. send_message text sk2)
    unfolding handle_write_request write_request_parsed write_block_received serve_write
        write_parsed
    handle_write_request_writes fresh text s sk sk1 bytes command has e got =
        rw (parse_message-some fresh text has, e, handle_write_request, serve_write) (rw got refl)

    dispatch_of :
        (fresh : Command) (text rest : List ℕ) (s : Fs Disk) (sk : Socket)
        → sk.incoming ≡ text ++ 0 ∷ rest
        → IsMessage text
        → handle_request fresh s sk
          ≡ dispatch (parse_command (next_word text).0) fresh text s (record sk { incoming = rest })
    unfolding handle_request
    dispatch_of fresh text rest s sk e message =
        rw ((receive_message_iff sk text rest).1 (e, message), handle_request) refl

    pub handle_read_request-Answered :
        (fresh : Command) (text : List ℕ) (s : Fs Disk) (sk : Socket)
        → HasCommand text
        → WellFormed s.disk
        → IsIdle (locks s)
        → Refused s sk (handle_read_request fresh text s sk)
          ⊎ ((content : Block) × Answer fresh text s.disk (some content)
              × Answered (text ++ 0 ∷ to_bytes content) s sk (handle_read_request fresh text s sk))
    unfolding handle_read_request send_block
    handle_read_request-Answered fresh text s sk has wf room =
        let answer = λ (content : Block) (sk1 : Socket).
          send_then (send_message text sk1) (λ sk2. send_block content sk2) in
        let sends : (content : Block) → Sent (text ++ 0 ∷ to_bytes content) sk (answer content sk) =
          λ content.
            subst (λ l. Sent l sk (answer content sk))
              (append_assoc text (0 ∷ []) (to_bytes content))
              (send_then-Sent (text ++ 0 ∷ []) (to_bytes content) sk (send_message text sk)
                (λ sk2. send_block content sk2) (send_message-Sent text sk)
                (λ sk2.
                  send_bytes-Sent fs_blocksize (to_bytes content) sk2
                    (omega (arith, length-to_bytes content)))) in
        elim (reply-Answered (serve_read fresh text s) sk answer
          (λ content. text ++ 0 ∷ to_bytes content) s
          (λ o s'. (s' ≡ s) × Answer fresh text s.disk o) (λ s' h. h.0) sends
          (serve_read-Ends fresh text s has wf room)) [
            | inl refused ↦ inl refused
            | inr (content, s', (same, found), answered) ↦ inr (
              content,
              found,
              subst
                  (λ x.
                    Answered (text ++ 0 ∷ to_bytes content) x sk
                      (handle_read_request fresh text s sk))
                  same answered,
            )
          ]

    pub handle_write_request-Answered :
        (fresh : Command) (text : List ℕ) (s : Fs Disk) (sk : Socket)
        → HasCommand text
        → WellFormed s.disk
        → AllBelow fs_disksize s.free_block_list
        → IsIdle (locks s)
        → Refused s sk (handle_write_request fresh text s sk)
          ⊎ ((s' : Fs Disk) × (fs_blocksize ≤ length sk.incoming)
              × Effect fresh text (of_bytes (take fs_blocksize sk.incoming)) s (some tt) s'
              × Answered (text ++ 0 ∷ []) s' sk (handle_write_request fresh text s sk))
    handle_write_request-Answered fresh text s sk has wf below room =
        elim (Option-cases (parse_words fresh text)) [
          | inl e ↦ rw (handle_write_request_closes fresh text s sk has (inl e)) (inl (refl, refl))
          | inr (command, e) ↦ elim (Bool-cases (leb fs_blocksize (length sk.incoming))) [
            | inr short ↦
                let cut = (receive_block_lem sk).1 (ground (arith, short)) in
                rw (handle_write_request_closes fresh text s sk has (inr cut)) (inl (refl, refl))
            | inl whole ↦
                let enough : fs_blocksize ≤ length sk.incoming = ground (arith, whole) in
                let (sizes, got) = (receive_block_lem sk).0 enough in
                let content = of_bytes (take fs_blocksize sk.incoming) in
                let sk1 : Socket = record sk {
                  incoming = drop fs_blocksize sk.incoming;
                  recv_sizes = sizes;
                } in
                rw
                  (handle_write_request_writes fresh text s sk sk1 (take fs_blocksize sk.incoming)
                    command has e got)
                  (elim (reply-Answered (serve_write fresh text (some content) s) sk1
                    (λ _ sk2. send_message text sk2) (λ _. text ++ 0 ∷ []) s
                    (λ o s'. Effect fresh text content s o s') (λ s' h. h.0)
                    (λ _. send_message-Sent text sk1)
                    (serve_write-Ends fresh text content s has wf below room)) [
                      | inl refused ↦ inl refused
                      | inr (u, s', done, answered) ↦ inr (s', enough, done, answered)
                    ])
          ]
        ]

    -- A client sends a request to read, with a NUL behind it. On a well-formed disk, for a request
    -- that holds no lock, with room in the lock counts, whatever the arguments are and whatever
    -- pieces the network takes, nothing stops the process, no exception escapes and the state is
    -- as before. Either the result is -1 and the client gets nothing; or the file system has found
    -- the block asked for of the file of the user that the path of the request leads to. Then
    -- either no call of `send` failed, the client gets the request, a NUL and the bytes of that
    -- block, all of them, and the result is 0; or the last call of `send` that was made failed, as
    -- the first that did, the client gets a first part that is not all of them, and the result is
    -- -1.
    pub handle_request-read :
        (fresh : Command) (text rest : List ℕ) (s : Fs Disk) (sk : Socket)
        → WellFormed s.disk
        → IsIdle (locks s)
        → sk.incoming ≡ text ++ 0 ∷ rest
        → IsMessage text
        → parse_command (next_word text).0 ≡ fs_readblock
        → Refused s sk (handle_request fresh s sk)
          ⊎ ((content : Block) × Answer fresh text s.disk (some content)
              × Answered (text ++ 0 ∷ to_bytes content) s sk (handle_request fresh s sk))
    unfolding dispatch
    handle_request-read fresh text rest s sk wf room e message kind =
        let sk1 : Socket = record sk { incoming = rest } in
        rw (dispatch_of fresh text rest s sk e message ∙ ap (λ k. dispatch k fresh text s sk1) kind)
          (handle_read_request-Answered fresh text s sk1
            (parse_command-HasCommand text (λ bad. cc (kind, bad))) wf room)

    -- A client sends a request to write, with a NUL behind it. On a well-formed disk, with free
    -- blocks that are on the disk, for a request that holds no lock, with room in the lock counts,
    -- whatever the arguments are and whatever pieces the network gives and takes, nothing stops
    -- the process and no exception escapes. Either the result is -1, the state is as before and
    -- the client gets nothing; or the client has sent a whole block behind the request, this block
    -- has been written where the request asks for, in the file of the user that the path of the
    -- request leads to, and nothing else has changed. Then either no call of `send` failed, the
    -- client gets the request and a NUL, all of it, and the result is 0; or the last call of
    -- `send` that was made failed, as the first that did, the client gets a first part that is not
    -- all of it, and the result is -1.
    pub handle_request-write :
        (fresh : Command) (text rest : List ℕ) (s : Fs Disk) (sk : Socket)
        → WellFormed s.disk
        → AllBelow fs_disksize s.free_block_list
        → IsIdle (locks s)
        → sk.incoming ≡ text ++ 0 ∷ rest
        → IsMessage text
        → parse_command (next_word text).0 ≡ fs_writeblock
        → Refused s sk (handle_request fresh s sk)
          ⊎ ((s' : Fs Disk) × (fs_blocksize ≤ length rest)
              × Effect fresh text (of_bytes (take fs_blocksize rest)) s (some tt) s'
              × Answered (text ++ 0 ∷ []) s' sk (handle_request fresh s sk))
    unfolding dispatch
    handle_request-write fresh text rest s sk wf below room e message kind =
        let sk1 : Socket = record sk { incoming = rest } in
        rw (dispatch_of fresh text rest s sk e message ∙ ap (λ k. dispatch k fresh text s sk1) kind)
          (handle_write_request-Answered fresh text s sk1
            (parse_command-HasCommand text (λ bad. cc (kind, bad))) wf below room)
