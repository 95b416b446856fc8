-- ===== src/Filesys/Connection.antt =====
-- filesys/network_server.cpp: `handle_request`, from the bytes that a client sends to the bytes that it
-- gets back. The state of the file system and the socket are passed on; the request runs alone. The
-- result is `true` for 0 and `false` for -1.
pub mod Replies
pub mod Answers
pub mod Safety
mod Examples
use operation_system_proj_c.Prelude.{ℕ, Bool, true, false, Option, none, some, List, ◌≡◌, length}
use operation_system_proj_c.Filesys.Types.{
  Command, CommandType, fs_readblock, fs_writeblock, fs_create, fs_delete, invalid,
}
use operation_system_proj_c.Filesys.Disk.{DiskApi}
use operation_system_proj_c.Filesys.Monad.{Fs, Outcome, returns, throws, aborts}
use operation_system_proj_c.Filesys.Request.{next_word, parse_command, parse_message}
use operation_system_proj_c.Filesys.Server.{serve_read, write_received, serve_create, serve_delete}
use operation_system_proj_c.Filesys.Message.{
  fs_blocksize, Socket, receive_message, receive_block, send_bytes, send_message,
}

-- The bytes of a block in memory.
pub record WireApi (Block : Type 0) : Type 0 where
  pub to_bytes : Block → List ℕ
  pub of_bytes : List ℕ → Block
  pub length-to_bytes : (x : Block) → length (to_bytes x) ≡ fs_blocksize

abbrev pub send_then : Bool × Socket → (Socket → Bool × Socket) → Bool × Socket
send_then (false, sk) next = (false, sk)
send_then (true, sk) next = next sk

abbrev pub with_state : {D : Type 0} → Fs D → Bool × Socket → (Outcome Bool × Fs D) × Socket
with_state s r = ((returns r.0, s), r.1)

-- What a handler does after the file system has returned, or has thrown.
unfoldable pub reply :
    {D A : Type 0}
    → Outcome (Option A) × Fs D
    → Socket
    → (A → Socket → Bool × Socket)
    → (Outcome Bool × Fs D) × Socket
reply (returns none, s) sk answer = ((returns false, s), sk)
reply (returns (some a), s) sk answer = with_state s (answer a sk)
reply (throws e, s) sk answer = ((throws e, s), sk)
reply (aborts, s) sk answer = ((aborts, s), sk)

module _ ⦃api : DiskApi⦄ where
  open api use {Disk, Block}

  module _ ⦃wire : WireApi Block⦄ where
    open wire use {to_bytes, of_bytes}

    -- The loop that sends a block.
    unfoldable pub send_block : Block → Socket → Bool × Socket
    send_block content sk = send_bytes fs_blocksize (to_bytes content) sk

    -- `NetworkServer::handle_read`
    unfoldable pub handle_read_request :
        Command → List ℕ → Fs Disk → Socket → (Outcome Bool × Fs Disk) × Socket
    handle_read_request fresh request_str s sk =
        reply (serve_read fresh request_str s) sk
          (λ content sk1. send_then (send_message request_str sk1) (λ sk2. send_block content sk2))

    -- `NetworkServer::handle_write` after the parser, with what `recv` gave.
    unfoldable pub write_block_received :
        Command
        → List ℕ
        → Fs Disk
        → Socket
        → Option (List ℕ × Socket)
        → (Outcome Bool × Fs Disk) × Socket
    write_block_received command request_str s sk none = ((returns false, s), sk)
    write_block_received command request_str s sk (some (content, sk1)) =
        reply (write_received (some (of_bytes content)) command s) sk1
          (λ _ sk2. send_message request_str sk2)

    unfoldable pub write_request_parsed :
        Option Command → List ℕ → Fs Disk → Socket → (Outcome Bool × Fs Disk) × Socket
    write_request_parsed none request_str s sk = ((returns false, s), sk)
    write_request_parsed (some command) request_str s sk =
        write_block_received command request_str s sk (receive_block sk)

    -- `NetworkServer::handle_write`
    unfoldable pub handle_write_request :
        Command → List ℕ → Fs Disk → Socket → (Outcome Bool × Fs Disk) × Socket
    handle_write_request fresh request_str s sk = elim (parse_message fresh request_str) [
      | none ↦ ((aborts, s), sk)
      | some parsed ↦ write_request_parsed parsed request_str s sk
    ]

    -- `NetworkServer::handle_create`
    unfoldable pub handle_create_request :
        Command → List ℕ → Fs Disk → Socket → (Outcome Bool × Fs Disk) × Socket
    handle_create_request fresh request_str s sk =
        reply (serve_create fresh request_str s) sk (λ _ sk1. send_message request_str sk1)

    -- `NetworkServer::handle_delete`
    unfoldable pub handle_delete_request :
        Command → List ℕ → Fs Disk → Socket → (Outcome Bool × Fs Disk) × Socket
    handle_delete_request fresh request_str s sk =
        reply (serve_delete fresh request_str s) sk (λ _ sk1. send_message request_str sk1)

    -- The switch of `handle_request`.
    unfoldable pub dispatch :
        CommandType → Command → List ℕ → Fs Disk → Socket → (Outcome Bool × Fs Disk) × Socket
    dispatch fs_readblock fresh request_str s sk = handle_read_request fresh request_str s sk
    dispatch fs_writeblock fresh request_str s sk = handle_write_request fresh request_str s sk
    dispatch fs_create fresh request_str s sk = handle_create_request fresh request_str s sk
    dispatch fs_delete fresh request_str s sk = handle_delete_request fresh request_str s sk
    dispatch invalid fresh request_str s sk = ((returns false, s), sk)

    -- `handle_request`; `fresh` is the uninitialized command of the parser.
    unfoldable pub handle_request : Command → Fs Disk → Socket → (Outcome Bool × Fs Disk) × Socket
    handle_request fresh s sk = elim (receive_message sk) [
      | none ↦ ((returns false, s), sk)
      | some m ↦ dispatch (parse_command (next_word m.0).0) fresh m.0 s m.1
    ]
