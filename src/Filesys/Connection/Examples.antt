-- ===== src/Filesys/Connection/Examples.antt =====
-- filesys/network_server.cpp: connections of clients that read and write the file of the image.
use operation_system_proj_c.Prelude.{
  ℕ, ◌<◌, ◌≤◌, ◌≡◌, ◌↔◌, ◌⊎◌, refl, true, none, some, List, [], ◌∷◌, ◌++◌, arith, length, take,
}
use operation_system_proj_c.Filesys.Types.{fs_readblock, fs_writeblock, str_eq}
use operation_system_proj_c.Filesys.Monad.{Fs}
use operation_system_proj_c.Filesys.Request.{delete_text, skip_spaces, take_word, parse_command}
use operation_system_proj_c.Filesys.Search.{contains}
use operation_system_proj_c.Filesys.Server.Serving.{Answer, Effect}
use operation_system_proj_c.Filesys.RamDisk.{
  Block, inode, entries, bytes, ram_disk, pad, length-pad,
}
use operation_system_proj_c.Filesys.Examples.{
  image, server, read_text, write_text, append_command, read_command, image-WellFormed,
  server-IsIdle, image-NoSelfEntry, free-AllBelow,
}
use operation_system_proj_c.Filesys.Message.{
  fs_blocksize, Socket, receive_message, send_message, receive_block, send_bytes,
}
use operation_system_proj_c.Filesys.Message.Framing.{
  IsMessage, receive_message_iff, Sent, send_message-Sent, receive_message-send_message,
}
use operation_system_proj_c.Filesys.Message.Blocks.{receive_block_lem}
use operation_system_proj_c.Filesys.Connection.{WireApi, handle_request}
use operation_system_proj_c.Filesys.Connection.Safety.{Returned, IsReady, handle_request-Returned}
use operation_system_proj_c.Filesys.Connection.Replies.{Refused, Answered}
use operation_system_proj_c.Filesys.Connection.Answers.{handle_request-read, handle_request-write}

abbrev first_byte : Block → List ℕ
first_byte (inode i) = []
first_byte (entries es) = []
first_byte (bytes n) = n ∷ []

instance abbrev ram_wire : WireApi Block
ram_wire = record {
  to_bytes = λ x. pad 0 fs_blocksize (first_byte x);
  of_bytes = λ l. bytes (length l);
  length-to_bytes = λ x. length-pad {A = ℕ} 0 fs_blocksize (first_byte x);
}

-- The network gives blocks in pieces of 100 and 300 bytes, and takes 5 bytes first; the second
-- `send` fails.
abbrev socket : List ℕ → Socket
socket incoming = record {
  incoming = incoming;
  recv_sizes = 100 ∷ 300 ∷ [];
  send_sizes = some 5 ∷ none ∷ [];
  outgoing = [];
}

-- The same for a network that takes 5 bytes and then all others.
abbrev sender : Socket
sender = record (socket []) { send_sizes = some 5 ∷ [] }

abbrev filler : List ℕ
filler = pad 1 fs_blocksize []

receive_message_iff_example :
    (receive_message (socket (read_text ++ 0 ∷ filler))
      ≡ some (read_text, record (socket (read_text ++ 0 ∷ filler)) { incoming = filler }))
    ↔ ((read_text ++ 0 ∷ filler ≡ read_text ++ 0 ∷ filler) × IsMessage read_text)
receive_message_iff_example =
    receive_message_iff (socket (read_text ++ 0 ∷ filler)) read_text filler

send_message-Sent_example :
    Sent (read_text ++ 0 ∷ []) (socket []) (send_message read_text (socket []))
send_message-Sent_example = send_message-Sent read_text (socket [])

text-IsMessage : IsMessage read_text
unfolding contains
text-IsMessage = (refl, omega arith)

write_text-IsMessage : IsMessage write_text
unfolding contains
write_text-IsMessage = (refl, omega arith)

sent_whole : (send_message read_text sender).0 ≡ true
unfolding send_message send_bytes
sent_whole = refl

abbrev connected : Socket
connected = socket ((send_message read_text sender).1.outgoing ++ filler)

receive_message-send_message_example :
    receive_message connected ≡ some (read_text, record connected { incoming = filler })
receive_message-send_message_example =
    receive_message-send_message read_text filler sender connected text-IsMessage refl sent_whole
      refl

receive_block_lem_example :
    (fs_blocksize ≤ length filler
      → (sizes : List ℕ) × (receive_block (socket filler)
          ≡ some (
            take fs_blocksize filler,
            record (socket filler) { incoming = []; recv_sizes = sizes },
          )))
    × (length filler < fs_blocksize → receive_block (socket filler) ≡ none)
receive_block_lem_example = receive_block_lem (socket filler)

read_kind : parse_command (take_word (skip_spaces read_text)).0 ≡ fs_readblock
unfolding skip_spaces take_word parse_command str_eq
read_kind = refl

write_kind : parse_command (take_word (skip_spaces write_text)).0 ≡ fs_writeblock
unfolding skip_spaces take_word parse_command str_eq
write_kind = refl

handle_request-read_example :
    Refused server
      (socket (read_text ++ 0 ∷ []))
      (handle_request read_command server (socket (read_text ++ 0 ∷ [])))
    ⊎ ((content : Block) × Answer read_command read_text image (some content)
        × Answered
            (read_text ++ 0 ∷ ram_wire.to_bytes content)
            server
            (socket (read_text ++ 0 ∷ []))
            (handle_request read_command server (socket (read_text ++ 0 ∷ []))))
handle_request-read_example =
    handle_request-read read_command read_text [] server (socket (read_text ++ 0 ∷ []))
      image-WellFormed server-IsIdle refl text-IsMessage read_kind

handle_request-write_example :
    Refused server
      (socket (write_text ++ 0 ∷ filler))
      (handle_request append_command server (socket (write_text ++ 0 ∷ filler)))
    ⊎ ((s' : Fs (ℕ → Block)) × (fs_blocksize ≤ length filler)
        × Effect append_command write_text
            (ram_wire.of_bytes (take fs_blocksize filler))
            server
            (some tt)
            s'
        × Answered
            (write_text ++ 0 ∷ [])
            s'
            (socket (write_text ++ 0 ∷ filler))
            (handle_request append_command server (socket (write_text ++ 0 ∷ filler))))
handle_request-write_example =
    handle_request-write append_command write_text filler server (socket (write_text ++ 0 ∷ filler))
      image-WellFormed free-AllBelow server-IsIdle refl write_text-IsMessage write_kind

-- A request to delete the file of the image.
abbrev delete_request : List ℕ
delete_request = delete_text ++ (b' ' ∷ b'u' ∷ b' ' ∷ b'/' ∷ b'f' ∷ 0 ∷ [])

server-IsReady : IsReady server
server-IsReady = record {
  well_formed = image-WellFormed;
  top = refl;
  no_self = image-NoSelfEntry;
  below = free-AllBelow;
  room = server-IsIdle;
}

handle_request-Returned_example :
    Returned (handle_request read_command server (socket delete_request)).0
handle_request-Returned_example =
    handle_request-Returned read_command server (socket delete_request) server-IsReady
