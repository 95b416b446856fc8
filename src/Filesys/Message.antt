-- ===== src/Filesys/Message.antt =====
-- filesys/network_server.cpp: bytes from and to a client. A socket has the bytes that the client will
-- have sent when it closes the connection or the connection fails, and what the network chooses: how
-- many bytes each `recv` of more than one gives, and how many each `send` takes, or that it fails.
pub mod Framing
pub mod Blocks
use operation_system_proj_c.Prelude.{
  ℕ, zero, suc, ◌+◌, ◌-◌, Bool, true, false, Option, none, some, List, [], ◌∷◌, ◌++◌, ltb, leb,
  ◌==◌, if◌then◌else◌, length, take, drop, tail,
}
use operation_system_proj_c.Filesys.Types.{fs_maxusername, fs_maxpathname}

abbrev pub max_message_size : ℕ
max_message_size = fs_maxusername + fs_maxpathname + 20

abbrev pub fs_blocksize : ℕ
fs_blocksize = 512

pub record Socket : Type 0 where
  pub incoming : List ℕ
  pub recv_sizes : List ℕ
  pub send_sizes : List (Option ℕ)
  pub outgoing : List ℕ

-- The loop of `receive_message`, with the characters `request_str` so far; `none` is the result -1.
unfoldable pub receive_chars : List ℕ → List ℕ → Option (List ℕ × List ℕ)
receive_chars request_str [] = none
receive_chars request_str (c ∷ rest) =
    let more = receive_chars (request_str ++ c ∷ []) rest in
    if c == 0
    then some (request_str, rest)
    else if ltb max_message_size (length request_str + 1)
    then none
    else more

abbrev pub left_behind : Socket → Option (List ℕ × List ℕ) → Option (List ℕ × Socket)
left_behind sk none = none
left_behind sk (some (request_str, rest)) = some (request_str, record sk { incoming = rest })

-- `receive_message`; after the result -1 the connection is closed, and its bytes are not read.
unfoldable pub receive_message : Socket → Option (List ℕ × Socket)
receive_message sk = left_behind sk (receive_chars [] sk.incoming)

-- How many bytes a `recv` or `send` of `n` bytes moves, which is at least one.
abbrev pub piece : ℕ → ℕ → ℕ
piece size n = if size == 0 then 1 else (if ltb n size then n else size)

abbrev pub first_size : List ℕ → ℕ → ℕ
first_size [] n = n
first_size (size ∷ sizes) n = piece size n

-- The loop that receives a block: `left` bytes are missing. Each round receives at least one, so
-- `left` rounds are enough.
unfoldable pub receive_bytes : ℕ → ℕ → List ℕ → Socket → Option (List ℕ × Socket)
receive_bytes zero left received sk = if left == 0 then some (received, sk) else none
receive_bytes (suc fuel) left received sk =
    let n = first_size sk.recv_sizes left in
    let got = take n sk.incoming in
    let more =
      receive_bytes fuel (left - length got) (received ++ got)
        (record sk { incoming = drop n sk.incoming; recv_sizes = tail sk.recv_sizes }) in
    if left == 0 then some (received, sk) else (if length got == 0 then none else more)

unfoldable pub receive_block : Socket → Option (List ℕ × Socket)
receive_block sk = receive_bytes fs_blocksize fs_blocksize [] sk

-- One call of `send` for the bytes `left`, which are not none; `next_round` is the rest of the loop.
abbrev pub send_piece :
    (List ℕ → Socket → Bool × Socket) → List ℕ → Socket → List (Option ℕ) → Bool × Socket
send_piece next_round left sk [] = next_round [] (record sk { outgoing = sk.outgoing ++ left })
send_piece next_round left sk (none ∷ sizes) = (false, record sk { send_sizes = sizes })
send_piece next_round left sk (some size ∷ sizes) =
    let n = piece size (length left) in
    next_round (drop n left)
      (record sk { outgoing = sk.outgoing ++ take n left; send_sizes = sizes })

-- The loops that send `bytes`; `false` is the result -1. Each round sends at least one byte, so as
-- many rounds as there are bytes are enough.
unfoldable pub send_bytes : ℕ → List ℕ → Socket → Bool × Socket
send_bytes zero bytes sk = (true, sk)
send_bytes (suc fuel) [] sk = (true, sk)
send_bytes (suc fuel) (b ∷ bytes) sk =
    send_piece (λ left s. send_bytes fuel left s) (b ∷ bytes) sk sk.send_sizes

-- `send_message`: the text and its final NUL.
unfoldable pub send_message : List ℕ → Socket → Bool × Socket
send_message response_str sk = send_bytes (length response_str + 1) (response_str ++ 0 ∷ []) sk
