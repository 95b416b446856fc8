-- ===== src/Filesys/Request/Examples.antt =====
-- filesys/network_server.cpp: requests that the parser accepts and refuses.
use operation_system_proj_c.Prelude.{ℕ, ◌≡◌, ◌↔◌, refl, true, some, List, [], ◌∷◌, ◌++◌}
use operation_system_proj_c.Filesys.Types.{Command, fs_writeblock, invalid, str_eq}
use operation_system_proj_c.Filesys.Path.{ends_in_slash, directory_names, add_to_first}
use operation_system_proj_c.Filesys.Request.{
  skip_spaces, take_word, parse_command, pairs_fit, names_fit, is_valid_pathname, digits_value,
  unsigned_value, stoul, parse_block, finish_command, parse_arguments, parse_words, parse_message,
  writeblock_text,
}
use operation_system_proj_c.Filesys.Request.Accepted.{
  IsPathname, IsAccepted, is_valid_pathname_iff, parse_message-IsAccepted,
}

abbrev fresh : Command
fresh = record { command_type = invalid; username = []; pathname = []; block = 0; type = 0 }

abbrev request : List ℕ
request = writeblock_text ++ (b' ' ∷ b'u' ∷ b' ' ∷ b'/' ∷ b'f' ∷ b' ' ∷ b'1' ∷ b'7' ∷ [])

abbrev parsed : Command
parsed = record {
  command_type = fs_writeblock;
  username = b'u' ∷ [];
  pathname = b'/' ∷ b'f' ∷ [];
  block = 17;
  type = 0;
}

parse_request : parse_message fresh request ≡ some (some parsed)
unfolding parse_message parse_words skip_spaces take_word parse_command str_eq pairs_fit names_fit
    is_valid_pathname digits_value unsigned_value stoul parse_block finish_command parse_arguments
    ends_in_slash directory_names add_to_first
parse_request = refl

parse_message-IsAccepted_example : IsAccepted parsed
parse_message-IsAccepted_example = parse_message-IsAccepted fresh request parse_request

is_valid_pathname_iff_example :
    (is_valid_pathname (b'/' ∷ b'f' ∷ []) ≡ true) ↔ IsPathname (b'/' ∷ b'f' ∷ [])
is_valid_pathname_iff_example = is_valid_pathname_iff (b'/' ∷ b'f' ∷ [])

-- 2^32 is taken for block 0.
parse_block-wraps :
    parse_block (b'4' ∷ b'2' ∷ b'9' ∷ b'4' ∷ b'9' ∷ b'6' ∷ b'7' ∷ b'2' ∷ b'9' ∷ b'6' ∷ []) ≡ some 0
unfolding parse_block stoul unsigned_value digits_value
parse_block-wraps = refl

-- What follows the digits is not read.
parse_block-suffix : parse_block (b'7' ∷ b'x' ∷ []) ≡ some 7
unfolding parse_block stoul unsigned_value digits_value
parse_block-suffix = refl
