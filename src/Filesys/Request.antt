-- ===== src/Filesys/Request.antt =====
-- filesys/network_server.cpp: the parser of requests, and which handler a request goes to. A
-- stream is the text that is left of it. The exceptions of the parser all end the request in the
-- same way, so their messages are not modelled.
pub mod Accepted
pub mod Target
mod Examples
use operation_system_proj_c.Prelude.{
  ℕ, zero, suc, ◌+◌, ◌-◌, ◌*◌, ◌%◌, ◌^◌, Bool, true, false, Option, none, some, List, [], ◌∷◌, ltb,
  leb, ◌==◌, not, ◌&&◌, ◌||◌, if◌then◌else◌, is_empty, length, head_or, tail,
}
use operation_system_proj_c.Filesys.Types.{
  Command, CommandType, fs_readblock, fs_writeblock, fs_create, fs_delete, invalid, str_eq,
  fs_maxfileblocks, fs_maxfilename, fs_maxpathname, fs_maxusername,
}
use operation_system_proj_c.Filesys.Path.{slash, ends_in_slash, directory_names}

-- `std::isspace`
abbrev pub is_space : ℕ → Bool
is_space c = c == 32 || (leb 9 c && leb c 13)

unfoldable pub skip_spaces : List ℕ → List ℕ
skip_spaces [] = []
skip_spaces (c ∷ cs) = if is_space c then skip_spaces cs else c ∷ cs

-- The characters up to the first space, and the rest.
unfoldable pub take_word : List ℕ → List ℕ × List ℕ
take_word [] = ([], [])
take_word (c ∷ cs) =
    let rest = take_word cs in if is_space c then ([], c ∷ cs) else (c ∷ rest.0, rest.1)

-- `stream >> text`: the next word, empty at the end of the stream.
abbrev pub next_word : List ℕ → List ℕ × List ℕ
next_word cs = take_word (skip_spaces cs)

-- `stream >> character`: at the end of the stream the variable keeps its value `old`.
unfoldable pub next_char : ℕ → List ℕ → ℕ × List ℕ
next_char old [] = (old, [])
next_char old (c ∷ cs) = if is_space c then next_char old cs else (c, cs)

abbrev pub readblock_text : List ℕ
readblock_text =
    b'F' ∷ b'S' ∷ b'_' ∷ b'R' ∷ b'E' ∷ b'A' ∷ b'D' ∷ b'B' ∷ b'L' ∷ b'O' ∷ b'C' ∷ b'K' ∷ []

abbrev pub writeblock_text : List ℕ
writeblock_text =
    b'F' ∷ b'S' ∷ b'_' ∷ b'W' ∷ b'R' ∷ b'I' ∷ b'T' ∷ b'E' ∷ b'B' ∷ b'L' ∷ b'O' ∷ b'C' ∷ b'K' ∷ []

abbrev pub create_text : List ℕ
create_text = b'F' ∷ b'S' ∷ b'_' ∷ b'C' ∷ b'R' ∷ b'E' ∷ b'A' ∷ b'T' ∷ b'E' ∷ []

abbrev pub delete_text : List ℕ
delete_text = b'F' ∷ b'S' ∷ b'_' ∷ b'D' ∷ b'E' ∷ b'L' ∷ b'E' ∷ b'T' ∷ b'E' ∷ []

unfoldable pub parse_command : List ℕ → CommandType
parse_command command_str =
    if str_eq command_str readblock_text
    then fs_readblock
    else (if str_eq command_str writeblock_text
        then fs_writeblock
        else (if str_eq command_str create_text
            then fs_create
            else (if str_eq command_str delete_text then fs_delete else invalid)))

-- The loop for `//` and white space, over all characters but the last.
unfoldable pub pairs_fit : List ℕ → Bool
pairs_fit [] = true
pairs_fit (x ∷ []) = true
pairs_fit (x ∷ y ∷ r) =
    if x == slash && y == slash then false else (if is_space x then false else pairs_fit (y ∷ r))

-- The loop over the pieces between slashes.
unfoldable pub names_fit : List (List ℕ) → Bool
names_fit [] = true
names_fit (w ∷ ws) =
    if is_empty w then false else (if ltb fs_maxfilename (length w) then false else names_fit ws)

-- `is_valid_pathname` of a text that is not empty.
unfoldable pub is_valid_pathname : List ℕ → Bool
is_valid_pathname pathname =
    if ltb fs_maxpathname (length pathname)
    then false
    else (if not (head_or 0 pathname == slash)
        then false
        else (if ends_in_slash pathname
            then false
            else pairs_fit pathname && names_fit (directory_names (tail pathname))))

abbrev pub is_digit : ℕ → Bool
is_digit c = leb b'0' c && leb c b'9'

-- The value of the digits at the beginning of a text, behind digits of value `n`.
unfoldable pub digits_value : ℕ → List ℕ → ℕ
digits_value n [] = n
digits_value n (c ∷ cs) = if is_digit c then digits_value (10 * n + (c - b'0')) cs else n

-- `std::stoul` on a text without white space, after the sign: `none` if there is no digit, or if
-- the value needs more than 64 bits.
unfoldable pub unsigned_value : List ℕ → Option ℕ
unsigned_value cs =
    if not (is_digit (head_or 0 cs))
    then none
    else (let n = digits_value 0 cs in if leb (2 ^ 64) n then none else some n)

unfoldable pub stoul : List ℕ → Option ℕ
stoul cs =
    if head_or 0 cs == b'-'
    then elim (unsigned_value (tail cs)) [ none ↦ none | some n ↦ some ((2 ^ 64 - n) % 2 ^ 64) ]
    else unsigned_value (if head_or 0 cs == b'+' then tail cs else cs)

-- The block number of a request, from its word; `none` is an exception.
unfoldable pub parse_block : List ℕ → Option ℕ
parse_block block_str =
    if is_empty block_str
    then none
    else (if ltb 1 (length block_str) && head_or 0 block_str == b'0'
        then none
        else elim (stoul block_str) [
          | none ↦ none
          | some n ↦
              let block = n % 2 ^ 32 in if leb fs_maxfileblocks block then none else some block
        ])

abbrev pub is_block_command : CommandType → Bool
is_block_command fs_readblock = true
is_block_command fs_writeblock = true
is_block_command _ = false

-- The end of `parse_message`: nothing may follow.
unfoldable pub finish_command : Command → List ℕ → Option Command
finish_command command rest = if is_empty (next_word rest).0 then some command else none

-- The arguments behind the path name, by the kind of the request.
unfoldable pub parse_arguments : CommandType → Command → List ℕ → Option Command
parse_arguments fs_create command rest =
    let (type, rest') = next_char command.type rest in
    if not (type == b'f') && not (type == b'd')
    then none
    else finish_command (record command { type = type }) rest'
parse_arguments fs_delete command rest = finish_command command rest
parse_arguments invalid command rest = finish_command command rest
parse_arguments _ command rest =
    let (block_str, rest') = next_word rest in
    elim (parse_block block_str) [
      | none ↦ none
      | some b ↦ finish_command (record command { block = b }) rest'
    ]

-- `parse_message` behind its assertion; `none` is an exception. `fresh` is the uninitialized variable
-- `command`.
unfoldable pub parse_words : Command → List ℕ → Option Command
parse_words fresh request_str =
    let (command_str, rest1) = next_word request_str in
    let (username, rest2) = next_word rest1 in
    let (pathname, rest3) = next_word rest2 in
    let kind = parse_command command_str in
    let command = record fresh { command_type = kind; username = username; pathname = pathname } in
    if is_empty username || ltb fs_maxusername (length username)
    then none
    else (if is_empty pathname || not (is_valid_pathname pathname)
        then none
        else parse_arguments kind command rest3)

-- `assert(!command_str.empty())`
unfoldable pub parse_message : Command → List ℕ → Option (Option Command)
parse_message fresh request_str =
    if is_empty (next_word request_str).0 then none else some (parse_words fresh request_str)
