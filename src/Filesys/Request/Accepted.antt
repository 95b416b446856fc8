-- ===== src/Filesys/Request/Accepted.antt =====
-- filesys/network_server.cpp: what holds of a request that the parser accepts.
use operation_system_proj_c.Prelude.{
  ℕ, ◌<◌, ◌≤◌, ◌≡◌, ◌≢◌, refl, ap, sym, ◌∙◌, true, false, Option, none, some, List, [], ◌∷◌, ◌||◌,
  not, arith, ◌↔◌, ltb, is_empty, length, tail, Bool-cases, inl, inr, ◌⊎◌,
}
use operation_system_proj_c.Filesys.Types.{
  Command, CommandType, str_eq, fs_readblock, fs_writeblock, fs_create, fs_delete, invalid,
  fs_maxfileblocks, fs_maxfilename, fs_maxpathname, fs_maxusername,
}
use operation_system_proj_c.Filesys.Path.{directory_names}
use operation_system_proj_c.Filesys.Path.Names.{IsPath, NoDouble}
use operation_system_proj_c.Filesys.Request.{
  is_space, pairs_fit, names_fit, is_valid_pathname, parse_block, finish_command, parse_arguments,
  parse_words, parse_message, is_block_command, next_word, next_char, parse_command,
}

-- No character but the last can be white space.
abbrev pub NoSpace : List ℕ → Type 0
NoSpace [] = Unit {0}
NoSpace (x ∷ []) = Unit {0}
NoSpace (x ∷ y ∷ r) = (is_space x ≡ false) × NoSpace (y ∷ r)

-- Every name has 1 to 59 characters.
abbrev pub AllNames : List (List ℕ) → Type 0
AllNames [] = Unit {0}
AllNames (w ∷ ws) = (0 < length w) × (length w ≤ fs_maxfilename) × AllNames ws

pairs_fit_iff : (p : List ℕ) → (pairs_fit p ≡ true) ↔ (NoDouble p × NoSpace p)
unfolding pairs_fit
pairs_fit_iff [] = ground arith
pairs_fit_iff (x ∷ []) = ground arith
pairs_fit_iff (x ∷ y ∷ r) = ground (arith, pairs_fit_iff (y ∷ r))

names_fit_iff : (ws : List (List ℕ)) → (names_fit ws ≡ true) ↔ AllNames ws
unfolding names_fit
names_fit_iff [] = ground arith
names_fit_iff ([] ∷ ws) = ground arith
names_fit_iff ((c ∷ cs) ∷ ws) = ground (arith, names_fit_iff ws)

-- What `is_valid_pathname` is to say.
pub record IsPathname (p : List ℕ) : Type 0 where
  pub path : IsPath p
  pub size : length p ≤ fs_maxpathname
  pub no_space : NoSpace p
  pub names : AllNames (directory_names (tail p))

-- `is_valid_pathname` accepts exactly the absolute paths of at most 128 characters that do not end
-- in a slash, have no two slashes in a row and no white space before the last character, and whose
-- names have 1 to 59 characters.
pub is_valid_pathname_iff : (p : List ℕ) → (is_valid_pathname p ≡ true) ↔ IsPathname p
unfolding is_valid_pathname
is_valid_pathname_iff p =
    let names = names_fit_iff (directory_names (tail p)) in
    (
      λ h. record {
        path = record {
          absolute = ground (arith, h);
          no_end = ground (arith, h);
          no_double = ground (arith, h, pairs_fit_iff p);
        };
        size = ground (arith, h);
        no_space = ground (arith, h, pairs_fit_iff p);
        names = ground (arith, h, names);
      },
      λ v. ground (
        arith,
        v.path.absolute,
        v.path.no_end,
        v.path.no_double,
        v.size,
        v.no_space,
        v.names,
        pairs_fit_iff p,
        names,
      ),
    )

parse_block-below : (cs : List ℕ) {b : ℕ} → parse_block cs ≡ some b → b < fs_maxfileblocks
unfolding parse_block
parse_block-below cs h = ground (arith, h)

finish_command-same :
    (command : Command) (rest : List ℕ) {c : Command}
    → finish_command command rest ≡ some c
    → c ≡ command
unfolding finish_command
finish_command-same command rest h = ground (arith, h)

-- What `parse_arguments` adds to a command of a kind, and leaves.
record Argued (kind : CommandType) (command c : Command) : Type 0 where
  username : c.username ≡ command.username
  pathname : c.pathname ≡ command.pathname
  kind_eq : c.command_type ≡ command.command_type
  block : is_block_command kind ≡ true → c.block < fs_maxfileblocks
  type : kind ≡ fs_create → (c.type ≡ b'f') ⊎ (c.type ≡ b'd')

block_arguments :
    (kind : CommandType) (command c : Command) (rest : List ℕ) (o : Option ℕ)
    → is_block_command kind ≡ true
    → ((b : ℕ) → o ≡ some b → b < fs_maxfileblocks)
    → elim o [ none ↦ none | some b ↦ finish_command (record command { block = b }) rest ] ≡ some c
    → Argued kind command c
block_arguments kind command c rest none k below h = ground (arith, h)
block_arguments kind command c rest (some b) k below h =
    ground (arith, finish_command-same (record command { block = b }) rest h, below b refl, k)

parse_arguments-Argued :
    (kind : CommandType) (command : Command) (rest : List ℕ) {c : Command}
    → parse_arguments kind command rest ≡ some c
    → Argued kind command c
unfolding parse_arguments
parse_arguments-Argued fs_create command rest {c} h =
    let r = next_char command.type rest in
    ground (arith, finish_command-same (record command { type = r.0 }) r.1 {c = c})
parse_arguments-Argued fs_delete command rest h = ground (arith, finish_command-same command rest h)
parse_arguments-Argued invalid command rest h = ground (arith, finish_command-same command rest h)
parse_arguments-Argued fs_readblock command rest {c} h =
    let w = next_word rest in
    block_arguments fs_readblock command c w.1 (parse_block w.0) refl
      (λ b e. parse_block-below w.0 e) h
parse_arguments-Argued fs_writeblock command rest {c} h =
    let w = next_word rest in
    block_arguments fs_writeblock command c w.1 (parse_block w.0) refl
      (λ b e. parse_block-below w.0 e) h

-- What holds of every command that the parser returns.
pub record IsAccepted (command : Command) : Type 0 where
  pub username : (0 < length command.username) × (length command.username ≤ fs_maxusername)
  pub pathname : IsPathname command.pathname
  pub block : is_block_command command.command_type ≡ true → command.block < fs_maxfileblocks
  pub type : command.command_type ≡ fs_create → (command.type ≡ b'f') ⊎ (command.type ≡ b'd')

username_fits :
    (w : List ℕ)
    → (is_empty w || ltb fs_maxusername (length w)) ≡ false
    → (0 < length w) × (length w ≤ fs_maxusername)
username_fits [] h = ground (arith, h)
username_fits (c ∷ cs) h = ground (arith, h)

parsed-IsPathname : (p : List ℕ) → (is_empty p || not (is_valid_pathname p)) ≡ false → IsPathname p
parsed-IsPathname p h = (is_valid_pathname_iff p).0 (ground (arith, h))

parse_words-IsAccepted :
    (fresh : Command) (request_str : List ℕ) {c : Command}
    → parse_words fresh request_str ≡ some c
    → IsAccepted c
unfolding parse_words
parse_words-IsAccepted fresh request_str {c} h =
    let w1 = next_word request_str in
    let w2 = next_word w1.1 in
    let w3 = next_word w2.1 in
    let kind = parse_command w1.0 in
    let command : Command = record fresh {
      command_type = kind;
      username = w2.0;
      pathname = w3.0;
    } in
    elim (Bool-cases (is_empty w2.0 || ltb fs_maxusername (length w2.0))) [
      | inl bad ↦ ground (arith, simp (bad) at h)
      | inr user ↦ elim (Bool-cases (is_empty w3.0 || not (is_valid_pathname w3.0))) [
        | inl bad ↦ ground (arith, simp (user, bad) at h)
        | inr path ↦
            let run : parse_arguments kind command w3.1 ≡ some c = simp (user, path) at h in
            let a = parse_arguments-Argued kind command w3.1 run in
            record {
              username = rw a.username (username_fits w2.0 user);
              pathname = rw a.pathname (parsed-IsPathname w3.0 path);
              block = λ k. a.block (ap is_block_command (sym a.kind_eq) ∙ k);
              type = λ k. a.type (sym a.kind_eq ∙ k);
            }
      ]
    ]

-- A command that `parse_message` returns has a user name of 1 to 10 characters and a valid path
-- name; its block number is below 124 if it is a read or a write, and its type is a file or a
-- directory if it is a create.
pub parse_message-IsAccepted :
    (fresh : Command) (request_str : List ℕ) {c : Command}
    → parse_message fresh request_str ≡ some (some c)
    → IsAccepted c
unfolding parse_message
parse_message-IsAccepted fresh request_str {c} h =
    elim (Bool-cases (is_empty (next_word request_str).0)) [
      | inl empty ↦ cc (rw empty at h)
      | inr present ↦
          let run : some (parse_words fresh request_str) ≡ some (some c) = rw present at h in
          let same : parse_words fresh request_str ≡ some c = cc run in
          parse_words-IsAccepted fresh request_str same
    ]

-- The request has a first word, so that the assertion of `parse_message` holds.
abbrev pub HasCommand : List ℕ → Type 0
HasCommand request_str = is_empty (next_word request_str).0 ≡ false

pub parse_message-some :
    (fresh : Command) (request_str : List ℕ)
    → HasCommand request_str
    → parse_message fresh request_str ≡ some (parse_words fresh request_str)
unfolding parse_message
parse_message-some fresh request_str h = rw h refl

-- An empty word is no command.
command_nonempty : (w : List ℕ) → parse_command w ≢ invalid → is_empty w ≡ false
unfolding parse_command str_eq
command_nonempty [] h = absurd (h refl)
command_nonempty (c ∷ cs) h = refl

pub parse_command-HasCommand :
    (request_str : List ℕ)
    → parse_command (next_word request_str).0 ≢ invalid
    → HasCommand request_str
parse_command-HasCommand request_str h = command_nonempty (next_word request_str).0 h
