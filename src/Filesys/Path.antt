-- ===== src/Filesys/Path.antt =====
-- filesys/file_system.cpp: path names.
pub mod Names
use operation_system_proj_c.Prelude.{
  ℕ, Bool, false, Option, none, some, List, [], ◌∷◌, ◌==◌, if◌then◌else◌, not, ◌&&◌, is_empty,
}
use operation_system_proj_c.Filesys.Monad.{M, abort, pure, assert, ◌>>=◌, ◌>>◌}

abbrev pub slash : ℕ
slash = b'/'

-- `path.find_last_of('/')`, as the text before that slash and the text after it.
unfoldable pub split_last : List ℕ → Option (List ℕ × List ℕ)
split_last [] = none
split_last (x ∷ xs) = elim (split_last xs) [
  | none ↦ if x == slash then some ([], xs) else none
  | some (a, b) ↦ some (x ∷ a, b)
]

unfoldable pub ends_in_slash : List ℕ → Bool
ends_in_slash [] = false
ends_in_slash (x ∷ []) = x == slash
ends_in_slash (x ∷ y ∷ l) = ends_in_slash (y ∷ l)

-- The two assertions of `get_parent_dir` and `get_target`, and the two parts of the path.
unfoldable pub split_path : {D : Type 0} → List ℕ → M D (List ℕ × List ℕ)
unfolding split_last ends_in_slash
split_path path = do
  assert (not (is_empty path) && not (ends_in_slash path))
  elim (split_last path) [ none ↦ abort | some p ↦ pure p ]

unfoldable pub get_parent_dir : {D : Type 0} → List ℕ → M D (List ℕ)
unfolding split_path
get_parent_dir path = do p ← split_path path; pure p.0

unfoldable pub get_target : {D : Type 0} → List ℕ → M D (List ℕ)
unfolding split_path
get_target path = do p ← split_path path; pure p.1

unfoldable pub add_to_first : ℕ → List (List ℕ) → List (List ℕ)
add_to_first x [] = (x ∷ []) ∷ []
add_to_first x (w ∷ ws) = (x ∷ w) ∷ ws

-- `while (std::getline(stream, dir_name, '/'))`: the pieces between slashes; what follows the last
-- slash is a piece only if it is not empty.
unfoldable pub directory_names : List ℕ → List (List ℕ)
unfolding add_to_first
directory_names [] = []
directory_names (x ∷ xs) =
    if x == slash then [] ∷ directory_names xs else add_to_first x (directory_names xs)
