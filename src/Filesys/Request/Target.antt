-- ===== src/Filesys/Request/Target.antt =====
-- filesys/network_server.cpp and file_system.cpp: the last name of a path that the parser lets through.
use operation_system_proj_c.Prelude.{
  ℕ, false, ◌≤◌, ◌≡◌, refl, subst, List, [], ◌∷◌, ◌++◌, arith, length, tail, ◌==◌, Bool-cases, inl,
  inr,
}
use operation_system_proj_c.Filesys.Types.{fs_maxfilename}
use operation_system_proj_c.Filesys.Path.{slash, directory_names, add_to_first}
use operation_system_proj_c.Filesys.Path.Names.{NoSlash, Parts}
use operation_system_proj_c.Filesys.Request.Accepted.{AllNames, IsPathname}

-- Every name fits into the array of an entry.
abbrev AllShort : List (List ℕ) → Type 0
AllShort [] = Unit {0}
AllShort (w ∷ ws) = (length w ≤ fs_maxfilename) × AllShort ws

AllNames-AllShort : (ws : List (List ℕ)) → AllNames ws → AllShort ws
AllNames-AllShort [] h = tt
AllNames-AllShort (w ∷ ws) h = (h.1, AllNames-AllShort ws h.2)

add_to_first-AllShort : (x : ℕ) (ws : List (List ℕ)) → AllShort (add_to_first x ws) → AllShort ws
unfolding add_to_first
add_to_first-AllShort x [] h = tt
add_to_first-AllShort x (w ∷ ws) h = (omega (arith, h.0), h.1)

directory_names-NoSlash :
    (c : ℕ) (b : List ℕ) → NoSlash (c ∷ b) → directory_names (c ∷ b) ≡ (c ∷ b) ∷ []
unfolding directory_names add_to_first
directory_names-NoSlash c [] h = ground (arith, h.0)
directory_names-NoSlash c (d ∷ r) h =
    let rest = directory_names-NoSlash d r h.1 in
    let apart : (c == slash) ≡ false = ground (arith, h.0) in rw (apart, rest) refl

single_short : (b : List ℕ) → NoSlash b → AllShort (directory_names b) → length b ≤ fs_maxfilename
unfolding directory_names
single_short [] h s = omega arith
single_short (c ∷ b) h s = (subst AllShort (directory_names-NoSlash c b h) s).0

last_short :
    (a b : List ℕ)
    → NoSlash b
    → AllShort (directory_names (a ++ slash ∷ b))
    → length b ≤ fs_maxfilename
unfolding directory_names
last_short [] b h s = single_short b h s.1
last_short (x ∷ a) b h s = elim (Bool-cases (x == slash)) [
  | inl hit ↦
      let short : AllShort ([] ∷ directory_names (a ++ slash ∷ b)) = rw hit at s in
      last_short a b h short.1
  | inr miss ↦
      let short : AllShort (add_to_first x (directory_names (a ++ slash ∷ b))) = rw miss at s in
      last_short a b h (add_to_first-AllShort x (directory_names (a ++ slash ∷ b)) short)
]

target_short :
    (a b : List ℕ)
    → NoSlash b
    → AllShort (directory_names (tail (a ++ slash ∷ b)))
    → length b ≤ fs_maxfilename
target_short [] b h s = single_short b h s
target_short (x ∷ a) b h s = last_short a b h s

-- The name behind the last slash has at most 59 characters.
pub target_fits : {p a b : List ℕ} → IsPathname p → Parts p a b → length b ≤ fs_maxfilename
target_fits {p} {a} {b} v split =
    let short : AllShort (directory_names (tail p)) =
      AllNames-AllShort (directory_names (tail p)) v.names in
    target_short a b split.last (subst (λ q. AllShort (directory_names (tail q))) split.parts short)
