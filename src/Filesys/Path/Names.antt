-- ===== src/Filesys/Path/Names.antt =====
-- filesys/file_system.cpp: the names of a path that the request parser lets through.
use operation_system_proj_c.Prelude.{
  ℕ, ◌≡◌, ◌≢◌, refl, false, none, some, List, [], ◌∷◌, ◌++◌, arith, is_empty, tail, head_or, ◌==◌,
  Option-cases, inl, inr, Bool-cases, subst,
}
use operation_system_proj_c.Filesys.Monad.{Fs, returns}
use operation_system_proj_c.Filesys.Path.{
  slash, split_last, ends_in_slash, split_path, directory_names, add_to_first, get_parent_dir,
  get_target,
}

abbrev pub AllNonempty : List (List ℕ) → Type 0
AllNonempty [] = Unit {0}
AllNonempty (x ∷ xs) = (is_empty x ≡ false) × AllNonempty xs

abbrev pub NoDouble : List ℕ → Type 0
NoDouble [] = Unit {0}
NoDouble (x ∷ []) = Unit {0}
NoDouble (x ∷ y ∷ r) = (x ≡ slash → y ≢ slash) × NoDouble (y ∷ r)

-- An absolute path with no final slash and no two slashes in a row.
pub record IsPath (p : List ℕ) : Type 0 where
  pub absolute : head_or 0 p ≡ slash
  pub no_end : ends_in_slash p ≡ false
  pub no_double : NoDouble p

NoDouble-tail : (x : ℕ) (r : List ℕ) → NoDouble (x ∷ r) → NoDouble r
NoDouble-tail x [] h = tt
NoDouble-tail x (y ∷ r) h = h.1

NoDouble-next : (x : ℕ) (r : List ℕ) → NoDouble (x ∷ r) → x ≡ slash → head_or 0 r ≢ slash
NoDouble-next x [] h e = omega arith
NoDouble-next x (y ∷ r) h e = h.0 e

add_to_first-AllNonempty :
    (x : ℕ) (ns : List (List ℕ))
    → AllNonempty (tail ns)
    → AllNonempty (tail (add_to_first x ns)) × AllNonempty (add_to_first x ns)
unfolding add_to_first
add_to_first-AllNonempty x [] h = (tt, (refl, tt))
add_to_first-AllNonempty x (n ∷ ns) h = (h, (refl, h))

-- Only the first piece can be empty, and only if the text begins with a slash.
pub directory_names-AllNonempty :
    (xs : List ℕ)
    → NoDouble xs
    → AllNonempty (tail (directory_names xs))
      × (head_or 0 xs ≢ slash → AllNonempty (directory_names xs))
unfolding directory_names
directory_names-AllNonempty [] h = (tt, λ _. tt)
directory_names-AllNonempty (x ∷ r) h =
    let (later, all) = directory_names-AllNonempty r (NoDouble-tail x r h) in
    elim (Bool-cases (x == slash)) [
      | inl hit ↦ rw hit (all (NoDouble-next x r h (ground arith)), λ n. absurd (n (ground arith)))
      | inr miss ↦
          let (first, every) = add_to_first-AllNonempty x (directory_names r) later in
          rw miss (first, λ n. every)
    ]

split_last_lem : (xs a b : List ℕ) → split_last xs ≡ some (a, b) → xs ≡ a ++ slash ∷ b
unfolding split_last
split_last_lem [] a b e = cc
split_last_lem (x ∷ xs) a b e = elim (Option-cases (split_last xs)) [
  | inl q ↦ ground (arith, q)
  | inr ((a', b'), q) ↦ ground (arith, q, split_last_lem xs a' b' q)
]

split_last-absolute :
    (p : List ℕ) → head_or 0 p ≡ slash → (a b : List ℕ) × (split_last p ≡ some (a, b))
unfolding split_last
split_last-absolute [] h = absurd (omega arith)
split_last-absolute (x ∷ xs) h = elim (Option-cases (split_last xs)) [
  | inl e ↦ ([], xs, ground (arith, e))
  | inr ((a, b), e) ↦ (x ∷ a, b, ground (arith, e))
]

NoDouble-prefix : (a b : List ℕ) → NoDouble (a ++ b) → NoDouble a
NoDouble-prefix [] b h = tt
NoDouble-prefix (x ∷ []) b h = tt
NoDouble-prefix (x ∷ y ∷ a) b h = (h.0, NoDouble-prefix (y ∷ a) b h.1)

NoDouble-before : (a b : List ℕ) → NoDouble (a ++ slash ∷ b) → ends_in_slash a ≡ false
unfolding ends_in_slash
NoDouble-before [] b h = refl
NoDouble-before (x ∷ []) b h = ground (arith, h.0)
NoDouble-before (x ∷ y ∷ a) b h = NoDouble-before (y ∷ a) b h.1

absolute-prefix :
    (a b : List ℕ) → head_or 0 (a ++ b) ≡ slash → is_empty a ≡ false → head_or 0 a ≡ slash
absolute-prefix [] b h n = cc
absolute-prefix (x ∷ a) b h n = h

-- No character is a slash.
abbrev pub NoSlash : List ℕ → Type 0
NoSlash [] = Unit {0}
NoSlash (x ∷ xs) = (x ≢ slash) × NoSlash xs

split_last-none : (xs : List ℕ) → split_last xs ≡ none → NoSlash xs
unfolding split_last
split_last-none [] e = tt
split_last-none (x ∷ xs) e = elim (Option-cases (split_last xs)) [
  | inl q ↦ (ground (arith, q, e), split_last-none xs q)
  | inr ((a, b), q) ↦ absurd (ground (arith, q, e))
]

split_last-NoSlash : (xs a b : List ℕ) → split_last xs ≡ some (a, b) → NoSlash b
unfolding split_last
split_last-NoSlash [] a b e = cc e
split_last-NoSlash (x ∷ xs) a b e = elim (Option-cases (split_last xs)) [
  | inl q ↦ let same : xs ≡ b = ground (arith, q, e) in subst NoSlash same (split_last-none xs q)
  | inr ((a', b'), q) ↦
      let same : b' ≡ b = ground (arith, q, e) in subst NoSlash same (split_last-NoSlash xs a' b' q)
]

-- The two parts of a path, before and behind its last slash, and what the parent path is.
pub record Parts (p a b : List ℕ) : Type 0 where
  pub parts : p ≡ a ++ slash ∷ b
  pub last : NoSlash b
  pub names : AllNonempty (tail (directory_names a))
  pub parent : is_empty a ≡ false → IsPath a

split_last-Parts : (p a b : List ℕ) → IsPath p → split_last p ≡ some (a, b) → Parts p a b
split_last-Parts p a b v e =
    let parts = split_last_lem p a b e in
    let whole : NoDouble (a ++ slash ∷ b) = subst NoDouble parts v.no_double in
    record {
      parts = parts;
      last = split_last-NoSlash p a b e;
      names = (directory_names-AllNonempty a (NoDouble-prefix a (slash ∷ b) whole)).0;
      parent = λ n. record {
        absolute =
            absolute-prefix a (slash ∷ b) (subst (λ q. head_or 0 q ≡ slash) parts v.absolute) n;
        no_end = NoDouble-before a b whole;
        no_double = NoDouble-prefix a (slash ∷ b) whole;
      };
    }

nonempty : (p : List ℕ) → head_or 0 p ≡ slash → is_empty p ≡ false
nonempty [] h = absurd (omega arith)
nonempty (x ∷ p) h = refl

-- On such a path `get_parent_dir` and `get_target` meet no failing assertion and change nothing.
pub split_path-cases :
    {D : Type 0} (p : List ℕ)
    → IsPath p
    → (a : List ℕ) × (b : List ℕ) × Parts p a b
      × ((s : Fs D) → get_parent_dir p s ≡ (returns a, s))
      × ((s : Fs D) → get_target p s ≡ (returns b, s))
unfolding get_parent_dir get_target split_path
split_path-cases p v =
    let (a, b, e) = split_last-absolute p v.absolute in
    let n = nonempty p v.absolute in
    let q = v.no_end in
    (a, b, split_last-Parts p a b v e, (λ s. rw (n, q, e) refl), λ s. rw (n, q, e) refl)
