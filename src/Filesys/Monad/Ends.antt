-- ===== src/Filesys/Monad/Ends.antt =====
-- filesys/: postconditions of a request, by how it ends.
use operation_system_proj_c.Prelude.{ℕ, ◌≡◌, refl, ◌⊎◌, inl, inr, some, List, get_elem?, arith}
use operation_system_proj_c.Filesys.Monad.{Fs, Outcome, returns, throws, aborts, Error, index}

-- `P` if it returned, `E` if it threw, `Z` if it stopped the process.
abbrev pub Ends :
    {D A : Type 0} → (A → Fs D → Type 0) → (Fs D → Type 0) → Type 0 → Outcome A × Fs D → Type 0
Ends P E Z (returns a, s) = P a s
Ends P E Z (throws e, s) = E s
Ends P E Z (aborts, s) = Z

-- A run that does not stop the process is known by an equation.
pub Ends-cases :
    {D A : Type 0} (P : A → Fs D → Type 0) (E : Fs D → Type 0) (o : Outcome A × Fs D)
    → Ends P E ⊥ o
    → ((a : A) × (s : Fs D) × (o ≡ (returns a, s)) × P a s)
      ⊎ ((e : Error) × (s : Fs D) × (o ≡ (throws e, s)) × E s)
Ends-cases P E (returns a, s) h = inl (a, s, refl, h)
Ends-cases P E (throws e, s) h = inr (e, s, refl, h)
Ends-cases P E (aborts, s) h = absurd h

pub Ends-map :
    {D A : Type 0} (P P' : A → Fs D → Type 0) (E : Fs D → Type 0) (Z : Type 0)
    (o : Outcome A × Fs D)
    → ((a : A) (s : Fs D) → P a s → P' a s)
    → Ends P E Z o
    → Ends P' E Z o
Ends-map P P' E Z (returns a, s) f h = f a s h
Ends-map P P' E Z (throws e, s) f h = h
Ends-map P P' E Z (aborts, s) f h = h

pub Ends-map_both :
    {D A : Type 0} (P P' : A → Fs D → Type 0) (E E' : Fs D → Type 0) (Z : Type 0)
    (o : Outcome A × Fs D)
    → ((a : A) (s : Fs D) → P a s → P' a s)
    → ((s : Fs D) → E s → E' s)
    → Ends P E Z o
    → Ends P' E' Z o
Ends-map_both P P' E E' Z (returns a, s) f g h = f a s h
Ends-map_both P P' E E' Z (throws e, s) f g h = g s h
Ends-map_both P P' E E' Z (aborts, s) f g h = h

pub index-get_elem? :
    {D A : Type 0} (xs : List A) (i : ℕ) (s : Fs D) {a : A}
    → get_elem? xs i ≡ some a
    → index xs i s ≡ (returns a, s)
unfolding index
index-get_elem? xs i s e = ground (arith, e)
