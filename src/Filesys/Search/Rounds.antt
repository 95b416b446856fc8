-- ===== src/Filesys/Search/Rounds.antt =====
-- filesys/file_system.cpp: the loop of `find_free_blocks`, whose queue holds the roots of finite trees.
use operation_system_proj_c.Prelude.{
  ℕ, zero, suc, ◌+◌, ◌<◌, ◌≤◌, ◌≡◌, ◌⊎◌, inl, inr, refl, sym, ap, subst, ◌∙◌, Bool, true, false,
  some, List, [], ◌∷◌, ◌++◌, ◌==◌, ◌||◌, arith,
}
use operation_system_proj_c.Filesys.Disk.{DiskApi}
use operation_system_proj_c.Filesys.Monad.{Fs, returns}
use operation_system_proj_c.Filesys.Lookup.{dir_type}
use operation_system_proj_c.Filesys.Lookup.Tree.{
  inode_at, HasBlock, HasEntry, IsInode, WellFormed, child,
}
use operation_system_proj_c.Filesys.Search.{contains, search_loop}
use operation_system_proj_c.Filesys.Search.Tree.{
  contains-append, Chain, IsUsed, here, down, inode, named, contains-head, HasEntry-child,
  child-HasEntry, HasBlock-name, name-HasBlock,
}
use operation_system_proj_c.Filesys.Search.Loop.{next_of, names_of, HasType, visit-run}

or_cases : (a b : Bool) → (a || b) ≡ true → (a ≡ true) ⊎ (b ≡ true)
or_cases true b h = inl refl
or_cases false b h = inr h

contains-later : (x c : ℕ) (cs : List ℕ) → contains x cs ≡ true → contains x (c ∷ cs) ≡ true
contains-later x c cs h = ground (arith, h)

in_queue : (c x : ℕ) (cs : List ℕ) → contains x (c ∷ cs) ≡ true → (x ≡ c) ⊎ (contains x cs ≡ true)
in_queue c x cs h = elim (or_cases (x == c) (contains x cs) h) [
  | inl e ↦ inl (ground (arith, e))
  | inr e ↦ inr e
]

module _ ⦃api : DiskApi⦄ where
  open api use {Disk, read}

  -- The trees of the inodes `cs` are finite, with at most `n` inodes in all.
  pub data Forest (d : Disk) : List ℕ → ℕ → Type 0 where
    leaf : {n : ℕ} → Forest d [] n
    node :
        {c m n k : ℕ} {cs : List ℕ}
        → Forest d (next_of d c) m
        → Forest d cs n
        → m + n < k
        → Forest d (c ∷ cs) k

  Forest-le : (d : Disk) {cs : List ℕ} {m : ℕ} (n : ℕ) → Forest d cs m → m ≤ n → Forest d cs n
  Forest-le d n leaf h = leaf
  Forest-le d n (node f g k) h = node f g (omega (arith, k, h))

  pub Forest-append :
      (d : Disk) {xs ys : List ℕ} {m n : ℕ}
      → Forest d xs m
      → Forest d ys n
      → Forest d (xs ++ ys) (m + n)
  Forest-append d {m} {n} leaf g = Forest-le d (m + n) g (omega arith)
  Forest-append d (node p q k) g = node p (Forest-append d q g) (omega (arith, k))

  -- What the search leaves from the blocks `used` and the inodes `queue`.
  pub record Searched (d : Disk) (used queue used' : List ℕ) : Type 0 where
    pub kept : (b : ℕ) → contains b used ≡ true → contains b used' ≡ true
    pub inodes : (c y : ℕ) → contains c queue ≡ true → Chain d c y → contains y used' ≡ true
    pub blocks :
        (c y k b : ℕ)
        → contains c queue ≡ true
        → Chain d c y
        → HasBlock (inode_at d y) k b
        → contains b used' ≡ true
    pub sound : (b : ℕ) → contains b used' ≡ true → IsUsed d b

  module _ (fs : Fs Disk) (fits : WellFormed fs.disk)
      (types : (c : ℕ) → IsInode fs.disk c → HasType (inode_at fs.disk c)) where
    abbrev d : Disk
    d = fs.disk

    -- A child of an inode stands in the queue behind it.
    next-child :
        (c x : ℕ) {name : List ℕ}
        → (inode_at d c).type ≡ dir_type
        → HasEntry d (inode_at d c) name x
        → contains x (next_of d c) ≡ true
    next-child c x t e = rw t (HasEntry-child d c x e)

    child-next : (c x : ℕ) → IsInode d c → contains x (next_of d c) ≡ true → IsInode d x
    child-next c x p h = elim (types c p) [
      | inl file ↦ cc (rw file at h)
      | inr dir ↦
          let (name, e) = child-HasEntry d c x (fits c p).1.size (rw dir at h) in child p dir e
    ]

    Chain-cases :
        (c y : ℕ)
        → Chain d c y
        → (y ≡ c) ⊎ ((x : ℕ) × (contains x (next_of d c) ≡ true) × Chain d x y)
    Chain-cases c y here = inl refl
    Chain-cases c y (down {x} t e ch) = inr (x, next-child c x t e, ch)

    -- The loop ends within one round more than the trees have inodes, and it has seen what they use.
    pub search_loop-Searched :
        (fuel n : ℕ) (used queue : List ℕ)
        → Forest d queue n
        → n < fuel
        → ((c : ℕ) → contains c queue ≡ true → IsInode d c)
        → ((c : ℕ) → contains c queue ≡ true → contains c used ≡ true)
        → ((b : ℕ) → contains b used ≡ true → IsUsed d b)
        → (used' : List ℕ) × (search_loop fuel
              (record { used_file_blocks = used; search = queue })
              fs
            ≡ (returns (some used'), fs))
          × Searched d used queue used'
    unfolding search_loop
    search_loop-Searched zero n used queue f low are seen sound = absurd (omega (arith, low))
    search_loop-Searched (suc fuel) n used [] f low are seen sound = (
      used,
      refl,
      record {
        kept = λ b h. h;
        inodes = λ c y h p. cc h;
        blocks = λ c y k b h p q. cc h;
        sound = sound;
      },
    )
    search_loop-Searched (suc fuel) n used (c ∷ cs) (node {m = m} {n = m'} f g k) low are seen
          sound =
        let p = are c (contains-head c cs) in
        let (s', run, queue, spec) =
          visit-run c (record { used_file_blocks = used; search = cs }) fs (fits c p).0 (fits c p).1
            (types c p) in
        let place : (x : ℕ) → contains x s'.search ≡ (contains x cs || contains x (next_of d c)) =
          λ x. ap (contains x) queue ∙ contains-append x cs (next_of d c) in
        let behind : (x : ℕ) → contains x (next_of d c) ≡ true → contains x s'.search ≡ true =
          λ x h. ground (arith, place x, h) in
        let waiting : (x : ℕ) → contains x cs ≡ true → contains x s'.search ≡ true =
          λ x h. ground (arith, place x, h) in
        let older : (x : ℕ) → contains x used ≡ true → contains x s'.used_file_blocks ≡ true =
          λ x h. ground (arith, spec x, h) in
        let are' : (x : ℕ) → contains x s'.search ≡ true → IsInode d x = λ x h.
          elim (or_cases (contains x cs) (contains x (next_of d c)) (sym (place x) ∙ h)) [
            | inl q ↦ are x (contains-later x c cs q)
            | inr q ↦ child-next c x p q
          ] in
        let seen' : (x : ℕ) → contains x s'.search ≡ true → contains x s'.used_file_blocks ≡ true =
          λ x h. elim (or_cases (contains x cs) (contains x (next_of d c)) (sym (place x) ∙ h)) [
            | inl q ↦ older x (seen x (contains-later x c cs q))
            | inr q ↦ ground (arith, spec x, q)
          ] in
        let sound' : (b : ℕ) → contains b s'.used_file_blocks ≡ true → IsUsed d b = λ b h.
          elim (or_cases (contains b (names_of d c)) (contains b (next_of d c) || contains b used)
            (sym (spec b) ∙ h)) [
              | inl q ↦ let (k, own) = name-HasBlock d c b (fits c p).1.size q in named p own
              | inr r ↦ elim (or_cases (contains b (next_of d c)) (contains b used) r) [
                | inl q ↦ inode (child-next c b p q)
                | inr q ↦ sound b q
              ]
            ] in
        let (used', rest, found) =
          search_loop-Searched fuel (m' + m) s'.used_file_blocks s'.search
            (subst (λ l. Forest d l (m' + m)) (sym queue) (Forest-append d g f))
            (omega (arith, k, low)) are' seen' sound' in
        (
          used',
          rw (run, rest) refl,
          record {
            kept = λ b h. found.kept b (older b h);
            inodes = λ x y h ch. elim (in_queue c x cs h) [
              | inl e ↦ elim (Chain-cases c y (subst (λ z. Chain d z y) e ch)) [
                | inl same ↦
                    subst (λ z. contains z used' ≡ true) (sym same)
                      (found.kept c (older c (seen c (contains-head c cs))))
                | inr (z, q, ch') ↦ found.inodes z y (behind z q) ch'
              ]
              | inr q ↦ found.inodes x y (waiting x q) ch
            ];
            blocks = λ x y j b h ch own. elim (in_queue c x cs h) [
              | inl e ↦ elim (Chain-cases c y (subst (λ z. Chain d z y) e ch)) [
                | inl same ↦
                    let mine =
                      HasBlock-name d c j b (subst (λ z. HasBlock (inode_at d z) j b) same own) in
                    found.kept b (ground (arith, spec b, mine))
                | inr (z, q, ch') ↦ found.blocks z y j b (behind z q) ch' own
              ]
              | inr q ↦ found.blocks x y j b (waiting x q) ch own
            ];
            sound = found.sound;
          },
        )
