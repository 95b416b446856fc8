-- ===== src/Filesys/Search/Tree.antt =====
-- filesys/file_system.cpp: what the search follows, the entries of directories.
use operation_system_proj_c.Prelude.{
  ℕ, zero, suc, ◌+◌, ◌<◌, ◌≤◌, ◌≡◌, ◌≢◌, inl, inr, refl, ap, subst, ◌∙◌, true, false, Bool-cases,
  Option, none, some, List, [], ◌∷◌, ◌++◌, ◌==◌, ◌||◌, if◌then◌else◌, arith, get_elem?, get_or,
  length, ==-refl,
}
use operation_system_proj_c.Filesys.Types.{Direntry, root_inode, fs_maxfileblocks}
use operation_system_proj_c.Filesys.Disk.{DiskApi}
use operation_system_proj_c.Filesys.Lookup.{dir_type}
use operation_system_proj_c.Filesys.Lookup.Tree.{inode_at, HasBlock, HasEntry, IsInode, root, child}
use operation_system_proj_c.Filesys.Search.{contains}

pub contains-append :
    (b : ℕ) (xs ys : List ℕ) → contains b (xs ++ ys) ≡ (contains b xs || contains b ys)
contains-append b [] ys = refl
contains-append b (x ∷ xs) ys = ground (arith, contains-append b xs ys)

pub contains-head : (b : ℕ) (xs : List ℕ) → contains b (b ∷ xs) ≡ true
contains-head b xs = rw (==-refl b) refl

-- The inodes that the used entries of a block point to.
abbrev pub pointers : List Direntry → List ℕ
pointers [] = []
pointers (e ∷ es) = if e.inode_block == 0 then pointers es else e.inode_block ∷ pointers es

pub contains-pointers :
    (x : ℕ) (es : List Direntry)
    → contains x (pointers es) ≡ true
    → (j : ℕ) × (e : Direntry) × (get_elem? es j ≡ some e) × (e.inode_block ≡ x) × (x ≢ 0)
contains-pointers x [] h = cc h
contains-pointers x (e ∷ es) h = elim (Bool-cases (e.inode_block == 0)) [
  | inl z ↦ let (j, f, at, eq, ne) = contains-pointers x es (rw z at h) in (suc j, f, at, eq, ne)
  | inr z ↦ elim (Bool-cases (x == e.inode_block)) [
    | inl t ↦ (zero, e, refl, ground (arith, t), ground (arith, t, z))
    | inr f ↦
        let (j, g, at, eq, ne) = contains-pointers x es (rw (z, f) at h) in (suc j, g, at, eq, ne)
  ]
]

pub pointers-contains :
    (x : ℕ) (es : List Direntry) (j : ℕ) (e : Direntry)
    → get_elem? es j ≡ some e
    → e.inode_block ≡ x
    → x ≢ 0
    → contains x (pointers es) ≡ true
pointers-contains x [] j e at eq ne = cc at
pointers-contains x (f ∷ es) zero e at eq ne =
    let same : f.inode_block ≡ x =
      ap (λ (o : Option Direntry). elim o [ none ↦ x | some y ↦ y.inode_block ]) at ∙ eq in
    let used : (f.inode_block == 0) ≡ false = ground (arith, same, ne) in
    rw (used, same, ==-refl x) refl
pointers-contains x (f ∷ es) (suc j) e at eq ne =
    let rest = pointers-contains x es j e at eq ne in
    elim (Bool-cases (f.inode_block == 0)) [
      | inl z ↦ rw z rest
      | inr z ↦ rw z (ground (arith, rest))
    ]

-- What `f` gives for `i`, `i + 1`, …, `n` of them.
abbrev pub gather : (ℕ → List ℕ) → ℕ → ℕ → List ℕ
gather f i zero = []
gather f i (suc n) = f i ++ gather f (i + 1) n

pub contains-gather :
    (x : ℕ) (f : ℕ → List ℕ) (i n : ℕ)
    → contains x (gather f i n) ≡ true
    → (k : ℕ) × (i ≤ k) × (k < i + n) × (contains x (f k) ≡ true)
contains-gather x f i zero h = cc h
contains-gather x f i (suc n) h = elim (Bool-cases (contains x (f i))) [
  | inl t ↦ (i, omega arith, omega arith, t)
  | inr e ↦
      let later : contains x (gather f (i + 1) n) ≡ true =
        ground (arith, h, e, contains-append x (f i) (gather f (i + 1) n)) in
      let (k, low, high, at) = contains-gather x f (i + 1) n later in
      (k, omega (arith, low), omega (arith, high), at)
]

pub gather-contains :
    (x : ℕ) (f : ℕ → List ℕ) (i n k : ℕ)
    → i ≤ k
    → k < i + n
    → contains x (f k) ≡ true
    → contains x (gather f i n) ≡ true
gather-contains x f i zero k low high h = absurd (omega (arith, low, high))
gather-contains x f i (suc n) k low high h = elim (Bool-cases (i == k)) [
  | inl t ↦
      let same : k ≡ i = ground (arith, t) in
      let first : contains x (f i) ≡ true = subst (λ j. contains x (f j) ≡ true) same h in
      ground (arith, first, contains-append x (f i) (gather f (i + 1) n))
  | inr e ↦
      let later =
        gather-contains x f (i + 1) n k (ground (arith, e, low)) (omega (arith, high)) h in
      ground (arith, later, contains-append x (f i) (gather f (i + 1) n))
]

pub get_or-some : (xs : List ℕ) (k b : ℕ) → get_elem? xs k ≡ some b → get_or xs k 0 ≡ b
get_or-some [] k b h = cc h
get_or-some (x ∷ xs) zero b h = ground (arith, h)
get_or-some (x ∷ xs) (suc k) b h = get_or-some xs k b h

pub get_elem?-get_or : (xs : List ℕ) (k : ℕ) → k < length xs → get_elem? xs k ≡ some (get_or xs k 0)
get_elem?-get_or [] k h = absurd (omega (arith, h))
get_elem?-get_or (x ∷ xs) zero h = refl
get_elem?-get_or (x ∷ xs) (suc k) h = get_elem?-get_or xs k (omega (arith, h))

-- The block numbers in the array of an inode; the default is not seen, since the number is below the
-- length.
abbrev pub name_at : List ℕ → ℕ → List ℕ
name_at blocks k = get_or blocks k 0 ∷ []

module _ ⦃api : DiskApi⦄ where
  open api use {Disk, read, as_direntries, length-blocks}

  -- What the entries in a block of a directory point to.
  abbrev pub pointers_at : Disk → List ℕ → ℕ → List ℕ
  pointers_at d blocks k = pointers (as_direntries (read d (get_or blocks k 0)))

  -- The inodes that the directory in block `c` points to.
  abbrev pub children : Disk → ℕ → List ℕ
  children d c = gather (pointers_at d (inode_at d c).blocks) 0 (inode_at d c).size

  -- The entry chains from one inode to another.
  pub data Chain (d : Disk) : ℕ → ℕ → Type 0 where
    here : {c : ℕ} → Chain d c c
    down :
        {c x y : ℕ} {name : List ℕ}
        → (inode_at d c).type ≡ dir_type
        → HasEntry d (inode_at d c) name x
        → Chain d x y
        → Chain d c y

  Chain-trans : (d : Disk) {a b c : ℕ} → Chain d a b → Chain d b c → Chain d a c
  Chain-trans d here q = q
  Chain-trans d (down t e p) q = down t e (Chain-trans d p q)

  pub IsInode-Chain : (d : Disk) {b : ℕ} → IsInode d b → Chain d root_inode b
  IsInode-Chain d root = here
  IsInode-Chain d (child p t e) = Chain-trans d (IsInode-Chain d p) (down t e here)

  -- A block is used: it holds an inode, or an inode names it.
  pub data IsUsed (d : Disk) : ℕ → Type 0 where
    inode : {b : ℕ} → IsInode d b → IsUsed d b
    named : {c k b : ℕ} → IsInode d c → HasBlock (inode_at d c) k b → IsUsed d b

  -- The lists above, and the predicates.
  pub name-HasBlock :
      (d : Disk) (c b : ℕ)
      → (inode_at d c).size ≤ fs_maxfileblocks
      → contains b (gather (name_at (inode_at d c).blocks) 0 (inode_at d c).size) ≡ true
      → (k : ℕ) × HasBlock (inode_at d c) k b
  name-HasBlock d c b fits h =
      let i = inode_at d c in
      let (k, low, high, at) = contains-gather b (name_at i.blocks) 0 i.size h in
      let same : get_or i.blocks k 0 ≡ b = ground (arith, at) in
      let room =
        get_elem?-get_or i.blocks k (omega (arith, high, fits, length-blocks (read d c))) in
      (k, (omega (arith, high), room ∙ ap some same))

  pub HasBlock-name :
      (d : Disk) (c k b : ℕ)
      → HasBlock (inode_at d c) k b
      → contains b (gather (name_at (inode_at d c).blocks) 0 (inode_at d c).size) ≡ true
  HasBlock-name d c k b h =
      let i = inode_at d c in
      gather-contains b (name_at i.blocks) 0 i.size k (omega arith) (omega (arith, h.0))
        (rw (get_or-some i.blocks k b h.1, ==-refl b) refl)

  pub child-HasEntry :
      (d : Disk) (c x : ℕ)
      → (inode_at d c).size ≤ fs_maxfileblocks
      → contains x (children d c) ≡ true
      → (name : List ℕ) × HasEntry d (inode_at d c) name x
  child-HasEntry d c x fits h =
      let i = inode_at d c in
      let (k, low, high, at) = contains-gather x (pointers_at d i.blocks) 0 i.size h in
      let b = get_or i.blocks k 0 in
      let (j, e, place, points, used) = contains-pointers x (as_direntries (read d b)) at in
      (
        e.name,
        record {
          k = k;
          b = b;
          j = j;
          entry = e;
          block = (
            omega (arith, high),
            get_elem?-get_or i.blocks k (omega (arith, high, fits, length-blocks (read d c))),
          );
          place = place;
          named = refl;
          points = points;
          used = used;
        },
      )

  pub HasEntry-child :
      (d : Disk) (c x : ℕ) {name : List ℕ}
      → HasEntry d (inode_at d c) name x
      → contains x (children d c) ≡ true
  HasEntry-child d c x e =
      let i = inode_at d c in
      gather-contains x (pointers_at d i.blocks) 0 i.size e.k (omega arith)
        (omega (arith, e.block.0))
        (rw (get_or-some i.blocks e.k e.b e.block.1)
          (pointers-contains x (as_direntries (read d e.b)) e.j e.entry e.place e.points e.used))
