-- ===== src/Filesys/RamDisk.antt =====
-- filesys/: a disk in memory, on which the theorems about the file system can be applied. It shows
-- that the laws of the disk can hold; it models no code.
use operation_system_proj_c.Prelude.{
  ℕ, zero, suc, ◌≡◌, refl, ap, List, [], ◌∷◌, arith, length, update,
}
use operation_system_proj_c.Filesys.Types.{Direntry, Inode, fs_direntries, fs_maxfileblocks}
use operation_system_proj_c.Filesys.Disk.{DiskApi}

-- A block keeps what was put in last.
pub data Block : Type 0 where
  inode : Inode → Block
  entries : List Direntry → Block
  bytes : ℕ → Block

-- `n` elements of the list, with `a` behind its end.
abbrev pub pad : {A : Type 0} → A → ℕ → List A → List A
pad a zero xs = []
pad a (suc n) [] = a ∷ pad a n []
pad a (suc n) (x ∷ xs) = x ∷ pad a n xs

pub length-pad : {A : Type 0} (a : A) (n : ℕ) (xs : List A) → length (pad a n xs) ≡ n
length-pad a zero xs = refl
length-pad a (suc n) [] = ap suc (length-pad a n [])
length-pad a (suc n) (x ∷ xs) = ap suc (length-pad a n xs)

pub pad-length : {A : Type 0} (a : A) (n : ℕ) (xs : List A) → length xs ≡ n → pad a n xs ≡ xs
pad-length a zero [] h = refl
pad-length a zero (x ∷ xs) h = ground (arith, h)
pad-length a (suc n) [] h = ground (arith, h)
pad-length a (suc n) (x ∷ xs) h = ap (λ t. x ∷ t) (pad-length a n xs (omega (arith, h)))

abbrev pub blank_entry : Direntry
blank_entry = record { name = []; inode_block = 0 }

abbrev pub fit_inode : Inode → Inode
fit_inode i = record i { blocks = pad 0 fs_maxfileblocks i.blocks }

abbrev pub blank_inode : Inode
blank_inode = record { type = 0; owner = []; size = 0; blocks = [] }

abbrev pub load_inode : Block → Inode
load_inode (inode i) = fit_inode i
load_inode (entries es) = fit_inode blank_inode
load_inode (bytes n) = fit_inode blank_inode

abbrev pub load_direntries : Block → List Direntry
load_direntries (inode i) = pad blank_entry fs_direntries []
load_direntries (entries es) = pad blank_entry fs_direntries es
load_direntries (bytes n) = pad blank_entry fs_direntries []

pub length-load_inode : (x : Block) → length (load_inode x).blocks ≡ fs_maxfileblocks
length-load_inode (inode i) = length-pad {A = ℕ} 0 fs_maxfileblocks i.blocks
length-load_inode (entries es) = length-pad {A = ℕ} 0 fs_maxfileblocks []
length-load_inode (bytes n) = length-pad {A = ℕ} 0 fs_maxfileblocks []

pub length-load_direntries : (x : Block) → length (load_direntries x) ≡ fs_direntries
length-load_direntries (inode i) = refl
length-load_direntries (entries es) = length-pad blank_entry fs_direntries es
length-load_direntries (bytes n) = refl

instance abbrev pub ram_disk : DiskApi
ram_disk = record {
  Disk = ℕ → Block;
  Block = Block;
  read = λ d b. d b;
  write = λ d b x. update d b x;
  as_inode = load_inode;
  of_inode = inode;
  as_direntries = load_direntries;
  of_direntries = entries;
  uninitialized = pad 0 fs_maxfileblocks [];
  read-write_self = λ d b x h. ground arith;
  read-write_ne = λ d b c x h n. ground (arith, n);
  as_inode-of_inode =
      λ i h. ap (λ bs. record i { blocks = bs }) (pad-length 0 fs_maxfileblocks i.blocks h.blocks);
  as_direntries-of_direntries = λ es h fits. pad-length blank_entry fs_direntries es h;
  length-blocks = length-load_inode;
  length-as_direntries = length-load_direntries;
  length-uninitialized = length-pad {A = ℕ} 0 fs_maxfileblocks [];
}
