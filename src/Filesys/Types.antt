-- ===== src/Filesys/Types.antt =====
-- filesys/fs_param.h, fs_server.h, utils.h, file_system.h: constants, the structures on the disk,
-- and requests. A character is its code; a text is a list of codes, without the final NUL.
use operation_system_proj_c.Prelude.{
  ℕ, ◌≡◌, ◌↔◌, Bool, true, false, List, [], ◌∷◌, ◌&&◌, ◌==◌, arith,
}

abbrev pub fs_maxfileblocks : ℕ
fs_maxfileblocks = 124

abbrev pub fs_maxfilename : ℕ
fs_maxfilename = 59

abbrev pub fs_maxpathname : ℕ
fs_maxpathname = 128

abbrev pub fs_maxusername : ℕ
fs_maxusername = 10

abbrev pub fs_disksize : ℕ
fs_disksize = 4096

abbrev pub fs_direntries : ℕ
fs_direntries = 8

-- FS_DISKSIZE + 1
abbrev pub undefined_block : ℕ
undefined_block = 4097

abbrev pub root_inode : ℕ
root_inode = 0

-- `struct fs_direntry`
pub record Direntry : Type 0 where
  pub name : List ℕ
  pub inode_block : ℕ

-- `struct fs_inode`
pub record Inode : Type 0 where
  pub type : ℕ
  pub owner : List ℕ
  pub size : ℕ
  pub blocks : List ℕ

pub data CommandType : Type 0 where
  fs_readblock fs_writeblock fs_create fs_delete invalid : CommandType

-- `struct Command`, less `data`, which only a write has and which is an argument there.
pub record Command : Type 0 where
  pub command_type : CommandType
  pub username : List ℕ
  pub pathname : List ℕ
  pub block : ℕ
  pub type : ℕ

-- Equality of texts: `strcmp(a, b) == 0`, and `==` on strings.
unfoldable pub str_eq : List ℕ → List ℕ → Bool
str_eq [] [] = true
str_eq [] (y ∷ ys) = false
str_eq (x ∷ xs) [] = false
str_eq (x ∷ xs) (y ∷ ys) = x == y && str_eq xs ys

pub str_eq_iff : (a b : List ℕ) → (str_eq a b ≡ true) ↔ (a ≡ b)
unfolding str_eq
str_eq_iff [] [] = ground arith
str_eq_iff [] (y ∷ ys) = ground arith
str_eq_iff (x ∷ xs) [] = ground arith
str_eq_iff (x ∷ xs) (y ∷ ys) = ground (arith, str_eq_iff xs ys)
