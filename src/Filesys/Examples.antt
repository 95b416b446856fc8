-- ===== src/Filesys/Examples.antt =====
-- filesys/: an image with one file, on which the theorems about requests apply.
use operation_system_proj_c.Prelude.{
  ◌++◌, some, ℕ, zero, suc, ◌≡◌, ◌≢◌, ◌<◌, ◌⊎◌, inl, inr, refl, ap, sym, subst, ◌∙◌, List, [], ◌∷◌,
  arith, get_elem?, some, none,
}
use operation_system_proj_c.Filesys.Types.{
  Direntry, Inode, Command, fs_writeblock, fs_create, fs_delete, fs_disksize,
}
use operation_system_proj_c.Filesys.Monad.{Fs}
use operation_system_proj_c.Filesys.Monad.Ends.{Ends}
use operation_system_proj_c.Filesys.Locks.Balance.{IsIdle, locks}
use operation_system_proj_c.Filesys.Path.{ends_in_slash}
use operation_system_proj_c.Filesys.Path.Names.{IsPath}
use operation_system_proj_c.Filesys.Lookup.{dir_type, file_type}
use operation_system_proj_c.Filesys.Lookup.Tree.{
  inode_at, HasEntry, IsInode, root, child, NoSelfEntry, BlocksFit, WellFormed,
}
use operation_system_proj_c.Filesys.Lookup.Resolve.{Resolves}
use operation_system_proj_c.Filesys.ReadWrite.{handle_read, handle_write}
use operation_system_proj_c.Filesys.ReadWrite.Reading.{ReadFrom, ReadRefused, handle_read-Ends}
use operation_system_proj_c.Filesys.ReadWrite.Steps.{AllBelow}
use operation_system_proj_c.Filesys.ReadWrite.Writing.{WrittenTo, WriteRefused, handle_write-Ends}
use operation_system_proj_c.Filesys.Request.{
  readblock_text, writeblock_text, skip_spaces, take_word,
}
use operation_system_proj_c.Filesys.Request.Accepted.{HasCommand}
use operation_system_proj_c.Filesys.Server.{serve_write}
use operation_system_proj_c.Filesys.Server.Serving.{Effect, serve_write-Ends}
use operation_system_proj_c.Filesys.Monad.{returns}
use operation_system_proj_c.Filesys.Search.{new_file_system}
use operation_system_proj_c.Filesys.Search.Loop.{HasType}
use operation_system_proj_c.Filesys.Search.Rounds.{Forest, leaf, node}
use operation_system_proj_c.Filesys.Search.Free.{IsFree, unmounted, new_file_system-IsFree}
use operation_system_proj_c.Filesys.RamDisk.{
  Block, inode, entries, bytes, ram_disk, blank_entry, pad,
}

abbrev pub user : List ℕ
user = b'u' ∷ []

-- Block 0: the root, which has one block of entries, block 1, with the file `f` in block 2. The
-- file has one block, block 3.
abbrev pub image : ℕ → Block
image zero = inode (record { type = dir_type; owner = []; size = 1; blocks = 1 ∷ [] })
image (suc zero) = entries (record { name = b'f' ∷ []; inode_block = 2 } ∷ [])
image (suc (suc zero)) =
    inode (record { type = file_type; owner = user; size = 1; blocks = 3 ∷ [] })
image (suc (suc (suc n))) = bytes 42

abbrev pub server : Fs (ℕ → Block)
server = record { disk = image; free_block_list = 4 ∷ 5 ∷ []; lock_map = λ b. none; held = [] }

-- Block 1 of the file `/f`, of the user `u`: the first one behind its end.
abbrev pub append_command : Command
append_command = record {
  command_type = fs_writeblock;
  username = user;
  pathname = b'/' ∷ b'f' ∷ [];
  block = 1;
  type = 0;
}

abbrev pub read_command : Command
read_command = record append_command { block = 0 }

blanks_unused :
    (n j : ℕ) (e : Direntry) → get_elem? (pad blank_entry n []) j ≡ some e → e.inode_block ≡ 0
blanks_unused zero j e h = ground (arith, h)
blanks_unused (suc n) zero e h = ground (arith, h)
blanks_unused (suc n) (suc j) e h = blanks_unused n j e h

only_f :
    (j : ℕ) (e : Direntry)
    → get_elem? (pad blank_entry 8 (record { name = b'f' ∷ []; inode_block = 2 } ∷ [])) j ≡ some e
    → e.inode_block ≢ 0
    → e.inode_block ≡ 2
only_f zero e h n = ground (arith, h)
only_f (suc j) e h n = absurd (n (blanks_unused 7 j e h))

only_block : (x k b : ℕ) → k < 1 → get_elem? (pad 0 124 (x ∷ [])) k ≡ some b → b ≡ x
only_block x zero b h e = ground (arith, e)
only_block x (suc k) b h e = omega (arith, h)

image-entry : (name : List ℕ) (c : ℕ) → HasEntry image (inode_at image 0) name c → c ≡ 2
image-entry name c h =
    let first : h.b ≡ 1 = only_block 1 h.k h.b h.block.0 h.block.1 in
    let at =
      subst (λ b. get_elem? (ram_disk.as_direntries (image b)) h.j ≡ some h.entry) first h.place in
    let two = only_f h.j h.entry at (λ z. h.used (sym h.points ∙ z)) in sym h.points ∙ two

inodes : (b : ℕ) → IsInode image b → (b ≡ 0) ⊎ (b ≡ 2)
inodes b root = inl refl
inodes c (child {b} {name = name} i d h) = elim (inodes b i) [
  | inl e ↦ inr (image-entry name c (subst (λ x. HasEntry image (inode_at image x) name c) e h))
  | inr e ↦ ground (arith, subst (λ x. (inode_at image x).type ≡ dir_type) e d)
]

BlocksFit-one :
    (x : ℕ) (i : Inode) → i.size ≡ 1 → i.blocks ≡ pad 0 124 (x ∷ []) → x < fs_disksize → BlocksFit i
BlocksFit-one x i size blocks h = record {
  size = omega (arith, size);
  blocks = λ k b at.
      let e =
        only_block x k b (omega (arith, at.0, size))
          (ap (λ l. get_elem? l k) (sym blocks) ∙ at.1) in
      omega (arith, e, h);
}

pub image-WellFormed : WellFormed image
image-WellFormed b i = elim (inodes b i) [
  | inl e ↦ (
    omega (arith, e),
    subst (λ x. BlocksFit (inode_at image x)) (sym e)
        (BlocksFit-one 1 (inode_at image 0) refl refl (omega arith)),
  )
  | inr e ↦ (
    omega (arith, e),
    subst (λ x. BlocksFit (inode_at image x)) (sym e)
        (BlocksFit-one 3 (inode_at image 2) refl refl (omega arith)),
  )
]

pub server-IsIdle : IsIdle (locks server)
server-IsIdle = record { nothing_held = refl; counts = λ b n h. ground (arith, h) }

pub image-NoSelfEntry : NoSelfEntry image
image-NoSelfEntry b name i d h = elim (inodes b i) [
  | inl e ↦
      let at = image-entry name b (subst (λ x. HasEntry image (inode_at image x) name b) e h) in
      ground (arith, e, at)
  | inr e ↦ ground (arith, subst (λ x. (inode_at image x).type ≡ dir_type) e d)
]

name_f-IsPath : IsPath (b'/' ∷ b'f' ∷ [])
unfolding ends_in_slash
name_f-IsPath = record { absolute = refl; no_end = refl; no_double = (λ _. ground arith, tt) }

pub free-AllBelow : AllBelow fs_disksize server.free_block_list
free-AllBelow = (omega arith, (omega arith, tt))

handle_read-Ends_example :
    Ends
      (λ content s'.
        (s' ≡ server)
        × ((target : ℕ) × Resolves image user (b'/' ∷ b'f' ∷ []) target
            × ReadFrom image read_command target content))
      (λ s'. (s' ≡ server) × ReadRefused read_command server)
      ⊥
      (handle_read read_command server)
handle_read-Ends_example =
    handle_read-Ends read_command server image-WellFormed server-IsIdle name_f-IsPath

handle_write-Ends_example :
    Ends
      (λ _ s'.
        (target : ℕ) × Resolves image user (b'/' ∷ b'f' ∷ []) target
        × WrittenTo append_command (bytes 7) target server s')
      (λ s'. (s' ≡ server) × WriteRefused append_command server)
      ⊥
      (handle_write append_command (bytes 7) server)
handle_write-Ends_example =
    handle_write-Ends append_command (bytes 7) server image-WellFormed free-AllBelow server-IsIdle
      name_f-IsPath

abbrev create_command : Command
create_command = record append_command { command_type = fs_create; type = b'f' }

abbrev create_g : Command
create_g = record create_command { pathname = b'/' ∷ b'g' ∷ [] }

abbrev delete_f : Command
delete_f = record append_command { command_type = fs_delete }

-- Blocks 0 and 1 of `/f`, for the user `u`.
abbrev pub read_text : List ℕ
read_text = readblock_text ++ (b' ' ∷ b'u' ∷ b' ' ∷ b'/' ∷ b'f' ∷ b' ' ∷ b'0' ∷ [])

abbrev pub write_text : List ℕ
write_text = writeblock_text ++ (b' ' ∷ b'u' ∷ b' ' ∷ b'/' ∷ b'f' ∷ b' ' ∷ b'1' ∷ [])

write_text-HasCommand : HasCommand write_text
unfolding skip_spaces take_word
write_text-HasCommand = refl

serve_write-Ends_example :
    Ends
      (λ answer s'. Effect append_command write_text (bytes 7) server answer s')
      (λ _. ⊥)
      ⊥
      (serve_write append_command write_text (some (bytes 7)) server)
serve_write-Ends_example =
    serve_write-Ends append_command write_text (bytes 7) server write_text-HasCommand
      image-WellFormed free-AllBelow server-IsIdle

image-HasType : (c : ℕ) → IsInode image c → HasType (inode_at image c)
image-HasType c i = elim (inodes c i) [
  | inl e ↦ subst (λ x. HasType (inode_at image x)) (sym e) (inr refl)
  | inr e ↦ subst (λ x. HasType (inode_at image x)) (sym e) (inl refl)
]

image-Forest : Forest image (0 ∷ []) 2
image-Forest =
    node {m = 1} {n = 0} (node {m = 0} {n = 0} leaf leaf (omega arith)) leaf (omega arith)

new_file_system-IsFree_example :
    (l : List ℕ) × (new_file_system 3 (unmounted image)
      ≡ (returns (some tt), record (unmounted image) { free_block_list = l }))
    × IsFree image l
new_file_system-IsFree_example =
    new_file_system-IsFree 3 2 image image-WellFormed image-HasType image-Forest (omega arith)
