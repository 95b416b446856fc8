-- ===== src/Filesys/Delete/Locating.antt =====
-- filesys/file_system.cpp: the two loops with which `handle_delete` looks for the entry.
use operation_system_proj_c.Prelude.{
  ℕ, zero, suc, ◌+◌, ◌≡◌, ◌≢◌, ◌⊎◌, inl, inr, refl, ap, subst, ◌∙◌, Bool-cases, none, some, List,
  [], ◌∷◌, get_elem?, get_elem?-some, not, ◌&&◌, ◌==◌, arith, length,
}
use operation_system_proj_c.Filesys.Types.{Direntry, Inode, str_eq, str_eq_iff, fs_maxfileblocks}
use operation_system_proj_c.Filesys.Disk.{DiskApi}
use operation_system_proj_c.Filesys.Monad.{Fs, returns, index}
use operation_system_proj_c.Filesys.Delete.{Found, locate_entry, locate}
use operation_system_proj_c.Filesys.Lookup.Tree.{HasBlock, HasEntry, BlocksFit}
use operation_system_proj_c.Filesys.Lookup.Find.{read_direntries_lem}

-- No used entry of the list has the name.
abbrev NoName : List ℕ → List Direntry → Type 0
NoName name es =
    (j : ℕ) (e : Direntry) → get_elem? es j ≡ some e → e.inode_block ≢ 0 → e.name ≢ name

NoName-more :
    (name : List ℕ) (e : Direntry) (es : List Direntry)
    → (e.inode_block ≢ 0 → e.name ≢ name)
    → NoName name es
    → NoName name (e ∷ es)
NoName-more name e es first rest zero x at =
    let same : e ≡ x = cc at in
    subst (λ (y : Direntry). y.inode_block ≢ 0 → y.name ≢ name) same first
NoName-more name e es first rest (suc j) x at = rest j x at

locate_entry-cases :
    (name : List ℕ) (j : ℕ) (es : List Direntry)
    → ((locate_entry name j es ≡ none) × NoName name es)
      ⊎ ((x : ℕ) × (e : Direntry) × (locate_entry name j es ≡ some (j + x, e.inode_block))
          × (get_elem? es x ≡ some e)
          × (e.inode_block ≢ 0)
          × (e.name ≡ name))
unfolding locate_entry
locate_entry-cases name j [] = inl (refl, λ x e h. cc h)
locate_entry-cases name j (e ∷ es) =
    elim (Bool-cases (not (e.inode_block == 0) && str_eq e.name name)) [
      | inl hit ↦
          let place : j ≡ j + 0 = omega arith in
          inr (
            0,
            e,
            rw hit (ap (λ k. some (k, e.inode_block)) place),
            refl,
            ground (arith, hit),
            ground (arith, hit, str_eq_iff e.name name),
          )
      | inr miss ↦
          let other : e.inode_block ≢ 0 → e.name ≢ name =
            λ used q. ground (arith, miss, str_eq_iff e.name name, q, used) in
          rw miss (elim (locate_entry-cases name (j + 1) es) [
            | inl (run, none_named) ↦ inl (run, NoName-more name e es other none_named)
            | inr (x, y, run, at, used, named) ↦
                let place : j + 1 + x ≡ j + suc x = omega arith in
                inr (suc x, y, run ∙ ap (λ k. some (k, y.inode_block)) place, at, used, named)
          ])
    ]

module _ ⦃api : DiskApi⦄ where
  open api use {Disk, read, as_direntries, length-blocks}

  -- The place of a used entry of that name in the directory.
  pub record IsFound (d : Disk) (i : Inode) (name : List ℕ) (f : Found) : Type 0 where
    pub b : ℕ
    pub entry : Direntry
    pub block : HasBlock i f.dir_block_index b
    pub content : f.dir_block ≡ as_direntries (read d b)
    pub place : get_elem? f.dir_block f.dir_entry_index ≡ some entry
    pub named : entry.name ≡ name
    pub points : entry.inode_block ≡ f.child_inode_block
    pub used : f.child_inode_block ≢ 0

  pub IsFound-HasEntry :
      (d : Disk) (i : Inode) (name : List ℕ) (f : Found)
      → IsFound d i name f
      → HasEntry d i name f.child_inode_block
  IsFound-HasEntry d i name f h = record {
    k = f.dir_block_index;
    b = h.b;
    j = f.dir_entry_index;
    entry = h.entry;
    block = h.block;
    place = subst (λ es. get_elem? es f.dir_entry_index ≡ some h.entry) h.content h.place;
    named = h.named;
    points = h.points;
    used = h.used;
  }

  -- The search ends with a used entry of the name, or with none; it changes nothing and stays inside the
  -- arrays and the disk.
  pub locate-cases :
      (name : List ℕ) (i : Inode) (k n : ℕ) (s : Fs Disk)
      → BlocksFit i
      → length i.blocks ≡ fs_maxfileblocks
      → k + n ≡ i.size
      → (locate name i k n s ≡ (returns none, s))
        ⊎ ((f : Found) × (locate name i k n s ≡ (returns (some f), s)) × IsFound s.disk i name f)
  unfolding locate index
  locate-cases name i k zero s fit len e = inl refl
  locate-cases name i k (suc n) s fit len e =
      let (b, at) = get_elem?-some i.blocks k (omega (arith, fit.size, e, len)) in
      let block : HasBlock i k b = (omega (arith, e), at) in
      let load = read_direntries_lem b s (fit.blocks k b block) in
      let tmp = as_direntries (read s.disk b) in
      elim (locate_entry-cases name 0 tmp) [
        | inl (run, none_named) ↦
            let next : locate name i k (suc n) s ≡ locate name i (k + 1) n s =
              ground (arith, at, load, run) in
            elim (locate-cases name i (k + 1) n s fit len (omega (arith, e))) [
              | inl run2 ↦ inl (next ∙ run2)
              | inr (f, run2, here) ↦ inr (f, next ∙ run2, here)
            ]
        | inr (x, y, run, there, used, named) ↦
            let f : Found = record {
              child_inode_block = y.inode_block;
              dir_block_index = k;
              dir_entry_index = x;
              dir_block = tmp;
            } in
            let place : 0 + x ≡ x = omega arith in
            let run' : locate_entry name 0 tmp ≡ some (x, y.inode_block) =
              run ∙ ap (λ q. some (q, y.inode_block)) place in
            let stop : locate name i k (suc n) s ≡ (returns (some f), s) =
              ground (arith, at, load, run') in
            inr (
              f,
              stop,
              record {
                b = b;
                entry = y;
                block = block;
                content = refl;
                place = there;
                named = named;
                points = refl;
                used = used;
              },
            )
      ]
