-- ===== src/Filesys/Create/Scanning.antt =====
-- filesys/file_system.cpp: the two loops with which `handle_create` looks through the directory.
use operation_system_proj_c.Prelude.{
  ℕ, zero, suc, ◌+◌, ◌≤◌, ◌≡◌, ◌≢◌, ◌⊎◌, inl, inr, refl, sym, ap, subst, ◌∙◌, Bool-cases, some,
  Bool, true, List, [], ◌∷◌, get_elem?, get_elem?-some, ◌==◌, arith, length,
}
use operation_system_proj_c.Filesys.Types.{Direntry, Inode, str_eq, str_eq_iff, fs_maxfileblocks}
use operation_system_proj_c.Filesys.Disk.{DiskApi}
use operation_system_proj_c.Filesys.Monad.{Fs, upgrade, returns, throws, path_exists, index}
use operation_system_proj_c.Filesys.Locks.{unlock_inode_upgrade}
use operation_system_proj_c.Filesys.Locks.Balance.{
  LockState, IsIdle, relock, acquire, unlock_inode-acquire,
}
use operation_system_proj_c.Filesys.Lookup.Tree.{HasBlock, HasEntry, BlocksFit}
use operation_system_proj_c.Filesys.Lookup.Find.{read_direntries_lem}
use operation_system_proj_c.Filesys.Create.{Slot, take_slot, scan_entries, scan_blocks}
use operation_system_proj_c.Filesys.Create.Searching.{
  Vacant, Searched, Searched-more, Searched-later, take_slot-Vacant,
}

module _ ⦃api : DiskApi⦄ where
  open api use {Disk, read, as_direntries, length-blocks}

  module _ (target : List ℕ) (parent : ℕ) (l : LockState) (s : Fs Disk) (room : IsIdle l) where
    abbrev locked : Fs Disk
    locked = relock (acquire upgrade parent l) s

    scan_entries-cases :
        (i : Inode) (k b j : ℕ) (es : List Direntry) (slot : Slot)
        → HasBlock i k b
        → ((x : ℕ) → get_elem? es x ≡ get_elem? (as_direntries (read s.disk b)) (j + x))
        → Vacant s.disk i slot
        → ((slot' : Slot) × (scan_entries target parent b
                (as_direntries (read s.disk b))
                j
                es
                slot
                locked
              ≡ (returns slot', locked))
            × Vacant s.disk i slot'
            × Searched target slot'.is_empty_direntry es
            × (slot.is_empty_direntry ≡ true → slot'.is_empty_direntry ≡ true))
          ⊎ ((scan_entries target parent b (as_direntries (read s.disk b)) j es slot locked
                ≡ (throws path_exists, relock l s))
              × ((x : ℕ) × (e : Direntry) × (get_elem? es x ≡ some e)
                  × (e.inode_block ≢ 0)
                  × (e.name ≡ target)))
    unfolding scan_entries unlock_inode_upgrade
    scan_entries-cases i k b j [] slot block at vacant =
        inl (slot, refl, vacant, (λ x e h. cc h), λ t. t)
    scan_entries-cases i k b j (e ∷ es) slot block at vacant =
        let tmp = as_direntries (read s.disk b) in
        let later : (x : ℕ) → get_elem? es x ≡ get_elem? tmp (j + 1 + x) = λ x.
          let sum : j + suc x ≡ j + 1 + x = omega arith in
          at (suc x) ∙ ap (λ y. get_elem? tmp y) sum in
        let none : j + 0 ≡ j = omega arith in
        let here : get_elem? tmp j ≡ some e = ap (λ y. get_elem? tmp y) (sym none) ∙ sym (at 0) in
        elim (Bool-cases (e.inode_block == 0)) [
          | inl unused ↦
              let free : e.inode_block ≡ 0 = ground (arith, unused) in
              let (vacant', now) = take_slot-Vacant s.disk i k b j e slot block here free vacant in
              rw unused
                (elim (scan_entries-cases i k b (j + 1) es (take_slot b tmp j slot) block later
                  vacant') [
                    | inl (slot', run, fits, none_named, kept) ↦ inl (
                      slot',
                      run,
                      fits,
                      Searched-more target slot'.is_empty_direntry e es
                          ((λ used. absurd (used free)), λ _. kept now) none_named,
                      λ _. kept now,
                    )
                    | inr (run, (x, y, there, used, named)) ↦
                        inr (run, (suc x, y, there, used, named))
                  ])
          | inr used ↦ rw used (elim (Bool-cases (str_eq e.name target)) [
            | inl same ↦
                let back = unlock_inode-acquire s upgrade parent l room in
                rw (same, back)
                  (inr (
                    refl,
                    (
                      0,
                      e,
                      refl,
                      ground (arith, used),
                      ground (arith, same, str_eq_iff e.name target),
                    ),
                  ))
            | inr other ↦
                let differs : e.name ≢ target =
                  λ q. ground (arith, other, str_eq_iff e.name target, q) in
                rw other (elim (scan_entries-cases i k b (j + 1) es slot block later vacant) [
                  | inl (slot', run, fits, none_named, kept) ↦ inl (
                    slot',
                    run,
                    fits,
                    Searched-more target slot'.is_empty_direntry e es
                        ((λ _. differs), λ z. absurd (ground (arith, used, z))) none_named,
                    kept,
                  )
                  | inr (run, (x, y, there, u, named)) ↦ inr (run, (suc x, y, there, u, named))
                ])
          ])
        ]

    -- No block of the directory from number `k` on has a used entry of the name, and `taken` says
    -- whether one has an unused entry.
    abbrev SearchedFrom : Inode → ℕ → Bool → Type 0
    SearchedFrom i k taken =
        (x b : ℕ) → k ≤ x → HasBlock i x b → Searched target taken (as_direntries (read s.disk b))

    SearchedFrom-more :
        (i : Inode) (k b : ℕ) (taken : Bool)
        → get_elem? i.blocks k ≡ some b
        → Searched target taken (as_direntries (read s.disk b))
        → SearchedFrom i (k + 1) taken
        → SearchedFrom i k taken
    SearchedFrom-more i k b taken at first rest x c h block = elim (Bool-cases (k == x)) [
      | inl e ↦
          let same : k ≡ x = ground (arith, e) in
          let both : some b ≡ some c = sym at ∙ ap (λ y. get_elem? i.blocks y) same ∙ block.1 in
          let blocks : b ≡ c = cc both in
          subst (λ y. Searched target taken (as_direntries (read s.disk y))) blocks first
      | inr e ↦ rest x c (ground (arith, h, e)) block
    ]

    pub scan_blocks-cases :
        (i : Inode) (k n : ℕ) (slot : Slot)
        → BlocksFit i
        → length i.blocks ≡ fs_maxfileblocks
        → k + n ≡ i.size
        → Vacant s.disk i slot
        → ((slot' : Slot) × (scan_blocks target parent i k n slot locked ≡ (returns slot', locked))
            × Vacant s.disk i slot'
            × SearchedFrom i k slot'.is_empty_direntry
            × (slot.is_empty_direntry ≡ true → slot'.is_empty_direntry ≡ true))
          ⊎ ((scan_blocks target parent i k n slot locked ≡ (throws path_exists, relock l s))
              × ((c : ℕ) × HasEntry s.disk i target c))
    unfolding scan_blocks index
    scan_blocks-cases i k zero slot fit len e vacant =
        inl (slot, refl, vacant, (λ x b h block. absurd (omega (arith, e, h, block.0))), λ t. t)
    scan_blocks-cases i k (suc n) slot fit len e vacant =
        let (b, at) = get_elem?-some i.blocks k (omega (arith, fit.size, e, len)) in
        let block : HasBlock i k b = (omega (arith, e), at) in
        let load = read_direntries_lem b locked (fit.blocks k b block) in
        let tmp = as_direntries (read s.disk b) in
        elim (scan_entries-cases i k b 0 tmp slot block
          (λ x. let sum : x ≡ 0 + x = omega arith in ap (λ y. get_elem? tmp y) sum) vacant) [
            | inr (run, (x, y, there, used, named)) ↦
                let stop : scan_blocks target parent i k (suc n) slot locked
                    ≡ (throws path_exists, relock l s) =
                  ground (arith, at, load, run) in
                inr (
                  stop,
                  (
                    y.inode_block,
                    record {
                      k = k;
                      b = b;
                      j = x;
                      entry = y;
                      block = block;
                      place = there;
                      named = named;
                      points = refl;
                      used = used;
                    },
                  ),
                )
            | inl (slot', run, fits, none_named, kept) ↦
                let next : scan_blocks target parent i k (suc n) slot locked
                    ≡ scan_blocks target parent i (k + 1) n slot' locked =
                  ground (arith, at, load, run) in
                elim (scan_blocks-cases i (k + 1) n slot' fit len (omega (arith, e)) fits) [
                  | inl (slot2, run2, fits2, none_left, kept2) ↦
                      let first =
                        Searched-later target slot'.is_empty_direntry slot2.is_empty_direntry tmp
                          kept2 none_named in
                      inl (
                        slot2,
                        next ∙ run2,
                        fits2,
                        SearchedFrom-more i k b slot2.is_empty_direntry at first none_left,
                        λ t. kept2 (kept t),
                      )
                  | inr (run2, entry) ↦ inr (next ∙ run2, entry)
                ]
          ]
