-- ===== src/Vmpager/Evict/Clock.antt =====
-- vmpager/utils.cpp: which block the clock algorithm chooses, and that it comes to an end.
use operation_system_proj_c.Prelude.{
  ℕ, suc, ◌+◌, ◌≡◌, ◌≢◌, refl, sym, ap, ◌∙◌, true, false, some, List, [], ◌∷◌, ◌++◌, arith, length,
  length-append, count, count-append, update, append-nil, append_assoc, ◌⊎◌, inl, inr, Bool-cases,
  ◌==◌,
}
use operation_system_proj_c.Vmpager.State.{Pager, MemBlock, PageTableEntry, for_entries}
use operation_system_proj_c.Vmpager.Faults.{forbid_all}
use operation_system_proj_c.Vmpager.Evict.{second_chance, find_victim}

-- No block stands twice in the queue.
abbrev pub Distinct : List ℕ → Type 0
Distinct [] = Unit {0}
Distinct (x ∷ xs) = (count x xs ≡ 0) × Distinct xs

abbrev pub AllReferenced : (ℕ → MemBlock) → List ℕ → Type 0
AllReferenced f [] = Unit {0}
AllReferenced f (x ∷ xs) = ((f x).referenced ≡ true) × AllReferenced f xs

abbrev pub clear_one : MemBlock → MemBlock
clear_one m = record m { referenced = false }

-- The blocks after those of a list have lost their reference, and the page tables after.
unfoldable pub clear : List ℕ → (ℕ → MemBlock) → ℕ → MemBlock
clear [] f = f
clear (x ∷ xs) f = clear xs (update f x (clear_one (f x)))

forbid : List ℕ → (ℕ → MemBlock) → (ℕ → ℕ → PageTableEntry) → ℕ → ℕ → PageTableEntry
forbid [] f t = t
forbid (x ∷ xs) f t = forbid xs (update f x (clear_one (f x))) (for_entries (f x).ptes forbid_all t)

-- The state after the clock hand has passed the blocks `xs`.
abbrev passed : {P F : Type 0} → List ℕ → List ℕ → Pager P F → Pager P F
passed xs queue s = record s {
  blocks = clear xs s.blocks;
  page_tables = forbid xs s.blocks s.page_tables;
  clock_queue = queue;
}

rounds : List ℕ → ℕ → ℕ
rounds [] fuel = fuel
rounds (x ∷ xs) fuel = suc (rounds xs fuel)

rounds-length : (xs : List ℕ) (fuel : ℕ) → rounds xs fuel ≡ length xs + fuel
unfolding rounds
rounds-length [] fuel = omega arith
rounds-length (x ∷ xs) fuel = omega (arith, rounds-length xs fuel)

AllReferenced-clear_one :
    (f : ℕ → MemBlock) (x : ℕ) (xs : List ℕ)
    → count x xs ≡ 0
    → AllReferenced f xs
    → AllReferenced (update f x (clear_one (f x))) xs
AllReferenced-clear_one f x [] n r = tt
AllReferenced-clear_one f x (y ∷ ys) n r =
    (ground (arith, n, r.0), AllReferenced-clear_one f x ys (omega (arith, n)) r.1)

module _ {P F : Type 0} where
  find_victim-passed :
      (xs after : List ℕ) (fuel : ℕ) (s : Pager P F)
      → AllReferenced s.blocks xs
      → Distinct xs
      → find_victim (rounds xs fuel) (record s { clock_queue = xs ++ after })
        ≡ find_victim fuel (passed xs (after ++ xs) s)
  unfolding find_victim second_chance rounds clear forbid
  find_victim-passed [] after fuel s r d =
      ap (λ q. find_victim fuel (record s { clock_queue = q })) (sym (append-nil after))
  find_victim-passed (x ∷ xs) after fuel s r d =
      let s1 = record s {
        blocks = update s.blocks x (clear_one (s.blocks x));
        page_tables = for_entries (s.blocks x).ptes forbid_all s.page_tables;
      } in
      let here : find_victim (rounds (x ∷ xs) fuel) (record s { clock_queue = x ∷ xs ++ after })
          ≡ find_victim (rounds xs fuel) (record s1 { clock_queue = (xs ++ after) ++ x ∷ [] }) =
        rw r.0 refl in
      here
      ∙ ap (λ q. find_victim (rounds xs fuel) (record s1 { clock_queue = q }))
          (append_assoc xs after (x ∷ []))
      ∙ find_victim-passed xs (after ++ x ∷ []) fuel s1
          (AllReferenced-clear_one s.blocks x xs d.0 r.1) d.1
      ∙ ap (λ q. find_victim fuel (passed xs q s1)) (append_assoc after (x ∷ []) xs)

pub clear-out : (xs : List ℕ) (f : ℕ → MemBlock) (y : ℕ) → count y xs ≡ 0 → clear xs f y ≡ f y
unfolding clear
clear-out [] f y n = refl
clear-out (x ∷ xs) f y n =
    ground (arith, clear-out xs (update f x (clear_one (f x))) y (omega (arith, n)), n)

pub clear-in :
    (xs : List ℕ) (f : ℕ → MemBlock) (y : ℕ) → count y xs ≢ 0 → clear xs f y ≡ clear_one (f y)
unfolding clear
clear-in [] f y n = absurd (n refl)
clear-in (x ∷ xs) f y n =
    let g = update f x (clear_one (f x)) in
    elim (Bool-cases (count y xs == 0)) [
      | inl t ↦ ground (arith, clear-out xs g y, t)
      | inr e ↦ ground (arith, clear-in xs g y, e)
    ]

-- A block of either kind keeps all but its reference.
pub clear-cases :
    (xs : List ℕ) (f : ℕ → MemBlock) (y : ℕ)
    → (clear xs f y ≡ f y) ⊎ (clear xs f y ≡ clear_one (f y))
clear-cases xs f y = elim (Bool-cases (count y xs == 0)) [
  | inl t ↦ inl (clear-out xs f y (ground (arith, t)))
  | inr e ↦ inr (clear-in xs f y (ground (arith, e)))
]

unreferenced-stays :
    (xs : List ℕ) (f : ℕ → MemBlock) (v : ℕ)
    → (f v).referenced ≡ false
    → (clear xs f v).referenced ≡ false
unreferenced-stays xs f v e = elim (clear-cases xs f v) [ inl q ↦ rw q e | inr q ↦ rw q refl ]

-- The first block without a reference, with what stands before it.
data Search (f : ℕ → MemBlock) : List ℕ → Type 0 where
  all : {q : List ℕ} → AllReferenced f q → Search f q
  first :
      (before : List ℕ) (v : ℕ) (after : List ℕ)
      → AllReferenced f before
      → (f v).referenced ≡ false
      → Search f (before ++ v ∷ after)

Search-queue : (f : ℕ → MemBlock) (q : List ℕ) → Search f q
Search-queue f [] = all tt
Search-queue f (x ∷ xs) = elim (Bool-cases (f x).referenced) [
  | inl t ↦ further f x xs t (Search-queue f xs)
  | inr e ↦ first [] x xs tt e
]
  where
    further :
        (f : ℕ → MemBlock) (x : ℕ) (xs : List ℕ)
        → (f x).referenced ≡ true
        → Search f xs
        → Search f (x ∷ xs)
    further f x xs t (all r) = all (t, r)
    further f x _ t (first before v after r e) = first (x ∷ before) v after (t, r) e

Distinct-append : (xs ys : List ℕ) → Distinct (xs ++ ys) → Distinct xs
Distinct-append [] ys d = tt
Distinct-append (x ∷ xs) ys d =
    (omega (arith, d.0, count-append x xs ys), Distinct-append xs ys d.1)

-- What the clock algorithm does to the queue, for the block `v` that it chooses. The hand passes the
-- blocks `skipped`, which lose their references and go to the end.
pub record Chosen {P F : Type 0} (s : Pager P F) (v : ℕ) (s' : Pager P F) : Type 0 where
  pub skipped : List ℕ
  pub queue : List ℕ
  pub tables : ℕ → ℕ → PageTableEntry
  pub after :
      s' ≡ record s { blocks = clear skipped s.blocks; page_tables = tables; clock_queue = queue }
  pub order :
      ((rest : List ℕ) × (s.clock_queue ≡ skipped ++ v ∷ rest)
        × (queue ≡ rest ++ skipped)
        × AllReferenced s.blocks skipped
        × ((s.blocks v).referenced ≡ false))
      ⊎ ((skipped ≡ s.clock_queue) × (s.clock_queue ≡ v ∷ queue) × AllReferenced s.blocks skipped)

module _ {P F : Type 0} where
  find_first :
      (s : Pager P F) (q : List ℕ)
      → Search s.blocks q
      → q ≢ []
      → Distinct q
      → s.clock_queue ≡ q
      → (v : ℕ) × (s' : Pager P F) × (find_victim (length q + 1) (record s { clock_queue = q })
          ≡ some (v, s'))
        × Chosen s v s'
  unfolding find_victim rounds
  find_first s [] (all r) n d e = absurd (n refl)
  find_first s (x ∷ xs) (all r) n d e =
      let q : List ℕ = x ∷ xs in
      let none_left : (clear q s.blocks x).referenced ≡ false =
        ap (λ m. m.referenced) (clear-in q s.blocks x (ground arith)) in
      let fuel : length q + 1 ≡ rounds q 1 = omega (arith, rounds-length q 1) in
      let one : find_victim 1 (passed q q s) ≡ some (x, passed q xs s) = rw none_left refl in
      (
        x,
        passed q xs s,
        ap (λ n. find_victim n (record s { clock_queue = q })) fuel
            ∙ ap (λ l. find_victim (rounds q 1) (record s { clock_queue = l })) (sym (append-nil q))
            ∙ find_victim-passed q [] 1 s r d
            ∙ one,
        record {
          skipped = q;
          queue = xs;
          tables = forbid q s.blocks s.page_tables;
          after = refl;
          order = inr (sym e, e, r);
        },
      )
  find_first s _ (first before v after r u) n d e =
      let k = suc (length after) in
      let fuel : length (before ++ v ∷ after) + 1 ≡ rounds before (suc k) =
        omega (arith, rounds-length before (suc k), length-append before (v ∷ after)) in
      let one : find_victim (suc k) (passed before (v ∷ after ++ before) s)
          ≡ some (v, passed before (after ++ before) s) =
        rw (unreferenced-stays before s.blocks v u) refl in
      (
        v,
        passed before (after ++ before) s,
        ap (λ n. find_victim n (record s { clock_queue = before ++ v ∷ after })) fuel
            ∙ find_victim-passed before (v ∷ after) (suc k) s r
                (Distinct-append before (v ∷ after) d)
            ∙ one,
        record {
          skipped = before;
          queue = after ++ before;
          tables = forbid before s.blocks s.page_tables;
          after = refl;
          order = inl (after, e, refl, r, u);
        },
      )

-- With blocks in the queue, no block twice, the loop ends, and it chooses the first block that is
-- not referenced; the referenced blocks before it lose their references and go to the end of the
-- queue in order. If all are referenced, they all lose their references, and the first of the
-- queue is chosen.
pub find_victim-Chosen :
    {P F : Type 0} (s : Pager P F)
    → s.clock_queue ≢ []
    → Distinct s.clock_queue
    → (v : ℕ) × (s' : Pager P F) × (find_victim (length s.clock_queue + 1) s ≡ some (v, s'))
      × Chosen s v s'
find_victim-Chosen s n d = find_first s s.clock_queue (Search-queue s.blocks s.clock_queue) n d refl
