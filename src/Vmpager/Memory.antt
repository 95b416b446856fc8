-- ===== src/Vmpager/Memory.antt =====
-- vmpager/: the physical pages. A page is free, or it holds a block of the clock queue.
pub mod Eviction
pub mod Joining
pub mod Caching
pub mod Adjusting
pub mod Entries
pub mod Copying
pub mod Handling
pub mod Accessing
pub mod Faulting
use operation_system_proj_c.Prelude.{
  ℕ, ◌+◌, ◌<◌, ◌≤◌, ◌≡◌, ◌≢◌, refl, sym, ap, ◌∙◌, Bool, true, false, List, [], ◌∷◌, ◌++◌, arith,
  length, count, count-append, if◌then◌else◌, ◌==◌, inl, inr,
}
use operation_system_proj_c.Vmpager.State.{Pager, MemBlock, BlockType, is_phys}
use operation_system_proj_c.Vmpager.Evict.Clock.{Distinct, Chosen, clear, clear-cases}

abbrev pub locations : (ℕ → MemBlock) → List ℕ → List ℕ
locations f [] = []
locations f (b ∷ bs) = (f b).location ∷ locations f bs

-- Every page that the pager may give out: the free ones and those of the blocks in the queue.
abbrev pub frames : {P F : Type 0} → Pager P F → List ℕ
frames s = s.free_mem_blocks ++ locations s.blocks s.clock_queue

-- What holds of a block in the clock queue.
pub record IsCached (m : MemBlock) : Type 0 where
  pub resident : m.resident ≡ true
  pub type : is_phys m.type ≡ true
  pub backed : m.is_swap ≡ true → 0 < length m.swap_blocks

-- What holds of every block but `zero_page`: a swap-backed block has a swap block for each page that
-- shares it, and a block that is not in memory is marked as such.
pub record IsBlock (m : MemBlock) : Type 0 where
  pub reserved : m.is_swap ≡ true → length m.ptes ≤ length m.swap_blocks
  pub away : m.resident ≡ false → is_phys m.type ≡ false

pub record IsValid {P F : Type 0} (s : Pager P F) : Type 0 where
  pub distinct : Distinct s.clock_queue
  pub known : (b : ℕ) → count b s.clock_queue ≢ 0 → (b ≢ 0) × (b < s.next_block)
  pub cached : (b : ℕ) → count b s.clock_queue ≢ 0 → IsCached (s.blocks b)
  pub blocks : (b : ℕ) → b ≢ 0 → IsBlock (s.blocks b)
  pub zero_resident : (s.blocks 0).resident ≡ true

pub locations-append :
    (f : ℕ → MemBlock) (xs ys : List ℕ) → locations f (xs ++ ys) ≡ locations f xs ++ locations f ys
locations-append f [] ys = refl
locations-append f (x ∷ xs) ys = ap (λ l. (f x).location ∷ l) (locations-append f xs ys)

pub locations-same :
    (f g : ℕ → MemBlock) (xs : List ℕ)
    → ((b : ℕ) → count b xs ≢ 0 → (f b).location ≡ (g b).location)
    → locations f xs ≡ locations g xs
locations-same f g [] h = refl
locations-same f g (x ∷ xs) h =
    let here : (f x).location ≡ (g x).location = h x (ground arith) in
    let there = locations-same f g xs (λ b n. h b (omega (arith, n))) in
    ap (λ a. a ∷ locations f xs) here ∙ ap (λ l. (g x).location ∷ l) there

pub clear-location :
    (xs : List ℕ) (f : ℕ → MemBlock) (b : ℕ) → (clear xs f b).location ≡ (f b).location
clear-location xs f b = elim (clear-cases xs f b) [ inl e ↦ rw e refl | inr e ↦ rw e refl ]

module _ {P F : Type 0} {s s' : Pager P F} {v : ℕ} (c : Chosen s v s') where
  -- The block that is chosen leaves the queue once, and the others stay as often as before.
  pub Chosen-count : (b : ℕ) → count b c.queue + count b (v ∷ []) ≡ count b s.clock_queue
  Chosen-count b = elim c.order [
    | inl (rest, clock, queue, _, _) ↦
        rw (clock, queue)
          (omega (arith, count-append b c.skipped (v ∷ rest), count-append b rest c.skipped))
    | inr (_, clock, _) ↦ rw clock (omega arith)
  ]

  -- So do their pages.
  pub Chosen-locations :
      (f : ℕ → MemBlock) (page : ℕ)
      → count page (locations f c.queue) + count page ((f v).location ∷ [])
        ≡ count page (locations f s.clock_queue)
  Chosen-locations f page = elim c.order [
    | inl (rest, clock, queue, _, _) ↦
        rw
          (clock, queue, locations-append f c.skipped (v ∷ rest), locations-append f rest c.skipped)
          (omega (
            arith,
            count-append page (locations f c.skipped) (locations f (v ∷ rest)),
            count-append page (locations f rest) (locations f c.skipped),
          ))
    | inr (_, clock, _) ↦ rw clock (omega arith)
  ]

  pub Chosen-in : count v s.clock_queue ≢ 0
  Chosen-in = ground (arith, Chosen-count v)

-- A list in which no element stands twice, by the counts.
pub Distinct-count : (xs : List ℕ) → Distinct xs → (b : ℕ) → count b xs ≤ 1
Distinct-count [] d b = omega arith
Distinct-count (x ∷ xs) d b = ground (arith, d.0, Distinct-count xs d.1 b)

pub count-Distinct : (xs : List ℕ) → ((b : ℕ) → count b xs ≤ 1) → Distinct xs
count-Distinct [] h = tt
count-Distinct (x ∷ xs) h = (ground (arith, h x), count-Distinct xs (λ b. omega (arith, h b)))
