-- ===== src/Vmpager/Process/Queue.antt =====
-- vmpager/utils.cpp: `inspect_clock_queue` and the filter of a queue.
use operation_system_proj_c.Prelude.{
  ℕ, ◌≡◌, ap, sym, ◌∙◌, Bool-cases, List, [], ◌∷◌, ◌++◌, append-nil, append_assoc, length,
  if◌then◌else◌, inl, inr,
}
use operation_system_proj_c.Vmpager.State.{Pager, MemBlock}
use operation_system_proj_c.Vmpager.Process.{has_page, inspect_rounds, inspect_clock_queue}

-- The blocks of a queue that are not in one of the pages `useless`, in their order.
abbrev pub useful : (ℕ → MemBlock) → List ℕ → List ℕ → List ℕ
useful blocks useless [] = []
useful blocks useless (b ∷ bs) =
    if has_page (blocks b).location useless
    then useful blocks useless bs
    else b ∷ useful blocks useless bs

inspect_rounds-useful :
    (blocks : ℕ → MemBlock) (useless xs ys : List ℕ)
    → inspect_rounds (length xs) blocks useless (xs ++ ys) ≡ ys ++ useful blocks useless xs
unfolding inspect_rounds
inspect_rounds-useful blocks useless [] ys = sym (append-nil ys)
inspect_rounds-useful blocks useless (x ∷ xs) ys =
    elim (Bool-cases (has_page (blocks x).location useless)) [
      | inl e ↦ rw e (inspect_rounds-useful blocks useless xs ys)
      | inr e ↦ rw e (
          ap (inspect_rounds (length xs) blocks useless) (append_assoc xs ys (x ∷ []))
          ∙ inspect_rounds-useful blocks useless xs (ys ++ x ∷ [])
          ∙ append_assoc ys (x ∷ []) (useful blocks useless xs))
    ]

-- The loop of `inspect_clock_queue`, which turns the queue once, leaves the blocks that are neither in
-- page 0 nor in one of the pages given, in their order, and changes nothing else.
pub inspect_clock_queue-useful :
    {P F : Type 0} (useless : List ℕ) (s : Pager P F)
    → inspect_clock_queue useless s
      ≡ record s { clock_queue = useful s.blocks (0 ∷ useless) s.clock_queue }
unfolding inspect_clock_queue
inspect_clock_queue-useful useless s =
    ap (λ q. record s { clock_queue = q })
      (ap (inspect_rounds (length s.clock_queue) s.blocks (0 ∷ useless))
          (sym (append-nil s.clock_queue))
        ∙ inspect_rounds-useful s.blocks (0 ∷ useless) s.clock_queue [])
