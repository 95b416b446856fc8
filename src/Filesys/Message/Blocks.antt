-- ===== src/Filesys/Message/Blocks.antt =====
-- filesys/network_server.cpp: the block that follows a request to write.
use operation_system_proj_c.Prelude.{
  ℕ, zero, suc, ◌+◌, ◌-◌, ◌<◌, ◌≤◌, ◌≡◌, inl, inr, refl, sym, ap, ◌∙◌, true, false, Bool-cases,
  none, some, List, [], ◌∷◌, ◌++◌, append-nil, append_assoc, ltb, ◌==◌, if◌then◌else◌, length, take,
  drop, tail, arith,
}
use operation_system_proj_c.Filesys.Message.{
  fs_blocksize, Socket, first_size, receive_bytes, receive_block,
}

length-take :
    (n : ℕ) (xs : List ℕ) → length (take n xs) ≡ (if ltb n (length xs) then n else length xs)
length-take zero xs = ground arith
length-take (suc n) [] = ground arith
length-take (suc n) (x ∷ xs) = ground (arith, length-take n xs)

length-drop : (n : ℕ) (xs : List ℕ) → length (drop n xs) ≡ length xs - n
length-drop zero xs = omega arith
length-drop (suc n) [] = omega arith
length-drop (suc n) (x ∷ xs) = omega (arith, length-drop n xs)

take-drop : (n k m : ℕ) (xs : List ℕ) → n + k ≡ m → take n xs ++ take k (drop n xs) ≡ take m xs
take-drop zero k m xs e = let same : k ≡ m = omega (arith, e) in ap (λ j. take j xs) same
take-drop (suc n) zero zero [] e = refl
take-drop (suc n) (suc k) zero [] e = refl
take-drop (suc n) zero (suc m) [] e = refl
take-drop (suc n) (suc k) (suc m) [] e = refl
take-drop (suc n) k zero (x ∷ xs) e = absurd (omega (arith, e))
take-drop (suc n) k (suc m) (x ∷ xs) e = ap (λ l. x ∷ l) (take-drop n k m xs (omega (arith, e)))

drop-drop : (n k m : ℕ) (xs : List ℕ) → n + k ≡ m → drop k (drop n xs) ≡ drop m xs
drop-drop zero k m xs e = let same : k ≡ m = omega (arith, e) in ap (λ j. drop j xs) same
drop-drop (suc n) zero zero [] e = refl
drop-drop (suc n) (suc k) zero [] e = refl
drop-drop (suc n) zero (suc m) [] e = refl
drop-drop (suc n) (suc k) (suc m) [] e = refl
drop-drop (suc n) k zero (x ∷ xs) e = absurd (omega (arith, e))
drop-drop (suc n) k (suc m) (x ∷ xs) e = drop-drop n k m xs (omega (arith, e))

first_size_bounds :
    (sizes : List ℕ) (n : ℕ) → 0 < n → (0 < first_size sizes n) × (first_size sizes n ≤ n)
first_size_bounds [] n h = (h, omega arith)
first_size_bounds (size ∷ sizes) n h = ground arith

-- One `recv` of the loop.
abbrev pub after_recv : ℕ → Socket → Socket
after_recv n sk = record sk { incoming = drop n sk.incoming; recv_sizes = tail sk.recv_sizes }

receive_bytes_step :
    (fuel left : ℕ) (received : List ℕ) (sk : Socket)
    → 0 < left
    → 0 < length sk.incoming
    → (n got : ℕ) × (n ≡ first_size sk.recv_sizes left)
      × (got ≡ length (take n sk.incoming))
      × (0 < got)
      × (got ≤ n)
      × (n ≤ left)
      × (receive_bytes (suc fuel) left received sk
          ≡ receive_bytes fuel (left - got) (received ++ take n sk.incoming) (after_recv n sk))
unfolding receive_bytes
receive_bytes_step fuel left received sk missing some_in =
    let n = first_size sk.recv_sizes left in
    let bounds = first_size_bounds sk.recv_sizes left missing in
    let got = length (take n sk.incoming) in
    let l = length-take n sk.incoming in
    let more : (left == 0) ≡ false = ground (arith, missing) in
    let some_got : (got == 0) ≡ false = ground (arith, l, bounds, some_in) in
    (
      n,
      got,
      refl,
      refl,
      ground (arith, l, bounds, some_in),
      ground (arith, l),
      bounds.1,
      rw (more, some_got) refl,
    )

receive_bytes_all :
    (fuel left : ℕ) (received : List ℕ) (sk : Socket)
    → left ≤ fuel
    → left ≤ length sk.incoming
    → (sizes : List ℕ) × (receive_bytes fuel left received sk
        ≡ some (
          received ++ take left sk.incoming,
          record sk { incoming = drop left sk.incoming; recv_sizes = sizes },
        ))
unfolding receive_bytes
receive_bytes_all zero zero received sk h there =
    (sk.recv_sizes, ap (λ l. some (l, sk)) (sym (append-nil received)))
receive_bytes_all zero (suc left) received sk h there = absurd (omega (arith, h))
receive_bytes_all (suc fuel) zero received sk h there =
    (sk.recv_sizes, ap (λ l. some (l, sk)) (sym (append-nil received)))
receive_bytes_all (suc fuel) (suc left) received sk h there =
    let (n, got, e, eg, pos, small, le, step) =
      receive_bytes_step fuel (suc left) received sk (omega arith) (omega (arith, there)) in
    let whole : got ≡ n = ground (arith, eg, length-take n sk.incoming, le, there) in
    let (sizes, ih) =
      receive_bytes_all fuel (suc left - n) (received ++ take n sk.incoming) (after_recv n sk)
        (omega (arith, h, pos, whole)) (omega (arith, length-drop n sk.incoming, there)) in
    let sum : n + (suc left - n) ≡ suc left = omega (arith, le) in
    (
      sizes,
      step
          ∙ ap
              (λ k.
                receive_bytes fuel (suc left - k) (received ++ take n sk.incoming)
                  (after_recv n sk))
              whole
          ∙ ih
          ∙ ap
              (λ l. some (
                l,
                record sk {
                  incoming = drop (suc left - n) (drop n sk.incoming);
                  recv_sizes = sizes;
                },
              ))
              (append_assoc received (take n sk.incoming) (take (suc left - n) (drop n sk.incoming))
                ∙ ap (λ l. received ++ l) (take-drop n (suc left - n) (suc left) sk.incoming sum))
          ∙ ap
              (λ l. some (
                received ++ take (suc left) sk.incoming,
                record sk { incoming = l; recv_sizes = sizes },
              ))
              (drop-drop n (suc left - n) (suc left) sk.incoming sum),
    )

receive_bytes_short :
    (fuel left : ℕ) (received : List ℕ) (sk : Socket)
    → left ≤ fuel
    → length sk.incoming < left
    → receive_bytes fuel left received sk ≡ none
unfolding receive_bytes
receive_bytes_short zero left received sk h short = absurd (omega (arith, h, short))
receive_bytes_short (suc fuel) left received sk h short =
    elim (Bool-cases (length sk.incoming == 0)) [
      | inl empty ↦
          let n = first_size sk.recv_sizes left in
          let more : (left == 0) ≡ false = ground (arith, short) in
          let nothing : (length (take n sk.incoming) == 0) ≡ true =
            ground (arith, length-take n sk.incoming, empty) in
          rw (more, nothing) refl
      | inr full ↦
          let (n, got, e, eg, pos, small, le, step) =
            receive_bytes_step fuel left received sk (omega (arith, short))
              (ground (arith, full)) in
          step
          ∙ receive_bytes_short fuel (left - got) (received ++ take n sk.incoming) (after_recv n sk)
              (omega (arith, h, pos))
              (ground (arith, length-drop n sk.incoming, length-take n sk.incoming, eg, short))
    ]

-- Whatever pieces the network gives, the loop that receives a block ends. If the client sends the
-- bytes of a block, the data are these bytes in order, and the bytes behind them wait for the next
-- read; if it sends fewer and closes the connection, the result is -1.
pub receive_block_lem :
    (sk : Socket)
    → (fs_blocksize ≤ length sk.incoming
        → (sizes : List ℕ) × (receive_block sk
            ≡ some (
              take fs_blocksize sk.incoming,
              record sk { incoming = drop fs_blocksize sk.incoming; recv_sizes = sizes },
            )))
      × (length sk.incoming < fs_blocksize → receive_block sk ≡ none)
unfolding receive_block
receive_block_lem sk = (
  λ h. receive_bytes_all fs_blocksize fs_blocksize [] sk (omega arith) h,
  λ h. receive_bytes_short fs_blocksize fs_blocksize [] sk (omega arith) h,
)
