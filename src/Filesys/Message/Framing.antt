-- ===== src/Filesys/Message/Framing.antt =====
-- filesys/network_server.cpp: `receive_message` and `send_message`.
use operation_system_proj_c.Prelude.{
  ℕ, zero, suc, ◌+◌, ◌<◌, ◌≤◌, ◌≡◌, ◌≢◌, ◌↔◌, ◌⊎◌, inl, inr, refl, sym, ap, subst, ◌∙◌, Bool, true,
  false, Bool-cases, Option, none, some, List, [], ◌∷◌, ◌++◌, append-nil, append_assoc, ltb, ◌==◌,
  length, length-append, take, drop, arith,
}
use operation_system_proj_c.Filesys.Search.{contains}
use operation_system_proj_c.Filesys.Message.{
  max_message_size, Socket, receive_chars, left_behind, receive_message, piece, send_piece,
  send_bytes, send_message,
}

-- A text with no NUL that fits a message.
abbrev pub IsMessage : List ℕ → Type 0
IsMessage text = (contains 0 text ≡ false) × (length text ≤ max_message_size)

receive_chars-message :
    (text rest acc : List ℕ)
    → contains 0 text ≡ false
    → length acc + length text ≤ max_message_size
    → receive_chars acc (text ++ 0 ∷ rest) ≡ some (acc ++ text, rest)
unfolding receive_chars
receive_chars-message [] rest acc h fits = rw append-nil refl
receive_chars-message (c ∷ text) rest acc h fits =
    let nonzero : (c == 0) ≡ false = ground (arith, h) in
    let later : contains 0 text ≡ false = ground (arith, h) in
    let room : ltb max_message_size (length acc + 1) ≡ false = ground (arith, fits) in
    rw (nonzero, room)
      (receive_chars-message text rest (acc ++ c ∷ []) later
          (omega (arith, fits, length-append acc (c ∷ [])))
        ∙ ap (λ l. some (l, rest)) (append_assoc acc (c ∷ []) text))

-- What is received was sent, up to the first NUL.
receive_chars-sent :
    (bytes acc text rest : List ℕ)
    → length acc ≤ max_message_size
    → receive_chars acc bytes ≡ some (text, rest)
    → (word : List ℕ) × (text ≡ acc ++ word)
      × (bytes ≡ word ++ 0 ∷ rest)
      × (contains 0 word ≡ false)
      × (length text ≤ max_message_size)
unfolding receive_chars
receive_chars-sent [] acc text rest fits h = cc h
receive_chars-sent (c ∷ bytes) acc text rest fits h = elim (Bool-cases (c == 0)) [
  | inl z ↦
      let e : some (acc, bytes) ≡ some (text, rest) = rw z at h in
      let same : acc ≡ text = cc e in
      let tail_same : bytes ≡ rest = cc e in
      let zero_byte : c ≡ 0 = ground (arith, z) in
      ([], sym same ∙ sym (append-nil acc), rw (zero_byte, tail_same) refl, refl, rw (← same) fits)
  | inr z ↦ elim (Bool-cases (ltb max_message_size (length acc + 1))) [
    | inl big ↦ cc (rw (z, big) at h)
    | inr small ↦
        let (word, e1, e2, nonzero, le) =
          receive_chars-sent bytes (acc ++ c ∷ []) text rest
            (ground (arith, small, length-append acc (c ∷ []))) (rw (z, small) at h) in
        (
          c ∷ word,
          e1 ∙ append_assoc acc (c ∷ []) word,
          ap (λ l. c ∷ l) e2,
          ground (arith, z, nonzero),
          le,
        )
  ]
]

received_lem :
    (sk : Socket) (text rest : List ℕ) (o : Option (List ℕ × List ℕ))
    → receive_chars [] sk.incoming ≡ o
    → left_behind sk o ≡ some (text, record sk { incoming = rest })
    → (sk.incoming ≡ text ++ 0 ∷ rest) × IsMessage text
received_lem sk text rest none e h = cc h
received_lem sk text rest (some (w, left)) e h =
    let text_same : w ≡ text = cc h in
    let rest_same : left ≡ rest =
      ap (λ (x : Option (List ℕ × Socket)). elim x [ none ↦ left | some y ↦ y.1.incoming ]) h in
    let (word, e1, e2, nonzero, le) =
      receive_chars-sent sk.incoming [] text rest (omega arith)
        (rw (e, text_same, rest_same) refl) in
    (e2 ∙ ap (λ l. l ++ 0 ∷ rest) (sym e1), (rw e1 nonzero, le))

-- `receive_message` gives a text exactly if the client sent that text and a NUL behind it, the text has
-- no NUL and no more than `max_message_size` characters; the bytes behind the NUL are left for the
-- next read.
pub receive_message_iff :
    (sk : Socket) (text rest : List ℕ)
    → (receive_message sk ≡ some (text, record sk { incoming = rest }))
      ↔ ((sk.incoming ≡ text ++ 0 ∷ rest) × IsMessage text)
unfolding receive_message
receive_message_iff sk text rest = (
  λ h. received_lem sk text rest (receive_chars [] sk.incoming) refl h,
  λ h. rw (h.0, receive_chars-message text rest [] h.1.0 (omega (arith, h.1.1))) refl,
)

-- The first `n` elements and the others.
take-append-drop : (n : ℕ) (xs : List ℕ) → take n xs ++ drop n xs ≡ xs
take-append-drop zero xs = refl
take-append-drop (suc n) [] = refl
take-append-drop (suc n) (x ∷ xs) = ap (λ l. x ∷ l) (take-append-drop n xs)

length-take-le : (n : ℕ) (xs : List ℕ) → n ≤ length xs → length (take n xs) ≡ n
length-take-le zero xs h = refl
length-take-le (suc n) [] h = absurd (omega (arith, h))
length-take-le (suc n) (x ∷ xs) h = ap suc (length-take-le n xs (omega (arith, h)))

piece_bounds : (size n : ℕ) → 0 < n → (0 < piece size n) × (piece size n ≤ n)
piece_bounds size n h = ground arith

-- None of these calls of `send` fails.
abbrev pub AllMove : List (Option ℕ) → Type 0
AllMove [] = Unit {0}
AllMove (none ∷ sizes) = ⊥
AllMove (some size ∷ sizes) = AllMove sizes

pub AllMove-append : (xs ys : List (Option ℕ)) → AllMove xs → AllMove ys → AllMove (xs ++ ys)
AllMove-append [] ys h k = k
AllMove-append (none ∷ xs) ys h k = absurd h
AllMove-append (some size ∷ xs) ys h k = AllMove-append xs ys h k

-- What a loop of `send` leaves. Either no call of `send` that it made failed, and all the bytes are
-- out; or the last call that it made failed, and it is the first that did, and what is out is a first
-- part of the bytes that is not all of them.
abbrev pub Sent : List ℕ → Socket → Bool × Socket → Type 0
Sent bytes sk r =
    ((calls : List (Option ℕ)) × (r.0 ≡ true)
      × (r.1.outgoing ≡ sk.outgoing ++ bytes)
      × AllMove calls
      × (sk.send_sizes ≡ calls ++ r.1.send_sizes))
    ⊎ ((out left : List ℕ) × (calls : List (Option ℕ)) × (r.0 ≡ false)
        × (bytes ≡ out ++ left)
        × (left ≢ [])
        × (r.1.outgoing ≡ sk.outgoing ++ out)
        × AllMove calls
        × (sk.send_sizes ≡ calls ++ none ∷ r.1.send_sizes))

pub Sent-more :
    (a b : List ℕ) (calls : List (Option ℕ)) (sk sk' : Socket) (r : Bool × Socket)
    → sk'.outgoing ≡ sk.outgoing ++ a
    → AllMove calls
    → sk.send_sizes ≡ calls ++ sk'.send_sizes
    → Sent b sk' r
    → Sent (a ++ b) sk r
Sent-more a b calls sk sk' r e moved from (inl (later, ok, all, moved', from')) = inl (
  calls ++ later,
  ok,
  all ∙ ap (λ l. l ++ b) e ∙ append_assoc sk.outgoing a b,
  AllMove-append calls later moved moved',
  from ∙ ap (λ l. calls ++ l) from' ∙ sym (append_assoc calls later r.1.send_sizes),
)
Sent-more a b calls sk sk' r e moved from
      (inr (out, left, later, bad, split, some_left, gone, moved', from')) =
    inr (
      a ++ out,
      left,
      calls ++ later,
      bad,
      ap (λ l. a ++ l) split ∙ sym (append_assoc a out left),
      some_left,
      gone ∙ ap (λ l. l ++ out) e ∙ append_assoc sk.outgoing a out,
      AllMove-append calls later moved moved',
      from ∙ ap (λ l. calls ++ l) from' ∙ sym (append_assoc calls later (none ∷ r.1.send_sizes)),
    )

length-nonempty : (xs : List ℕ) → 0 < length xs → xs ≢ []
length-nonempty xs h e = absurd (omega (arith, h, ap length e))

-- One round of the loop; `next_round` is the later rounds.
send_piece-Sent :
    (fuel : ℕ) (next_round : List ℕ → Socket → Bool × Socket)
    → ((bs : List ℕ) (s : Socket) → length bs ≤ fuel → Sent bs s (next_round bs s))
    → (all : List ℕ) (sk : Socket) (sizes : List (Option ℕ)) → sk.send_sizes ≡ sizes
    → 0 < length all
    → length all ≤ suc fuel
    → Sent all sk (send_piece next_round all sk sizes)
send_piece-Sent fuel next_round later all sk [] e some_left h =
    let sk' : Socket = record sk { outgoing = sk.outgoing ++ all } in
    subst (λ l. Sent l sk (next_round [] sk')) (append-nil all)
      (Sent-more all [] [] sk sk' (next_round [] sk') refl tt refl (later [] sk' (omega arith)))
send_piece-Sent fuel next_round later all sk (none ∷ sizes) e some_left h =
    inr
      ([], all, [], refl, refl, length-nonempty all some_left, sym (append-nil sk.outgoing), tt, e)
send_piece-Sent fuel next_round later all sk (some size ∷ sizes) e some_left h =
    let n = piece size (length all) in
    let bounds = piece_bounds size (length all) some_left in
    let sk' : Socket = record sk { outgoing = sk.outgoing ++ take n all; send_sizes = sizes } in
    let whole = take-append-drop n all in
    let shorter : length (drop n all) ≤ fuel = omega (
      arith,
      bounds,
      h,
      ap length whole,
      length-append (take n all) (drop n all),
      length-take-le n all bounds.1,
    ) in
    subst (λ l. Sent l sk (next_round (drop n all) sk')) whole
      (Sent-more (take n all) (drop n all) (some size ∷ []) sk sk' (next_round (drop n all) sk')
        refl tt e (later (drop n all) sk' shorter))

pub send_bytes-Sent :
    (fuel : ℕ) (bytes : List ℕ) (sk : Socket)
    → length bytes ≤ fuel
    → Sent bytes sk (send_bytes fuel bytes sk)
unfolding send_bytes
send_bytes-Sent zero [] sk h = inl ([], refl, sym (append-nil sk.outgoing), tt, refl)
send_bytes-Sent zero (b ∷ bytes) sk h = absurd (omega (arith, h))
send_bytes-Sent (suc fuel) [] sk h = inl ([], refl, sym (append-nil sk.outgoing), tt, refl)
send_bytes-Sent (suc fuel) (b ∷ bytes) sk h =
    send_piece-Sent fuel (λ left s. send_bytes fuel left s) (λ bs s k. send_bytes-Sent fuel bs s k)
      (b ∷ bytes) sk sk.send_sizes refl (omega arith) h

-- Whatever pieces the network takes, `send_message` ends. Either no call of `send` that it made
-- failed, the result is 0, and the client has got the text and a NUL behind it, all of it and in
-- order; or the last call of `send` that it made failed, as the first that did, the result is -1,
-- and the client has got a first part that is not all of them.
pub send_message-Sent :
    (text : List ℕ) (sk : Socket) → Sent (text ++ 0 ∷ []) sk (send_message text sk)
unfolding send_message
send_message-Sent text sk =
    send_bytes-Sent (length text + 1) (text ++ 0 ∷ []) sk
      (omega (arith, length-append text (0 ∷ [])))

-- A text that was sent whole over a new connection is what the other end receives, whatever pieces
-- both ends get, and what the sender sends behind it waits for the next read.
pub receive_message-send_message :
    (text rest : List ℕ) (sender receiver : Socket)
    → IsMessage text
    → sender.outgoing ≡ []
    → (send_message text sender).0 ≡ true
    → receiver.incoming ≡ (send_message text sender).1.outgoing ++ rest
    → receive_message receiver ≡ some (text, record receiver { incoming = rest })
receive_message-send_message text rest sender receiver message new ok connected =
    (receive_message_iff receiver text rest).1 (
      connected ∙ elim (send_message-Sent text sender) [
        | inl done ↦
            ap (λ l. l ++ rest) (done.2 ∙ ap (λ l. l ++ (text ++ 0 ∷ [])) new)
            ∙ append_assoc text (0 ∷ []) rest
        | inr (out, left, calls, bad, split, some_left, gone, moved, from) ↦ absurd (cc (ok, bad))
      ],
      message,
    )
