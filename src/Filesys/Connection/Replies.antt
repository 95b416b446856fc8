-- ===== src/Filesys/Connection/Replies.antt =====
-- filesys/network_server.cpp: what a handler sends once the file system has returned.
use operation_system_proj_c.Prelude.{
  ℕ, ◌≡◌, ◌≢◌, ◌⊎◌, inl, inr, refl, ap, ◌∙◌, Bool, true, false, Option, none, some, List, [], ◌∷◌,
  ◌++◌, append_assoc,
}
use operation_system_proj_c.Filesys.Disk.{DiskApi}
use operation_system_proj_c.Filesys.Monad.{Fs, Outcome, returns, throws, aborts}
use operation_system_proj_c.Filesys.Monad.Ends.{Ends}
use operation_system_proj_c.Filesys.Message.{Socket}
use operation_system_proj_c.Filesys.Message.Framing.{Sent, Sent-more}
use operation_system_proj_c.Filesys.Connection.{send_then, reply}

append-nonempty : (xs ys : List ℕ) → xs ≢ [] → xs ++ ys ≢ []
append-nonempty [] ys h = absurd (h refl)
append-nonempty (x ∷ xs) ys h = λ e. cc e

-- Two pieces sent one behind the other.
pub send_then-Sent :
    (a b : List ℕ) (sk : Socket) (r : Bool × Socket) (next : Socket → Bool × Socket)
    → Sent a sk r
    → ((s : Socket) → Sent b s (next s))
    → Sent (a ++ b) sk (send_then r next)
send_then-Sent a b sk (true, s) next (inl (calls, ok, all, moved, from)) later =
    Sent-more a b calls sk s (next s) all moved from (later s)
send_then-Sent a b sk (false, s) next (inl (calls, ok, all, moved, from)) later = absurd (cc ok)
send_then-Sent a b sk (true, s) next
      (inr (out, left, calls, bad, split, some_left, gone, moved, from)) later =
    absurd (cc bad)
send_then-Sent a b sk (false, s) next
      (inr (out, left, calls, bad, split, some_left, gone, moved, from)) later =
    inr (
      out,
      left ++ b,
      calls,
      refl,
      ap (λ l. l ++ b) split ∙ append_assoc out left b,
      append-nonempty left b some_left,
      gone,
      moved,
      from,
    )

module _ ⦃api : DiskApi⦄ where
  open api use {Disk, Block}

  -- The request is not answered: the result is -1, and the client gets nothing.
  abbrev pub Refused : Fs Disk → Socket → (Outcome Bool × Fs Disk) × Socket → Type 0
  Refused s sk r = (r.0 ≡ (returns false, s)) × (r.1.outgoing ≡ sk.outgoing)

  -- The request has been carried out, with the state `s` after it, and the answer `bytes` is sent.
  abbrev pub Answered : List ℕ → Fs Disk → Socket → (Outcome Bool × Fs Disk) × Socket → Type 0
  Answered bytes s sk r = (sent : Bool) × (r.0 ≡ (returns sent, s)) × Sent bytes sk (sent, r.1)

  pub reply-Answered :
      {A : Type 0} (o : Outcome (Option A) × Fs Disk) (sk : Socket)
      (answer : A → Socket → Bool × Socket) (bytes : A → List ℕ) (s : Fs Disk)
      (Q : Option A → Fs Disk → Type 0)
      → ((s' : Fs Disk) → Q none s' → s' ≡ s)
      → ((a : A) → Sent (bytes a) sk (answer a sk))
      → Ends Q (λ _. ⊥) ⊥ o
      → Refused s sk (reply o sk answer)
        ⊎ ((a : A) × (s' : Fs Disk) × Q (some a) s' × Answered (bytes a) s' sk (reply o sk answer))
  unfolding reply
  reply-Answered (returns none, s') sk answer bytes s Q same sends h =
      inl (ap (λ (x : Fs Disk). (returns false, x)) (same s' h), refl)
  reply-Answered (returns (some a), s') sk answer bytes s Q same sends h =
      inr (a, s', h, ((answer a sk).0, refl, sends a))
  reply-Answered (throws e, s') sk answer bytes s Q same sends h = absurd h
  reply-Answered (aborts, s') sk answer bytes s Q same sends h = absurd h
