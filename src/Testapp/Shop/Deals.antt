-- ===== src/Testapp/Shop/Deals.antt =====
-- testapp/main.cpp: the protocol of drivers and customers, without the threads that follow it.
use operation_system_proj_c.Prelude.{
  ℕ, ◌<◌, ◌≡◌, ◌⊎◌, inl, inr, refl, sym, ap, ◌∙◌, Bool, true, false, Bool-cases, ◌==◌, arith,
  update, update_self,
}

-- How far somebody has got: not yet there, without a deal, in a deal before and after the delivery,
-- and behind the deals (a driver until the next one, a customer for good). The threads are never
-- at `wrong`.
pub data Phase : Type 0 where
  away free promised delivered closed wrong : Phase

abbrev pub in_deal : Phase → Bool
in_deal away = false
in_deal free = false
in_deal promised = true
in_deal delivered = true
in_deal closed = false
in_deal wrong = false

pub record View : Type 0 where
  pub customers : ℕ → Phase
  pub drivers : ℕ → Phase
  pub customer_of : ℕ → ℕ
  pub driver_of : ℕ → ℕ

-- The moves of the protocol.
pub data Deal (num_customers num_drivers : ℕ) (v : View) : View → Type 0 where
  nothing : Deal num_customers num_drivers v v
  readied :
      (i : ℕ)
      → (v.drivers i ≡ away) ⊎ (v.drivers i ≡ closed)
      → Deal num_customers num_drivers v (record v { drivers = update v.drivers i free })
  entered :
      (j : ℕ) (p : Phase)
      → v.customers j ≡ away
      → (p ≡ free) ⊎ (p ≡ closed)
      → Deal num_customers num_drivers v (record v { customers = update v.customers j p })
  matched :
      (i j : ℕ)
      → i < num_drivers
      → j < num_customers
      → v.drivers i ≡ free
      → v.customers j ≡ free
      → Deal num_customers num_drivers v (record {
        customers = update v.customers j promised;
        drivers = update v.drivers i promised;
        customer_of = update v.customer_of i j;
        driver_of = update v.driver_of j i;
      })
  brought :
      (i : ℕ)
      → v.drivers i ≡ promised
      → Deal num_customers num_drivers v (record v {
        customers = update v.customers (v.customer_of i) delivered;
        drivers = update v.drivers i delivered;
      })
  paid :
      (j : ℕ) (p : Phase)
      → v.customers j ≡ delivered
      → (p ≡ free) ⊎ (p ≡ closed)
      → Deal num_customers num_drivers v (record v {
        customers = update v.customers j p;
        drivers = update v.drivers (v.driver_of j) closed;
      })

-- The driver and the customer of a deal name each other, exist, and have got equally far.
pub record Paired (num_customers num_drivers : ℕ) (v : View) : Type 0 where
  pub of_driver :
      (i : ℕ)
      → in_deal (v.drivers i) ≡ true
      → (v.customers (v.customer_of i) ≡ v.drivers i)
        × (v.driver_of (v.customer_of i) ≡ i)
        × (v.customer_of i < num_customers)
  pub of_customer :
      (j : ℕ)
      → in_deal (v.customers j) ≡ true
      → (v.drivers (v.driver_of j) ≡ v.customers j)
        × (v.customer_of (v.driver_of j) ≡ j)
        × (v.driver_of j < num_drivers)

in_deal_free : (p : Phase) → p ≡ free → in_deal p ≡ false
in_deal_free p e = rw (e) refl

abbrev pub Outside : Phase → Type 0
Outside p = in_deal p ≡ false

-- What a move on one side alone, outside the deals, leaves.
readied-Paired :
    {nc nd : ℕ} (v : View) (i : ℕ) (p : Phase)
    → Paired nc nd v
    → Outside (v.drivers i)
    → Outside p
    → Paired nc nd (record v { drivers = update v.drivers i p })
readied-Paired v i p h out new = record {
  of_driver = λ x d. elim (Bool-cases (i == x)) [
    | inl e ↦ absurd (cc (rw e at d, new))
    | inr e ↦ rw e (h.of_driver x (rw e at d))
  ];
  of_customer = λ y d.
      let (same, back, below) = h.of_customer y d in
      elim (Bool-cases (i == v.driver_of y)) [
        | inl e ↦
            let at : i ≡ v.driver_of y = ground (arith, e) in
            absurd (cc (ap (λ k. in_deal (v.drivers k)) at, ap in_deal same, out, d))
        | inr e ↦ rw e (same, back, below)
      ];
}

entered-Paired :
    {nc nd : ℕ} (v : View) (j : ℕ) (p : Phase)
    → Paired nc nd v
    → Outside (v.customers j)
    → Outside p
    → Paired nc nd (record v { customers = update v.customers j p })
entered-Paired v j p h out new = record {
  of_driver = λ x d.
      let (same, back, below) = h.of_driver x d in
      elim (Bool-cases (j == v.customer_of x)) [
        | inl e ↦
            let at : j ≡ v.customer_of x = ground (arith, e) in
            absurd (cc (ap (λ k. in_deal (v.customers k)) at, ap in_deal same, out, d))
        | inr e ↦ rw e (same, back, below)
      ];
  of_customer = λ y d. elim (Bool-cases (j == y)) [
    | inl e ↦ absurd (cc (rw e at d, new))
    | inr e ↦ rw e (h.of_customer y (rw e at d))
  ];
}

matched-Paired :
    {nc nd : ℕ} (v : View) (i j : ℕ)
    → Paired nc nd v
    → i < nd
    → j < nc
    → Outside (v.drivers i)
    → Outside (v.customers j)
    → Paired nc nd (record {
      customers = update v.customers j promised;
      drivers = update v.drivers i promised;
      customer_of = update v.customer_of i j;
      driver_of = update v.driver_of j i;
    })
matched-Paired v i j h hi hj out_d out_c = record {
  of_driver = λ x d. elim (Bool-cases (i == x)) [
    | inl e ↦
        let at : i ≡ x = ground (arith, e) in
        rw (e, update_self v.customers j promised, update_self v.driver_of j i) (refl, at, hj)
    | inr e ↦
        let live : in_deal (v.drivers x) ≡ true = rw e at d in
        let (same, back, below) = h.of_driver x live in
        elim (Bool-cases (j == v.customer_of x)) [
          | inl f ↦
              let at : j ≡ v.customer_of x = ground (arith, f) in
              absurd (cc (ap (λ k. in_deal (v.customers k)) at, ap in_deal same, out_c, live))
          | inr f ↦ rw (e, f) (same, back, below)
        ]
  ];
  of_customer = λ y d. elim (Bool-cases (j == y)) [
    | inl e ↦
        let at : j ≡ y = ground (arith, e) in
        rw (e, update_self v.drivers i promised, update_self v.customer_of i j) (refl, at, hi)
    | inr e ↦
        let live : in_deal (v.customers y) ≡ true = rw e at d in
        let (same, back, below) = h.of_customer y live in
        elim (Bool-cases (i == v.driver_of y)) [
          | inl f ↦
              let at : i ≡ v.driver_of y = ground (arith, f) in
              absurd (cc (ap (λ k. in_deal (v.drivers k)) at, ap in_deal same, out_d, live))
          | inr f ↦ rw (e, f) (same, back, below)
        ]
  ];
}

-- A move of both sides of one deal to the same phase, or out of it.
joint-Paired :
    {nc nd : ℕ} (v : View) (i j : ℕ) (p q : Phase)
    → Paired nc nd v
    → in_deal (v.drivers i) ≡ true
    → v.customer_of i ≡ j
    → v.driver_of j ≡ i
    → (p ≡ q) ⊎ (Outside p × Outside q)
    → Paired nc nd (record v { customers = update v.customers j q; drivers = update v.drivers i p })
joint-Paired v i j p q h live cj di move = record {
  of_driver = λ x d. elim (Bool-cases (i == x)) [
    | inl e ↦
        let at : i ≡ x = ground (arith, e) in
        let of_x : j ≡ v.customer_of x = sym cj ∙ ap v.customer_of at in
        let now : in_deal p ≡ true = rw e at d in
        let (same, back, below) = h.of_driver i live in
        elim move [
          | inl pq ↦
              rw (e, ← of_x, update_self v.customers j q)
                (sym pq, di ∙ at, omega (arith, cj, below))
          | inr out ↦ absurd (cc (out.0, now))
        ]
    | inr e ↦
        let old : in_deal (v.drivers x) ≡ true = rw e at d in
        let (same, back, below) = h.of_driver x old in
        elim (Bool-cases (j == v.customer_of x)) [
          | inl f ↦
              let at : j ≡ v.customer_of x = ground (arith, f) in
              let both : i ≡ x = sym di ∙ ap v.driver_of at ∙ back in
              absurd (ground (arith, both, e))
          | inr f ↦ rw (e, f) (same, back, below)
        ]
  ];
  of_customer = λ y d. elim (Bool-cases (j == y)) [
    | inl e ↦
        let at : j ≡ y = ground (arith, e) in
        let of_y : i ≡ v.driver_of y = sym di ∙ ap v.driver_of at in
        let now : in_deal q ≡ true = rw e at d in
        let (same, back, below) = h.of_driver i live in
        let (same', back', below') =
          h.of_customer j (ap in_deal (ap v.customers (sym cj) ∙ same) ∙ live) in
        elim move [
          | inl pq ↦
              rw (e, ← of_y, update_self v.drivers i p) (pq, cj ∙ at, omega (arith, di, below'))
          | inr out ↦ absurd (cc (out.1, now))
        ]
    | inr e ↦
        let old : in_deal (v.customers y) ≡ true = rw e at d in
        let (same, back, below) = h.of_customer y old in
        elim (Bool-cases (i == v.driver_of y)) [
          | inl f ↦
              let at : i ≡ v.driver_of y = ground (arith, f) in
              let both : j ≡ y = sym cj ∙ ap v.customer_of at ∙ back in
              absurd (ground (arith, both, e))
          | inr f ↦ rw (e, f) (same, back, below)
        ]
  ];
}

early_phase : (p : Phase) → (p ≡ away) ⊎ (p ≡ closed) → Outside p
early_phase p (inl e) = ap in_deal e
early_phase p (inr e) = ap in_deal e

late_phase : (p : Phase) → (p ≡ free) ⊎ (p ≡ closed) → Outside p
late_phase p (inl e) = ap in_deal e
late_phase p (inr e) = ap in_deal e

-- Every move keeps the deals paired.
pub Deal-Paired : {nc nd : ℕ} {v v' : View} → Paired nc nd v → Deal nc nd v v' → Paired nc nd v'
Deal-Paired h nothing = h
Deal-Paired {v = v} h (readied i e) = readied-Paired v i free h (early_phase (v.drivers i) e) refl
Deal-Paired {v = v} h (entered j p e new) = entered-Paired v j p h (ap in_deal e) (late_phase p new)
Deal-Paired {v = v} h (matched i j hi hj ed ec) =
    matched-Paired v i j h hi hj (ap in_deal ed) (ap in_deal ec)
Deal-Paired {v = v} h (brought i e) =
    let (same, back, below) = h.of_driver i (ap in_deal e) in
    joint-Paired v i (v.customer_of i) delivered delivered h (ap in_deal e) refl back (inl refl)
Deal-Paired {v = v} h (paid j p e new) =
    let (same, back, below) = h.of_customer j (ap in_deal e) in
    joint-Paired v (v.driver_of j) j closed p h (ap in_deal (same ∙ e)) back refl
      (inr (refl, late_phase p new))
