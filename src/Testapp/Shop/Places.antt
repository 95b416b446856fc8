-- ===== src/Testapp/Shop/Places.antt =====
-- testapp/main.cpp: where the customers and drivers are, and what the manager finds.
use operation_system_proj_c.Prelude.{
  ℕ, zero, suc, ◌≡◌, ◌≢◌, inl, inr, refl, sym, ap, subst, ◌∙◌, true, false, Bool-cases, some,
  Option-cases, ◌==◌, ◌&&◌, if◌then◌else◌, List, [], ◌∷◌, arith, update,
}
use operation_system_proj_c.Testapp.People.{
  Location, Customer, Driver, customer_is_ready, customer_is_done, is_finished, customer_ready_up,
  driver_ready_up, take_request, set_driver, set_customer, customer_set_unavailable,
  driver_set_unavailable, receive_pizza, recieve_payment, set_location,
}
use operation_system_proj_c.Testapp.Match.{has_available_delivery, match_delivery}
use operation_system_proj_c.Testapp.Match.Nearest.{
  Near, match_delivery-IsNearest, match_delivery-ready,
}
use operation_system_proj_c.Testapp.Shop.{
  Shop, DriverPlace, arriving, seeking, delivering, unpaid, CustomerPlace, entering, ordering, left,
  driver_waits, driver_readies, await_payment, hand_over, run_driver, customer_waits,
  customer_readies, pay_driver, customer_rounds, run_customer, objects_from, assign, run_manager,
  Step, driver, customer, manager, opening, Reach, start, more,
}
use operation_system_proj_c.Testapp.Shop.Deals.{free, promised, wrong, in_deal}
use operation_system_proj_c.Testapp.Shop.Phases.{
  driver_phase, customer_phase, view, Fits, delivering_lem,
}
use operation_system_proj_c.Testapp.Shop.Drivers.{if_elim}
use operation_system_proj_c.Testapp.Shop.Manager.{customer_place, driver_place, ready_customer_free}
use operation_system_proj_c.Testapp.Shop.Reachable.{opening-Fits, Step-Fits}

abbrev pub AllNear : List Location → Type 0
AllNear [] = Unit {0}
AllNear (l ∷ ls) = Near l × AllNear ls

-- A customer that has entered and has not finished is near, and so is all that it will order.
abbrev CustomerNear : CustomerPlace → Customer → Type 0
CustomerNear p c =
    (p ≢ entering → is_finished c.status ≡ false → Near c.location) × AllNear c.requests

pub record AreNear (s : Shop) : Type 0 where
  pub customers : (j : ℕ) → CustomerNear (s.customer_places j) (s.customers j)
  pub drivers : (i : ℕ) → Near (s.drivers i).location

drivers_update :
    (f : ℕ → Driver) (i : ℕ) (d : Driver)
    → ((x : ℕ) → Near (f x).location)
    → Near d.location
    → (x : ℕ) → Near (update f i d x).location
drivers_update f i d h new x = elim (Bool-cases (i == x)) [ inl e ↦ rw e new | inr e ↦ rw e (h x) ]

customers_update :
    (ps ps' : ℕ → CustomerPlace) (f : ℕ → Customer) (j : ℕ) (c : Customer)
    → ((x : ℕ) → CustomerNear (ps x) (f x))
    → ((x : ℕ) → (j == x) ≡ false → ps' x ≡ ps x)
    → CustomerNear (ps' j) c
    → (x : ℕ) → CustomerNear (ps' x) (update f j c x)
customers_update ps ps' f j c h others new x = elim (Bool-cases (j == x)) [
  | inl e ↦ let at : j ≡ x = ground (arith, e) in rw e (subst (λ k. CustomerNear (ps' k) c) at new)
  | inr e ↦ rw e (subst (λ p. CustomerNear p (f x)) (sym (others x e)) (h x))
]

take_request-CustomerNear :
    (p : CustomerPlace) (c : Customer) (rs : List Location)
    → AllNear rs
    → AllNear c.requests
    → CustomerNear p (take_request c rs)
take_request-CustomerNear p c [] h all = (λ _ e. cc e, all)
take_request-CustomerNear p c (r ∷ rs) h all = (λ _ _. h.0, h.1)

place_update :
    (ps : ℕ → CustomerPlace) (j : ℕ) (p : CustomerPlace) (x : ℕ)
    → (j == x) ≡ false
    → update ps j p x ≡ ps x
place_update ps j p x e = rw e refl

customer_readies-AreNear : (j : ℕ) (s : Shop) → AreNear s → AreNear (customer_readies j s)
unfolding customer_ready_up
customer_readies-AreNear j s h = record {
  customers =
      customers_update s.customer_places (update s.customer_places j ordering) s.customers j
        (take_request (s.customers j) (s.customers j).requests) h.customers
        (place_update s.customer_places j ordering)
        (take_request-CustomerNear _ (s.customers j) (s.customers j).requests (h.customers j).1
          (h.customers j).1);
  drivers = h.drivers;
}

driver_readies-AreNear : (i : ℕ) (s : Shop) → AreNear s → AreNear (driver_readies i s)
unfolding driver_ready_up
driver_readies-AreNear i s h = record {
  customers = h.customers;
  drivers = drivers_update s.drivers i (driver_ready_up (s.drivers i)) h.drivers (h.drivers i);
}

await_payment-AreNear : (i : ℕ) (s : Shop) → AreNear s → AreNear (await_payment i s)
unfolding await_payment
await_payment-AreNear i s h =
    if_elim AreNear (s.drivers i).paid (driver_readies i s) (driver_waits i s)
      (λ _. driver_readies-AreNear i s h)
      (λ _. record { customers = h.customers; drivers = h.drivers })

pay_driver-AreNear : (i : ℕ) (s : Shop) → AreNear s → AreNear (pay_driver i s)
pay_driver-AreNear i s h = record {
  customers = h.customers;
  drivers = drivers_update s.drivers i (recieve_payment (s.drivers i)) h.drivers (h.drivers i);
}

left-AreNear :
    (j : ℕ) (s : Shop)
    → AreNear s
    → customer_is_done (s.customers j) ≡ true
    → AreNear (record s { customer_places = update s.customer_places j left })
left-AreNear j s h done = record {
  customers = λ x. elim (Bool-cases (j == x)) [
    | inl e ↦
        let at : j ≡ x = ground (arith, e) in
        let gone : customer_is_done (s.customers x) ≡ true =
          subst (λ k. customer_is_done (s.customers k) ≡ true) at done in
        (λ _ f. absurd (cc (gone, f)), (h.customers x).1)
    | inr e ↦ rw e (h.customers x)
  ];
  drivers = h.drivers;
}

customer_rounds-AreNear : (fuel j : ℕ) (s : Shop) → AreNear s → AreNear (customer_rounds fuel j s)
unfolding customer_rounds
customer_rounds-AreNear zero j s h = h
customer_rounds-AreNear (suc fuel) j s h =
    let c = s.customers j in
    let s1 = customer_readies j (pay_driver c.assigned_driver s) in
    let gone_state : Shop = record s { customer_places = update s.customer_places j left } in
    if_elim AreNear (customer_is_done c) gone_state
      (if c.has_pizza && c.matched then customer_rounds fuel j s1 else customer_waits j s)
      (λ t. left-AreNear j s h t)
      (λ _.
        if_elim AreNear (c.has_pizza && c.matched) (customer_rounds fuel j s1) (customer_waits j s)
          (λ _. customer_rounds-AreNear fuel j s1 (
            customer_readies-AreNear j (pay_driver c.assigned_driver s)
              (pay_driver-AreNear c.assigned_driver s h)))
          (λ _. record { customers = h.customers; drivers = h.drivers }))

run_customer-AreNear :
    (j : ℕ) (p : CustomerPlace) (s : Shop) → AreNear s → AreNear (run_customer j p s)
unfolding run_customer
run_customer-AreNear j entering s h = customer_readies-AreNear j s h
run_customer-AreNear j ordering s h = customer_rounds-AreNear _ j s h
run_customer-AreNear j left s h = h

-- Who has a pizza coming has entered and has not finished.
promised_near :
    (p : CustomerPlace) (c : Customer)
    → customer_phase p c ≡ promised
    → (p ≢ entering) × (is_finished c.status ≡ false)
promised_near entering c h = ground (arith, h)
promised_near ordering c h = (λ e. cc e, ground (arith, h))
promised_near left c h = ground (arith, h)

free_near :
    (p : CustomerPlace) (c : Customer)
    → customer_phase p c ≡ free
    → (p ≢ entering) × (is_finished c.status ≡ false)
free_near entering c h = ground (arith, h)
free_near ordering c h = (λ e. cc e, ground (arith, h))
free_near left c h = ground (arith, h)

assign-AreNear :
    (j i : ℕ) (s : Shop) → AreNear s → Near (s.customers j).location → AreNear (assign j i s)
unfolding assign
assign-AreNear j i s h near = record {
  customers =
      customers_update s.customer_places s.customer_places s.customers j
        (set_driver i (customer_set_unavailable (s.customers j))) h.customers (λ x _. refl)
        (λ _ _. near, (h.customers j).1);
  drivers =
      drivers_update s.drivers i (set_customer j (driver_set_unavailable (s.drivers i))) h.drivers
        (h.drivers i);
}

module _ {nc nd : ℕ} where
  recipient_promised :
      (i c : ℕ) (s : Shop)
      → Fits nc nd s
      → s.driver_places i ≡ delivering c
      → (view s).customers c ≡ promised
  recipient_promised i c s h e =
      let d = s.drivers i in
      let right : driver_phase (delivering c) d ≢ wrong =
        subst (λ p. driver_phase p d ≢ wrong) e (h.sound.driver_right i) in
      let (before, at, not_paid, after) = delivering_lem c d right in
      let here : (view s).drivers i ≡ promised = ap (λ p. driver_phase p d) e ∙ before in
      let (same, back, below) = h.sound.paired.of_driver i (ap in_deal here) in
      ap (view s).customers (sym at) ∙ same ∙ here

  hand_over-AreNear :
      (i c : ℕ) (s : Shop)
      → Fits nc nd s
      → AreNear s
      → s.driver_places i ≡ delivering c
      → AreNear (hand_over i c s)
  hand_over-AreNear i c s fits h e =
      let (inside, unfinished) =
        promised_near (s.customer_places c) (s.customers c) (recipient_promised i c s fits e) in
      record {
        customers =
            customers_update s.customer_places s.customer_places s.customers c
              (receive_pizza (s.customers c)) h.customers (λ x _. refl) (h.customers c);
        drivers =
            drivers_update s.drivers i (set_location (s.customers c).location (s.drivers i))
              h.drivers ((h.customers c).0 inside unfinished);
      }

  run_driver-AreNear :
      (i : ℕ) (p : DriverPlace) (s : Shop)
      → Fits nc nd s
      → AreNear s
      → s.driver_places i ≡ p
      → AreNear (run_driver i p s)
  unfolding run_driver
  run_driver-AreNear i arriving s fits h e = driver_readies-AreNear i s h
  run_driver-AreNear i seeking s fits h e =
      if_elim AreNear (s.drivers i).matched
        (record s {
          driver_places = update s.driver_places i (delivering (s.drivers i).assigned_customer);
        })
        (driver_waits i s) (λ _. record { customers = h.customers; drivers = h.drivers })
        (λ _. record { customers = h.customers; drivers = h.drivers })
  run_driver-AreNear i (delivering c) s fits h e =
      await_payment-AreNear i (hand_over i c s) (hand_over-AreNear i c s fits h e)
  run_driver-AreNear i unpaid s fits h e = await_payment-AreNear i s h

  ready-Near :
      (s : Shop)
      → Fits nc nd s
      → AreNear s
      → (j : ℕ) → customer_is_ready (s.customers j) ≡ true
      → Near (s.customers j).location
  ready-Near s fits h j r =
      let at =
        ready_customer_free (s.customer_places j) (s.customers j) (fits.sound.customer_right j) r in
      let (inside, unfinished) = free_near (s.customer_places j) (s.customers j) at in
      (h.customers j).0 inside unfinished

  run_manager-AreNear :
      (s s' : Shop) → Fits nc nd s → AreNear s → run_manager nc nd s ≡ some s' → AreNear s'
  unfolding run_manager
  run_manager-AreNear s s' fits h e =
      let cs = objects_from s.customers 0 nc in
      let ds = objects_from s.drivers 0 nd in
      elim (Bool-cases (has_available_delivery cs ds)) [
        | inr idle ↦
            let r : some (record s { manager_sleeps = true }) ≡ some s' = rw idle at e in
            let same : record s { manager_sleeps = true } ≡ s' = cc r in
            subst AreNear same (record { customers = h.customers; drivers = h.drivers })
        | inl busy ↦ elim (Option-cases (match_delivery cs ds)) [
          | inl null ↦ cc (rw (busy, null) at e)
          | inr (pair, found) ↦
              let r : some (assign pair.0.id pair.1.id s) ≡ some s' = rw (busy, found) at e in
              let same : assign pair.0.id pair.1.id s ≡ s' = cc r in
              let (in_c, in_d) = match_delivery-ready cs ds found in
              let (j, hj, cj, rj) = customer_place s.customers 0 nc pair.0 in_c in
              let id_c : j ≡ pair.0.id =
                sym (ap (λ (x : Customer). x.id) cj ∙ fits.customer_ids j) in
              subst AreNear same (
                assign-AreNear pair.0.id pair.1.id s h
                  (subst (λ k. Near (s.customers k).location) id_c (ready-Near s fits h j rj)))
        ]
      ]

  Step-AreNear : {s s' : Shop} → Fits nc nd s → AreNear s → Step nc nd s s' → AreNear s'
  Step-AreNear {s = s} fits h (driver i below awake) =
      run_driver-AreNear i (s.driver_places i) s fits h refl
  Step-AreNear {s = s} fits h (customer j below awake here) =
      run_customer-AreNear j (s.customer_places j) s h
  Step-AreNear {s = s} fits h (manager s' awake run) = run_manager-AreNear s s' fits h run

  Reach-AreNear :
      {s s' : Shop} → Fits nc nd s → AreNear s → Reach nc nd s s' → Fits nc nd s' × AreNear s'
  Reach-AreNear fits h start = (fits, h)
  Reach-AreNear fits h (more r step) =
      let (fits1, h1) = Reach-AreNear fits h r in (Step-Fits fits1 step, Step-AreNear fits1 h1 step)

  run_manager-some :
      (s : Shop) → Fits nc nd s → AreNear s → (s' : Shop) × (run_manager nc nd s ≡ some s')
  unfolding run_manager
  run_manager-some s fits h =
      let cs = objects_from s.customers 0 nc in
      let ds = objects_from s.drivers 0 nd in
      elim (Bool-cases (has_available_delivery cs ds)) [
        | inr idle ↦ (record s { manager_sleeps = true }, rw idle refl)
        | inl busy ↦
            let (c, d, chosen, nearest) =
              match_delivery-IsNearest cs ds busy
                (λ c m.
                  let (j, hj, cj, rj) = customer_place s.customers 0 nc c m in
                  subst (λ (x : Customer). Near x.location) (sym cj) (ready-Near s fits h j rj))
                (λ d m.
                  let (i, hi, di, ri) = driver_place s.drivers 0 nd d m in
                  subst (λ (x : Driver). Near x.location) (sym di) (h.drivers i)) in
            (assign c.id d.id s, rw (busy, chosen) refl)
      ]

-- If all requests of the files are at coordinates below 2^30, then in every reachable state a round of
-- the manager comes to its end: `match_delivery` gives no null pointer.
pub Reach-run_manager :
    (nc nd : ℕ) (cm : ℕ → Customer) (dm : ℕ → Driver) (rq : ℕ → List Location)
    → ((j : ℕ) → AllNear (rq j))
    → (s : Shop) → Reach nc nd (opening cm dm rq) s
    → (s' : Shop) × (run_manager nc nd s ≡ some s')
Reach-run_manager nc nd cm dm rq near s r =
    let at_opening : AreNear (opening cm dm rq) = record {
      customers = λ j. (λ inside _. absurd (inside refl), near j);
      drivers = λ i. (omega arith, omega arith);
    } in
    let (fits, h) = Reach-AreNear (opening-Fits {nc = nc} {nd = nd} cm dm rq) at_opening r in
    run_manager-some s fits h
