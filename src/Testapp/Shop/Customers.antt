-- ===== src/Testapp/Shop/Customers.antt =====
-- testapp/main.cpp: the steps of the thread of a customer, and its loop.
use operation_system_proj_c.Prelude.{
  List, [], ◌∷◌, ℕ, zero, suc, ◌≡◌, ◌≢◌, ◌⊎◌, inl, inr, refl, sym, ap, subst, ◌∙◌, true, false,
  Bool-cases, ◌==◌, ◌&&◌, if◌then◌else◌, arith, update, update_self, length,
}
use operation_system_proj_c.Testapp.People.{
  Location, Customer, Driver, customer_ready_up, recieve_payment, is_available, take_request,
  customer_is_done,
}
use operation_system_proj_c.Testapp.Shop.{
  Shop, DriverPlace, arriving, seeking, delivering, unpaid, CustomerPlace, entering, ordering, left,
  customer_waits, customer_readies, pay_driver, customer_rounds, run_customer,
}
use operation_system_proj_c.Testapp.Shop.Deals.{
  Phase, away, free, promised, delivered, closed, wrong, View, in_deal,
}
use operation_system_proj_c.Testapp.Shop.Phases.{
  driver_phase, customer_phase, view, Sound, Fits, customer_again, view_of-driver, view_of-customer,
}
use operation_system_proj_c.Testapp.Shop.Sleeps.{Sound-customer_waits, Sound-entered, Sound-paid}
use operation_system_proj_c.Testapp.Shop.Drivers.{ids_update, update_ne, if_elim}

settled :
    (p : DriverPlace) (d : Driver)
    → driver_phase p d ≡ delivered
    → driver_phase p (recieve_payment d) ≡ closed
settled arriving d h = ground (arith, h)
settled seeking d h = ground (arith, h)
settled (delivering c) d h = ground (arith, h)
settled unpaid d h = ground (arith, h)

entering_away :
    (c : Customer) → customer_phase entering c ≢ wrong → customer_phase entering c ≡ away
entering_away c h = ground (arith, h)

ordering_lem :
    (c : Customer)
    → customer_phase ordering c ≢ wrong
    → (customer_is_done c ≡ true → customer_phase left c ≡ customer_phase ordering c)
      × (customer_is_done c ≡ false
          → (c.has_pizza && c.matched) ≡ true
          → customer_phase ordering c ≡ delivered)
      × (customer_is_done c ≡ false
          → (c.has_pizza && c.matched) ≡ false
          → (customer_phase ordering c ≡ free) ⊎ (customer_phase ordering c ≡ promised))
ordering_lem c h = (
  λ d. ground (arith, h, d),
  λ d p. ground (arith, h, d, p),
  λ d p. elim (Bool-cases (is_available c.status)) [
    | inl a ↦ inl (ground (arith, h, d, p, a))
    | inr a ↦ inr (ground (arith, h, d, p, a))
  ],
)

take_request_same :
    (c : Customer) (requests : List Location)
    → ((take_request c requests).id ≡ c.id)
      × ((take_request c requests).assigned_driver ≡ c.assigned_driver)
take_request_same c [] = (refl, refl)
take_request_same c (r ∷ rest) = (refl, refl)

ready_up_same :
    (c : Customer)
    → ((customer_ready_up c).id ≡ c.id)
      × ((customer_ready_up c).assigned_driver ≡ c.assigned_driver)
unfolding customer_ready_up
ready_up_same c = take_request_same c c.requests

view_of-customer_readies :
    (j : ℕ) (s : Shop)
    → view (customer_readies j s) ≡ record (view s) {
      customers =
          update (view s).customers j (customer_phase ordering (customer_ready_up (s.customers j)));
    }
view_of-customer_readies j s =
    let drive : Phase → View = λ p. record (view s) { customers = update (view s).customers j p } in
    view_of-customer s.customers s.drivers s.customer_places (update s.customer_places j ordering)
      s.driver_places j (customer_ready_up (s.customers j)) (update_ne s.customer_places j ordering)
      (ready_up_same (s.customers j)).1
    ∙ ap (λ p. drive (customer_phase p (customer_ready_up (s.customers j))))
        (update_self s.customer_places j ordering)

module _ {nc nd : ℕ} where
  customer_readies-Fits :
      (j : ℕ) (s : Shop)
      → Fits nc nd s
      → (view s).customers j ≡ away
      → Fits nc nd (customer_readies j s)
  customer_readies-Fits j s h e =
      let c = customer_ready_up (s.customers j) in
      record {
        customer_ids =
            ids_update (λ x. x.id) s.customers j c h.customer_ids
              ((ready_up_same (s.customers j)).0 ∙ h.customer_ids j);
        driver_ids = h.driver_ids;
        sound =
            subst (λ v. Sound nc nd v s.customer_sleeps s.driver_sleeps false)
              (sym (view_of-customer_readies j s))
              (Sound-entered h.sound j (customer_phase ordering c) e
                (customer_again (s.customers j)));
      }

  customer_waits-Fits :
      (j : ℕ) (s : Shop)
      → Fits nc nd s
      → ((view s).customers j ≡ free) ⊎ ((view s).customers j ≡ promised)
      → Fits nc nd (customer_waits j s)
  customer_waits-Fits j s h e = record {
    customer_ids = h.customer_ids;
    driver_ids = h.driver_ids;
    sound = Sound-customer_waits h.sound j e;
  }

  left-Fits :
      (j : ℕ) (s : Shop)
      → Fits nc nd s
      → customer_phase left (s.customers j) ≡ (view s).customers j
      → Fits nc nd (record s { customer_places = update s.customer_places j left })
  left-Fits j s h e =
      let same : (x : ℕ)
          → customer_phase (s.customer_places x) (s.customers x)
            ≡ customer_phase (update s.customer_places j left x) (s.customers x) =
        λ x. elim (Bool-cases (j == x)) [
          | inl t ↦
              let at : j ≡ x = ground (arith, t) in
              rw t
                (sym (subst (λ k. customer_phase left (s.customers k) ≡ (view s).customers k) at e))
          | inr t ↦ rw t refl
        ] in
      record {
        customer_ids = h.customer_ids;
        driver_ids = h.driver_ids;
        sound =
            subst
              (λ f.
                Sound nc nd (record (view s) { customers = f }) s.customer_sleeps s.driver_sleeps
                  s.manager_sleeps)
              (λ t x. same x t) h.sound;
      }

  -- A payment and the next request.
  paid-Fits :
      (j : ℕ) (s : Shop)
      → Fits nc nd s
      → (view s).customers j ≡ delivered
      → Fits nc nd (customer_readies j (pay_driver (s.customers j).assigned_driver s))
  paid-Fits j s h e =
      let i = (s.customers j).assigned_driver in
      let c = customer_ready_up (s.customers j) in
      let d = recieve_payment (s.drivers i) in
      let (same, back, below) = h.sound.paired.of_customer j (ap in_deal e) in
      let s1 = pay_driver i s in
      let drive : Phase → View = λ p. record (view s) { drivers = update (view s).drivers i p } in
      let order : View → View =
        λ v. record v { customers = update v.customers j (customer_phase ordering c) } in
      record {
        customer_ids =
            ids_update (λ x. x.id) s.customers j c h.customer_ids
              ((ready_up_same (s.customers j)).0 ∙ h.customer_ids j);
        driver_ids = ids_update (λ x. x.id) s.drivers i d h.driver_ids (h.driver_ids i);
        sound =
            subst (λ v. Sound nc nd v s.customer_sleeps (update s.driver_sleeps i false) false)
              (sym (
                view_of-customer_readies j s1
                ∙ ap order (
                    view_of-driver s.customers s.drivers s.customer_places s.driver_places
                      s.driver_places i d (λ x _. refl) refl
                    ∙ ap drive (settled (s.driver_places i) (s.drivers i) (same ∙ e)))))
              (Sound-paid h.sound j (customer_phase ordering c) e (customer_again (s.customers j)));
      }

  customer_rounds-Fits :
      (fuel j : ℕ) (s : Shop)
      → Fits nc nd s
      → s.customer_places j ≡ ordering
      → Fits nc nd (customer_rounds fuel j s)
  unfolding customer_rounds
  customer_rounds-Fits zero j s h e = h
  customer_rounds-Fits (suc fuel) j s h e =
      let c = s.customers j in
      let here : (view s).customers j ≡ customer_phase ordering c =
        ap (λ p. customer_phase p c) e in
      let right : customer_phase ordering c ≢ wrong =
        subst (λ p. customer_phase p c ≢ wrong) e (h.sound.customer_right j) in
      let (gone, pays, waits) = ordering_lem c right in
      let s1 = customer_readies j (pay_driver c.assigned_driver s) in
      let gone_state : Shop = record s { customer_places = update s.customer_places j left } in
      if_elim (Fits nc nd) (customer_is_done c) gone_state
        (if c.has_pizza && c.matched then customer_rounds fuel j s1 else customer_waits j s)
        (λ t. left-Fits j s h (gone t ∙ sym here))
        (λ t.
          if_elim (Fits nc nd) (c.has_pizza && c.matched) (customer_rounds fuel j s1)
            (customer_waits j s)
            (λ p.
              customer_rounds-Fits fuel j s1 (paid-Fits j s h (here ∙ pays t p))
                (update_self s.customer_places j ordering))
            (λ p.
              customer_waits-Fits j s h
                (elim (waits t p) [ inl w ↦ inl (here ∙ w) | inr w ↦ inr (here ∙ w) ])))

  run_customer_at :
      (j : ℕ) (s : Shop) (p : CustomerPlace)
      → Fits nc nd s
      → s.customer_places j ≡ p
      → Fits nc nd (run_customer j p s)
  unfolding run_customer
  run_customer_at j s entering h e =
      let c = s.customers j in
      let right : customer_phase entering c ≢ wrong =
        subst (λ p. customer_phase p c ≢ wrong) e (h.sound.customer_right j) in
      customer_readies-Fits j s h (ap (λ p. customer_phase p c) e ∙ entering_away c right)
  run_customer_at j s ordering h e =
      customer_rounds-Fits (suc (suc (length (s.customers j).requests))) j s h e
  run_customer_at j s left h e = h

  pub run_customer-Fits :
      (j : ℕ) (s : Shop) → Fits nc nd s → Fits nc nd (run_customer j (s.customer_places j) s)
  run_customer-Fits j s h = run_customer_at j s (s.customer_places j) h refl

-- The customer waits, or its thread has ended.
abbrev pub Rests : ℕ → Shop → Type 0
Rests j s = (s.customer_places j ≡ left) ⊎ (s.customer_sleeps j ≡ true)

resting_lem :
    (c : Customer)
    → (customer_phase ordering c ≡ free) ⊎ (customer_phase ordering c ≡ closed)
    → (customer_is_done c ≡ true)
      ⊎ ((customer_is_done c ≡ false) × ((c.has_pizza && c.matched) ≡ false))
resting_lem c (inl e) = inr (ground (arith, e), ground (arith, e))
resting_lem c (inr e) = inl (ground (arith, e))

customer_rounds-Rests_next :
    (fuel j : ℕ) (s : Shop)
    → (customer_is_done (s.customers j) ≡ true)
      ⊎ ((customer_is_done (s.customers j) ≡ false)
          × (((s.customers j).has_pizza && (s.customers j).matched) ≡ false))
    → Rests j (customer_rounds (suc fuel) j s)
unfolding customer_rounds
customer_rounds-Rests_next fuel j s (inl e) =
    if_elim (Rests j) (customer_is_done (s.customers j))
      (record s { customer_places = update s.customer_places j left }) _
      (λ _. inl (update_self s.customer_places j left)) (λ f. absurd (cc (e, f)))
customer_rounds-Rests_next fuel j s (inr (e, f)) =
    if_elim (Rests j) (customer_is_done (s.customers j)) _
      (if (s.customers j).has_pizza && (s.customers j).matched then _ else customer_waits j s)
      (λ t. absurd (cc (e, t)))
      (λ _.
        if_elim (Rests j) ((s.customers j).has_pizza && (s.customers j).matched) _
          (customer_waits j s) (λ t. absurd (cc (f, t)))
          (λ _. inr (update_self s.customer_sleeps j true)))

-- The fuel of the loop suffices: a step of a customer that is in its loop ends with a wait or with the
-- end of the thread.
pub run_customer-Rests : (j : ℕ) (s : Shop) → Rests j (run_customer j ordering s)
unfolding run_customer customer_rounds
run_customer-Rests j s =
    let c = s.customers j in
    let fuel = length c.requests in
    let s1 = customer_readies j (pay_driver c.assigned_driver s) in
    let again : s1.customers j ≡ customer_ready_up c =
      update_self s.customers j (customer_ready_up c) in
    if_elim (Rests j) (customer_is_done c)
      (record s { customer_places = update s.customer_places j left })
      (if c.has_pizza && c.matched then customer_rounds (suc fuel) j s1 else customer_waits j s)
      (λ _. inl (update_self s.customer_places j left))
      (λ _.
        if_elim (Rests j) (c.has_pizza && c.matched) (customer_rounds (suc fuel) j s1)
          (customer_waits j s)
          (λ _. customer_rounds-Rests_next fuel j s1 (
            subst
              (λ (k : Customer).
                (customer_is_done k ≡ true)
                ⊎ ((customer_is_done k ≡ false) × ((k.has_pizza && k.matched) ≡ false)))
              (sym again) (resting_lem (customer_ready_up c) (customer_again c))))
          (λ _. inr (update_self s.customer_sleeps j true)))
