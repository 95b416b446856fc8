-- ===== src/Testapp/Shop/Drivers.antt =====
-- testapp/main.cpp: the steps of the thread of a driver.
use operation_system_proj_c.Prelude.{
  ℕ, ◌≡◌, ◌≢◌, ◌⊎◌, inl, inr, refl, sym, ap, subst, ◌∙◌, Bool, true, false, Bool-cases, ◌==◌,
  if◌then◌else◌, arith, update, update_self,
}
use operation_system_proj_c.Testapp.People.{
  Customer, Driver, driver_ready_up, set_location, receive_pizza,
}
use operation_system_proj_c.Testapp.Shop.{
  Shop, DriverPlace, arriving, seeking, delivering, unpaid, CustomerPlace, entering, ordering, left,
  driver_waits, driver_readies, await_payment, hand_over, run_driver,
}
use operation_system_proj_c.Testapp.Shop.Deals.{
  Phase, away, free, promised, delivered, closed, wrong, View, in_deal,
}
use operation_system_proj_c.Testapp.Shop.Phases.{
  driver_phase, customer_phase, view, Sound, Fits, seeking_unmatched, seeking_matched,
  delivering_lem, unpaid_lem, view_of-driver, view_of-customer,
}
use operation_system_proj_c.Testapp.Shop.Sleeps.{Sound-driver_waits, Sound-readied, Sound-brought}

pub ids_update :
    {A : Type 0} (id : A → ℕ) (f : ℕ → A) (i : ℕ) (a : A)
    → ((x : ℕ) → id (f x) ≡ x)
    → id a ≡ i
    → (x : ℕ) → id (update f i a x) ≡ x
ids_update id f i a h e x = elim (Bool-cases (i == x)) [
  | inl t ↦ let at : i ≡ x = ground (arith, t) in rw t (e ∙ at)
  | inr t ↦ rw t (h x)
]

pub update_ne :
    {A : Type 0} (f : ℕ → A) (i : ℕ) (a : A) (x : ℕ) → (i == x) ≡ false → update f i a x ≡ f x
update_ne f i a x e = rw e refl

pub if_elim :
    (P : Shop → Type 0) (b : Bool) (x y : Shop)
    → (b ≡ true → P x)
    → (b ≡ false → P y)
    → P (if b then x else y)
if_elim P true x y f g = f refl
if_elim P false x y f g = g refl

eaten :
    (p : CustomerPlace) (c : Customer)
    → customer_phase p c ≡ promised
    → customer_phase p (receive_pizza c) ≡ delivered
eaten entering c h = ground (arith, h)
eaten ordering c h = ground (arith, h)
eaten left c h = ground (arith, h)

arriving_away : (d : Driver) → driver_phase arriving d ≢ wrong → driver_phase arriving d ≡ away
arriving_away d h = ground (arith, h)

away_lem :
    (p : DriverPlace) (d : Driver)
    → driver_phase p d ≢ wrong
    → p ≡ arriving
    → driver_phase p d ≡ away
away_lem p d h e =
    let right : driver_phase arriving d ≢ wrong = subst (λ q. driver_phase q d ≢ wrong) e h in
    ap (λ q. driver_phase q d) e ∙ arriving_away d right

abbrev pub both : View → ℕ → Phase → ℕ → Phase → View
both v j q i p = record v { customers = update v.customers j q; drivers = update v.drivers i p }

module _ {nc nd : ℕ} where
  driver_readies-Fits :
      (i : ℕ) (s : Shop)
      → Fits nc nd s
      → ((view s).drivers i ≡ away) ⊎ ((view s).drivers i ≡ closed)
      → Fits nc nd (driver_readies i s)
  unfolding driver_ready_up
  driver_readies-Fits i s h e = record {
    customer_ids = h.customer_ids;
    driver_ids =
        ids_update (λ d. d.id) s.drivers i (driver_ready_up (s.drivers i)) h.driver_ids
          (h.driver_ids i);
    sound =
        subst (λ v. Sound nc nd v s.customer_sleeps s.driver_sleeps false)
          (sym (
            view_of-driver s.customers s.drivers s.customer_places s.driver_places
              (update s.driver_places i seeking) i (driver_ready_up (s.drivers i))
              (update_ne s.driver_places i seeking) refl
            ∙ ap
                (λ p. record (view s) {
                  drivers =
                      update (view s).drivers i (driver_phase p (driver_ready_up (s.drivers i)));
                })
                (update_self s.driver_places i seeking)))
          (Sound-readied h.sound i e);
  }

  driver_waits-Fits :
      (i : ℕ) (s : Shop)
      → Fits nc nd s
      → ((view s).drivers i ≡ free) ⊎ ((view s).drivers i ≡ delivered)
      → Fits nc nd (driver_waits i s)
  driver_waits-Fits i s h e = record {
    customer_ids = h.customer_ids;
    driver_ids = h.driver_ids;
    sound = Sound-driver_waits h.sound i e;
  }

  await_payment-Fits :
      (i : ℕ) (s : Shop)
      → Fits nc nd s
      → s.driver_places i ≡ unpaid
      → Fits nc nd (await_payment i s)
  unfolding await_payment
  await_payment-Fits i s h e =
      let right : driver_phase unpaid (s.drivers i) ≢ wrong =
        subst (λ p. driver_phase p (s.drivers i) ≢ wrong) e (h.sound.driver_right i) in
      let (yes_paid, not_paid) = unpaid_lem (s.drivers i) right in
      let here : (view s).drivers i ≡ driver_phase unpaid (s.drivers i) =
        ap (λ p. driver_phase p (s.drivers i)) e in
      if_elim (Fits nc nd) (s.drivers i).paid (driver_readies i s) (driver_waits i s)
        (λ p. driver_readies-Fits i s h (inr (here ∙ yes_paid p)))
        (λ p. driver_waits-Fits i s h (inr (here ∙ not_paid p)))

  delivering-Fits :
      (i : ℕ) (s : Shop)
      → Fits nc nd s
      → s.driver_places i ≡ seeking
      → (s.drivers i).matched ≡ true
      → Fits nc nd (record s {
        driver_places = update s.driver_places i (delivering (s.drivers i).assigned_customer);
      })
  delivering-Fits i s h e m =
      let d = s.drivers i in
      let right : driver_phase seeking d ≢ wrong =
        subst (λ p. driver_phase p d ≢ wrong) e (h.sound.driver_right i) in
      let (before, after) = seeking_matched d right m in
      let same : (x : ℕ)
          → driver_phase (s.driver_places x) (s.drivers x)
            ≡ driver_phase (update s.driver_places i (delivering d.assigned_customer) x)
                (s.drivers x) =
        λ x. elim (Bool-cases (i == x)) [
          | inl t ↦
              let at : i ≡ x = ground (arith, t) in
              rw t (
                ap (λ k. driver_phase (s.driver_places k) (s.drivers k)) (sym at)
                ∙ ap (λ p. driver_phase p d) e
                ∙ before
                ∙ sym after
                ∙ ap (λ k. driver_phase (delivering d.assigned_customer) (s.drivers k)) at)
          | inr t ↦ rw t refl
        ] in
      record {
        customer_ids = h.customer_ids;
        driver_ids = h.driver_ids;
        sound =
            subst
              (λ f.
                Sound nc nd (record (view s) { drivers = f }) s.customer_sleeps s.driver_sleeps
                  s.manager_sleeps)
              (λ t x. same x t) h.sound;
      }

  hand_over-Fits :
      (i c : ℕ) (s : Shop)
      → Fits nc nd s
      → s.driver_places i ≡ delivering c
      → Fits nc nd (hand_over i c s)
  hand_over-Fits i c s h e =
      let d = s.drivers i in
      let right : driver_phase (delivering c) d ≢ wrong =
        subst (λ p. driver_phase p d ≢ wrong) e (h.sound.driver_right i) in
      let (before, at, not_paid, after) = delivering_lem c d right in
      let here : (view s).drivers i ≡ promised = ap (λ p. driver_phase p d) e ∙ before in
      let (same, back, below) = h.sound.paired.of_driver i (ap in_deal here) in
      let there : (view s).customers c ≡ promised = ap (view s).customers (sym at) ∙ same ∙ here in
      let d' = set_location (s.customers c).location d in
      let places = update s.driver_places i unpaid in
      let drive : View → Phase → View = λ v p. record v { drivers = update v.drivers i p } in
      record {
        customer_ids =
            ids_update (λ x. x.id) s.customers c (receive_pizza (s.customers c)) h.customer_ids
              (h.customer_ids c);
        driver_ids = ids_update (λ x. x.id) s.drivers i d' h.driver_ids (h.driver_ids i);
        sound =
            subst
              (λ v.
                Sound nc nd v (update s.customer_sleeps c false) s.driver_sleeps s.manager_sleeps)
              (sym (
                view_of-driver (update s.customers c (receive_pizza (s.customers c))) s.drivers
                  s.customer_places s.driver_places places i d' (update_ne s.driver_places i unpaid)
                  refl
                ∙ ap (λ (v : View). drive v (driver_phase (places i) d'))
                    (view_of-customer s.customers s.drivers s.customer_places s.customer_places
                      s.driver_places c (receive_pizza (s.customers c)) (λ x _. refl) refl)
                ∙ ap
                    (λ p.
                      both (view s) c
                        (customer_phase (s.customer_places c) (receive_pizza (s.customers c))) i p)
                    (ap (λ q. driver_phase q d') (update_self s.driver_places i unpaid) ∙ after)
                ∙ ap (λ p. both (view s) c p i delivered)
                    (eaten (s.customer_places c) (s.customers c) there)))
              (subst
                (λ k.
                  Sound nc nd (both (view s) k delivered i delivered)
                    (update s.customer_sleeps k false) s.driver_sleeps s.manager_sleeps)
                at (Sound-brought h.sound i here));
      }

  run_driver_at :
      (i : ℕ) (s : Shop) (p : DriverPlace)
      → Fits nc nd s
      → s.driver_places i ≡ p
      → Fits nc nd (run_driver i p s)
  unfolding run_driver
  run_driver_at i s arriving h e =
      driver_readies-Fits i s h
        (inl (away_lem (s.driver_places i) (s.drivers i) (h.sound.driver_right i) e))
  run_driver_at i s seeking h e =
      let d = s.drivers i in
      let right : driver_phase seeking d ≢ wrong =
        subst (λ p. driver_phase p d ≢ wrong) e (h.sound.driver_right i) in
      if_elim (Fits nc nd) d.matched
        (record s { driver_places = update s.driver_places i (delivering d.assigned_customer) })
        (driver_waits i s) (λ m. delivering-Fits i s h e m)
        (λ m.
          driver_waits-Fits i s h
            (inl (ap (λ p. driver_phase p d) e ∙ seeking_unmatched d right m)))
  run_driver_at i s (delivering c) h e =
      await_payment-Fits i (hand_over i c s) (hand_over-Fits i c s h e)
        (update_self s.driver_places i unpaid)
  run_driver_at i s unpaid h e = await_payment-Fits i s h e

  pub run_driver-Fits :
      (i : ℕ) (s : Shop) → Fits nc nd s → Fits nc nd (run_driver i (s.driver_places i) s)
  run_driver-Fits i s h = run_driver_at i s (s.driver_places i) h refl
