-- ===== src/Testapp/Shop/Reachable.antt =====
-- testapp/main.cpp: what holds whenever a thread gives the lock back.
use operation_system_proj_c.Prelude.{
  ℕ, ◌<◌, ◌≡◌, ◌≢◌, ◌⊎◌, inl, inr, refl, sym, ap, ◌∙◌, true, false, List, arith,
}
use operation_system_proj_c.Testapp.People.{Location, Customer, Driver, customer_is_done}
use operation_system_proj_c.Testapp.Shop.{
  Shop, DriverPlace, arriving, seeking, delivering, unpaid, CustomerPlace, entering, ordering, left,
  Step, driver, customer, manager, opening, Reach, start, more,
}
use operation_system_proj_c.Testapp.Shop.Deals.{free, closed, wrong, in_deal}
use operation_system_proj_c.Testapp.Shop.Phases.{driver_phase, customer_phase, view, Fits}
use operation_system_proj_c.Testapp.Shop.Drivers.{run_driver-Fits}
use operation_system_proj_c.Testapp.Shop.Customers.{run_customer-Fits}
use operation_system_proj_c.Testapp.Shop.Manager.{run_manager-Fits}

pub Step-Fits : {nc nd : ℕ} {s s' : Shop} → Fits nc nd s → Step nc nd s s' → Fits nc nd s'
Step-Fits {s = s} h (driver i below awake) = run_driver-Fits i s h
Step-Fits {s = s} h (customer j below awake here) = run_customer-Fits j s h
Step-Fits {s = s} h (manager s' awake run) = run_manager-Fits s s' h run

pub opening-Fits :
    {nc nd : ℕ} (cm : ℕ → Customer) (dm : ℕ → Driver) (rq : ℕ → List Location)
    → Fits nc nd (opening cm dm rq)
opening-Fits cm dm rq = record {
  customer_ids = λ j. refl;
  driver_ids = λ i. refl;
  sound = record {
    customer_right = λ j w. cc w;
    driver_right = λ i w. cc w;
    paired = record { of_driver = λ i d. cc d; of_customer = λ j d. cc d };
    customer_sleep = λ j d. cc d;
    driver_sleep = λ i d. cc d;
    manager_sleep = λ d. cc d;
  };
}

Reach-from : {nc nd : ℕ} {s s' : Shop} → Fits nc nd s → Reach nc nd s s' → Fits nc nd s'
Reach-from h start = h
Reach-from h (more r step) = Step-Fits (Reach-from h r) step

matched_deal :
    (p : DriverPlace) (d : Driver)
    → driver_phase p d ≢ wrong
    → d.matched ≡ true
    → d.paid ≡ false
    → in_deal (driver_phase p d) ≡ true
matched_deal arriving d w m p = ground (arith, w, m, p)
matched_deal seeking d w m p = ground (arith, w, m, p)
matched_deal (delivering c) d w m p = ground (arith, w, m, p)
matched_deal unpaid d w m p = ground (arith, w, m, p)

closed_done :
    (p : CustomerPlace) (c : Customer)
    → customer_phase p c ≢ wrong
    → p ≡ left
    → customer_is_done c ≡ true
closed_done entering c w e = cc e
closed_done ordering c w e = cc e
closed_done left c w e = ground (arith, w)

done_closed :
    (p : CustomerPlace) (c : Customer)
    → customer_phase p c ≢ wrong
    → p ≡ left
    → customer_phase p c ≡ closed
done_closed entering c w e = cc e
done_closed ordering c w e = cc e
done_closed left c w e = ground (arith, w)

module _ (nc nd : ℕ) where
  -- Nobody has a step to make: all drivers and the manager sleep, and every customer sleeps or its thread
  -- has ended.
  pub record AllRest (s : Shop) : Type 0 where
    pub drivers : (i : ℕ) → i < nd → s.driver_sleeps i ≡ true
    pub customers : (j : ℕ) → j < nc → (s.customer_sleeps j ≡ true) ⊎ (s.customer_places j ≡ left)
    pub manager_rests : s.manager_sleeps ≡ true

  rest_free : (s : Shop) → Fits nc nd s → AllRest s → (i : ℕ) → i < nd → (view s).drivers i ≡ free
  rest_free s h rest i hi = elim (h.sound.driver_sleep i (rest.drivers i hi)) [
    | inl e ↦ e
    | inr e ↦
        let (same, back, below) = h.sound.paired.of_driver i (ap in_deal e) in
        let j = (view s).customer_of i in
        elim (rest.customers j below) [
          | inl sleeps ↦ elim (h.sound.customer_sleep j sleeps) [
            | inl f ↦ absurd (cc (same, e, f))
            | inr f ↦ absurd (cc (same, e, f))
          ]
          | inr gone ↦ absurd (
              cc (
                same,
                e,
                done_closed (s.customer_places j) (s.customers j) (h.sound.customer_right j) gone,
              ))
        ]
  ]

module _ (nc nd : ℕ) (cm : ℕ → Customer) (dm : ℕ → Driver) (rq : ℕ → List Location) where
  -- Whatever the files ask for and in whichever order the threads run, in every state that they reach
  -- every thread is at a phase that fits its place; a driver with a deal and its customer name each
  -- other, are among those of the program, and agree on whether the pizza has been delivered; a driver
  -- sleeps only without a deal or delivered and unpaid, a customer only without a deal or before the
  -- delivery, and the manager only if no customer or no driver is ready.
  pub Reach-Fits : (s : Shop) → Reach nc nd (opening cm dm rq) s → Fits nc nd s
  Reach-Fits s r = Reach-from (opening-Fits cm dm rq) r

  -- In every reachable state, two drivers who are matched, not paid yet, and have the same customer are
  -- the same driver.
  Reach-matched_once :
      (s : Shop)
      → Reach nc nd (opening cm dm rq) s
      → (i k : ℕ) → (s.drivers i).matched ≡ true
      → (s.drivers i).paid ≡ false
      → (s.drivers k).matched ≡ true
      → (s.drivers k).paid ≡ false
      → (s.drivers i).assigned_customer ≡ (s.drivers k).assigned_customer
      → i ≡ k
  Reach-matched_once s r i k mi pi mk pk same =
      let h = Reach-Fits s r in
      let (e1, back_i, below1) =
        h.sound.paired.of_driver i
          (matched_deal (s.driver_places i) (s.drivers i) (h.sound.driver_right i) mi pi) in
      let (e2, back_k, below2) =
        h.sound.paired.of_driver k
          (matched_deal (s.driver_places k) (s.drivers k) (h.sound.driver_right k) mk pk) in
      sym back_i ∙ ap (view s).driver_of same ∙ back_k

  -- With at least one driver there is no deadlock: if a reachable state has no thread with a step to
  -- make, then every customer is marked as finished.
  pub Reach-no_deadlock :
      0 < nd
      → (s : Shop) → Reach nc nd (opening cm dm rq) s
      → AllRest nc nd s
      → (j : ℕ) → j < nc
      → customer_is_done (s.customers j) ≡ true
  Reach-no_deadlock some_driver s r rest j hj =
      let h = Reach-Fits s r in
      elim (rest.customers j hj) [
        | inr gone ↦
            closed_done (s.customer_places j) (s.customers j) (h.sound.customer_right j) gone
        | inl sleeps ↦ elim (h.sound.customer_sleep j sleeps) [
          | inl f ↦ elim (h.sound.manager_sleep rest.manager_rests) [
            | inl none_free ↦ absurd (none_free j hj f)
            | inr none_free ↦
                absurd (none_free 0 some_driver (rest_free nc nd s h rest 0 some_driver))
          ]
          | inr f ↦
              let (same, back, below) = h.sound.paired.of_customer j (ap in_deal f) in
              absurd (cc (same, f, rest_free nc nd s h rest ((view s).driver_of j) below))
        ]
      ]
