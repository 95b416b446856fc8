-- ===== src/Testapp/Shop/Manager.antt =====
-- testapp/main.cpp: the rounds of the manager.
use operation_system_proj_c.Prelude.{
  ℕ, zero, suc, ◌+◌, ◌<◌, ◌≤◌, ◌≡◌, ◌≢◌, inl, inr, refl, sym, ap, subst, ◌∙◌, true, false,
  Bool-cases, some, Option-cases, ◌==◌, arith, update,
}
use operation_system_proj_c.Testapp.People.{
  Customer, Driver, Status, available, unavailable, finished, customer_is_ready, driver_is_ready,
  is_available, is_finished, set_driver, set_customer, customer_set_unavailable,
  driver_set_unavailable,
}
use operation_system_proj_c.Testapp.Match.{
  has_available_delivery, match_delivery, any_customer_ready, any_driver_ready,
}
use operation_system_proj_c.Testapp.Match.Nearest.{ReadyCustomer, ReadyDriver, match_delivery-ready}
use operation_system_proj_c.Testapp.Shop.{
  Shop, DriverPlace, arriving, seeking, delivering, unpaid, CustomerPlace, entering, ordering, left,
  objects_from, assign, run_manager,
}
use operation_system_proj_c.Testapp.Shop.Deals.{free, promised, wrong}
use operation_system_proj_c.Testapp.Shop.Phases.{
  driver_phase, customer_phase, view, NoDelivery, Sound, Fits,
}
use operation_system_proj_c.Testapp.Shop.Sleeps.{Sound-manager_waits, Sound-matched}
use operation_system_proj_c.Testapp.Shop.Drivers.{ids_update}

-- Who is ready, by the phase.
pub free_customer :
    (p : CustomerPlace) (c : Customer) → customer_phase p c ≡ free → customer_is_ready c ≡ true
free_customer entering c h = ground (arith, h)
free_customer ordering c h = ground (arith, h)
free_customer left c h = ground (arith, h)

free_driver : (p : DriverPlace) (d : Driver) → driver_phase p d ≡ free → driver_is_ready d ≡ true
free_driver arriving d h = ground (arith, h)
free_driver seeking d h = ground (arith, h)
free_driver (delivering c) d h = ground (arith, h)
free_driver unpaid d h = ground (arith, h)

pub available_unfinished : (x : Status) → is_available x ≡ true → is_finished x ≡ false
available_unfinished available h = refl
available_unfinished unavailable h = refl
available_unfinished finished h = cc h

pub ready_customer_free :
    (p : CustomerPlace) (c : Customer)
    → customer_phase p c ≢ wrong
    → customer_is_ready c ≡ true
    → customer_phase p c ≡ free
ready_customer_free entering c w h = ground (arith, w, h)
ready_customer_free ordering c w h = ground (arith, w, h, available_unfinished c.status h)
ready_customer_free left c w h = ground (arith, w, h, available_unfinished c.status h)

ready_driver_free :
    (p : DriverPlace) (d : Driver)
    → driver_phase p d ≢ wrong
    → driver_is_ready d ≡ true
    → driver_phase p d ≡ free
ready_driver_free arriving d w h = ground (arith, w, h)
ready_driver_free seeking d w h = ground (arith, w, h)
ready_driver_free (delivering c) d w h = ground (arith, w, h)
ready_driver_free unpaid d w h = ground (arith, w, h)

promise_customer :
    (p : CustomerPlace) (c : Customer) (i : ℕ)
    → customer_phase p c ≡ free
    → customer_phase p (set_driver i (customer_set_unavailable c)) ≡ promised
promise_customer entering c i h = ground (arith, h)
promise_customer ordering c i h = ground (arith, h)
promise_customer left c i h = ground (arith, h)

promise_driver :
    (p : DriverPlace) (d : Driver) (j : ℕ)
    → driver_phase p d ≡ free
    → driver_phase p (set_customer j (driver_set_unavailable d)) ≡ promised
promise_driver arriving d j h = ground (arith, h)
promise_driver seeking d j h = ground (arith, h)
promise_driver (delivering c) d j h = ground (arith, h)
promise_driver unpaid d j h = ground (arith, h)

-- The objects of a vector, by their places.
no_customer_ready :
    (f : ℕ → Customer) (b n : ℕ)
    → any_customer_ready (objects_from f b n) ≡ false
    → (j : ℕ) → b ≤ j
    → j < b + n
    → customer_is_ready (f j) ≡ false
unfolding any_customer_ready
no_customer_ready f b zero h j lo hi = absurd (omega (arith, lo, hi))
no_customer_ready f b (suc n) h j lo hi = elim (Bool-cases (b == j)) [
  | inl e ↦
      let at : b ≡ j = ground (arith, e) in
      subst (λ k. customer_is_ready (f k) ≡ false) at (ground (arith, h))
  | inr e ↦
      no_customer_ready f (b + 1) n (ground (arith, h)) j (ground (arith, lo, e))
        (omega (arith, hi))
]

no_driver_ready :
    (f : ℕ → Driver) (b n : ℕ)
    → any_driver_ready (objects_from f b n) ≡ false
    → (i : ℕ) → b ≤ i
    → i < b + n
    → driver_is_ready (f i) ≡ false
unfolding any_driver_ready
no_driver_ready f b zero h i lo hi = absurd (omega (arith, lo, hi))
no_driver_ready f b (suc n) h i lo hi = elim (Bool-cases (b == i)) [
  | inl e ↦
      let at : b ≡ i = ground (arith, e) in
      subst (λ k. driver_is_ready (f k) ≡ false) at (ground (arith, h))
  | inr e ↦
      no_driver_ready f (b + 1) n (ground (arith, h)) i (ground (arith, lo, e)) (omega (arith, hi))
]

pub customer_place :
    (f : ℕ → Customer) (b n : ℕ) (c : Customer)
    → ReadyCustomer c (objects_from f b n)
    → (j : ℕ) × (j < b + n) × (c ≡ f j) × (customer_is_ready (f j) ≡ true)
customer_place f b zero c h = absurd h
customer_place f b (suc n) c (inl (e, r)) = (b, omega arith, e, ap customer_is_ready (sym e) ∙ r)
customer_place f b (suc n) c (inr h) =
    let (j, below, e, r) = customer_place f (b + 1) n c h in (j, omega (arith, below), e, r)

pub driver_place :
    (f : ℕ → Driver) (b n : ℕ) (d : Driver)
    → ReadyDriver d (objects_from f b n)
    → (i : ℕ) × (i < b + n) × (d ≡ f i) × (driver_is_ready (f i) ≡ true)
driver_place f b zero d h = absurd h
driver_place f b (suc n) d (inl (e, r)) = (b, omega arith, e, ap driver_is_ready (sym e) ∙ r)
driver_place f b (suc n) d (inr h) =
    let (i, below, e, r) = driver_place f (b + 1) n d h in (i, omega (arith, below), e, r)

-- The changes of a match, in the view.
view_of-assign :
    (j i : ℕ) (s : Shop)
    → (view s).customers j ≡ free
    → (view s).drivers i ≡ free
    → view (assign j i s) ≡ record {
      customers = update (view s).customers j promised;
      drivers = update (view s).drivers i promised;
      customer_of = update (view s).customer_of i j;
      driver_of = update (view s).driver_of j i;
    }
unfolding assign
view_of-assign j i s free_c free_d = λ t. record {
  customers = λ x. customers x t;
  drivers = λ x. drivers x t;
  customer_of = λ x. customer_of x t;
  driver_of = λ x. driver_of x t;
}
  where
    customers : (x : ℕ) → (view (assign j i s)).customers x ≡ update (view s).customers j promised x
    customers x = elim (Bool-cases (j == x)) [
      | inl e ↦
          let at : j ≡ x = ground (arith, e) in
          let here : (view s).customers x ≡ free = ap (view s).customers (sym at) ∙ free_c in
          rw e (
            ap
              (λ k.
                customer_phase (s.customer_places x)
                  (set_driver i (customer_set_unavailable (s.customers k))))
              at
            ∙ promise_customer (s.customer_places x) (s.customers x) i here)
      | inr e ↦ rw e refl
    ]

    drivers : (x : ℕ) → (view (assign j i s)).drivers x ≡ update (view s).drivers i promised x
    drivers x = elim (Bool-cases (i == x)) [
      | inl e ↦
          let at : i ≡ x = ground (arith, e) in
          let here : (view s).drivers x ≡ free = ap (view s).drivers (sym at) ∙ free_d in
          rw e (
            ap
              (λ k.
                driver_phase (s.driver_places x)
                  (set_customer j (driver_set_unavailable (s.drivers k))))
              at
            ∙ promise_driver (s.driver_places x) (s.drivers x) j here)
      | inr e ↦ rw e refl
    ]

    customer_of : (x : ℕ) → (view (assign j i s)).customer_of x ≡ update (view s).customer_of i j x
    customer_of x = elim (Bool-cases (i == x)) [ inl e ↦ rw e refl | inr e ↦ rw e refl ]

    driver_of : (x : ℕ) → (view (assign j i s)).driver_of x ≡ update (view s).driver_of j i x
    driver_of x = elim (Bool-cases (j == x)) [ inl e ↦ rw e refl | inr e ↦ rw e refl ]

module _ {nc nd : ℕ} where
  assign-Fits :
      (j i : ℕ) (s : Shop)
      → Fits nc nd s
      → j < nc
      → i < nd
      → (view s).customers j ≡ free
      → (view s).drivers i ≡ free
      → Fits nc nd (assign j i s)
  unfolding assign
  assign-Fits j i s h hj hi free_c free_d = record {
    customer_ids =
        ids_update (λ x. x.id) s.customers j
          (set_driver i (customer_set_unavailable (s.customers j))) h.customer_ids
          (h.customer_ids j);
    driver_ids =
        ids_update (λ x. x.id) s.drivers i (set_customer j (driver_set_unavailable (s.drivers i)))
          h.driver_ids (h.driver_ids i);
    sound =
        subst
          (λ v.
            Sound nc nd v (update s.customer_sleeps j false) (update s.driver_sleeps i false)
              s.manager_sleeps)
          (sym (view_of-assign j i s free_c free_d))
          (Sound-matched h.sound i j hi hj free_d free_c);
  }

  nothing_ready :
      (s : Shop)
      → has_available_delivery (objects_from s.customers 0 nc) (objects_from s.drivers 0 nd) ≡ false
      → NoDelivery nc nd (view s)
  unfolding has_available_delivery
  nothing_ready s h = elim (Bool-cases (any_customer_ready (objects_from s.customers 0 nc))) [
    | inr none_ready ↦ inl (λ j hj f. cc (
      free_customer (s.customer_places j) (s.customers j) f,
      no_customer_ready s.customers 0 nc none_ready j (omega arith) (omega (arith, hj)),
    ))
    | inl some_ready ↦
        let none_ready : any_driver_ready (objects_from s.drivers 0 nd) ≡ false =
          ground (arith, h, some_ready) in
        inr (λ i hi f. cc (
          free_driver (s.driver_places i) (s.drivers i) f,
          no_driver_ready s.drivers 0 nd none_ready i (omega arith) (omega (arith, hi)),
        ))
  ]

  chosen-Fits :
      (c : Customer) (d : Driver) (s : Shop)
      → Fits nc nd s
      → match_delivery (objects_from s.customers 0 nc) (objects_from s.drivers 0 nd) ≡ some (c, d)
      → Fits nc nd (assign c.id d.id s)
  chosen-Fits c d s h e =
      let (in_c, in_d) =
        match_delivery-ready (objects_from s.customers 0 nc) (objects_from s.drivers 0 nd) e in
      let (j, hj, cj, rj) = customer_place s.customers 0 nc c in_c in
      let (i, hi, di, ri) = driver_place s.drivers 0 nd d in_d in
      let id_c : j ≡ c.id = sym (ap (λ (x : Customer). x.id) cj ∙ h.customer_ids j) in
      let id_d : i ≡ d.id = sym (ap (λ (x : Driver). x.id) di ∙ h.driver_ids i) in
      let free_c =
        ready_customer_free (s.customer_places j) (s.customers j) (h.sound.customer_right j) rj in
      let free_d =
        ready_driver_free (s.driver_places i) (s.drivers i) (h.sound.driver_right i) ri in
      subst (λ k. Fits nc nd (assign k d.id s)) id_c
        (subst (λ k. Fits nc nd (assign j k s)) id_d
          (assign-Fits j i s h (omega (arith, hj)) (omega (arith, hi)) free_c free_d))

  pub run_manager-Fits :
      (s s' : Shop) → Fits nc nd s → run_manager nc nd s ≡ some s' → Fits nc nd s'
  unfolding run_manager
  run_manager-Fits s s' h e =
      let cs = objects_from s.customers 0 nc in
      let ds = objects_from s.drivers 0 nd in
      elim (Bool-cases (has_available_delivery cs ds)) [
        | inr idle ↦
            let r : some (record s { manager_sleeps = true }) ≡ some s' = rw idle at e in
            let same : record s { manager_sleeps = true } ≡ s' = cc r in
            subst (Fits nc nd) same (record {
              customer_ids = h.customer_ids;
              driver_ids = h.driver_ids;
              sound = Sound-manager_waits h.sound (nothing_ready s idle);
            })
        | inl busy ↦ elim (Option-cases (match_delivery cs ds)) [
          | inl null ↦ cc (rw (busy, null) at e)
          | inr (pair, found) ↦
              let r : some (assign pair.0.id pair.1.id s) ≡ some s' = rw (busy, found) at e in
              let same : assign pair.0.id pair.1.id s ≡ s' = cc r in
              subst (Fits nc nd) same (chosen-Fits pair.0 pair.1 s h found)
        ]
      ]
