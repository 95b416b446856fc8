-- ===== src/Testapp/Shop/Phases.antt =====
-- testapp/main.cpp: how far the threads have got in the protocol.
use operation_system_proj_c.Prelude.{
  ℕ, ◌<◌, ◌≡◌, ◌≢◌, ◌⊎◌, inl, inr, refl, sym, ap, ◌∙◌, Bool, true, false, not, ◌&&◌, ◌||◌,
  Bool-cases, List, [], ◌∷◌, ◌==◌, if◌then◌else◌, arith, update,
}
use operation_system_proj_c.Testapp.People.{
  Customer, Driver, is_available, is_finished, customer_ready_up, driver_ready_up, take_request,
  Location,
}
use operation_system_proj_c.Testapp.Shop.{
  Shop, DriverPlace, arriving, seeking, delivering, unpaid, CustomerPlace, entering, ordering, left,
}
use operation_system_proj_c.Testapp.Shop.Deals.{
  Phase, away, free, promised, delivered, closed, wrong, View, Paired,
}

abbrev pub driver_phase : DriverPlace → Driver → Phase
driver_phase arriving d = if is_available d.status || d.matched || d.paid then wrong else away
driver_phase seeking d =
    if d.matched
    then (if is_available d.status || d.paid then wrong else promised)
    else (if not (is_available d.status) || d.paid then wrong else free)
driver_phase (delivering customer_id) d =
    if d.matched && not (is_available d.status) && not d.paid && customer_id == d.assigned_customer
    then promised
    else wrong
driver_phase unpaid d =
    if d.matched && not (is_available d.status)
    then (if d.paid then closed else delivered)
    else wrong

abbrev pub customer_phase : CustomerPlace → Customer → Phase
customer_phase entering c =
    if is_available c.status || is_finished c.status || c.matched then wrong else away
customer_phase ordering c =
    if is_finished c.status
    then closed
    else (if is_available c.status
        then (if c.matched || c.has_pizza then wrong else free)
        else (if c.matched then (if c.has_pizza then delivered else promised) else wrong))
customer_phase left c = if is_finished c.status then closed else wrong

abbrev pub view_of : (ℕ → Customer) → (ℕ → Driver) → (ℕ → CustomerPlace) → (ℕ → DriverPlace) → View
view_of customers drivers customer_places driver_places = record {
  customers = λ j. customer_phase (customer_places j) (customers j);
  drivers = λ i. driver_phase (driver_places i) (drivers i);
  customer_of = λ i. (drivers i).assigned_customer;
  driver_of = λ j. (customers j).assigned_driver;
}

abbrev pub view : Shop → View
view s = view_of s.customers s.drivers s.customer_places s.driver_places

-- No customer and driver of the vectors are ready at the same time.
abbrev pub NoDelivery : ℕ → ℕ → View → Type 0
NoDelivery nc nd v =
    ((j : ℕ) → j < nc → v.customers j ≢ free) ⊎ ((i : ℕ) → i < nd → v.drivers i ≢ free)

-- What holds between the steps of the phases and of who sleeps: a driver sleeps only without a deal or
-- until it is paid, a customer only without a deal or until the delivery, and the manager only if
-- there is nothing to deliver.
pub record Sound (num_customers num_drivers : ℕ) (v : View)
    (customer_sleeps driver_sleeps : ℕ → Bool) (manager_sleeps : Bool) : Type 0 where
  pub customer_right : (j : ℕ) → v.customers j ≢ wrong
  pub driver_right : (i : ℕ) → v.drivers i ≢ wrong
  pub paired : Paired num_customers num_drivers v
  pub customer_sleep :
      (j : ℕ) → customer_sleeps j ≡ true → (v.customers j ≡ free) ⊎ (v.customers j ≡ promised)
  pub driver_sleep :
      (i : ℕ) → driver_sleeps i ≡ true → (v.drivers i ≡ free) ⊎ (v.drivers i ≡ delivered)
  pub manager_sleep : manager_sleeps ≡ true → NoDelivery num_customers num_drivers v

pub record Fits (num_customers num_drivers : ℕ) (s : Shop) : Type 0 where
  pub customer_ids : (j : ℕ) → (s.customers j).id ≡ j
  pub driver_ids : (i : ℕ) → (s.drivers i).id ≡ i
  pub sound :
      Sound num_customers num_drivers (view s) s.customer_sleeps s.driver_sleeps s.manager_sleeps

-- What the phase tells about the members.
pub seeking_unmatched :
    (d : Driver)
    → driver_phase seeking d ≢ wrong
    → d.matched ≡ false
    → driver_phase seeking d ≡ free
seeking_unmatched d h m = ground (arith, h, m)

pub seeking_matched :
    (d : Driver)
    → driver_phase seeking d ≢ wrong
    → d.matched ≡ true
    → (driver_phase seeking d ≡ promised)
      × (driver_phase (delivering d.assigned_customer) d ≡ promised)
seeking_matched d h m = ground (arith, h, m)

pub delivering_lem :
    (c : ℕ) (d : Driver)
    → driver_phase (delivering c) d ≢ wrong
    → (driver_phase (delivering c) d ≡ promised)
      × (d.assigned_customer ≡ c)
      × (d.paid ≡ false)
      × (driver_phase unpaid d ≡ delivered)
delivering_lem c d h = ground (arith, h)

pub unpaid_lem :
    (d : Driver)
    → driver_phase unpaid d ≢ wrong
    → (d.paid ≡ true → driver_phase unpaid d ≡ closed)
      × (d.paid ≡ false → driver_phase unpaid d ≡ delivered)
unpaid_lem d h = (λ p. ground (arith, h, p), λ p. ground (arith, h, p))

pub free_again : (d : Driver) → driver_phase seeking (driver_ready_up d) ≡ free
unfolding driver_ready_up
free_again d = refl

take_request_phase :
    (c : Customer) (requests : List Location)
    → (customer_phase ordering (take_request c requests) ≡ free)
      ⊎ (customer_phase ordering (take_request c requests) ≡ closed)
take_request_phase c [] = inr refl
take_request_phase c (r ∷ rest) = inl refl

pub customer_again :
    (c : Customer)
    → (customer_phase ordering (customer_ready_up c) ≡ free)
      ⊎ (customer_phase ordering (customer_ready_up c) ≡ closed)
unfolding customer_ready_up
customer_again c = take_request_phase c c.requests

-- A change of one driver, or of one customer, changes one phase.
pub view_of-driver :
    (cs : ℕ → Customer) (ds : ℕ → Driver) (cps : ℕ → CustomerPlace) (dps dps' : ℕ → DriverPlace)
    (i : ℕ) (d : Driver)
    → ((x : ℕ) → (i == x) ≡ false → dps' x ≡ dps x)
    → d.assigned_customer ≡ (ds i).assigned_customer
    → view_of cs (update ds i d) cps dps' ≡ (
        let v = view_of cs ds cps dps in
        record v { drivers = update v.drivers i (driver_phase (dps' i) d) })
view_of-driver cs ds cps dps dps' i d others same = λ t. record {
  customers = λ j. customer_phase (cps j) (cs j);
  drivers = λ x. phases x t;
  customer_of = λ x. names x t;
  driver_of = λ j. (cs j).assigned_driver;
}
  where
    phases :
        (x : ℕ)
        → driver_phase (dps' x) (update ds i d x)
          ≡ update (λ y. driver_phase (dps y) (ds y)) i (driver_phase (dps' i) d) x
    phases x = elim (Bool-cases (i == x)) [
      | inl e ↦
          let at : i ≡ x = ground (arith, e) in rw e (ap (λ k. driver_phase (dps' k) d) (sym at))
      | inr e ↦ rw e (ap (λ p. driver_phase p (ds x)) (others x e))
    ]

    names : (x : ℕ) → (update ds i d x).assigned_customer ≡ (ds x).assigned_customer
    names x = elim (Bool-cases (i == x)) [
      | inl e ↦
          let at : i ≡ x = ground (arith, e) in rw e (same ∙ ap (λ k. (ds k).assigned_customer) at)
      | inr e ↦ rw e refl
    ]

pub view_of-customer :
    (cs : ℕ → Customer) (ds : ℕ → Driver) (cps cps' : ℕ → CustomerPlace) (dps : ℕ → DriverPlace)
    (j : ℕ) (c : Customer)
    → ((x : ℕ) → (j == x) ≡ false → cps' x ≡ cps x)
    → c.assigned_driver ≡ (cs j).assigned_driver
    → view_of (update cs j c) ds cps' dps ≡ (
        let v = view_of cs ds cps dps in
        record v { customers = update v.customers j (customer_phase (cps' j) c) })
view_of-customer cs ds cps cps' dps j c others same = λ t. record {
  customers = λ x. phases x t;
  drivers = λ i. driver_phase (dps i) (ds i);
  customer_of = λ i. (ds i).assigned_customer;
  driver_of = λ x. names x t;
}
  where
    phases :
        (x : ℕ)
        → customer_phase (cps' x) (update cs j c x)
          ≡ update (λ y. customer_phase (cps y) (cs y)) j (customer_phase (cps' j) c) x
    phases x = elim (Bool-cases (j == x)) [
      | inl e ↦
          let at : j ≡ x = ground (arith, e) in rw e (ap (λ k. customer_phase (cps' k) c) (sym at))
      | inr e ↦ rw e (ap (λ p. customer_phase p (cs x)) (others x e))
    ]

    names : (x : ℕ) → (update cs j c x).assigned_driver ≡ (cs x).assigned_driver
    names x = elim (Bool-cases (j == x)) [
      | inl e ↦
          let at : j ≡ x = ground (arith, e) in rw e (same ∙ ap (λ k. (cs k).assigned_driver) at)
      | inr e ↦ rw e refl
    ]
