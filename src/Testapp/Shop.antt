-- ===== src/Testapp/Shop.antt =====
-- testapp/main.cpp: the threads of the drivers, of the customers and of the manager. The program runs
-- on one cpu without timer interrupts, so that a thread runs until it waits or gives `pizza_lock` back.
-- A step is what a thread does from the time that it takes the lock, or returns from a wait, to the
-- time that it waits or gives it back; the first `ready_up` of a thread and its signal to the manager
-- are a step before that. Each condition variable has one thread that waits on it, so it is whether
-- that thread sleeps.
pub mod Deals
pub mod Phases
pub mod Sleeps
pub mod Drivers
pub mod Customers
pub mod Manager
pub mod Reachable
pub mod Places
mod Examples
use operation_system_proj_c.Prelude.{
  ℕ, zero, suc, ◌+◌, ◌<◌, ◌≡◌, ◌≢◌, Bool, true, false, Option, none, some, List, [], ◌∷◌, ◌&&◌,
  if◌then◌else◌, length, update,
}
use operation_system_proj_c.Testapp.People.{
  Location, Customer, Driver, customer_ready_up, driver_ready_up, customer_is_done,
  customer_set_unavailable, receive_pizza, set_driver, driver_set_unavailable, recieve_payment,
  set_customer, set_location, new_customer, new_driver,
}
use operation_system_proj_c.Testapp.Match.{has_available_delivery, match_delivery}

-- Where the thread of a driver stands: before its first step, at or in the wait for a customer,
-- between the two parts that hold the lock with the number of its customer, or in the wait for
-- the payment.
pub data DriverPlace : Type 0 where
  arriving seeking : DriverPlace
  delivering : ℕ → DriverPlace
  unpaid : DriverPlace

-- Where the thread of a customer stands: before its first step, in its loop, or at its end.
pub data CustomerPlace : Type 0 where
  entering ordering left : CustomerPlace

-- `customers` and `drivers` are the objects that the vectors of pointers hold.
pub record Shop : Type 0 where
  pub customers : ℕ → Customer
  pub drivers : ℕ → Driver
  pub customer_places : ℕ → CustomerPlace
  pub driver_places : ℕ → DriverPlace
  pub customer_sleeps : ℕ → Bool
  pub driver_sleeps : ℕ → Bool
  pub manager_sleeps : Bool

-- `driver_cv[i].wait`
abbrev pub driver_waits : ℕ → Shop → Shop
driver_waits i s = record s { driver_sleeps = update s.driver_sleeps i true }

-- `ready_up` of a driver and the signal to the manager.
abbrev pub driver_readies : ℕ → Shop → Shop
driver_readies i s = record s {
  drivers = update s.drivers i (driver_ready_up (s.drivers i));
  driver_places = update s.driver_places i seeking;
  manager_sleeps = false;
}

-- The inner loop that waits for the payment, and the rest of the round.
unfoldable pub await_payment : ℕ → Shop → Shop
await_payment i s = if (s.drivers i).paid then driver_readies i s else driver_waits i s

-- The part of the second half of a delivery before this loop.
abbrev pub hand_over : ℕ → ℕ → Shop → Shop
hand_over i customer_id s = record s {
  drivers = update s.drivers i (set_location (s.customers customer_id).location (s.drivers i));
  customers = update s.customers customer_id (receive_pizza (s.customers customer_id));
  customer_sleeps = update s.customer_sleeps customer_id false;
  driver_places = update s.driver_places i unpaid;
}

-- `run_driver`
unfoldable pub run_driver : ℕ → DriverPlace → Shop → Shop
run_driver i arriving s = driver_readies i s
run_driver i seeking s =
    let d = s.drivers i in
    if d.matched
    then record s { driver_places = update s.driver_places i (delivering d.assigned_customer) }
    else driver_waits i s
run_driver i (delivering customer_id) s = await_payment i (hand_over i customer_id s)
run_driver i unpaid s = await_payment i s

-- `customer_cv[j].wait`
abbrev pub customer_waits : ℕ → Shop → Shop
customer_waits j s = record s { customer_sleeps = update s.customer_sleeps j true }

-- `ready_up` of a customer and the signal to the manager.
abbrev pub customer_readies : ℕ → Shop → Shop
customer_readies j s = record s {
  customers = update s.customers j (customer_ready_up (s.customers j));
  customer_places = update s.customer_places j ordering;
  manager_sleeps = false;
}

-- The payment and the signal to the driver.
abbrev pub pay_driver : ℕ → Shop → Shop
pay_driver driver_id s = record s {
  drivers = update s.drivers driver_id (recieve_payment (s.drivers driver_id));
  driver_sleeps = update s.driver_sleeps driver_id false;
}

-- The loop of `run_customer`. A round that does not wait takes a request, so that two rounds more than
-- there are requests are enough.
unfoldable pub customer_rounds : ℕ → ℕ → Shop → Shop
customer_rounds zero j s = s
customer_rounds (suc fuel) j s =
    let c = s.customers j in
    let rest = customer_rounds fuel j (customer_readies j (pay_driver c.assigned_driver s)) in
    if customer_is_done c
    then record s { customer_places = update s.customer_places j left }
    else if c.has_pizza && c.matched
    then rest
    else customer_waits j s

-- `run_customer`
unfoldable pub run_customer : ℕ → CustomerPlace → Shop → Shop
run_customer j entering s = customer_readies j s
run_customer j ordering s = customer_rounds (suc (suc (length (s.customers j).requests))) j s
run_customer j left s = s

-- The first `n` objects, in the order of the vector.
abbrev pub objects_from {ℓ} : {A : Type ℓ} → (ℕ → A) → ℕ → ℕ → List A
objects_from f b zero = []
objects_from f b (suc n) = f b ∷ objects_from f (b + 1) n

-- What the manager does with the pair that it has chosen.
unfoldable pub assign : ℕ → ℕ → Shop → Shop
assign customer_id driver_id s = record s {
  drivers =
      update s.drivers driver_id
        (set_customer customer_id (driver_set_unavailable (s.drivers driver_id)));
  customers =
      update s.customers customer_id
        (set_driver driver_id (customer_set_unavailable (s.customers customer_id)));
  driver_sleeps = update s.driver_sleeps driver_id false;
  customer_sleeps = update s.customer_sleeps customer_id false;
}

module _ (num_customers num_drivers : ℕ) where
  -- A round of the loop of `run_pizza_manager`; `none` is the use of a null pointer.
  unfoldable pub run_manager : Shop → Option Shop
  run_manager s =
      let customers = objects_from s.customers 0 num_customers in
      let drivers = objects_from s.drivers 0 num_drivers in
      if has_available_delivery customers drivers
      then elim (match_delivery customers drivers) [
        | none ↦ none
        | some pair ↦ some (assign pair.0.id pair.1.id s)
      ]
      else some (record s { manager_sleeps = true })

  -- The next step of any thread that does not sleep.
  pub data Step (s : Shop) : Shop → Type 0 where
    driver :
        (i : ℕ)
        → i < num_drivers
        → s.driver_sleeps i ≡ false
        → Step s (run_driver i (s.driver_places i) s)
    customer :
        (j : ℕ)
        → j < num_customers
        → s.customer_sleeps j ≡ false
        → s.customer_places j ≢ left
        → Step s (run_customer j (s.customer_places j) s)
    manager : (s' : Shop) → s.manager_sleeps ≡ false → run_manager s ≡ some s' → Step s s'

-- `run_pizza_manager` before its loop: everybody has been created and nobody has run. `requests` are
-- the files of the customers.
abbrev pub opening : (ℕ → Customer) → (ℕ → Driver) → (ℕ → List Location) → Shop
opening customer_memory driver_memory requests = record {
  customers = λ j. new_customer (customer_memory j) j (requests j);
  drivers = λ i. new_driver (driver_memory i) i;
  customer_places = λ j. entering;
  driver_places = λ i. arriving;
  customer_sleeps = λ j. false;
  driver_sleeps = λ i. false;
  manager_sleeps = false;
}

-- The states that the threads can get to.
pub data Reach (num_customers num_drivers : ℕ) (s : Shop) : Shop → Type 0 where
  start : Reach num_customers num_drivers s s
  more :
      {s1 s2 : Shop}
      → Reach num_customers num_drivers s s1
      → Step num_customers num_drivers s1 s2
      → Reach num_customers num_drivers s s2
