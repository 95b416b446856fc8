-- ===== src/Testapp/Shop/Examples.antt =====
-- testapp/main.cpp: one customer with one request, one driver, and the steps up to the end.
use operation_system_proj_c.Prelude.{some, ℕ, ◌≡◌, refl, subst, true, List, [], ◌∷◌, inr, arith}
use operation_system_proj_c.Testapp.People.{
  Location, Customer, Driver, unavailable, customer_is_done, customer_ready_up, driver_ready_up,
}
use operation_system_proj_c.Testapp.Match.{
  has_available_delivery, match_delivery, match_customers, match_drivers, any_customer_ready,
  any_driver_ready, calc_dist,
}
use operation_system_proj_c.Testapp.Shop.{
  Shop, run_driver, run_customer, run_manager, await_payment, customer_rounds, assign, left, driver,
  customer, manager, opening, Reach, start, more,
}
use operation_system_proj_c.Testapp.Shop.Phases.{Fits}
use operation_system_proj_c.Testapp.Shop.Places.{AllNear, Reach-run_manager}
use operation_system_proj_c.Testapp.Shop.Reachable.{Reach-Fits, AllRest, Reach-no_deadlock}

abbrev nowhere : Location
nowhere = record { x = 0; y = 0 }

abbrev customer_memory : ℕ → Customer
customer_memory j = record {
  id = 0;
  status = unavailable;
  location = nowhere;
  requests = [];
  assigned_driver = 7;
  has_pizza = true;
  matched = true;
}

abbrev driver_memory : ℕ → Driver
driver_memory i = record {
  id = 0;
  status = unavailable;
  location = nowhere;
  assigned_customer = 7;
  paid = true;
  matched = true;
}

abbrev files : ℕ → List Location
files j = record { x = 3; y = 4 } ∷ []

abbrev at_opening : Shop
at_opening = opening customer_memory driver_memory files

abbrev driver_runs : Shop → Shop
driver_runs s = run_driver 0 (s.driver_places 0) s

abbrev customer_runs : Shop → Shop
customer_runs s = run_customer 0 (s.customer_places 0) s

abbrev both_ready : Shop
both_ready = driver_runs (customer_runs at_opening)

abbrev after_match : Shop
after_match = assign 0 0 both_ready

abbrev after_payment : Shop
after_payment = customer_runs (driver_runs (driver_runs after_match))

abbrev all_wait : Shop
all_wait = record (driver_runs (driver_runs after_payment)) { manager_sleeps = true }

reach_match : Reach 1 1 at_opening after_match
unfolding run_driver run_customer run_manager has_available_delivery match_delivery match_customers
    match_drivers any_customer_ready any_driver_ready calc_dist driver_ready_up customer_ready_up
reach_match =
    more
      (more (more start (customer 0 (omega arith) refl (λ e. cc e))) (driver 0 (omega arith) refl))
      (manager after_match refl refl)

reach_end : Reach 1 1 at_opening all_wait
unfolding run_driver run_customer run_manager await_payment customer_rounds assign
    has_available_delivery match_delivery match_customers match_drivers any_customer_ready
    any_driver_ready calc_dist driver_ready_up customer_ready_up
reach_end =
    more
      (more
        (more
          (more
            (more (more reach_match (driver 0 (omega arith) refl)) (driver 0 (omega arith) refl))
            (customer 0 (omega arith) refl (λ e. cc e)))
          (driver 0 (omega arith) refl))
        (driver 0 (omega arith) refl))
      (manager all_wait refl refl)

end-AllRest : AllRest 1 1 all_wait
unfolding run_driver run_customer await_payment customer_rounds assign driver_ready_up
    customer_ready_up
end-AllRest = record {
  drivers = λ i h.
      let at : 0 ≡ i = omega (arith, h) in subst (λ k. all_wait.driver_sleeps k ≡ true) at refl;
  customers = λ j h.
      inr (
        let at : 0 ≡ j = omega (arith, h) in
        subst (λ k. all_wait.customer_places k ≡ left) at refl);
  manager_rests = refl;
}

Reach-Fits_example : Fits 1 1 all_wait
Reach-Fits_example = Reach-Fits 1 1 customer_memory driver_memory files all_wait reach_end

files-AllNear : (j : ℕ) → AllNear (files j)
files-AllNear j = ((omega arith, omega arith), tt)

Reach-run_manager_example : (s' : Shop) × (run_manager 1 1 after_match ≡ some s')
Reach-run_manager_example =
    Reach-run_manager 1 1 customer_memory driver_memory files files-AllNear after_match reach_match

Reach-no_deadlock_example : customer_is_done (all_wait.customers 0) ≡ true
Reach-no_deadlock_example =
    Reach-no_deadlock 1 1 customer_memory driver_memory files (omega arith) all_wait reach_end
      end-AllRest 0 (omega arith)
