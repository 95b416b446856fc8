-- ===== src/Testapp/Examples.antt =====
-- testapp/: a small town on which the theorem about the choice applies.
use operation_system_proj_c.Prelude.{
  ℕ, ◌≡◌, refl, true, false, some, List, [], ◌∷◌, inl, inr, arith, subst, sym,
}
use operation_system_proj_c.Testapp.People.{available, Customer, Driver}
use operation_system_proj_c.Testapp.Match.{
  match_delivery, has_available_delivery, any_customer_ready, any_driver_ready,
}
use operation_system_proj_c.Testapp.Match.Nearest.{
  ReadyCustomer, ReadyDriver, Near, IsNearest, match_delivery-IsNearest,
}

abbrev customer_at : ℕ → ℕ → ℕ → Customer
customer_at i x y = record {
  id = i;
  status = available;
  location = record { x = x; y = y };
  requests = [];
  assigned_driver = 0;
  has_pizza = false;
  matched = false;
}

abbrev driver_at : ℕ → ℕ → ℕ → Driver
driver_at i x y = record {
  id = i;
  status = available;
  location = record { x = x; y = y };
  assigned_customer = 0;
  paid = false;
  matched = false;
}

abbrev town : List Customer
town = customer_at 0 10 10 ∷ customer_at 1 3 4 ∷ []

abbrev fleet : List Driver
fleet = driver_at 0 0 0 ∷ driver_at 1 9 8 ∷ []

town-Near : (c : Customer) → ReadyCustomer c town → Near c.location
town-Near c (inl h) = subst (λ x. Near x.location) (sym h.0) (omega arith, omega arith)
town-Near c (inr (inl h)) = subst (λ x. Near x.location) (sym h.0) (omega arith, omega arith)
town-Near c (inr (inr h)) = absurd h

fleet-Near : (d : Driver) → ReadyDriver d fleet → Near d.location
fleet-Near d (inl h) = subst (λ x. Near x.location) (sym h.0) (omega arith, omega arith)
fleet-Near d (inr (inl h)) = subst (λ x. Near x.location) (sym h.0) (omega arith, omega arith)
fleet-Near d (inr (inr h)) = absurd h

town-has_available_delivery : has_available_delivery town fleet ≡ true
unfolding has_available_delivery any_customer_ready any_driver_ready
town-has_available_delivery = refl

match_delivery-IsNearest_example :
    (c : Customer) × (d : Driver) × (match_delivery town fleet ≡ some (c, d))
    × IsNearest town fleet c d
match_delivery-IsNearest_example =
    match_delivery-IsNearest town fleet town-has_available_delivery town-Near fleet-Near
