-- ===== src/Testapp/Match.antt =====
-- testapp/utils.cpp: the choice of the nearest customer and driver.
pub mod Nearest
use operation_system_proj_c.Prelude.{
  ℕ, ◌+◌, ◌-◌, ◌%◌, ◌^◌, Bool, true, false, Option, none, some, List, [], ◌∷◌, ltb, if◌then◌else◌,
  ◌&&◌, ◌||◌,
}
use operation_system_proj_c.Testapp.People.{
  Location, Customer, Driver, customer_is_ready, driver_is_ready,
}

abbrev pub uint_max : ℕ
uint_max = 4294967295

abbrev pub abs_diff : ℕ → ℕ → ℕ
abs_diff a b = if ltb b a then a - b else b - a

-- The differences go through `int` and their sum back to `unsigned int`, which is arithmetic
-- modulo 2^32; where the sum leaves `int` the code has no defined behaviour.
unfoldable pub calc_dist : Location → Location → ℕ
calc_dist start end = (abs_diff start.x end.x + abs_diff start.y end.y) % 2 ^ 32

-- `min_dist`, and `min_customer` with `min_driver`, which are null together.
pub record Best : Type 0 where
  pub min_dist : ℕ
  pub pair : Option (Customer × Driver)

-- The inner loop, for a customer that is ready.
unfoldable pub match_drivers : Customer → List Driver → Best → Best
match_drivers c [] best = best
match_drivers c (d ∷ ds) best =
    let rest = λ (next : Best). match_drivers c ds next in
    if driver_is_ready d
    then (let curr_dist = calc_dist c.location d.location in
        rest (
          if ltb curr_dist best.min_dist
          then record { min_dist = curr_dist; pair = some (c, d) }
          else best))
    else rest best

-- The outer loop.
unfoldable pub match_customers : List Customer → List Driver → Best → Best
match_customers [] ds best = best
match_customers (c ∷ cs) ds best =
    let rest = λ (next : Best). match_customers cs ds next in
    if customer_is_ready c then rest (match_drivers c ds best) else rest best

-- `match_delivery`; `none` is the use of a null pointer.
unfoldable pub match_delivery : List Customer → List Driver → Option (Customer × Driver)
match_delivery cs ds = (match_customers cs ds (record { min_dist = uint_max; pair = none })).pair

unfoldable pub any_customer_ready : List Customer → Bool
any_customer_ready [] = false
any_customer_ready (c ∷ cs) = customer_is_ready c || any_customer_ready cs

unfoldable pub any_driver_ready : List Driver → Bool
any_driver_ready [] = false
any_driver_ready (d ∷ ds) = driver_is_ready d || any_driver_ready ds

unfoldable pub has_available_delivery : List Customer → List Driver → Bool
has_available_delivery cs ds = any_customer_ready cs && any_driver_ready ds
