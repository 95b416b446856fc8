-- ===== src/Testapp/People.antt =====
-- testapp/customer.cpp, driver.cpp, constants.h and pizza.h: customers and drivers. What
-- `customer_ready`, `driver_ready`, `pay` and `drive` print is not modelled.
use operation_system_proj_c.Prelude.{ℕ, Bool, true, false, List, [], ◌∷◌}

pub record Location : Type 0 where
  pub x : ℕ
  pub y : ℕ

pub data Status : Type 0 where
  available unavailable finished : Status

pub record Customer : Type 0 where
  pub id : ℕ
  pub status : Status
  pub location : Location
  pub requests : List Location
  pub assigned_driver : ℕ
  pub has_pizza : Bool
  pub matched : Bool

pub record Driver : Type 0 where
  pub id : ℕ
  pub status : Status
  pub location : Location
  pub assigned_customer : ℕ
  pub paid : Bool
  pub matched : Bool

abbrev pub is_available : Status → Bool
is_available available = true
is_available unavailable = false
is_available finished = false

abbrev pub is_finished : Status → Bool
is_finished available = false
is_finished unavailable = false
is_finished finished = true

-- `customer::is_ready` and `driver::is_ready`
abbrev pub customer_is_ready : Customer → Bool
customer_is_ready c = is_available c.status

abbrev pub driver_is_ready : Driver → Bool
driver_is_ready d = is_available d.status

abbrev pub take_request : Customer → List Location → Customer
take_request c [] = record c { status = finished }
take_request c (r ∷ rest) = record c {
  has_pizza = false;
  matched = false;
  location = r;
  requests = rest;
  status = available;
}

-- `customer::ready_up`
unfoldable pub customer_ready_up : Customer → Customer
customer_ready_up c = take_request c c.requests

-- `driver::ready_up`
unfoldable pub driver_ready_up : Driver → Driver
driver_ready_up d = record d { paid = false; matched = false; status = available }

-- The methods that set and test the members of a customer.
abbrev pub customer_is_done : Customer → Bool
customer_is_done c = is_finished c.status

abbrev pub customer_set_unavailable : Customer → Customer
customer_set_unavailable c = record c { status = unavailable }

abbrev pub receive_pizza : Customer → Customer
receive_pizza c = record c { has_pizza = true }

abbrev pub set_driver : ℕ → Customer → Customer
set_driver driver_id c = record c { assigned_driver = driver_id; matched = true }

-- The methods that set the members of a driver.
abbrev pub driver_set_unavailable : Driver → Driver
driver_set_unavailable d = record d { status = unavailable }

abbrev pub recieve_payment : Driver → Driver
recieve_payment d = record d { paid = true }

abbrev pub set_customer : ℕ → Driver → Driver
set_customer customer_id d = record d { assigned_customer = customer_id; matched = true }

abbrev pub set_location : Location → Driver → Driver
set_location new_location d = record d { location = new_location }

-- The constructors, in memory that nobody has set; `requests` are those of the customer's file.
abbrev pub new_customer : Customer → ℕ → List Location → Customer
new_customer memory id_in requests = record memory {
  id = id_in;
  status = unavailable;
  matched = false;
  requests = requests;
}

abbrev pub new_driver : Driver → ℕ → Driver
new_driver memory id_in = record memory {
  id = id_in;
  status = unavailable;
  paid = false;
  matched = false;
  location = record { x = 0; y = 0 };
}
