-- ===== src/Testapp/Shop/Sleeps.antt =====
-- testapp/main.cpp: what the moves of the protocol do to those who sleep.
use operation_system_proj_c.Prelude.{
  ℕ, ◌<◌, ◌≡◌, ◌≢◌, ◌⊎◌, inl, inr, refl, subst, Bool, true, false, Bool-cases, ◌==◌, arith, update,
}
use operation_system_proj_c.Testapp.Shop.Deals.{
  Phase, away, free, promised, delivered, closed, wrong, View, readied, entered, matched, brought,
  paid, Deal-Paired,
}
use operation_system_proj_c.Testapp.Shop.Phases.{NoDelivery, Sound}

-- A property of the phases, or of the phases of those who sleep, after a change at one place.
update_all :
    (P : ℕ → Phase → Type 0) (f : ℕ → Phase) (i : ℕ) (p : Phase)
    → ((x : ℕ) → P x (f x))
    → P i p
    → (x : ℕ) → P x (update f i p x)
update_all P f i p h new x = elim (Bool-cases (i == x)) [
  | inl e ↦ let at : i ≡ x = ground (arith, e) in rw e (subst (λ y. P y p) at new)
  | inr e ↦ rw e (h x)
]

sleep_update :
    (Ok : Phase → Type 0) (sleeps : ℕ → Bool) (f : ℕ → Phase) (i : ℕ) (p : Phase)
    → ((x : ℕ) → sleeps x ≡ true → Ok (f x))
    → (sleeps i ≡ true → Ok p)
    → (x : ℕ) → sleeps x ≡ true
    → Ok (update f i p x)
sleep_update Ok sleeps f i p h new = update_all (λ x q. sleeps x ≡ true → Ok q) f i p h new

sleep_asleep :
    (Ok : Phase → Type 0) (sleeps : ℕ → Bool) (f : ℕ → Phase) (i : ℕ)
    → ((x : ℕ) → sleeps x ≡ true → Ok (f x))
    → Ok (f i)
    → (x : ℕ) → update sleeps i true x ≡ true
    → Ok (f x)
sleep_asleep Ok sleeps f i h new x s = elim (Bool-cases (i == x)) [
  | inl e ↦ let at : i ≡ x = ground (arith, e) in subst (λ y. Ok (f y)) at new
  | inr e ↦ h x (rw e at s)
]

sleep_woken :
    (Ok : Phase → Type 0) (sleeps : ℕ → Bool) (f : ℕ → Phase) (i : ℕ) (p : Phase)
    → ((x : ℕ) → sleeps x ≡ true → Ok (f x))
    → (x : ℕ) → update sleeps i false x ≡ true
    → Ok (update f i p x)
sleep_woken Ok sleeps f i p h x s = elim (Bool-cases (i == x)) [
  | inl e ↦ absurd (cc (rw e at s))
  | inr e ↦ rw e (h x (rw e at s))
]

-- The phases in which a customer, and a driver, may sleep.
abbrev CustomerMay : Phase → Type 0
CustomerMay p = (p ≡ free) ⊎ (p ≡ promised)

abbrev DriverMay : Phase → Type 0
DriverMay p = (p ≡ free) ⊎ (p ≡ delivered)

wakes_customer : (p q : Phase) → CustomerMay p → (p ≡ delivered) ⊎ (p ≡ away) → CustomerMay q
wakes_customer p q (inl e) (inl d) = absurd (cc (e, d))
wakes_customer p q (inl e) (inr d) = absurd (cc (e, d))
wakes_customer p q (inr e) (inl d) = absurd (cc (e, d))
wakes_customer p q (inr e) (inr d) = absurd (cc (e, d))

not_wrong : (p : Phase) → (p ≡ free) ⊎ (p ≡ closed) → p ≢ wrong
not_wrong p (inl e) w = cc (e, w)
not_wrong p (inr e) w = cc (e, w)

module _ {nc nd : ℕ} {v : View} {cz dz : ℕ → Bool} {m : Bool} (h : Sound nc nd v cz dz m) where
  pub Sound-driver_waits :
      (i : ℕ)
      → (v.drivers i ≡ free) ⊎ (v.drivers i ≡ delivered)
      → Sound nc nd v cz (update dz i true) m
  Sound-driver_waits i e = record {
    customer_right = h.customer_right;
    driver_right = h.driver_right;
    paired = h.paired;
    customer_sleep = h.customer_sleep;
    driver_sleep = sleep_asleep DriverMay dz v.drivers i h.driver_sleep e;
    manager_sleep = h.manager_sleep;
  }

  pub Sound-customer_waits :
      (j : ℕ)
      → (v.customers j ≡ free) ⊎ (v.customers j ≡ promised)
      → Sound nc nd v (update cz j true) dz m
  Sound-customer_waits j e = record {
    customer_right = h.customer_right;
    driver_right = h.driver_right;
    paired = h.paired;
    customer_sleep = sleep_asleep CustomerMay cz v.customers j h.customer_sleep e;
    driver_sleep = h.driver_sleep;
    manager_sleep = h.manager_sleep;
  }

  pub Sound-manager_waits : NoDelivery nc nd v → Sound nc nd v cz dz true
  Sound-manager_waits nothing_ready = record {
    customer_right = h.customer_right;
    driver_right = h.driver_right;
    paired = h.paired;
    customer_sleep = h.customer_sleep;
    driver_sleep = h.driver_sleep;
    manager_sleep = λ _. nothing_ready;
  }

  pub Sound-readied :
      (i : ℕ)
      → (v.drivers i ≡ away) ⊎ (v.drivers i ≡ closed)
      → Sound nc nd (record v { drivers = update v.drivers i free }) cz dz false
  Sound-readied i e = record {
    customer_right = h.customer_right;
    driver_right = update_all (λ x p. p ≢ wrong) v.drivers i free h.driver_right (λ w. cc w);
    paired = Deal-Paired h.paired (readied i e);
    customer_sleep = h.customer_sleep;
    driver_sleep = sleep_update DriverMay dz v.drivers i free h.driver_sleep (λ _. inl refl);
    manager_sleep = λ w. cc w;
  }

  pub Sound-entered :
      (j : ℕ) (p : Phase)
      → v.customers j ≡ away
      → (p ≡ free) ⊎ (p ≡ closed)
      → Sound nc nd (record v { customers = update v.customers j p }) cz dz false
  Sound-entered j p e new = record {
    customer_right =
        update_all (λ x q. q ≢ wrong) v.customers j p h.customer_right (not_wrong p new);
    driver_right = h.driver_right;
    paired = Deal-Paired h.paired (entered j p e new);
    customer_sleep =
        sleep_update CustomerMay cz v.customers j p h.customer_sleep
          (λ s. wakes_customer (v.customers j) p (h.customer_sleep j s) (inr e));
    driver_sleep = h.driver_sleep;
    manager_sleep = λ w. cc w;
  }

  pub Sound-matched :
      (i j : ℕ)
      → i < nd
      → j < nc
      → v.drivers i ≡ free
      → v.customers j ≡ free
      → Sound nc nd
          (record {
            customers = update v.customers j promised;
            drivers = update v.drivers i promised;
            customer_of = update v.customer_of i j;
            driver_of = update v.driver_of j i;
          })
          (update cz j false)
          (update dz i false)
          m
  Sound-matched i j hi hj ed ec = record {
    customer_right =
        update_all (λ x q. q ≢ wrong) v.customers j promised h.customer_right (λ w. cc w);
    driver_right = update_all (λ x q. q ≢ wrong) v.drivers i promised h.driver_right (λ w. cc w);
    paired = Deal-Paired h.paired (matched i j hi hj ed ec);
    customer_sleep = sleep_woken CustomerMay cz v.customers j promised h.customer_sleep;
    driver_sleep = sleep_woken DriverMay dz v.drivers i promised h.driver_sleep;
    manager_sleep = λ s. elim (h.manager_sleep s) [
      | inl none_free ↦ absurd (none_free j hj ec)
      | inr none_free ↦ absurd (none_free i hi ed)
    ];
  }

  pub Sound-brought :
      (i : ℕ)
      → v.drivers i ≡ promised
      → Sound nc nd
          (record v {
            customers = update v.customers (v.customer_of i) delivered;
            drivers = update v.drivers i delivered;
          })
          (update cz (v.customer_of i) false)
          dz
          m
  Sound-brought i e = record {
    customer_right =
        update_all (λ x q. q ≢ wrong) v.customers (v.customer_of i) delivered h.customer_right
          (λ w. cc w);
    driver_right = update_all (λ x q. q ≢ wrong) v.drivers i delivered h.driver_right (λ w. cc w);
    paired = Deal-Paired h.paired (brought i e);
    customer_sleep =
        sleep_woken CustomerMay cz v.customers (v.customer_of i) delivered h.customer_sleep;
    driver_sleep = sleep_update DriverMay dz v.drivers i delivered h.driver_sleep (λ _. inr refl);
    manager_sleep = λ s. elim (h.manager_sleep s) [
      | inl none_free ↦ inl (
          update_all (λ x q. x < nc → q ≢ free) v.customers (v.customer_of i) delivered none_free
            (λ _ w. cc w))
      | inr none_free ↦
          inr (update_all (λ x q. x < nd → q ≢ free) v.drivers i delivered none_free (λ _ w. cc w))
    ];
  }

  pub Sound-paid :
      (j : ℕ) (p : Phase)
      → v.customers j ≡ delivered
      → (p ≡ free) ⊎ (p ≡ closed)
      → Sound nc nd
          (record v {
            customers = update v.customers j p;
            drivers = update v.drivers (v.driver_of j) closed;
          })
          cz
          (update dz (v.driver_of j) false)
          false
  Sound-paid j p e new = record {
    customer_right =
        update_all (λ x q. q ≢ wrong) v.customers j p h.customer_right (not_wrong p new);
    driver_right =
        update_all (λ x q. q ≢ wrong) v.drivers (v.driver_of j) closed h.driver_right (λ w. cc w);
    paired = Deal-Paired h.paired (paid j p e new);
    customer_sleep =
        sleep_update CustomerMay cz v.customers j p h.customer_sleep
          (λ s. wakes_customer (v.customers j) p (h.customer_sleep j s) (inl e));
    driver_sleep = sleep_woken DriverMay dz v.drivers (v.driver_of j) closed h.driver_sleep;
    manager_sleep = λ w. cc w;
  }
