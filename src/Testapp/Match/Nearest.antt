-- ===== src/Testapp/Match/Nearest.antt =====
-- testapp/utils.cpp: `match_delivery` finds a nearest pair, whenever there is one.
use operation_system_proj_c.Prelude.{
  ℕ, ◌+◌, ◌<◌, ◌≤◌, ◌^◌, ◌≡◌, refl, sym, subst, ◌∙◌, ap, true, none, some, List, [], ◌∷◌, arith,
  ltb, if◌then◌else◌, ◌⊎◌, inl, inr, Bool-cases,
}
use operation_system_proj_c.Testapp.People.{
  Location, Customer, Driver, customer_is_ready, driver_is_ready,
}
use operation_system_proj_c.Testapp.Match.{
  uint_max, abs_diff, calc_dist, Best, match_drivers, match_customers, match_delivery,
  any_customer_ready, any_driver_ready, has_available_delivery,
}

-- The customer stands in the list and is ready.
abbrev pub ReadyCustomer : Customer → List Customer → Type 0
ReadyCustomer c [] = ⊥
ReadyCustomer c (x ∷ xs) = ((c ≡ x) × (customer_is_ready c ≡ true)) ⊎ ReadyCustomer c xs

abbrev pub ReadyDriver : Driver → List Driver → Type 0
ReadyDriver d [] = ⊥
ReadyDriver d (x ∷ xs) = ((d ≡ x) × (driver_is_ready d ≡ true)) ⊎ ReadyDriver d xs

abbrev pub dist : Customer → Driver → ℕ
dist c d = calc_dist c.location d.location

-- What a loop makes of `best`, for the pairs that it looks at.
record Improves (Pair : Customer → Driver → Type 0) (best next : Best) : Type 0 where
  less : next.min_dist ≤ best.min_dist
  lowest : (c : Customer) (d : Driver) → Pair c d → next.min_dist ≤ dist c d
  pick :
      (next ≡ best)
      ⊎ ((c : Customer) × (d : Driver) × Pair c d
          × (next.pair ≡ some (c, d))
          × (next.min_dist ≡ dist c d))

abbrev OfCustomer : Customer → List Driver → Customer → Driver → Type 0
OfCustomer c0 ds c d = (c ≡ c0) × ReadyDriver d ds

abbrev InLists : List Customer → List Driver → Customer → Driver → Type 0
InLists cs ds c d = ReadyCustomer c cs × ReadyDriver d ds

Improves-refl :
    (Pair : Customer → Driver → Type 0) (best : Best)
    → ((c : Customer) (d : Driver) → Pair c d → ⊥)
    → Improves Pair best best
Improves-refl Pair best n = record {
  less = omega arith;
  lowest = λ c d h. absurd (n c d h);
  pick = inl refl;
}

-- One loop after the other looks at the pairs of both.
Improves-trans :
    (P Q R : Customer → Driver → Type 0) {a b c : Best}
    → ((x : Customer) (y : Driver) → R x y → P x y ⊎ Q x y)
    → ((x : Customer) (y : Driver) → P x y → R x y)
    → ((x : Customer) (y : Driver) → Q x y → R x y)
    → Improves P a b
    → Improves Q b c
    → Improves R a c
Improves-trans P Q R {a} {b} {c} split left right f g = record {
  less = omega (arith, f.less, g.less);
  lowest = λ x y h. elim (split x y h) [
    | inl p ↦ omega (arith, f.lowest x y p, g.less)
    | inr q ↦ g.lowest x y q
  ];
  pick = elim g.pick [
    | inr (x, y, q, e, m) ↦ inr (x, y, right x y q, e, m)
    | inl same ↦ elim f.pick [
      | inl same' ↦ inl (same ∙ same')
      | inr (x, y, p, e, m) ↦
          inr (x, y, left x y p, ap (λ t. t.pair) same ∙ e, ap (λ t. t.min_dist) same ∙ m)
    ]
  ];
}

Improves-same :
    (P R : Customer → Driver → Type 0) {a b : Best}
    → ((x : Customer) (y : Driver) → R x y → P x y)
    → ((x : Customer) (y : Driver) → P x y → R x y)
    → Improves P a b
    → Improves R a b
Improves-same P R back forth f = record {
  less = f.less;
  lowest = λ x y h. f.lowest x y (back x y h);
  pick = elim f.pick [ inl same ↦ inl same | inr (x, y, p, e, m) ↦ inr (x, y, forth x y p, e, m) ];
}

-- One comparison of the inner loop.
compare_one :
    (c : Customer) (d : Driver) (best : Best)
    → driver_is_ready d ≡ true
    → Improves (OfCustomer c (d ∷ [])) best (
        if ltb (dist c d) best.min_dist
        then record { min_dist = dist c d; pair = some (c, d) }
        else best)
compare_one c d best r = elim (Bool-cases (ltb (dist c d) best.min_dist)) [
  | inl t ↦ rw t (record {
    less = ground (arith, t);
    lowest = λ x y h. elim h.1 [ inl e ↦ rw (h.0, e.0) (omega arith) | inr n ↦ absurd n ];
    pick = inr (c, d, (refl, inl (refl, r)), refl, refl);
  })
  | inr f ↦ rw f (record {
    less = omega arith;
    lowest = λ x y h. elim h.1 [ inl e ↦ rw (h.0, e.0) (ground (arith, f)) | inr n ↦ absurd n ];
    pick = inl refl;
  })
]

match_drivers-Improves :
    (c : Customer) (ds : List Driver) (best : Best)
    → Improves (OfCustomer c ds) best (match_drivers c ds best)
unfolding match_drivers
match_drivers-Improves c [] best = Improves-refl (OfCustomer c []) best (λ x y h. h.1)
match_drivers-Improves c (d ∷ ds) best = elim (Bool-cases (driver_is_ready d)) [
  | inl t ↦
      let next : Best =
        if ltb (dist c d) best.min_dist
        then record { min_dist = dist c d; pair = some (c, d) }
        else best in
      rw t (
        Improves-trans (OfCustomer c (d ∷ [])) (OfCustomer c ds) (OfCustomer c (d ∷ ds))
          (λ x y h. elim h.1 [ inl e ↦ inl (h.0, inl e) | inr m ↦ inr (h.0, m) ])
          (λ x y h. elim h.1 [ inl e ↦ (h.0, inl e) | inr n ↦ absurd n ]) (λ x y h. (h.0, inr h.1))
          (compare_one c d best t) (match_drivers-Improves c ds next))
  | inr f ↦ rw f (
      Improves-same (OfCustomer c ds) (OfCustomer c (d ∷ ds))
        (λ x y h. elim h.1 [
          | inl e ↦ ground (arith, ap driver_is_ready e.0, e.1, f)
          | inr m ↦ (h.0, m)
        ])
        (λ x y h. (h.0, inr h.1)) (match_drivers-Improves c ds best))
]

match_customers-Improves :
    (cs : List Customer) (ds : List Driver) (best : Best)
    → Improves (InLists cs ds) best (match_customers cs ds best)
unfolding match_customers
match_customers-Improves [] ds best = Improves-refl (InLists [] ds) best (λ x y h. h.0)
match_customers-Improves (c ∷ cs) ds best = elim (Bool-cases (customer_is_ready c)) [
  | inl t ↦ rw t (
      Improves-trans (OfCustomer c ds) (InLists cs ds) (InLists (c ∷ cs) ds)
        (λ x y h. elim h.0 [ inl e ↦ inl (e.0, h.1) | inr m ↦ inr (m, h.1) ])
        (λ x y h. (inl (h.0, ap customer_is_ready h.0 ∙ t), h.1)) (λ x y h. (inr h.0, h.1))
        (match_drivers-Improves c ds best)
        (match_customers-Improves cs ds (match_drivers c ds best)))
  | inr f ↦ rw f (
      Improves-same (InLists cs ds) (InLists (c ∷ cs) ds)
        (λ x y h. elim h.0 [
          | inl e ↦ ground (arith, ap customer_is_ready e.0, e.1, f)
          | inr m ↦ (m, h.1)
        ])
        (λ x y h. (inr h.0, h.1)) (match_customers-Improves cs ds best))
]

-- Whom `match_delivery` returns is ready.
pub match_delivery-ready :
    (cs : List Customer) (ds : List Driver) {c : Customer} {d : Driver}
    → match_delivery cs ds ≡ some (c, d)
    → ReadyCustomer c cs × ReadyDriver d ds
unfolding match_delivery
match_delivery-ready cs ds {c} {d} h =
    let none_yet : Best = record { min_dist = uint_max; pair = none } in
    elim (match_customers-Improves cs ds none_yet).pick [
      | inl same ↦ absurd (cc (ap (λ (t : Best). t.pair) same, h))
      | inr (x, y, p, e, q) ↦
          let found : some (x, y) ≡ some (c, d) = sym e ∙ h in
          let customer : x ≡ c = cc found in
          let driver : y ≡ d = cc found in
          (subst (λ k. ReadyCustomer k cs) customer p.0, subst (λ k. ReadyDriver k ds) driver p.1)
    ]

-- The coordinates are so small that no distance wraps.
abbrev pub Near : Location → Type 0
Near l = (l.x < 2 ^ 30) × (l.y < 2 ^ 30)

-- The distance without machine arithmetic.
abbrev pub manhattan : Location → Location → ℕ
manhattan a b = abs_diff a.x b.x + abs_diff a.y b.y

calc_dist-manhattan : (a b : Location) → Near a → Near b → calc_dist a b ≡ manhattan a b
unfolding calc_dist
calc_dist-manhattan a b p q = ground (arith, p, q)

calc_dist-below : (a b : Location) → Near a → Near b → calc_dist a b < uint_max
calc_dist-below a b p q = ground (arith, calc_dist-manhattan a b p q, p, q)

ready_customer :
    (cs : List Customer) → any_customer_ready cs ≡ true → (c : Customer) × ReadyCustomer c cs
unfolding any_customer_ready
ready_customer [] h = ground (arith, h)
ready_customer (c ∷ cs) h = elim (Bool-cases (customer_is_ready c)) [
  | inl t ↦ (c, inl (refl, t))
  | inr f ↦ let (x, m) = ready_customer cs (ground (arith, h, f)) in (x, inr m)
]

ready_driver : (ds : List Driver) → any_driver_ready ds ≡ true → (d : Driver) × ReadyDriver d ds
unfolding any_driver_ready
ready_driver [] h = ground (arith, h)
ready_driver (d ∷ ds) h = elim (Bool-cases (driver_is_ready d)) [
  | inl t ↦ (d, inl (refl, t))
  | inr f ↦ let (x, m) = ready_driver ds (ground (arith, h, f)) in (x, inr m)
]

-- A customer and a driver of the lists who are ready, and no ready pair is nearer.
pub record IsNearest (cs : List Customer) (ds : List Driver) (c : Customer) (d : Driver)
    : Type 0 where
  pub customer : ReadyCustomer c cs
  pub driver : ReadyDriver d ds
  pub nearest :
      (x : Customer) (y : Driver)
      → ReadyCustomer x cs
      → ReadyDriver y ds
      → manhattan c.location d.location ≤ manhattan x.location y.location

-- When `has_available_delivery` holds and all who are ready are at coordinates below 2^30,
-- `match_delivery` uses no null pointer: it returns a customer and a driver who are ready, and no
-- ready customer and driver are nearer to each other.
pub match_delivery-IsNearest :
    (cs : List Customer) (ds : List Driver)
    → has_available_delivery cs ds ≡ true
    → ((c : Customer) → ReadyCustomer c cs → Near c.location)
    → ((d : Driver) → ReadyDriver d ds → Near d.location)
    → (c : Customer) × (d : Driver) × (match_delivery cs ds ≡ some (c, d)) × IsNearest cs ds c d
unfolding match_delivery has_available_delivery
match_delivery-IsNearest cs ds h near_c near_d =
    let none_yet : Best = record { min_dist = uint_max; pair = none } in
    let m = match_customers-Improves cs ds none_yet in
    let (c0, in_c) = ready_customer cs (ground (arith, h)) in
    let (d0, in_d) = ready_driver ds (ground (arith, h)) in
    elim m.pick [
      | inl same ↦ absurd (
          omega (
            arith,
            ap (λ t. t.min_dist) same,
            m.lowest c0 d0 (in_c, in_d),
            calc_dist-below c0.location d0.location (near_c c0 in_c) (near_d d0 in_d),
          ))
      | inr (c, d, p, e, q) ↦ (
        c,
        d,
        e,
        record {
          customer = p.0;
          driver = p.1;
          nearest = λ x y hx hy. omega (
            arith,
            q,
            m.lowest x y (hx, hy),
            calc_dist-manhattan c.location d.location (near_c c p.0) (near_d d p.1),
            calc_dist-manhattan x.location y.location (near_c x hx) (near_d y hy),
          );
        },
      )
    ]
