-- ===== src/Listener/Converge.antt =====
-- A second `syncElbListeners`, on the load balancer that the first plan leaves, plans nothing.
use cloud_provider_osc.Base.{
  Bool, true, false, not, Option, none, some, List, [], ◌∷◌, ◌++◌, map, ◌≡◌, refl, ap, ◌∙◌, ◌⊎◌,
  inl, inr, arith, ◌==◌, list_eq, nat_eq, any, filter, All, All-mono, All-zip, All-append,
  filter-eq-nil, Bool-cases, any-append,
}
use cloud_provider_osc.Base.Int.{ℤ, int_eq}
use cloud_provider_osc.Base.Str.{equal_fold_refl}
use cloud_provider_osc.Osc.{Listener, int_value}
use cloud_provider_osc.Listener.{
  is_wanted, sync_elb_listeners, elb_listeners_are_equal, elb_protocols_are_equal, aws_arn_equals,
}
use cloud_provider_osc.Listener.Plan.{
  actual_listeners, is_kept, is_present, unwanted, has_port, DistinctPorts, sync_elb_listeners_lem,
}

protocols_refl : (o : Option (List Prim.Native.Nat.ℕ)) → elb_protocols_are_equal o o ≡ true
unfolding elb_protocols_are_equal
protocols_refl none = refl
protocols_refl (some s) = equal_fold_refl s

arn_refl : (o : Option (List Prim.Native.Nat.ℕ)) → aws_arn_equals o o ≡ true
unfolding aws_arn_equals
arn_refl none = refl
arn_refl (some s) = equal_fold_refl s

pub elb_listeners_are_equal_refl : (l : Listener) → elb_listeners_are_equal l l ≡ true
unfolding elb_listeners_are_equal
elb_listeners_are_equal_refl l = ground (
  arith,
  protocols_refl l.protocol,
  protocols_refl l.instance_protocol,
  arn_refl l.ssl_certificate_id,
)

is_wanted_refl : (l : Listener) → is_wanted l (some l) ≡ true
unfolding is_wanted
is_wanted_refl l = elb_listeners_are_equal_refl l

-- `DeleteLoadBalancerListeners` removes the listeners at the ports that it is given.
abbrev pub is_removed : List (Option ℤ) → Listener → Bool
is_removed ports a = any (λ p. int_value p == int_value a.load_balancer_port) ports

-- The listeners of the load balancer after the removals and the additions of a plan.
abbrev pub after_plan :
    List (Option Listener) → List (Option ℤ) → List (Option Listener) → List (Option Listener)
after_plan additions removals ds =
    map some (filter (λ a. not (is_removed removals a)) (actual_listeners ds)) ++ additions

abbrev pub IsPresent : Option Listener → Type 0
IsPresent none = ⊥
IsPresent (some l) = Unit

abbrev removal_ports : List (Option Listener) → List Listener → List (Option ℤ)
removal_ports xs actuals =
    map (λ a. a.load_balancer_port) (filter (λ a. not (is_kept xs a)) actuals)

actual_listeners-append :
    (xs ys : List (Option Listener))
    → actual_listeners (xs ++ ys) ≡ actual_listeners xs ++ actual_listeners ys
actual_listeners-append [] ys = refl
actual_listeners-append (none ∷ xs) ys = actual_listeners-append xs ys
actual_listeners-append (some a ∷ xs) ys = ap (◌∷◌ a) (actual_listeners-append xs ys)

actual_listeners-map-some : (as' : List Listener) → actual_listeners (map some as') ≡ as'
actual_listeners-map-some [] = refl
actual_listeners-map-some (a ∷ as') = ap (◌∷◌ a) (actual_listeners-map-some as')

-- The port of each listener after the first differs from the first one's.
differ_from :
    (p : ℤ) (ds : List (Option Listener))
    → any (has_port p) ds ≡ false
    → All (λ a. (int_value a.load_balancer_port == p) ≡ false) (actual_listeners ds)
differ_from p [] h = tt
differ_from p (none ∷ ds) h = differ_from p ds h
differ_from p (some a ∷ ds) h = ground (arith, differ_from p ds)

module _ (xs : List (Option Listener)) where
  -- A listener that is not wanted is removed.
  removed_or_kept :
      (actuals : List Listener) (ports : List (Option ℤ))
      → ((a : Listener)
          → is_removed (removal_ports xs actuals) a ≡ true
          → is_removed ports a ≡ true)
      → All (λ a. (is_kept xs a ≡ true) ⊎ (is_removed ports a ≡ true)) actuals
  removed_or_kept [] ports h = tt
  removed_or_kept (a ∷ actuals) ports h = (
    elim (Bool-cases (is_kept xs a)) [ inl kept ↦ inl kept | inr gone ↦ inr (h a (ground arith)) ],
    removed_or_kept actuals ports (λ b r. h b (ground arith)),
  )

  left_are_kept :
      (actuals : List Listener) (ports : List (Option ℤ))
      → All (λ a. (is_kept xs a ≡ true) ⊎ (is_removed ports a ≡ true)) actuals
      → All (λ a. not (is_kept xs a) ≡ false) (filter (λ a. not (is_removed ports a)) actuals)
  left_are_kept [] ports h = tt
  left_are_kept (a ∷ actuals) ports h = ground (arith, left_are_kept actuals ports h.1)

  -- Ports that differ from those of some listeners are not among their removals.
  not_removed :
      (b : Listener) (actuals : List Listener)
      → All
          (λ a. (int_value a.load_balancer_port == int_value b.load_balancer_port) ≡ false)
          actuals
      → is_removed (removal_ports xs actuals) b ≡ false
  not_removed b [] h = refl
  not_removed b (a ∷ actuals) h = ground (arith, not_removed b actuals h.1)

  -- A listener that is wanted is not removed, if the load balancer's ports are distinct.
  kept_stay :
      (ds : List (Option Listener))
      → DistinctPorts ds
      → All
          (λ a. is_kept xs a ≡ true → is_removed (removal_ports xs (actual_listeners ds)) a ≡ false)
          (actual_listeners ds)
  kept_stay [] d = tt
  kept_stay (none ∷ ds) d = kept_stay ds d
  kept_stay (some a ∷ ds) d =
      let others = differ_from (int_value a.load_balancer_port) ds d.0 in
      (
        λ k. ground (arith, not_removed a (actual_listeners ds) others),
        All-zip (λ b. (int_value b.load_balancer_port == int_value a.load_balancer_port) ≡ false)
            (λ b.
              is_kept xs b ≡ true → is_removed (removal_ports xs (actual_listeners ds)) b ≡ false)
            (λ b.
              is_kept xs b ≡ true
              → is_removed (removal_ports xs (a ∷ actual_listeners ds)) b ≡ false)
            (actual_listeners ds) (λ b differs stays k. ground arith) others (kept_stay ds d.1),
      )

  present_after :
      (x : Option Listener) (actuals : List Listener) (ports : List (Option ℤ))
      → ((a : Listener) → is_wanted a x ≡ true → is_kept xs a ≡ true)
      → All (λ a. is_kept xs a ≡ true → is_removed ports a ≡ false) actuals
      → is_present actuals x ≡ true
      → is_present (filter (λ a. not (is_removed ports a)) actuals) x ≡ true
  present_after x [] ports w h p = p
  present_after x (a ∷ actuals) ports w h p =
      ground (arith, w a, h.0, present_after x actuals ports w h.1)

  -- A desired listener that is added equals a desired one, itself.
  added_are_kept :
      (ys : List (Option Listener)) (test : Option Listener → Bool)
      → All IsPresent ys
      → ((a : Listener) → is_kept ys a ≡ true → is_kept xs a ≡ true)
      → All (λ a. not (is_kept xs a) ≡ false) (actual_listeners (filter test ys))
  added_are_kept [] test p h = tt
  added_are_kept (none ∷ ys) test p h = absurd p.0
  added_are_kept (some l ∷ ys) test p h =
      let rest = added_are_kept ys test p.1 (λ a k. h a (ground arith)) in
      let self = h l (ground (arith, is_wanted_refl l)) in ground (arith, rest, self)

-- A desired listener is there after the plan, since it was or since it is added.
added_are_present :
    (ys : List (Option Listener)) (test : Option Listener → Bool) (actuals : List Listener)
    → All IsPresent ys
    → ((x : Option Listener)
        → is_present (actual_listeners (filter test ys)) x ≡ true
        → is_present actuals x ≡ true)
    → All (λ x. test x ≡ true → is_present actuals x ≡ true) ys
added_are_present [] test actuals p h = tt
added_are_present (none ∷ ys) test actuals p h = absurd p.0
added_are_present (some l ∷ ys) test actuals p h = (
  λ t. h (some l) (ground (arith, is_wanted_refl l)),
  added_are_present ys test actuals p.1 (λ x k. h x (ground arith)),
)

wanted_are_kept :
    (xs ys : List (Option Listener))
    → ((a : Listener) → is_kept ys a ≡ true → is_kept xs a ≡ true)
    → All (λ x. (a : Listener) → is_wanted a x ≡ true → is_kept xs a ≡ true) ys
wanted_are_kept xs [] h = tt
wanted_are_kept xs (x ∷ ys) h =
    (λ a w. h a (ground arith), wanted_are_kept xs ys (λ a k. h a (ground arith)))

module _ (xs ds : List (Option Listener)) (given : All IsPresent xs) (own : DistinctPorts xs)
    (theirs : DistinctPorts ds) where
  abbrev actuals : List Listener
  actuals = actual_listeners ds

  abbrev removals : List (Option ℤ)
  removals = removal_ports xs actuals

  abbrev left : List Listener
  left = filter (λ a. not (is_removed removals a)) actuals

  abbrev additions : List (Option Listener)
  additions = filter (λ x. not (is_present actuals x)) xs

  after_plan-listeners :
      actual_listeners (after_plan additions removals ds) ≡ left ++ actual_listeners additions
  after_plan-listeners =
      actual_listeners-append (map some left) additions
      ∙ ap (λ l. l ++ actual_listeners additions) (actual_listeners-map-some left)

  nothing_to_remove : unwanted xs (after_plan additions removals ds) ≡ []
  nothing_to_remove = rw after_plan-listeners (
      filter-eq-nil (λ a. not (is_kept xs a)) (left ++ actual_listeners additions)
        (All-append _ left (actual_listeners additions)
          (left_are_kept xs actuals removals (removed_or_kept xs actuals removals (λ a r. r)))
          (added_are_kept xs xs (λ x. not (is_present actuals x)) given (λ a k. k))))

  each_listed : All (λ x. not (is_present (left ++ actual_listeners additions) x) ≡ false) xs
  each_listed =
      All-zip (λ x. (a : Listener) → is_wanted a x ≡ true → is_kept xs a ≡ true)
        (λ x. not (is_present actuals x) ≡ true → is_present (actual_listeners additions) x ≡ true)
        (λ x. not (is_present (left ++ actual_listeners additions) x) ≡ false) xs
        (λ x w added. ground (
          arith,
          added,
          present_after xs x actuals removals w (kept_stay xs ds theirs),
          any-append (λ a. is_wanted a x) left (actual_listeners additions),
        ))
        (wanted_are_kept xs xs (λ a k. k))
        (added_are_present xs (λ x. not (is_present actuals x)) (actual_listeners additions) given
          (λ x k. k))

  nothing_to_add :
      filter (λ x. not (is_present (actual_listeners (after_plan additions removals ds)) x)) xs ≡ []
  nothing_to_add =
      rw after_plan-listeners (
        filter-eq-nil (λ x. not (is_present (left ++ actual_listeners additions) x)) xs each_listed)

  -- Let the desired listeners be none nil and of distinct ports, and those of the load balancer of
  -- distinct ports. On the load balancer that has lost the listeners at the ports to remove and has
  -- gained those to add, the next plan adds and removes nothing.
  pub sync_elb_listeners_twice :
      let plan = sync_elb_listeners xs ds in
      sync_elb_listeners xs (after_plan plan.0 plan.1 ds) ≡ ([], [], [])
  sync_elb_listeners_twice = rw (sync_elb_listeners_lem xs ds own) (
      sync_elb_listeners_lem xs (after_plan additions removals ds) own
      ∙ rw (nothing_to_add, nothing_to_remove))

sync-is_present :
    (xs : List (Option Listener))
    → All IsPresent xs
    → All (λ x. is_present (actual_listeners xs) x ≡ true) xs
sync-is_present [] h = tt
sync-is_present (none ∷ xs) h = absurd h.0
sync-is_present (some a ∷ xs) h = (
  ground (arith, is_wanted_refl a),
  All-mono _ (λ x. is_present (a ∷ actual_listeners xs) x ≡ true) xs (λ x p. ground arith)
      (sync-is_present xs h.1),
)

sync-is_kept :
    (xs : List (Option Listener))
    → All IsPresent xs
    → All (λ a. is_kept xs a ≡ true) (actual_listeners xs)
sync-is_kept [] h = tt
sync-is_kept (none ∷ xs) h = absurd h.0
sync-is_kept (some a ∷ xs) h = (
  ground (arith, is_wanted_refl a),
  All-mono _ (λ b. is_kept (some a ∷ xs) b ≡ true) (actual_listeners xs) (λ b p. ground arith)
      (sync-is_kept xs h.1),
)

-- Listeners that are there are neither made nor deleted.
pub sync_elb_listeners-same :
    (xs : List (Option Listener))
    → DistinctPorts xs
    → All IsPresent xs
    → sync_elb_listeners xs xs ≡ ([], [], [])
sync_elb_listeners-same xs distinct present =
    let nothing_to_add : filter (λ x. not (is_present (actual_listeners xs) x)) xs ≡ [] =
      filter-eq-nil _ xs (All-mono _ _ xs (λ x p. ground arith) (sync-is_present xs present)) in
    let nothing_to_remove : unwanted xs xs ≡ [] =
      filter-eq-nil _ (actual_listeners xs)
        (All-mono _ _ (actual_listeners xs) (λ a p. ground arith) (sync-is_kept xs present)) in
    sync_elb_listeners_lem xs xs distinct ∙ rw (nothing_to_add, nothing_to_remove) refl
