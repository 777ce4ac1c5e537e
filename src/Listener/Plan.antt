-- ===== src/Listener/Plan.antt =====
-- What the plan of `syncElbListeners` holds, apart from the indices by which it is computed.
use cloud_provider_osc.Base.{
  ℕ, suc, ◌≤◌, ◌<◌, Bool, true, false, not, ◌||◌, Option, none, some, List, [], ◌∷◌, ◌++◌, map, ◌≡◌,
  refl, sym, ◌∙◌, ◌⊎◌, inl, arith, ◌==◌, list_eq, nat_eq, option_eq, any, filter, contains,
}
use cloud_provider_osc.Base.Int.{ℤ, int_eq}
use cloud_provider_osc.Osc.{Listener, int_value}
use cloud_provider_osc.Listener.{
  is_wanted, find_listener, SyncPlan, note_listener, sync_loop, not_found, sync_elb_listeners,
  elb_listeners_are_equal,
}
use mathlib.Core.List.{append_assoc, append-nil}

-- The listeners of the load balancer that the descriptions hold.
abbrev pub actual_listeners : List (Option Listener) → List Listener
actual_listeners [] = []
actual_listeners (none ∷ ds) = actual_listeners ds
actual_listeners (some a ∷ ds) = a ∷ actual_listeners ds

-- The listener is equal to a desired one.
abbrev pub is_kept : List (Option Listener) → Listener → Bool
is_kept listeners actual = any (is_wanted actual) listeners

-- The desired listener is equal to one of the load balancer.
abbrev pub is_present : List Listener → Option Listener → Bool
is_present actuals x = any (λ a. is_wanted a x) actuals

find_listener-cases :
    (a : Listener) (xs : List (Option Listener)) (i : ℕ)
    → ((is_kept xs a ≡ false) × (find_listener a xs i ≡ none))
      ⊎ ((j : ℕ) × (is_kept xs a ≡ true) × (find_listener a xs i ≡ some j) × (i ≤ j))
unfolding find_listener
find_listener-cases a [] i = inl (refl, refl)
find_listener-cases a (x ∷ xs) i = ground (arith, find_listener-cases a xs (suc i))

-- The indices that the outer loop finds, as a test.
abbrev is_hit : List (Option Listener) → ℕ → List Listener → ℕ → Bool
is_hit xs i actuals j = any (λ a. find_listener a xs i == some j) actuals

sync_loop-found_set :
    (xs ds : List (Option Listener)) (p : SyncPlan) (j : ℕ)
    → contains (sync_loop xs ds p).found_set j
      ≡ (is_hit xs 0 (actual_listeners ds) j || contains p.found_set j)
unfolding sync_loop note_listener
sync_loop-found_set xs [] p j = refl
sync_loop-found_set xs (none ∷ ds) p j = sync_loop-found_set xs ds p j
sync_loop-found_set xs (some a ∷ ds) p j =
    ground (arith, sync_loop-found_set xs ds (note_listener (find_listener a xs 0) a p) j)

-- The listeners that are not wanted are removed, in order.
abbrev pub unwanted : List (Option Listener) → List (Option Listener) → List Listener
unwanted xs ds = filter (λ a. not (is_kept xs a)) (actual_listeners ds)

sync_loop-removals :
    (xs ds : List (Option Listener)) (p : SyncPlan)
    → ((sync_loop xs ds p).removals
        ≡ p.removals ++ map (λ a. a.load_balancer_port) (unwanted xs ds))
      × ((sync_loop xs ds p).removals_instance_ports
          ≡ p.removals_instance_ports ++ map (λ a. a.instance_port) (unwanted xs ds))
unfolding sync_loop note_listener
sync_loop-removals xs [] p =
    (sym (append-nil p.removals), sym (append-nil p.removals_instance_ports))
sync_loop-removals xs (none ∷ ds) p = sync_loop-removals xs ds p
sync_loop-removals xs (some a ∷ ds) p = ground (
  arith,
  find_listener-cases a xs 0,
  sync_loop-removals xs ds (note_listener (find_listener a xs 0) a p),
  append_assoc p.removals (a.load_balancer_port ∷ [])
      (map (λ b. b.load_balancer_port) (unwanted xs ds)),
  append_assoc p.removals_instance_ports (a.instance_port ∷ [])
      (map (λ b. b.instance_port) (unwanted xs ds)),
)

-- The listener stands at the load balancer's port.
abbrev pub has_port : ℤ → Option Listener → Bool
has_port p none = false
has_port p (some l) = int_value l.load_balancer_port == p

-- No two of the listeners have one port, as those of a service.
abbrev pub DistinctPorts : List (Option Listener) → Type 0
DistinctPorts [] = Unit
DistinctPorts (none ∷ xs) = DistinctPorts xs
DistinctPorts (some l ∷ xs) =
    (any (has_port (int_value l.load_balancer_port)) xs ≡ false) × DistinctPorts xs

pub port_of_equal :
    (a l : Listener)
    → elb_listeners_are_equal a l ≡ true
    → int_value a.load_balancer_port ≡ int_value l.load_balancer_port
unfolding elb_listeners_are_equal
port_of_equal a l h = ground arith

wanted_once :
    (a l : Listener) (xs : List (Option Listener))
    → elb_listeners_are_equal a l ≡ true
    → any (has_port (int_value l.load_balancer_port)) xs ≡ false
    → is_kept xs a ≡ false
unfolding is_wanted
wanted_once a l [] e h = refl
wanted_once a l (none ∷ xs) e h = wanted_once a l xs e h
wanted_once a l (some m ∷ xs) e h =
    ground (arith, wanted_once a l xs e, port_of_equal a l, port_of_equal a m)

hit_head :
    (x : Option Listener) (xs : List (Option Listener)) (i : ℕ) (actuals : List Listener)
    → is_hit (x ∷ xs) i actuals i ≡ is_present actuals x
unfolding find_listener
hit_head x xs i [] = refl
hit_head x xs i (a ∷ actuals) =
    ground (arith, hit_head x xs i actuals, find_listener-cases a xs (suc i))

hit_tail :
    (x : Option Listener) (xs : List (Option Listener)) (i : ℕ) (actuals : List Listener) (j : ℕ)
    → DistinctPorts (x ∷ xs)
    → i < j
    → is_hit (x ∷ xs) i actuals j ≡ is_hit xs (suc i) actuals j
unfolding find_listener is_wanted
hit_tail x xs i [] j d lt = refl
hit_tail none xs i (a ∷ actuals) j d lt = ground (arith, hit_tail none xs i actuals j d lt)
hit_tail (some l) xs i (a ∷ actuals) j d lt = ground (
  arith,
  hit_tail (some l) xs i actuals j d lt,
  wanted_once a l xs,
  find_listener-cases a xs (suc i),
)

DistinctPorts-tail :
    (x : Option Listener) (xs : List (Option Listener)) → DistinctPorts (x ∷ xs) → DistinctPorts xs
DistinctPorts-tail none xs d = d
DistinctPorts-tail (some l) xs d = d.1

not_found-filter :
    (xs : List (Option Listener)) (i : ℕ) (found : List ℕ) (actuals : List Listener)
    → DistinctPorts xs
    → ((j : ℕ) → i ≤ j → contains found j ≡ is_hit xs i actuals j)
    → not_found xs i found ≡ filter (λ x. not (is_present actuals x)) xs
unfolding not_found
not_found-filter [] i found actuals d h = refl
not_found-filter (x ∷ xs) i found actuals d h = ground (
  arith,
  h i (omega arith),
  hit_head x xs i actuals,
  not_found-filter xs (suc i) found actuals (DistinctPorts-tail x xs d)
      (λ j le. h j (omega arith) ∙ hit_tail x xs i actuals j d le),
)

-- The plan. What is removed are the ports, and the instance ports, of the listeners of the load
-- balancer that equal no desired one, in order. If the desired listeners have distinct ports, what
-- is added are those that equal no listener of the load balancer, in order.
pub sync_elb_listeners_lem :
    (listeners descriptions : List (Option Listener))
    → DistinctPorts listeners
    → sync_elb_listeners listeners descriptions ≡ (
      filter (λ x. not (is_present (actual_listeners descriptions) x)) listeners,
      map (λ a. a.load_balancer_port) (unwanted listeners descriptions),
      map (λ a. a.instance_port) (unwanted listeners descriptions),
    )
unfolding sync_elb_listeners
sync_elb_listeners_lem xs ds d =
    let start : SyncPlan = record { found_set = []; removals = []; removals_instance_ports = [] } in
    ground (
      arith,
      sync_loop-removals xs ds start,
      not_found-filter xs 0 (sync_loop xs ds start).found_set (actual_listeners ds) d
          (λ j le. sync_loop-found_set xs ds start j ∙ ground arith),
    )
