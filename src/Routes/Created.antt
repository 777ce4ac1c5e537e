-- ===== src/Routes/Created.antt =====
-- The route table after `CreateRoute`, over a service that keeps routes.
use cloud_provider_osc.Base.{
  Bool, true, false, ◌&&◌, Option, none, some, List, [], ◌∷◌, ◌≡◌, refl, ◌∙◌, any, ◌⊎◌, inl, inr,
  arith, if◌then◌else◌, ◌==◌, list_eq, nat_eq, ok,
}
use cloud_provider_osc.Base.Str.{Str}
use cloud_provider_osc.Osc.{Vm, Route, RouteTable, Compute, str_value, list_value}
use cloud_provider_osc.Cloud.{Cloud}
use cloud_provider_osc.Instances.{Location}
use cloud_provider_osc.Nodes.{NodeInformer, get_instance_by_node_name}
use cloud_provider_osc.Routes.{
  CloudRoute, is_blackhole, last_blackhole, find_route_table, configure_instance_source_dest_check,
  delete_blackhole, add_route, change_table, create_route,
}

-- A service that answers: where a range leads in the table of an id, if it has a route. A route can
-- be made where there is none for its range.
pub record RouteService {S : Type 0} (compute : Compute S) (table_id : Str) : Type 0 where
  pub target : S → Str → Option (Option Str)
  pub added : Str → Option Str → S → S
  pub removed : Str → S → S
  pub creates :
      (cidr : Str) (vm : Option Str) (s : S)
      → target s cidr ≡ none
      → compute.create_route cidr vm table_id s ≡ (ok tt, added cidr vm s)
  pub deletes :
      (cidr : Str) (s : S) → compute.delete_route cidr table_id s ≡ (ok tt, removed cidr s)
  pub target-added :
      (cidr : Str) (vm : Option Str) (s : S) (x : Str)
      → target (added cidr vm s) x ≡ (if cidr == x then some vm else target s x)
  pub target-removed :
      (cidr : Str) (s : S) (x : Str)
      → target (removed cidr s) x ≡ (if cidr == x then none else target s x)

-- A route that leads nowhere and is chosen is one for the range.
abbrev IsFor : Str → Option Route → Type 0
IsFor cidr none = Unit
IsFor cidr (some route) = str_value route.destination_ip_range ≡ cidr

last_blackhole-IsFor :
    (cidr : Str) (routes : List Route) (found : Option Route)
    → IsFor cidr found
    → IsFor cidr (last_blackhole cidr routes found)
unfolding last_blackhole
last_blackhole-IsFor cidr [] found h = h
last_blackhole-IsFor cidr (route ∷ routes) found h =
    last_blackhole-IsFor cidr routes _ (ground arith)

-- A table shows a route for the range that leads nowhere.
abbrev pub has_blackhole : Str → List Route → Bool
has_blackhole cidr =
    any (λ route. str_value route.destination_ip_range == cidr && is_blackhole route)

last_blackhole-none :
    (cidr : Str) (routes : List Route) (found : Option Route)
    → last_blackhole cidr routes found ≡ none
    → (found ≡ none) × (has_blackhole cidr routes ≡ false)
unfolding last_blackhole
last_blackhole-none cidr [] found h = (h, refl)
last_blackhole-none cidr (route ∷ routes) found h =
    let rest = last_blackhole-none cidr routes _ h in ground (arith, rest.0, rest.1)

module _ {S : Type 0} (c : Cloud S) (table_id : Str)
    (service : RouteService c.compute table_id) where
  abbrev pub Leads : S → S → Str → Option Str → Type 0
  Leads s t cidr vm =
      (x : Str) → service.target t x ≡ (if cidr == x then some vm else service.target s x)

  add_route-Leads :
      (cidr : Str) (vm : Option Str) (s : S)
      → service.target s cidr ≡ none
      → (t : S) × (add_route c cidr vm table_id s ≡ (ok tt, t)) × Leads s t cidr vm
  add_route-Leads cidr vm s h = (
    service.added cidr vm s,
    rw (service.creates cidr vm s h) refl,
    service.target-added cidr vm s,
  )

  cleared : Str → Option Route → S → S
  cleared cidr none s = s
  cleared cidr (some route) s = service.removed cidr s

  delete_blackhole-run :
      (cidr : Str) (route : Option Route) (s : S)
      → IsFor cidr route
      → delete_blackhole c table_id route s ≡ (ok tt, cleared cidr route s)
  unfolding cleared
  delete_blackhole-run cidr none s h = refl
  delete_blackhole-run cidr (some route) s h = rw (h, service.deletes cidr s) refl

  cleared-free :
      (cidr : Str) (route : Option Route) (s : S)
      → (route ≡ none → service.target s cidr ≡ none)
      → service.target (cleared cidr route s) cidr ≡ none
  unfolding cleared
  cleared-free cidr none s h = h refl
  cleared-free cidr (some route) s h = service.target-removed cidr s cidr ∙ ground arith

  cleared-others :
      (cidr : Str) (route : Option Route) (s : S) (x : Str)
      → (if cidr == x then none else service.target (cleared cidr route s) x)
        ≡ (if cidr == x then none else service.target s x)
  unfolding cleared
  cleared-others cidr none s x = refl
  cleared-others cidr (some route) s x = ground (arith, service.target-removed cidr s x)

  free_or_blackhole :
      (cidr : Str) (routes : List Route) (s : S)
      → (has_blackhole cidr routes ≡ true) ⊎ (service.target s cidr ≡ none)
      → last_blackhole cidr routes none ≡ none
      → service.target s cidr ≡ none
  free_or_blackhole cidr routes s (inr free) h = free
  free_or_blackhole cidr routes s (inl shown) h =
      absurd (ground (arith, last_blackhole-none cidr routes none h))

  change_table-Leads :
      (cidr : Str) (vm : Vm) (table : RouteTable) (s : S)
      → str_value table.route_table_id ≡ table_id
      → (has_blackhole cidr (list_value table.routes) ≡ true) ⊎ (service.target s cidr ≡ none)
      → (t : S) × (change_table c cidr vm table s ≡ (ok tt, t)) × Leads s t cidr vm.vm_id
  change_table-Leads cidr vm table s h free =
      let routes = list_value table.routes in
      let route = last_blackhole cidr routes none in
      let is_for = last_blackhole-IsFor cidr routes none tt in
      let u = cleared cidr route s in
      let added =
        add_route-Leads cidr vm.vm_id u
          (cleared-free cidr route s (free_or_blackhole cidr routes s free)) in
      (
        added.0,
        rw (h, delete_blackhole-run cidr route s is_for) added.1,
        λ x. added.2 x ∙ ground (arith, cleared-others cidr route s x),
      )

  module _ (parse : Str → Option Location) (informer : NodeInformer S) where
    -- Let the node's machine be found, its check of addresses be turned off, and the cluster's table be
    -- found, over a service that answers. If the table shows a route for the range that leads nowhere,
    -- or has no route for it, then the call succeeds; in the end the range leads to the node's machine,
    -- and each other range where it led before.
    pub create_route-Leads :
        (route : CloudRoute) (vm : Vm) (table : RouteTable) (s s1 s2 s3 : S)
        → get_instance_by_node_name c parse informer route.target_node s ≡ (ok vm, s1)
        → c.compute.update_vm (str_value vm.vm_id) false s1 ≡ (ok tt, s2)
        → find_route_table c s2 ≡ (ok table, s3)
        → str_value table.route_table_id ≡ table_id
        → (has_blackhole route.destination_cidr (list_value table.routes) ≡ true)
          ⊎ (service.target s3 route.destination_cidr ≡ none)
        → (t : S) × (create_route c parse informer route s ≡ (ok tt, t))
          × Leads s3 t route.destination_cidr vm.vm_id
    unfolding create_route configure_instance_source_dest_check
    create_route-Leads route vm table s s1 s2 s3 found checked located named free =
        let changed = change_table-Leads route.destination_cidr vm table s3 named free in
        (changed.0, rw (found, checked, located) changed.1, changed.2)
