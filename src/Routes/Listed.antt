-- ===== src/Routes/Listed.antt =====
-- The routes that `ListRoutes` tells of, against the table.
use cloud_provider_osc.Base.{
  Bool, true, false, not, ◌&&◌, Option, none, some, List, [], ◌∷◌, ◌≡◌, refl, ◌∙◌, arith,
  if◌then◌else◌, ◌==◌, ◌!=◌, list_eq, nat_eq, any, any-append, concat_map, Bool-cases, inl, inr, ok,
}
use cloud_provider_osc.Base.Dict.{Dict, lookup}
use cloud_provider_osc.Base.Str.{Str}
use cloud_provider_osc.Osc.{Vm, Route, RouteTable, str_value, list_value}
use cloud_provider_osc.Cloud.{Cloud}
use cloud_provider_osc.Nodes.{get_instances_by_ids}
use cloud_provider_osc.Routes.{
  CloudRoute, is_blackhole, routed_ids, route_to, listed_route, find_route_table, list_routes,
}

abbrev bool_same : Bool → Bool → Bool
bool_same true b = b
bool_same false b = not b

-- A listed route that leads for a range to a node, or nowhere.
abbrev pub tells : Str → Str → Bool → CloudRoute → Bool
tells cidr node blackhole route =
    route.destination_cidr == cidr
    && route.target_node == node
    && bool_same route.blackhole blackhole

abbrev named_as : Str → Option Vm → Bool
named_as node none = false
named_as node (some vm) = str_value vm.private_dns_name == node

-- A route of the table that leads for a range to a machine whose private name is the node's, or
-- nowhere; the range is not empty.
abbrev pub leads : Dict Str Vm → Str → Str → Bool → Route → Bool
leads instances cidr node blackhole route =
    str_value route.destination_ip_range == cidr
    && not (str_value route.destination_ip_range == [])
    && (if blackhole
        then is_blackhole route && [] == node
        else not (is_blackhole route)
          && str_value route.vm_id != []
          && named_as node (lookup (str_value route.vm_id) instances))

module _ (cluster_name : Str) (instances : Dict Str Vm) (cidr node : Str) (blackhole : Bool) where
  route_to-tells :
      (range : Str) (found : Option Vm)
      → any (tells cidr node blackhole) (route_to cluster_name range found)
        ≡ (not blackhole && range == cidr && named_as node found)
  route_to-tells range none = ground arith
  route_to-tells range (some vm) = ground arith

  listed_route-tells :
      (route : Route)
      → any (tells cidr node blackhole) (listed_route cluster_name instances route)
        ≡ leads instances cidr node blackhole route
  unfolding listed_route
  listed_route-tells route =
      let range = str_value route.destination_ip_range in
      elim (Bool-cases (range == [])) [
        | inl empty ↦ rw empty (ground arith)
        | inr given ↦ rw given (elim (Bool-cases (is_blackhole route)) [
          | inl hole ↦ rw hole (ground arith)
          | inr live ↦ rw live (elim (Bool-cases (str_value route.vm_id != [])) [
            | inl named ↦
                let found = lookup (str_value route.vm_id) instances in
                rw (named, route_to-tells range found) (ground arith)
            | inr nameless ↦ rw nameless (ground arith)
          ])
        ])
      ]

  listed_tells :
      (routes : List Route)
      → any (tells cidr node blackhole) (concat_map (listed_route cluster_name instances) routes)
        ≡ any (leads instances cidr node blackhole) routes
  listed_tells [] = refl
  listed_tells (route ∷ routes) =
      any-append (tells cidr node blackhole) (listed_route cluster_name instances route)
        (concat_map (listed_route cluster_name instances) routes)
      ∙ ground (arith, listed_route-tells route, listed_tells routes)

-- Let the cluster's table be found, and the machines that its routes name be read. Then a route is
-- told exactly if the table has it: for a range that is not empty, one that leads to a machine of
-- which the private name is the node's, or one that leads nowhere, which has no node.
pub list_routes-tells :
    {S : Type 0} (c : Cloud S) (cluster_name : Str) (table : RouteTable) (instances : Dict Str Vm)
    (s t u : S)
    → find_route_table c s ≡ (ok table, t)
    → get_instances_by_ids c (some (routed_ids (list_value table.routes))) t ≡ (ok instances, u)
    → (routes : List CloudRoute) × (list_routes c cluster_name s ≡ (ok routes, u))
      × ((cidr node : Str) (blackhole : Bool)
          → any (tells cidr node blackhole) routes
            ≡ any (leads instances cidr node blackhole) (list_value table.routes))
unfolding list_routes
list_routes-tells c cluster_name table instances s t u located read = (
  concat_map (listed_route cluster_name instances) (list_value table.routes),
  rw (located, read) refl,
  λ cidr node blackhole.
      listed_tells cluster_name instances cidr node blackhole (list_value table.routes),
)
