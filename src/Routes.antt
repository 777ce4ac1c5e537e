-- ===== src/Routes.antt =====
-- cloud-controller-manager/osc/osc_routes.go: the routes to the pods of the nodes, in the one route
-- table of the cluster. Child modules: `Created` for the table after a route is made, `Listed` for
-- the routes that are told.
pub mod Created
pub mod Listed
mod Tests
use cloud_provider_osc.Base.{
  ℕ, Bool, true, false, ◌&&◌, Option, none, some, List, [], ◌∷◌, ◌++◌, map, if◌then◌else◌, ◌==◌,
  ◌!=◌, not, list_eq, nat_eq, filter, concat_map, Result, ok, err, panic, and_then, Error, errorf,
  M, return, fail, lift, continue_with, handle_with, ◌>>=◌, ◌>>◌, try,
}
use cloud_provider_osc.Base.Dict.{Dict, lookup}
use cloud_provider_osc.Base.Str.{Str, codes}
use cloud_provider_osc.Osc.{Vm, Route, RouteTable, str_value, list_value}
use cloud_provider_osc.Tags.{has_cluster_tag}
use cloud_provider_osc.Cloud.{Cloud}
use cloud_provider_osc.Instances.{Location}
use cloud_provider_osc.Nodes.{NodeInformer, get_instances_by_ids, get_instance_by_node_name}

-- `cloudprovider.Route`
pub record CloudRoute : Type 0 where
  pub name : Str
  pub target_node : Str
  pub destination_cidr : Str
  pub blackhole : Bool

abbrev pub is_blackhole : Route → Bool
is_blackhole route = str_value route.state == codes "blackhole"

-- The loop of `CreateRoute` that does not stop: the last route for the range that leads nowhere.
unfoldable pub last_blackhole : Str → List Route → Option Route → Option Route
last_blackhole cidr [] found = found
last_blackhole cidr (route ∷ routes) found = last_blackhole cidr routes (
    if str_value route.destination_ip_range == cidr && is_blackhole route
    then some route
    else found)

abbrev pub routed_ids : List Route → List Str
routed_ids routes = filter (λ id. id != []) (map (λ route. str_value route.vm_id) routes)

abbrev route_to : Str → Str → Option Vm → List CloudRoute
route_to cluster_name cidr none = []
route_to cluster_name cidr (some vm) =
    record {
      name = cluster_name ++ codes "-" ++ cidr;
      target_node = str_value vm.private_dns_name;
      destination_cidr = cidr;
      blackhole = false;
    }
    ∷ []

-- One pass of the loop of `ListRoutes`. A route to a machine that is not found is left out.
unfoldable pub listed_route : Str → Dict Str Vm → Route → List CloudRoute
listed_route cluster_name instances route =
    let cidr = str_value route.destination_ip_range in
    if cidr == []
    then []
    else if is_blackhole route
    then record {
      name = cluster_name ++ codes "-" ++ cidr;
      target_node = [];
      destination_cidr = cidr;
      blackhole = true;
    }
      ∷ []
    else if str_value route.vm_id != []
    then route_to cluster_name cidr (lookup (str_value route.vm_id) instances)
    else []

module _ {S : Type 0} (c : Cloud S) where
  tagged_tables : List RouteTable → Result (List RouteTable)
  tagged_tables [] = ok []
  tagged_tables (table ∷ tables) = and_then (has_cluster_tag c.tagging table.tags) (λ tagged.
      and_then (tagged_tables tables) (λ matches. ok (if tagged then table ∷ matches else matches)))

  abbrev pub the_table : List RouteTable → Result RouteTable
  the_table [] = err (errorf (codes "unable to find route table for AWS cluster: "))
  the_table (table ∷ []) = ok table
  the_table (table ∷ other ∷ tables) =
      err (errorf (codes "found multiple matching AWS route tables for AWS cluster: "))

  abbrev candidate_tables : M S (List RouteTable)
  candidate_tables =
      if c.global.route_table_id != []
      then c.compute.read_route_tables
          (some (record { route_table_ids = some (c.global.route_table_id ∷ []); net_ids = none }))
      else c.compute.read_route_tables none >>= λ tables. lift (tagged_tables tables)

  pub find_route_table : M S RouteTable
  find_route_table = do tables ← candidate_tables; lift (the_table tables)

  unfoldable pub list_routes : Str → M S (List CloudRoute)
  list_routes cluster_name = do
    table ← find_route_table
    instances ← get_instances_by_ids c (some (routed_ids (list_value table.routes)))
    return (concat_map (listed_route cluster_name instances) (list_value table.routes))

  unfoldable pub configure_instance_source_dest_check : Str → Bool → M S (Unit {0})
  configure_instance_source_dest_check id check =
      try (c.compute.update_vm id check) return
        (λ e. fail (errorf (codes "error configuring source-dest-check on instance ")))

  abbrev pub delete_blackhole : Str → Option Route → M S (Unit {0})
  delete_blackhole table_id none = return tt
  delete_blackhole table_id (some route) =
      try (c.compute.delete_route (str_value route.destination_ip_range) table_id) return
        (λ e. fail (errorf (codes "error deleting blackholed AWS route (")))

  abbrev pub add_route : Str → Option Str → Str → M S (Unit {0})
  add_route cidr vm_id table_id =
      try (c.compute.create_route cidr vm_id table_id) return
        (λ e. fail (errorf (codes "error creating AWS route (")))

  abbrev pub change_table : Str → Vm → RouteTable → M S (Unit {0})
  change_table cidr vm table =
      let table_id = str_value table.route_table_id in
      delete_blackhole table_id (last_blackhole cidr (list_value table.routes) none)
      >> add_route cidr vm.vm_id table_id

  module _ (parse : Str → Option Location) (informer : NodeInformer S) where
    unfoldable pub create_route : CloudRoute → M S (Unit {0})
    create_route route = do
      vm ← get_instance_by_node_name c parse informer route.target_node
      configure_instance_source_dest_check (str_value vm.vm_id) false
      table ← find_route_table
      change_table route.destination_cidr vm table

  unfoldable pub delete_route : CloudRoute → M S (Unit {0})
  delete_route route = do
    table ← find_route_table
    try (c.compute.delete_route route.destination_cidr (str_value table.route_table_id)) return
        (λ e. fail (errorf (codes "error deleting AWS route (")))
