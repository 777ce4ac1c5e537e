-- ===== src/Routes/Tests.antt =====
-- A table with a route that leads nowhere, which is replaced, and the routes of a table.
use cloud_provider_osc.Base.{
  Bool, true, false, none, some, Option, List, [], ◌∷◌, ◌≡◌, refl, inl, list_eq, nat_eq, any, ok,
  err, errorf, sdk_error, Result,
}
use cloud_provider_osc.Base.Dict.{Dict, lookup, insert, erase, lookup-insert, lookup-erase}
use cloud_provider_osc.Base.Str.{Str, codes}
use cloud_provider_osc.Osc.{Vm, Route, RouteTable, Compute, list_value}
use cloud_provider_osc.Osc.Idle.{blank_vm, idle_compute, idle_load_balancer}
use cloud_provider_osc.Cloud.{Cloud, blank_global, blank_machine}
use cloud_provider_osc.Tags.{has_cluster_tag}
use cloud_provider_osc.Instances.Url.{plain_parse}
use cloud_provider_osc.Nodes.{
  NodeInformer, note_by_id, tagged_instances, describe_instances, get_instances_by_ids,
  find_instance_by_node_name, node_name_to_provider_id, get_instance_by_node_name,
}
use cloud_provider_osc.Routes.{
  CloudRoute, tagged_tables, find_route_table, listed_route, list_routes, create_route,
}
use cloud_provider_osc.Routes.Created.{RouteService, Leads, create_route-Leads}
use cloud_provider_osc.Routes.Listed.{tells, leads, list_routes-tells}

-- The routes of the one table.
abbrev World : Type 0
World = Dict Str (Option Str)

abbrev add : Str → Option Str → World → Option (Option Str) → Result (Unit {0}) × World
add cidr vm s none = (ok tt, insert cidr vm s)
add cidr vm s (some old) = (err (sdk_error (codes "conflict")), s)

abbrev vm : Vm
vm = record blank_vm {
  vm_id = some (codes "i-1");
  state = some (codes "running");
  private_dns_name = some (codes "node-1");
  tags = some [];
}

abbrev route_of : Str → Option Str → Option Str → Route
route_of cidr vm_id state = record {
  gateway_id = none;
  destination_ip_range = some cidr;
  vm_id = vm_id;
  state = state;
}

abbrev table : RouteTable
table = record {
  route_table_id = some (codes "rtb-1");
  link_route_tables = none;
  routes = some (
      route_of (codes "10.0.1.0/24") (some (codes "i-9")) (some (codes "blackhole"))
      ∷ route_of (codes "10.0.2.0/24") (some (codes "i-1")) (some (codes "active"))
      ∷ []);
  tags = some [];
}

abbrev compute : Compute World
compute = record idle_compute {
  read_vms = λ filters s. (ok (vm ∷ []), s);
  update_vm = λ id check s. (ok tt, s);
  read_route_tables = λ filters s. (ok (table ∷ []), s);
  create_route = λ cidr vm table_id s. add cidr vm s (lookup cidr s);
  delete_route = λ cidr table_id s. (ok tt, erase cidr s);
}

abbrev cloud : Cloud World
cloud = record {
  compute = compute;
  load_balancer = idle_load_balancer;
  global = blank_global;
  region = [];
  vpc_id = [];
  tagging = record { cluster_id = []; uses_legacy_tags = false };
  self_instance = blank_machine;
  tag_name_env = none;
  backoff = λ steps condition s. condition s;
}

abbrev service : RouteService compute (codes "rtb-1")
service = record {
  target = λ s cidr. lookup cidr s;
  added = insert;
  removed = erase;
  creates = λ cidr vm s h. rw h refl;
  deletes = λ cidr s. refl;
  target-added = λ cidr vm s x. lookup-insert x cidr vm s;
  target-removed = λ cidr s x. lookup-erase x cidr s;
}

abbrev informer : NodeInformer World
informer = record { has_synced = λ s. false; get = λ name s. err (errorf []) }

abbrev wanted : CloudRoute
wanted = record {
  name = codes "c-10.0.1.0/24";
  target_node = codes "node-1";
  destination_cidr = codes "10.0.1.0/24";
  blackhole = false;
}

abbrev start : World
start = (codes "10.0.1.0/24", some (codes "i-9")) ∷ (codes "10.0.2.0/24", some (codes "i-1")) ∷ []

vm_run :
    get_instance_by_node_name cloud plain_parse informer (codes "node-1") start ≡ (ok vm, start)
unfolding get_instance_by_node_name node_name_to_provider_id find_instance_by_node_name
    describe_instances tagged_instances has_cluster_tag list_eq nat_eq
vm_run = refl

table_run : find_route_table cloud start ≡ (ok table, start)
unfolding find_route_table tagged_tables has_cluster_tag list_eq nat_eq
table_run = refl

create_route-Leads_example :
    (t : World) × (create_route cloud plain_parse informer wanted start ≡ (ok tt, t))
    × Leads cloud (codes "rtb-1") service start t (codes "10.0.1.0/24") (some (codes "i-1"))
unfolding list_eq nat_eq
create_route-Leads_example =
    create_route-Leads cloud (codes "rtb-1") service plain_parse informer wanted vm table start
      start start start vm_run refl table_run refl (inl refl)

abbrev instances : Dict Str Vm
instances = (codes "i-1", vm) ∷ []

read_run :
    get_instances_by_ids cloud (some (codes "i-9" ∷ codes "i-1" ∷ [])) start ≡ (ok instances, start)
unfolding get_instances_by_ids note_by_id insert list_eq nat_eq
read_run = refl

list_routes-tells_example :
    (routes : List CloudRoute) × (list_routes cloud (codes "c") start ≡ (ok routes, start))
    × ((cidr node : Str) (blackhole : Bool)
        → any (tells cidr node blackhole) routes
          ≡ any (leads instances cidr node blackhole) (list_value table.routes))
unfolding list_eq nat_eq
list_routes-tells_example =
    list_routes-tells cloud (codes "c") table instances start start start table_run read_run

list_run : list_routes cloud (codes "c") start ≡ (
  ok (
      record {
        name = codes "c-10.0.1.0/24";
        target_node = [];
        destination_cidr = codes "10.0.1.0/24";
        blackhole = true;
      }
      ∷ record {
        name = codes "c-10.0.2.0/24";
        target_node = codes "node-1";
        destination_cidr = codes "10.0.2.0/24";
        blackhole = false;
      }
      ∷ []),
  start,
)
unfolding list_routes find_route_table tagged_tables has_cluster_tag get_instances_by_ids note_by_id
    listed_route lookup insert list_eq nat_eq
list_run = refl
