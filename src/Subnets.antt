-- ===== src/Subnets.antt =====
-- cloud-controller-manager/osc/ccm_cloud.go and utils.go: the subnets that a load balancer may use,
-- and the one that is used. Child modules: `Choice` for the subnet of each subregion,
-- `Routed` for what a public subnet is, `Public` for load balancers that face the internet, `Single` for the one in the end.
pub mod Routed
pub mod Public
pub mod Choice
pub mod Single
mod Tests
use cloud_provider_osc.Base.{
  ℕ, Bool, true, false, not, ◌&&◌, ◌||◌, Option, none, some, List, [], ◌∷◌, ◌++◌, map,
  if◌then◌else◌, ◌==◌, ◌!=◌, list_eq, nat_eq, bool_eq, any, is_nil, filter, contains, Result, ok,
  err, panic, and_then, Error, errorf, M, return, fail, lift, continue_with, handle_with, ◌>>=◌,
  try,
}
use cloud_provider_osc.Base.Dict.{Dict, keys, lookup, insert}
use cloud_provider_osc.Base.Str.{Str, codes, has_prefix, compares_after, sort_strings}
use cloud_provider_osc.Osc.{
  ResourceTag, Subnet, Route, RouteTable, FiltersSubnet, str_value, bool_value, list_value,
}
use cloud_provider_osc.Tags.{ResourceTagging, has_cluster_tag}
use cloud_provider_osc.Cloud.{Cloud}

-- TagNameSubnetInternalELB
abbrev pub tag_name_subnet_internal_elb : Str
tag_name_subnet_internal_elb = codes "kubernetes.io/role/internal-elb"

-- TagNameSubnetPublicELB
abbrev pub tag_name_subnet_public_elb : Str
tag_name_subnet_public_elb = codes "kubernetes.io/role/elb"

-- The last table that passes a test, as the outer loop does not stop.
pub last_table : (RouteTable → Bool) → List RouteTable → Option RouteTable → Option RouteTable
last_table test [] found = found
last_table test (table ∷ tables) found =
    last_table test tables (if test table then some table else found)

abbrev pub has_subnet : Str → RouteTable → Bool
has_subnet id table =
    any (λ assoc. str_value assoc.subnet_id == id) (list_value table.link_route_tables)

abbrev pub is_main : RouteTable → Bool
is_main table = any (λ assoc. bool_value assoc.main) (list_value table.link_route_tables)

-- The table of the subnet, or the main one.
pub subnet_table : List RouteTable → Str → Option RouteTable
unfolding last_table
subnet_table tables id = elim (last_table (has_subnet id) tables none) [
  | some table ↦ some table
  | none ↦ last_table is_main tables none
]

abbrev pub is_internet_route : Route → Bool
is_internet_route route = has_prefix (str_value route.gateway_id) (codes "igw")

abbrev table_is_public : Option RouteTable → Result Bool
table_is_public none = err (errorf (codes "could not locate routing table for subnet"))
table_is_public (some table) = ok (any is_internet_route (list_value table.routes))

pub is_subnet_public : Option (List RouteTable) → Str → Result Bool
is_subnet_public none id = err (errorf (codes "RouteTable is nil"))
is_subnet_public (some tables) id = table_is_public (subnet_table tables id)

pub find_tag : Option (List ResourceTag) → Str → Str × Bool
find_tag none key = ([], false)
find_tag (some []) key = ([], false)
find_tag (some (tag ∷ tags)) key =
    let rest = find_tag (some tags) key in if tag.key == key then (tag.value, true) else rest

abbrev pub has_tag : Str → Subnet → Bool
has_tag tag_name subnet = (find_tag subnet.tags tag_name).1

-- Whether the subnet takes the place of the one that its subregion has.
pub takes_place : Bool → Bool → Str → Option Subnet → Subnet → Bool
takes_place internal_elb is_public tag_name none subnet =
    has_tag tag_name subnet || (is_public && not internal_elb)
takes_place internal_elb is_public tag_name (some existing) subnet =
    if has_tag tag_name existing != has_tag tag_name subnet
    then has_tag tag_name subnet
    else compares_after (str_value existing.subnet_id) (str_value subnet.subnet_id)

-- What a pass of the loop does for a subnet of which it is known whether it is public.
pub place_subnet : Bool → Str → Subnet → Dict Str Subnet → Bool → Dict Str Subnet
place_subnet internal_elb tag_name subnet subnets_by_az is_public =
    if not internal_elb && not is_public
    then subnets_by_az
    else let az = str_value subnet.subregion_name in
      if takes_place internal_elb is_public tag_name (lookup az subnets_by_az) subnet
      then insert az subnet subnets_by_az
      else subnets_by_az

abbrev pub is_named : Subnet → Bool
is_named subnet = not (str_value subnet.subregion_name == [] || str_value subnet.subnet_id == [])

-- One pass of the loop. A subnet without a name or a subregion is left out.
pub note_subnet :
    Bool → Str → Option (List RouteTable) → Subnet → Dict Str Subnet → Result (Dict Str Subnet)
note_subnet internal_elb tag_name rt subnet by_az =
    if is_named subnet
    then and_then (is_subnet_public rt (str_value subnet.subnet_id))
        (λ is_public. ok (place_subnet internal_elb tag_name subnet by_az is_public))
    else ok by_az

pub subnets_by_az_loop :
    Bool → Str → Option (List RouteTable) → List Subnet → Dict Str Subnet → Result (Dict Str Subnet)
subnets_by_az_loop internal_elb tag_name rt [] by_az = ok by_az
subnets_by_az_loop internal_elb tag_name rt (subnet ∷ subnets) by_az =
    and_then (note_subnet internal_elb tag_name rt subnet by_az)
      (subnets_by_az_loop internal_elb tag_name rt subnets)

abbrev id_at : Dict Str Subnet → Str → Str
id_at by_az az = elim (lookup az by_az) [ none ↦ [] | some subnet ↦ str_value subnet.subnet_id ]

pub elb_subnet_ids : Bool → Option (List RouteTable) → List Subnet → Result (List Str)
elb_subnet_ids internal_elb rt subnets =
    let tag_name =
      if internal_elb then tag_name_subnet_internal_elb else tag_name_subnet_public_elb in
    and_then (subnets_by_az_loop internal_elb tag_name rt subnets [])
      (λ by_az. ok (map (id_at by_az) (sort_strings (keys by_az))))

-- The loop that takes the first subnet of all in the order of `strings.Compare`.
pub first_subnet : Str → List Str → Str
first_subnet current [] = current
first_subnet current (subnet ∷ subnets) =
    first_subnet (if compares_after current subnet then subnet else current) subnets

-- The part of `EnsureLoadBalancer` that leaves one subnet at most.
pub choose_subnet : List Str → Str → Result (List Str)
choose_subnet [] target = ok []
choose_subnet (subnet ∷ subnets) target =
    if target != []
    then (if contains (subnet ∷ subnets) target
        then ok (target ∷ [])
        else err (errorf (codes "user subnet specified in the annotation was not found")))
    else if is_nil subnets
    then ok (subnet ∷ [])
    else ok (first_subnet subnet (subnet ∷ subnets) ∷ [])

module _ {S : Type 0} (c : Cloud S) where
  tagged_subnets : List Subnet → Result (List Subnet)
  tagged_subnets [] = ok []
  tagged_subnets (subnet ∷ subnets) = and_then (has_cluster_tag c.tagging subnet.tags) (λ tagged.
      and_then (tagged_subnets subnets)
        (λ matches. ok (if tagged then subnet ∷ matches else matches)))

  abbrev describe_subnets : FiltersSubnet → M S (List Subnet)
  describe_subnets filters =
      try (c.compute.describe_subnets filters) return
        (λ e. fail (errorf (codes "error describing subnets")))

  current_subnets : M S (List Subnet)
  current_subnets =
      if c.self_instance.subnet_id != []
      then describe_subnets
          (record { net_ids = none; subnet_ids = some (c.self_instance.subnet_id ∷ []) })
      else return []

  pub find_subnets : M S (List Subnet)
  find_subnets =
      if c.vpc_id != []
      then (do
        subnets ← describe_subnets (record { net_ids = some (c.vpc_id ∷ []); subnet_ids = none })
        matches ← lift (tagged_subnets subnets)
        if is_nil matches then current_subnets else return matches)
      else current_subnets

  abbrev read_tables : M S (List RouteTable)
  read_tables =
      if c.vpc_id != []
      then try
          (c.compute.read_route_tables
            (some (record { route_table_ids = none; net_ids = some (c.vpc_id ∷ []) })))
          return (λ e. fail (errorf (codes "error describe route table")))
      else return []

  pub find_elb_subnets : Bool → M S (List Str)
  find_elb_subnets internal_elb = do
    subnets ← find_subnets
    tables ← read_tables
    lift (elb_subnet_ids internal_elb (some tables) subnets)
