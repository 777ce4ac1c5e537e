-- ===== src/SecurityGroup/Nodes.antt =====
-- cloud-controller-manager/osc/ccm_cloud.go and utils.go: the rules that let the traffic of a load
-- balancer into the security groups of the nodes. Child module: `Plan` for the groups to change.
pub mod Plan
use cloud_provider_osc.Base.{
  ℕ, Bool, true, false, not, ◌&&◌, ◌||◌, Option, none, some, List, [], ◌∷◌, ◌++◌, if◌then◌else◌,
  ◌==◌, ◌!=◌, list_eq, nat_eq, bool_eq, option_eq, is_nil, contains, Result, ok, err, panic,
  and_then, Error, errorf, M, return, fail, lift, continue_with, handle_with, ◌>>=◌, ◌>>◌, try,
}
use cloud_provider_osc.Base.Dict.{Dict, keys, lookup, insert, erase}
use cloud_provider_osc.Base.Int.{ℤ, negsuc}
use cloud_provider_osc.Base.Str.{Str, codes}
use cloud_provider_osc.Osc.{
  SecurityGroupsMember, SecurityGroupRule, SecurityGroup, SecurityGroupLight, Vm,
  LoadBalancerDescription, str_value, list_value,
}
use cloud_provider_osc.Tags.{has_cluster_tag, cluster_tag_key}
use cloud_provider_osc.Cloud.{Cloud}
use cloud_provider_osc.SecurityGroup.{
  default_src_sg_name, no_filters, add_security_group_rules, remove_security_group_rules,
}

-- TagNameMainSG
abbrev pub tag_name_main_sg : Str
tag_name_main_sg = codes "OscK8sMainSG/"

-- The loop that parts the groups of an instance, those without id left out.
pub part_groups :
    List SecurityGroupLight
    → Dict Str SecurityGroup
    → List SecurityGroupLight × List SecurityGroupLight
part_groups [] tagged_groups = ([], [])
part_groups (group ∷ groups) tagged_groups =
    let rest = part_groups groups tagged_groups in
    let id = str_value group.security_group_id in
    let light = record group { security_group_id = some id } in
    if id == []
    then rest
    else if contains (keys tagged_groups) id
    then (light ∷ rest.0, rest.1)
    else (rest.0, light ∷ rest.1)

-- The only tagged group, or, if none is tagged, the only untagged one.
pub the_only_group :
    List SecurityGroupLight × List SecurityGroupLight → Result (Option SecurityGroupLight)
the_only_group (group ∷ [], untagged) = ok (some group)
the_only_group (group ∷ _ ∷ _, untagged) =
    err (errorf (codes "Multiple tagged security groups found for instance"))
the_only_group ([], []) = ok none
the_only_group ([], group ∷ []) = ok (some group)
the_only_group ([], group ∷ _ ∷ _) =
    err (errorf (codes "Multiple untagged security groups found for instance"))

pub find_security_group_for_instance :
    Vm → Dict Str SecurityGroup → Result (Option SecurityGroupLight)
find_security_group_for_instance instance tagged_groups =
    the_only_group (part_groups (list_value instance.security_groups) tagged_groups)

abbrev note_group : Option SecurityGroupLight → Dict Str Bool → Dict Str Bool
note_group none ids = ids
note_group (some group) ids =
    let id = str_value group.security_group_id in if id == [] then ids else insert id true ids

-- The groups that the instances need, each with `true`.
pub needed_groups : Dict Str Vm → Dict Str SecurityGroup → Dict Str Bool → Result (Dict Str Bool)
needed_groups [] tagged_groups ids = ok ids
needed_groups ((_, instance) ∷ instances) tagged_groups ids =
    and_then (find_security_group_for_instance instance tagged_groups)
      (λ group. needed_groups instances tagged_groups (note_group group ids))

-- What becomes of the map for one group that lets the load balancer in already.
pub compare_group : Str → Dict Str Bool → Dict Str Bool
compare_group id ids =
    if id == []
    then ids
    else if lookup id ids == some true
    then erase id ids
    else insert id false ids

-- The map of changes: `true` to add, `false` to remove.
pub compare_groups : List SecurityGroup → Dict Str Bool → Dict Str Bool
compare_groups [] ids = ids
compare_groups (group ∷ groups) ids =
    compare_groups groups (compare_group (str_value group.security_group_id) ids)

-- The last group of the list that is not empty.
pub last_group : List Str → Str → Str
last_group [] id = id
last_group (group ∷ groups) id = last_group groups (if group == [] then id else group)

pub load_balancer_security_group : LoadBalancerDescription → List Str → Str
load_balancer_security_group lb ids =
    last_group (if not (is_nil lb.security_groups) then lb.security_groups else ids) []

-- What is let in: every protocol, from the load balancer's group.
abbrev pub permissions_from : Str → Bool → List SecurityGroupRule
permissions_from id is_public_cloud =
    if is_public_cloud
    then []
    else (record {
      from_port_range = some (negsuc 0);
      to_port_range = some (negsuc 0);
      ip_protocol = some (codes "-1");
      ip_ranges = none;
      security_groups_members = some (
          record { account_id = none; security_group_id = some id; security_group_name = none }
          ∷ []);
      service_ids = none;
    })
      ∷ []

module _ {S : Type 0} (c : Cloud S) where
  -- The groups that have the cluster's tag.
  pub tagged_only : List SecurityGroup → Result (List SecurityGroup)
  tagged_only [] = ok []
  tagged_only (group ∷ groups) =
      and_then (has_cluster_tag c.tagging group.tags) (λ tagged.
        and_then (tagged_only groups) (λ rest. ok (if tagged then group ∷ rest else rest)))

  abbrev by_id : List SecurityGroup → Dict Str SecurityGroup → Dict Str SecurityGroup
  by_id [] m = m
  by_id (group ∷ groups) m =
      let id = str_value group.security_group_id in
      by_id groups (if id == [] then m else insert id group m)

  pub get_tagged_security_groups : M S (Dict Str SecurityGroup)
  get_tagged_security_groups = do
    groups ←
        try
          (c.compute.read_security_groups (record no_filters {
            tag_keys = some (cluster_tag_key c.tagging ∷ []);
            tags = some ((tag_name_main_sg ++ c.tagging.cluster_id ++ codes "=True") ∷ []);
          }))
          return (λ e. fail (errorf (codes "error querying security groups")))
    tagged ← lift (tagged_only groups)
    return (by_id tagged [])

  -- The groups that let the load balancer in.
  pub actual_groups : Str → M S (List SecurityGroup)
  actual_groups id = do
    groups ←
        try
          (c.compute.read_security_groups (
            if id != default_src_sg_name
            then record no_filters { inbound_rule_security_group_ids = some (id ∷ []) }
            else record no_filters { inbound_rule_security_group_names = some (id ∷ []) }))
          return (λ e. fail (errorf (codes "error querying security groups for ELB")))
    lift (tagged_only groups)

  pub apply_changes : Str → Dict Str Bool → M S (Unit {0})
  apply_changes id [] = return tt
  apply_changes id ((group, add) ∷ changes) =
      let is_public_cloud = id == default_src_sg_name in
      ((if add
          then add_security_group_rules c group (permissions_from id is_public_cloud)
              is_public_cloud
          else remove_security_group_rules c group (permissions_from id is_public_cloud)
              is_public_cloud)
        >>= λ changed. apply_changes id changes)

  pub update_instance_security_groups_for_load_balancer :
      LoadBalancerDescription → Dict Str Vm → List Str → M S (Unit {0})
  update_instance_security_groups_for_load_balancer lb instances ids =
      if c.global.disable_security_group_ingress
      then return tt
      else (let id = load_balancer_security_group lb ids in
          if id == []
          then fail (errorf (codes "could not determine security group for load balancer"))
          else (do
            actual ← actual_groups id
            tagged_groups ←
                try get_tagged_security_groups return
                  (λ e. fail (errorf (codes "error querying for tagged security groups")))
            needed ← lift (needed_groups instances tagged_groups [])
            apply_changes id (compare_groups actual needed)))
