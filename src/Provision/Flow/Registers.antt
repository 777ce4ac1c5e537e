-- ===== src/Provision/Flow/Registers.antt =====
-- `UpdateLoadBalancer` for the nodes that it is given: from the cache of instances to the registration.
mod Tests
use cloud_provider_osc.Base.{
  ℕ, Bool, true, false, ◌&&◌, ◌||◌, Option, none, some, List, [], ◌∷◌, map, ◌≡◌, ◌≢◌, refl, sym,
  ◌∙◌, ap, subst, arith, if◌then◌else◌, ◌==◌, Eq, list_eq, nat_eq, is_nil, contains, All, Result,
  ok, err, M, return, continue_with, handle_with, ◌>>=◌, try,
}
use cloud_provider_osc.Base.Dict.{Dict, keys, lookup, lookup_of_not_contains}
use cloud_provider_osc.Base.StringSets.{StringSets}
use cloud_provider_osc.Base.Str.{Str}
use cloud_provider_osc.Osc.{Vm, LoadBalancerDescription, str_value}
use cloud_provider_osc.Cloud.{Cloud}
use cloud_provider_osc.SecurityGroup.{default_src_sg_name}
use cloud_provider_osc.SecurityGroup.Nodes.{update_instance_security_groups_for_load_balancer}
use cloud_provider_osc.Instances.{Node, Location, map_to_aws_instance_ids_tolerant}
use cloud_provider_osc.Cache.{InstanceCache, is_found, find_instances_for_elb}
use cloud_provider_osc.Cache.Found.{Source, Finds, find_instances_for_elb-Finds}
use cloud_provider_osc.Backends.Registered.{
  RegistrationService, ensure_load_balancer_instances-registered,
}
use cloud_provider_osc.Service.{get_load_balancer_name}
use cloud_provider_osc.Balancer.{describe_load_balancer}
use cloud_provider_osc.Provision.{KubeService}
use cloud_provider_osc.Provision.Flow.{
  sync_ssl_policy, sync_instances, update_load_balancer, must_exist,
}

contains-keys-lookup : (id : Str) (d : Dict Str Vm) → contains (keys d) id ≡ is_found (lookup id d)
unfolding lookup
contains-keys-lookup id [] = refl
contains-keys-lookup id ((k, vm) ∷ d) = ground (arith, contains-keys-lookup id d)

module _ {S : Type 0} (c : Cloud S) (cache : InstanceCache S) (parse : Str → Option Location)
    (sets : StringSets) (nodes : List Node) where
  abbrev ids : List Str
  ids = map_to_aws_instance_ids_tolerant parse nodes

  abbrev find : M S (Dict Str Vm)
  find = find_instances_for_elb c cache parse nodes

  -- What the search finds, if it is known what it ends in.
  found_keys :
      (known : Str → Option Vm) (s t : S) (found : Dict Str Vm)
      → Finds c cache known ids find s
      → find s ≡ (ok found, t)
      → (id : Str) → contains (keys found) id ≡ (contains ids id && is_found (known id))
  found_keys known s t found (u, other, run, looked) e id =
      let same : other ≡ found = cc in
      contains-keys-lookup id found
      ∙ ap is_found
          (subst (λ d. lookup id d ≡ (if contains ids id then known id else none)) same (looked id))
      ∙ ground arith

  -- The part of the call after the registration.
  abbrev pub after_registration : LoadBalancerDescription → Dict Str Vm → M S (Unit {0})
  after_registration lb found =
      update_instance_security_groups_for_load_balancer c lb found
        (if is_nil lb.security_groups && c.vpc_id == [] then default_src_sg_name ∷ [] else [])

  module _ (known : Str → Option Vm) (lb : LoadBalancerDescription)
      (service : RegistrationService c.load_balancer (str_value lb.load_balancer_name)) where
    sync_instances-registered :
        (found : Dict Str Vm) (s : S)
        → ((id : Str) → service.is_registered s id ≡ contains (map str_value lb.instances) id)
        → (t : S) × (sync_instances c find sets lb found s ≡ (ok tt, t))
          × ((id : Str) → service.is_registered t id ≡ contains (keys found) id)
    unfolding sync_instances
    sync_instances-registered =
        ensure_load_balancer_instances-registered c.load_balancer sets
          (str_value lb.load_balancer_name) service lb.instances

    -- Let every node have a provider id, and the machines of the nodes be known, from the cache or from
    -- the service. Let the load balancer be described, with the instances that are registered, its
    -- policies be made, and the service answer. Then the call registers exactly those instances that
    -- a node gives and that are known, and goes on with the rules of their groups.
    pub update_load_balancer-registers :
        (kube : KubeService) (name : Str) (found : Dict Str Vm) (s t u v : S)
        → All (λ node. node.provider_id ≢ []) nodes
        → Source c cache ids s known
        → find s ≡ (ok found, t)
        → get_load_balancer_name kube.uid kube.annotations ≡ ok name
        → describe_load_balancer c name t ≡ (ok (some lb), u)
        → sync_ssl_policy c find sets lb name kube.annotations u ≡ (ok tt, v)
        → ((id : Str) → service.is_registered v id ≡ contains (map str_value lb.instances) id)
        → (w : S) × (update_load_balancer c find sets kube s ≡ after_registration lb found w)
          × ((id : Str) → service.is_registered w id ≡ (contains ids id && is_found (known id)))
    unfolding update_load_balancer must_exist
    update_load_balancer-registers kube name found s t u v named source run called described
          policies before =
        let registered = sync_instances-registered found v before in
        let finds = find_instances_for_elb-Finds c cache parse nodes known s named source in
        (
          registered.0,
          rw run (rw called (rw described (rw policies (rw registered.1 refl)))),
          λ id. registered.2 id ∙ found_keys known s t found finds run id,
        )
