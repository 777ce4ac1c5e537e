-- ===== src/Backends/Registered.antt =====
-- `ensureLoadBalancerInstances` registers exactly the instances that it is given.
use cloud_provider_osc.Base.{
  Bool, not, ◌&&◌, ◌||◌, Option, List, [], ◌∷◌, map, ◌≡◌, refl, ◌∙◌, arith, list_eq, nat_eq,
  contains, ok,
}
use cloud_provider_osc.Base.Dict.{Dict, keys}
use cloud_provider_osc.Base.StringSets.{StringSets}
use cloud_provider_osc.Base.Str.{Str}
use cloud_provider_osc.Osc.{Vm, LoadBalancer, str_value}
use cloud_provider_osc.Backends.{register_all, deregister_all, ensure_load_balancer_instances}

-- A service that answers: which instances are registered with the load balancer of a name, and the
-- states after the two calls.
pub record RegistrationService {S : Type 0} (elb : LoadBalancer S) (name : Str) : Type 0 where
  pub is_registered : S → Str → Bool
  pub registered : List Str → S → S
  pub deregistered : List Str → S → S
  pub registers :
      (ids : List Str) (s : S) → elb.register_instances name ids s ≡ (ok tt, registered ids s)
  pub deregisters :
      (ids : List Str) (s : S) → elb.deregister_instances name ids s ≡ (ok tt, deregistered ids s)
  pub is_registered-registered :
      (ids : List Str) (s : S) (id : Str)
      → is_registered (registered ids s) id ≡ (is_registered s id || contains ids id)
  pub is_registered-deregistered :
      (ids : List Str) (s : S) (id : Str)
      → is_registered (deregistered ids s) id ≡ (is_registered s id && not (contains ids id))

module _ {S : Type 0} (elb : LoadBalancer S) (sets : StringSets) (name : Str)
    (service : RegistrationService elb name) where
  register_all_lem :
      (ids : List Str) (s : S)
      → (t : S) × (register_all elb sets name ids s ≡ (ok tt, t))
        × ((id : Str)
            → service.is_registered t id ≡ (service.is_registered s id || contains ids id))
  unfolding register_all
  register_all_lem [] s = (s, refl, λ id. ground arith)
  register_all_lem (x ∷ ids) s = (
    service.registered (x ∷ ids) s,
    service.registers (x ∷ ids) s,
    service.is_registered-registered (x ∷ ids) s,
  )

  deregister_all_lem :
      (ids : List Str) (s : S)
      → (t : S) × (deregister_all elb sets name ids s ≡ (ok tt, t))
        × ((id : Str)
            → service.is_registered t id ≡ (service.is_registered s id && not (contains ids id)))
  unfolding deregister_all
  deregister_all_lem [] s = (s, refl, λ id. ground arith)
  deregister_all_lem (x ∷ ids) s = (
    service.deregistered (x ∷ ids) s,
    service.deregisters (x ∷ ids) s,
    service.is_registered-deregistered (x ∷ ids) s,
  )

  -- The call succeeds, and the instances registered in the end are exactly the ones of the map, if
  -- the description lists the instances that are registered before, and the service answers.
  pub ensure_load_balancer_instances-registered :
      (lb_instances : List (Option Str)) (instances : Dict Str Vm) (s : S)
      → ((id : Str) → service.is_registered s id ≡ contains (map str_value lb_instances) id)
      → (t : S) × (ensure_load_balancer_instances elb sets name lb_instances instances s
          ≡ (ok tt, t))
        × ((id : Str) → service.is_registered t id ≡ contains (keys instances) id)
  unfolding ensure_load_balancer_instances
  ensure_load_balancer_instances-registered lb_instances instances s h =
      let expected = sets.new (keys instances) in
      let actual = sets.new (map str_value lb_instances) in
      let first = register_all_lem (sets.list (sets.difference expected actual)) s in
      let second = deregister_all_lem (sets.list (sets.difference actual expected)) first.0 in
      (
        second.0,
        rw first.1 second.1,
        λ id.
            second.2 id
            ∙ ground (
              arith,
              first.2 id,
              h id,
              sets.list-difference expected actual id,
              sets.list-difference actual expected id,
              sets.list-new (keys instances) id,
              sets.list-new (map str_value lb_instances) id,
            ),
      )
