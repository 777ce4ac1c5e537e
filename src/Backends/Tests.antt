-- ===== src/Backends/Tests.antt =====
-- A service with two instances, one of which is replaced.
use cloud_provider_osc.Base.{
  not, Option, some, List, [], ◌∷◌, ◌++◌, map, ◌≡◌, refl, list_eq, nat_eq, filter, contains,
  contains-append, contains-filter, ok,
}
use cloud_provider_osc.Base.Dict.{Dict, keys}
use cloud_provider_osc.Base.Str.{Str, codes}
use cloud_provider_osc.Osc.ListSets.{list_sets}
use cloud_provider_osc.Osc.{Vm, LoadBalancer, str_value}
use cloud_provider_osc.Osc.Idle.{blank_vm, idle_load_balancer}
use cloud_provider_osc.Backends.{ensure_load_balancer_instances}
use cloud_provider_osc.Backends.Registered.{
  RegistrationService, ensure_load_balancer_instances-registered,
}

-- The state is the list of the instances that are registered.
abbrev registering : LoadBalancer (List Str)
registering = record idle_load_balancer {
  register_instances = λ name ids s. (ok tt, s ++ ids);
  deregister_instances = λ name ids s. (ok tt, filter (λ id. not (contains ids id)) s);
}

abbrev registration : RegistrationService registering (codes "lb")
registration = record {
  is_registered = contains;
  registered = λ ids s. s ++ ids;
  deregistered = λ ids s. filter (λ id. not (contains ids id)) s;
  registers = λ ids s. refl;
  deregisters = λ ids s. refl;
  is_registered-registered = λ ids s id. contains-append s ids id;
  is_registered-deregistered = λ ids s id. contains-filter (λ i. not (contains ids i)) s id;
}

abbrev vm_of : Str → Vm
vm_of id = record blank_vm { vm_id = some id }

abbrev wanted : Dict Str Vm
wanted = (codes "i-1", vm_of (codes "i-1")) ∷ (codes "i-3", vm_of (codes "i-3")) ∷ []

abbrev before : List (Option Str)
before = some (codes "i-1") ∷ some (codes "i-2") ∷ []

ensure_load_balancer_instances-registered_example :
    (t : List Str) × (ensure_load_balancer_instances registering list_sets
        (codes "lb")
        before
        wanted
        (map str_value before)
      ≡ (ok tt, t))
    × ((id : Str) → contains t id ≡ contains (keys wanted) id)
ensure_load_balancer_instances-registered_example =
    ensure_load_balancer_instances-registered registering list_sets (codes "lb") registration before
      wanted (map str_value before) (λ id. refl)
