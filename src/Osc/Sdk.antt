-- ===== src/Osc/Sdk.antt =====
-- cloud-controller-manager/osc/oapi_sdk.go: `oscSdkCompute`, the implementation of `Compute` by the
-- SDK. The SDK's own client is a parameter, `ApiClient`: a list in a response may not be set. Metrics
-- are left out, and so is the HTTP status that is added to the text of an error.
use cloud_provider_osc.Base.{
  Bool, Option, none, some, List, ◌≡◌, ◌↔◌, Result, ok, err, panic, errorf, M, return, fail, try,
  handle_with,
}
use cloud_provider_osc.Base.Str.{Str, codes}
use cloud_provider_osc.Osc.Data.{ResourceTag, SecurityGroup, Vm, Subnet, RouteTable}
use cloud_provider_osc.Osc.Clients.{
  FiltersSecurityGroup, FiltersVm, FiltersSubnet, FiltersRouteTable, RuleRequest, Compute,
}

-- The calls of `osc.APIClient`.
pub record ApiClient (S : Type 0) : Type 0 where
  pub read_vms : Option FiltersVm → M S (Option (List Vm))
  pub update_vm : Str → Bool → M S (Unit {0})
  pub create_tags : Str → List ResourceTag → M S (Unit {0})
  pub read_security_groups : FiltersSecurityGroup → M S (Option (List SecurityGroup))
  pub create_security_group : Option Str → Str → Str → M S (Option Str)
  pub delete_security_group : Str → M S (Unit {0})
  pub create_security_group_rule : Str → RuleRequest → M S (Unit {0})
  pub delete_security_group_rule : Str → RuleRequest → M S (Unit {0})
  pub read_subnets : FiltersSubnet → M S (Option (List Subnet))
  pub read_route_tables : Option FiltersRouteTable → M S (Option (List RouteTable))
  pub create_route : Str → Option Str → Str → M S (Unit {0})
  pub delete_route : Str → Str → M S (Unit {0})

abbrev set_or_fail : {S A : Type 0} → Str → Option A → M S A
set_or_fail not_set none = fail (errorf not_set)
set_or_fail not_set (some items) = return items

-- A call that reads a list: its error is wrapped, and a list that is not set is an error too.
abbrev listing : {S A : Type 0} → Str → Str → M S (Option A) → M S A
listing problem not_set call = try call (set_or_fail not_set) (λ e. fail (errorf problem))

module _ {S : Type 0} (client : ApiClient S) where
  pub read_vms : Option FiltersVm → M S (List Vm)
  read_vms filters =
      listing (codes "error listing instances: ")
        (codes "error listing instances: Vm has not been set") (client.read_vms filters)

  pub read_security_groups : FiltersSecurityGroup → M S (List SecurityGroup)
  read_security_groups filters =
      listing (codes "error listing security groups: ")
        (codes "error listing security groups: SecurityGroups not set")
        (client.read_security_groups filters)

  pub describe_subnets : FiltersSubnet → M S (List Subnet)
  describe_subnets filters =
      listing (codes "error listing subnets: ") (codes "error listing subnets: Got no subnets")
        (client.read_subnets filters)

  pub read_route_tables : Option FiltersRouteTable → M S (List RouteTable)
  read_route_tables filters =
      listing (codes "error listing route tables: ")
        (codes "error listing route tables: RouteTable not set") (client.read_route_tables filters)

  -- The other calls are passed on.
  pub osc_sdk_compute : Compute S
  osc_sdk_compute = record {
    read_vms = read_vms;
    update_vm = client.update_vm;
    create_tags = client.create_tags;
    read_security_groups = read_security_groups;
    create_security_group = client.create_security_group;
    delete_security_group = client.delete_security_group;
    create_security_group_rule = client.create_security_group_rule;
    delete_security_group_rule = client.delete_security_group_rule;
    describe_subnets = describe_subnets;
    read_route_tables = read_route_tables;
    create_route = client.create_route;
    delete_route = client.delete_route;
  }

handled-set :
    {S A : Type 0} (problem not_set : Str) (r : Result (Option A) × S) (items : A) (s : S)
    → (handle_with (set_or_fail not_set) (λ e. fail (errorf problem)) r ≡ (ok items, s))
      ↔ (r ≡ (ok (some items), s))
handled-set problem not_set (ok none, t) items s = (λ h. cc, λ h. cc)
handled-set problem not_set (ok (some found), t) items s = (λ h. cc, λ h. cc)
handled-set problem not_set (err e, t) items s = (λ h. cc, λ h. cc)
handled-set problem not_set (panic, t) items s = (λ h. cc, λ h. cc)

-- Each of the four calls that read a list gives it exactly if the SDK answers with a list that is set:
-- a response without one is never taken for an empty list.
osc_sdk_compute-set :
    {S : Type 0} (client : ApiClient S) (s t : S)
    → ((filters : Option FiltersVm) (vms : List Vm)
        → ((osc_sdk_compute client).read_vms filters s ≡ (ok vms, t))
          ↔ (client.read_vms filters s ≡ (ok (some vms), t)))
      × ((filters : FiltersSecurityGroup) (groups : List SecurityGroup)
          → ((osc_sdk_compute client).read_security_groups filters s ≡ (ok groups, t))
            ↔ (client.read_security_groups filters s ≡ (ok (some groups), t)))
      × ((filters : FiltersSubnet) (subnets : List Subnet)
          → ((osc_sdk_compute client).describe_subnets filters s ≡ (ok subnets, t))
            ↔ (client.read_subnets filters s ≡ (ok (some subnets), t)))
      × ((filters : Option FiltersRouteTable) (tables : List RouteTable)
          → ((osc_sdk_compute client).read_route_tables filters s ≡ (ok tables, t))
            ↔ (client.read_route_tables filters s ≡ (ok (some tables), t)))
unfolding osc_sdk_compute read_vms read_security_groups describe_subnets read_route_tables
osc_sdk_compute-set client s t = (
  λ filters vms. handled-set _ _ (client.read_vms filters s) vms t,
  λ filters groups. handled-set _ _ (client.read_security_groups filters s) groups t,
  λ filters subnets. handled-set _ _ (client.read_subnets filters s) subnets t,
  λ filters tables. handled-set _ _ (client.read_route_tables filters s) tables t,
)
