-- ===== src/Osc/Idle.antt =====
-- Clients whose every call fails and changes nothing, and a machine without a field. The tests give
-- the calls and the fields that they need.
use cloud_provider_osc.Base.{none, M, fail, sdk_error}
use cloud_provider_osc.Base.Str.{codes}
use cloud_provider_osc.Osc.Data.{Vm}
use cloud_provider_osc.Osc.Clients.{Compute, LoadBalancer}

abbrev unavailable : {S A : Type 0} → M S A
unavailable = fail (sdk_error (codes "unavailable"))

abbrev pub idle_compute : {S : Type 0} → Compute S
idle_compute = record {
  read_vms = λ filters. unavailable;
  update_vm = λ id check. unavailable;
  create_tags = λ resource tags. unavailable;
  read_security_groups = λ filters. unavailable;
  create_security_group = λ net name description. unavailable;
  delete_security_group = λ id. unavailable;
  create_security_group_rule = λ id request. unavailable;
  delete_security_group_rule = λ id request. unavailable;
  describe_subnets = λ filters. unavailable;
  read_route_tables = λ filters. unavailable;
  create_route = λ range vm table. unavailable;
  delete_route = λ range table. unavailable;
}

abbrev pub idle_load_balancer : {S : Type 0} → LoadBalancer S
idle_load_balancer = record {
  create_load_balancer = λ input. unavailable;
  delete_load_balancer = λ name. unavailable;
  describe_load_balancers = λ name. unavailable;
  add_tags = λ name tags. unavailable;
  register_instances = λ name ids. unavailable;
  deregister_instances = λ name ids. unavailable;
  create_load_balancer_policy = λ input. unavailable;
  set_policies_for_backend_server = λ name port policies. unavailable;
  set_policies_of_listener = λ name port policies. unavailable;
  describe_load_balancer_policies = λ name policies. unavailable;
  create_load_balancer_listeners = λ name listeners. unavailable;
  delete_load_balancer_listeners = λ name ports. unavailable;
  configure_health_check = λ name check. unavailable;
  describe_load_balancer_attributes = λ name. unavailable;
  modify_load_balancer_attributes = λ name attributes. unavailable;
}

abbrev pub blank_vm : Vm
blank_vm = record {
  vm_id = none;
  state = none;
  private_dns_name = none;
  public_dns_name = none;
  private_ip = none;
  public_ip = none;
  nics = none;
  placement = none;
  vm_type = none;
  net_id = none;
  subnet_id = none;
  security_groups = none;
  tags = none;
}
