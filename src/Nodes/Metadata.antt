-- ===== src/Nodes/Metadata.antt =====
-- cloud-controller-manager/osc/ccm_cloud.go, utils.go: what the manager reads of the metadata service,
-- a parameter: the addresses, the network and the zone of the machine that it runs on.
use cloud_provider_osc.Base.{
  not, ◌||◌, Option, none, some, List, [], ◌∷◌, ◌++◌, map, if◌then◌else◌, ◌==◌, list_eq, nat_eq,
  is_nil, filter, Result, ok, panic, and_then, errorf, M, return, fail, lift, ◌>>=◌, try,
}
use cloud_provider_osc.Base.Str.{Str, codes, split}
use cloud_provider_osc.Osc.{Vm, str_value, subregion_of}
use cloud_provider_osc.Cloud.{Cloud, SelfInstance}
use cloud_provider_osc.Nodes.{get_instance_by_id}
use cloud_provider_osc.Nodes.Addresses.{
  NodeAddress, node_address, internal_ip, external_ip, internal_dns, external_dns, host_name,
  parse_metadata_local_hostname,
}

-- `path.Join` of a relative path: empty parts and "." are left out, and ".." takes one back. The parts
-- that are done are in reverse order.
unfoldable pub clean_parts : List Str → List Str → List Str
unfolding list_eq nat_eq
clean_parts done [] = done
clean_parts done (part ∷ parts) =
    clean_parts
      (if part == [] || part == codes "."
        then done
        else if part == codes ".."
        then elim done [
          | [] ↦ codes ".." ∷ []
          | ◌∷◌ last rest ↦ if last == codes ".." then codes ".." ∷ last ∷ rest else rest
        ]
        else part ∷ done)
      parts

unfoldable pub join_reversed : List Str → Str → Str
join_reversed [] text = text
join_reversed (part ∷ parts) text =
    join_reversed parts (if text == [] then part else part ++ codes "/" ++ text)

unfoldable pub path_join : Str → Str
unfolding clean_parts join_reversed split
path_join path =
    let text = join_reversed (clean_parts [] (split b'/' path)) [] in
    if text == [] then codes "." else text

abbrev macs_path : Str
macs_path = codes "network/interfaces/macs/"

abbrev pub lines : Str → List Str
lines text = filter (λ line. not (is_nil line)) (split 10 text)

module _ {S : Type 0} (metadata : Str → M S Str) where
  macs_addresses : List Str → M S (List NodeAddress)
  unfolding path_join
  macs_addresses [] = return []
  macs_addresses (mac ∷ macs) =
      try (metadata (path_join (macs_path ++ codes "/" ++ mac ++ codes "/local-ipv4s")))
        (λ ips. macs_addresses macs >>= λ rest.
          return (map (node_address internal_ip) (lines ips) ++ rest))
        (λ e. fail (errorf (codes "error querying AWS metadata for ")))

  -- What a query gives, or nothing if it fails.
  abbrev query_or_skip : Str → (Str → Result (List NodeAddress)) → M S (List NodeAddress)
  query_or_skip path addresses =
      try (metadata path) (λ text. lift (addresses text)) (λ e. return [])

  abbrev local_names : Str → Result (List NodeAddress)
  local_names text =
      if is_nil text
      then ok []
      else and_then (parse_metadata_local_hostname text)
          (λ names. ok (node_address host_name names.0 ∷ map (node_address internal_dns) names.1))

  abbrev public_names : Str → Result (List NodeAddress)
  public_names text = ok (if is_nil text then [] else node_address external_dns text ∷ [])

  -- The addresses of the machine that the manager runs on.
  pub self_addresses : M S (List NodeAddress)
  self_addresses =
      try (metadata macs_path)
        (λ macs. do
          internal ← macs_addresses (lines macs)
          external ←
              query_or_skip (codes "public-ipv4") (λ ip. ok (node_address external_ip ip ∷ []))
          names ← query_or_skip (codes "local-hostname") local_names
          outside ← query_or_skip (codes "public-hostname") public_names
          return (internal ++ external ++ names ++ outside))
        (λ e. fail (errorf (codes "error querying AWS metadata for ")))

  first_vpc : List Str → M S Str
  first_vpc [] = fail (errorf (codes "could not find VPC ID in instance metadata"))
  first_vpc (mac ∷ macs) =
      try (metadata (macs_path ++ mac ++ codes "vpc-id")) return (λ e. first_vpc macs)

  -- The first interface that has a network tells it.
  pub find_vpc_id : M S Str
  find_vpc_id =
      try (metadata macs_path) (λ macs. first_vpc (lines macs))
        (λ e. fail (errorf (codes "could not list interfaces of the instance: ")))

  -- `getAvailabilityZone`
  pub get_availability_zone : M S Str
  get_availability_zone = metadata (codes "placement/availability-zone")

  pub new_aws_instance : Vm → SelfInstance
  new_aws_instance vm = record {
    vm_id = str_value vm.vm_id;
    node_name = str_value vm.private_dns_name;
    availability_zone = subregion_of vm;
    vpc_id = str_value vm.net_id;
    subnet_id = str_value vm.subnet_id;
    instance_type = str_value vm.vm_type;
  }

  abbrev instance_of_found : Option Vm → Result SelfInstance
  instance_of_found none = panic
  instance_of_found (some vm) = ok (new_aws_instance vm)

  abbrev build_fresh : Cloud S → M S SelfInstance
  build_fresh c =
      try (metadata (codes "instance-id"))
        (λ id.
          try (get_instance_by_id c id) (λ found. lift (instance_of_found found))
            (λ e. fail (errorf (codes "error finding instance "))))
        (λ e. fail (errorf (codes "error fetching instance-id from ec2 metadata service: ")))

  -- The machine may be built once only.
  pub build_self_aws_instance : Cloud S → Option SelfInstance → M S SelfInstance
  build_self_aws_instance c none = build_fresh c
  build_self_aws_instance c (some instance') = lift panic

abbrev zone_or_fail : {S : Type 0} → Str → M S Str
zone_or_fail zone =
    if zone == []
    then fail (errorf (codes "no zone specified in configuration file"))
    else return zone

-- The zone of the configuration after `updateConfigZone`; the metadata service may be nil.
unfoldable pub update_config_zone : {S : Type 0} → Option (Str → M S Str) → Str → M S Str
update_config_zone none zone = zone_or_fail zone
update_config_zone (some metadata) zone =
    if zone == [] then get_availability_zone metadata >>= zone_or_fail else return zone
