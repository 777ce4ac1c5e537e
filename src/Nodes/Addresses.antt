-- ===== src/Nodes/Addresses.antt =====
-- cloud-controller-manager/osc/utils.go: the addresses of an instance, the names in its metadata and
-- the region of a zone. `net.ParseIP` with the text of its result is a parameter, none for nil.
use cloud_provider_osc.Base.{
  Option, none, some, List, [], ◌∷◌, ◌++◌, map, if◌then◌else◌, ◌==◌, ◌!=◌, list_eq, nat_eq, is_nil,
  Result, ok, err, panic, and_then, errorf,
}
use cloud_provider_osc.Base.Str.{Str, codes, fields, split}
use cloud_provider_osc.Osc.{Vm, Nic, PrivateIpLight, str_value, list_value}

-- `v1.NodeAddressType`
pub data AddressType : Type 0 where
  internal_ip external_ip internal_dns external_dns host_name : AddressType

pub record NodeAddress : Type 0 where
  pub kind : AddressType
  pub address : Str

abbrev pub node_address : AddressType → Str → NodeAddress
node_address kind address = record { kind = kind; address = address }

module _ (parse_ip : Str → Option Str) where
  abbrev parsed_address : AddressType → Str → Option Str → Result (List NodeAddress)
  parsed_address kind problem none = err (errorf problem)
  parsed_address kind problem (some ip) = ok (node_address kind ip ∷ [])

  -- No address for "".
  abbrev pub ip_address : AddressType → Str → Str → Result (List NodeAddress)
  ip_address kind problem text =
      if text == [] then ok [] else parsed_address kind problem (parse_ip text)

  abbrev pub private_address : Str → Result (List NodeAddress)
  private_address = ip_address internal_ip (codes "OSC instance had invalid private address: ")

  abbrev pub public_address : Str → Result (List NodeAddress)
  public_address = ip_address external_ip (codes "OSC instance had invalid public address: ")

  abbrev append_result :
      Result (List NodeAddress) → Result (List NodeAddress) → Result (List NodeAddress)
  append_result r rest = and_then r (λ here. and_then rest (λ later. ok (here ++ later)))

  unfoldable pub private_ips_addresses : List PrivateIpLight → Result (List NodeAddress)
  private_ips_addresses [] = ok []
  private_ips_addresses (ip ∷ ips) =
      append_result (private_address (str_value ip.private_ip)) (private_ips_addresses ips)

  -- The state of an interface is dereferenced.
  abbrev pub nic_addresses : Option Str → List PrivateIpLight → Result (List NodeAddress)
  nic_addresses none ips = panic
  nic_addresses (some state) ips =
      if state != codes "in-use" then ok [] else private_ips_addresses ips

  unfoldable pub nics_addresses : List Nic → Result (List NodeAddress)
  unfolding private_ips_addresses
  nics_addresses [] = ok []
  nics_addresses (nic ∷ nics) =
      append_result (nic_addresses nic.state (list_value nic.private_ips)) (nics_addresses nics)

  abbrev pub private_dns_addresses : Str → List NodeAddress
  private_dns_addresses name =
      if name == [] then [] else node_address internal_dns name ∷ node_address host_name name ∷ []

  abbrev pub public_dns_addresses : Str → List NodeAddress
  public_dns_addresses name = if name == [] then [] else node_address external_dns name ∷ []

  abbrev pub internal_addresses : Vm → Result (List NodeAddress)
  internal_addresses vm =
      if is_nil (list_value vm.nics)
      then private_address (str_value vm.private_ip)
      else nics_addresses (list_value vm.nics)

  unfoldable pub extract_node_addresses : Option Vm → Result (List NodeAddress)
  unfolding nics_addresses
  extract_node_addresses none = err (errorf (codes "nil instance passed to extractNodeAddresses"))
  extract_node_addresses (some vm) = and_then (internal_addresses vm) (λ internal.
      and_then (public_address (str_value vm.public_ip)) (λ public. ok (
        internal
        ++ public
        ++ private_dns_addresses (str_value vm.private_dns_name)
        ++ public_dns_addresses (str_value vm.public_dns_name))))

abbrev first_part : List Str → Str
first_part [] = []
first_part (part ∷ parts) = part

abbrev pub hostnames : List Str → Result (Str × List Str)
hostnames [] = panic
hostnames (hostname ∷ others) =
    ok (hostname, hostname ∷ map (λ h. first_part (split b'.' hostname) ++ codes "." ++ h) others)

-- The host name and the internal names; the first of the fields is taken, so that there is a panic
-- for a text of spaces.
unfoldable pub parse_metadata_local_hostname : Str → Result (Str × List Str)
unfolding fields split
parse_metadata_local_hostname metadata = hostnames (fields metadata)

-- The zone without its last byte.
unfoldable pub az_to_region : Str → Result Str
az_to_region [] = err (errorf (codes "invalid (empty) AZ"))
az_to_region (c ∷ []) = ok []
az_to_region (c ∷ d ∷ az) = and_then (az_to_region (d ∷ az)) (λ region. ok (c ∷ region))
