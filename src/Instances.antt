-- ===== src/Instances.antt =====
-- cloud-controller-manager/osc/instances.go, instances_v2.go: the ids of instances in the names that
-- Kubernetes gives them, and the instance of an id. Child modules: `Url` for what `url.Parse` does,
-- `Ids` for the ids that are taken, `ProviderId` for the names that the manager makes.
pub mod Url
pub mod Ids
pub mod ProviderId
mod Tests
use cloud_provider_osc.Base.{
  ℕ, Bool, not, ◌&&◌, ◌||◌, Option, none, some, List, [], ◌∷◌, ◌++◌, if◌then◌else◌, ◌==◌, ◌!=◌,
  list_eq, nat_eq, is_nil, contains, Result, ok, err, and_then, errorf, M, return, fail,
  continue_with, ◌>>=◌,
}
use cloud_provider_osc.Base.Str.{Str, codes, has_prefix, trim_prefix, split, trim}
use cloud_provider_osc.Osc.{Vm, Compute, str_value, subregion_of}

-- What the code reads of a `v1.Node`.
pub record Node : Type 0 where
  pub name : Str
  pub provider_id : Str

-- `awsInstanceRegMatch`, which is ^i-[^/]*$.
unfoldable pub is_instance_id : Str → Bool
unfolding has_prefix nat_eq
is_instance_id id = has_prefix id (codes "i-") && not (contains id b'/')

-- The last of one or two tokens; "" for more.
abbrev pub id_token : List Str → Str
id_token (id ∷ []) = id
id_token (az ∷ id ∷ []) = id
id_token tokens = []

abbrev pub is_slash : ℕ → Bool
is_slash c = c == b'/'

-- A name without the scheme is taken for a bare id.
abbrev pub full_name : Str → Str
full_name name =
    if has_prefix name (codes "aws://") then name else codes "aws://" ++ codes "//" ++ name

-- What is read of a `url.URL`.
pub record Location : Type 0 where
  pub scheme : Str
  pub path : Str

-- `MapToAWSInstanceID`, over `url.Parse`, which is none for an error.
module _ (parse : Str → Option Location) where
  pub id_of_location : Location → Result Str
  unfolding nat_eq list_eq
  id_of_location url =
      if url.scheme != codes "aws"
      then err (errorf (codes "Invalid scheme for AWS instance ("))
      else let id = id_token (split b'/' (trim is_slash url.path)) in
        if id == [] || not (is_instance_id id)
        then err (errorf (codes "Invalid format for AWS instance ("))
        else ok id

  abbrev pub id_of_parsed : Option Location → Result Str
  id_of_parsed none = err (errorf (codes "Invalid instance name ("))
  id_of_parsed (some url) = id_of_location url

  unfoldable pub map_to_aws_instance_id : Str → Result Str
  unfolding id_of_location
  map_to_aws_instance_id name = id_of_parsed (parse (full_name name))

  abbrev pub parsed_or : Result Str → Result Str
  parsed_or (ok id) = ok id
  parsed_or r = err (errorf (codes "unable to parse ProviderID "))

  -- `mapToAWSInstanceIDs`
  pub map_to_aws_instance_ids : List Node → Result (List Str)
  map_to_aws_instance_ids [] = ok []
  map_to_aws_instance_ids (node ∷ nodes) =
      if node.provider_id == []
      then err (errorf (codes "node "))
      else and_then (parsed_or (map_to_aws_instance_id node.provider_id))
          (λ id. and_then (map_to_aws_instance_ids nodes) (λ ids. ok (id ∷ ids)))

  abbrev pub add_parsed : Result Str → List Str → List Str
  add_parsed (ok id) ids = id ∷ ids
  add_parsed r ids = ids

  -- `mapToAWSInstanceIDsTolerant`
  unfoldable pub map_to_aws_instance_ids_tolerant : List Node → List Str
  map_to_aws_instance_ids_tolerant [] = []
  map_to_aws_instance_ids_tolerant (node ∷ nodes) =
      let rest = map_to_aws_instance_ids_tolerant nodes in
      if node.provider_id == []
      then rest
      else add_parsed (map_to_aws_instance_id node.provider_id) rest

-- `getInstanceProviderIDV2`
unfoldable pub get_instance_provider_id_v2 : Vm → Result Str
get_instance_provider_id_v2 vm =
    if subregion_of vm == []
    then err (errorf (codes "instance availability zone was not set"))
    else if str_value vm.vm_id == []
    then err (errorf (codes "instance ID was not set"))
    else ok (codes "aws:///" ++ subregion_of vm ++ codes "/" ++ str_value vm.vm_id)

-- The last of one, two or three tokens; "" for more.
abbrev pub id_token_v2 : List Str → Str
id_token_v2 (id ∷ []) = id
id_token_v2 (az ∷ id ∷ []) = id
id_token_v2 (empty ∷ az ∷ id ∷ []) = id
id_token_v2 tokens = []

-- `parseInstanceIDFromProviderIDV2`, which gives no error.
unfoldable pub parse_instance_id_from_provider_id_v2 : Str → Str
unfolding split trim_prefix
parse_instance_id_from_provider_id_v2 provider_id =
    id_token_v2 (split b'/' (trim_prefix provider_id (codes "aws://")))

abbrev the_instance : {S : Type 0} → List Vm → M S Vm
the_instance [] = fail (errorf (codes "no instances found for instance: "))
the_instance (vm ∷ []) = return vm
the_instance (vm ∷ other ∷ vms) = fail (errorf (codes "multiple instances found for instance: "))

-- `describeInstance`
unfoldable pub describe_instance : {S : Type 0} → Compute S → Str → M S Vm
describe_instance client id = do
  vms ← client.read_vms (some (record { vm_ids = some (id ∷ []); tag_keys = none; tags = none }))
  the_instance vms
