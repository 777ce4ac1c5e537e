-- ===== src/Instances/Tests.antt =====
-- The ids of a machine that the parsers take.
use cloud_provider_osc.Base.{some, [], ◌≡◌, refl, list_eq, nat_eq, true, ok, err, errorf}
use cloud_provider_osc.Base.Str.{Str, codes, split, trim}
use cloud_provider_osc.Osc.{Vm}
use cloud_provider_osc.Osc.Idle.{blank_vm}
use cloud_provider_osc.Instances.{
  is_instance_id, id_of_location, map_to_aws_instance_id, get_instance_provider_id_v2,
  parse_instance_id_from_provider_id_v2,
}
use cloud_provider_osc.Instances.Url.{plain_parse, plain_parse-IsUrlParser}
use cloud_provider_osc.Instances.ProviderId.{get_instance_provider_id_v2-parsed}

abbrev zone : Str
zone = codes "eu-west-2a"

abbrev id : Str
id = codes "i-0a1b2c3d"

abbrev vm : Vm
vm = record blank_vm { vm_id = some id; placement = some (record { subregion_name = some zone }) }

is_instance_id_run : is_instance_id id ≡ true
unfolding is_instance_id
is_instance_id_run = refl

get_instance_provider_id_v2-parsed_example :
    (provider_id : Str) × (get_instance_provider_id_v2 vm ≡ ok provider_id)
    × (map_to_aws_instance_id plain_parse provider_id ≡ ok id)
    × (parse_instance_id_from_provider_id_v2 provider_id ≡ id)
    × (map_to_aws_instance_id plain_parse id ≡ ok id)
    × (parse_instance_id_from_provider_id_v2 id ≡ id)
get_instance_provider_id_v2-parsed_example =
    get_instance_provider_id_v2-parsed plain_parse plain_parse-IsUrlParser vm zone id refl refl
      (λ e. cc) refl refl is_instance_id_run

-- The format that the comment of instances_v2.go calls well-known, and a volume's id.
parse_v2_run : parse_instance_id_from_provider_id_v2 (codes "aws:///eu-west-2a/i-1") ≡ codes "i-1"
unfolding parse_instance_id_from_provider_id_v2
parse_v2_run = refl

-- More tokens than three give no id and no error.
parse_v2_long : parse_instance_id_from_provider_id_v2 (codes "aws:////a/b/i-1") ≡ []
unfolding parse_instance_id_from_provider_id_v2
parse_v2_long = refl

map_volume_run :
    id_of_location plain_parse (record { scheme = codes "aws"; path = codes "/vol-1" })
    ≡ err (errorf (codes "Invalid format for AWS instance ("))
unfolding id_of_location is_instance_id split trim list_eq nat_eq
map_volume_run = refl
