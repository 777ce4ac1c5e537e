-- ===== src/Rules/Ec2/Tests.antt =====
-- Permissions of EC2, with ports at the ends of an int32 and beyond.
use Prim.Native.Nat.{◌-◌, ◌^◌}
use cloud_provider_osc.Base.{
  true, false, none, some, List, [], ◌∷◌, ◌≡◌, refl, list_eq, nat_eq, ok, panic,
}
use cloud_provider_osc.Base.Int.{pos, negsuc, int_eq}
use cloud_provider_osc.Base.Str.{Str, codes}
use cloud_provider_osc.Osc.{SecurityGroupRule}
use cloud_provider_osc.Rules.{rule_exists}
use cloud_provider_osc.Rules.JsonText.{rule_eq}
use cloud_provider_osc.Rules.Ec2.{
  UserIdGroupPair, IpPermission, ip_permission_aws_exists, is_equal_pointer,
  is_equal_user_group_pair, to_int32, rule_from_aws,
}
use cloud_provider_osc.Rules.Ec2.Agree.{IsComplete, ip_permission_aws_exists-rule_exists}

abbrev pair : Str → UserIdGroupPair
pair id = record { group_id = some id; group_name = none; user_id = some (codes "1234") }

abbrev permission : List UserIdGroupPair → IpPermission
permission pairs = record {
  from_port = some (pos 80);
  to_port = some (pos 443);
  ip_protocol = some (codes "tcp");
  ip_ranges = record { cidr_ip = some (codes "10.0.0.0/8") } ∷ [];
  user_id_group_pairs = pairs;
}

abbrev narrow : IpPermission
narrow = permission (pair (codes "sg-1") ∷ [])

abbrev wide : IpPermission
wide = permission (pair (codes "sg-2") ∷ pair (codes "sg-1") ∷ [])

narrow-IsComplete : IsComplete narrow
unfolding to_int32
narrow-IsComplete = record {
  from_port = refl;
  to_port = refl;
  protocol = tt;
  ranges = (tt, tt);
  pairs = ((tt, tt), tt);
}

wide-IsComplete : IsComplete wide
unfolding to_int32
wide-IsComplete = record {
  from_port = refl;
  to_port = refl;
  protocol = tt;
  ranges = (tt, tt);
  pairs = ((tt, tt), ((tt, tt), tt));
}

ip_permission_aws_exists-rule_exists_example :
    (p q : SecurityGroupRule) × (rule_from_aws narrow ≡ ok p)
    × (rule_from_aws wide ≡ ok q)
    × (ip_permission_aws_exists narrow wide true ≡ ok (rule_exists p q true))
ip_permission_aws_exists-rule_exists_example =
    ip_permission_aws_exists-rule_exists narrow wide true narrow-IsComplete wide-IsComplete

narrow_run : ip_permission_aws_exists narrow wide true ≡ ok true
unfolding ip_permission_aws_exists is_equal_pointer is_equal_user_group_pair list_eq nat_eq int_eq
narrow_run = refl

wide_run : ip_permission_aws_exists wide narrow true ≡ ok false
unfolding ip_permission_aws_exists is_equal_pointer is_equal_user_group_pair list_eq nat_eq int_eq
wide_run = refl

-- A pair without a group id.
nil_run :
    ip_permission_aws_exists
      (permission (record { group_id = none; group_name = none; user_id = none } ∷ []))
      narrow
      true
    ≡ panic
unfolding ip_permission_aws_exists is_equal_pointer is_equal_user_group_pair list_eq nat_eq int_eq
nil_run = refl

wrap_run : to_int32 (pos (2 ^ 31)) ≡ negsuc (2 ^ 31 - 1)
unfolding to_int32
wrap_run = refl

wrap_back_run : to_int32 (negsuc (2 ^ 31)) ≡ pos (2 ^ 31 - 1)
unfolding to_int32
wrap_back_run = refl

-- The rules that the set is made of, with their ports and ranges.
rule_run :
    rule_from_aws narrow
    ≡ ok (record {
      from_port_range = some (pos 80);
      to_port_range = some (pos 443);
      ip_protocol = some (codes "tcp");
      ip_ranges = some (codes "10.0.0.0/8" ∷ []);
      security_groups_members = some (
          record {
            account_id = some (codes "1234");
            security_group_id = some (codes "sg-1");
            security_group_name = none;
          }
          ∷ []);
      service_ids = none;
    })
unfolding rule_from_aws to_int32
rule_run = refl
