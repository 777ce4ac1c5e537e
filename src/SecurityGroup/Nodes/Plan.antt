-- ===== src/SecurityGroup/Nodes/Plan.antt =====
-- Which groups of the nodes are changed, and to what.
use cloud_provider_osc.Base.{
  Bool, true, false, ◌&&◌, none, some, List, [], ◌∷◌, ◌≡◌, refl, ◌∙◌, arith, if◌then◌else◌, ◌==◌,
  ◌!=◌, list_eq, nat_eq, bool_eq, option_eq, any,
}
use cloud_provider_osc.Base.Dict.{Dict, lookup, lookup-insert, lookup-erase}
use cloud_provider_osc.Base.Str.{Str}
use cloud_provider_osc.Osc.{SecurityGroup, str_value}
use cloud_provider_osc.SecurityGroup.Nodes.{compare_group, compare_groups}

abbrev id_of : SecurityGroup → Str
id_of group = str_value group.security_group_id

-- The ids of the groups differ, as those of the groups of an account do.
abbrev pub DistinctIds : List SecurityGroup → Type 0
DistinctIds [] = Unit
DistinctIds (group ∷ groups) =
    (any (λ g. str_value g.security_group_id == str_value group.security_group_id) groups ≡ false)
    × DistinctIds groups

compare_group-lookup :
    (id own : Str) (ids : Dict Str Bool)
    → lookup id (compare_group own ids) ≡ (
        if own != [] && (own == id)
        then (if lookup id ids == some true then none else some false)
        else lookup id ids)
unfolding compare_group
compare_group-lookup id own ids =
    ground (arith, lookup-insert id own false ids, lookup-erase id own ids)

-- The changes: a group that is needed, and does not let the load balancer in, gets its rule; one that
-- does, and is not needed, loses it; the others are left alone. (The groups' ids are distinct.)
pub compare_groups_lem :
    (groups : List SecurityGroup) (needed : Dict Str Bool) (id : Str)
    → DistinctIds groups
    → id != [] ≡ true
    → lookup id (compare_groups groups needed) ≡ (
        if any (λ g. str_value g.security_group_id == id) groups
        then (if lookup id needed == some true then none else some false)
        else lookup id needed)
unfolding compare_groups
compare_groups_lem [] needed id d h = refl
compare_groups_lem (group ∷ groups) needed id d h =
    compare_groups_lem groups (compare_group (str_value group.security_group_id) needed) id d.1 h
    ∙ ground (arith, compare_group-lookup id (str_value group.security_group_id) needed, d.0)
