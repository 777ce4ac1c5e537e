-- ===== src/Subnets/Tests.antt =====
-- Two subnets of one subregion, one of them public.
use cloud_provider_osc.Base.{
  true, false, ◌&&◌, Option, none, some, List, [], ◌∷◌, ◌≡◌, refl, ◌≢◌, if◌then◌else◌, ◌==◌,
  list_eq, nat_eq, any, contains, All, ok, err, errorf,
}
use cloud_provider_osc.Base.Dict.{Dict, keys, lookup, insert}
use cloud_provider_osc.Base.Str.{
  Str, codes, has_prefix, compares_after, sort_strings, insert_string,
}
use cloud_provider_osc.Osc.{Subnet, RouteTable, str_value}
use cloud_provider_osc.Subnets.{
  tag_name_subnet_public_elb, last_table, subnet_table, is_subnet_public, find_tag, takes_place,
  place_subnet, note_subnet, subnets_by_az_loop, elb_subnet_ids, first_subnet, choose_subnet,
}
use cloud_provider_osc.Subnets.Choice.{is_eligible, subnets_by_az-IsEligible}
use cloud_provider_osc.Subnets.Routed.{IsRouted}
use cloud_provider_osc.Subnets.Public.{elb_subnet_ids-public}
use cloud_provider_osc.Subnets.Single.{choose_subnet_lem}

abbrev subnet_of : Str → Subnet
subnet_of id = record { subnet_id = some id; subregion_name = some (codes "a"); tags = some [] }

abbrev table_of : Str → Str → RouteTable
table_of id gateway = record {
  route_table_id = none;
  link_route_tables = some (record { subnet_id = some id; main = none } ∷ []);
  routes = some (
      record { gateway_id = some gateway; destination_ip_range = none; vm_id = none; state = none }
      ∷ []);
  tags = none;
}

abbrev tables : Option (List RouteTable)
tables = some (table_of (codes "s-1") (codes "local") ∷ table_of (codes "s-2") (codes "igw-1") ∷ [])

abbrev subnets : List Subnet
subnets = subnet_of (codes "s-1") ∷ subnet_of (codes "s-2") ∷ []

public_run : elb_subnet_ids false tables subnets ≡ ok (codes "s-2" ∷ [])
unfolding elb_subnet_ids subnets_by_az_loop note_subnet place_subnet takes_place is_subnet_public
    subnet_table last_table find_tag lookup insert list_eq nat_eq has_prefix sort_strings
    insert_string
public_run = refl

elb_subnet_ids-public_example : All (IsRouted tables) (codes "s-2" ∷ [])
elb_subnet_ids-public_example = elb_subnet_ids-public tables subnets (codes "s-2" ∷ []) public_run

abbrev by_az : Dict Str Subnet
by_az = (codes "a", subnet_of (codes "s-2")) ∷ []

loop_run : subnets_by_az_loop false tag_name_subnet_public_elb tables subnets [] ≡ ok by_az
unfolding subnets_by_az_loop note_subnet place_subnet takes_place is_subnet_public subnet_table
    last_table find_tag lookup insert list_eq nat_eq has_prefix
loop_run = refl

subnets_by_az-IsEligible_example :
    All (λ e. is_eligible false tag_name_subnet_public_elb tables e.1 ≡ true) by_az
    × ((az : Str)
        → contains (keys by_az) az
          ≡ any
              (λ x.
                is_eligible false tag_name_subnet_public_elb tables x
                && (str_value x.subregion_name == az))
              subnets)
subnets_by_az-IsEligible_example =
    subnets_by_az-IsEligible false tag_name_subnet_public_elb tables subnets by_az loop_run

-- No subnet has a tag for internal load balancers.
internal_run : elb_subnet_ids true tables subnets ≡ ok []
unfolding elb_subnet_ids subnets_by_az_loop note_subnet place_subnet takes_place is_subnet_public
    subnet_table last_table find_tag lookup insert list_eq nat_eq has_prefix sort_strings
    insert_string
internal_run = refl

abbrev ids : List Str
ids = codes "s-3" ∷ codes "s-2" ∷ []

choose_subnet_lem_example :
    (codes "s-3" ≡ []
      → (id : Str) × (choose_subnet ids (codes "s-3") ≡ ok (id ∷ []))
        × (contains ids id ≡ true)
        × All (λ y. compares_after id y ≡ false) ids)
    × (codes "s-3" ≢ []
        → choose_subnet ids (codes "s-3") ≡ (
            if contains ids (codes "s-3")
            then ok (codes "s-3" ∷ [])
            else err (errorf (codes "user subnet specified in the annotation was not found"))))
choose_subnet_lem_example = choose_subnet_lem ids (codes "s-3") refl

first_run : choose_subnet ids [] ≡ ok (codes "s-2" ∷ [])
unfolding choose_subnet first_subnet compares_after list_eq nat_eq
first_run = refl
