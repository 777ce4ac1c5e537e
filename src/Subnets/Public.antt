-- ===== src/Subnets/Public.antt =====
-- The subnets that `findELBSubnets` gives to a load balancer that faces the internet.
use cloud_provider_osc.Base.{
  Bool, true, false, Option, List, [], ◌∷◌, map, ◌≡◌, refl, sym, inl, inr, arith, ◌==◌, list_eq,
  nat_eq, contains, All, All-mono, Bool-cases, Result, ok, err, panic, and_then,
}
use cloud_provider_osc.Base.Dict.{Dict, keys, lookup}
use cloud_provider_osc.Base.Str.{Str, insert_string, sort_strings}
use cloud_provider_osc.Osc.{Subnet, RouteTable, str_value}
use cloud_provider_osc.Subnets.{
  tag_name_subnet_public_elb, is_subnet_public, subnets_by_az_loop, elb_subnet_ids, id_at,
}
use cloud_provider_osc.Subnets.Routed.{IsRouted, is_subnet_public-IsRouted}
use cloud_provider_osc.Subnets.Choice.{is_ok_true, subnets_by_az-IsEligible}

module _ (P : Str → Type 0) where
  insert_string-All : (s : Str) (ss : List Str) → P s → All P ss → All P (insert_string s ss)
  unfolding insert_string
  insert_string-All s [] p h = (p, tt)
  insert_string-All s (t ∷ ts) p h = ground (arith, insert_string-All s ts p h.1)

  pub sort_strings-All : (ss : List Str) → All P ss → All P (sort_strings ss)
  unfolding sort_strings
  sort_strings-All [] h = tt
  sort_strings-All (s ∷ ss) h = insert_string-All s _ h.0 (sort_strings-All ss h.1)

keys-All : (d : Dict Str Subnet) → All (λ k. contains (keys d) k ≡ true) (keys d)
keys-All [] = tt
keys-All ((k, v) ∷ d) = (ground arith, All-mono _ _ (keys d) (λ j h. ground arith) (keys-All d))

-- The id that stands under a key.
id_at-All :
    (P : Str → Type 0) (d : Dict Str Subnet) (k : Str)
    → All (λ e. P (str_value e.1.subnet_id)) d
    → contains (keys d) k ≡ true
    → P (id_at d k)
unfolding lookup
id_at-All P [] k h c = absurd (ground arith)
id_at-All P ((j, v) ∷ d) k h c = elim (Bool-cases (j == k)) [
  | inl same ↦ rw (same, id_at) h.0
  | inr other ↦ rw (other, id_at) (id_at-All P d k h.1 (ground arith))
]

map-All :
    (P Q : Str → Type 0) (f : Str → Str) (ks : List Str)
    → ((k : Str) → Q k → P (f k))
    → All Q ks
    → All P (map f ks)
map-All P Q f [] g h = tt
map-All P Q f (k ∷ ks) g h = (g k h.0, map-All P Q f ks g h.1)

ok_of_is_ok_true : (r : Result Bool) → is_ok_true r ≡ true → r ≡ ok true
ok_of_is_ok_true (ok b) h = ground arith
ok_of_is_ok_true (err e) h = absurd (ground arith)
ok_of_is_ok_true panic h = absurd (ground arith)

ids_lem :
    (rt : Option (List RouteTable)) (subnets : List Subnet) (ids : List Str)
    (r : Result (Dict Str Subnet))
    → subnets_by_az_loop false tag_name_subnet_public_elb rt subnets [] ≡ r
    → and_then r (λ by_az. ok (map (id_at by_az) (sort_strings (keys by_az)))) ≡ ok ids
    → All (λ id. is_subnet_public rt id ≡ ok true) ids
ids_lem rt subnets ids (ok by_az) q p =
    let same : map (id_at by_az) (sort_strings (keys by_az)) ≡ ids = ground arith in
    rw (sym same) (
      map-All _ (λ k. contains (keys by_az) k ≡ true) (id_at by_az) _
        (λ k c.
          id_at-All (λ id. is_subnet_public rt id ≡ ok true) by_az k
            (All-mono _ _ by_az (λ e h. ok_of_is_ok_true _ (ground arith))
              (subnets_by_az-IsEligible false tag_name_subnet_public_elb rt subnets by_az q).0)
            c)
        (sort_strings-All _ (keys by_az) (keys-All by_az)))
ids_lem rt subnets ids (err e) q p = absurd (ground arith)
ids_lem rt subnets ids panic q p = absurd (ground arith)

-- Where the subnets for a load balancer that faces the internet are found, each of them is public: a
-- routing table that is linked to it, or a main one where none is linked to it, has a route to a gateway
-- whose id starts with "igw".
pub elb_subnet_ids-public :
    (rt : Option (List RouteTable)) (subnets : List Subnet) (ids : List Str)
    → elb_subnet_ids false rt subnets ≡ ok ids
    → All (IsRouted rt) ids
unfolding elb_subnet_ids
elb_subnet_ids-public rt subnets ids p =
    All-mono _ (IsRouted rt) ids (is_subnet_public-IsRouted rt) (
      ids_lem rt subnets ids (subnets_by_az_loop false tag_name_subnet_public_elb rt subnets [])
        refl p)
