-- ===== src/Subnets/Choice.antt =====
-- Which subnets `findELBSubnets` may choose: public ones for a load balancer that faces the internet,
-- tagged ones for an internal one, and one for each subregion that has such a subnet.
use cloud_provider_osc.Base.{
  Bool, true, false, not, ◌&&◌, ◌||◌, Option, none, some, List, [], ◌∷◌, ◌≡◌, refl, sym, ◌∙◌, inl,
  inr, arith, if◌then◌else◌, ◌==◌, list_eq, nat_eq, bool_eq, any, contains, All, Bool-cases, Result,
  ok, err, panic, and_then,
}
use cloud_provider_osc.Base.Dict.{Dict, keys, lookup, insert, contains-keys-insert}
use cloud_provider_osc.Base.Str.{Str}
use cloud_provider_osc.Osc.{Subnet, RouteTable, str_value}
use cloud_provider_osc.Subnets.{
  is_subnet_public, has_tag, takes_place, place_subnet, note_subnet, is_named, subnets_by_az_loop,
}

-- Whether a subnet whose publicity is known may be used.
abbrev pub may_use : Bool → Str → Bool → Subnet → Bool
may_use internal_elb tag_name is_public subnet =
    if internal_elb then has_tag tag_name subnet else is_public

abbrev pub is_ok_true : Result Bool → Bool
is_ok_true (ok b) = b
is_ok_true (err e) = false
is_ok_true panic = false

-- Whether a subnet may be used, by the routing tables and its tags.
abbrev pub is_eligible : Bool → Str → Option (List RouteTable) → Subnet → Bool
is_eligible internal_elb tag_name rt subnet =
    is_named subnet
    && may_use internal_elb tag_name (is_ok_true (is_subnet_public rt (str_value subnet.subnet_id)))
        subnet

module _ {V : Type 0} (Q : V → Type 0) where
  insert-All :
      (k : Str) (v : V) (d : Dict Str V)
      → Q v
      → All (λ e. Q e.1) d
      → All (λ e. Q e.1) (insert k v d)
  unfolding insert
  insert-All k v [] q h = (q, tt)
  insert-All k v ((j, w) ∷ d) q h = ground (arith, insert-All k v d q h.1)

  lookup-All : (k : Str) (d : Dict Str V) (v : V) → All (λ e. Q e.1) d → lookup k d ≡ some v → Q v
  unfolding lookup
  lookup-All k [] v h p = ground arith
  lookup-All k ((j, w) ∷ d) v h p = ground (arith, lookup-All k d v h.1)

contains_of_lookup :
    {V : Type 0} (k : Str) (d : Dict Str V) (v : V)
    → lookup k d ≡ some v
    → contains (keys d) k ≡ true
unfolding lookup
contains_of_lookup k [] v p = ground arith
contains_of_lookup k ((j, w) ∷ d) v p = ground (arith, contains_of_lookup k d v)

module _ (internal_elb : Bool) (tag_name : Str) where
  takes_place-may_use :
      (is_public : Bool) (found : Option Subnet) (subnet : Subnet)
      → ((x : Subnet) → found ≡ some x → internal_elb ≡ true → has_tag tag_name x ≡ true)
      → (not internal_elb && not is_public) ≡ false
      → takes_place internal_elb is_public tag_name found subnet ≡ true
      → may_use internal_elb tag_name is_public subnet ≡ true
  unfolding takes_place
  takes_place-may_use is_public none subnet h guard p = ground arith
  takes_place-may_use is_public (some x) subnet h guard p = ground (arith, h x refl)

  place_new :
      (is_public : Bool) (found : Option Subnet) (subnet : Subnet)
      → (not internal_elb && not is_public) ≡ false
      → takes_place internal_elb is_public tag_name found subnet ≡ false
      → may_use internal_elb tag_name is_public subnet ≡ true
      → {C : Type 0} → ((x : Subnet) → found ≡ some x → C)
      → C
  unfolding takes_place
  place_new is_public none subnet guard p q k = absurd (ground arith)
  place_new is_public (some x) subnet guard p q k = k x refl

  -- The subnets of the map may all be used.
  place_subnet-All :
      (Q : Subnet → Type 0) (subnet : Subnet) (by_az : Dict Str Subnet) (is_public : Bool)
      → ((x : Subnet) → Q x → internal_elb ≡ true → has_tag tag_name x ≡ true)
      → (may_use internal_elb tag_name is_public subnet ≡ true → Q subnet)
      → All (λ e. Q e.1) by_az
      → All (λ e. Q e.1) (place_subnet internal_elb tag_name subnet by_az is_public)
  unfolding place_subnet
  place_subnet-All Q subnet by_az is_public tagged q h =
      let az = str_value subnet.subregion_name in
      let found = lookup az by_az in
      elim (Bool-cases (not internal_elb && not is_public)) [
        | inl skipped ↦ rw skipped h
        | inr guard ↦
            rw guard (elim (Bool-cases (takes_place internal_elb is_public tag_name found subnet)) [
              | inl takes ↦ rw takes (
                  insert-All Q az subnet by_az
                    (q (
                      takes_place-may_use is_public found subnet
                        (λ x p. tagged x (lookup-All Q az by_az x h p)) guard takes))
                    h)
              | inr stays ↦ rw stays h
            ])
      ]

  place_subnet-keys :
      (subnet : Subnet) (by_az : Dict Str Subnet) (is_public : Bool) (az : Str)
      → ((x : Subnet)
          → lookup (str_value subnet.subregion_name) by_az ≡ some x
          → internal_elb ≡ true
          → has_tag tag_name x ≡ true)
      → contains (keys (place_subnet internal_elb tag_name subnet by_az is_public)) az ≡ (
          contains (keys by_az) az
          || (may_use internal_elb tag_name is_public subnet
              && (str_value subnet.subregion_name == az)))
  unfolding place_subnet
  place_subnet-keys subnet by_az is_public az tagged =
      let mine = str_value subnet.subregion_name in
      let found = lookup mine by_az in
      elim (Bool-cases (not internal_elb && not is_public)) [
        | inl skipped ↦ rw skipped (ground arith)
        | inr guard ↦
            rw guard (elim (Bool-cases (takes_place internal_elb is_public tag_name found subnet)) [
              | inl takes ↦ rw takes (
                  ground (
                    arith,
                    contains-keys-insert az mine subnet by_az,
                    takes_place-may_use is_public found subnet tagged guard takes,
                  ))
              | inr stays ↦ rw stays (
                  ground (
                    arith,
                    λ (m : may_use internal_elb tag_name is_public subnet ≡ true).
                        place_new is_public found subnet guard stays m
                          (contains_of_lookup mine by_az),
                  ))
            ])
      ]

  module _ (rt : Option (List RouteTable)) where
    abbrev Eligible : Subnet → Type 0
    Eligible x = is_eligible internal_elb tag_name rt x ≡ true

    tagged_lem : (x : Subnet) → Eligible x → internal_elb ≡ true → has_tag tag_name x ≡ true
    tagged_lem x p i = ground arith

    -- What a map whose subnets may all be used becomes, with one more subnet.
    abbrev Becomes : Dict Str Subnet → (Str → Bool) → Dict Str Subnet → Type 0
    Becomes by_az more result =
        All (λ e. Eligible e.1) result
        × ((az : Str) → contains (keys result) az ≡ (contains (keys by_az) az || more az))

    abbrev serves : Str → Subnet → Bool
    serves az x = is_eligible internal_elb tag_name rt x && (str_value x.subregion_name == az)

    named_lem :
        (subnet : Subnet) (by_az next : Dict Str Subnet) (r : Result Bool)
        → is_subnet_public rt (str_value subnet.subnet_id) ≡ r
        → is_named subnet ≡ true
        → All (λ e. Eligible e.1) by_az
        → and_then r (λ is_public. ok (place_subnet internal_elb tag_name subnet by_az is_public))
          ≡ ok next
        → Becomes by_az (λ az. serves az subnet) next
    named_lem subnet by_az next (ok is_public) q named h p =
        let same : place_subnet internal_elb tag_name subnet by_az is_public ≡ next =
          ground arith in
        (
          rw (sym same) (
              place_subnet-All Eligible subnet by_az is_public tagged_lem (λ m. rw named (rw q m))
                h),
          λ az. rw (sym same) (
              rw named (
                rw q (
                  place_subnet-keys subnet by_az is_public az
                    (λ x f. tagged_lem x (lookup-All Eligible _ by_az x h f))))),
        )
    named_lem subnet by_az next (err e) q named h p = absurd (ground arith)
    named_lem subnet by_az next panic q named h p = absurd (ground arith)

    note_subnet_lem :
        (subnet : Subnet) (by_az next : Dict Str Subnet)
        → All (λ e. Eligible e.1) by_az
        → note_subnet internal_elb tag_name rt subnet by_az ≡ ok next
        → Becomes by_az (λ az. serves az subnet) next
    unfolding note_subnet
    note_subnet_lem subnet by_az next h p = elim (Bool-cases (is_named subnet)) [
      | inl named ↦
          named_lem subnet by_az next (is_subnet_public rt (str_value subnet.subnet_id)) refl named
            h (ground arith)
      | inr unnamed ↦
          let same : by_az ≡ next = ground arith in
          (rw (sym same) h, λ az. rw (sym same) (rw unnamed (ground arith)))
    ]

    then_lem :
        (subnet : Subnet) (subnets : List Subnet) (by_az result : Dict Str Subnet)
        (r : Result (Dict Str Subnet))
        → note_subnet internal_elb tag_name rt subnet by_az ≡ r
        → All (λ e. Eligible e.1) by_az
        → and_then r (subnets_by_az_loop internal_elb tag_name rt subnets) ≡ ok result
        → ((next : Dict Str Subnet)
            → All (λ e. Eligible e.1) next
            → subnets_by_az_loop internal_elb tag_name rt subnets next ≡ ok result
            → Becomes next (λ az. any (serves az) subnets) result)
        → Becomes by_az (λ az. serves az subnet || any (serves az) subnets) result
    then_lem subnet subnets by_az result (ok next) q h p rest_lem =
        let first = note_subnet_lem subnet by_az next h q in
        let rest = rest_lem next first.0 p in (rest.0, λ az. rest.1 az ∙ ground (arith, first.1 az))
    then_lem subnet subnets by_az result (err e) q h p rest_lem = absurd (ground arith)
    then_lem subnet subnets by_az result panic q h p rest_lem = absurd (ground arith)

    loop_lem :
        (subnets : List Subnet) (by_az result : Dict Str Subnet)
        → All (λ e. Eligible e.1) by_az
        → subnets_by_az_loop internal_elb tag_name rt subnets by_az ≡ ok result
        → Becomes by_az (λ az. any (serves az) subnets) result
    unfolding subnets_by_az_loop
    loop_lem [] by_az result h p =
        let same : by_az ≡ result = ground arith in
        (rw (sym same) h, λ az. rw (sym same) (ground arith))
    loop_lem (subnet ∷ subnets) by_az result h p =
        then_lem subnet subnets by_az result (note_subnet internal_elb tag_name rt subnet by_az)
          refl h p (λ next. loop_lem subnets next result)

    -- The map has a subregion when, and only when, one of the subnets in it may be used, and its
    -- subnets are ones that may be used.
    pub subnets_by_az-IsEligible :
        (subnets : List Subnet) (by_az : Dict Str Subnet)
        → subnets_by_az_loop internal_elb tag_name rt subnets [] ≡ ok by_az
        → All (λ e. is_eligible internal_elb tag_name rt e.1 ≡ true) by_az
          × ((az : Str)
              → contains (keys by_az) az
                ≡ any
                    (λ x.
                      is_eligible internal_elb tag_name rt x && (str_value x.subregion_name == az))
                    subnets)
    subnets_by_az-IsEligible subnets by_az p = loop_lem subnets [] by_az tt p
