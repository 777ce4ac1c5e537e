-- ===== src/Rules/Ungroup.antt =====
-- `Ungroup` splits rules and lets in the same traffic.
use cloud_provider_osc.Base.{
  ℕ, ◌≤◌, ◌<◌, Bool, true, false, ◌&&◌, ◌||◌, some, List, [], ◌∷◌, map, ◌≡◌, refl, ap, ◌∙◌, arith,
  ◌==◌, list_eq, nat_eq, any, any-append, length, leb, All, All-append,
}
use mathlib.Core.Path.{ap₂}
use native.Mathlib.Decide.{dec_lt}
use cloud_provider_osc.Base.Int.{ℤ, int_eq}
use cloud_provider_osc.Base.Str.{Str}
use cloud_provider_osc.Osc.{
  SecurityGroupsMember, SecurityGroupRule, str_value, int_value, list_value,
}
use cloud_provider_osc.Rules.{ungroup_ranges, ungroup_members, ungroup_services}

-- Traffic that a rule may let in: its ports and protocol, and a test of where it comes from.
pub record Flow : Type 0 where
  pub from_port : ℤ
  pub to_port : ℤ
  pub protocol : Str

pub data Source : Type 0 where
  from_ranges : (Str → Bool) → Source
  from_members : (SecurityGroupsMember → Bool) → Source
  from_services : (Str → Bool) → Source

abbrev pub has_flow : Flow → SecurityGroupRule → Bool
has_flow f r =
    (int_value r.from_port_range == f.from_port)
    && (int_value r.to_port_range == f.to_port)
    && (str_value r.ip_protocol == f.protocol)

abbrev pub has_source : Source → SecurityGroupRule → Bool
has_source (from_ranges test) r = any test (list_value r.ip_ranges)
has_source (from_members test) r = any test (list_value r.security_groups_members)
has_source (from_services test) r = any test (list_value r.service_ids)

-- The rule lets the traffic in.
abbrev pub grants : Flow → Source → SecurityGroupRule → Bool
grants f source r = has_flow f r && has_source source r

-- The rule has at most one range, one member and one service.
abbrev pub IsSingle : SecurityGroupRule → Type 0
IsSingle r =
    (length (list_value r.ip_ranges) ≤ 1)
    × (length (list_value r.security_groups_members) ≤ 1)
    × (length (list_value r.service_ids) ≤ 1)

any-map {ℓ κ} :
    {A : Type ℓ} {B : Type κ} (test : B → Bool) (f : A → B) (b : Bool) (each : A → Bool)
    (xs : List A)
    → ((x : A) → test (f x) ≡ (b && each x))
    → any test (map f xs) ≡ (b && any each xs)
any-map test f b each [] h = ground arith
any-map test f b each (x ∷ xs) h = ground (arith, h x, any-map test f b each xs h)

any-true {ℓ} : {A : Type ℓ} (xs : List A) → 1 < length xs → any (λ x. true) xs ≡ true
any-true [] h = absurd (omega arith)
any-true (x ∷ xs) h = refl

le-false : (a b : ℕ) → b < a → leb a b ≡ false
le-false a b h = ground arith

le-true : (a b : ℕ) → ¬ (b < a) → leb a b ≡ true
le-true a b h = ground arith

-- The rules for each range of a rule let in together what the rule does.
abbrev each_range : SecurityGroupRule → List SecurityGroupRule
each_range p =
    map (λ (range : Str). record p { ip_ranges = some (range ∷ []) }) (list_value p.ip_ranges)

each_range-grants :
    (f : Flow) (source : Source) (p : SecurityGroupRule)
    → 1 < length (list_value p.ip_ranges)
    → any (grants f source) (each_range p) ≡ grants f source p
each_range-grants f (from_ranges test) p h =
    any-map (grants f (from_ranges test)) _ (has_flow f p) test (list_value p.ip_ranges)
      (λ x. ground arith)
each_range-grants f (from_members test) p h =
    any-map (grants f (from_members test)) _ (grants f (from_members test) p) (λ x. true)
      (list_value p.ip_ranges) (λ x. ground arith)
    ∙ ground (arith, any-true (list_value p.ip_ranges) h)
each_range-grants f (from_services test) p h =
    any-map (grants f (from_services test)) _ (grants f (from_services test) p) (λ x. true)
      (list_value p.ip_ranges) (λ x. ground arith)
    ∙ ground (arith, any-true (list_value p.ip_ranges) h)

pub ungroup_ranges-grants :
    (f : Flow) (source : Source) (ps : List SecurityGroupRule)
    → any (grants f source) (ungroup_ranges ps) ≡ any (grants f source) ps
unfolding ungroup_ranges
ungroup_ranges-grants f source [] = refl
ungroup_ranges-grants f source (p ∷ ps) = elim (dec_lt 1 (length (list_value p.ip_ranges))) [
  | yes h ↦ rw (le-false _ _ h) (
      any-append (grants f source) (each_range p) (ungroup_ranges ps)
      ∙ ap₂ (◌||◌) (each_range-grants f source p h) (ungroup_ranges-grants f source ps))
  | no h ↦ rw (le-true _ _ h) (ap (◌||◌ (grants f source p)) (ungroup_ranges-grants f source ps))
]

-- The rules for each member of a rule let in together what the rule does.
abbrev each_member : SecurityGroupRule → List SecurityGroupRule
each_member p =
    map
      (λ (member : SecurityGroupsMember). record p { security_groups_members = some (member ∷ []) })
      (list_value p.security_groups_members)

each_member-grants :
    (f : Flow) (source : Source) (p : SecurityGroupRule)
    → 1 < length (list_value p.security_groups_members)
    → any (grants f source) (each_member p) ≡ grants f source p
each_member-grants f (from_ranges test) p h =
    any-map (grants f (from_ranges test)) _ (grants f (from_ranges test) p) (λ x. true)
      (list_value p.security_groups_members) (λ x. ground arith)
    ∙ ground (arith, any-true (list_value p.security_groups_members) h)
each_member-grants f (from_members test) p h =
    any-map (grants f (from_members test)) _ (has_flow f p) test
      (list_value p.security_groups_members) (λ x. ground arith)
each_member-grants f (from_services test) p h =
    any-map (grants f (from_services test)) _ (grants f (from_services test) p) (λ x. true)
      (list_value p.security_groups_members) (λ x. ground arith)
    ∙ ground (arith, any-true (list_value p.security_groups_members) h)

pub ungroup_members-grants :
    (f : Flow) (source : Source) (ps : List SecurityGroupRule)
    → any (grants f source) (ungroup_members ps) ≡ any (grants f source) ps
unfolding ungroup_members
ungroup_members-grants f source [] = refl
ungroup_members-grants f source (p ∷ ps) =
    elim (dec_lt 1 (length (list_value p.security_groups_members))) [
      | yes h ↦ rw (le-false _ _ h) (
          any-append (grants f source) (each_member p) (ungroup_members ps)
          ∙ ap₂ (◌||◌) (each_member-grants f source p h) (ungroup_members-grants f source ps))
      | no h ↦
          rw (le-true _ _ h) (ap (◌||◌ (grants f source p)) (ungroup_members-grants f source ps))
    ]

-- The rules for each service of a rule let in together what the rule does.
abbrev each_service : SecurityGroupRule → List SecurityGroupRule
each_service p =
    map (λ (service : Str). record p { service_ids = some (service ∷ []) })
      (list_value p.service_ids)

each_service-grants :
    (f : Flow) (source : Source) (p : SecurityGroupRule)
    → 1 < length (list_value p.service_ids)
    → any (grants f source) (each_service p) ≡ grants f source p
each_service-grants f (from_ranges test) p h =
    any-map (grants f (from_ranges test)) _ (grants f (from_ranges test) p) (λ x. true)
      (list_value p.service_ids) (λ x. ground arith)
    ∙ ground (arith, any-true (list_value p.service_ids) h)
each_service-grants f (from_members test) p h =
    any-map (grants f (from_members test)) _ (grants f (from_members test) p) (λ x. true)
      (list_value p.service_ids) (λ x. ground arith)
    ∙ ground (arith, any-true (list_value p.service_ids) h)
each_service-grants f (from_services test) p h =
    any-map (grants f (from_services test)) _ (has_flow f p) test (list_value p.service_ids)
      (λ x. ground arith)

pub ungroup_services-grants :
    (f : Flow) (source : Source) (ps : List SecurityGroupRule)
    → any (grants f source) (ungroup_services ps) ≡ any (grants f source) ps
unfolding ungroup_services
ungroup_services-grants f source [] = refl
ungroup_services-grants f source (p ∷ ps) = elim (dec_lt 1 (length (list_value p.service_ids))) [
  | yes h ↦ rw (le-false _ _ h) (
      any-append (grants f source) (each_service p) (ungroup_services ps)
      ∙ ap₂ (◌||◌) (each_service-grants f source p h) (ungroup_services-grants f source ps))
  | no h ↦ rw (le-true _ _ h) (ap (◌||◌ (grants f source p)) (ungroup_services-grants f source ps))
]

All-map {ℓ κ} :
    {A : Type ℓ} {B : Type κ} (P : B → Type 0) (f : A → B) (xs : List A)
    → ((x : A) → P (f x))
    → All P (map f xs)
All-map P f [] h = tt
All-map P f (x ∷ xs) h = (h x, All-map P f xs h)

pub ungroup_ranges-All :
    (ps : List SecurityGroupRule)
    → All (λ r. length (list_value r.ip_ranges) ≤ 1) (ungroup_ranges ps)
unfolding ungroup_ranges
ungroup_ranges-All [] = tt
ungroup_ranges-All (p ∷ ps) = elim (dec_lt 1 (length (list_value p.ip_ranges))) [
  | yes h ↦ rw (le-false _ _ h) (
      All-append _ (each_range p) (ungroup_ranges ps)
        (All-map _ _ (list_value p.ip_ranges) (λ x. omega arith)) (ungroup_ranges-All ps))
  | no h ↦ rw (le-true _ _ h) (omega arith, ungroup_ranges-All ps)
]

pub ungroup_members-All :
    (ps : List SecurityGroupRule)
    → All (λ r. length (list_value r.ip_ranges) ≤ 1) ps
    → All
        (λ r.
          (length (list_value r.ip_ranges) ≤ 1)
          × (length (list_value r.security_groups_members) ≤ 1))
        (ungroup_members ps)
unfolding ungroup_members
ungroup_members-All [] one = tt
ungroup_members-All (p ∷ ps) one = elim (dec_lt 1 (length (list_value p.security_groups_members))) [
  | yes h ↦ rw (le-false _ _ h) (
      All-append _ (each_member p) (ungroup_members ps)
        (All-map _ _ (list_value p.security_groups_members) (λ x. (one.0, omega arith)))
        (ungroup_members-All ps one.1))
  | no h ↦ rw (le-true _ _ h) ((one.0, omega arith), ungroup_members-All ps one.1)
]

pub ungroup_services-All :
    (ps : List SecurityGroupRule)
    → All
        (λ r.
          (length (list_value r.ip_ranges) ≤ 1)
          × (length (list_value r.security_groups_members) ≤ 1))
        ps
    → All IsSingle (ungroup_services ps)
unfolding ungroup_services
ungroup_services-All [] one = tt
ungroup_services-All (p ∷ ps) one = elim (dec_lt 1 (length (list_value p.service_ids))) [
  | yes h ↦ rw (le-false _ _ h) (
      All-append _ (each_service p) (ungroup_services ps)
        (All-map _ _ (list_value p.service_ids) (λ x. (one.0.0, one.0.1, omega arith)))
        (ungroup_services-All ps one.1))
  | no h ↦ rw (le-true _ _ h) ((one.0.0, one.0.1, omega arith), ungroup_services-All ps one.1)
]
