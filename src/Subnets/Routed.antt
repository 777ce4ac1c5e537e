-- ===== src/Subnets/Routed.antt =====
-- What it means for a subnet to be public, apart from the loops of `isSubnetPublic`.
use cloud_provider_osc.Base.{
  Bool, true, false, Option, none, some, List, [], ◌∷◌, ◌++◌, ◌≡◌, refl, sym, subst, ◌⊎◌, ◌↔◌, inl,
  inr, arith, if◌then◌else◌, ◌==◌, list_eq, nat_eq, any, All, All-mono, Exists, any-Exists,
  Bool-cases, ok,
}
use cloud_provider_osc.Base.Str.{Str, codes, has_prefix}
use cloud_provider_osc.Osc.{Route, RouteTable, str_value, bool_value, list_value}
use cloud_provider_osc.Subnets.{
  last_table, has_subnet, is_main, subnet_table, is_internet_route, is_subnet_public,
}

-- The table is linked to the subnet.
abbrev pub IsLinked : Str → RouteTable → Type 0
IsLinked id table =
    Exists (λ assoc. str_value assoc.subnet_id ≡ id) (list_value table.link_route_tables)

abbrev pub IsMain : RouteTable → Type 0
IsMain table = Exists (λ assoc. bool_value assoc.main ≡ true) (list_value table.link_route_tables)

-- The gateway's id starts with "igw": it is an internet gateway.
abbrev pub IsInternet : Route → Type 0
IsInternet route = (rest : Str) × (str_value route.gateway_id ≡ codes "igw" ++ rest)

-- The table serves the subnet, being linked to it or a main one where none is linked to it, and has a
-- route to an internet gateway.
abbrev pub IsServed : List RouteTable → Str → RouteTable → Type 0
IsServed tables id table =
    (IsLinked id table ⊎ (IsMain table × All (λ other. ¬ IsLinked id other) tables))
    × Exists IsInternet (list_value table.routes)

abbrev pub IsRouted : Option (List RouteTable) → Str → Type 0
IsRouted none id = ⊥
IsRouted (some tables) id = Exists (IsServed tables id) tables

has_prefix-append : (s p : Str) → has_prefix s p ≡ true → (rest : Str) × (s ≡ p ++ rest)
unfolding has_prefix
has_prefix-append s [] h = (s, refl)
has_prefix-append [] (c ∷ p) h = absurd (ground arith)
has_prefix-append (b ∷ s) (c ∷ p) h =
    let tail = has_prefix-append s p (ground arith) in
    let head : b ≡ c = ground arith in let same : s ≡ p ++ tail.0 = tail.1 in (tail.0, cc)

append-has_prefix : (p rest : Str) → has_prefix (p ++ rest) p ≡ true
unfolding has_prefix
append-has_prefix [] rest = refl
append-has_prefix (c ∷ p) rest = ground (arith, append-has_prefix p rest)

is_internet_route-IsInternet : (route : Route) → (is_internet_route route ≡ true) ↔ IsInternet route
is_internet_route-IsInternet route = (
  has_prefix-append (str_value route.gateway_id) (codes "igw"),
  λ h. rw h.1 (append-has_prefix (codes "igw") h.0),
)

has_subnet-IsLinked :
    (id : Str) (table : RouteTable) → (has_subnet id table ≡ true) ↔ IsLinked id table
has_subnet-IsLinked id table =
    any-Exists (λ assoc. str_value assoc.subnet_id == id) (λ assoc. str_value assoc.subnet_id ≡ id)
      (list_value table.link_route_tables) (λ assoc. ground arith)

is_main-IsMain : (table : RouteTable) → (is_main table ≡ true) ↔ IsMain table
is_main-IsMain table =
    any-Exists (λ assoc. bool_value assoc.main) (λ assoc. bool_value assoc.main ≡ true)
      (list_value table.link_route_tables) (λ assoc. (λ h. h, λ h. h))

module _ (test : RouteTable → Bool) where
  -- The table that is found is one of the list that passes the test.
  last_table-Exists :
      (P : RouteTable → Type 0) (tables : List RouteTable) (found : Option RouteTable)
      (table : RouteTable)
      → P table
      → last_table test tables found ≡ some table
      → Exists (λ u. (test u ≡ true) × P u) tables ⊎ (found ≡ some table)
  unfolding last_table
  last_table-Exists P [] found table p h = inr h
  last_table-Exists P (u ∷ tables) found table p h =
      let rest = last_table-Exists P tables (if test u then some u else found) table p h in
      elim rest [
        | inl later ↦ inl (inr later)
        | inr here ↦ elim (Bool-cases (test u)) [
          | inl passes ↦
              let same : u ≡ table = ground arith in inl (inl (passes, subst P (sym same) p))
          | inr fails ↦ inr (ground arith)
        ]
      ]

  last_table-none :
      (tables : List RouteTable) (found : Option RouteTable)
      → last_table test tables found ≡ none
      → All (λ u. test u ≡ false) tables × (found ≡ none)
  unfolding last_table
  last_table-none [] found h = (tt, h)
  last_table-none (u ∷ tables) found h =
      ground (arith, last_table-none tables (if test u then some u else found) h)

Exists-mono :
    {A : Type 0} (P Q : A → Type 0) (xs : List A)
    → ((x : A) → P x → Q x)
    → Exists P xs
    → Exists Q xs
Exists-mono P Q [] f h = absurd h
Exists-mono P Q (x ∷ xs) f (inl p) = inl (f x p)
Exists-mono P Q (x ∷ xs) f (inr h) = inr (Exists-mono P Q xs f h)

routes_lem :
    (table : RouteTable)
    → any is_internet_route (list_value table.routes) ≡ true
    → Exists IsInternet (list_value table.routes)
routes_lem table h =
    (any-Exists is_internet_route IsInternet (list_value table.routes)
        is_internet_route-IsInternet).0
      h

-- The table of the subnet, found among those that are linked to it, or among the main ones.
served_lem :
    (tables : List RouteTable) (id : Str) (linked main : Option RouteTable)
    → last_table (has_subnet id) tables none ≡ linked
    → last_table is_main tables none ≡ main
    → is_subnet_public (some tables) id ≡ ok true
    → Exists (IsServed tables id) tables
unfolding is_subnet_public subnet_table
served_lem tables id (some table) main e f h =
    let routes = routes_lem table (ground arith) in
    elim (last_table-Exists (has_subnet id) (λ u. Exists IsInternet (list_value u.routes)) tables
      none table routes e) [
        | inl found ↦
            Exists-mono _ (IsServed tables id) tables
              (λ u p. (inl ((has_subnet-IsLinked id u).0 p.0), p.1)) found
        | inr absent ↦ absurd (ground arith)
      ]
served_lem tables id none (some table) e f h =
    let routes = routes_lem table (ground arith) in
    let unlinked =
      All-mono _ (λ other. ¬ IsLinked id other) tables
        (λ u p q. ground (arith, (has_subnet-IsLinked id u).1 q))
        (last_table-none (has_subnet id) tables none e).0 in
    elim (last_table-Exists is_main (λ u. Exists IsInternet (list_value u.routes)) tables none table
      routes f) [
        | inl found ↦
            Exists-mono _ (IsServed tables id) tables
              (λ u p. (inr ((is_main-IsMain u).0 p.0, unlinked), p.1)) found
        | inr absent ↦ absurd (ground arith)
      ]
served_lem tables id none none e f h = absurd (ground arith)

is_subnet_public-nil : (id : Str) → is_subnet_public none id ≡ ok true → ⊥
unfolding is_subnet_public
is_subnet_public-nil id h = ground arith

pub is_subnet_public-IsRouted :
    (rt : Option (List RouteTable)) (id : Str) → is_subnet_public rt id ≡ ok true → IsRouted rt id
is_subnet_public-IsRouted none id h = absurd (is_subnet_public-nil id h)
is_subnet_public-IsRouted (some tables) id h = served_lem tables id _ _ refl refl h
