-- ===== src/Instances/Ids.antt =====
-- The ids that are read of nodes: what passes for an id, and the two ways to treat a node without one.
use cloud_provider_osc.Base.{
  true, Option, none, some, List, [], ◌∷◌, ◌≡◌, refl, arith, list_eq, nat_eq, All, Result, ok, err,
  panic, and_then,
}
use cloud_provider_osc.Base.Str.{Str}
use cloud_provider_osc.Instances.{
  Node, Location, is_instance_id, id_of_location, id_of_parsed, parsed_or, full_name, add_parsed,
  map_to_aws_instance_id, map_to_aws_instance_ids, map_to_aws_instance_ids_tolerant,
}

abbrev GivesId : Result Str → Type 0
GivesId (ok id) = is_instance_id id ≡ true
GivesId (err e) = Unit
GivesId panic = ⊥

module _ (parse : Str → Option Location) where
  id_of_location-GivesId : (url : Location) → GivesId (id_of_location parse url)
  unfolding id_of_location
  id_of_location-GivesId url = ground arith

  id_of_parsed-GivesId : (url : Option Location) → GivesId (id_of_parsed parse url)
  id_of_parsed-GivesId none = tt
  id_of_parsed-GivesId (some url) = id_of_location-GivesId url

  pub map_to_aws_instance_id-GivesId : (name : Str) → GivesId (map_to_aws_instance_id parse name)
  unfolding map_to_aws_instance_id
  map_to_aws_instance_id-GivesId name = id_of_parsed-GivesId (parse (full_name name))

  abbrev IsIds : List Str → Type 0
  IsIds ids = All (λ id. is_instance_id id ≡ true) ids

  add_parsed-IsIds :
      (r : Result Str) (ids : List Str) → GivesId r → IsIds ids → IsIds (add_parsed parse r ids)
  add_parsed-IsIds (ok id) ids h k = (h, k)
  add_parsed-IsIds (err e) ids h k = k
  add_parsed-IsIds panic ids h k = k

  map_to_aws_instance_ids_tolerant-IsIds :
      (nodes : List Node) → IsIds (map_to_aws_instance_ids_tolerant parse nodes)
  unfolding map_to_aws_instance_ids_tolerant
  map_to_aws_instance_ids_tolerant-IsIds [] = tt
  map_to_aws_instance_ids_tolerant-IsIds (node ∷ nodes) =
      let rest = map_to_aws_instance_ids_tolerant-IsIds nodes in
      let more =
        add_parsed-IsIds (map_to_aws_instance_id parse node.provider_id)
          (map_to_aws_instance_ids_tolerant parse nodes)
          (map_to_aws_instance_id-GivesId node.provider_id) rest in
      ground arith

  cons_tolerant :
      (r : Result Str) (rest : Result (List Str)) (tolerated ids : List Str)
      → ((found : List Str) → rest ≡ ok found → tolerated ≡ found)
      → and_then (parsed_or parse r) (λ id. and_then rest (λ found. ok (id ∷ found))) ≡ ok ids
      → add_parsed parse r tolerated ≡ ids
  cons_tolerant (ok id) (ok found) tolerated ids h e = ground (arith, h found refl)
  cons_tolerant (ok id) (err problem) tolerated ids h e = absurd (ground arith)
  cons_tolerant (ok id) panic tolerated ids h e = absurd (ground arith)
  cons_tolerant (err problem) rest tolerated ids h e = absurd (ground arith)
  cons_tolerant panic rest tolerated ids h e = absurd (ground arith)

  strict-tolerant :
      (nodes : List Node) (ids : List Str)
      → map_to_aws_instance_ids parse nodes ≡ ok ids
      → map_to_aws_instance_ids_tolerant parse nodes ≡ ids
  unfolding map_to_aws_instance_ids map_to_aws_instance_ids_tolerant
  strict-tolerant [] ids h = ground arith
  strict-tolerant (node ∷ nodes) ids h =
      let both =
        cons_tolerant (map_to_aws_instance_id parse node.provider_id)
          (map_to_aws_instance_ids parse nodes) (map_to_aws_instance_ids_tolerant parse nodes) ids
          (strict-tolerant nodes) in
      ground arith

  -- The ids that `mapToAWSInstanceIDsTolerant` gives start with "i-" and have no "/"; and where
  -- `mapToAWSInstanceIDs` succeeds, both give the same ids.
  pub map_to_aws_instance_ids_tolerant_lem :
      (nodes : List Node)
      → All (λ id. is_instance_id id ≡ true) (map_to_aws_instance_ids_tolerant parse nodes)
        × ((ids : List Str)
            → map_to_aws_instance_ids parse nodes ≡ ok ids
            → map_to_aws_instance_ids_tolerant parse nodes ≡ ids)
  map_to_aws_instance_ids_tolerant_lem nodes =
      (map_to_aws_instance_ids_tolerant-IsIds nodes, strict-tolerant nodes)
