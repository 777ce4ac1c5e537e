-- ===== src/Nodes/Agree.antt =====
-- The two interfaces to the instances of nodes, ccm_cloud.go and instances_v2.go, tell the same of an
-- instance by its provider id.
use cloud_provider_osc.Base.{
  Bool, true, Option, none, some, List, [], ◌∷◌, ◌≡◌, ◌≢◌, refl, sym, ◌∙◌, ap, arith, list_eq,
  nat_eq, ◌==◌, any, All, filter, Result, ok, err, panic, errorf, return, lift, continue_with,
  handle_with,
}
use cloud_provider_osc.Base.Str.{Str}
use cloud_provider_osc.Osc.{Vm, list_value}
use cloud_provider_osc.Tags.{cluster_tag_key}
use cloud_provider_osc.Cloud.{Cloud}
use cloud_provider_osc.Instances.{
  Node, Location, map_to_aws_instance_id, parse_instance_id_from_provider_id_v2,
}
use cloud_provider_osc.Nodes.Interface.{exists_in, exists_in_state, instance_exists_by_provider_id}
use cloud_provider_osc.Nodes.Version2.{
  InstancesV2, matching, alive_instance, the_alive, node_filters, instance_of, describing_failed,
  get_instance, absent_or_fail, instance_exists,
}

-- An answer with the text of its error left out.
abbrev pub outcome : {S A : Type 0} → Result A × S → Result A × S
outcome (ok a, s) = (ok a, s)
outcome (err e, s) = (err (errorf []), s)
outcome (panic, s) = (panic, s)

-- The machine has a tag with the key.
abbrev pub has_key : Str → Vm → Bool
has_key key vm = any (λ tag. tag.key == key) (list_value vm.tags)

-- What a filter on the keys of tags makes of an answer.
abbrev pub with_key : {S : Type 0} → Str → Result (List Vm) × S → Result (Option (List Vm)) × S
with_key key (ok vms, s) = (ok (some (filter (has_key key) vms)), s)
with_key key (err e, s) = (err e, s)
with_key key (panic, s) = (panic, s)

-- The machines of an answer all have the tag.
abbrev pub AreTagged : {S : Type 0} → Str → Result (List Vm) × S → Type 0
AreTagged key (ok vms, s) = All (λ vm. has_key key vm ≡ true) vms
AreTagged key (err e, s) = Unit
AreTagged key (panic, s) = Unit

filter-All :
    (test : Vm → Bool) (vms : List Vm) → All (λ vm. test vm ≡ true) vms → filter test vms ≡ vms
filter-All test [] h = refl
filter-All test (vm ∷ vms) h = rw h.0 (ap (λ rest. vm ∷ rest) (filter-All test vms h.1))

module _ {S : Type 0} (i : InstancesV2 S) where
  abbrev exists_of : Result Vm × S → Result Bool × S
  exists_of = handle_with (λ vm. return true) (absent_or_fail i)

  state_agree :
      (vm : Vm) (state : Option Str) (t : S)
      → outcome (exists_in_state state, t) ≡ outcome (exists_of (alive_instance vm state, t))
  state_agree vm none t = refl
  state_agree vm (some state) t = ground arith

  list_agree :
      (vms : List Vm) (t : S) → outcome (exists_in vms, t) ≡ outcome (exists_of (the_alive vms, t))
  list_agree [] t = refl
  list_agree (vm ∷ []) t = state_agree vm vm.state t
  list_agree (vm ∷ other ∷ vms) t = refl

  answer_agree :
      (node : Node) (key : Str) (answer : Result (List Vm) × S)
      → ((vms : List Vm) → matching node vms ≡ vms)
      → AreTagged key answer
      → outcome (continue_with (λ vms. lift (exists_in vms)) answer)
        ≡ outcome (
            exists_of
              (handle_with (instance_of i node) (λ e. describing_failed i) (with_key key answer)))
  answer_agree node key (ok vms, t) m tagged =
      list_agree vms t
      ∙ ap (λ l. outcome (exists_of (the_alive l, t)))
          (sym (m (filter (has_key key) vms) ∙ filter-All (has_key key) vms tagged))
  answer_agree node key (err e, t) m tagged = refl
  answer_agree node key (panic, t) m tagged = refl

  matching-by_id : (node : Node) (vms : List Vm) → node.provider_id ≢ [] → matching node vms ≡ vms
  unfolding matching
  matching-by_id node vms h = ground arith

  node_filters-by_id :
      (node : Node) (id : Str)
      → node.provider_id ≢ []
      → parse_instance_id_from_provider_id_v2 node.provider_id ≡ id
      → node_filters i node ≡ record {
        vm_ids = some (id ∷ []);
        tag_keys = some (cluster_tag_key i.tags ∷ []);
        tags = none;
      }
  unfolding node_filters
  node_filters-by_id node id given taken = ground arith

  -- Both clients ask for the machines of an id, the one of instances_v2.go only for those with the
  -- cluster's tag. If both parsers take the id from the node's provider id, which is not empty, the
  -- service filters by the tag's key, and the machines of this id have the tag, then both interfaces tell
  -- the same of whether the instance exists, up to the text of an error.
  pub instance_exists_agree :
      (c : Cloud S) (parse : Str → Option Location) (node : Node) (id : Str) (s : S)
      → node.provider_id ≢ []
      → map_to_aws_instance_id parse node.provider_id ≡ ok id
      → parse_instance_id_from_provider_id_v2 node.provider_id ≡ id
      → i.read_vms
          (record {
            vm_ids = some (id ∷ []);
            tag_keys = some (cluster_tag_key i.tags ∷ []);
            tags = none;
          })
          s
        ≡ with_key (cluster_tag_key i.tags) (
            c.compute.read_vms
              (some (record { vm_ids = some (id ∷ []); tag_keys = none; tags = none }))
              s)
      → AreTagged (cluster_tag_key i.tags) (
          c.compute.read_vms
            (some (record { vm_ids = some (id ∷ []); tag_keys = none; tags = none }))
            s)
      → outcome (instance_exists_by_provider_id c parse node.provider_id s)
        ≡ outcome (instance_exists i node s)
  unfolding instance_exists_by_provider_id instance_exists get_instance
  instance_exists_agree c parse node id s given taken taken_v2 same tagged =
      ap
        (λ r. outcome (
          continue_with
            (λ id'. λ u.
              continue_with (λ vms. lift (exists_in vms))
                (c.compute.read_vms
                  (some (record { vm_ids = some (id' ∷ []); tag_keys = none; tags = none })) u))
            (r, s)))
        taken
      ∙ answer_agree node (cluster_tag_key i.tags)
          (c.compute.read_vms
            (some (record { vm_ids = some (id ∷ []); tag_keys = none; tags = none })) s)
          (λ vms. matching-by_id node vms given) tagged
      ∙ sym (
          ap
            (λ a.
              outcome (exists_of (handle_with (instance_of i node) (λ e. describing_failed i) a)))
            (ap (λ f. i.read_vms f s) (node_filters-by_id node id given taken_v2) ∙ same))
