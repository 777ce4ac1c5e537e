-- ===== src/Nodes/Gone.antt =====
-- When the manager tells that the instance of a node is gone, upon which the node is deleted.
use cloud_provider_osc.Base.{
  Bool, true, false, Option, none, some, List, [], ◌∷◌, ◌≡◌, refl, ◌∙◌, ap, ◌↔◌, ◌⊎◌, inl, inr,
  arith, list_eq, nat_eq, Result, ok, err, panic, errorf, return, handle_with,
}
use cloud_provider_osc.Base.Str.{Str, codes}
use cloud_provider_osc.Osc.{Vm}
use cloud_provider_osc.Instances.{Node}
use cloud_provider_osc.Nodes.Version2.{
  InstancesV2, matching, alive_instance, the_alive, node_filters, instance_of, describing_failed,
  get_instance, absent_or_fail, instance_exists,
}

-- No machine, or a terminated one alone.
abbrev pub IsGone : List Vm → Type 0
IsGone vms = (vms ≡ []) ⊎ ((vm : Vm) × (vms ≡ vm ∷ []) × (vm.state ≡ some (codes "terminated")))

module _ {S : Type 0} (i : InstancesV2 S) where
  exists_of : Result Vm × S → Result Bool × S
  exists_of = handle_with (λ vm. return true) (absent_or_fail i)

  alive_one-IsGone :
      (vm : Vm) (state : Option Str) (s t : S)
      → vm.state ≡ state
      → exists_of (alive_instance vm state, s) ≡ (ok false, t)
      → (s ≡ t) × (vm.state ≡ some (codes "terminated"))
  unfolding exists_of
  alive_one-IsGone vm none s t e h = absurd (ground arith)
  alive_one-IsGone vm (some state) s t e h = ground arith

  the_alive-IsGone :
      (vms : List Vm) (s t : S)
      → exists_of (the_alive vms, s) ≡ (ok false, t)
      → (s ≡ t) × IsGone vms
  unfolding exists_of
  the_alive-IsGone [] s t h = (ground arith, inl refl)
  the_alive-IsGone (vm ∷ []) s t h =
      let gone = alive_one-IsGone vm vm.state s t refl h in (gone.0, inr (vm, refl, gone.1))
  the_alive-IsGone (vm ∷ other ∷ vms) s t h = absurd (ground arith)

  answered-IsGone :
      (node : Node) (answer : Result (Option (List Vm)) × S) (t : S)
      → exists_of (handle_with (instance_of i node) (λ e. describing_failed i) answer)
        ≡ (ok false, t)
      → (vms : List Vm) × (answer ≡ (ok (some vms), t)) × IsGone (matching node vms)
  unfolding exists_of
  answered-IsGone node (ok none, s) t h = absurd (ground arith)
  answered-IsGone node (ok (some vms), s) t h =
      let gone = the_alive-IsGone (matching node vms) s t h in
      (vms, ap (λ u. (ok (some vms), u)) gone.0, gone.1)
  answered-IsGone node (err e, s) t h = absurd (ground arith)
  answered-IsGone node (panic, s) t h = absurd (ground arith)

  IsGone-exists :
      (vms : List Vm) (t : S) → IsGone vms → exists_of (the_alive vms, t) ≡ (ok false, t)
  unfolding exists_of
  IsGone-exists vms t (inl e) = rw e refl
  IsGone-exists vms t (inr (vm, e, terminated)) = rw (e, terminated) (ground arith)

  -- `InstanceExists` tells that an instance is gone exactly if the service answers with machines of
  -- which none is the node's, or one alone, which is terminated. An error of the service never counts.
  pub instance_exists-IsGone :
      (node : Node) (s t : S)
      → (instance_exists i node s ≡ (ok false, t)) ↔ (
          (vms : List Vm) × (i.read_vms (node_filters i node) s ≡ (ok (some vms), t))
          × IsGone (matching node vms))
  unfolding instance_exists get_instance exists_of
  instance_exists-IsGone node s t = (
    answered-IsGone node (i.read_vms (node_filters i node) s) t,
    λ (vms, e, gone).
        ap
          (λ answer. exists_of (handle_with (instance_of i node) (λ x. describing_failed i) answer))
          e
        ∙ IsGone-exists (matching node vms) t gone,
  )

-- The answer with the text of an error left out.
abbrev pub outcome : {S A : Type 0} → Result A × S → Result A × S
outcome (ok a, s) = (ok a, s)
outcome (err e, s) = (err (errorf []), s)
outcome (panic, s) = (panic, s)
