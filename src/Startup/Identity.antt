-- ===== src/Startup/Identity.antt =====
-- A manager that starts has a cluster id and a region: without an id, every resource would pass for
-- one of the cluster.
use cloud_provider_osc.Base.{
  ℕ, Bool, true, false, Option, none, some, List, [], ◌∷◌, ◌≡◌, ◌≢◌, refl, subst, if◌then◌else◌,
  list_eq, nat_eq, Result, ok, err, panic, and_then, M, return, lift, continue_with, ◌>>=◌,
}
use cloud_provider_osc.Base.Str.{Str, codes}
use cloud_provider_osc.Osc.{ResourceTag}
use cloud_provider_osc.Tags.{ResourceTagging, Backoff, init, init_from_tags}
use cloud_provider_osc.Tags.ClusterId.{LeavesId, init-LeavesId, init_from_tags-LeavesId}
use cloud_provider_osc.Cloud.{GlobalConfig, SelfInstance, Cloud, blank_machine}
use cloud_provider_osc.Instances.{describe_instance}
use cloud_provider_osc.Nodes.Addresses.{az_to_region}
use cloud_provider_osc.Nodes.Metadata.{update_config_zone}
use cloud_provider_osc.Nodes.Version2.{InstancesV2}
use cloud_provider_osc.Startup.{
  Services, Ec2Metadata, finished, no_tagging, is_tagged, tagging_from, tagging_of, or_error,
  check_region, check_zone, new_instances_v2, cloud_with, self_of, cloud_in, new_cloud,
}

-- What holds of a value that a result, or a call from any state, gives.
abbrev Gives : {A : Type 0} → (A → Type 0) → Result A → Type 0
Gives P (ok a) = P a
Gives P (err e) = Unit
Gives P panic = Unit

abbrev Ensures : {S A : Type 0} → (A → Type 0) → M S A → Type 0
Ensures {S} P m = (s : S) → Gives P (m s).0

module _ {S A B : Type 0} (P : B → Type 0) where
  continue_with-Gives :
      (f : A → M S B) (r : Result A × S)
      → ((a : A) → r.0 ≡ ok a → Ensures P (f a))
      → Gives P (continue_with f r).0
  continue_with-Gives f (ok a, s) h = h a refl s
  continue_with-Gives f (err e, s) h = tt
  continue_with-Gives f (panic, s) h = tt

  -- Whatever the first call gives.
  bind-Ensures : (m : M S A) (f : A → M S B) → ((a : A) → Ensures P (f a)) → Ensures P (m >>= f)
  bind-Ensures m f h s = continue_with-Gives f (m s) (λ a e. h a)

  Gives-continue :
      (Q : A → Type 0) (f : A → M S B) (r : Result A × S)
      → Gives Q r.0
      → ((a : A) → Q a → Ensures P (f a))
      → Gives P (continue_with f r).0
  Gives-continue Q f (ok a, s) q h = h a q s
  Gives-continue Q f (err e, s) q h = tt
  Gives-continue Q f (panic, s) q h = tt

  -- With what is known of the first call.
  bind-Ensures_with :
      (Q : A → Type 0) (m : M S A) (f : A → M S B)
      → Ensures Q m
      → ((a : A) → Q a → Ensures P (f a))
      → Ensures P (m >>= f)
  bind-Ensures_with Q m f q h s = Gives-continue Q f (m s) (q s) h

if-Ensures :
    {S A : Type 0} (P : A → Type 0) (b : Bool) (m n : M S A)
    → Ensures P m
    → Ensures P n
    → Ensures P (if b then m else n)
if-Ensures P true m n h k = h
if-Ensures P false m n h k = k

abbrev HasId : ResourceTagging → Type 0
HasId t = t.cluster_id ≢ []

finished-HasId : (r : Result (Unit {0}) × ResourceTagging) → LeavesId r → Gives HasId (finished r)
finished-HasId (ok done, t) h = h
finished-HasId (err e, t) h = tt
finished-HasId (panic, t) h = tt

module _ {S : Type 0} (services : Services S) (env : Option Str) (backoff : Backoff S) where
  tagging_from-HasId :
      (tags : Option (List ResourceTag)) → Gives HasId (tagging_from services env backoff tags)
  tagging_from-HasId none = tt
  tagging_from-HasId (some tags) =
      finished-HasId (init_from_tags env tags no_tagging)
        (init_from_tags-LeavesId env tags no_tagging)

  tagging_of-HasId :
      (c : Cloud S) (cfg : GlobalConfig) (self : SelfInstance)
      → Ensures HasId (tagging_of services env backoff c cfg self)
  unfolding tagging_of
  tagging_of-HasId c cfg self =
      if-Ensures HasId (is_tagged cfg) _ _
        (λ s.
          finished-HasId (init cfg.kubernetes_cluster_tag cfg.kubernetes_cluster_id no_tagging)
            (init-LeavesId cfg.kubernetes_cluster_tag cfg.kubernetes_cluster_id no_tagging))
        (bind-Ensures HasId (describe_instance c.compute self.vm_id)
          (λ vm. lift (tagging_from services env backoff vm.tags))
          (λ vm s. tagging_from-HasId vm.tags))

  -- The zone has two bytes or more, and the region is the zone less one.
  cons-nonempty :
      (x : ℕ) (r : Result Str) → Gives (λ region. region ≢ []) (and_then r (λ l. ok (x ∷ l)))
  cons-nonempty x (ok l) = λ e. cc
  cons-nonempty x (err e) = tt
  cons-nonempty x panic = tt

  check_zone-nonempty : (zone : Str) → Ensures {S = S} (λ region. region ≢ []) (check_zone zone)
  unfolding az_to_region
  check_zone-nonempty [] s = tt
  check_zone-nonempty (x ∷ []) s = tt
  check_zone-nonempty (x ∷ y ∷ zone) s = cons-nonempty x (az_to_region (y ∷ zone))

  abbrev IsIdentified : Cloud S × InstancesV2 S → Type 0
  IsIdentified (cloud, v2) = (cloud.tagging.cluster_id ≢ []) × (cloud.region ≢ [])

  cloud_in-Ensures :
      (cfg : GlobalConfig) (metadata : Ec2Metadata S) (region : Str)
      → region ≢ []
      → Ensures IsIdentified (cloud_in services env backoff cfg metadata region)
  unfolding cloud_in
  cloud_in-Ensures cfg metadata region r =
      let with_all = cloud_with services env backoff cfg region in
      bind-Ensures IsIdentified
        (or_error (codes "error creating OSC EC2 client: ") (services.compute region)) _
        λ compute.
          bind-Ensures IsIdentified
            (or_error (codes "error creating OSC ELB client: ") (services.load_balancing region)) _
            λ elb.
              bind-Ensures IsIdentified
                (self_of services env backoff (with_all compute elb blank_machine no_tagging) cfg
                  metadata)
                _
                λ self.
                  bind-Ensures_with IsIdentified HasId
                    (tagging_of services env backoff (with_all compute elb self no_tagging) cfg
                      self)
                    _ (tagging_of-HasId (with_all compute elb self no_tagging) cfg self)
                    λ tagging t.
                      bind-Ensures IsIdentified
                        (new_instances_v2 services env backoff cfg.zone tagging)
                        (λ v2. return (with_all compute elb self tagging, v2)) (λ v2 s. (t, r))

  new_cloud-Ensures :
      (config : GlobalConfig) → Ensures IsIdentified (new_cloud services env backoff config)
  unfolding new_cloud
  new_cloud-Ensures config =
      bind-Ensures IsIdentified
        (or_error (codes "error creating OSC metadata client: ") services.metadata) _
        λ metadata.
          bind-Ensures IsIdentified
            (or_error
              (codes
                "unable to determine OSC zone from cloud provider config or EC2 instance metadata: ")
              (update_config_zone (some metadata.get_metadata) config.zone))
            _
            λ zone.
              bind-Ensures_with IsIdentified (λ region. region ≢ []) (check_zone zone) _
                (check_zone-nonempty zone)
                λ region r.
                  bind-Ensures IsIdentified
                    (check_region services env backoff config metadata region) _
                    λ done. cloud_in-Ensures (record config { zone = zone }) metadata region r

  given :
      {A : Type 0} (P : A → Type 0) (r : Result A × S) (a : A) (t : S)
      → r ≡ (ok a, t)
      → Gives P r.0
      → P a
  given P r a t e h = subst (λ x. Gives P x.0) e h

  -- Whatever the services and the configuration are: if the manager starts, its cluster id and its
  -- region are not empty.
  pub new_cloud-identified :
      (config : GlobalConfig) (s t : S) (cloud : Cloud S) (v2 : InstancesV2 S)
      → new_cloud services env backoff config s ≡ (ok (cloud, v2), t)
      → (cloud.tagging.cluster_id ≢ []) × (cloud.region ≢ [])
  new_cloud-identified config s t cloud v2 e =
      given IsIdentified (new_cloud services env backoff config s) (cloud, v2) t e
        (new_cloud-Ensures config s)
