-- ===== src/Tags/Tests.antt =====
-- The tags of a small cluster, and a service that keeps the tags of its resources as a function.
use cloud_provider_osc.Base.{
  ℕ, zero, suc, true, false, none, some, List, [], ◌∷◌, ◌≡◌, refl, ◌≢◌, ◌↔◌, arith, if◌then◌else◌,
  ◌==◌, list_eq, nat_eq, ==_refl, sym, ap, ◌∙◌, ok, err, Error, sdk_error, Result, any, All,
}
use cloud_provider_osc.Base.Dict.{Dict, lookup, insert}
use cloud_provider_osc.Base.Str.{Str, codes, has_prefix, trim_prefix}
use cloud_provider_osc.Osc.{ResourceTag, Compute}
use cloud_provider_osc.Osc.Idle.{idle_compute}
use cloud_provider_osc.Tags.Filters.{new_ec2_filter, add_filters, add_legacy_filters}
use cloud_provider_osc.Tags.{
  ResourceTagging, cluster_tag_key, tag_name_kubernetes_cluster, init, init_from_tags,
  find_cluster_ids, has_cluster_tag, build_tags, to_resource_tags, Backoff, observed_map, copy_map,
  read_repair_cluster_tags, create_tags, missing_tags,
}
use cloud_provider_osc.Tags.ClusterId.{names, NamesOnly, init_from_tags_names}
use cloud_provider_osc.Tags.Build.{has_cluster_tag-build_tags}
use cloud_provider_osc.Tags.Repair.{
  value_or, TagStore, again, IsBackoff, another_cluster, HasOther, read_repair_cluster_tags-foreign,
}
use cloud_provider_osc.Tags.Recovers.{read_repair_cluster_tags-recovers}

abbrev tag : Str → Str → ResourceTag
tag k v = record { key = k; value = v }

abbrev tagging : ResourceTagging
tagging = record { cluster_id = codes "c1"; uses_legacy_tags = true }

abbrev fresh_tagging : ResourceTagging
fresh_tagging = record { cluster_id = codes "c1"; uses_legacy_tags = false }

abbrev fresh : ResourceTagging
fresh = record { cluster_id = []; uses_legacy_tags = false }

abbrev instance_tags : List ResourceTag
instance_tags =
    tag (codes "OscK8sClusterID/c1") (codes "owned")
    ∷ tag (codes "Name") (codes "node")
    ∷ tag (codes "project") (codes "c1")
    ∷ []

init_from_tags_names_example :
    (tagging.cluster_id ≢ [])
    × (any (names none tagging.cluster_id) instance_tags ≡ true)
    × All (NamesOnly none tagging.cluster_id) instance_tags
unfolding init_from_tags init has_prefix trim_prefix list_eq find_cluster_ids
    tag_name_kubernetes_cluster
init_from_tags_names_example = init_from_tags_names none instance_tags fresh tagging refl

abbrev extra : Dict Str Str
extra = (codes "team", codes "a") ∷ []

has_cluster_tag-build_tags_example :
    has_cluster_tag tagging
      (some (to_resource_tags (build_tags none tagging (codes "owned") extra)))
    ≡ ok true
has_cluster_tag-build_tags_example = has_cluster_tag-build_tags none tagging (codes "owned") extra

-- The tags of all resources.
abbrev World : Type 0
World = Str → Str → Str

abbrev given : List ResourceTag → Str → Str → Str
given [] k old = old
given (t ∷ tags) k old = if t.key == k then t.value else given tags k old

abbrev service : Compute World
service = record idle_compute {
  create_tags =
      λ resource tags w. (ok tt, λ r k. if r == resource then given tags k (w r k) else w r k);
}

given-to_resource_tags :
    (tags : Dict Str Str) (k old : Str)
    → given (to_resource_tags tags) k old ≡ value_or (lookup k tags) old
unfolding to_resource_tags lookup
given-to_resource_tags [] k old = refl
given-to_resource_tags ((j, v) ∷ tags) k old = ground (arith, given-to_resource_tags tags k old)

service_tagged :
    (r : Str) (tags : Dict Str Str) (w w' : World) (k : Str)
    → service.create_tags r (to_resource_tags tags) w ≡ (ok tt, w')
    → w' r k ≡ value_or (lookup k tags) (w r k)
service_tagged r tags w w' k h =
    sym (ap (λ (p : Result (Unit {0}) × World). p.1 r k) h)
    ∙ rw (==_refl r) (given-to_resource_tags tags k (w r k))

service_store : TagStore service
service_store = record {
  tag_of = λ w. w;
  tagged = service_tagged;
  refused = λ r tags w w' k e h. cc;
}

-- A back-off that does not wait.
abbrev eager : Backoff World
eager zero c s = (ok false, s)
eager (suc n) c s = again (eager n c) (c s)

eager_lawful : IsBackoff eager
eager_lawful = record { no_step = λ c s. refl; one_step = λ n c s. refl }

abbrev untagged : World
untagged r k = []

-- The group has no tags yet.
repair : Result (Unit {0}) × World
unfolding read_repair_cluster_tags create_tags missing_tags build_tags copy_map observed_map insert
    lookup to_resource_tags cluster_tag_key tag_name_kubernetes_cluster list_eq nat_eq
repair =
    read_repair_cluster_tags service eager none tagging (codes "sg-1") (codes "owned") extra
      (some []) untagged

read_repair_cluster_tags-foreign_example :
    (read_repair_cluster_tags service eager none tagging
        (codes "sg-1")
        (codes "owned")
        extra
        (some (tag (codes "project") (codes "c2") ∷ []))
        untagged
      ≡ (err another_cluster, untagged))
    ↔ HasOther
        (build_tags none tagging (codes "owned") extra)
        (observed_map (tag (codes "project") (codes "c2") ∷ []) [])
read_repair_cluster_tags-foreign_example =
    read_repair_cluster_tags-foreign service eager none service_store eager_lawful tagging
      (codes "sg-1") (codes "owned") extra (tag (codes "project") (codes "c2") ∷ []) untagged
      (refl, tt)

-- The id of another cluster, under another key, does not stand in the way.
foreign_id_run :
    (read_repair_cluster_tags service eager none fresh_tagging
      (codes "sg-1")
      (codes "owned")
      []
      (some (tag (codes "OscK8sClusterID/c2") (codes "owned") ∷ []))
      untagged).0
    ≡ ok tt
unfolding repair
foreign_id_run = refl

-- A service that refuses a number of calls and then answers.
abbrev FlakyWorld : Type 0
FlakyWorld = World × ℕ

abbrev busy : Error
busy = sdk_error (codes "busy")

abbrev answered : ℕ → Result (Unit {0}) × World → Result (Unit {0}) × FlakyWorld
answered n (r, w) = (r, (w, n))

abbrev flaky_create : Str → List ResourceTag → World → ℕ → Result (Unit {0}) × FlakyWorld
flaky_create r tags w zero = answered 0 (service.create_tags r tags w)
flaky_create r tags w (suc n) = (err busy, (w, n))

abbrev flaky : Compute FlakyWorld
flaky = record idle_compute { create_tags = λ r tags s. flaky_create r tags s.0 s.1 }

flaky_tagged :
    (r : Str) (tags : Dict Str Str) (w : World) (n : ℕ) (u : FlakyWorld) (k : Str)
    → flaky_create r (to_resource_tags tags) w n ≡ (ok tt, u)
    → u.0 r k ≡ value_or (lookup k tags) (w r k)
flaky_tagged r tags w zero u k h =
    service_tagged r tags w u.0 k (ap (λ (p : Result (Unit {0}) × FlakyWorld). (p.0, p.1.0)) h)
flaky_tagged r tags w (suc n) u k h = cc

flaky_refused :
    (r : Str) (tags : List ResourceTag) (w : World) (n : ℕ) (u : FlakyWorld) (k : Str) (e : Error)
    → flaky_create r tags w n ≡ (err e, u)
    → u.0 r k ≡ w r k
flaky_refused r tags w zero u k e h = cc
flaky_refused r tags w (suc n) u k e h =
    ap (λ (p : Result (Unit {0}) × FlakyWorld). p.1.0 r k) (sym h)

abbrev flaky_store : TagStore flaky
flaky_store = record {
  tag_of = λ s. s.0;
  tagged = λ r tags s u k h. flaky_tagged r tags s.0 s.1 u k h;
  refused = λ r tags s u k e h. flaky_refused r tags s.0 s.1 u k e h;
}

abbrev patient : Backoff FlakyWorld
patient zero c s = (ok false, s)
patient (suc n) c s = again (patient n c) (c s)

patient_lawful : IsBackoff patient
patient_lawful = record { no_step = λ c s. refl; one_step = λ n c s. refl }

abbrev added : Dict Str Str
added =
    (codes "team", codes "a")
    ∷ (codes "project", codes "c1")
    ∷ (codes "OscK8sClusterID/c1", codes "owned")
    ∷ []

added_run :
    missing_tags (build_tags none tagging (codes "owned") extra) (observed_map [] []) [] ≡ ok added
unfolding missing_tags build_tags copy_map observed_map insert lookup cluster_tag_key
    tag_name_kubernetes_cluster list_eq nat_eq
added_run = refl

abbrev wanted_tags : List ResourceTag
wanted_tags = to_resource_tags (build_tags none tagging (codes "owned") added)

abbrev after : FlakyWorld
after = ((service.create_tags (codes "sg-1") wanted_tags untagged).1, 0)

read_repair_cluster_tags-recovers_example :
    (read_repair_cluster_tags flaky patient none tagging
        (codes "sg-1")
        (codes "owned")
        extra
        (some [])
        (untagged, 2)
      ≡ (ok tt, after))
    × ((k : Str)
        → flaky_store.tag_of after (codes "sg-1") k
          ≡ value_or
              (lookup k (build_tags none tagging (codes "owned") extra))
              (flaky_store.tag_of (untagged, 2) (codes "sg-1") k))
unfolding observed_map lookup
read_repair_cluster_tags-recovers_example =
    read_repair_cluster_tags-recovers flaky patient none flaky_store patient_lawful tagging
      (codes "sg-1") (codes "owned") extra [] _ _ 2 (untagged, 2) after (refl, tt) (λ j. refl)
      added_run (λ e. cc) (omega arith)
      ((untagged, 1), busy, refl, ((untagged, 0), busy, refl, refl))

add_filters_run :
    add_filters (record { cluster_id = codes "a"; uses_legacy_tags = false }) []
    ≡ new_ec2_filter (codes "tag-key") (codes "OscK8sClusterID/a" ∷ []) ∷ []
unfolding add_filters cluster_tag_key list_eq nat_eq
add_filters_run = refl

add_legacy_filters_run :
    add_legacy_filters
      (some (codes "name"))
      (record { cluster_id = codes "a"; uses_legacy_tags = false })
      []
    ≡ new_ec2_filter (codes "tag:name") (codes "a" ∷ []) ∷ []
unfolding add_legacy_filters tag_name_kubernetes_cluster list_eq nat_eq
add_legacy_filters_run = refl
