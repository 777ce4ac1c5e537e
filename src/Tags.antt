-- ===== src/Tags.antt =====
-- cloud-controller-manager/osc/tags.go: the tags that mark a resource as one of the cluster.
-- The environment variable TAG_NAME_KUBERNETES_CLUSTER is the parameter `env`.
pub mod ClusterId
pub mod Build
pub mod Repair
pub mod Recovers
pub mod Filters
mod Tests
use cloud_provider_osc.Base.{
  Bool, true, false, Option, none, some, List, [], ◌∷◌, ◌++◌, ◌&&◌, not, map, if◌then◌else◌, ◌==◌,
  ◌!=◌, list_eq, nat_eq, any, is_nil, Result, ok, err, panic, M, Error, errorf, and_then, ℕ,
  continue_with, return, fail, lift, ◌>>=◌,
}
use cloud_provider_osc.Base.Dict.{Dict, lookup, insert}
use cloud_provider_osc.Base.Str.{Str, codes, has_prefix, trim_prefix}
use cloud_provider_osc.Osc.{ResourceTag, Compute, value_at}

-- TagNameKubernetesClusterPrefix
abbrev pub cluster_prefix : Str
cluster_prefix = codes "OscK8sClusterID/"

-- TagNameKubernetesClusterLegacy
abbrev pub cluster_legacy : Str
cluster_legacy = codes "project"

abbrev pub lifecycle_owned : Str
lifecycle_owned = codes "owned"

pub record ResourceTagging : Type 0 where
  pub cluster_id : Str
  pub uses_legacy_tags : Bool

pub tag_name_kubernetes_cluster : Option Str → Str
tag_name_kubernetes_cluster none = cluster_legacy
tag_name_kubernetes_cluster (some val) = val

-- One tag of the loop of `findClusterIDs`, for either of the two ids: an id that was found before
-- and is not empty may not be found again.
abbrev found_id : Bool → Str → Str → Result Str
found_id matches old id =
    if matches then (if old != [] then err (errorf (codes "Found multiple")) else ok id) else ok old

find_cluster_ids_loop : Option Str → List ResourceTag → Str → Str → Result (Str × Str)
find_cluster_ids_loop env [] legacy new = ok (legacy, new)
find_cluster_ids_loop env (tag ∷ tags) legacy new =
    and_then (found_id (has_prefix tag.key cluster_prefix) new (trim_prefix tag.key cluster_prefix))
      λ new'.
        and_then (found_id (tag.key == tag_name_kubernetes_cluster env) legacy tag.value)
          λ legacy'. find_cluster_ids_loop env tags legacy' new'

find_cluster_ids : Option Str → List ResourceTag → Result (Str × Str)
unfolding find_cluster_ids_loop
find_cluster_ids env tags = find_cluster_ids_loop env tags [] []

abbrev set_cluster_id : Str → M ResourceTagging (Unit {0})
set_cluster_id id t = (
  if id != [] then ok tt else err (errorf (codes "AWS cloud failed to find ClusterID")),
  record t { cluster_id = id },
)

-- The receiver keeps what was written to it before an error.
unfoldable pub init : Str → Str → M ResourceTagging (Unit {0})
init legacy id t =
    if legacy != []
    then (if (id != []) && (legacy != id)
        then (err (errorf (codes "clusterID tags did not match")), t)
        else set_cluster_id legacy (record t { uses_legacy_tags = true }))
    else set_cluster_id id t

pub init_from_tags : Option Str → List ResourceTag → M ResourceTagging (Unit {0})
init_from_tags env tags t = continue_with (λ ids. init ids.0 ids.1) (find_cluster_ids env tags, t)

unfoldable pub cluster_tag_key : ResourceTagging → Str
cluster_tag_key t = cluster_prefix ++ t.cluster_id

-- The tags are a pointer, which the loop dereferences.
unfoldable pub has_cluster_tag : ResourceTagging → Option (List ResourceTag) → Result Bool
has_cluster_tag t none = if t.cluster_id == [] then ok true else panic
has_cluster_tag t (some tags) =
    ok (if t.cluster_id == [] then true else any (λ tag. tag.key == cluster_tag_key t) tags)

-- `for k, v := range from { to[k] = v }`
pub copy_map : Dict Str Str → Dict Str Str → Dict Str Str
copy_map [] to = to
copy_map ((k, v) ∷ from) to = copy_map from (insert k v to)

pub build_tags : Option Str → ResourceTagging → Str → Dict Str Str → Dict Str Str
build_tags env t lifecycle additional =
    let tags = copy_map additional [] in
    if t.cluster_id == []
    then tags
    else insert (cluster_tag_key t) lifecycle (
        if t.uses_legacy_tags
        then insert (tag_name_kubernetes_cluster env) t.cluster_id tags
        else tags)

-- The list of SDK tags of a map.
pub to_resource_tags : Dict Str Str → List ResourceTag
to_resource_tags = map λ (k, v). record { key = k; value = v }

-- createTagSteps
abbrev pub create_tag_steps : ℕ
create_tag_steps = 9

-- `wait.ExponentialBackoff` is a parameter: a number of steps and a condition, which also has the
-- variable `lastErr` of the closure as state; `false` stands for the time-out.
abbrev pub Backoff : Type 0 → Type 0
Backoff S = ℕ → M (S × Option Error) Bool → M (S × Option Error) Bool

-- The condition: an error is remembered and the call tried again.
abbrev settle :
    {S : Type 0} → Option Error → Result (Unit {0}) × S → Result Bool × (S × Option Error)
settle last (ok _, s) = (ok true, (s, last))
settle last (err e, s) = (ok false, (s, some e))
settle last (panic, s) = (panic, (s, last))

abbrev attempt : {S : Type 0} → M S (Unit {0}) → M (S × Option Error) Bool
attempt call (s, last) = settle last (call s)

-- On a time-out the last error of the call is returned in place of it.
abbrev last_error : {S : Type 0} → Result Bool × (S × Option Error) → Result (Unit {0}) × S
last_error (ok true, (s, last)) = (ok tt, s)
last_error (ok false, (s, none)) = (ok tt, s)
last_error (ok false, (s, some e)) = (err e, s)
last_error (err e, (s, last)) = (err e, s)
last_error (panic, (s, last)) = (panic, s)

-- `actualTagMap`
pub observed_map : List ResourceTag → Dict Str Str → Dict Str Str
observed_map [] m = m
observed_map (tag ∷ tags) m = observed_map tags (insert tag.key tag.value m)

-- The loop over the expected tags, which collects those to add.
pub missing_tags : Dict Str Str → Dict Str Str → Dict Str Str → Result (Dict Str Str)
missing_tags [] actual add = ok add
missing_tags ((k, expected) ∷ rest) actual add =
    let found = value_at k actual in
    let same = missing_tags rest actual add in
    let more = missing_tags rest actual (insert k expected add) in
    if found == expected
    then same
    else if found == []
    then more
    else err (errorf (codes "resource has tag belonging to another cluster"))

abbrev tagging_failed : {S : Type 0} → Result (Unit {0}) × S → Result (Unit {0}) × S
tagging_failed (ok _, s) = (ok tt, s)
tagging_failed (err e, s) = (err (errorf (codes "error adding missing tags to resource")), s)
tagging_failed (panic, s) = (panic, s)

module _ {S : Type 0} (client : Compute S) (backoff : Backoff S) (env : Option Str) where
  pub create_tags : ResourceTagging → Str → Str → Dict Str Str → M S (Unit {0})
  create_tags t resource lifecycle additional s =
      let tags = build_tags env t lifecycle additional in
      if is_nil tags
      then (ok tt, s)
      else last_error (
          backoff create_tag_steps (attempt (client.create_tags resource (to_resource_tags tags)))
            (s, none))

  pub read_repair_cluster_tags :
      ResourceTagging → Str → Str → Dict Str Str → Option (List ResourceTag) → M S (Unit {0})
  read_repair_cluster_tags t resource lifecycle additional none =
      fail (errorf (codes "Got an nil Tags"))
  read_repair_cluster_tags t resource lifecycle additional (some observed) = do
    add ← lift (missing_tags (build_tags env t lifecycle additional) (observed_map observed []) [])
    if is_nil add then return tt else (λ s. tagging_failed (create_tags t resource lifecycle add s))
