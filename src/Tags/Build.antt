-- ===== src/Tags/Build.antt =====
-- The tags that `buildTags` gives a resource.
use cloud_provider_osc.Base.{
  true, Option, none, some, [], ◌∷◌, ◌&&◌, ◌≡◌, ◌∙◌, arith, if◌then◌else◌, ◌==◌, list_eq, nat_eq,
  any, ok,
}
use cloud_provider_osc.Base.Dict.{
  Dict, lookup, insert, lookup-insert, lookup-nil, lookup-cons, NodupKeys, insert-NodupKeys,
  lookup_of_not_contains,
}
use cloud_provider_osc.Base.Str.{Str}
use cloud_provider_osc.Tags.{
  ResourceTagging, tag_name_kubernetes_cluster, cluster_tag_key, has_cluster_tag, copy_map,
  build_tags, to_resource_tags,
}

abbrev or_else : Option Str → Option Str → Option Str
or_else none o = o
or_else (some v) o = some v

lookup-copy_map :
    (k : Str) (from to : Dict Str Str)
    → NodupKeys from
    → lookup k (copy_map from to) ≡ or_else (lookup k from) (lookup k to)
unfolding copy_map
lookup-copy_map k [] to n = rw lookup-nil
lookup-copy_map k ((j, v) ∷ from) to n = ground (
  arith,
  lookup-copy_map k from (insert j v to) n.1,
  lookup-insert k j v to,
  lookup-cons k j v from,
  lookup_of_not_contains j from n.0,
)

copy_map-NodupKeys : (from to : Dict Str Str) → NodupKeys to → NodupKeys (copy_map from to)
unfolding copy_map
copy_map-NodupKeys [] to n = n
copy_map-NodupKeys ((j, v) ∷ from) to n =
    copy_map-NodupKeys from (insert j v to) (insert-NodupKeys j v to n)

lookup-copy_map_nil :
    (k : Str) (from : Dict Str Str) → NodupKeys from → lookup k (copy_map from []) ≡ lookup k from
lookup-copy_map_nil k from n = lookup-copy_map k from [] n ∙ ground (arith, lookup-nil {V = Str} k)

-- The map that is built has each key once.
pub build_tags-NodupKeys :
    (env : Option Str) (t : ResourceTagging) (lifecycle : Str) (additional : Dict Str Str)
    → NodupKeys (build_tags env t lifecycle additional)
unfolding build_tags
build_tags-NodupKeys env t lifecycle additional =
    let n = copy_map-NodupKeys additional [] tt in
    let legacy =
      insert-NodupKeys (tag_name_kubernetes_cluster env) t.cluster_id (copy_map additional []) n in
    ground (
      arith,
      n,
      legacy,
      insert-NodupKeys (cluster_tag_key t) lifecycle (copy_map additional []) n,
      insert-NodupKeys (cluster_tag_key t) lifecycle _ legacy,
    )

-- The value of every key. With no cluster id the additional tags alone are kept. Otherwise the
-- cluster's key has the lifecycle, above all else; the legacy key has the cluster id where legacy
-- tags are in use; and the additional tags are kept under all other keys.
pub lookup-build_tags :
    (env : Option Str) (t : ResourceTagging) (lifecycle : Str) (additional : Dict Str Str) (k : Str)
    → NodupKeys additional
    → lookup k (build_tags env t lifecycle additional) ≡ (
        if t.cluster_id == []
        then lookup k additional
        else if cluster_tag_key t == k
        then some lifecycle
        else if t.uses_legacy_tags && (tag_name_kubernetes_cluster env == k)
        then some t.cluster_id
        else lookup k additional)
unfolding build_tags
lookup-build_tags env t lifecycle additional k n =
    let tags = copy_map additional [] in
    let legacy = insert (tag_name_kubernetes_cluster env) t.cluster_id tags in
    ground (
      arith,
      lookup-copy_map_nil k additional n,
      lookup-insert k (tag_name_kubernetes_cluster env) t.cluster_id tags,
      lookup-insert k (cluster_tag_key t) lifecycle tags,
      lookup-insert k (cluster_tag_key t) lifecycle legacy,
    )

any_key-insert :
    (k v : Str) (tags : Dict Str Str)
    → any (λ tag. tag.key == k) (to_resource_tags (insert k v tags)) ≡ true
unfolding to_resource_tags insert
any_key-insert k v [] = ground arith
any_key-insert k v ((j, w) ∷ tags) = ground (arith, any_key-insert k v tags)

-- A resource that has the tags that are built for it is one of the cluster.
pub has_cluster_tag-build_tags :
    (env : Option Str) (t : ResourceTagging) (lifecycle : Str) (additional : Dict Str Str)
    → has_cluster_tag t (some (to_resource_tags (build_tags env t lifecycle additional))) ≡ ok true
unfolding has_cluster_tag build_tags
has_cluster_tag-build_tags env t lifecycle additional =
    let tags = copy_map additional [] in
    let legacy = insert (tag_name_kubernetes_cluster env) t.cluster_id tags in
    ground (
      arith,
      any_key-insert (cluster_tag_key t) lifecycle tags,
      any_key-insert (cluster_tag_key t) lifecycle legacy,
    )
