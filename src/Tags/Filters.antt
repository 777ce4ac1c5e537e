-- ===== src/Tags/Filters.antt =====
-- cloud-controller-manager/osc/tags.go: `hasClusterAWSTag`, `addFilters` and `addLegacyFilters`, on the
-- tags and the filters of EC2. What EC2 answers to a filter is a parameter.
use cloud_provider_osc.Base.{
  Bool, true, ◌&&◌, Option, some, List, [], ◌∷◌, ◌++◌, ◌≡◌, refl, arith, if◌then◌else◌, ◌==◌,
  list_eq, nat_eq, any, all, is_nil,
}
use cloud_provider_osc.Base.Str.{Str, codes}
use cloud_provider_osc.Osc.{str_value}
use cloud_provider_osc.Tags.{ResourceTagging, tag_name_kubernetes_cluster, cluster_tag_key}

-- `ec2.Tag`
pub record Ec2Tag : Type 0 where
  pub key : Option Str
  pub value : Option Str

-- `ec2.Filter`, whose values are pointers that are not nil
pub record Ec2Filter : Type 0 where
  pub name : Option Str
  pub values : List Str

pub new_ec2_filter : Str → List Str → Ec2Filter
new_ec2_filter name values = record { name = some name; values = values }

unfoldable pub has_cluster_aws_tag : ResourceTagging → List Ec2Tag → Bool
has_cluster_aws_tag t tags =
    if t.cluster_id == [] then true else any (λ tag. str_value tag.key == cluster_tag_key t) tags

-- A slice without elements and nil are the same list.
unfoldable pub add_filters : ResourceTagging → List Ec2Filter → List Ec2Filter
add_filters t filters =
    if t.cluster_id == []
    then (if is_nil filters then [] else filters)
    else filters ++ new_ec2_filter (codes "tag-key") (cluster_tag_key t ∷ []) ∷ []

unfoldable pub add_legacy_filters : Option Str → ResourceTagging → List Ec2Filter → List Ec2Filter
add_legacy_filters env t filters =
    if t.cluster_id == []
    then (if is_nil filters then [] else filters)
    else filters
      ++ new_ec2_filter (codes "tag:" ++ tag_name_kubernetes_cluster env) (t.cluster_id ∷ []) ∷ []

all-snoc :
    {A : Type 0} (test : A → Bool) (xs : List A) (x : A)
    → all test (xs ++ x ∷ []) ≡ (all test xs && test x)
all-snoc test [] x = ground arith
all-snoc test (y ∷ xs) x = ground (arith, all-snoc test xs x)

unless_nil : (filters : List Ec2Filter) → (if is_nil filters then [] else filters) ≡ filters
unless_nil [] = refl
unless_nil (f ∷ filters) = refl

-- For a service that answers to the filter "tag-key" with the resources that have a tag with that key:
-- a resource passes the filters that `addFilters` gives exactly if it passes those before and
-- `hasClusterAWSTag` takes it for one of the cluster.
add_filters-has_cluster_aws_tag :
    (passes : Ec2Filter → List Ec2Tag → Bool)
    → ((key : Str) (tags : List Ec2Tag)
        → passes (new_ec2_filter (codes "tag-key") (key ∷ [])) tags
          ≡ any (λ tag. str_value tag.key == key) tags)
    → (t : ResourceTagging) (filters : List Ec2Filter) (tags : List Ec2Tag)
    → all (λ f. passes f tags) (add_filters t filters)
      ≡ (all (λ f. passes f tags) filters && has_cluster_aws_tag t tags)
unfolding add_filters has_cluster_aws_tag
add_filters-has_cluster_aws_tag passes answers t filters tags = rw (unless_nil filters) (
    ground (
      arith,
      all-snoc (λ f. passes f tags) filters
          (new_ec2_filter (codes "tag-key") (cluster_tag_key t ∷ [])),
      answers (cluster_tag_key t) tags,
    ))
