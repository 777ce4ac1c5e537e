-- ===== src/Base/StringSets.antt =====
-- The package k8s.io/apimachinery/pkg/util/sets, as far as the code uses its sets of strings: the
-- operations and what they are documented to do. An implementation is a parameter of the code that
-- uses it.
use mathlib.Core.Path.{◌≡◌}
use mathlib.Core.Bool.{Bool, not, ◌&&◌}
use mathlib.Core.List.{List}
use cloud_provider_osc.Base.Equality.{list_eq, nat_eq}
use cloud_provider_osc.Base.Lists.{contains}
use cloud_provider_osc.Base.Str.{Str}

pub record StringSets : Type 1 where
  pub Set : Type 0
  -- `NewString`
  pub new : List Str → Set
  pub difference : Set → Set → Set
  pub equal : Set → Set → Bool
  -- `List`, the elements in order.
  pub list : Set → List Str
  pub list-new : (xs : List Str) (a : Str) → contains (list (new xs)) a ≡ contains xs a
  pub list-difference :
      (s t : Set) (a : Str)
      → contains (list (difference s t)) a ≡ (contains (list s) a && not (contains (list t) a))
