-- ===== src/Osc/ListSets.antt =====
-- Sets of strings as lists, for the tests.
use cloud_provider_osc.Base.{
  not, ◌&&◌, List, refl, list_eq, nat_eq, filter, contains, contains-filter, all,
}
use cloud_provider_osc.Base.StringSets.{StringSets}
use cloud_provider_osc.Base.Str.{Str}

abbrev pub list_sets : StringSets
list_sets = record {
  Set = List Str;
  new = λ xs. xs;
  difference = λ s t. filter (λ a. not (contains t a)) s;
  equal = λ s t. all (contains t) s && all (contains s) t;
  list = λ s. s;
  list-new = λ xs a. refl;
  list-difference = λ s t a. contains-filter (λ b. not (contains t b)) s a;
}
