-- ===== src/AttrSets/Tests.antt =====
-- A set of directories, a set of numbers and a registry, and the theorems at these inputs.
use fapolicyd.Prelude.{◌≡◌, true, false, not, ◌||◌, none, some, [], ◌∷◌, arith, if◌then◌else◌}
use fapolicyd.Prelude.Int.{pos, negsuc, cmp_ℤ, equal}
use fapolicyd.Prelude.Bytes.{Bytes, bytes_eq, has_prefix}
use fapolicyd.Avl.{Tree, leaf, node}
use fapolicyd.AttrSets.{
  AttrSet, strings, attr_set_append_str, attr_set_check_str, attr_set_check_pstr,
  attr_set_append_int, attr_set_check_int, attr_sets_create, attr_sets_add, attr_sets_find,
  is_named,
}
use fapolicyd.AttrSets.Lookup
use fapolicyd.AttrSets.Lookup.{
  string_set, signed_set, append_str-check_str, check_pstr-any, append_int-check_int,
}
use fapolicyd.AttrSets.Registry
use fapolicyd.AttrSets.Registry.{attr_sets_create-IsValid, attr_sets_add_lem}
use fapolicyd.Avl.Walk.{any}

-- "/bin/" and "glob:*"
abbrev bin : Bytes
bin = 47 ∷ 98 ∷ 105 ∷ 110 ∷ 47 ∷ []

abbrev any_glob : Bytes
any_glob = 103 ∷ 108 ∷ 111 ∷ 98 ∷ 58 ∷ 42 ∷ []

abbrev bins : Tree Bytes
bins = node leaf bin (pos 0) leaf

bins-IsValid : Lookup.IsValid (string_set none false bins)
unfolding any has_prefix
bins-IsValid = ground arith

append_str-check_str_example :
    (s' : AttrSet) × (attr_set_append_str (some (string_set none false bins)) (some any_glob)
      ≡ (some s', not (attr_set_check_str (some (string_set none false bins)) (some any_glob))))
    × Lookup.IsValid s'
    × (attr_set_check_str (some s') (some any_glob) ≡ (
        bytes_eq any_glob any_glob
        || attr_set_check_str (some (string_set none false bins)) (some any_glob)))
append_str-check_str_example = append_str-check_str none false bins any_glob any_glob bins-IsValid

check_pstr-any_example :
    attr_set_check_pstr
      (some (string_set none false bins))
      (some (47 ∷ 98 ∷ 105 ∷ 110 ∷ 47 ∷ 115 ∷ 104 ∷ []))
    ≡ any (λ e. has_prefix e (47 ∷ 98 ∷ 105 ∷ 110 ∷ 47 ∷ 115 ∷ 104 ∷ [])) (bin ∷ [])
check_pstr-any_example = check_pstr-any none false bins (47 ∷ 98 ∷ 105 ∷ 110 ∷ 47 ∷ 115 ∷ 104 ∷ [])

signed-IsValid :
    Lookup.IsValid (signed_set none false (pos 0) (pos 0) (node leaf (pos 4) (pos 0) leaf))
signed-IsValid = ground arith

append_int-check_int_example :
    let t = node leaf (pos 4) (pos 0) leaf in
    (s' : AttrSet) × (attr_set_append_int
        (some (signed_set none false (negsuc 0) (negsuc 0) t))
        (negsuc 0)
      ≡ (
        some s',
        not (attr_set_check_int (some (signed_set none false (negsuc 0) (negsuc 0) t)) (negsuc 0)),
      ))
    × Lookup.IsValid s'
    × (attr_set_check_int (some s') (negsuc 0) ≡ elim (cmp_ℤ (negsuc 0) (negsuc 0)) [
      | equal ↦ true
      | _ ↦ attr_set_check_int (some (signed_set none false (negsuc 0) (negsuc 0) t)) (negsuc 0)
    ])
append_int-check_int_example =
    append_int-check_int none false (negsuc 0) (negsuc 0) (node leaf (pos 4) (pos 0) leaf)
      signed-IsValid

abbrev named : AttrSet
named = record { name = some bin; has_glob = false; members = strings bins }

attr_sets_add_lem_example :
    let (sets', added) = attr_sets_add attr_sets_create (some named) in
    (added ≡ true)
    × Registry.IsValid sets'
    × (attr_sets_find sets' (some bin) ≡ elim (attr_sets_find attr_sets_create (some bin)) [
      | some found ↦ some found
      | none ↦ if is_named bin (some named) then some named else none
    ])
attr_sets_add_lem_example =
    attr_sets_add_lem attr_sets_create-IsValid (unfold attr_sets_create in omega arith) named bin
