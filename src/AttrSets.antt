-- ===== src/AttrSets.antt =====
-- src/library/attr-sets.c and attr-sets.h: the sets of strings or numbers that rules name, and the
-- registry of the named ones. Allocations succeed; a NULL pointer is `none`.
pub mod Lookup
pub mod Registry
mod Tests
use fapolicyd.Prelude.{
  ℕ, zero, suc, ◌+◌, ◌*◌, ◌-◌, ◌%◌, ◌/◌, ◌<◌, Bool, true, false, ◌&&◌, ◌||◌, not, Option, none,
  some, List, [], ◌∷◌, ◌++◌, if◌then◌else◌, ◌==◌, set, replicate, take, length,
}
use fapolicyd.Prelude.Int.{ℤ, pos, negsuc, cmp_ℕ, cmp_ℤ}
use fapolicyd.Prelude.Bytes.{Bytes, bytes_eq, has_prefix}
use fapolicyd.Prelude.Compare.{strcmp}
use fapolicyd.Prelude.Words.{u64_mod}
use fapolicyd.Avl.{Tree, leaf, node, avl_search, avl_insert, avl_traverse}
use fapolicyd.Avl.Walk.{is_some}

-- The tree of a set of type STRING, SIGNED or UNSIGNED, with the comparison that
-- `attr_set_init_tree` gives it. An UNSIGNED set holds no negative number.
pub data Members : Type 0 where
  strings : Tree Bytes → Members
  signed : Tree ℤ → Members
  unsigned : Tree ℕ → Members

-- `attr_sets_entry_t`
pub record AttrSet : Type 0 where
  pub name : Option Bytes
  pub has_glob : Bool
  pub members : Members

abbrev pub string_type : ℕ
string_type = 1

abbrev pub signed_type : ℕ
signed_type = 2

abbrev pub unsigned_type : ℕ
unsigned_type = 3

-- "glob:"
abbrev pub glob_prefix : Bytes
glob_prefix = 103 ∷ 108 ∷ 111 ∷ 98 ∷ 58 ∷ []

unfoldable pub attr_set_init_tree : ℕ → Option Members
attr_set_init_tree type =
    if type == string_type
    then some (strings leaf)
    else if type == signed_type
    then some (signed leaf)
    else if type == unsigned_type
    then some (unsigned leaf)
    else none

unfoldable pub attr_set_create : Option Bytes → ℕ → Option AttrSet
unfolding attr_set_init_tree
attr_set_create name type = elim (attr_set_init_tree type) [
  | none ↦ none
  | some m ↦ some (record { name = name; has_glob = false; members = m })
]

-- The set afterwards, and whether the result is 0.
unfoldable pub attr_set_append_int : Option AttrSet → ℤ → Option AttrSet × Bool
attr_set_append_int none num = (none, false)
attr_set_append_int (some s) num = elim s.members [
  | strings t ↦ (some s, false)
  | signed t ↦
      let (t', new) = avl_insert cmp_ℤ num t in (some (record s { members = signed t' }), new)
  | unsigned t ↦ elim num [
    | negsuc n ↦ (some s, false)
    | pos n ↦
        let (t', new) = avl_insert cmp_ℕ n t in (some (record s { members = unsigned t' }), new)
  ]
]

unfoldable pub attr_set_append_str : Option AttrSet → Option Bytes → Option AttrSet × Bool
attr_set_append_str none str = (none, false)
attr_set_append_str (some s) none = (some s, false)
attr_set_append_str (some s) (some str) = elim s.members [
  | strings t ↦
      let (t', new) = avl_insert strcmp str t in
      if new
      then (
        some (record s {
          members = strings t';
          has_glob = if has_prefix glob_prefix str then true else s.has_glob;
        }),
        true,
      )
      else (some (record s { members = strings t' }), false)
  | signed t ↦ (some s, false)
  | unsigned t ↦ (some s, false)
]

unfoldable pub attr_set_empty : Option AttrSet → Bool
attr_set_empty none = true
attr_set_empty (some s) = elim s.members [
  | strings t ↦ elim t [ leaf ↦ true | node _ _ _ _ ↦ false ]
  | signed t ↦ elim t [ leaf ↦ true | node _ _ _ _ ↦ false ]
  | unsigned t ↦ elim t [ leaf ↦ true | node _ _ _ _ ↦ false ]
]

unfoldable pub attr_set_check_int : Option AttrSet → ℤ → Bool
attr_set_check_int none num = false
attr_set_check_int (some s) num = elim s.members [
  | strings t ↦ false
  | signed t ↦ is_some (avl_search cmp_ℤ num t)
  | unsigned t ↦ elim num [ negsuc n ↦ false | pos n ↦ is_some (avl_search cmp_ℕ n t) ]
]

unfoldable pub attr_set_check_str : Option AttrSet → Option Bytes → Bool
attr_set_check_str none str = false
attr_set_check_str (some s) none = false
attr_set_check_str (some s) (some str) = elim s.members [
  | strings t ↦ is_some (avl_search strcmp str t)
  | signed t ↦ false
  | unsigned t ↦ false
]

-- The callback of `attr_set_check_pstr`: -1 stops the walk at an entry that begins the string.
unfoldable pub strncmp_cb : Bytes → Bytes → ℤ
strncmp_cb str entry = if has_prefix entry str then negsuc 0 else pos 0

unfoldable pub attr_set_check_pstr : Option AttrSet → Option Bytes → Bool
unfolding strncmp_cb
attr_set_check_pstr none str = false
attr_set_check_pstr (some s) none = false
attr_set_check_pstr (some s) (some str) = elim s.members [
  | strings t ↦ elim (avl_traverse (strncmp_cb str) t) [ pos _ ↦ false | negsuc n ↦ n == 0 ]
  | signed t ↦ false
  | unsigned t ↦ false
]

-- `struct attr_sets`; the array holds `capacity` pointers.
pub record AttrSets : Type 0 where
  pub capacity : ℕ
  pub size : ℕ
  pub resize_factor : ℕ
  pub array : List (Option AttrSet)

abbrev pub default_capacity : ℕ
default_capacity = 100

abbrev pub resize_by : ℕ
resize_by = 2

unfoldable pub attr_sets_create : AttrSets
attr_sets_create = record {
  capacity = default_capacity;
  size = 0;
  resize_factor = resize_by;
  array = replicate default_capacity none;
}

-- The two products are of `size_t`: the storage is what the number of bytes holds, which are eight
-- for a pointer, and the capacity may be more. A write past the storage stores nothing here.
unfoldable pub attr_sets_resize : AttrSets → AttrSets
attr_sets_resize sets =
    let new_capacity = sets.capacity * sets.resize_factor % u64_mod in
    let places = 8 * new_capacity % u64_mod / 8 in
    record sets {
      capacity = new_capacity;
      array = take places (sets.array ++ replicate (places - length sets.array) none);
    }

-- The array grows if it is full.
unfoldable pub make_room : AttrSets → AttrSets
unfolding attr_sets_resize
make_room sets = if sets.size == sets.capacity then attr_sets_resize sets else sets

-- The registry afterwards, and whether the result is 0.
unfoldable pub attr_sets_add : AttrSets → Option AttrSet → AttrSets × Bool
attr_sets_add sets none = (sets, false)
attr_sets_add sets (some entry) =
    let room = make_room sets in
    (record room { array = set room.array room.size (some entry); size = room.size + 1 }, true)

-- `set && set->name && strcmp(set->name, name) == 0`
unfoldable pub is_named : Bytes → Option AttrSet → Bool
is_named name none = false
is_named name (some s) = elim s.name [ none ↦ false | some n ↦ bytes_eq n name ]

-- The loop of `attr_sets_find` over the first `n` entries.
unfoldable pub find_from : Bytes → ℕ → List (Option AttrSet) → Option AttrSet
unfolding is_named
find_from name zero entries = none
find_from name (suc n) [] = none
find_from name (suc n) (e ∷ entries) = if is_named name e then e else find_from name n entries

unfoldable pub attr_sets_find : AttrSets → Option Bytes → Option AttrSet
unfolding find_from
attr_sets_find sets none = none
attr_sets_find sets (some name) = find_from name sets.size sets.array
