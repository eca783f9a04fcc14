-- ===== src/Filter.antt =====
-- src/library/filter.c and filter.h: the tree of path filters that says which files of a package
-- belong in the trust database. The loader is in Filter/Load. The `processed` and `matched` flags of
-- `filter_t`, which only its destruction uses, and its line number, which only messages use, are
-- left out.
pub mod Parents
pub mod Decide
pub mod Rounds
pub mod Bounds
pub mod Load
pub mod Lines
pub mod RoundTrip
mod Tests
use fapolicyd.Prelude.{
  ℕ, zero, suc, ◌+◌, ◌-◌, Bool, true, false, ◌&&◌, ◌||◌, Option, none, some, List, [], ◌∷◌, ◌==◌,
  ltb, leb, length, take, drop, if◌then◌else◌,
}
use fapolicyd.Prelude.Bytes.{Bytes, bytes_eq, has_prefix}

-- `filter_type_t`: NONE, ADD, SUB, COMMENT and BAD
pub data FilterType : Type 0 where
  unset add_rule sub_rule comment bad : FilterType

-- `filter_t`, and its `list` of descendants from `first` on. The root alone has no path.
mutual
  pub data Filter : Type 0 where
    filter_node : FilterType → Option Bytes → Filters → Filter

  pub data Filters : Type 0 where
    no_filters : Filters
    next_filter : Filter → Filters → Filters

-- FILTER_DENY, FILTER_ALLOW and FILTER_ERR_DEPTH
pub data FilterRc : Type 0 where
  deny allow err_depth : FilterRc

-- `filter_create_obj`
abbrev pub filter_create_obj : Filter
filter_create_obj = filter_node unset none no_filters

abbrev pub path_of : Filter → Option Bytes
path_of (filter_node t p fs) = p

abbrev pub type_of : Filter → FilterType
type_of (filter_node t p fs) = t

abbrev pub list_of : Filter → Filters
list_of (filter_node t p fs) = fs

-- `filter_count_nodes`, which visits each node of the tree once.
unfoldable mutual
  pub filter_count_nodes : Filter → ℕ
  filter_count_nodes (filter_node t p fs) = suc (count_list fs)

  pub count_list : Filters → ℕ
  count_list no_filters = 0
  count_list (next_filter f fs) = filter_count_nodes f + count_list fs

-- `filter->type == ADD ? FILTER_ALLOW : FILTER_DENY`
abbrev pub decision_of : FilterType → FilterRc
decision_of add_rule = allow
decision_of _ = deny

-- The loop that leaves out a separator after a separator; `last` is `path[path_len - 1]`, or 0.
unfoldable pub normalize : ℕ → Bytes → Bytes
normalize last [] = []
normalize last (c ∷ s) = if c == 47 && last == 47 then normalize 47 s else c ∷ normalize c s

-- `strstr(path, "/../") != NULL`, or `strcmp(path + path_len - 3, "/..") == 0` for the path that
-- starts here or further on.
unfoldable pub has_parent_inside : Bytes → Bool
unfolding has_prefix bytes_eq
has_parent_inside [] = false
has_parent_inside (c ∷ s) =
    has_prefix (47 ∷ 46 ∷ 46 ∷ 47 ∷ []) (c ∷ s)
    || bytes_eq (47 ∷ 46 ∷ 46 ∷ []) (c ∷ s)
    || has_parent_inside s

-- The test for references to a parent directory.
unfoldable pub has_parent : Bytes → Bool
unfolding has_parent_inside has_prefix bytes_eq
has_parent path =
    has_prefix (46 ∷ 46 ∷ 47 ∷ []) path || bytes_eq (46 ∷ 46 ∷ []) path || has_parent_inside path

-- `strpbrk(filter->path, "?*[") != NULL`
unfoldable pub has_wildcard : Bytes → Bool
has_wildcard [] = false
has_wildcard (c ∷ s) = c == 63 || c == 42 || c == 91 || has_wildcard s

-- `strchr(s, '/') - s`
unfoldable pub find_slash : Bytes → Option ℕ
find_slash [] = none
find_slash (c ∷ s) = elim (c == 47) [
  | true ↦ some 0
  | false ↦ elim (find_slash s) [ none ↦ none | some k ↦ some (suc k) ]
]

abbrev pub is_empty {ℓ} : {A : Type ℓ} → List A → Bool
is_empty [] = true
is_empty (x ∷ xs) = false

-- The loop over the separators of the filter and of the path. `pos` is `path_lim - path`, where
-- `rest` starts; the results are `count && *(filter_old_lim+1) == '\0'` and `path_old_lim - path`.
unfoldable pub limits : Bytes → Bytes → ℕ → Bool → ℕ → Bool × ℕ
unfolding find_slash
limits [] rest pos ends old = (ends, old)
limits (c ∷ pattern_) rest pos ends old = elim (c == 47) [
  | false ↦ limits pattern_ rest pos ends old
  | true ↦ elim (find_slash rest) [
    | none ↦ (is_empty pattern_, old)
    | some k ↦ limits pattern_ (drop (suc k) rest) (suc (pos + k)) (is_empty pattern_) (pos + k)
  ]
]

-- What the comparison of a filter with the path at an offset comes to: an access past the NUL of
-- the path, no match, or a match with the new offset.
pub data Match : Type 0 where
  overrun : Match
  miss : Match
  hit : ℕ → Match

-- What the walk comes to: a fault, a return, or nothing yet.
pub data Walk : Type 0 where
  fault : Walk
  decided : FilterRc → Walk
  passed : Walk

-- `filter->path[filter->len-1] == '/'`, which is in the string if that is not empty.
unfoldable pub ends_in_slash : Bytes → Option Bool
ends_in_slash [] = none
ends_in_slash (c ∷ []) = some (c == 47)
ends_in_slash (c ∷ d ∷ s) = ends_in_slash (d ∷ s)

-- `stack_item_t`
pub record StackItem : Type 0 where
  pub offset : ℕ
  pub processed : Bool
  pub matched : Bool
  pub filter : Filter

abbrev pub fresh : ℕ → Filter → StackItem
fresh offset f = record { offset = offset; processed = false; matched = false; filter = f }

-- The loop of `filter_stack_push` over descendants, on the stack from its top; `none` if the
-- capacity would be exceeded.
unfoldable pub push_list : ℕ → ℕ → Filters → List StackItem → Option (List StackItem)
push_list capacity offset no_filters stack = some stack
push_list capacity offset (next_filter f fs) stack =
    let rest = push_list capacity offset fs (fresh offset f ∷ stack) in
    if leb capacity (length stack) then none else rest

-- A round of the loop comes to an end of the walk, or to a stack.
pub data Round : Type 0 where
  stop : Walk → Round
  go_on : List StackItem → Round

-- What follows a round that goes on.
abbrev pub bind_round : Round → (List StackItem → Option Walk) → Option Walk
bind_round (stop w) f = some w
bind_round (go_on stack) f = f stack

abbrev pub pushed : Option (List StackItem) → Round
pushed none = stop (decided err_depth)
pushed (some stack) = go_on stack

-- A leaf decides after a wildcard, or where the path is consumed.
abbrev pub leaf_decides : Bytes → Bytes → ℕ → Filters → Bool
leaf_decides path rule offset no_filters = has_wildcard rule || length path == offset
leaf_decides path rule offset (next_filter f fs) = false

-- What a directory that matched decides, when nothing below it has decided.
abbrev pub directory_decides : FilterType → Option Bool → Walk
directory_decides t none = fault
directory_decides t (some slash) = if slash then decided (decision_of t) else passed

abbrev pub fallback : Filter → Walk
fallback (filter_node t none fs) = fault
fallback (filter_node t (some rule) fs) = directory_decides t (ends_in_slash rule)

-- A pop, with what is left of the loop.
abbrev pub settle : Walk → Round → Round
settle fault rest = stop fault
settle (decided rc) rest = stop (decided rc)
settle passed rest = rest

-- The `do` loop that pops the items that are processed.
unfoldable pub pop_processed : List StackItem → Round
pop_processed [] = go_on []
pop_processed (item ∷ stack) =
    let rest =
      settle (if item.matched then fallback item.filter else passed) (pop_processed stack) in
    if item.processed then rest else go_on (item ∷ stack)

-- The branches after the comparison.
abbrev pub after_match : Bytes → ℕ → Bytes → StackItem → List StackItem → Match → Round
after_match path capacity rule seen stack overrun = stop fault
after_match path capacity rule seen stack miss = go_on (seen ∷ stack)
after_match path capacity rule seen stack (hit offset) =
    if leaf_decides path rule offset (list_of seen.filter)
    then stop (decided (decision_of (type_of seen.filter)))
    else pushed
        (push_list capacity offset (list_of seen.filter) (record seen { matched = true } ∷ stack))

-- `fnmatch` with no flags is the C library's.
module _ (fnmatch : Bytes → Bytes → Bool) where
  -- The two comparisons of the loop of `filter_check`. A wildcard of a directory is compared with
  -- the path up to a NUL that is put after `path_old_lim`.
  unfoldable pub match_filter : Bytes → Bytes → ℕ → Match
  unfolding has_wildcard limits has_prefix
  match_filter path rule offset =
      let rest = drop offset path in
      let (ends, old) = limits rule rest offset false offset in
      if ltb (length path) offset
      then overrun
      else if has_wildcard rule
      then (if ends && leb (length path) old
          then overrun
          else if fnmatch rule (if ends then take (suc old - offset) rest else rest)
          then hit (old + offset)
          else miss)
      else if has_prefix rule rest
      then hit (offset + length rule)
      else miss

  -- The round at the top of the stack, up to the popping.
  unfoldable pub walk_round : Bytes → ℕ → StackItem → List StackItem → Round
  walk_round path capacity item stack =
      let seen = record item { processed = true } in
      elim (path_of item.filter) [
        | none ↦ pushed (push_list capacity item.offset (list_of item.filter) (seen ∷ stack))
        | some rule ↦ after_match path capacity rule seen stack (match_filter path rule item.offset)
      ]

  -- The loop of `filter_check` on fuel; `none` means that the fuel ran out. An empty stack leaves
  -- the result at FILTER_DENY.
  unfoldable pub walk : ℕ → Bytes → ℕ → List StackItem → Option Walk
  walk zero path capacity stack = none
  walk (suc fuel) path capacity [] = some (decided deny)
  walk (suc fuel) path capacity (item ∷ stack) =
      let next_round = walk fuel path capacity in
      bind_round (walk_round path capacity item stack)
        (λ s. bind_round (pop_processed s) next_round)

  -- `filter_check` with `global_filter` and whether `calloc` succeeds.
  unfoldable pub filter_check : Option Filter → Bool → Option Bytes → Option Walk
  filter_check global_filter calloc none = some (decided deny)
  filter_check global_filter calloc (some path_) =
      let path = normalize 0 (take 4096 path_) in
      if has_parent path then some (decided deny) else elim global_filter [
        | none ↦ some (decided deny)
        | some root ↦
            let capacity = filter_count_nodes root in
            if calloc
            then walk (suc capacity) path capacity (fresh 0 root ∷ [])
            else some (decided err_depth)
      ]
