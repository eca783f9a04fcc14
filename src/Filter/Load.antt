-- ===== src/Filter/Load.antt =====
-- src/library/filter.c: `filter_load_file`, which builds the tree from the lines of a file, and
-- `filter_prune_list`. The array `ancestors` holds the newest node of each level, so a node that is
-- put in front of the list of one is put in front of the list at that depth along the first
-- descendants. `filter_validate` and the messages are left out.
use fapolicyd.Prelude.{
  ℕ, zero, suc, ◌+◌, Bool, true, false, ◌||◌, Option, none, some, List, [], ◌∷◌, ◌==◌, ltb, leb,
  if◌then◌else◌, drop,
}
use fapolicyd.Prelude.Bytes.{Bytes, codes}
use fapolicyd.StringUtil.{fapolicyd_strtrim}
use fapolicyd.Filter.{
  FilterType, add_rule, sub_rule, comment, bad, Filter, filter_node, no_filters, next_filter,
  filter_create_obj, Walk, decided, allow, filter_check,
}

-- `getline` until the end of the file; a line keeps its newline.
abbrev pub push_byte : ℕ → List Bytes → List Bytes
push_byte c [] = (c ∷ []) ∷ []
push_byte c (line ∷ rest) = (c ∷ line) ∷ rest

unfoldable pub split_lines : Bytes → List Bytes
split_lines [] = []
split_lines (c ∷ s) =
    let rest = split_lines s in if c == 10 then (10 ∷ []) ∷ rest else push_byte c rest

-- The line up to its newline.
unfoldable pub cut_newline : Bytes → Bytes
cut_newline [] = []
cut_newline (c ∷ s) = if c == 10 then [] else c ∷ cut_newline s

-- `line[0] == '\0' || line[0] == '\n'`
abbrev pub is_blank : Bytes → Bool
is_blank [] = true
is_blank (c ∷ s) = c == 10

abbrev pub type_of_sign : ℕ → FilterType
type_of_sign c =
    if c == 43 then add_rule else if c == 45 then sub_rule else if c == 35 then comment else bad

-- The loop over the start of the line: its level, its type, and the path after the sign and the
-- byte that follows it. The NUL of a line of blanks is `bad`. A sign that ends the file is given an
-- empty path, where the code reads past the NUL.
unfoldable pub parse_line : ℕ → Bytes → ℕ × FilterType × Bytes
unfolding fapolicyd_strtrim
parse_line level [] = (level, bad, [])
parse_line level (c ∷ s) =
    let rest = parse_line (suc level) s in
    if c == 32 then rest else (level, type_of_sign c, fapolicyd_strtrim (drop 1 s))

-- `list_prepend` to the list of the ancestor at a depth.
unfoldable pub prepend_at : ℕ → Filter → Filter → Filter
prepend_at zero new (filter_node t p fs) = filter_node t p (next_filter new fs)
prepend_at (suc depth) new (filter_node t p no_filters) = filter_node t p no_filters
prepend_at (suc depth) new (filter_node t p (next_filter f fs)) =
    filter_node t p (next_filter (prepend_at depth new f) fs)

-- `global_filter` and `last_level`.
pub record Loading : Type 0 where
  pub root : Filter
  pub last_level : ℕ

-- MAX_FILTER_DEPTH
abbrev pub max_filter_depth : ℕ
max_filter_depth = 64

-- What a line with a level, a type and a path does; `none` is the jump to `bad`. A level is 1 or
-- more.
abbrev pub add_line : Loading → ℕ → FilterType → Bytes → Option Loading
add_line st level comment path = some st
add_line st level bad path = none
add_line st zero t path = none
add_line st (suc depth) t path =
    if ltb (st.last_level + 1) (suc depth) || leb max_filter_depth (suc depth)
    then none
    else some record {
      root = prepend_at depth (filter_node t (some path) no_filters) st.root;
      last_level = suc depth;
    }

unfoldable pub load_line : Loading → Bytes → Option Loading
unfolding cut_newline parse_line prepend_at
load_line st line =
    let (level, t, path) = parse_line 1 (cut_newline line) in
    if is_blank line then some st else add_line st level t path

-- The loop over the lines, with `res == 0`.
unfoldable pub load_lines : List Bytes → Loading → Bool × Filter
unfolding load_line
load_lines [] st = (true, st.root)
load_lines (line ∷ lines) st = elim (load_line st line) [
  | none ↦ (false, st.root)
  | some st' ↦ load_lines lines st'
]

-- OLD_FILTER_FILE and FILTER_FILE
abbrev pub old_filter_file : Bytes
old_filter_file = codes "/etc/fapolicyd/rpm-filter.conf"

abbrev pub filter_file : Bytes
filter_file = codes "/etc/fapolicyd/fapolicyd-filter.conf"

abbrev pub or_open : Option Bytes → Option Bytes → Option Bytes
or_open none other = other
or_open (some content) other = some content

-- What the file system has: `fopen` and the content that is read.
module _ (fopen : Bytes → Option Bytes) where
  abbrev pub open_filter : Option Bytes → Option Bytes
  open_filter none = or_open (fopen old_filter_file) (fopen filter_file)
  open_filter (some path) = fopen path

  -- `filter_load_file` into a tree: whether it returns 0, and the tree that it leaves.
  unfoldable pub filter_load_file : Option Bytes → Filter → Bool × Filter
  unfolding split_lines load_lines
  filter_load_file path global_filter = elim (open_filter path) [
    | none ↦ (false, global_filter)
    | some content ↦
        load_lines (split_lines content) record { root = global_filter; last_level = 0 }
  ]

-- What is left of a list after the check of its first item; `none` after a fault.
abbrev pub keep : Bytes → Option Walk → Option (List Bytes) → Option (List Bytes)
keep item (some (decided allow)) rest = elim rest [ none ↦ none | some xs ↦ some (item ∷ xs) ]
keep item (some (decided rc)) rest = rest
keep item _ rest = none

module _ (fnmatch : Bytes → Bytes → Bool) where
  -- The loop of `filter_prune_list`.
  unfoldable pub prune_items : Filter → List Bytes → Option (List Bytes)
  prune_items root [] = some []
  prune_items root (item ∷ items) =
      keep item (filter_check fnmatch (some root) true (some item)) (prune_items root items)

  -- `filter_prune_list`, with allocations that succeed: whether it returns 0, and the list.
  unfoldable pub filter_prune_list :
      (Bytes → Option Bytes) → Option Bytes → List Bytes → Option (Bool × List Bytes)
  unfolding filter_load_file prune_items
  filter_prune_list fopen path items =
      let (ok, root) = filter_load_file fopen path filter_create_obj in
      if ok
      then elim (prune_items root items) [ none ↦ none | some kept ↦ some (true, kept) ]
      else some (false, items)
