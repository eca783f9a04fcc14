-- ===== src/Filter/Decide.antt =====
-- `filter_check` described by recursion on the tree, and what the frames on its stack stand for.
use fapolicyd.Prelude.{
  ℕ, ◌+◌, ◌≡◌, ◌≤◌, ◌<◌, refl, sym, ◌∙◌, Bool, true, not, ◌||◌, none, some, List, [], ◌∷◌, arith,
  length, if◌then◌else◌,
}
use fapolicyd.Prelude.Bytes.{Bytes}
use fapolicyd.Filter.{
  FilterType, Filter, Filters, filter_node, no_filters, next_filter, deny, filter_count_nodes,
  count_list, decision_of, Match, overrun, miss, hit, Walk, fault, decided, passed, StackItem,
  fresh, push_list, leaf_decides, fallback, match_filter,
}

-- The first that decides, or faults.
abbrev pub or_else : Walk → Walk → Walk
or_else passed w = w
or_else fault w = fault
or_else (decided rc) w = decided rc

-- What a filter with a path says after its comparison, with what its descendants say.
abbrev pub judge : Bytes → FilterType → Bytes → Filters → (ℕ → Walk) → Match → Walk
judge path t rule fs below overrun = fault
judge path t rule fs below miss = passed
judge path t rule fs below (hit offset) =
    if leaf_decides path rule offset fs
    then decided (decision_of t)
    else or_else (below offset) (fallback (filter_node t (some rule) fs))

module _ (fnmatch : Bytes → Bytes → Bool) (path : Bytes) where
  unfoldable mutual
    -- What a filter says of the path from an offset on.
    pub decide : Filter → ℕ → Walk
    decide (filter_node t none fs) offset = decide_first fs offset
    decide (filter_node t (some rule) fs) offset =
        judge path t rule fs (decide_first fs) (match_filter fnmatch path rule offset)

    -- What the first of some filters that says anything says; the loader puts the filter that
    -- stands first in the file last.
    pub decide_first : Filters → ℕ → Walk
    decide_first no_filters offset = passed
    decide_first (next_filter f fs) offset = or_else (decide_first fs offset) (decide f offset)

-- What the items of a stack say, from its top.
abbrev pub item_says : (Bytes → Bytes → Bool) → Bytes → StackItem → Walk
item_says fnmatch path item =
    if item.processed
    then (if item.matched then fallback item.filter else passed)
    else decide fnmatch path item.filter item.offset

unfoldable pub stack_says : (Bytes → Bytes → Bool) → Bytes → List StackItem → Walk
stack_says fnmatch path [] = decided deny
stack_says fnmatch path (item ∷ stack) =
    or_else (item_says fnmatch path item) (stack_says fnmatch path stack)

-- The rounds that a stack has before it, and one for each item that is processed.
abbrev item_weight : StackItem → ℕ
item_weight item = if item.processed then 1 else filter_count_nodes item.filter

unfoldable pub weight : List StackItem → ℕ
weight [] = 0
weight (item ∷ stack) = item_weight item + weight stack

-- The nodes that are still to be visited.
unfoldable pub pending : List StackItem → ℕ
pending [] = 0
pending (item ∷ stack) =
    (if item.processed then 0 else filter_count_nodes item.filter) + pending stack

-- An item that is not processed has not matched.
unfoldable pub IsClean : List StackItem → Type 0
IsClean [] = Unit
IsClean (item ∷ stack) = ((item.processed || not item.matched) ≡ true) × IsClean stack

pub or_else_assoc : (a b c : Walk) → or_else (or_else a b) c ≡ or_else a (or_else b c)
or_else_assoc fault b c = refl
or_else_assoc (decided rc) b c = refl
or_else_assoc passed b c = refl

pub count_pos : (f : Filter) → 0 < filter_count_nodes f
unfolding filter_count_nodes
count_pos (filter_node t p fs) = omega arith

length-le-weight : (s : List StackItem) → length s ≤ weight s
unfolding weight
length-le-weight [] = omega arith
length-le-weight (i ∷ s) = ground (arith, length-le-weight s, count_pos i.filter)

-- The capacity is enough for the descendants, which then stand before the rest.
pub push_list_lem :
    (fnmatch : Bytes → Bytes → Bool) (path : Bytes) (capacity offset : ℕ) (fs : Filters)
    (s : List StackItem)
    → weight s + count_list fs ≤ capacity
    → IsClean s
    → (s' : List StackItem) × (push_list capacity offset fs s ≡ some s')
      × (weight s' ≡ weight s + count_list fs)
      × (pending s' ≡ pending s + count_list fs)
      × IsClean s'
      × (stack_says fnmatch path s'
          ≡ or_else (decide_first fnmatch path fs offset) (stack_says fnmatch path s))
unfolding push_list filter_count_nodes decide weight pending stack_says IsClean
push_list_lem m path capacity offset no_filters s h cl =
    (s, refl, omega arith, omega arith, cl, refl)
push_list_lem m path capacity offset (next_filter f fs) s h cl =
    let ih =
      push_list_lem m path capacity offset fs (fresh offset f ∷ s) (omega arith) (refl, cl) in
    (
      ih.0,
      ground (arith, ih.1, length-le-weight s, count_pos f),
      omega (arith, ih.2),
      omega (arith, ih.3),
      ih.4,
      ih.5
          ∙ sym (
              or_else_assoc (decide_first m path fs offset) (decide m path f offset)
                (stack_says m path s)),
    )
