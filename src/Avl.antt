-- ===== src/Avl.antt =====
-- src/library/avl.c and avl.h: the balanced trees behind the attribute sets. A node's `avl_link[0]`
-- and `avl_link[1]` are its two subtrees, and NULL is `leaf`. A call that relinks nodes returns the
-- new tree. `cmp` is the tree's `compar`.
pub mod Order
pub mod Search
pub mod Balance
pub mod Walk
mod Tests
use fapolicyd.Prelude.{
  ℕ, zero, suc, ◌+◌, Bool, true, false, ◌||◌, not, Option, none, some, List, [], ◌∷◌, ◌++◌,
  if◌then◌else◌,
}
use fapolicyd.Prelude.Int.{ℤ, pos, negsuc, suc_ℤ, pred_ℤ, Cmp, less, equal, greater}

-- `avl_t` with what the entry around it holds; the number is `avl_balance`.
pub data Tree (A : Type 0) : Type 0 where
  leaf : Tree A
  node : Tree A → A → ℤ → Tree A → Tree A

abbrev pub is_zero : ℤ → Bool
is_zero (pos zero) = true
is_zero _ = false

abbrev pub is_one : ℤ → Bool
is_one (pos (suc zero)) = true
is_one _ = false

abbrev pub is_minus_one : ℤ → Bool
is_minus_one (negsuc zero) = true
is_minus_one _ = false

-- The factors of `x` and `y` after a double rotation, from that of `w`: lines 117 to 122.
abbrev pub x_balance : ℤ → ℤ
x_balance wb = if is_minus_one wb then pos 0 else if is_zero wb then pos 0 else negsuc 0

abbrev pub y_balance : ℤ → ℤ
y_balance wb = if is_minus_one wb then pos 1 else if is_zero wb then pos 0 else pos 0

-- In the mirror image: lines 141 to 146.
abbrev pub x_balance' : ℤ → ℤ
x_balance' wb = if is_one wb then pos 0 else if is_zero wb then pos 0 else pos 1

abbrev pub y_balance' : ℤ → ℤ
y_balance' wb = if is_one wb then negsuc 0 else if is_zero wb then pos 0 else pos 0

module _ {A : Type 0} where
  -- The double rotation where the right subtree `w` of `x` is the high one. A NULL that the code
  -- would follow leaves the nodes as they are.
  unfoldable pub double_left : Tree A → A → ℤ → Tree A → A → Tree A → Tree A
  double_left a x xb leaf y r = node (node a x xb leaf) y (negsuc 1) r
  double_left a x xb (node wl w wb wr) y r =
      node (node a x (x_balance wb) wl) w (pos 0) (node wr y (y_balance wb) r)

  -- The left subtree `x` of `y` is two higher than the right one: lines 102 to 125.
  unfoldable pub rotate_left_high : Tree A → A → Tree A → Tree A
  unfolding double_left
  rotate_left_high leaf y r = node leaf y (negsuc 1) r
  rotate_left_high (node a x xb c) y r =
      if is_minus_one xb then node a x (pos 0) (node c y (pos 0) r) else double_left a x xb c y r

  unfoldable pub double_right : Tree A → A → Tree A → A → ℤ → Tree A → Tree A
  double_right l y leaf x xb c = node l y (pos 2) (node leaf x xb c)
  double_right l y (node wl w wb wr) x xb c =
      node (node l y (y_balance' wb) wl) w (pos 0) (node wr x (x_balance' wb) c)

  -- The right subtree `x` of `y` is two higher than the left one: lines 126 to 149.
  unfoldable pub rotate_right_high : Tree A → A → Tree A → Tree A
  unfolding double_right
  rotate_right_high l y leaf = node l y (pos 2) leaf
  rotate_right_high l y (node c x xb a) =
      if is_one xb then node (node l y (pos 0) c) x (pos 0) a else double_right l y c x xb a

  -- What is done at `y` once the balance factors are updated.
  unfoldable pub rebalance : Tree A → Tree A
  unfolding rotate_left_high rotate_right_high
  rebalance leaf = leaf
  rebalance (node l y (negsuc (suc zero)) r) = rotate_left_high l y r
  rebalance (node l y (pos (suc (suc zero))) r) = rotate_right_high l y r
  rebalance (node l y b r) = node l y b r

module _ {A : Type 0} (cmp : A → A → Cmp) where
  -- `avl_search`
  unfoldable pub avl_search : A → Tree A → Option A
  avl_search item leaf = none
  avl_search item (node l p b r) = elim (cmp item p) [
    | less ↦ avl_search item l
    | greater ↦ avl_search item r
    | equal ↦ some p
  ]

  -- Whether a node on the way down from the root to the place of `item` is out of balance: the
  -- first loop of `avl_insert` keeps the last such node as `y`.
  unfoldable pub is_tilted : A → Tree A → Bool
  is_tilted item leaf = false
  is_tilted item (node l p b r) =
      not (is_zero b) || elim (cmp item p) [ greater ↦ is_tilted item r | _ ↦ is_tilted item l ]

  -- The new node is linked in, and the balance factors from `y` down to it are updated: lines 89
  -- to 100.
  unfoldable pub graft : A → Tree A → Tree A
  graft item leaf = node leaf item (pos 0) leaf
  graft item (node l p b r) = elim (cmp item p) [
    | greater ↦ node l p (suc_ℤ b) (graft item r)
    | _ ↦ node (graft item l) p (pred_ℤ b) r
  ]

  -- From the root down to `y`, which is the last node out of balance or else the root.
  unfoldable pub insert_at : A → Tree A → Tree A
  unfolding graft rebalance
  insert_at item leaf = node leaf item (pos 0) leaf
  insert_at item (node l p b r) = elim (cmp item p) [
    | greater ↦ elim (is_tilted item r) [
      | true ↦ node l p b (insert_at item r)
      | false ↦ rebalance (graft item (node l p b r))
    ]
    | _ ↦ elim (is_tilted item l) [
      | true ↦ node (insert_at item l) p b r
      | false ↦ rebalance (graft item (node l p b r))
    ]
  ]

  -- `avl_insert`: the entry with the value of `item` that is in the tree at the end, and whether it
  -- is `item` itself.
  unfoldable pub avl_insert : A → Tree A → Tree A × Bool
  unfolding avl_search is_tilted insert_at
  avl_insert item t = elim (avl_search item t) [
    | some p ↦ (t, false)
    | none ↦ (insert_at item t, true)
  ]

  -- `avl_walker2` on the needle and its subtrees, and `avl_intersection`
  unfoldable pub avl_walker2 : Tree A → Tree A → Bool
  unfolding avl_search
  avl_walker2 leaf haystack = false
  avl_walker2 (node l p b r) haystack =
      avl_walker2 l haystack
      || elim (avl_search p haystack) [ some _ ↦ true | none ↦ avl_walker2 r haystack ]

  unfoldable pub avl_intersection : Tree A → Tree A → Bool
  unfolding avl_walker2
  avl_intersection leaf haystack = false
  avl_intersection needle leaf = false
  avl_intersection needle haystack = avl_walker2 needle haystack

-- `avl_walker` and `avl_traverse`: a negative result of the callback stops the walk and is the
-- result; else the results are added up.
module _ {A : Type 0} (callback : A → ℤ) where
  unfoldable pub avl_traverse : Tree A → ℤ
  avl_traverse leaf = pos 0
  avl_traverse (node l p b r) = elim (avl_traverse l) [
    | negsuc n ↦ negsuc n
    | pos a ↦ elim (callback p) [
      | negsuc n ↦ negsuc n
      | pos c ↦ elim (avl_traverse r) [ negsuc n ↦ negsuc n | pos d ↦ pos (a + c + d) ]
    ]
  ]

-- An entry of the iterator's stack: a node above the current one, and whether the way down goes
-- through its `avl_link[1]`, which is what `tmp == node->avl_link[1]` finds out on the way up.
pub record Frame (A : Type 0) : Type 0 where
  pub above : Tree A
  pub went_right : Bool

-- `avl_iterator`: the tree, the current node (NULL is `none`), and the stack, its top first. A node
-- is the tree below it.
pub record Iterator (A : Type 0) : Type 0 where
  pub tree : Tree A
  pub current : Option (Tree A)
  pub stack : List (Frame A)

module _ {A : Type 0} where
  -- `while (node->avl_link[0])`: down to the leftmost node, pushing those above it.
  unfoldable pub go_left : Tree A → List (Frame A) → Tree A → Iterator A
  go_left whole stack (node (node a x xb c) p b r) =
      go_left whole (record { above = node (node a x xb c) p b r; went_right = false } ∷ stack)
        (node a x xb c)
  go_left whole stack t = record { tree = whole; current = some t; stack = stack }

  unfoldable pub avl_first : Tree A → Iterator A
  unfolding go_left
  avl_first leaf = record { tree = leaf; current = none; stack = [] }
  avl_first (node l p b r) = go_left (node l p b r) [] (node l p b r)

  -- `do { … } while (tmp == node->avl_link[1])`
  unfoldable pub go_up : Tree A → List (Frame A) → Iterator A
  go_up whole [] = record { tree = whole; current = none; stack = [] }
  go_up whole (f ∷ stack) = elim f.went_right [
    | true ↦ go_up whole stack
    | false ↦ record { tree = whole; current = some f.above; stack = stack }
  ]

  next_of : Tree A → List (Frame A) → Tree A → Iterator A
  unfolding go_left go_up
  next_of whole stack leaf = go_up whole stack
  next_of whole stack (node l p b leaf) = go_up whole stack
  next_of whole stack (node l p b (node c x xb d)) =
      go_left whole (record { above = node l p b (node c x xb d); went_right = true } ∷ stack)
        (node c x xb d)

  -- `avl_next`
  unfoldable pub avl_next : Iterator A → Iterator A
  unfolding avl_first next_of
  avl_next i = elim i.current [ none ↦ avl_first i.tree | some t ↦ next_of i.tree i.stack t ]

  unfoldable pub size : Tree A → ℕ
  size leaf = 0
  size (node l p b r) = suc (size l + size r)

  -- The values that the rounds of `for (entry = avl_first(…); entry; entry = avl_next(…))` see;
  -- `none` if `fuel` tests of `entry` do not end the loop.
  unfoldable pub items_from : ℕ → Iterator A → Option (List A)
  unfolding avl_next
  items_from zero i = none
  items_from (suc fuel) i = elim i.current [
    | none ↦ some []
    | some leaf ↦ some []
    | some (node l p b r) ↦ elim (items_from fuel (avl_next i)) [
      | none ↦ none
      | some items ↦ some (p ∷ items)
    ]
  ]

  abbrev pub items_or_none : Option (List A) → List A
  items_or_none none = []
  items_or_none (some items) = items

  -- One test more than there are nodes is enough: see `Walk`.
  unfoldable pub avl_items : Tree A → List A
  unfolding items_from avl_first size
  avl_items t = items_or_none (items_from (suc (size t)) (avl_first t))
