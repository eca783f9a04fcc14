-- ===== src/Avl/Walk.antt =====
-- The walks: the iterator and the recursive walks see every value once, from left to right.
use mathlib.Core.List.{append_assoc, append-nil}
use fapolicyd.Prelude.{
  ℕ, zero, suc, ◌+◌, ◌≡◌, ◌≢◌, ◌<◌, refl, sym, ap, ◌∙◌, Bool, true, false, ◌||◌, Option, none, some,
  List, [], ◌∷◌, ◌++◌, arith, length,
}
use fapolicyd.Prelude.Int.{ℤ, pos, negsuc, Cmp}
use fapolicyd.Avl.{
  Tree, leaf, node, Frame, Iterator, go_left, go_up, next_of, size, avl_first, items_from,
  items_or_none, avl_items, avl_search, avl_walker2, avl_intersection, avl_traverse,
}
use fapolicyd.Avl.Order.{to_list, length-to_list}

module _ {A : Type 0} where
  -- The values that are still to come once the subtree below the stack is done.
  abbrev above : List (Frame A) → List A
  above [] = []
  above (f ∷ stack) = elim f.went_right [
    | true ↦ above stack
    | false ↦ elim f.above [ leaf ↦ [] | node l p b r ↦ (p ∷ to_list r) ++ above stack ]
  ]

  -- The values from the current one on.
  abbrev pending : Iterator A → List A
  pending i = elim i.current [
    | none ↦ []
    | some leaf ↦ []
    | some (node l p b r) ↦ (p ∷ to_list r) ++ above i.stack
  ]

  go_left-pending :
      (whole : Tree A) (stack : List (Frame A)) (t : Tree A)
      → t ≢ leaf
      → pending (go_left whole stack t) ≡ to_list t ++ above stack
  unfolding go_left
  go_left-pending whole stack leaf h = absurd (h refl)
  go_left-pending whole stack (node leaf p b r) h = refl
  go_left-pending whole stack (node (node a x xb c) p b r) h =
      go_left-pending whole
        (record { above = node (node a x xb c) p b r; went_right = false } ∷ stack) (node a x xb c)
        (λ e. cc)
      ∙ sym (append_assoc (to_list (node a x xb c)) (p ∷ to_list r) (above stack))

  go_up-pending :
      (whole : Tree A) (stack : List (Frame A)) → pending (go_up whole stack) ≡ above stack
  unfolding go_up
  go_up-pending whole [] = refl
  go_up-pending whole (f ∷ stack) = go f.above f.went_right (go_up-pending whole stack)
    where
      go :
          (t : Tree A) (d : Bool)
          → pending (go_up whole stack) ≡ above stack
          → pending (go_up whole (record { above = t; went_right = d } ∷ stack))
            ≡ above (record { above = t; went_right = d } ∷ stack)
      go t true h = h
      go leaf false h = refl
      go (node l p b r) false h = refl

  next_of-pending :
      (whole : Tree A) (stack : List (Frame A)) (l : Tree A) (p : A) (b : ℤ) (r : Tree A)
      → pending (next_of whole stack (node l p b r)) ≡ to_list r ++ above stack
  unfolding next_of
  next_of-pending whole stack l p b leaf = go_up-pending whole stack
  next_of-pending whole stack l p b (node c x xb d) =
      go_left-pending whole
        (record { above = node l p b (node c x xb d); went_right = true } ∷ stack) (node c x xb d)
        (λ e. cc)

  items_from-pending :
      (fuel : ℕ) (whole : Tree A) (current : Option (Tree A)) (stack : List (Frame A))
      → let i : Iterator A = record { tree = whole; current = current; stack = stack } in
        length (pending i) < fuel → items_from fuel i ≡ some (pending i)
  unfolding items_from
  items_from-pending zero whole current stack h = absurd (omega arith)
  items_from-pending (suc fuel) whole none stack h = refl
  items_from-pending (suc fuel) whole (some leaf) stack h = refl
  items_from-pending (suc fuel) whole (some (node l p b r)) stack h =
      let i = next_of whole stack (node l p b r) in
      let e = next_of-pending whole stack l p b r in
      let rest =
        items_from-pending fuel i.tree i.current i.stack (rw e (omega arith)) ∙ ap some e in
      rw rest refl

  items_from-first :
      (t : Tree A) (fuel : ℕ) → size t < fuel → items_from fuel (avl_first t) ≡ some (to_list t)
  unfolding avl_first items_from size
  items_from-first leaf zero h = absurd (omega arith)
  items_from-first leaf (suc fuel) h = refl
  items_from-first (node l p b r) fuel h =
      let t = node l p b r in
      let i = go_left t [] t in
      let e = go_left-pending t [] t (λ c. cc) ∙ append-nil (to_list t) in
      items_from-pending fuel i.tree i.current i.stack (rw e (omega (arith, length-to_list t)))
      ∙ ap some e

  -- The loop over `avl_first` and `avl_next` ends: any number of tests of the current entry that is
  -- above the number of nodes is enough. It sees the values of the tree from left to right, and these
  -- are what `avl_items` gives.
  pub avl_items-to_list :
      (t : Tree A) (fuel : ℕ)
      → size t < fuel
      → (items_from fuel (avl_first t) ≡ some (to_list t)) × (avl_items t ≡ to_list t)
  unfolding avl_items
  avl_items-to_list t fuel h = (
    items_from-first t fuel h,
    ap items_or_none (items_from-first t (suc (size t)) (omega arith)),
  )

  -- `avl_traverse` calls back for each value from left to right, until one call is negative.
  unfoldable pub traverse_list : (A → ℤ) → List A → ℤ
  traverse_list f [] = pos 0
  traverse_list f (x ∷ xs) = elim (f x) [
    | negsuc n ↦ negsuc n
    | pos a ↦ elim (traverse_list f xs) [ negsuc n ↦ negsuc n | pos c ↦ pos (a + c) ]
  ]

  traverse_list-append :
      (f : A → ℤ) (xs ys : List A)
      → traverse_list f (xs ++ ys) ≡ elim (traverse_list f xs) [
        | negsuc n ↦ negsuc n
        | pos a ↦ elim (traverse_list f ys) [ negsuc n ↦ negsuc n | pos c ↦ pos (a + c) ]
      ]
  unfolding traverse_list
  traverse_list-append f [] ys = ground arith
  traverse_list-append f (x ∷ xs) ys = ground (arith, traverse_list-append f xs ys)

  pub avl_traverse_lem : (f : A → ℤ) (t : Tree A) → avl_traverse f t ≡ traverse_list f (to_list t)
  unfolding avl_traverse traverse_list
  avl_traverse_lem f leaf = refl
  avl_traverse_lem f (node l p b r) = ground (
    arith,
    traverse_list-append f (to_list l) (p ∷ to_list r),
    avl_traverse_lem f l,
    avl_traverse_lem f r,
  )

  unfoldable pub any : (A → Bool) → List A → Bool
  any f [] = false
  any f (x ∷ xs) = f x || any f xs

  pub any-append : (f : A → Bool) (xs ys : List A) → any f (xs ++ ys) ≡ (any f xs || any f ys)
  unfolding any
  any-append f [] ys = refl
  any-append f (x ∷ xs) ys = ground (arith, any-append f xs ys)

  any-false : (xs : List A) → any (λ x. false) xs ≡ false
  unfolding any
  any-false [] = refl
  any-false (x ∷ xs) = any-false xs

abbrev pub is_some {ℓ} : {A : Type ℓ} → Option A → Bool
is_some none = false
is_some (some x) = true

module _ {A : Type 0} (cmp : A → A → Cmp) where
  avl_walker2-any :
      (t haystack : Tree A)
      → avl_walker2 cmp t haystack ≡ any (λ x. is_some (avl_search cmp x haystack)) (to_list t)
  unfolding avl_walker2 any
  avl_walker2-any leaf haystack = refl
  avl_walker2-any (node l p b r) haystack = ground (
    arith,
    any-append (λ x. is_some (avl_search cmp x haystack)) (to_list l) (p ∷ to_list r),
    avl_walker2-any l haystack,
    avl_walker2-any r haystack,
  )

  -- Two trees intersect exactly if a search for some value of the needle finds one in the haystack.
  pub avl_intersection-any :
      (needle haystack : Tree A)
      → avl_intersection cmp needle haystack
        ≡ any (λ x. is_some (avl_search cmp x haystack)) (to_list needle)
  unfolding avl_intersection any
  avl_intersection-any leaf haystack = refl
  avl_intersection-any (node l p b r) leaf =
      sym (unfold avl_search in any-false (to_list (node l p b r)))
  avl_intersection-any (node l p b r) (node a x xb c) =
      avl_walker2-any (node l p b r) (node a x xb c)
