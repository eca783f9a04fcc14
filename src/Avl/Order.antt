-- ===== src/Avl/Order.antt =====
-- The values of a tree from left to right, and what it means that they ascend.
use mathlib.Core.List.{append_assoc}
use fapolicyd.Prelude.{
  zero, suc, ◌≡◌, Option, none, some, refl, ap, List, [], ◌∷◌, ◌++◌, arith, length, length-append,
}
use fapolicyd.Prelude.Int.{pos, negsuc, Cmp, less, equal, greater}
use fapolicyd.Prelude.Compare.{IsOrder}
use fapolicyd.Avl.{Tree, leaf, node, rotate_left_high, rotate_right_high, rebalance, size}

abbrev pub All {ℓ κ} : {A : Type ℓ} → (A → Type κ) → List A → Type κ
All P [] = Unit
All P (x ∷ xs) = P x × All P xs

module _ {A : Type 0} where
  abbrev pub to_list : Tree A → List A
  to_list leaf = []
  to_list (node l p b r) = to_list l ++ p ∷ to_list r

  pub length-to_list : (t : Tree A) → length (to_list t) ≡ size t
  unfolding size
  length-to_list leaf = refl
  length-to_list (node l p b r) =
      omega (arith, length-append (to_list l) (p ∷ to_list r), length-to_list l, length-to_list r)

  rotate_left_high-to_list :
      (l : Tree A) (y : A) (r : Tree A)
      → to_list (rotate_left_high l y r) ≡ to_list l ++ y ∷ to_list r
  unfolding rotate_left_high
  rotate_left_high-to_list leaf y r = refl
  rotate_left_high-to_list (node a x xb leaf) y r =
      ground (arith, append_assoc (to_list a) (x ∷ []) (y ∷ to_list r))
  rotate_left_high-to_list (node a x xb (node wl w wb wr)) y r = ground (
    arith,
    append_assoc (to_list a) (x ∷ to_list wl ++ w ∷ to_list wr) (y ∷ to_list r),
    append_assoc (to_list a) (x ∷ to_list wl) (w ∷ to_list wr ++ y ∷ to_list r),
    append_assoc (to_list wl) (w ∷ to_list wr) (y ∷ to_list r),
  )

  rotate_right_high-to_list :
      (l : Tree A) (y : A) (r : Tree A)
      → to_list (rotate_right_high l y r) ≡ to_list l ++ y ∷ to_list r
  unfolding rotate_right_high
  rotate_right_high-to_list l y leaf = refl
  rotate_right_high-to_list l y (node leaf x xb c) =
      ground (arith, append_assoc (to_list l) (y ∷ []) (x ∷ to_list c))
  rotate_right_high-to_list l y (node (node wl w wb wr) x xb c) = ground (
    arith,
    append_assoc (to_list l) (y ∷ to_list wl ++ w ∷ to_list wr) (x ∷ to_list c),
    append_assoc (to_list l) (y ∷ to_list wl) (w ∷ to_list wr ++ x ∷ to_list c),
    append_assoc (to_list wl) (w ∷ to_list wr) (x ∷ to_list c),
  )

  -- A rotation never changes the order of the values.
  pub rebalance-to_list : (t : Tree A) → to_list (rebalance t) ≡ to_list t
  unfolding rebalance
  rebalance-to_list leaf = refl
  rebalance-to_list (node l y (negsuc (suc zero)) r) = rotate_left_high-to_list l y r
  rebalance-to_list (node l y (pos (suc (suc zero))) r) = rotate_right_high-to_list l y r
  rebalance-to_list (node l y b r) = refl

module _ {A : Type 0} (cmp : A → A → Cmp) where
  abbrev pub Sorted : List A → Type 0
  Sorted [] = Unit
  Sorted (x ∷ xs) = All (λ y. cmp x y ≡ less) xs × Sorted xs

  -- The plain sorted list with `item` in its place.
  unfoldable pub insert_sorted : A → List A → List A
  insert_sorted item [] = item ∷ []
  insert_sorted item (x ∷ xs) = elim (cmp item x) [
    | greater ↦ x ∷ insert_sorted item xs
    | _ ↦ item ∷ x ∷ xs
  ]

  -- The first of the values that compares equal.
  unfoldable pub find_equal : A → List A → Option A
  find_equal item [] = none
  find_equal item (x ∷ xs) = elim (cmp item x) [ equal ↦ some x | _ ↦ find_equal item xs ]

module _ {A : Type 0} {P Q : A → Type 0} where
  pub All-map : (f : (x : A) → P x → Q x) (xs : List A) → All P xs → All Q xs
  All-map f [] h = tt
  All-map f (x ∷ xs) h = (f x h.0, All-map f xs h.1)

module _ {A : Type 0} {cmp : A → A → Cmp} (o : IsOrder cmp) where
  -- What lies on either side of a value in a sorted list, and that the sides are sorted.
  pub Sorted-split :
      (xs ys : List A) (p : A)
      → Sorted cmp (xs ++ p ∷ ys)
      → Sorted cmp xs × All (λ x. cmp x p ≡ less) xs × Sorted cmp ys × All (λ y. cmp p y ≡ less) ys
  Sorted-split [] ys p h = (tt, tt, h.1, h.0)
  Sorted-split (x ∷ xs) ys p h =
      let (sx, lx, sy, ly) = Sorted-split xs ys p h.1 in
      let (bx, xp) = around xs h.0 in ((bx, sx), (xp, lx), sy, ly)
    where
      around :
          (xs : List A)
          → All (λ y. cmp x y ≡ less) (xs ++ p ∷ ys)
          → All (λ y. cmp x y ≡ less) xs × (cmp x p ≡ less)
      around [] a = (tt, a.0)
      around (z ∷ zs) a = let (r, e) = around zs a.1 in ((a.0, r), e)

  pub below-greater :
      (item p : A)
      → cmp item p ≡ greater
      → (xs : List A) → All (λ x. cmp x p ≡ less) xs
      → All (λ x. cmp item x ≡ greater) xs
  below-greater item p g xs h =
      All-map (λ x l. o.cmp_flip x item (o.cmp_trans x p item l (o.cmp_flip' item p g))) xs h

  pub below-equal :
      (item p : A)
      → cmp item p ≡ equal
      → (xs : List A) → All (λ x. cmp x p ≡ less) xs
      → All (λ x. cmp item x ≡ greater) xs
  below-equal item p e xs h = All-map (λ x l. o.cmp_flip x item (rw (o.cmp_eq item p e) l)) xs h

  pub above-less :
      (item p : A)
      → cmp item p ≡ less
      → (ys : List A) → All (λ y. cmp p y ≡ less) ys
      → All (λ y. cmp item y ≡ less) ys
  above-less item p l ys h = All-map (λ y k. o.cmp_trans item p y l k) ys h

  pub insert_sorted-past :
      (item : A) (xs ys : List A)
      → All (λ x. cmp item x ≡ greater) xs
      → insert_sorted cmp item (xs ++ ys) ≡ xs ++ insert_sorted cmp item ys
  unfolding insert_sorted
  insert_sorted-past item [] ys h = refl
  insert_sorted-past item (x ∷ xs) ys h =
      rw (h.0, ◌++◌) (ap (◌∷◌ x) (insert_sorted-past item xs ys h.1))

  pub insert_sorted-before :
      (item p : A) (xs ys : List A)
      → cmp item p ≡ less
      → insert_sorted cmp item (xs ++ p ∷ ys) ≡ insert_sorted cmp item xs ++ p ∷ ys
  unfolding insert_sorted
  insert_sorted-before item p [] ys h = ground arith
  insert_sorted-before item p (x ∷ xs) ys h = ground (arith, insert_sorted-before item p xs ys)

  pub find_equal-past :
      (item : A) (xs ys : List A)
      → All (λ x. cmp item x ≡ greater) xs
      → find_equal cmp item (xs ++ ys) ≡ find_equal cmp item ys
  unfolding find_equal
  find_equal-past item [] ys h = refl
  find_equal-past item (x ∷ xs) ys h = rw (h.0, find_equal) (find_equal-past item xs ys h.1)

  pub find_equal-above :
      (item : A) (ys : List A) → All (λ y. cmp item y ≡ less) ys → find_equal cmp item ys ≡ none
  unfolding find_equal
  find_equal-above item [] h = refl
  find_equal-above item (y ∷ ys) h = rw (h.0, find_equal) (find_equal-above item ys h.1)

  pub find_equal-append :
      (item : A) (xs ys : List A)
      → find_equal cmp item ys ≡ none
      → find_equal cmp item (xs ++ ys) ≡ find_equal cmp item xs
  unfolding find_equal
  find_equal-append item [] ys h = h
  find_equal-append item (x ∷ xs) ys h = ground (arith, find_equal-append item xs ys)
