-- ===== src/Avl/Search.antt =====
-- Searching and inserting do what they do in a sorted list.
use fapolicyd.Prelude.{
  ◌≡◌, ◌↔◌, refl, sym, ◌∙◌, true, none, some, ◌⊎◌, inl, inr, List, [], ◌∷◌, arith, Option-cases,
  ◌≢◌,
}
use fapolicyd.Prelude.Int.{Cmp, less, equal, greater}
use fapolicyd.Prelude.Compare.{IsOrder}
use fapolicyd.Avl.{Tree, leaf, node, avl_search, graft, insert_at, avl_insert}
use fapolicyd.Avl.Order.{
  All, to_list, rebalance-to_list, Sorted, insert_sorted, find_equal, Sorted-split, below-greater,
  below-equal, above-less, insert_sorted-past, insert_sorted-before, find_equal-past,
  find_equal-above, find_equal-append,
}

pub Cmp-cases : (c : Cmp) → (c ≡ less) ⊎ (c ≡ equal) ⊎ (c ≡ greater)
Cmp-cases less = inl refl
Cmp-cases equal = inr (inl refl)
Cmp-cases greater = inr (inr refl)

module _ {A : Type 0} {cmp : A → A → Cmp} (o : IsOrder cmp) where
  -- In an ordered tree the search finds what a search through all its values finds.
  pub avl_search-find_equal :
      (item : A) (t : Tree A)
      → Sorted cmp (to_list t)
      → avl_search cmp item t ≡ find_equal cmp item (to_list t)
  unfolding avl_search find_equal
  avl_search-find_equal item leaf s = refl
  avl_search-find_equal item (node l p b r) s =
      let (sl, lp, sr, rp) = Sorted-split o (to_list l) (to_list r) p s in
      elim (Cmp-cases (cmp item p)) [
        | inl e ↦ ground (
          arith,
          avl_search-find_equal item l sl,
          find_equal-append o item (to_list l) (p ∷ to_list r),
          find_equal-above o item (to_list r) (above-less o item p e (to_list r) rp),
        )
        | inr (inl e) ↦ ground (
          arith,
          find_equal-past o item (to_list l) (p ∷ to_list r)
              (below-equal o item p e (to_list l) lp),
        )
        | inr (inr e) ↦ ground (
          arith,
          avl_search-find_equal item r sr,
          find_equal-past o item (to_list l) (p ∷ to_list r)
              (below-greater o item p e (to_list l) lp),
        )
      ]

  -- The new leaf goes where a sorted list takes the value, whatever becomes of the balance factors.
  graft-to_list :
      (item : A) (t : Tree A)
      → Sorted cmp (to_list t)
      → avl_search cmp item t ≡ none
      → to_list (graft cmp item t) ≡ insert_sorted cmp item (to_list t)
  unfolding graft avl_search insert_sorted
  graft-to_list item leaf s h = refl
  graft-to_list item (node l p b r) s h =
      let (sl, lp, sr, rp) = Sorted-split o (to_list l) (to_list r) p s in
      elim (Cmp-cases (cmp item p)) [
        | inl e ↦ ground (
          arith,
          graft-to_list item l sl,
          insert_sorted-before o item p (to_list l) (to_list r) e,
        )
        | inr (inl e) ↦ ground arith
        | inr (inr e) ↦ ground (
          arith,
          graft-to_list item r sr,
          insert_sorted-past o item (to_list l) (p ∷ to_list r)
              (below-greater o item p e (to_list l) lp),
        )
      ]

  pub insert_at-to_list :
      (item : A) (t : Tree A)
      → Sorted cmp (to_list t)
      → avl_search cmp item t ≡ none
      → to_list (insert_at cmp item t) ≡ insert_sorted cmp item (to_list t)
  unfolding insert_at avl_search insert_sorted
  insert_at-to_list item leaf s h = refl
  insert_at-to_list item (node l p b r) s h =
      let (sl, lp, sr, rp) = Sorted-split o (to_list l) (to_list r) p s in
      let grafted =
        rebalance-to_list (graft cmp item (node l p b r)) ∙ graft-to_list item (node l p b r) s h in
      elim (Cmp-cases (cmp item p)) [
        | inl e ↦ ground (
          arith,
          grafted,
          insert_at-to_list item l sl,
          insert_sorted-before o item p (to_list l) (to_list r) e,
        )
        | inr (inl e) ↦ ground arith
        | inr (inr e) ↦ ground (
          arith,
          grafted,
          insert_at-to_list item r sr,
          insert_sorted-past o item (to_list l) (p ∷ to_list r)
              (below-greater o item p e (to_list l) lp),
        )
      ]

  insert_sorted-greater :
      (item x : A) (xs : List A)
      → cmp item x ≡ greater
      → insert_sorted cmp item (x ∷ xs) ≡ x ∷ insert_sorted cmp item xs
  unfolding insert_sorted
  insert_sorted-greater item x xs e = ground arith

  insert_sorted-ne_greater :
      (item x : A) (xs : List A)
      → cmp item x ≢ greater
      → insert_sorted cmp item (x ∷ xs) ≡ item ∷ x ∷ xs
  unfolding insert_sorted
  insert_sorted-ne_greater item x xs e = ground arith

  insert_sorted-All :
      (P : A → Type 0) (item : A) (xs : List A)
      → P item
      → All P xs
      → All P (insert_sorted cmp item xs)
  unfolding insert_sorted
  insert_sorted-All P item [] q h = (q, tt)
  insert_sorted-All P item (x ∷ xs) q h = elim (Cmp-cases (cmp item x)) [
    | inl e ↦ rw (insert_sorted-ne_greater item x xs (λ g. ground arith)) (q, h)
    | inr (inl e) ↦ rw (insert_sorted-ne_greater item x xs (λ g. ground arith)) (q, h)
    | inr (inr e) ↦ rw (insert_sorted-greater item x xs e) (h.0, insert_sorted-All P item xs q h.1)
  ]

  insert_sorted-Sorted :
      (item : A) (xs : List A)
      → Sorted cmp xs
      → find_equal cmp item xs ≡ none
      → Sorted cmp (insert_sorted cmp item xs)
  unfolding insert_sorted find_equal
  insert_sorted-Sorted item [] s h = (tt, tt)
  insert_sorted-Sorted item (x ∷ xs) s h = elim (Cmp-cases (cmp item x)) [
    | inl e ↦
        rw (insert_sorted-ne_greater item x xs (λ g. ground arith))
          ((e, above-less o item x e xs s.0), s)
    | inr (inl e) ↦ absurd (ground arith)
    | inr (inr e) ↦ rw (insert_sorted-greater item x xs e) (
      insert_sorted-All (λ y. cmp x y ≡ less) item xs (o.cmp_flip' item x e) s.0,
      insert_sorted-Sorted item xs s.1 (ground arith),
    )
  ]

  equal-ne-greater : (k x item : A) → cmp k x ≡ equal → cmp item x ≡ greater → cmp k item ≡ less
  equal-ne-greater k x item e g = o.cmp_flip' item k (rw (o.cmp_eq k x e) g)

  find_equal-insert_sorted :
      (k item : A) (xs : List A)
      → find_equal cmp k (insert_sorted cmp item xs)
        ≡ elim (cmp k item) [ equal ↦ some item | _ ↦ find_equal cmp k xs ]
  unfolding insert_sorted find_equal
  find_equal-insert_sorted k item [] = refl
  find_equal-insert_sorted k item (x ∷ xs) =
      ground (arith, find_equal-insert_sorted k item xs, equal-ne-greater k x item)

  -- What a search finds compares equal, and so is the value that was looked for.
  pub avl_search-eq : (k q : A) (t : Tree A) → avl_search cmp k t ≡ some q → k ≡ q
  unfolding avl_search
  avl_search-eq k q leaf h = cc
  avl_search-eq k q (node l p b r) h =
      ground (arith, o.cmp_eq k p, avl_search-eq k q l, avl_search-eq k q r)

  search-insert_at :
      (item k : A) (t : Tree A)
      → Sorted cmp (to_list t)
      → avl_search cmp item t ≡ none
      → Sorted cmp (to_list (insert_at cmp item t))
        × (avl_search cmp k (insert_at cmp item t)
            ≡ elim (cmp k item) [ equal ↦ some item | _ ↦ avl_search cmp k t ])
  search-insert_at item k t s h =
      let e = insert_at-to_list item t s h in
      let s' : Sorted cmp (to_list (insert_at cmp item t)) =
        rw e (insert_sorted-Sorted item (to_list t) s (sym (avl_search-find_equal item t s) ∙ h)) in
      (
        s',
        ground (
          arith,
          e,
          avl_search-find_equal k (insert_at cmp item t) s',
          find_equal-insert_sorted k item (to_list t),
          avl_search-find_equal k t s,
        ),
      )

  search-found :
      (item k p : A) (t : Tree A)
      → avl_search cmp item t ≡ some p
      → avl_search cmp k t ≡ elim (cmp k item) [ equal ↦ some item | _ ↦ avl_search cmp k t ]
  search-found item k p t h = ground (arith, o.cmp_eq k item, avl_search-eq item p t h)

  -- In a tree that is sorted by an order, an insertion keeps the values in order and adds exactly
  -- the new value: every search finds what it found before, but a search for the value that was
  -- inserted finds it. The flag says whether the value was new.
  pub avl_insert_lem :
      (item k : A) (t : Tree A)
      → Sorted cmp (to_list t)
      → let (t', new) = avl_insert cmp item t in
        Sorted cmp (to_list t')
        × (avl_search cmp k t' ≡ elim (cmp k item) [ equal ↦ some item | _ ↦ avl_search cmp k t ])
        × ((new ≡ true) ↔ (avl_search cmp item t ≡ none))
  unfolding avl_insert
  avl_insert_lem item k t s = elim (Option-cases (avl_search cmp item t)) [
    | inl h ↦
        let (s', found) = search-insert_at item k t s h in
        rw (h, avl_insert) (s', found, ground arith)
    | inr (p, h) ↦ rw (h, avl_insert) (s, search-found item k p t h, ground arith)
  ]
