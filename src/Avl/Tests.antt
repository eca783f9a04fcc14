-- ===== src/Avl/Tests.antt =====
-- Small trees of numbers, and the theorems at these inputs.
use fapolicyd.Prelude.{ℕ, ◌+◌, ◌≡◌, ◌≤◌, ◌↔◌, refl, true, none, some, [], ◌∷◌, arith}
use fapolicyd.Prelude.Int.{pos, cmp_ℕ, equal}
use fapolicyd.Prelude.Compare.{cmp_ℕ-IsOrder}
use fapolicyd.Avl.{
  Tree, leaf, node, avl_search, avl_insert, avl_items, avl_first, items_from, avl_intersection,
}
use fapolicyd.Avl.Order.{to_list, Sorted}
use fapolicyd.Avl.Search.{avl_insert_lem}
use fapolicyd.Avl.Balance.{height, IsBalanced, avl_insert-IsBalanced}
use fapolicyd.Avl.Walk.{avl_items-to_list, avl_intersection-any, any, is_some}

-- It leans to the right, so that 9 makes it turn.
abbrev leaning : Tree ℕ
leaning = node leaf 3 (pos 1) (node leaf 7 (pos 0) leaf)

abbrev turned : Tree ℕ
turned = node (node leaf 3 (pos 0) leaf) 7 (pos 0) (node leaf 9 (pos 0) leaf)

leaning-Sorted : Sorted cmp_ℕ (to_list leaning)
leaning-Sorted = ground arith

leaning-IsBalanced : IsBalanced leaning
leaning-IsBalanced = ground arith

insert_9 : avl_insert cmp_ℕ 9 leaning ≡ (turned, true)
unfolding avl_insert
insert_9 = refl

avl_insert_lem_example :
    let (t', new) = avl_insert cmp_ℕ 9 leaning in
    Sorted cmp_ℕ (to_list t')
    × (avl_search cmp_ℕ 9 t' ≡ elim (cmp_ℕ 9 9) [ equal ↦ some 9 | _ ↦ avl_search cmp_ℕ 9 leaning ])
    × ((new ≡ true) ↔ (avl_search cmp_ℕ 9 leaning ≡ none))
avl_insert_lem_example = avl_insert_lem cmp_ℕ-IsOrder 9 9 leaning leaning-Sorted

avl_insert-IsBalanced_example :
    let t' = (avl_insert cmp_ℕ 9 leaning).0 in
    IsBalanced t' × (height leaning ≤ height t') × (height t' ≤ height leaning + 1)
avl_insert-IsBalanced_example = avl_insert-IsBalanced cmp_ℕ 9 leaning leaning-IsBalanced

avl_items-to_list_example :
    (items_from 4 (avl_first turned) ≡ some (3 ∷ 7 ∷ 9 ∷ [])) × (avl_items turned ≡ 3 ∷ 7 ∷ 9 ∷ [])
unfolding fapolicyd.Avl.size
avl_items-to_list_example = avl_items-to_list turned 4 (omega arith)

avl_intersection-any_example :
    avl_intersection cmp_ℕ leaning turned
    ≡ any (λ x. is_some (avl_search cmp_ℕ x turned)) (3 ∷ 7 ∷ [])
avl_intersection-any_example = avl_intersection-any cmp_ℕ leaning turned
