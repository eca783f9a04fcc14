-- ===== src/Avl/Balance.antt =====
-- An insertion keeps the balance factors true and every tree balanced.
use fapolicyd.Prelude.{
  ℕ, zero, suc, ◌+◌, ◌≡◌, ◌≢◌, ◌≤◌, ◌<◌, refl, false, not, max, ◌⊎◌, inl, inr, arith, Bool-cases,
  if◌then◌else◌, ◌||◌,
}
use fapolicyd.Prelude.Int.{ℤ, pos, negsuc, suc_ℤ, pred_ℤ, Cmp, less, equal, greater}
use fapolicyd.Avl.{
  Tree, leaf, node, is_zero, rotate_left_high, rotate_right_high, rebalance, graft, is_tilted,
  insert_at, avl_insert,
}

-- `avl_balance` is the height of the right subtree less that of the left one.
abbrev pub Differs : ℤ → ℕ → ℕ → Type 0
Differs (pos n) hl hr = (hr ≡ hl + n) × (n ≤ 1)
Differs (negsuc n) hl hr = (hl ≡ hr + suc n) × (n ≤ 0)

module _ {A : Type 0} where
  abbrev pub height : Tree A → ℕ
  height leaf = 0
  height (node l p b r) = suc (max (height l) (height r))

  abbrev pub IsBalanced : Tree A → Type 0
  IsBalanced leaf = Unit
  IsBalanced (node l p b r) = IsBalanced l × IsBalanced r × Differs b (height l) (height r)

  -- The root leans to one side.
  abbrev Leans : Tree A → Type 0
  Leans leaf = Unit
  Leans (node l p b r) = is_zero b ≡ false

  rotate_left_high-IsBalanced :
      (l : Tree A) (y : A) (r : Tree A)
      → IsBalanced l
      → IsBalanced r
      → Leans l
      → height l ≡ height r + 2
      → IsBalanced (rotate_left_high l y r) × (height (rotate_left_high l y r) ≡ height l)
  unfolding rotate_left_high
  rotate_left_high-IsBalanced leaf y r bl br le h = absurd (omega arith)
  rotate_left_high-IsBalanced (node a x (negsuc zero) c) y r bl br le h = ground arith
  rotate_left_high-IsBalanced (node a x (negsuc (suc n)) c) y r bl br le h = absurd (omega arith)
  rotate_left_high-IsBalanced (node a x (pos zero) c) y r bl br le h = cc
  rotate_left_high-IsBalanced (node a x (pos (suc n)) leaf) y r bl br le h = absurd (omega arith)
  rotate_left_high-IsBalanced (node a x (pos (suc n)) (node wl w (negsuc zero) wr)) y r bl br le h =
      ground arith
  rotate_left_high-IsBalanced (node a x (pos (suc n)) (node wl w (negsuc (suc m)) wr)) y r bl br le
        h =
      absurd (omega arith)
  rotate_left_high-IsBalanced (node a x (pos (suc n)) (node wl w (pos zero) wr)) y r bl br le h =
      ground arith
  rotate_left_high-IsBalanced (node a x (pos (suc n)) (node wl w (pos (suc m)) wr)) y r bl br le h =
      ground arith

  rotate_right_high-IsBalanced :
      (l : Tree A) (y : A) (r : Tree A)
      → IsBalanced l
      → IsBalanced r
      → Leans r
      → height r ≡ height l + 2
      → IsBalanced (rotate_right_high l y r) × (height (rotate_right_high l y r) ≡ height r)
  unfolding rotate_right_high
  rotate_right_high-IsBalanced l y leaf bl br le h = absurd (omega arith)
  rotate_right_high-IsBalanced l y (node c x (pos zero) a) bl br le h = cc
  rotate_right_high-IsBalanced l y (node c x (pos (suc zero)) a) bl br le h = ground arith
  rotate_right_high-IsBalanced l y (node c x (pos (suc (suc n))) a) bl br le h =
      absurd (omega arith)
  rotate_right_high-IsBalanced l y (node leaf x (negsuc n) a) bl br le h = absurd (omega arith)
  rotate_right_high-IsBalanced l y (node (node wl w (negsuc m) wr) x (negsuc n) a) bl br le h =
      ground arith
  rotate_right_high-IsBalanced l y (node (node wl w (pos zero) wr) x (negsuc n) a) bl br le h =
      ground arith
  rotate_right_high-IsBalanced l y (node (node wl w (pos (suc zero)) wr) x (negsuc n) a) bl br le
        h =
      ground arith
  rotate_right_high-IsBalanced l y (node (node wl w (pos (suc (suc m))) wr) x (negsuc n) a) bl br le
        h =
      absurd (omega arith)

pub greater-cases : (c : Cmp) → (c ≡ greater) ⊎ (c ≢ greater)
greater-cases less = inr (λ e. cc)
greater-cases equal = inr (λ e. cc)
greater-cases greater = inl refl

-- The two ways down from a node.
module _ {A : Type 0} (cmp : A → A → Cmp) (item : A) (l : Tree A) (p : A) (b : ℤ) (r : Tree A) where
  graft-right :
      cmp item p ≡ greater → graft cmp item (node l p b r) ≡ node l p (suc_ℤ b) (graft cmp item r)
  unfolding graft
  graft-right e = ground arith

  graft-left :
      cmp item p ≢ greater → graft cmp item (node l p b r) ≡ node (graft cmp item l) p (pred_ℤ b) r
  unfolding graft
  graft-left e = ground arith

  insert_at-right :
      cmp item p ≡ greater
      → insert_at cmp item (node l p b r) ≡ (
          if is_tilted cmp item r
          then node l p b (insert_at cmp item r)
          else rebalance (node l p (suc_ℤ b) (graft cmp item r)))
  unfolding insert_at
  insert_at-right e = ground (arith, graft-right e)

  insert_at-left :
      cmp item p ≢ greater
      → insert_at cmp item (node l p b r) ≡ (
          if is_tilted cmp item l
          then node (insert_at cmp item l) p b r
          else rebalance (node (graft cmp item l) p (pred_ℤ b) r))
  unfolding insert_at
  insert_at-left e = ground (arith, graft-left e)

  is_tilted-right :
      cmp item p ≡ greater
      → is_tilted cmp item (node l p b r) ≡ (not (is_zero b) || is_tilted cmp item r)
  unfolding is_tilted
  is_tilted-right e = ground arith

  is_tilted-left :
      cmp item p ≢ greater
      → is_tilted cmp item (node l p b r) ≡ (not (is_zero b) || is_tilted cmp item l)
  unfolding is_tilted
  is_tilted-left e = ground arith

-- What grafting a leaf onto a tree with no node out of balance on the way does: the tree is
-- balanced still, higher by one, and leans to the side of the leaf.
abbrev Grown : {A : Type 0} → Tree A → Tree A → Type 0
Grown t t' = IsBalanced t' × (height t' ≡ height t + 1) × (0 < height t → Leans t')

module _ {A : Type 0} (cmp : A → A → Cmp) (item : A) where
  graft-Grown :
      (t : Tree A) → IsBalanced t → is_tilted cmp item t ≡ false → Grown t (graft cmp item t)
  unfolding graft is_tilted
  graft-Grown leaf g h = ground arith
  graft-Grown (node l p (pos zero) r) g h = elim (greater-cases (cmp item p)) [
    | inl e ↦
        rw (graft-right cmp item l p (pos 0) r e)
          (ground (arith, graft-Grown r, is_tilted-right cmp item l p (pos 0) r e))
    | inr e ↦
        rw (graft-left cmp item l p (pos 0) r e)
          (ground (arith, graft-Grown l, is_tilted-left cmp item l p (pos 0) r e))
  ]
  graft-Grown (node l p (pos (suc n)) r) g h = cc
  graft-Grown (node l p (negsuc n) r) g h = cc

  -- At the last node out of balance, or at the root, one of the subtrees has grown.
  right_Grown :
      (l : Tree A) (p : A) (b : ℤ) (r r' : Tree A)
      → IsBalanced (node l p b r)
      → Grown r r'
      → let t = rebalance (node l p (suc_ℤ b) r') in
        IsBalanced t
        × (height t ≡ (if is_zero b then height (node l p b r) + 1 else height (node l p b r)))
  unfolding rebalance
  right_Grown l p (pos zero) r r' g w = ground arith
  right_Grown l p (pos (suc zero)) r r' g w = ground (arith, rotate_right_high-IsBalanced l p r')
  right_Grown l p (pos (suc (suc n))) r r' g w = absurd (omega arith)
  right_Grown l p (negsuc zero) r r' g w = ground arith
  right_Grown l p (negsuc (suc n)) r r' g w = absurd (omega arith)

  left_Grown :
      (l l' : Tree A) (p : A) (b : ℤ) (r : Tree A)
      → IsBalanced (node l p b r)
      → Grown l l'
      → let t = rebalance (node l' p (pred_ℤ b) r) in
        IsBalanced t
        × (height t ≡ (if is_zero b then height (node l p b r) + 1 else height (node l p b r)))
  unfolding rebalance
  left_Grown l l' p (pos zero) r g w = ground arith
  left_Grown l l' p (pos (suc zero)) r g w = ground arith
  left_Grown l l' p (pos (suc (suc n))) r g w = absurd (omega arith)
  left_Grown l l' p (negsuc zero) r g w = ground (arith, rotate_left_high-IsBalanced l' p r)
  left_Grown l l' p (negsuc (suc n)) r g w = absurd (omega arith)

  -- The tree grows exactly if no node on the way was out of balance.
  insert_at-IsBalanced :
      (t : Tree A)
      → IsBalanced t
      → IsBalanced (insert_at cmp item t)
        × (height (insert_at cmp item t)
            ≡ (if is_tilted cmp item t then height t else height t + 1))
  unfolding insert_at is_tilted
  insert_at-IsBalanced leaf g = ground arith
  insert_at-IsBalanced (node l p b r) g = elim (greater-cases (cmp item p)) [
    | inl e ↦
        rw (insert_at-right cmp item l p b r e, is_tilted-right cmp item l p b r e)
          (elim (Bool-cases (is_tilted cmp item r)) [
            | inl t ↦ rw t (ground (arith, insert_at-IsBalanced r, t))
            | inr f ↦
                rw f
                  (ground (arith, right_Grown l p b r (graft cmp item r) g (graft-Grown r g.1 f)))
          ])
    | inr e ↦
        rw (insert_at-left cmp item l p b r e, is_tilted-left cmp item l p b r e)
          (elim (Bool-cases (is_tilted cmp item l)) [
            | inl t ↦ rw t (ground (arith, insert_at-IsBalanced l, t))
            | inr f ↦
                rw f (ground (arith, left_Grown l (graft cmp item l) p b r g (graft-Grown l g.0 f)))
          ])
  ]

  -- An insertion into a balanced tree with true balance factors leaves such a tree, and makes it
  -- higher by one at most.
  pub avl_insert-IsBalanced :
      (t : Tree A)
      → IsBalanced t
      → let t' = (avl_insert cmp item t).0 in
        IsBalanced t' × (height t ≤ height t') × (height t' ≤ height t + 1)
  unfolding avl_insert
  avl_insert-IsBalanced t g = ground (arith, insert_at-IsBalanced t g)
