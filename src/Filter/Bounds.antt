-- ===== src/Filter/Bounds.antt =====
-- Filters with which `filter_check` reads no byte past the end of the path, nor before a rule.
use fapolicyd.Prelude.{
  ℕ, suc, ◌+◌, ◌≡◌, ◌≤◌, refl, ap, Bool, true, false, not, ◌&&◌, ◌||◌, Option, none, some, [], ◌∷◌,
  arith, length, drop, ◌==◌, length-drop, Bool-cases, Option-cases, inl, inr, ◌⊎◌, take,
}
use fapolicyd.Prelude.Bytes.{Bytes, has_prefix}
use fapolicyd.Filter.{
  FilterType, Filter, Filters, filter_node, no_filters, next_filter, deny, allow, err_depth,
  add_rule, normalize, has_wildcard, find_slash, is_empty, limits, Match, miss, hit, Walk, fault,
  decided, passed, ends_in_slash, leaf_decides, fallback, decision_of, match_filter, filter_check,
}
use fapolicyd.Filter.Parents.{names_parent}
use fapolicyd.Filter.Decide.{or_else, judge, decide, decide_first}
use fapolicyd.Filter.Rounds.{filter_check-decide}

abbrev is_leaf : Filters → Bool
is_leaf no_filters = true
is_leaf (next_filter f fs) = false

abbrev is_slashed : Option Bool → Bool
is_slashed none = true
is_slashed (some slash) = slash

-- A rule has a path; and if that has a wildcard, it names no directory and stands above no rule.
unfoldable rule_is_sound : Bytes → Filters → Bool
unfolding has_wildcard ends_in_slash
rule_is_sound rule fs =
    not (is_empty rule)
    && (not (has_wildcard rule) || is_leaf fs && not (is_slashed (ends_in_slash rule)))

unfoldable mutual
  unfolding rule_is_sound

  pub is_sound : Filter → Bool
  is_sound (filter_node t none fs) = false
  is_sound (filter_node t (some rule) fs) = rule_is_sound rule fs && are_sound fs

  pub are_sound : Filters → Bool
  are_sound no_filters = true
  are_sound (next_filter f fs) = is_sound f && are_sound fs

limits-ends :
    (rule rest : Bytes) (pos old : ℕ)
    → is_slashed (ends_in_slash rule) ≡ false
    → (limits rule rest pos false old).0 ≡ false
unfolding limits ends_in_slash
limits-ends [] rest pos old h = refl
limits-ends (c ∷ []) rest pos old h = ground arith
limits-ends (c ∷ d ∷ s) rest pos old h = elim (Option-cases (find_slash rest)) [
  | inl e ↦ ground (arith, limits-ends (d ∷ s) rest pos old)
  | inr (k, e) ↦ ground (
    arith,
    limits-ends (d ∷ s) rest pos old,
    limits-ends (d ∷ s) (drop (suc k) rest) (suc (pos + k)) (pos + k),
  )
]

length-prefix : (rule rest : Bytes) → has_prefix rule rest ≡ true → length rule ≤ length rest
unfolding has_prefix
length-prefix [] rest h = omega arith
length-prefix (c ∷ s) [] h = cc
length-prefix (c ∷ s) (d ∷ rest) h = ground (arith, length-prefix s rest)

wildcard_sound :
    (path rule : Bytes) (fs : Filters)
    → rule_is_sound rule fs ≡ true
    → has_wildcard rule ≡ true
    → (is_slashed (ends_in_slash rule) ≡ false) × ((at : ℕ) → leaf_decides path rule at fs ≡ true)
unfolding rule_is_sound
wildcard_sound path rule no_filters s w = (ground arith, λ at. ground arith)
wildcard_sound path rule (next_filter f fs) s w = absurd (ground arith)

-- A rule that is not empty has a last byte.
ends_in_slash_sound :
    (rule : Bytes) → is_empty rule ≡ false → (slash : Bool) × (ends_in_slash rule ≡ some slash)
unfolding ends_in_slash
ends_in_slash_sound [] h = absurd (ground arith)
ends_in_slash_sound (c ∷ []) h = (c == 47, refl)
ends_in_slash_sound (c ∷ d ∷ s) h = ends_in_slash_sound (d ∷ s) refl

-- The comparison of a sound rule is within the path, and so is the offset that it gives, but after
-- a wildcard, where no rule follows.
match_filter_sound :
    (m : Bytes → Bytes → Bool) (path rule : Bytes) (fs : Filters) (offset : ℕ)
    → rule_is_sound rule fs ≡ true
    → offset ≤ length path
    → (match_filter m path rule offset ≡ miss)
      ⊎ ((at : ℕ) × (match_filter m path rule offset ≡ hit at)
          × ((leaf_decides path rule at fs ≡ true) ⊎ (at ≤ length path)))
unfolding match_filter rule_is_sound
match_filter_sound m path rule fs offset s h = elim (Bool-cases (has_wildcard rule)) [
  | inl w ↦
      let l = wildcard_sound path rule fs s w in
      let e = limits-ends rule (drop offset path) offset offset l.0 in
      elim (Bool-cases (m rule (drop offset path))) [
        | inl p ↦
            let at = (limits rule (drop offset path) offset false offset).1 + offset in
            inr (at, ground arith, inl (l.1 at))
        | inr p ↦ inl (ground arith)
      ]
  | inr w ↦ elim (Bool-cases (has_prefix rule (drop offset path))) [
    | inl p ↦ inr (
      offset + length rule,
      ground arith,
      inr (omega (arith, length-prefix rule (drop offset path) p, length-drop {0} offset path)),
    )
    | inr p ↦ inl (ground arith)
  ]
]

-- No fault, and no error.
abbrev Defined : Walk → Type 0
Defined fault = ⊥
Defined (decided err_depth) = ⊥
Defined _ = Unit

Defined-or_else : (v w : Walk) → Defined v → Defined w → Defined (or_else v w)
Defined-or_else fault w h k = h
Defined-or_else (decided rc) w h k = h
Defined-or_else passed w h k = k

Defined-decision_of : (t : FilterType) → Defined (decided (decision_of t))
Defined-decision_of add_rule = tt
Defined-decision_of _ = tt

Defined-fallback :
    (t : FilterType) (rule : Bytes) (fs : Filters)
    → rule_is_sound rule fs ≡ true
    → Defined (fallback (filter_node t (some rule) fs))
unfolding rule_is_sound
Defined-fallback t rule fs s =
    let (slash, e) = ends_in_slash_sound rule (ground arith) in
    elim (Bool-cases slash) [
      | inl p ↦ rw (e, p, Defined) (Defined-decision_of t)
      | inr p ↦ rw (e, p, Defined) tt
    ]

judge-Defined :
    (path : Bytes) (t : FilterType) (rule : Bytes) (fs : Filters) (below : ℕ → Walk) (r : Match)
    → rule_is_sound rule fs ≡ true
    → (r ≡ miss)
      ⊎ ((at : ℕ) × (r ≡ hit at) × ((leaf_decides path rule at fs ≡ true) ⊎ (at ≤ length path)))
    → ((at : ℕ) → at ≤ length path → Defined (below at))
    → Defined (judge path t rule fs below r)
judge-Defined path t rule fs below r s (inl e) b = rw (e, Defined) tt
judge-Defined path t rule fs below r s (inr (at, e, inl d)) b = simp (e, d) (Defined-decision_of t)
judge-Defined path t rule fs below r s (inr (at, e, inr k)) b =
    elim (Bool-cases (leaf_decides path rule at fs)) [
      | inl d ↦ simp (e, d) (Defined-decision_of t)
      | inr d ↦
          simp (e, d)
            (Defined-or_else (below at) (fallback (filter_node t (some rule) fs)) (b at k)
              (Defined-fallback t rule fs s))
    ]

mutual
  unfolding is_sound decide

  decide-Defined :
      (m : Bytes → Bytes → Bool) (path : Bytes) (f : Filter) (offset : ℕ)
      → is_sound f ≡ true
      → offset ≤ length path
      → Defined (decide m path f offset)
  decide-Defined m path (filter_node t none fs) offset s h = absurd (ground arith)
  decide-Defined m path (filter_node t (some rule) fs) offset s h =
      judge-Defined path t rule fs (decide_first m path fs) (match_filter m path rule offset)
        (ground arith) (match_filter_sound m path rule fs offset (ground arith) h)
        (λ at k. decide_first-Defined m path fs at (ground arith) k)

  decide_first-Defined :
      (m : Bytes → Bytes → Bool) (path : Bytes) (fs : Filters) (offset : ℕ)
      → are_sound fs ≡ true
      → offset ≤ length path
      → Defined (decide_first m path fs offset)
  decide_first-Defined m path no_filters offset s h = tt
  decide_first-Defined m path (next_filter f fs) offset s h =
      Defined-or_else (decide_first m path fs offset) (decide m path f offset)
        (decide_first-Defined m path fs offset (ground arith) h)
        (decide-Defined m path f offset (ground arith) h)

settled :
    (w : Walk)
    → Defined w
    → (or_else w (decided deny) ≡ decided allow) ⊎ (or_else w (decided deny) ≡ decided deny)
settled fault h = absurd h
settled (decided allow) h = inl refl
settled (decided deny) h = inr refl
settled (decided err_depth) h = absurd h
settled passed h = inr refl

-- With sound rules `filter_check` returns FILTER_ALLOW or FILTER_DENY for every path, and reads no
-- byte past the end of the path or before the start of a rule.
pub filter_check_sound :
    (m : Bytes → Bytes → Bool) (t : FilterType) (fs : Filters) (path : Bytes)
    → are_sound fs ≡ true
    → (filter_check m (some (filter_node t none fs)) true (some path) ≡ some (decided allow))
      ⊎ (filter_check m (some (filter_node t none fs)) true (some path) ≡ some (decided deny))
unfolding decide
filter_check_sound m t fs path s =
    let p = normalize 0 (take 4096 path) in
    rw (filter_check-decide m (filter_node t none fs) path)
      (elim (Bool-cases (names_parent (take 4096 path))) [
        | inl e ↦ simp e (inr refl)
        | inr e ↦
            simp e
              (elim (settled (decide_first m p fs 0)
                (decide_first-Defined m p fs 0 s (omega arith))) [
                  | inl a ↦ inl (ap some a)
                  | inr d ↦ inr (ap some d)
                ])
      ])
