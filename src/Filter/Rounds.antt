-- ===== src/Filter/Rounds.antt =====
-- The loop of `filter_check` over its stack, against the recursion on the tree.
use fapolicyd.Prelude.{
  ℕ, zero, suc, ◌+◌, ◌≡◌, ◌≤◌, ◌<◌, refl, sym, subst, ◌∙◌, ◌-◌, ap, Bool, true, false, not, ◌||◌,
  Option, none, some, List, [], ◌∷◌, arith, if◌then◌else◌, Bool-cases, inl, inr, take,
}
use fapolicyd.Prelude.Bytes.{Bytes}
use fapolicyd.Filter.{
  FilterType, Filter, Filters, filter_node, deny, filter_count_nodes, count_list, normalize,
  has_parent, Match, overrun, miss, hit, Walk, fault, decided, passed, StackItem, fresh, push_list,
  Round, stop, go_on, pushed, bind_round, leaf_decides, fallback, after_match, pop_processed,
  settle, match_filter, walk_round, walk, filter_check,
}
use fapolicyd.Filter.Parents.{names_parent, has_parent-names_parent, names_parent-normalize}
use fapolicyd.Filter.Decide.{
  or_else, judge, decide, decide_first, item_says, stack_says, weight, pending, IsClean,
  or_else_assoc, count_pos, push_list_lem,
}

-- A round that goes on leaves what the stack says, within the capacity and with at most some nodes
-- to walk_round; one that stops has said it.
abbrev Keeps : (Bytes → Bytes → Bool) → Bytes → ℕ → ℕ → Walk → Round → Type 0
Keeps m path capacity n w (stop w') = w' ≡ w
Keeps m path capacity n w (go_on s) =
    (weight s ≤ capacity) × (pending s ≤ n) × IsClean s × (stack_says m path s ≡ w)

Keeps-pushed :
    (m : Bytes → Bytes → Bool) (path : Bytes) (capacity offset n : ℕ) (fs : Filters)
    (s : List StackItem) (w : Walk)
    → weight s + count_list fs ≤ capacity
    → pending s + count_list fs ≤ n
    → IsClean s
    → or_else (decide_first m path fs offset) (stack_says m path s) ≡ w
    → Keeps m path capacity n w (pushed (push_list capacity offset fs s))
Keeps-pushed m path capacity offset n fs s w h k cl e =
    let p = push_list_lem m path capacity offset fs s h cl in
    rw p.1 (omega (arith, p.2), omega (arith, p.3), p.4, p.5 ∙ e)

after_match-Keeps :
    (m : Bytes → Bytes → Bool) (path : Bytes) (capacity offset n : ℕ) (t : FilterType)
    (rule : Bytes) (fs : Filters) (s : List StackItem) (r : Match)
    → suc (count_list fs + weight s) ≤ capacity
    → count_list fs + pending s ≤ n
    → IsClean s
    → Keeps m path capacity n
        (or_else (judge path t rule fs (decide_first m path fs) r) (stack_says m path s))
        (after_match path capacity rule
          (record (fresh offset (filter_node t (some rule) fs)) { processed = true })
          s
          r)
unfolding weight pending stack_says IsClean
after_match-Keeps m path capacity offset n t rule fs s overrun h k cl = refl
after_match-Keeps m path capacity offset n t rule fs s miss h k cl =
    (omega arith, omega arith, (refl, cl), refl)
after_match-Keeps m path capacity offset n t rule fs s (hit at) h k cl =
    elim (Bool-cases (leaf_decides path rule at fs)) [
      | inl d ↦ simp d refl
      | inr d ↦ simp d (
          Keeps-pushed m path capacity at n fs _ _ (omega arith) (omega arith) (refl, cl)
            (sym (
              or_else_assoc (decide_first m path fs at) (fallback (filter_node t (some rule) fs))
                (stack_says m path s))))
    ]

walk_round-Keeps :
    (m : Bytes → Bytes → Bool) (path : Bytes) (capacity offset n : ℕ) (f : Filter)
    (s : List StackItem)
    → filter_count_nodes f + weight s ≤ capacity
    → filter_count_nodes f + pending s ≤ suc n
    → IsClean s
    → Keeps m path capacity n
        (or_else (decide m path f offset) (stack_says m path s))
        (walk_round m path capacity (fresh offset f) s)
unfolding walk_round decide filter_count_nodes weight pending stack_says IsClean
walk_round-Keeps m path capacity offset n (filter_node t none fs) s h k cl =
    Keeps-pushed m path capacity offset n fs _ _ (omega arith) (omega arith) (refl, cl) refl
walk_round-Keeps m path capacity offset n (filter_node t (some rule) fs) s h k cl =
    after_match-Keeps m path capacity offset n t rule fs s (match_filter m path rule offset)
      (omega arith) (omega arith) cl

-- The top of the stack is to be visited.
abbrev Ready : Round → Type 0
Ready (stop w) = Unit
Ready (go_on []) = Unit
Ready (go_on (item ∷ stack)) = item.processed ≡ false

settle-Keeps :
    (m : Bytes → Bytes → Bool) (path : Bytes) (capacity n : ℕ) (v w : Walk) (r : Round)
    → Keeps m path capacity n w r × Ready r
    → Keeps m path capacity n (or_else v w) (settle v r) × Ready (settle v r)
settle-Keeps m path capacity n fault w r h = (refl, tt)
settle-Keeps m path capacity n (decided rc) w r h = (refl, tt)
settle-Keeps m path capacity n passed w r h = h

Keeps-mono :
    (m : Bytes → Bytes → Bool) (path : Bytes) {c c' n n' : ℕ} (w : Walk) (r : Round)
    → c ≤ c'
    → n ≤ n'
    → Keeps m path c n w r
    → Keeps m path c' n' w r
Keeps-mono m path w (stop v) h k e = e
Keeps-mono m path w (go_on s) h k e = (omega arith, omega arith, e.2, e.3)

pop_processed-Keeps :
    (m : Bytes → Bytes → Bool) (path : Bytes) (capacity : ℕ) (s : List StackItem)
    → weight s ≤ capacity
    → IsClean s
    → Keeps m path capacity (pending s) (stack_says m path s) (pop_processed s)
      × Ready (pop_processed s)
unfolding pop_processed weight pending stack_says IsClean
pop_processed-Keeps m path capacity [] h cl = ((omega arith, omega arith, tt, refl), tt)
pop_processed-Keeps m path capacity (i ∷ s) h cl = elim (Bool-cases i.processed) [
  | inl p ↦
      let said = (if i.matched then fallback i.filter else passed) in
      let ih = pop_processed-Keeps m path capacity s (ground arith) cl.1 in
      simp p (
        settle-Keeps m path capacity (0 + pending s) said (stack_says m path s) (pop_processed s) (
          Keeps-mono m path (stack_says m path s) (pop_processed s) (omega arith) (omega arith)
              ih.0,
          ih.1,
        ))
  | inr p ↦ simp p ((ground arith, omega arith, (ground arith, cl.1), refl), refl)
]

bind_round-Keeps :
    (m : Bytes → Bytes → Bool) (path : Bytes) (c n : ℕ) (w : Walk) (r : Round)
    (f : List StackItem → Option Walk)
    → Keeps m path c n w r
    → ((s : List StackItem)
        → r ≡ go_on s
        → weight s ≤ c
        → pending s ≤ n
        → IsClean s
        → f s ≡ some (stack_says m path s))
    → bind_round r f ≡ some w
bind_round-Keeps m path c n w (stop v) f h g = ap some h
bind_round-Keeps m path c n w (go_on s) f h g = g s refl h.0 h.1 h.2 ∙ ap some h.3

fresh_of :
    (i : StackItem)
    → i.processed ≡ false
    → (i.processed || not i.matched) ≡ true
    → i ≡ fresh i.offset i.filter
fresh_of i r c = ground arith

-- A walk_round and the popping after it.
round_lem :
    (m : Bytes → Bytes → Bool) (path : Bytes) (capacity n offset : ℕ) (f : Filter)
    (s : List StackItem) (next_round : List StackItem → Option Walk)
    → filter_count_nodes f + weight s ≤ capacity
    → filter_count_nodes f + pending s ≤ suc n
    → IsClean s
    → ((s' : List StackItem)
        → Ready (go_on s')
        → weight s' ≤ capacity
        → pending s' ≤ n
        → IsClean s'
        → next_round s' ≡ some (stack_says m path s'))
    → bind_round
        (walk_round m path capacity (fresh offset f) s)
        (λ s'. bind_round (pop_processed s') next_round)
      ≡ some (or_else (decide m path f offset) (stack_says m path s))
round_lem m path capacity n offset f s next_round h k cl g =
    bind_round-Keeps m path capacity n (or_else (decide m path f offset) (stack_says m path s))
      (walk_round m path capacity (fresh offset f) s)
      (λ s'. bind_round (pop_processed s') next_round)
      (walk_round-Keeps m path capacity offset n f s h k cl)
      λ s' e hw hp hc.
        let p = pop_processed-Keeps m path capacity s' hw hc in
        bind_round-Keeps m path capacity (pending s') (stack_says m path s') (pop_processed s')
          next_round p.0 (λ t e' tw tp tc. g t (subst Ready e' p.1) tw (omega arith) tc)

-- A stack whose top is to be visited, or that is empty, comes to what it says within as many rounds
-- as there are nodes to walk_round, and one more.
walk_lem :
    (m : Bytes → Bytes → Bool) (path : Bytes) (capacity fuel : ℕ) (s : List StackItem)
    → Ready (go_on s)
    → weight s ≤ capacity
    → pending s < fuel
    → IsClean s
    → walk m fuel path capacity s ≡ some (stack_says m path s)
unfolding walk weight pending stack_says IsClean
walk_lem m path capacity zero s r h k cl = elim k [ ]
walk_lem m path capacity (suc fuel) [] r h k cl = refl
walk_lem m path capacity (suc fuel) (i ∷ s) r h k cl =
    let said = λ (item : StackItem).
      bind_round (walk_round m path capacity item s)
        (λ s'. bind_round (pop_processed s') (walk m fuel path capacity))
      ≡ some (or_else (item_says m path item) (stack_says m path s)) in
    subst said (sym (fresh_of i r cl.0)) (
      round_lem m path capacity (pending (i ∷ s) - 1) i.offset i.filter s
        (walk m fuel path capacity) (ground arith) (ground arith) cl.1
        (λ s' ready w p c.
          walk_lem m path capacity fuel s' ready w (ground (arith, count_pos i.filter)) c))

parents-normalize :
    (path : Bytes) → has_parent (normalize 0 (take 4096 path)) ≡ names_parent (take 4096 path)
parents-normalize path =
    has_parent-names_parent (normalize 0 (take 4096 path)) ∙ names_parent-normalize (take 4096 path)

-- Whatever the path and the filters, `filter_check` comes to an end within its fuel and its
-- capacity. A path with a component `..` is denied; else the filters decide as the recursion on their
-- tree says of the path without doubled separators, and if they say nothing the path is denied.
pub filter_check-decide :
    (m : Bytes → Bytes → Bool) (root : Filter) (path_ : Bytes)
    → filter_check m (some root) true (some path_) ≡ (
        let path = normalize 0 (take 4096 path_) in
        some (
          if names_parent (take 4096 path_)
          then decided deny
          else or_else (decide m path root 0) (decided deny)))
unfolding filter_check weight pending stack_says IsClean
filter_check-decide m root path_ =
    let path = normalize 0 (take 4096 path_) in
    let n = filter_count_nodes root in
    rw (← parents-normalize path_) (elim (Bool-cases (has_parent path)) [
      | inl p ↦ simp p refl
      | inr p ↦ simp p (
          walk_lem m path n (suc n) (fresh 0 root ∷ []) refl (omega arith) (omega arith) (refl, tt))
    ])
