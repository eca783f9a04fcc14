-- ===== src/Lru/Inv.antt =====
-- The invariant of the cache: each node of the pool is either free or in the list, and the slots of
-- the table hold the nodes of the list, each once.
use fapolicyd.Prelude.{
  ℕ, zero, suc, ◌+◌, ◌≡◌, ◌≢◌, ◌≤◌, ◌<◌, refl, Bool, true, Option, none, some, List, [], ◌∷◌, arith,
  length, length-replicate, get_or, set, replicate, ltb, ◌==◌, if◌then◌else◌, Bool-cases, inl, inr,
}
use fapolicyd.Prelude.Words.{u32_mod}
use fapolicyd.Prelude.Arrays.{used, used-replicate}
use fapolicyd.Lru.{Lru, same_node, unlinked, unused_node, free_from, init_lru}

abbrev pub weigh : Bool → ℕ
weigh b = if b then 1 else 0

-- How often a node stands in a list, and in how many slots.
unfoldable pub occ : ℕ → List ℕ → ℕ
occ n [] = 0
occ n (x ∷ xs) = weigh (x == n) + occ n xs

unfoldable pub held : ℕ → List (Option ℕ) → ℕ
held n [] = 0
held n (x ∷ xs) = weigh (same_node x (some n)) + held n xs

pub record IsValid {A : Type 0} (q : Lru A) : Type 0 where
  pub slots : length q.array ≡ q.total
  pub pooled : length q.pool ≡ q.total
  pub small : q.total < u32_mod
  pub counted : q.count ≡ length q.nodes
  pub filled : used q.array ≡ q.count
  pub room : length q.nodes + length q.free_list ≡ q.total
  pub linked : (n : ℕ) → held n q.array ≡ occ n q.nodes
  pub owned : (n : ℕ) → occ n q.nodes + occ n q.free_list ≡ weigh (ltb n q.total)

pub held-set :
    (n : ℕ) (xs : List (Option ℕ)) (i : ℕ) (v : Option ℕ)
    → i < length xs
    → held n (set xs i v) + weigh (same_node (get_or xs i none) (some n))
      ≡ held n xs + weigh (same_node v (some n))
unfolding held
held-set n [] i v h = absurd (omega arith)
held-set n (x ∷ xs) zero v h = omega arith
held-set n (x ∷ xs) (suc i) v h = omega (arith, held-set n xs i v (omega arith))

-- A slot counts among those that hold its node.
pub held-at :
    (n : ℕ) (xs : List (Option ℕ)) (i : ℕ)
    → same_node (get_or xs i none) (some n) ≡ true
    → 0 < held n xs
unfolding held
held-at n [] i h = absurd (ground arith)
held-at n (x ∷ xs) zero h = ground arith
held-at n (x ∷ xs) (suc i) h = ground (arith, held-at n xs i)

-- Two slots that hold a node are counted twice.
pub held_twice :
    (n : ℕ) (xs : List (Option ℕ)) (i j : ℕ)
    → i ≢ j
    → same_node (get_or xs i none) (some n) ≡ true
    → same_node (get_or xs j none) (some n) ≡ true
    → 1 < held n xs
unfolding held
held_twice n [] i j d h k = absurd (ground arith)
held_twice n (x ∷ xs) zero zero d h k = absurd (d refl)
held_twice n (x ∷ xs) zero (suc j) d h k = ground (arith, held-at n xs j)
held_twice n (x ∷ xs) (suc i) zero d h k = ground (arith, held-at n xs i)
held_twice n (x ∷ xs) (suc i) (suc j) d h k = ground (arith, held_twice n xs i j)

pub occ-unlinked :
    (m n : ℕ) (xs : List ℕ)
    → 0 < occ n xs
    → (occ m (unlinked n xs) + weigh (n == m) ≡ occ m xs) × (length (unlinked n xs) + 1 ≡ length xs)
unfolding occ unlinked
occ-unlinked m n [] h = absurd (omega arith)
occ-unlinked m n (x ∷ xs) h = elim (Bool-cases (x == n)) [
  | inl e ↦ ground (arith, e)
  | inr e ↦ ground (arith, e, occ-unlinked m n xs)
]

-- Slots that are all used leave none empty.
pub used_full :
    (xs : List (Option ℕ)) (i : ℕ) → used xs ≡ length xs → i < length xs → get_or xs i none ≢ none
used_full [] i h l = absurd (omega arith)
used_full (none ∷ xs) i h l = absurd (omega (arith, used-le xs))
  where
    used-le : (xs : List (Option ℕ)) → used xs ≤ length xs
    used-le [] = omega arith
    used-le (none ∷ xs) = omega (arith, used-le xs)
    used-le (some x ∷ xs) = omega (arith, used-le xs)
used_full (some x ∷ xs) zero h l = λ e. cc
used_full (some x ∷ xs) (suc i) h l = used_full xs i (omega arith) (omega arith)

occ-free_from :
    (m i n : ℕ) (free : List ℕ)
    → (occ m (free_from i n free) ≡ occ m free + (if ltb m i then 0 else weigh (ltb m (i + n))))
      × (length (free_from i n free) ≡ length free + n)
unfolding occ free_from
occ-free_from m i zero free = ground arith
occ-free_from m i (suc n) free = ground (arith, occ-free_from m (i + 1) n (i ∷ free))

held-replicate : (m n : ℕ) → held m (replicate n none) ≡ 0
unfolding held
held-replicate m zero = refl
held-replicate m (suc n) = omega (arith, held-replicate m n)

module _ {A : Type 0} where
  pub init_lru-IsValid : (qsize : ℕ) → qsize < u32_mod → IsValid (init_lru {A = A} qsize)
  unfolding init_lru occ
  init_lru-IsValid n h = record {
    slots = length-replicate n none;
    pooled = length-replicate n unused_node;
    small = h;
    counted = refl;
    filled = used-replicate ℕ n;
    room = omega (arith, occ-free_from 0 0 n []);
    linked = λ m. held-replicate m n;
    owned = λ m. ground (arith, occ-free_from m 0 n []);
  }
