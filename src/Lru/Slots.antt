-- ===== src/Lru/Slots.antt =====
-- What the cache promises: each slot holds one item at most, a lookup loses none, and an eviction
-- takes out the item of its own slot only.
use fapolicyd.Prelude.{
  ℕ, zero, suc, ◌≡◌, ◌≢◌, ◌<◌, refl, true, false, Option, none, some, List, [], ◌∷◌, arith, length,
  get_or, set, Bool-cases, inl, inr,
}
use fapolicyd.Prelude.Arrays.{get_or-set}
use fapolicyd.Lru.{Lru, QNode, same_node, unused_node}
use fapolicyd.Lru.Inv.{IsValid, occ, held-at, held_twice}

pub same_refl : (n : ℕ) → same_node (some n) (some n) ≡ true
same_refl n = ground arith

pub set_same : (xs : List (Option ℕ)) (i : ℕ) → set xs i (get_or xs i none) ≡ xs
set_same [] i = refl
set_same (x ∷ xs) zero = refl
set_same (x ∷ xs) (suc i) = rw (set_same xs i) refl

module _ {A : Type 0} where
  abbrev pub node_at : Lru A → ℕ → Option ℕ
  node_at q key = get_or q.array key none

  abbrev pub item_at : Lru A → Option ℕ → Option (Option A)
  item_at q none = none
  item_at q (some n) = some (get_or q.pool n unused_node).item

  -- The item of a slot; none where the slot has no node.
  abbrev pub cached : Lru A → ℕ → Option (Option A)
  cached q key = item_at q (node_at q key)

  -- A node of a slot is in the list, once, and it is in no other slot.
  pub node_in_list :
      (q : Lru A) (key n : ℕ) → IsValid q → node_at q key ≡ some n → occ n q.nodes ≡ 1
  node_in_list q key n v e =
      ground (arith, held-at n q.array key (rw (e) (same_refl n)), v.linked n, v.owned n)

  pub node_in_pool : (q : Lru A) (key n : ℕ) → IsValid q → node_at q key ≡ some n → n < q.total
  node_in_pool q key n v e = ground (arith, node_in_list q key n v e, v.owned n)

  pub node_elsewhere :
      (q : Lru A) (i j n : ℕ)
      → IsValid q
      → node_at q i ≡ some n
      → i ≢ j
      → same_node (node_at q j) (some n) ≡ false
  node_elsewhere q i j n v e d = elim (Bool-cases (same_node (node_at q j) (some n))) [
    | inl h ↦ absurd (
        omega (
          arith,
          held_twice n q.array i j d (rw (e) (same_refl n)) h,
          v.linked n,
          node_in_list q i n v e,
        ))
    | inr h ↦ h
  ]

  -- A free node is in no slot.
  pub node_free :
      (q : Lru A) (n : ℕ) (free : List ℕ) (j : ℕ)
      → IsValid q
      → q.free_list ≡ n ∷ free
      → same_node (node_at q j) (some n) ≡ false
  unfolding occ
  node_free q n free j v e = elim (Bool-cases (same_node (node_at q j) (some n))) [
    | inl h ↦ absurd (ground (arith, e, held-at n q.array j h, v.linked n, v.owned n))
    | inr h ↦ h
  ]

  -- Writing to a node changes the item of no slot that does not hold it.
  pub item_at-set :
      (q q' : Lru A) (o : Option ℕ) (n : ℕ) (v : QNode A)
      → q'.pool ≡ set q.pool n v
      → n < length q.pool
      → same_node o (some n) ≡ false
      → item_at q' o ≡ item_at q o
  item_at-set q q' none n v e l d = refl
  item_at-set q q' (some m) n v e l d = rw (e, get_or-set q.pool n m v unused_node l) (ground arith)

  pub node_at-set :
      (q q' : Lru A) (key j : ℕ) (o : Option ℕ)
      → q'.array ≡ set q.array key o
      → key < length q.array
      → key ≢ j
      → node_at q' j ≡ node_at q j
  node_at-set q q' key j o e l d = rw (e, get_or-set q.array key j o none l) (ground arith)

  -- A slot that holds another node keeps its item when one slot and one node are written.
  pub cached-set :
      (q q' : Lru A) (key j n : ℕ) (o : Option ℕ) (v : QNode A)
      → q'.array ≡ set q.array key o
      → q'.pool ≡ set q.pool n v
      → key < length q.array
      → n < length q.pool
      → key ≢ j
      → same_node (node_at q j) (some n) ≡ false
      → cached q' j ≡ cached q j
  cached-set q q' key j n o v ea ep la lp d s =
      rw (node_at-set q q' key j o ea la d) (item_at-set q q' (node_at q j) n v ep lp s)
