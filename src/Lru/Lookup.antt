-- ===== src/Lru/Lookup.antt =====
-- The lookup and the eviction as a whole: what goes in and out, slot by slot.
use fapolicyd.Prelude.{
  ℕ, ◌≡◌, ◌≢◌, ◌<◌, refl, sym, ap, subst, true, false, Option, none, some, List, [], ◌∷◌, arith,
  length, get_or, set, leb, ◌==◌, Bool-cases, Option-cases, inl, inr,
}
use fapolicyd.Prelude.Words.{add64}
use fapolicyd.Prelude.Arrays.{get_or-set}
use fapolicyd.Lru.{
  Lru, Eviction, nothing, same_node, unused_node, fresh_node, front_of, insert_beginning,
  remove_node, are_all_slots_full, enqueue, bring_forward, check_lru_cache,
}
use fapolicyd.Lru.Inv.{IsValid, occ, used_full}
use fapolicyd.Lru.Slots.{
  node_at, cached, set_same, node_in_pool, node_elsewhere, node_free, cached-set,
}
use fapolicyd.Lru.Steps.{bring_forward-IsValid, linked_new, link_new-linked, linked_new-IsValid}

-- The item that a slot has after a lookup: NULL in a slot that had no node.
abbrev pub item_or_null : {A : Type 0} → Option (Option A) → Option A
item_or_null none = none
item_or_null (some item) = item

-- What a lookup of `key` leaves: its node in front, the same items, and one more hit or miss.
pub record Serves {A : Type 0} (q : Lru A) (key : ℕ) (q' : Lru A) (front : Option ℕ)
    (eviction : Eviction A) : Type 0 where
  pub valid : IsValid q'
  pub sized : q'.total ≡ q.total
  pub keeps : eviction ≡ nothing
  pub in_slot : node_at q' key ≡ front
  pub in_front : front_of q'.nodes ≡ front
  pub served : cached q' key ≡ some (item_or_null (cached q key))
  pub others : (j : ℕ) → key ≢ j → cached q' j ≡ cached q j

pub same_node-front :
    (n : ℕ) (nodes : List ℕ) → same_node (some n) (front_of nodes) ≡ true → front_of nodes ≡ some n
same_node-front n [] h = absurd (ground arith)
same_node-front n (m ∷ nodes) h = ap some (ground arith)

module _ {A : Type 0} where
  abbrev pub OutcomeServes : Lru A → ℕ → Lru A × Option ℕ × Eviction A → Type 0
  OutcomeServes q key (q', front, eviction) = Serves q key q' front eviction

  -- A slot without a node tells that there is room.
  pub not_full :
      (q : Lru A) (key : ℕ)
      → IsValid q
      → key < q.total
      → node_at q key ≡ none
      → are_all_slots_full q ≡ false
  unfolding are_all_slots_full
  not_full q key v l e = elim (Bool-cases (q.count == q.total)) [
    | inl h ↦
        absurd
          (used_full q.array key (ground (arith, h, v.filled, v.slots)) (omega (arith, v.slots)) e)
    | inr h ↦ h
  ]

  pub free_node :
      (q : Lru A) (key : ℕ)
      → IsValid q
      → key < q.total
      → node_at q key ≡ none
      → 0 < length q.free_list
  unfolding are_all_slots_full
  free_node q key v l e = ground (arith, v.counted, v.room, not_full q key v l e)

  -- The counters take no part in the invariant.
  pub counters-IsValid :
      (q : Lru A) (hits misses : ℕ)
      → IsValid q
      → IsValid (record q { hits = hits; misses = misses })
  counters-IsValid q hits misses v = record {
    slots = v.slots;
    pooled = v.pooled;
    small = v.small;
    counted = v.counted;
    filled = v.filled;
    room = v.room;
    linked = v.linked;
    owned = v.owned;
  }

  pub missed-Serves :
      (q : Lru A) (key n : ℕ) (free : List ℕ) (misses : ℕ)
      → IsValid q
      → key < q.total
      → node_at q key ≡ none
      → q.free_list ≡ n ∷ free
      → Serves q key (record (linked_new q key n free) { misses = misses }) (some n) nothing
  unfolding occ
  missed-Serves q key n free misses v l e f = record {
    valid =
        counters-IsValid (linked_new q key n free) q.hits misses
          (linked_new-IsValid q key n free v l e f);
    sized = refl;
    keeps = refl;
    in_slot = slot;
    in_front = refl;
    served = rw (slot, e, get_or-set q.pool n n fresh_node unused_node pooled) (ground arith);
    others = λ j d.
        cached-set q (linked_new q key n free) key j n (some n) fresh_node refl refl in_table pooled
          d (node_free q n free j v f);
  }
    where
      pooled : n < length q.pool
      pooled = ground (arith, f, v.owned n, v.pooled)

      in_table : key < length q.array
      in_table = omega (arith, l, v.slots)

      slot : get_or (set q.array key (some n)) key none ≡ some n
      slot = rw (get_or-set q.array key key (some n) none in_table) (ground arith)

  pub moved-Serves :
      (q : Lru A) (key n hits : ℕ)
      → IsValid q
      → key < q.total
      → node_at q key ≡ some n
      → Serves q key (record (bring_forward q n) { hits = hits }) (some n) nothing
  unfolding bring_forward insert_beginning remove_node
  moved-Serves q key n hits v l e = record {
    valid = counters-IsValid (bring_forward q n) hits q.misses (bring_forward-IsValid q key n v e);
    sized = refl;
    keeps = refl;
    in_slot = e;
    in_front = refl;
    served = rw (e, get_or-set q.pool n n _ unused_node pooled) (ground arith);
    others = λ j d.
        cached-set q (bring_forward q n) key j n (some n) _ (sym (same_slot (node_at q key) e)) refl
          in_table pooled d (node_elsewhere q key j n v e d);
  }
    where
      pooled : n < length q.pool
      pooled = omega (arith, node_in_pool q key n v e, v.pooled)

      in_table : key < length q.array
      in_table = omega (arith, l, v.slots)

      same_slot : (o : Option ℕ) → o ≡ some n → set q.array key (some n) ≡ q.array
      same_slot o h = rw (sym e) (set_same q.array key)

  pub front-Serves :
      (q : Lru A) (key n hits : ℕ)
      → IsValid q
      → node_at q key ≡ some n
      → front_of q.nodes ≡ some n
      → Serves q key (record q { hits = hits }) (some n) nothing
  front-Serves q key n hits v e f = record {
    valid = counters-IsValid q hits q.misses v;
    sized = refl;
    keeps = refl;
    in_slot = e;
    in_front = f;
    served = rw (e) refl;
    others = λ j d. refl;
  }

  -- In a valid cache, a lookup of a key below the number of slots evicts nothing, keeps the cache
  -- valid and puts the node of its slot in front; that slot keeps its item, or gets a node whose
  -- item is NULL where it had none, and all other slots keep theirs.
  pub check_lru_cache-Serves :
      (q : Lru A) (key : ℕ)
      → IsValid q
      → key < q.total
      → OutcomeServes q key (check_lru_cache q key)
  unfolding check_lru_cache enqueue
  check_lru_cache-Serves q key v l = elim (Option-cases (node_at q key)) [
    | inl e ↦ missed e q.free_list refl
    | inr (n, e) ↦ elim (Bool-cases (same_node (some n) (front_of q.nodes))) [
      | inl f ↦ rw (bounded, e, f) (served_in_front n e (same_node-front n q.nodes f))
      | inr f ↦ rw (bounded, e, f) (moved-Serves q key n _ v l e)
    ]
  ]
    where
      bounded : leb q.total key ≡ false
      bounded = ground (arith, l)

      served_in_front :
          (n : ℕ)
          → node_at q key ≡ some n
          → front_of q.nodes ≡ some n
          → Serves q key (record q { hits = add64 q.hits 1 }) (front_of q.nodes) nothing
      served_in_front n e f =
          subst (λ front. Serves q key (record q { hits = add64 q.hits 1 }) front nothing) (sym f)
            (front-Serves q key n _ v e f)

      missed :
          node_at q key ≡ none
          → (free : List ℕ) → q.free_list ≡ free
          → OutcomeServes q key (check_lru_cache q key)
      missed e [] f = absurd (ground (arith, f, free_node q key v l e))
      missed e (n ∷ free) f =
          rw (bounded, e, not_full q key v l e, link_new-linked q key n free f)
            (missed-Serves q key n free _ v l e f)
