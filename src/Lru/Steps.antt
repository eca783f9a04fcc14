-- ===== src/Lru/Steps.antt =====
-- The invariant of the cache through the steps of a lookup and an eviction.
use fapolicyd.Prelude.{ℕ, ◌≡◌, ◌<◌, refl, none, some, List, ◌∷◌, arith, length-set, set}
use fapolicyd.Prelude.Words.{add64, add32, sub32}
use fapolicyd.Prelude.Arrays.{used-set}
use fapolicyd.Lru.{
  Lru, unlinked, unused_node, fresh_node, qnode_alloc, insert_beginning, remove_node, link_new,
  bring_forward,
}
use fapolicyd.Lru.Inv.{IsValid, occ, held-set, occ-unlinked}
use fapolicyd.Lru.Slots.{node_at, node_in_list}

module _ {A : Type 0} where
  pub bring_forward-IsValid :
      (q : Lru A) (key n : ℕ) → IsValid q → node_at q key ≡ some n → IsValid (bring_forward q n)
  unfolding bring_forward insert_beginning remove_node occ
  bring_forward-IsValid q key n v e = record {
    slots = v.slots;
    pooled = omega (arith, v.pooled, length-set q.pool n _);
    small = v.small;
    counted = omega (arith, v.counted, occ-unlinked n n q.nodes once);
    filled = v.filled;
    room = omega (arith, v.room, occ-unlinked n n q.nodes once);
    linked = λ m. omega (arith, v.linked m, occ-unlinked m n q.nodes once);
    owned = λ m. omega (arith, v.owned m, occ-unlinked m n q.nodes once);
  }
    where
      once : 0 < occ n q.nodes
      once = omega (arith, node_in_list q key n v e)

  -- A new node for an empty slot, taken from those that are free.
  abbrev pub linked_new : Lru A → ℕ → ℕ → List ℕ → Lru A
  linked_new q key n free = record q {
    count = add32 q.count 1;
    nodes = n ∷ q.nodes;
    array = set q.array key (some n);
    pool = set q.pool n fresh_node;
    free_list = free;
  }

  pub link_new-linked :
      (q : Lru A) (key n : ℕ) (free : List ℕ)
      → q.free_list ≡ n ∷ free
      → link_new q key ≡ linked_new q key n free
  unfolding link_new qnode_alloc insert_beginning
  link_new-linked q key n free e = rw (e) refl

  pub linked_new-IsValid :
      (q : Lru A) (key n : ℕ) (free : List ℕ)
      → IsValid q
      → key < q.total
      → node_at q key ≡ none
      → q.free_list ≡ n ∷ free
      → IsValid (linked_new q key n free)
  unfolding occ
  linked_new-IsValid q key n free v l e f = record {
    slots = omega (arith, v.slots, length-set q.array key (some n));
    pooled = omega (arith, v.pooled, length-set q.pool n fresh_node);
    small = v.small;
    counted = ground (arith, v.counted, v.room, v.small, f);
    filled =
        ground (
          arith,
          v.counted,
          v.filled,
          v.room,
          v.small,
          v.slots,
          f,
          e,
          used-set q.array key (some n),
        );
    room = ground (arith, v.room, f);
    linked = λ m. ground (arith, v.linked m, v.slots, e, held-set m q.array key (some n));
    owned = λ m. ground (arith, v.owned m, f);
  }

  -- The cache without the node in front, whose slot is emptied.
  abbrev pub without_front : Lru A → ℕ → ℕ → Lru A
  without_front q key n = record q {
    count = sub32 q.count 1;
    evictions = add64 q.evictions 1;
    nodes = unlinked n q.nodes;
    array = set q.array key none;
    pool = set q.pool n unused_node;
    free_list = n ∷ q.free_list;
  }

  pub without_front-IsValid :
      (q : Lru A) (key n : ℕ)
      → IsValid q
      → key < q.total
      → node_at q key ≡ some n
      → IsValid (without_front q key n)
  unfolding occ
  without_front-IsValid q key n v l e = record {
    slots = omega (arith, v.slots, length-set q.array key none);
    pooled = omega (arith, v.pooled, length-set q.pool n unused_node);
    small = v.small;
    counted = ground (arith, v.counted, v.room, v.small, occ-unlinked n n q.nodes once);
    filled = ground (
      arith,
      v.counted,
      v.filled,
      v.room,
      v.small,
      v.slots,
      e,
      used-set q.array key none,
      occ-unlinked n n q.nodes once,
    );
    room = omega (arith, v.room, occ-unlinked n n q.nodes once);
    linked = λ m.
        ground (
          arith,
          v.linked m,
          v.slots,
          e,
          held-set m q.array key none,
          occ-unlinked m n q.nodes once,
        );
    owned = λ m. omega (arith, v.owned m, occ-unlinked m n q.nodes once);
  }
    where
      once : 0 < occ n q.nodes
      once = omega (arith, node_in_list q key n v e)
