-- ===== src/Lru.antt =====
-- src/library/lru.c and lru.h: the cache behind subjects and objects, a table of slots and a list of
-- its nodes from the one used last. A node stands as its index in the pool; the links `prev` and
-- `next` are the order of the list, so the tests for broken links have no counterpart. What
-- `evict_cb` and `cleanup` are called with is returned. Allocations succeed.
pub mod Inv
pub mod Slots
pub mod Steps
pub mod Lookup
pub mod Evict
pub mod Focus
mod Tests
use fapolicyd.Prelude.{
  ℕ, zero, suc, ◌+◌, ◌-◌, ◌%◌, Bool, true, false, Option, none, some, List, [], ◌∷◌, ltb, leb, ◌==◌,
  if◌then◌else◌, get_or, set, replicate,
}
use fapolicyd.Prelude.Words.{add32, sub32, add64}

-- `struct QNode`
pub record QNode (A : Type 0) : Type 0 where
  pub uses : ℕ
  pub item : Option A

-- `struct Queue` with its `struct Hash`, whose size is `total`.
pub record Lru (A : Type 0) : Type 0 where
  pub count : ℕ
  pub total : ℕ
  pub hits : ℕ
  pub misses : ℕ
  pub collisions : ℕ
  pub evictions : ℕ
  pub nodes : List ℕ
  pub array : List (Option ℕ)
  pub pool : List (QNode A)
  pub free_list : List ℕ

-- The outcome of an eviction: what was evicted, or `abort`.
pub data Eviction (A : Type 0) : Type 0 where
  nothing : Eviction A
  aborts : Eviction A
  evicted : Option A → Eviction A

-- The list without a node.
unfoldable pub unlinked : ℕ → List ℕ → List ℕ
unlinked n [] = []
unlinked n (x ∷ xs) = if x == n then xs else x ∷ unlinked n xs

-- `queue->front` and `queue->end`
abbrev pub front_of : List ℕ → Option ℕ
front_of [] = none
front_of (x ∷ xs) = some x

unfoldable pub end_of : List ℕ → Option ℕ
end_of [] = none
end_of (x ∷ []) = some x
end_of (x ∷ y ∷ xs) = end_of (y ∷ xs)

abbrev pub same_node : Option ℕ → Option ℕ → Bool
same_node none none = true
same_node none (some m) = false
same_node (some n) none = false
same_node (some n) (some m) = n == m

-- The loop of `create_queue` over the pool: each node goes before the ones that went earlier.
unfoldable pub free_from : ℕ → ℕ → List ℕ → List ℕ
free_from i zero free = free
free_from i (suc n) free = free_from (i + 1) n (i ∷ free)

module _ {A : Type 0} where
  abbrev pub unused_node : QNode A
  unused_node = record { uses = 0; item = none }

  abbrev pub fresh_node : QNode A
  fresh_node = record { uses = 1; item = none }

  unfoldable pub qnode_alloc : Lru A → Lru A × Option ℕ
  qnode_alloc queue = elim queue.free_list [
    | [] ↦ (queue, none)
    | n ∷ rest ↦ (record queue { free_list = rest; pool = set queue.pool n fresh_node }, some n)
  ]

  unfoldable pub qnode_free : Lru A → ℕ → Lru A
  qnode_free queue n = record queue {
    pool = set queue.pool n unused_node;
    free_list = n ∷ queue.free_list;
  }

  unfoldable pub init_lru : ℕ → Lru A
  unfolding free_from
  init_lru qsize = record {
    count = 0;
    total = qsize;
    hits = 0;
    misses = 0;
    collisions = 0;
    evictions = 0;
    nodes = [];
    array = replicate qsize none;
    pool = replicate qsize unused_node;
    free_list = free_from 0 qsize [];
  }

  unfoldable pub are_all_slots_full : Lru A → Bool
  are_all_slots_full queue = queue.count == queue.total

  unfoldable pub insert_beginning : Lru A → ℕ → Lru A
  insert_beginning queue n = record queue { nodes = n ∷ queue.nodes }

  unfoldable pub remove_node : Lru A → ℕ → Lru A
  unfolding unlinked
  remove_node queue n = record queue { nodes = unlinked n queue.nodes }

  -- The item of the last node, which is given to `evict_cb` and `cleanup`.
  unfoldable pub dequeue : Lru A → Lru A × Eviction A
  unfolding remove_node qnode_free end_of
  dequeue queue = elim (end_of queue.nodes) [
    | none ↦ (queue, nothing)
    | some n ↦
        let rest = qnode_free (remove_node queue n) n in
        (record rest { count = sub32 rest.count 1 }, evicted (get_or queue.pool n unused_node).item)
  ]

  unfoldable pub lru_evict : Lru A → ℕ → Lru A × Eviction A
  unfolding remove_node qnode_free
  lru_evict queue key = elim queue.nodes [
    | [] ↦ (queue, nothing)
    | n ∷ ns ↦
        if leb queue.total key
        then (queue, nothing)
        else if same_node (get_or queue.array key none) (some n)
        then (let rest =
              qnode_free (remove_node (record queue { array = set queue.array key none }) n) n in
            (
              record rest { count = sub32 rest.count 1; evictions = add64 rest.evictions 1 },
              evicted (get_or queue.pool n unused_node).item,
            ))
        else (queue, aborts)
  ]

  unfoldable pub lru_record_collision : Lru A → Lru A
  lru_record_collision queue = record queue { collisions = add64 queue.collisions 1 }

  unfoldable pub lru_peek_slot : Lru A → ℕ → Option ℕ
  lru_peek_slot queue key = if leb queue.total key then none else get_or queue.array key none

  -- The end of `enqueue`, when there is room.
  unfoldable pub link_new : Lru A → ℕ → Lru A
  unfolding qnode_alloc insert_beginning
  link_new queue key =
      let (queue', n) = qnode_alloc queue in
      elim n [
        | none ↦ queue'
        | some n ↦
            let linked = insert_beginning queue' n in
            record linked { array = set linked.array key (some n); count = add32 linked.count 1 }
      ]

  unfoldable pub enqueue : Lru A → ℕ → Lru A × Eviction A
  unfolding are_all_slots_full dequeue link_new
  enqueue queue key =
      if are_all_slots_full queue
      then (let (queue', eviction) = dequeue (record queue { array = set queue.array key none }) in
          (link_new queue' key, eviction))
      else (link_new queue key, nothing)

  -- A cached node that is not in front comes to the front, and is used once more.
  unfoldable pub bring_forward : Lru A → ℕ → Lru A
  unfolding remove_node insert_beginning
  bring_forward queue n =
      let moved = insert_beginning (remove_node queue n) n in
      let node = get_or queue.pool n unused_node in
      record moved { pool = set moved.pool n (record node { uses = add64 node.uses 1 }) }

  -- The node in front afterwards, and what went out of the cache.
  unfoldable pub check_lru_cache : Lru A → ℕ → Lru A × Option ℕ × Eviction A
  unfolding enqueue bring_forward
  check_lru_cache queue key =
      if leb queue.total key then (queue, none, nothing) else elim (get_or queue.array key none) [
        | none ↦
            let (queue', eviction) = enqueue queue key in
            (record queue' { misses = add64 queue'.misses 1 }, front_of queue'.nodes, eviction)
        | some n ↦
            if same_node (some n) (front_of queue.nodes)
            then (record queue { hits = add64 queue.hits 1 }, front_of queue.nodes, nothing)
            else (let moved = bring_forward queue n in
                (record moved { hits = add64 moved.hits 1 }, front_of moved.nodes, nothing))
      ]

  -- What the callers do with a node: reading and setting `item`.
  unfoldable pub item_of : Lru A → ℕ → Option A
  item_of queue n = (get_or queue.pool n unused_node).item

  unfoldable pub set_item : Lru A → ℕ → Option A → Lru A
  set_item queue n item = record queue {
    pool = set queue.pool n (record (get_or queue.pool n unused_node) { item = item });
  }

  unfoldable pub compute_subject_key : Lru A → ℕ → ℕ
  compute_subject_key queue pid = pid % queue.total

  unfoldable pub compute_object_key : Lru A → ℕ → ℕ
  compute_object_key queue num = num % queue.total

-- `struct lru_metrics`, without the name.
pub record LruMetrics : Type 0 where
  pub slots : ℕ
  pub slots_used : ℕ
  pub hits_seen : ℕ
  pub misses_seen : ℕ
  pub collisions_seen : ℕ
  pub evictions_seen : ℕ

unfoldable pub lru_metrics_snapshot : {A : Type 0} → Bool → Lru A → Lru A × LruMetrics
lru_metrics_snapshot reset queue = (
  if reset then record queue { hits = 0; misses = 0; collisions = 0; evictions = 0 } else queue,
  record {
    slots = queue.total;
    slots_used = queue.count;
    hits_seen = queue.hits;
    misses_seen = queue.misses;
    collisions_seen = queue.collisions;
    evictions_seen = queue.evictions;
  },
)
