-- ===== src/Lru/Evict.antt =====
-- The eviction as a whole, and after the lookup that has to come before it.
use fapolicyd.Prelude.{
  ℕ, ◌≡◌, ◌≢◌, ◌<◌, refl, sym, subst, false, Option, none, some, List, [], ◌∷◌, arith, length,
  get_or, set, leb,
}
use fapolicyd.Prelude.Arrays.{get_or-set}
use fapolicyd.Lru.{
  Lru, Eviction, evicted, unused_node, front_of, qnode_free, remove_node, check_lru_cache,
  lru_evict,
}
use fapolicyd.Lru.Inv.{IsValid}
use fapolicyd.Lru.Slots.{node_at, cached, same_refl, node_in_pool, node_elsewhere, cached-set}
use fapolicyd.Lru.Steps.{without_front, without_front-IsValid}
use fapolicyd.Lru.Lookup.{Serves, item_or_null, check_lru_cache-Serves}

-- What an eviction of `key` leaves.
pub record Evicts {A : Type 0} (q : Lru A) (key : ℕ) (q' : Lru A) (eviction : Eviction A)
    : Type 0 where
  pub valid : IsValid q'
  pub sized : q'.total ≡ q.total
  pub out : eviction ≡ evicted (item_or_null (cached q key))
  pub emptied : cached q' key ≡ none
  pub others : (j : ℕ) → key ≢ j → cached q' j ≡ cached q j

module _ {A : Type 0} where
  abbrev pub OutcomeEvicts : Lru A → ℕ → Lru A × Eviction A → Type 0
  OutcomeEvicts q key (q', eviction) = Evicts q key q' eviction

  pub lru_evict-front :
      (q : Lru A) (key n : ℕ)
      → leb q.total key ≡ false
      → node_at q key ≡ some n
      → (nodes : List ℕ) → q.nodes ≡ nodes
      → front_of q.nodes ≡ some n
      → lru_evict q key ≡ (without_front q key n, evicted (get_or q.pool n unused_node).item)
  unfolding lru_evict remove_node qnode_free
  lru_evict-front q key n b e [] h f = absurd (ground (arith, h, f))
  lru_evict-front q key n b e (m ∷ nodes) h f = rw (h, b, e, m_is_n, same_refl n) refl
    where
      m_is_n : m ≡ n
      m_is_n = ground (arith, h, f)

  -- In a valid cache, an eviction of a key whose node is in front gives out the item of that slot
  -- and empties the slot; the cache stays valid and all other slots keep their items.
  pub lru_evict-Evicts :
      (q : Lru A) (key n : ℕ)
      → IsValid q
      → key < q.total
      → node_at q key ≡ some n
      → front_of q.nodes ≡ some n
      → OutcomeEvicts q key (lru_evict q key)
  unfolding lru_evict remove_node qnode_free
  lru_evict-Evicts q key n v l e f =
      subst (OutcomeEvicts q key)
        (sym (lru_evict-front q key n (ground (arith, l)) e q.nodes refl f)) evicts
    where
      pooled : n < length q.pool
      pooled = omega (arith, node_in_pool q key n v e, v.pooled)

      in_table : key < length q.array
      in_table = omega (arith, l, v.slots)

      empty : get_or (set q.array key none) key none ≡ none
      empty = rw (get_or-set q.array key key none none in_table) (ground arith)

      evicts : Evicts q key (without_front q key n) (evicted (get_or q.pool n unused_node).item)
      evicts = record {
        valid = without_front-IsValid q key n v l e;
        sized = refl;
        out = rw (e) refl;
        emptied = rw (empty) refl;
        others = λ j d.
            cached-set q (without_front q key n) key j n none unused_node refl refl in_table pooled
              d (node_elsewhere q key j n v e d);
      }

  pub Evicts-Serves :
      (q q' q'' : Lru A) (key : ℕ) (front : Option ℕ) (eviction eviction' : Eviction A)
      → Serves q key q' front eviction
      → Evicts q' key q'' eviction'
      → Evicts q key q'' eviction'
  Evicts-Serves q q' q'' key front eviction eviction' s r = record {
    valid = r.valid;
    sized = rw (r.sized) s.sized;
    out = rw (r.out, s.served) refl;
    emptied = r.emptied;
    others = λ j d. rw (r.others j d) (s.others j d);
  }

  pub lru_evict-Serves :
      (q q' : Lru A) (key : ℕ) (front : Option ℕ) (eviction : Eviction A)
      → key < q.total
      → Serves q key q' front eviction
      → OutcomeEvicts q key (lru_evict q' key)
  lru_evict-Serves q q' key none eviction l s = absurd (ground (arith, s.in_slot, s.served))
  lru_evict-Serves q q' key (some n) eviction l s =
      let (q'', eviction') = lru_evict q' key in
      Evicts-Serves q q' q'' key (some n) eviction eviction' s
        (lru_evict-Evicts q' key n s.valid (omega (arith, l, s.sized)) s.in_slot s.in_front)

  -- In a valid cache, an eviction of a key below the number of slots straight after a lookup of it
  -- never aborts: it gives out the item that the slot had before the lookup, or NULL, and empties
  -- the slot; the cache stays valid and all other slots keep their items.
  pub lru_evict-check_lru_cache :
      (q : Lru A) (key : ℕ)
      → IsValid q
      → key < q.total
      → (let (q', front, eviction) = check_lru_cache q key in
          OutcomeEvicts q key (lru_evict q' key))
  lru_evict-check_lru_cache q key v l =
      let (q', front, eviction) = check_lru_cache q key in
      lru_evict-Serves q q' key front eviction l (check_lru_cache-Serves q key v l)
