-- ===== src/Lru/Focus.antt =====
-- The node that a lookup has put in front: what its owner may do with it until the next lookup.
use fapolicyd.Prelude.{
  ℕ, ◌≡◌, ◌≢◌, ◌<◌, refl, sym, ap, Option, none, some, arith, length, length-set, set,
}
use fapolicyd.Prelude.Arrays.{get_or-set_same}
use fapolicyd.Lru.{
  Lru, Eviction, evicted, unused_node, front_of, item_of, set_item, lru_evict, lru_record_collision,
}
use fapolicyd.Lru.Inv.{IsValid}
use fapolicyd.Lru.Slots.{
  node_at, item_at, cached, set_same, node_in_pool, node_elsewhere, cached-set,
}
use fapolicyd.Lru.Lookup.{Serves, item_or_null}
use fapolicyd.Lru.Evict.{lru_evict-Evicts}

module _ {A : Type 0} where
  -- Node `n` of slot `key` is in front and has the item.
  pub record AtFront (q : Lru A) (key n : ℕ) (item : Option A) : Type 0 where
    pub valid : IsValid q
    pub bounded : key < q.total
    pub in_slot : node_at q key ≡ some n
    pub in_front : front_of q.nodes ≡ some n
    pub content : item_of q n ≡ item

  -- The slots but one are the same.
  pub record SameBut (key : ℕ) (q q' : Lru A) : Type 0 where
    pub sized : q'.total ≡ q.total
    pub others : (j : ℕ) → key ≢ j → cached q' j ≡ cached q j

  pub SameBut-refl : (key : ℕ) (q : Lru A) → SameBut key q q
  SameBut-refl key q = record { sized = refl; others = λ j d. refl }

  pub SameBut-trans :
      {key : ℕ} {p q r : Lru A} → SameBut key p q → SameBut key q r → SameBut key p r
  SameBut-trans s t = record {
    sized = rw (t.sized) s.sized;
    others = λ j d. rw (t.others j d) (s.others j d);
  }

  pub cached-AtFront :
      {q : Lru A} {key n : ℕ} {item : Option A} → AtFront q key n item → cached q key ≡ some item
  unfolding item_of
  cached-AtFront a = rw (a.in_slot) (ap some a.content)

  pub item_served :
      (q : Lru A) (n : ℕ) {item : Option A} (o : Option ℕ)
      → o ≡ some n
      → item_at q o ≡ some item
      → item_of q n ≡ item
  unfolding item_of
  item_served q n none e h = absurd (ground (arith, e))
  item_served q n (some m) e h = ground (arith, e, h)

  -- The result of a lookup has its node in front.
  abbrev pub Found : Lru A → ℕ → Lru A → Option ℕ → Type 0
  Found q key q' node =
      (n : ℕ) × (node ≡ some n) × AtFront q' key n (item_or_null (cached q key)) × SameBut key q q'

  pub Found-Serves :
      (q q' : Lru A) (key : ℕ) (node : Option ℕ) (eviction : Eviction A)
      → key < q.total
      → Serves q key q' node eviction
      → Found q key q' node
  Found-Serves q q' key none e l s = absurd (ground (arith, s.in_slot, s.served))
  Found-Serves q q' key (some n) e l s = (
    n,
    refl,
    record {
      valid = s.valid;
      bounded = omega (arith, l, s.sized);
      in_slot = s.in_slot;
      in_front = s.in_front;
      content = content;
    },
    record { sized = s.sized; others = s.others },
  )
    where
      content : item_of q' n ≡ item_or_null (cached q key)
      content = item_served q' n (node_at q' key) s.in_slot s.served

  pub evict-AtFront :
      {q : Lru A} {key n : ℕ} {item : Option A}
      → AtFront q key n item
      → (let (q', eviction) = lru_evict q key in
          IsValid q' × (eviction ≡ evicted item) × (cached q' key ≡ none) × SameBut key q q')
  evict-AtFront {q = q} {key = key} {n = n} a =
      let (q', eviction) = lru_evict q key in
      let out = lru_evict-Evicts q key n a.valid a.bounded a.in_slot a.in_front in
      (
        out.valid,
        rw (out.out, cached-AtFront a) refl,
        out.emptied,
        record { sized = out.sized; others = out.others },
      )

  pub item_of-set_item :
      (q : Lru A) (n : ℕ) (item : Option A)
      → n < length q.pool
      → item_of (set_item q n item) n ≡ item
  unfolding item_of set_item
  item_of-set_item q n item l = ap (λ node. node.item) (get_or-set_same q.pool n _ unused_node l)

  pub set_item-AtFront :
      {q : Lru A} {key n : ℕ} {item : Option A}
      → AtFront q key n item
      → (item' : Option A)
      → AtFront (set_item q n item') key n item' × SameBut key q (set_item q n item')
  unfolding set_item item_of
  set_item-AtFront {q = q} {key = key} {n = n} a item' = (
    record {
      valid = record {
        slots = a.valid.slots;
        pooled = omega (arith, a.valid.pooled, length-set q.pool n _);
        small = a.valid.small;
        counted = a.valid.counted;
        filled = a.valid.filled;
        room = a.valid.room;
        linked = a.valid.linked;
        owned = a.valid.owned;
      };
      bounded = a.bounded;
      in_slot = a.in_slot;
      in_front = a.in_front;
      content = item_of-set_item q n item' pooled;
    },
    record {
      sized = refl;
      others = λ j d.
          cached-set q (set_item q n item') key j n (some n) _ same refl in_table pooled d
            (node_elsewhere q key j n a.valid a.in_slot d);
    },
  )
    where
      pooled : n < length q.pool
      pooled = omega (arith, node_in_pool q key n a.valid a.in_slot, a.valid.pooled)

      in_table : key < length q.array
      in_table = omega (arith, a.bounded, a.valid.slots)

      same : q.array ≡ set q.array key (some n)
      same = rw (sym a.in_slot) (sym (set_same q.array key))

  pub collision-AtFront :
      {q : Lru A} {key n : ℕ} {item : Option A}
      → AtFront q key n item
      → AtFront (lru_record_collision q) key n item × SameBut key q (lru_record_collision q)
  unfolding lru_record_collision item_of
  collision-AtFront {q = q} a = (
    record {
      valid = valid;
      bounded = a.bounded;
      in_slot = a.in_slot;
      in_front = a.in_front;
      content = a.content;
    },
    record { sized = refl; others = λ j d. refl },
  )
    where
      valid : IsValid (lru_record_collision q)
      valid = record {
        slots = a.valid.slots;
        pooled = a.valid.pooled;
        small = a.valid.small;
        counted = a.valid.counted;
        filled = a.valid.filled;
        room = a.valid.room;
        linked = a.valid.linked;
        owned = a.valid.owned;
      }
