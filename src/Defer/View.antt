-- ===== src/Defer/View.antt =====
-- The deferred events by their order, what a write to an entry does to them, and the invariant.
use fapolicyd.Prelude.{
  ℕ, zero, suc, ◌+◌, ◌≡◌, ◌≤◌, ◌<◌, refl, Bool, true, false, ◌&&◌, Option, none, some, List, [],
  ◌∷◌, arith, length, get_or, set, ◌==◌, if◌then◌else◌, Bool-cases, inl, inr,
}
use fapolicyd.Prelude.Words.{u32_mod}
use fapolicyd.DecisionEvent.{DecisionEvent}
use fapolicyd.Defer.{DeferEntry, DeferQueue, empty_entry}

abbrev pub weigh : Bool → ℕ
weigh b = if b then 1 else 0

-- Whether an entry holds the event of an order.
abbrev pub holds : ℕ → DeferEntry → Bool
holds k entry = entry.used && entry.order == k

-- How many entries are used, and how many of them have an order.
unfoldable pub used_count : List DeferEntry → ℕ
used_count [] = 0
used_count (x ∷ xs) = weigh x.used + used_count xs

unfoldable pub count_order : ℕ → List DeferEntry → ℕ
count_order k [] = 0
count_order k (x ∷ xs) = weigh (holds k x) + count_order k xs

-- The event of an order.
unfoldable pub find_order : ℕ → List DeferEntry → Option DecisionEvent
find_order k [] = none
find_order k (x ∷ xs) = let rest = find_order k xs in if holds k x then some x.event else rest

pub used_count-set :
    (xs : List DeferEntry) (i : ℕ) (v : DeferEntry)
    → i < length xs
    → used_count (set xs i v) + weigh (get_or xs i empty_entry).used ≡ used_count xs + weigh v.used
unfolding used_count
used_count-set [] i v h = absurd (omega arith)
used_count-set (x ∷ xs) zero v h = omega arith
used_count-set (x ∷ xs) (suc i) v h = omega (arith, used_count-set xs i v (omega arith))

pub count_order-set :
    (k : ℕ) (xs : List DeferEntry) (i : ℕ) (v : DeferEntry)
    → i < length xs
    → count_order k (set xs i v) + weigh (holds k (get_or xs i empty_entry))
      ≡ count_order k xs + weigh (holds k v)
unfolding count_order
count_order-set k [] i v h = absurd (omega arith)
count_order-set k (x ∷ xs) zero v h = omega arith
count_order-set k (x ∷ xs) (suc i) v h = omega (arith, count_order-set k xs i v (omega arith))

-- A write that neither takes nor gives the event of an order.
pub find_order-set_other :
    (k : ℕ) (xs : List DeferEntry) (i : ℕ) (v : DeferEntry)
    → holds k (get_or xs i empty_entry) ≡ false
    → holds k v ≡ false
    → find_order k (set xs i v) ≡ find_order k xs
unfolding find_order
find_order-set_other k [] i v h hv = refl
find_order-set_other k (x ∷ xs) zero v h hv = rw (h, hv) refl
find_order-set_other k (x ∷ xs) (suc i) v h hv = ground (arith, find_order-set_other k xs i v)

pub find_order-none : (k : ℕ) (xs : List DeferEntry) → count_order k xs ≡ 0 → find_order k xs ≡ none
unfolding count_order find_order
find_order-none k [] h = refl
find_order-none k (x ∷ xs) h = ground (arith, find_order-none k xs)

-- A write that gives the one event of an order.
pub find_order-set_new :
    (k : ℕ) (xs : List DeferEntry) (i : ℕ) (v : DeferEntry)
    → i < length xs
    → count_order k xs ≡ 0
    → holds k v ≡ true
    → find_order k (set xs i v) ≡ some v.event
unfolding count_order find_order
find_order-set_new k [] i v h c hv = absurd (omega arith)
find_order-set_new k (x ∷ xs) zero v h c hv = rw (hv) refl
find_order-set_new k (x ∷ xs) (suc i) v h c hv = ground (arith, find_order-set_new k xs i v)

-- An entry that holds the one event of an order gives it.
pub find_order-at :
    (k : ℕ) (xs : List DeferEntry) (i : ℕ)
    → i < length xs
    → count_order k xs ≤ 1
    → holds k (get_or xs i empty_entry) ≡ true
    → find_order k xs ≡ some (get_or xs i empty_entry).event
unfolding count_order find_order
find_order-at k [] i h c hk = absurd (omega arith)
find_order-at k (x ∷ xs) zero h c hk = rw (hk) refl
find_order-at k (x ∷ xs) (suc i) h c hk =
    ground (arith, find_order-at k xs i, count_order-at k xs i)
  where
    count_order-at :
        (k : ℕ) (xs : List DeferEntry) (i : ℕ)
        → i < length xs
        → holds k (get_or xs i empty_entry) ≡ true
        → 0 < count_order k xs
    count_order-at k [] i h hk = absurd (omega arith)
    count_order-at k (x ∷ xs) zero h hk = ground arith
    count_order-at k (x ∷ xs) (suc i) h hk = ground (arith, count_order-at k xs i)

-- An event that is found stands in some entry.
pub find_order-some :
    (k : ℕ) (xs : List DeferEntry) (event : DecisionEvent)
    → find_order k xs ≡ some event
    → (i : ℕ) × (i < length xs)
      × (holds k (get_or xs i empty_entry) ≡ true)
      × ((get_or xs i empty_entry).event ≡ event)
unfolding find_order
find_order-some k [] event h = absurd (ground arith)
find_order-some k (x ∷ xs) event h = elim (Bool-cases (holds k x)) [
  | inl p ↦ (0, omega arith, p, ground arith)
  | inr p ↦
      let (i, l, q, e) = find_order-some k xs event (ground arith) in (suc i, omega arith, q, e)
]

pub record IsValid (defer : DeferQueue) : Type 0 where
  pub places : length defer.entries ≡ defer.capacity
  pub small : defer.capacity < u32_mod
  pub counted : defer.current ≡ used_count defer.entries
  pub once : (k : ℕ) → count_order k defer.entries ≤ 1
  pub later : (k : ℕ) → defer.next_order ≤ k → count_order k defer.entries ≡ 0
  pub depth_seen : defer.current ≤ defer.max_depth
