-- ===== src/Worker/Tally.antt =====
-- How many deferred events there are of some kind, and what the operations of the array do to that
-- number.
use fapolicyd.Prelude.{
  ℕ, zero, suc, ◌+◌, ◌≡◌, ◌≤◌, ◌<◌, refl, sym, ap, ◌∙◌, Bool, true, false, ◌&&◌, Option, none, some,
  List, [], ◌∷◌, arith, length, get_or, set, ◌==◌, Bool-cases, inl, inr,
}
use fapolicyd.DecisionEvent.{Metadata, DecisionEvent, no_slot}
use fapolicyd.Queue.{Result, ok, err}
use fapolicyd.Defer.{
  DeferEntry, DeferQueue, empty_entry, deferred, is_wanted, first_unused, oldest_entry, pop_entry,
  decision_defer_push,
}
use fapolicyd.Defer.View.{weigh, used_count, IsValid}
use fapolicyd.Defer.Oldest.{best_from, oldest_from-best, Picks, best_from-Picks}
use fapolicyd.Defer.Refine.{first_unused_lem, used_count-le}

-- The events of a kind among some.
unfoldable pub count : (Metadata → Bool) → List Metadata → ℕ
count p [] = 0
count p (m ∷ ms) = weigh (p m) + count p ms

-- The deferred events of a kind.
unfoldable pub tally : (Metadata → Bool) → List DeferEntry → ℕ
tally p [] = 0
tally p (x ∷ xs) = weigh (x.used && p x.event.metadata) + tally p xs

pub tally-used : (xs : List DeferEntry) → tally (λ m. true) xs ≡ used_count xs
unfolding tally used_count
tally-used [] = refl
tally-used (x ∷ xs) = ground (arith, tally-used xs)

pub tally-le : (p : Metadata → Bool) (xs : List DeferEntry) → tally p xs ≤ used_count xs
unfolding tally used_count
tally-le p [] = omega arith
tally-le p (x ∷ xs) = ground (arith, tally-le p xs)

tally-set :
    (p : Metadata → Bool) (xs : List DeferEntry) (i : ℕ) (v : DeferEntry)
    → i < length xs
    → tally p (set xs i v)
        + weigh ((get_or xs i empty_entry).used && p (get_or xs i empty_entry).event.metadata)
      ≡ tally p xs + weigh (v.used && p v.event.metadata)
unfolding tally
tally-set p [] i v h = absurd (omega arith)
tally-set p (x ∷ xs) zero v h = omega arith
tally-set p (x ∷ xs) (suc i) v h = omega (arith, tally-set p xs i v (omega arith))

-- Some used entry with its index, or none.
abbrev pub Found : List DeferEntry → Option (ℕ × DeferEntry) → Type 0
Found xs none = Unit
Found xs (some (i, x)) = (i < length xs) × (get_or xs i empty_entry ≡ x) × (x.used ≡ true)

-- What a pop does to the numbers of events; the order of the next one stays.
abbrev pub Popped : (Metadata → Bool) → DeferQueue → DeferQueue × Option DecisionEvent → Type 0
Popped p defer (defer', none) = defer' ≡ defer
Popped p defer (defer', some event) =
    (tally p defer'.entries + weigh (p event.metadata) ≡ tally p defer.entries)
    × (defer'.next_order ≡ defer.next_order)

pub pop_entry-Popped :
    (p : Metadata → Bool) (defer : DeferQueue) (o : Option (ℕ × DeferEntry))
    → Found defer.entries o
    → Popped p defer (pop_entry defer o)
unfolding pop_entry
pop_entry-Popped p defer none f = refl
pop_entry-Popped p defer (some (i, x)) (l, e, u) =
    (ground (arith, tally-set p defer.entries i (record x { used = false }), e, u), refl)

Found-Picks :
    (slot : ℕ) (xs : List DeferEntry) (o : Option (ℕ × DeferEntry))
    → Picks (is_wanted slot) xs (length xs) o
    → Found xs o
Found-Picks slot xs none h = tt
Found-Picks slot xs (some (i, x)) (l, e, w, least) = (l, e, ground (arith, w))

pub oldest_entry-Found :
    (defer : DeferQueue) (slot : ℕ) → Found defer.entries (oldest_entry defer slot)
unfolding oldest_entry
oldest_entry-Found defer slot = elim (Bool-cases (defer.current == 0)) [
  | inl z ↦ rw (z, oldest_entry) tt
  | inr z ↦
      rw (z, oldest_entry, oldest_from-best slot 0 defer.entries none)
        (Found-Picks slot defer.entries (best_from (is_wanted slot) 0 defer.entries none) (
          best_from-Picks (is_wanted slot) defer.entries defer.entries 0 none (omega arith)
            (λ q. ap (λ n. get_or defer.entries n empty_entry) (omega arith))
            (λ q h. absurd (omega arith))))
]

unused-count :
    (xs : List DeferEntry)
    → ((q : ℕ) → q < length xs → (get_or xs q empty_entry).used ≡ false)
    → used_count xs ≡ 0
unfolding used_count
unused-count [] h = refl
unused-count (x ∷ xs) h =
    ground (arith, h 0 (omega arith), unused-count xs (λ q l. h (suc q) (omega arith)))

none-count :
    (xs : List DeferEntry) (o : Option (ℕ × DeferEntry))
    → Picks (is_wanted no_slot) xs (length xs) o
    → o ≡ none
    → used_count xs ≡ 0
none-count xs none h e = unused-count xs (λ q l. ground (arith, h q l))
none-count xs (some x) h e = absurd (cc)

none-popped :
    (defer : DeferQueue) (o : Option (ℕ × DeferEntry)) → (pop_entry defer o).1 ≡ none → o ≡ none
unfolding pop_entry
none-popped defer none e = refl
none-popped defer (some (i, x)) e = cc

-- A pop of any event that finds none has found the array empty.
pub oldest_entry-none :
    (defer : DeferQueue)
    → IsValid defer
    → (pop_entry defer (oldest_entry defer no_slot)).1 ≡ none
    → defer.current ≡ 0
unfolding oldest_entry
oldest_entry-none defer v e = elim (Bool-cases (defer.current == 0)) [
  | inl z ↦ ground arith
  | inr z ↦
      let xs = defer.entries in
      let found : oldest_entry defer no_slot ≡ best_from (is_wanted no_slot) 0 xs none =
        rw (z, oldest_entry) (oldest_from-best no_slot 0 xs none) in
      v.counted
      ∙ none-count xs (best_from (is_wanted no_slot) 0 xs none)
          (best_from-Picks (is_wanted no_slot) xs xs 0 none (omega arith)
            (λ q. ap (λ n. get_or xs n empty_entry) (omega arith)) (λ q h. absurd (omega arith)))
          (sym found ∙ none-popped defer (oldest_entry defer no_slot) e)
]

-- A push adds one event, or changes nothing.
abbrev pub Pushed :
    (Metadata → Bool) → DeferQueue → DecisionEvent → DeferQueue × Result (Unit {0}) → Type 0
Pushed p defer event (defer', ok _) =
    (tally p defer'.entries ≡ tally p defer.entries + weigh (p event.metadata))
    × (defer'.next_order ≤ defer.next_order + 1)
Pushed p defer event (defer', err e) = defer' ≡ defer

pub decision_defer_push-Pushed :
    (p : Metadata → Bool) (now : ℕ) (defer : DeferQueue) (event : DecisionEvent)
    → IsValid defer
    → Pushed p defer event (decision_defer_push now defer event)
unfolding decision_defer_push
decision_defer_push-Pushed p now defer event v =
    elim (Bool-cases (defer.current == defer.capacity)) [
      | inl full ↦ rw (decision_defer_push, full) refl
      | inr room ↦
          let (i, e', l, u) =
            first_unused_lem 0 defer.entries
              (ground (arith, room, v.counted, v.places, used_count-le defer.entries)) in
          let e : first_unused 0 defer.entries ≡ some i = e' ∙ ap some (omega arith) in
          rw (decision_defer_push, room, e)
            (
              ground
                  (arith, tally-set p defer.entries i (deferred now defer.next_order event) l, u),
              omega arith,
            )
    ]
