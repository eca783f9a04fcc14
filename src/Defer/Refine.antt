-- ===== src/Defer/Refine.antt =====
-- The defer array as a map from orders to events: a push adds the next order, a pop takes the least
-- order that is asked for.
use fapolicyd.Prelude.{
  ℕ, zero, suc, ◌+◌, ◌≡◌, ◌≢◌, ◌≤◌, ◌<◌, refl, sym, ap, subst, fun_ext, ◌∙◌, Bool, true, false, not,
  ◌&&◌, ◌||◌, Option, none, some, List, [], ◌∷◌, arith, length, length-set, replicate,
  length-replicate, max, ◌/◌, get_or, set, ltb, ◌==◌, if◌then◌else◌, Bool-cases, Option-cases, ◌⊎◌,
  inl, inr,
}
use fapolicyd.Prelude.Words.{u32_mod, u64_mod, add32, add64}
use fapolicyd.DecisionEvent.{DecisionEvent, no_slot}
use fapolicyd.Queue.{Result, ok, err, enospc, enomem, other}
use fapolicyd.Defer.{
  DeferEntry, DeferQueue, empty_entry, deferred, is_wanted, first_unused, oldest_entry, pop_entry,
  decision_defer_init, decision_defer_push, decision_defer_pop_slot, decision_defer_pop_any,
  decision_defer_pop_if,
}
use fapolicyd.Defer.View.{
  used_count, count_order, find_order, used_count-set, count_order-set, find_order-set_other,
  find_order-none, find_order-set_new, find_order-at, find_order-some, IsValid,
}
use fapolicyd.Defer.Oldest.{
  best_from, oldest_from-best, is_match, pop_if_from-best, Picks, best_from-Picks,
}

-- The event of an order, if it is deferred.
abbrev pub event_of : DeferQueue → ℕ → Option DecisionEvent
event_of defer k = find_order k defer.entries

-- Whether an order holds an event that meets a test.
abbrev pub wants : (DecisionEvent → Bool) → Option DecisionEvent → Bool
wants test none = false
wants test (some event) = test event

pub used_count-le : (xs : List DeferEntry) → used_count xs ≤ length xs
unfolding used_count
used_count-le [] = omega arith
used_count-le (x ∷ xs) = ground (arith, used_count-le xs)

count_order-le : (k : ℕ) (xs : List DeferEntry) → count_order k xs ≤ used_count xs
unfolding count_order used_count
count_order-le k [] = omega arith
count_order-le k (x ∷ xs) = ground (arith, count_order-le k xs)

pub first_unused_lem :
    (i : ℕ) (xs : List DeferEntry)
    → used_count xs < length xs
    → (j : ℕ) × (first_unused i xs ≡ some (i + j))
      × (j < length xs)
      × ((get_or xs j empty_entry).used ≡ false)
unfolding first_unused used_count
first_unused_lem i [] h = absurd (omega arith)
first_unused_lem i (x ∷ xs) h = elim (Bool-cases x.used) [
  | inl u ↦
      let (j, e, l, n) = first_unused_lem (i + 1) xs (ground (arith, u)) in
      (suc j, ground (arith, u, e), omega arith, n)
  | inr u ↦ (0, ground (arith, u), omega arith, u)
]

-- What a push does to the counters, by whether the array is full.
abbrev pub Counts : Bool → DeferQueue → DeferQueue → Type 0
Counts true defer defer' = defer' ≡ defer
Counts false defer defer' =
    (defer'.capacity ≡ defer.capacity)
    × (defer'.current ≡ defer.current + 1)
    × (defer'.deferred_events ≡ add64 defer.deferred_events 1)
    × (defer'.max_depth ≡ max defer.max_depth (defer.current + 1))
    × (defer'.fallbacks ≡ defer.fallbacks)
    × (defer'.next_order ≡ defer.next_order + 1)

module _ {defer : DeferQueue} (v : IsValid defer) where
  -- The array after the write of a push.
  written : ℕ → ℕ → DecisionEvent → DeferQueue
  written i now event = record defer {
    entries = set defer.entries i (deferred now defer.next_order event);
    next_order = defer.next_order + 1;
    current = defer.current + 1;
    deferred_events = add64 defer.deferred_events 1;
    max_depth =
        if ltb defer.max_depth (defer.current + 1) then defer.current + 1 else defer.max_depth;
  }

  module _ (now i : ℕ) (event : DecisionEvent) (l : i < length defer.entries)
      (u : (get_or defer.entries i empty_entry).used ≡ false) where
    written-IsValid : defer.next_order + 1 < u64_mod → IsValid (written i now event)
    unfolding written
    written-IsValid h =
        let xs = defer.entries in
        record {
          places = length-set xs i (deferred now defer.next_order event) ∙ v.places;
          small = v.small;
          counted =
              ground
                (arith, used_count-set xs i (deferred now defer.next_order event), v.counted, u);
          once = λ k. ground (
            arith,
            count_order-set k xs i (deferred now defer.next_order event),
            v.once k,
            v.later k,
            u,
          );
          later = λ k hk.
              ground
                (arith, count_order-set k xs i (deferred now defer.next_order event), v.later k, u);
          depth_seen = ground (arith, v.depth_seen);
        }

    written-find :
        (k : ℕ)
        → event_of (written i now event) k ≡ (
            if k == defer.next_order
            then some (record event { completed_subject_slot = no_slot })
            else event_of defer k)
    unfolding written
    written-find k = elim (Bool-cases (k == defer.next_order)) [
      | inl e ↦ rw (e) (
          find_order-set_new k defer.entries i (deferred now defer.next_order event) l
            (v.later k (ground (arith, e))) (ground (arith, e)))
      | inr e ↦ rw (e) (
          find_order-set_other k defer.entries i (deferred now defer.next_order event)
            (ground (arith, u)) (ground (arith, e)))
    ]

  -- While orders do not wrap, a push into a valid defer array is refused, with ENOSPC and no
  -- change at all, exactly if the array is full; else it adds the event under the next order and
  -- changes no other order, the depth, the next order and, modulo 2 ^ 64, the deferred events move
  -- by one, the greatest depth becomes the larger of the two, and the capacity and the fallbacks
  -- stay. The array stays valid.
  pub decision_defer_push_lem :
      (now : ℕ) (event : DecisionEvent)
      → defer.next_order + 1 < u64_mod
      → let (defer', r) = decision_defer_push now defer event in
        IsValid defer'
        × (r ≡ (if defer.current == defer.capacity then err enospc else ok tt))
        × ((k : ℕ)
            → event_of defer' k ≡ (
                if not (defer.current == defer.capacity) && k == defer.next_order
                then some (record event { completed_subject_slot = no_slot })
                else event_of defer k))
        × Counts (defer.current == defer.capacity) defer defer'
  unfolding decision_defer_push written
  decision_defer_push_lem now event h = elim (Bool-cases (defer.current == defer.capacity)) [
    | inl full ↦ rw (decision_defer_push, full) (v, refl, λ k. refl, refl)
    | inr room ↦
        let (i, e', l, u) =
          first_unused_lem 0 defer.entries
            (ground (arith, room, v.counted, v.places, used_count-le defer.entries)) in
        let e : first_unused 0 defer.entries ≡ some i = e' ∙ ap some (omega arith) in
        let c : add32 defer.current 1 ≡ defer.current + 1 =
          ground (arith, room, v.small, v.counted, v.places, used_count-le defer.entries) in
        let o : add64 defer.next_order 1 ≡ defer.next_order + 1 = ground arith in
        rw (decision_defer_push, room, e, c, o)
          (
            written-IsValid now i event l u h,
            refl,
            written-find now i event l u,
            (refl, refl, refl, ground arith, refl, refl),
          )
  ]

-- What a pop by a test gives: an event of the least order that meets it, which alone is gone; or
-- nothing, if no event that is deferred meets it.
pub record Pops (test : DecisionEvent → Bool) (defer defer' : DeferQueue) (event : DecisionEvent)
    : Type 0 where
  pub order : ℕ
  pub found : event_of defer order ≡ some event
  pub meets : test event ≡ true
  pub least : (k : ℕ) → k < order → wants test (event_of defer k) ≡ false
  pub rest : (k : ℕ) → event_of defer' k ≡ (if k == order then none else event_of defer k)

abbrev pub PopOf : (DecisionEvent → Bool) → DeferQueue → DeferQueue × Option DecisionEvent → Type 0
PopOf test defer (defer', none) =
    (defer' ≡ defer) × ((k : ℕ) → wants test (event_of defer k) ≡ false)
PopOf test defer (defer', some event) = IsValid defer' × Pops test defer defer' event

module _ {defer : DeferQueue} (v : IsValid defer) (test : DecisionEvent → Bool) where
  -- An order that holds an event which meets the test stands in an entry that does.
  wants-at :
      (k : ℕ)
      → ((i : ℕ)
          → i < length defer.entries
          → is_match test (get_or defer.entries i empty_entry) ≡ true
          → (get_or defer.entries i empty_entry).order ≢ k)
      → wants test (event_of defer k) ≡ false
  wants-at k h = elim (Option-cases (event_of defer k)) [
    | inl n ↦ rw n refl
    | inr (event, n) ↦
        let (i, l, hk, he) = find_order-some k defer.entries event n in
        elim (Bool-cases (test event)) [
          | inr t ↦ rw n t
          | inl t ↦ absurd (h i l (ground (arith, hk, rw (sym he) at t)) (ground (arith, hk)))
        ]
  ]

  pub popped-IsValid :
      (i : ℕ) (x : DeferEntry)
      → i < length defer.entries
      → get_or defer.entries i empty_entry ≡ x
      → x.used ≡ true
      → IsValid (pop_entry defer (some (i, x))).0
  unfolding pop_entry
  popped-IsValid i x l e u =
      let xs = defer.entries in
      let y = record x { used = false } in
      record {
        places = length-set xs i y ∙ v.places;
        small = v.small;
        counted =
            ground
              (arith, used_count-set xs i y, v.counted, v.small, v.places, used_count-le xs, u, e);
        once = λ k. ground (arith, count_order-set k xs i y, v.once k);
        later = λ k hk. ground (arith, count_order-set k xs i y, v.later k);
        depth_seen = ground (
          arith,
          used_count-set xs i y,
          v.counted,
          v.small,
          v.places,
          used_count-le xs,
          u,
          e,
          v.depth_seen,
        );
      }

  pop_entry-PopOf :
      (found : Option (ℕ × DeferEntry))
      → Picks (is_match test) defer.entries (length defer.entries) found
      → PopOf test defer (pop_entry defer found)
  unfolding pop_entry
  pop_entry-PopOf none h = (refl, λ k. wants-at k (λ i l m. absurd (ground (arith, h i l))))
  pop_entry-PopOf (some (i, x)) (l, e, m, least) =
      let xs = defer.entries in
      let y = record x { used = false } in
      (
        popped-IsValid i x l e (ground (arith, m)),
        record {
          order = x.order;
          found =
              find_order-at x.order xs i l (v.once x.order) (ground (arith, m, e))
              ∙ ap {A = DeferEntry} {B = Option DecisionEvent} (λ z. some z.event) e;
          meets = ground (arith, m);
          least = λ k hk. wants-at k (λ q lq mq. ground (arith, least q lq mq));
          rest = λ k. elim (Bool-cases (k == x.order)) [
            | inl o ↦ rw (o) (
                find_order-none k (set xs i y)
                  (ground (arith, count_order-set k xs i y, v.once k, e, m, o)))
            | inr o ↦ rw (o) (find_order-set_other k xs i y (ground (arith, e, o)) (ground arith))
          ];
        },
      )

  nothing-PopOf : defer.current ≡ 0 → PopOf test defer (defer, none)
  nothing-PopOf h = (
    refl,
    λ k.
        rw
          (find_order-none k defer.entries
            (omega (arith, count_order-le k defer.entries, v.counted)))
          refl,
  )

  best-PopOf : PopOf test defer (pop_entry defer (best_from (is_match test) 0 defer.entries none))
  best-PopOf = pop_entry-PopOf (best_from (is_match test) 0 defer.entries none) (
      best_from-Picks (is_match test) defer.entries defer.entries 0 none (omega arith)
        (λ q. ap (λ n. get_or defer.entries n empty_entry) (omega arith))
        (λ q h. absurd (omega arith)))

  -- While the array is valid, `decision_defer_pop_if` removes the event of the least order that
  -- meets the test and changes no other, or nothing if there is none.
  pub decision_defer_pop_if_lem : PopOf test defer (decision_defer_pop_if test defer)
  unfolding decision_defer_pop_if
  decision_defer_pop_if_lem = elim (Bool-cases (defer.current == 0)) [
    | inl h ↦ rw (decision_defer_pop_if, h) (nothing-PopOf (ground (arith, h)))
    | inr h ↦
        rw
          (
            decision_defer_pop_if,
            h,
            pop_if_from-best test defer.current 0 0 defer.entries none (omega (arith, v.counted)),
          )
          best-PopOf
  ]

-- The events of a slot; those of every slot for DECISION_EVENT_NO_SLOT.
abbrev pub in_slot : ℕ → DecisionEvent → Bool
in_slot slot event = slot == no_slot || event.subject_slot == slot

oldest_entry-PopOf :
    {defer : DeferQueue}
    → IsValid defer
    → (slot : ℕ) (test : DecisionEvent → Bool)
    → ((x : DeferEntry) → is_wanted slot x ≡ is_match test x)
    → PopOf test defer (pop_entry defer (oldest_entry defer slot))
unfolding oldest_entry
oldest_entry-PopOf {defer} v slot test h = elim (Bool-cases (defer.current == 0)) [
  | inl z ↦ rw (oldest_entry, z) (unfold pop_entry in nothing-PopOf v test (ground (arith, z)))
  | inr z ↦
      rw (oldest_entry, z, oldest_from-best slot 0 defer.entries none)
        (subst (λ p. PopOf test defer (pop_entry defer (best_from p 0 defer.entries none)))
          (sym (fun_ext h)) (best-PopOf v test))
]

-- While the array is valid, `decision_defer_pop_slot` removes the oldest event of the slot and changes
-- no other, or nothing if there is none; `decision_defer_pop_any` does so for the events of all slots.
pub decision_defer_pop_lem :
    {defer : DeferQueue}
    → IsValid defer
    → (slot : ℕ)
    → PopOf (in_slot slot) defer (decision_defer_pop_slot defer slot)
      × PopOf (λ event. true) defer (decision_defer_pop_any defer)
unfolding decision_defer_pop_slot decision_defer_pop_any
decision_defer_pop_lem {defer} v slot = (
  oldest_entry-PopOf v slot (in_slot slot) (λ x. ground arith),
  oldest_entry-PopOf v no_slot (λ event. true) (λ x. ground arith),
)

used_count-replicate : (n : ℕ) → used_count (replicate n empty_entry) ≡ 0
unfolding used_count
used_count-replicate zero = refl
used_count-replicate (suc n) = omega (arith, used_count-replicate n)

abbrev pub MadeFor : ℕ → Bool → ℕ → Result DeferQueue → Type 0
MadeFor rc calloc subj_cache_size (ok defer) =
    (rc ≡ 0)
    × (calloc ≡ true)
    × IsValid defer
    × (defer.capacity ≡ max 16 (subj_cache_size / 16))
    × ((k : ℕ) → event_of defer k ≡ none)
MadeFor rc calloc subj_cache_size (err e) =
    (rc ≢ 0) × (e ≡ other rc) ⊎ (rc ≡ 0) × (calloc ≡ false) × (e ≡ enomem)

made_with_lem :
    (calloc : Bool) (n : ℕ) → n < u32_mod → MadeFor 0 calloc n (decision_defer_init 0 calloc n)
unfolding decision_defer_init
made_with_lem false n h = inr (refl, refl, refl)
made_with_lem true n h =
    let c = if ltb (n / 16) 16 then 16 else n / 16 in
    let z = used_count-replicate c in
    let o : (k : ℕ) → count_order k (replicate c empty_entry) ≡ 0 =
      λ k. omega (arith, z, count_order-le k (replicate c empty_entry)) in
    (
      refl,
      refl,
      record {
        places = length-replicate c empty_entry;
        small = ground arith;
        counted = sym z;
        once = λ k. omega (arith, o k);
        later = λ k hk. o k;
        depth_seen = omega arith;
      },
      ground arith,
      λ k. find_order-none k (replicate c empty_entry) (o k),
    )

-- For a size of the subject cache that is an `unsigned int`, the defer array is made exactly if
-- `pthread_mutex_init` returns 0 and the allocation succeeds. The error is what the former returns,
-- where that is not 0, else `ENOMEM`. The array that is made is valid and empty, with a sixteenth of
-- that size as its capacity, but no less than sixteen.
pub decision_defer_init_lem :
    (rc : ℕ) (calloc : Bool) (subj_cache_size : ℕ)
    → subj_cache_size < u32_mod
    → MadeFor rc calloc subj_cache_size (decision_defer_init rc calloc subj_cache_size)
unfolding decision_defer_init
decision_defer_init_lem rc calloc n h = elim (Bool-cases (rc == 0)) [
  | inr e ↦ rw (decision_defer_init, e) (inl (ground (arith, e), refl))
  | inl e ↦
      let z : 0 ≡ rc = ground (arith, e) in
      subst (λ r. MadeFor r calloc n (decision_defer_init r calloc n)) z (made_with_lem calloc n h)
]
