-- ===== src/Defer.antt =====
-- src/library/decision-defer.c and decision-defer.h: the array of events that wait until their
-- subject slot is free. The queue is initialized, but for `decision_defer_init`; the clock, what
-- `pthread_mutex_init` returns and the outcome of the allocation are arguments.
pub mod View
pub mod Oldest
pub mod Refine
mod Tests
use fapolicyd.Prelude.{
  ℕ, ◌+◌, ◌-◌, ◌*◌, ◌/◌, ◌%◌, Bool, true, false, not, ◌&&◌, Option, none, some, List, [], ◌∷◌, ltb,
  ◌==◌, if◌then◌else◌, set, replicate,
}
use fapolicyd.Prelude.Words.{u64_mod, add32, sub32, add64}
use fapolicyd.DecisionEvent.{DecisionEvent, no_slot}
use fapolicyd.Queue.{Result, ok, err, enospc, enomem, other, zero_entry}

-- `struct decision_defer_entry`
pub record DeferEntry : Type 0 where
  pub event : DecisionEvent
  pub deferred_ns : ℕ
  pub order : ℕ
  pub used : Bool

-- `struct decision_defer_queue`, without its lock.
pub record DeferQueue : Type 0 where
  pub entries : List DeferEntry
  pub capacity : ℕ
  pub current : ℕ
  pub deferred_events : ℕ
  pub max_depth : ℕ
  pub fallbacks : ℕ
  pub next_order : ℕ

-- What `calloc` leaves in an entry.
abbrev pub empty_entry : DeferEntry
empty_entry = record { event = zero_entry.event; deferred_ns = 0; order = 0; used = false }

-- DECISION_DEFER_RATIO and DECISION_DEFER_MIN are both 16. `rc` is what `pthread_mutex_init` returns,
-- `calloc` is whether it succeeds.
unfoldable pub decision_defer_init : ℕ → Bool → ℕ → Result DeferQueue
decision_defer_init rc calloc subj_cache_size =
    let scaled = subj_cache_size / 16 in
    let capacity = if ltb scaled 16 then 16 else scaled in
    if not (rc == 0)
    then err (other rc)
    else if calloc
    then ok (record {
      entries = replicate capacity empty_entry;
      capacity = capacity;
      current = 0;
      deferred_events = 0;
      max_depth = 0;
      fallbacks = 0;
      next_order = 0;
    })
    else err enomem

-- `if (oldest == NULL || entry->order < oldest->order) oldest = entry;` An entry stands with its
-- index in place of its address.
abbrev pub older : Option (ℕ × DeferEntry) → ℕ → DeferEntry → Option (ℕ × DeferEntry)
older none i entry = some (i, entry)
older (some (j, oldest)) i entry =
    if ltb entry.order oldest.order then some (i, entry) else some (j, oldest)

-- An entry that the loop of `oldest_entry` does not pass over.
abbrev pub is_wanted : ℕ → DeferEntry → Bool
is_wanted slot entry =
    if not entry.used
    then false
    else if not (slot == no_slot) && not (entry.event.subject_slot == slot)
    then false
    else true

-- The loop of `oldest_entry` from the index `i` on.
unfoldable pub oldest_from :
    ℕ → ℕ → List DeferEntry → Option (ℕ × DeferEntry) → Option (ℕ × DeferEntry)
oldest_from slot i [] oldest = oldest
oldest_from slot i (entry ∷ entries) oldest =
    oldest_from slot (i + 1) entries (if is_wanted slot entry then older oldest i entry else oldest)

unfoldable pub oldest_entry : DeferQueue → ℕ → Option (ℕ × DeferEntry)
unfolding oldest_from
oldest_entry defer slot = if defer.current == 0 then none else oldest_from slot 0 defer.entries none

-- The first entry that is not used, from the index `i` on.
unfoldable pub first_unused : ℕ → List DeferEntry → Option ℕ
first_unused i [] = none
first_unused i (entry ∷ entries) = if not entry.used then some i else first_unused (i + 1) entries

-- The entry that `decision_defer_push` stores.
abbrev pub deferred : ℕ → ℕ → DecisionEvent → DeferEntry
deferred now order event = record {
  event = record event { completed_subject_slot = no_slot };
  deferred_ns = now;
  order = order;
  used = true;
}

unfoldable pub decision_defer_push : ℕ → DeferQueue → DecisionEvent → DeferQueue × Result (Unit {0})
unfolding first_unused
decision_defer_push now defer event =
    if defer.current == defer.capacity
    then (defer, err enospc)
    else elim (first_unused 0 defer.entries) [
      | none ↦ (defer, err enospc)
      | some i ↦
          let current = add32 defer.current 1 in
          (
            record defer {
              entries = set defer.entries i (deferred now defer.next_order event);
              next_order = add64 defer.next_order 1;
              current = current;
              deferred_events = add64 defer.deferred_events 1;
              max_depth = if ltb defer.max_depth current then current else defer.max_depth;
            },
            ok tt,
          )
    ]

-- The event, if there is one to remove.
unfoldable pub pop_entry : DeferQueue → Option (ℕ × DeferEntry) → DeferQueue × Option DecisionEvent
pop_entry defer none = (defer, none)
pop_entry defer (some (i, entry)) = (
  record defer {
    entries = set defer.entries i (record entry { used = false });
    current = sub32 defer.current 1;
  },
  some entry.event,
)

unfoldable pub decision_defer_pop_slot : DeferQueue → ℕ → DeferQueue × Option DecisionEvent
unfolding pop_entry oldest_entry
decision_defer_pop_slot defer slot = pop_entry defer (oldest_entry defer slot)

unfoldable pub decision_defer_pop_any : DeferQueue → DeferQueue × Option DecisionEvent
unfolding pop_entry oldest_entry
decision_defer_pop_any defer = pop_entry defer (oldest_entry defer no_slot)

-- The loop of `decision_defer_pop_if` from the index `i` on; it ends when it has seen as many
-- entries as are used.
unfoldable pub pop_if_from :
    (DecisionEvent → Bool)
    → (current seen i : ℕ) → List DeferEntry
    → Option (ℕ × DeferEntry)
    → Option (ℕ × DeferEntry)
pop_if_from match current seen i [] oldest = oldest
pop_if_from match current seen i (entry ∷ entries) oldest = elim entry.used [
  | false ↦ pop_if_from match current seen (i + 1) entries oldest
  | true ↦
      let oldest' = if match entry.event then older oldest i entry else oldest in
      elim (seen + 1 == current) [
        | true ↦ oldest'
        | false ↦ pop_if_from match current (seen + 1) (i + 1) entries oldest'
      ]
]

unfoldable pub decision_defer_pop_if :
    (DecisionEvent → Bool) → DeferQueue → DeferQueue × Option DecisionEvent
unfolding pop_entry pop_if_from
decision_defer_pop_if match defer =
    if defer.current == 0
    then (defer, none)
    else pop_entry defer (pop_if_from match defer.current 0 0 defer.entries none)

unfoldable pub decision_defer_count_fallback : DeferQueue → DeferQueue
decision_defer_count_fallback defer = record defer { fallbacks = add64 defer.fallbacks 1 }

unfoldable pub decision_defer_has_events : DeferQueue → Bool
decision_defer_has_events defer = not (defer.current == 0)

-- The age of the oldest event, or zero if a clock was not read or went back.
unfoldable pub oldest_age_ns : ℕ → DeferQueue → ℕ
unfolding oldest_entry
oldest_age_ns now defer = elim (oldest_entry defer no_slot) [
  | none ↦ 0
  | some (i, entry) ↦
      if entry.deferred_ns == 0
      then 0
      else if ltb now entry.deferred_ns
      then 0
      else now - entry.deferred_ns
]

-- `struct decision_defer_metrics`; the age is `oldest_age`.
pub record DeferMetrics : Type 0 where
  pub capacity : ℕ
  pub current_depth : ℕ
  pub deferred_events : ℕ
  pub max_depth : ℕ
  pub fallbacks : ℕ
  pub oldest_age : ℕ

unfoldable pub decision_defer_metrics_snapshot_reset :
    ℕ → Bool → DeferQueue → DeferQueue × DeferMetrics
unfolding oldest_age_ns
decision_defer_metrics_snapshot_reset now reset defer =
    let metrics : DeferMetrics = record {
      capacity = defer.capacity;
      current_depth = defer.current;
      deferred_events = defer.deferred_events;
      max_depth = defer.max_depth;
      fallbacks = defer.fallbacks;
      oldest_age = oldest_age_ns now defer;
    } in
    (
      if reset
          then record defer { deferred_events = 0; max_depth = defer.current; fallbacks = 0 }
          else defer,
      metrics,
    )
