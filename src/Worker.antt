-- ===== src/Worker.antt =====
-- src/daemon/decision-worker.c: the routing of events to the workers of the pool, and what one worker
-- does with the events of its queue: it defers them, decides them, or answers them at the shutdown.
-- Health, timing and reports are left out.
pub mod System
pub mod Tally
pub mod Conserve
pub mod Turns
pub mod Steps
pub mod Shutdown
pub mod Lifetime
mod Tests
use fapolicyd.Prelude.{
  ℕ, zero, suc, ◌+◌, ◌%◌, Bool, true, false, not, ◌&&◌, Option, none, some, List, [], ◌∷◌, ltb, leb,
  ◌==◌, if◌then◌else◌, length, get_elem?, set,
}
use fapolicyd.DecisionEvent.{Metadata, DecisionEvent, no_slot, no_worker, decision_event_init}
use fapolicyd.Queue.{
  Queue, Result, ok, err, Wait, q_enqueue, q_dequeue, q_timed_dequeue, Dequeued, got, blocked,
  error, empty,
}
use fapolicyd.Defer.{
  DeferEntry, DeferQueue, older, pop_entry, decision_defer_push, decision_defer_pop_slot,
  decision_defer_pop_any, decision_defer_count_fallback, decision_defer_has_events,
}

-- What a worker asks of event.c and policy.c, for a context `C` of theirs: `event_subject_slot`,
-- `event_subject_slot_is_blocked`, `event_subject_slot_is_unblocked`, and `make_policy_decision` with
-- the `completed_subject_slot` that it sets. Worker/System gives them from the models of those files.
pub record Subjects (C : Type 0) : Type 0 where
  pub slot_of : C → ℕ → ℕ
  pub is_blocked : C → ℕ → ℕ → C × Bool
  pub is_unblocked : C → ℕ → Bool
  pub decide : C → DecisionEvent → C × ℕ

-- `struct decision_worker`; `answered` holds the events that `make_policy_decision` or `reply_event`
-- has had, the newest first.
pub record Worker (C : Type 0) : Type 0 where
  pub id : ℕ
  pub queue : Queue
  pub defer : DeferQueue
  pub context : C
  pub answered : List Metadata

-- `event->worker_index` and `event->subject_slot` at the start of `dispatch_decision_event`.
abbrev pub owned : ℕ → ℕ → DecisionEvent → DecisionEvent
owned id slot event = record event {
  worker_index = if event.worker_index == no_worker then id else event.worker_index;
  subject_slot = if event.subject_slot == no_slot then slot else event.subject_slot;
}

module _ {C : Type 0} (s : Subjects C) where
  -- `run_decision_event`, and the slot that the decision completed.
  unfoldable pub run_decision_event : Worker C → DecisionEvent → Worker C × ℕ
  run_decision_event w event =
      let (context, slot) = s.decide w.context event in
      (record w { context = context; answered = event.metadata ∷ w.answered }, slot)

  -- The event that `decision_defer_pop_slot` gave, if any, goes through the loop again.
  abbrev pub continue_slot :
      (Worker C → DecisionEvent → Option (Worker C))
      → Worker C
      → DeferQueue × Option DecisionEvent
      → Option (Worker C)
  continue_slot rest w (defer, none) = some (record w { defer = defer })
  continue_slot rest w (defer, some event) = rest (record w { defer = defer }) event

  -- The `for` loop of `dispatch_decision_event` on fuel; `none` means that the fuel ran out.
  unfoldable pub run_slot : ℕ → Worker C → DecisionEvent → Option (Worker C)
  unfolding run_decision_event
  run_slot zero w event = none
  run_slot (suc fuel) w event =
      let rest = run_slot fuel in
      let (w', slot) = run_decision_event w event in
      if slot == no_slot
      then some w'
      else if not (s.is_unblocked w'.context slot)
      then some w'
      else continue_slot rest w' (decision_defer_pop_slot w'.defer slot)

  -- What follows the push of a blocked event.
  abbrev pub parked :
      ℕ → Worker C → DecisionEvent → DeferQueue × Result (Unit {0}) → Option (Worker C)
  parked fuel w event (defer, ok _) = some (record w { defer = defer })
  parked fuel w event (defer, err e) =
      run_slot fuel (record w { defer = decision_defer_count_fallback defer }) event

  -- `dispatch_decision_event`; each round of its loop but the last takes an entry out of the defer
  -- array. `now` is the clock for a push.
  unfoldable pub dispatch_decision_event : ℕ → Worker C → DecisionEvent → Option (Worker C)
  dispatch_decision_event now w event_ =
      let event = owned w.id (s.slot_of w.context event_.metadata.pid) event_ in
      let (context, held) = s.is_blocked w.context event.subject_slot event.metadata.pid in
      let fuel = suc w.defer.current in
      let w' = record w { context = context } in
      if held
      then parked fuel w' event (decision_defer_push now w.defer event)
      else run_slot fuel w' event

  -- The loop of `decision_defer_pop_if` with `deferred_event_is_ready`, which may evict a subject,
  -- from the index `i` on.
  unfoldable pub ready_from :
      C
      → (current seen i : ℕ) → List DeferEntry
      → Option (ℕ × DeferEntry)
      → C × Option (ℕ × DeferEntry)
  ready_from c current seen i [] oldest = (c, oldest)
  ready_from c current seen i (entry ∷ entries) oldest = elim entry.used [
    | false ↦ ready_from c current seen (i + 1) entries oldest
    | true ↦
        let (c', held) = s.is_blocked c entry.event.subject_slot entry.event.metadata.pid in
        let oldest' = if not held then older oldest i entry else oldest in
        elim (seen + 1 == current) [
          | true ↦ (c', oldest')
          | false ↦ ready_from c' current (seen + 1) (i + 1) entries oldest'
        ]
  ]

  abbrev pub dispatch_popped : ℕ → Worker C → DeferQueue × Option DecisionEvent → Option (Worker C)
  dispatch_popped now w (defer, none) = some (record w { defer = defer })
  dispatch_popped now w (defer, some event) =
      dispatch_decision_event now (record w { defer = defer }) event

  -- A round of the loop of `release_ready_deferred_events`.
  unfoldable pub release_ready : ℕ → Worker C → Option (Worker C)
  unfolding ready_from
  release_ready now w =
      let (c, oldest) = ready_from w.context w.defer.current 0 0 w.defer.entries none in
      if decision_defer_has_events w.defer
      then dispatch_popped now (record w { context = c }) (pop_entry w.defer oldest)
      else some w

  abbrev pub dispatch_dequeued : ℕ → Worker C → Queue × Dequeued → Option (Worker C)
  dispatch_dequeued now w (queue, got event) =
      dispatch_decision_event now (record w { queue = queue }) event
  dispatch_dequeued now w (queue, _) = some (record w { queue = queue })

  -- A turn of the loop of `decision_worker_main`; if the clock fails, `q_dequeue` waits in its place.
  unfoldable pub worker_turn : ℕ → List Wait → Worker C → Option (Worker C)
  worker_turn now waits w = dispatch_dequeued now w (q_timed_dequeue waits w.queue)

  abbrev pub answer_dequeued : (Worker C → Worker C) → Worker C → Queue × Dequeued → Worker C
  answer_dequeued rest w (queue, got event) =
      rest (record w { queue = queue; answered = event.metadata ∷ w.answered })
  answer_dequeued rest w (queue, _) = record w { queue = queue }

  -- `shutdown_queued_events`, with the outcomes of the waits of each round; it stops where they end.
  unfoldable pub shutdown_queued_events : List (List Wait) → Worker C → Worker C
  shutdown_queued_events [] w = w
  shutdown_queued_events (waits ∷ rounds) w =
      let rest = shutdown_queued_events rounds in
      if w.queue.queue_length == 0 then w else answer_dequeued rest w (q_dequeue waits w.queue)

  abbrev pub answer_popped :
      (Worker C → Option (Worker C))
      → Worker C
      → DeferQueue × Option DecisionEvent
      → Option (Worker C)
  answer_popped rest w (defer, none) = some (record w { defer = defer })
  answer_popped rest w (defer, some event) =
      rest (record w { defer = defer; answered = event.metadata ∷ w.answered })

  -- The loop of `shutdown_deferred_events` on fuel.
  unfoldable pub answer_deferred : ℕ → Worker C → Option (Worker C)
  answer_deferred zero w = none
  answer_deferred (suc fuel) w =
      let rest = answer_deferred fuel in answer_popped rest w (decision_defer_pop_any w.defer)

  unfoldable pub shutdown_deferred_events : Worker C → Option (Worker C)
  unfolding answer_deferred
  shutdown_deferred_events w = answer_deferred (suc w.defer.current) w

-- `dispatcher_subject_key`
abbrev pub dispatcher_subject_key : Option Metadata → ℕ
dispatcher_subject_key none = 0
dispatcher_subject_key (some m) = m.pid

unfoldable pub dispatcher_worker_index_from_key : ℕ → ℕ → ℕ
dispatcher_worker_index_from_key key worker_count =
    if worker_count == 0 then 0 else key % worker_count

-- ESHUTDOWN, ENODEV, and what `q_enqueue` fails with.
pub data PoolError : Type 0 where
  shut_down no_device queue_error : PoolError

-- The queues of the active workers, and `decision_worker_pool_stopping`.
pub record Pool : Type 0 where
  pub queues : List (Option Queue)
  pub stopping : Bool

pub data Enqueued : Type 0 where
  accepted : Enqueued
  refused : PoolError → Enqueued

abbrev pub enqueued_at : Pool → ℕ → Queue × Result (Unit {0}) → Pool × Enqueued
enqueued_at pool index (q, ok _) =
    (record pool { queues = set pool.queues index (some q) }, accepted)
enqueued_at pool index (q, err e) =
    (record pool { queues = set pool.queues index (some q) }, refused queue_error)

-- `decision_worker_pool_enqueue` with `dispatcher_worker_for_metadata`, under the lock of the pool.
unfoldable pub decision_worker_pool_enqueue : ℕ → ℕ → Pool → Metadata → Pool × Enqueued
unfolding dispatcher_worker_index_from_key
decision_worker_pool_enqueue queued_ns enqueue_ns pool m =
    let index =
      dispatcher_worker_index_from_key (dispatcher_subject_key (some m)) (length pool.queues) in
    let event = record (decision_event_init m) { worker_index = index } in
    if pool.stopping then (pool, refused shut_down) else elim (get_elem? pool.queues index) [
      | none ↦ (pool, refused no_device)
      | some o ↦ elim o [
        | none ↦ (pool, refused no_device)
        | some q ↦ enqueued_at pool index (q_enqueue queued_ns enqueue_ns q event)
      ]
    ]
