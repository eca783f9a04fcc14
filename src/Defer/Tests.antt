-- ===== src/Defer/Tests.antt =====
-- A defer array of three places with two events, and the theorems at this input.
use fapolicyd.Prelude.{ℕ, ◌≡◌, refl, true, not, ◌&&◌, some, [], ◌∷◌, arith, ◌==◌, if◌then◌else◌}
use fapolicyd.DecisionEvent.{DecisionEvent, no_slot}
use fapolicyd.Queue.{ok, err, enospc}
use fapolicyd.Defer.{
  DeferEntry, DeferQueue, empty_entry, decision_defer_init, decision_defer_push,
  decision_defer_pop_slot, decision_defer_pop_any, decision_defer_pop_if,
}
use fapolicyd.Defer.View.{IsValid, used_count, count_order}
use fapolicyd.Defer.Refine.{
  event_of, Counts, MadeFor, PopOf, in_slot, decision_defer_init_lem, decision_defer_push_lem,
  decision_defer_pop_lem, decision_defer_pop_if_lem,
}

abbrev event : ℕ → ℕ → DecisionEvent
event pid slot = record {
  metadata = record { mask = 0; fd = 5; pid = pid };
  enqueue_ns = 7;
  subject_slot = slot;
  completed_subject_slot = no_slot;
  worker_index = 0;
}

abbrev entry : ℕ → DecisionEvent → DeferEntry
entry order e = record { event = e; deferred_ns = 1; order = order; used = true }

-- The older event in the last place.
abbrev waiting : DeferQueue
waiting = record {
  entries = entry 8 (event 11 2) ∷ empty_entry ∷ entry 3 (event 12 2) ∷ [];
  capacity = 3;
  current = 2;
  deferred_events = 9;
  max_depth = 2;
  fallbacks = 0;
  next_order = 9;
}

waiting-IsValid : IsValid waiting
unfolding used_count count_order
waiting-IsValid = record {
  places = refl;
  small = omega arith;
  counted = refl;
  once = λ k. ground arith;
  later = λ k h. ground arith;
  depth_seen = omega arith;
}

pops_older : (decision_defer_pop_slot waiting 2).1 ≡ some (event 12 2)
unfolding decision_defer_pop_slot
pops_older = refl

decision_defer_init_lem_example : MadeFor 0 true 1600 (decision_defer_init 0 true 1600)
decision_defer_init_lem_example = decision_defer_init_lem 0 true 1600 (omega arith)

decision_defer_push_lem_example :
    let (defer', r) = decision_defer_push 50 waiting (event 13 4) in
    IsValid defer'
    × (r ≡ (if 2 == 3 then err enospc else ok tt))
    × ((k : ℕ)
        → event_of defer' k ≡ (
            if not (2 == 3) && k == 9
            then some (record (event 13 4) { completed_subject_slot = no_slot })
            else event_of waiting k))
    × Counts (2 == 3) waiting defer'
decision_defer_push_lem_example =
    decision_defer_push_lem waiting-IsValid 50 (event 13 4) (omega arith)

decision_defer_pop_lem_example :
    PopOf (in_slot 2) waiting (decision_defer_pop_slot waiting 2)
    × PopOf (λ e. true) waiting (decision_defer_pop_any waiting)
decision_defer_pop_lem_example = decision_defer_pop_lem waiting-IsValid 2

decision_defer_pop_if_lem_example :
    PopOf
      (λ e. e.metadata.pid == 11)
      waiting
      (decision_defer_pop_if (λ e. e.metadata.pid == 11) waiting)
decision_defer_pop_if_lem_example =
    decision_defer_pop_if_lem waiting-IsValid (λ e. e.metadata.pid == 11)
