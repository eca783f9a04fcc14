-- ===== src/Worker/Tests.antt =====
-- A worker with one slot of subjects, whose process 1 builds until its second event, and the theorem
-- at it.
use fapolicyd.Prelude.{
  ℕ, ◌≡◌, refl, not, ◌&&◌, none, some, Option, List, [], ◌∷◌, arith, ◌==◌, if◌then◌else◌, replicate,
}
use fapolicyd.DecisionEvent.{Metadata, no_slot, decision_event_init}
use fapolicyd.Queue.{Queue, woken, q_enqueue, q_timed_dequeue, zero_entry}
use fapolicyd.Defer.{DeferQueue, empty_entry, decision_defer_push, decision_defer_pop_slot}
use fapolicyd.Defer.View.{IsValid, used_count, count_order}
use fapolicyd.Worker.{Subjects, Worker, dispatch_decision_event, run_slot, worker_turn}
use fapolicyd.Worker.Tally.{count, tally}
use fapolicyd.Worker.Turns.{IsWorking, Step, arrive, turn, step}
use fapolicyd.Worker.Lifetime.{run_steps, lifetime, Answers, lifetime-Answers}

-- The context is the process that builds in the slot, or 0.
abbrev one_slot : Subjects ℕ
one_slot = record {
  slot_of = λ c p. 0;
  is_blocked = λ c slot p. (c, not (c == 0) && not (c == p));
  is_unblocked = λ c slot. c == 0;
  decide = λ c e. if e.metadata.mask == 1 then (e.metadata.pid, no_slot) else (0, 0);
}

abbrev opened : Queue
opened = record {
  events = replicate 4 zero_entry;
  num_entries = 4;
  q_next = 0;
  q_last = 0;
  queue_length = 0;
  max_depth = 0;
  full_count = 0;
  sem = 0;
}

abbrev nothing_deferred : DeferQueue
nothing_deferred = record {
  entries = replicate 2 empty_entry;
  capacity = 2;
  current = 0;
  deferred_events = 0;
  max_depth = 0;
  fallbacks = 0;
  next_order = 0;
}

nothing_deferred-IsValid : IsValid nothing_deferred
unfolding used_count count_order
nothing_deferred-IsValid = record {
  places = refl;
  small = omega arith;
  counted = refl;
  once = λ k. ground arith;
  later = λ k h. ground arith;
  depth_seen = omega arith;
}

abbrev idle : Worker ℕ
idle = record { id = 0; queue = opened; defer = nothing_deferred; context = 0; answered = [] }

abbrev event : ℕ → ℕ → Metadata
event mask pid = record { mask = mask; fd = 5; pid = pid }

-- Process 1 starts to build, process 2 has to wait, and process 1 comes again.
abbrev script : List Step
script =
    arrive 1 1 (decision_event_init (event 1 1))
    ∷ turn 1 (woken ∷ [])
    ∷ arrive 2 2 (decision_event_init (event 2 2))
    ∷ turn 2 (woken ∷ [])
    ∷ arrive 3 3 (decision_event_init (event 2 1))
    ∷ turn 3 (woken ∷ [])
    ∷ []

-- The event of process 2 is answered after those of process 1.
abbrev answers : Option (Worker ℕ × List Metadata) → List Metadata
answers none = []
answers (some (w, ms)) = w.answered

script-answers : answers (run_steps one_slot script idle) ≡ event 2 2 ∷ event 2 1 ∷ event 1 1 ∷ []
unfolding run_steps step q_enqueue worker_turn q_timed_dequeue dispatch_decision_event run_slot
    decision_defer_push decision_defer_pop_slot decision_event_init
script-answers = refl

idle-IsWorking : IsWorking idle 6
idle-IsWorking = record {
  queue_valid = omega arith;
  defer_valid = nothing_deferred-IsValid;
  orders_left = omega arith;
}

lifetime-Answers_example :
    Answers one_slot (λ m. m.pid == 2) idle (lifetime one_slot script (replicate 6 1) idle)
unfolding count tally
lifetime-Answers_example =
    lifetime-Answers one_slot (λ m. m.pid == 2) script (replicate 6 1) idle idle-IsWorking
      (omega arith)
