-- ===== src/Queue/Tests.antt =====
-- Runs of a queue of two entries, and the theorems at these inputs.
use fapolicyd.Prelude.{ℕ, ◌≡◌, refl, true, max, List, [], ◌∷◌, arith, replicate}
use fapolicyd.DecisionEvent.{DecisionEvent}
use fapolicyd.Queue.{
  Queue, ok, err, einval, Resources, q_open, q_enqueue, q_dequeue, q_timed_dequeue, q_shutdown,
  q_max_depth_snapshot_reset, q_max_depth_snapshot_restore, woken, interrupted, timed_out, blocked,
  empty, got, zero_entry, new_entry,
}
use fapolicyd.Queue.Fifo
use fapolicyd.Queue.Fifo.{Op, enqueue, dequeue, timed_dequeue, shutdown, stored, full, took, done}
use fapolicyd.Queue.Inv.{IsValid}
use fapolicyd.Queue.Refine.{view, step, run, run_refines}
use fapolicyd.Queue.Metrics.{run_state, peak, max_depth-run, restore-reset}

abbrev plenty : Resources
plenty = record { malloc = true; calloc = true; sem_init = true }

abbrev opened : Queue
opened = record {
  events = replicate 2 zero_entry;
  num_entries = 2;
  q_next = 0;
  q_last = 0;
  queue_length = 0;
  max_depth = 0;
  full_count = 0;
  sem = 0;
}

abbrev event : ℕ → DecisionEvent
event pid = record {
  metadata = record { mask = 0; fd = 5; pid = pid };
  enqueue_ns = 7;
  subject_slot = 1;
  completed_subject_slot = 1;
  worker_index = 0;
}

-- The older event in the second entry, the younger in the first.
abbrev wrapped : Queue
wrapped = record opened {
  events = new_entry 30 7 (event 12) ∷ new_entry 20 7 (event 11) ∷ [];
  q_next = 1;
  q_last = 1;
  queue_length = 2;
  max_depth = 2;
  sem = 2;
}

wrapped-IsValid : IsValid wrapped
wrapped-IsValid = omega arith

abbrev script : List Op
script =
    enqueue 40 7 (event 13)
    ∷ dequeue (interrupted ∷ woken ∷ [])
    ∷ enqueue 50 7 (event 14)
    ∷ timed_dequeue (woken ∷ [])
    ∷ dequeue (woken ∷ [])
    ∷ timed_dequeue (timed_out ∷ [])
    ∷ shutdown
    ∷ dequeue (woken ∷ [])
    ∷ dequeue (woken ∷ [])
    ∷ []

run-wrapped :
    run wrapped script
    ≡ full
      ∷ took (got (event 11))
      ∷ stored
      ∷ took (got (event 12))
      ∷ took (got (event 14))
      ∷ took empty
      ∷ done
      ∷ took empty
      ∷ took blocked
      ∷ []
unfolding run step q_enqueue q_dequeue q_timed_dequeue q_shutdown
run-wrapped = refl

q_open_limits :
    (q_open 80 plenty 0 ≡ err einval)
    × (q_open 80 plenty 4_294_967_296 ≡ err einval)
    × (q_open 80 plenty 2 ≡ ok opened)
unfolding q_open
q_open_limits = (refl, refl, refl)

run_refines_example : run wrapped script ≡ Fifo.run 2 (view wrapped) script
run_refines_example = run_refines script wrapped-IsValid

max_depth-run_example : (run_state wrapped script).max_depth ≡ max 2 (peak wrapped script)
max_depth-run_example = max_depth-run script wrapped-IsValid

restore-reset_example :
    let (q₀, saved) = q_max_depth_snapshot_reset wrapped in
    let (q₁, reported) = q_max_depth_snapshot_restore (run_state q₀ script) saved in
    (q₁.max_depth ≡ (run_state wrapped script).max_depth) × (reported ≡ max 2 (peak wrapped script))
restore-reset_example = restore-reset script wrapped-IsValid
