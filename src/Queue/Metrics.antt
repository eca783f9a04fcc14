-- ===== src/Queue/Metrics.antt =====
-- The counters of a queue: what the maximum depth records, and what a reset keeps.
use fapolicyd.Prelude.{ℕ, ◌≤◌, ◌≡◌, refl, true, max, List, [], ◌∷◌, arith}
use fapolicyd.Queue.{
  Queue, Wait, woken, interrupted, timed_out, failed, take_entry, q_enqueue, q_dequeue,
  q_timed_dequeue, q_shutdown, q_metrics_snapshot, q_metrics_snapshot_reset,
  q_max_depth_snapshot_reset, q_max_depth_snapshot_restore,
}
use fapolicyd.Queue.Fifo.{Op, enqueue, dequeue, timed_dequeue, shutdown}
use fapolicyd.Queue.Inv.{IsValid, q_max_depth_snapshot_reset-IsValid}
use fapolicyd.Queue.Refine.{view, step, step-IsValid}

unfoldable pub run_state : Queue → List Op → Queue
run_state q [] = q
run_state q (op ∷ ops) = run_state (step q op).0 ops

-- The largest number of queued events after any of the operations.
unfoldable pub peak : Queue → List Op → ℕ
peak q [] = 0
peak q (op ∷ ops) = let q' = (step q op).0 in max q'.queue_length (peak q' ops)

abbrev with_max : Queue → ℕ → Queue
with_max q m = record q { max_depth = m }

dequeue-with_max :
    (ws : List Wait) (q : Queue) (m : ℕ)
    → (q_dequeue ws (with_max q m)).0 ≡ with_max (q_dequeue ws q).0 m
unfolding q_dequeue take_entry
dequeue-with_max [] q m = refl
dequeue-with_max (woken ∷ ws) q m = ground arith
dequeue-with_max (interrupted ∷ ws) q m = dequeue-with_max ws q m
dequeue-with_max (timed_out ∷ ws) q m = refl
dequeue-with_max (failed ∷ ws) q m = refl

timed_dequeue-with_max :
    (ws : List Wait) (q : Queue) (m : ℕ)
    → (q_timed_dequeue ws (with_max q m)).0 ≡ with_max (q_timed_dequeue ws q).0 m
unfolding q_timed_dequeue take_entry
timed_dequeue-with_max [] q m = refl
timed_dequeue-with_max (woken ∷ ws) q m = ground arith
timed_dequeue-with_max (interrupted ∷ ws) q m = timed_dequeue-with_max ws q m
timed_dequeue-with_max (timed_out ∷ ws) q m = refl
timed_dequeue-with_max (failed ∷ ws) q m = refl

-- Nothing but the maximum depth depends on the maximum depth.
step-with_max :
    (q : Queue) (m : ℕ) (op : Op)
    → (m' : ℕ) × ((step (with_max q m) op).0 ≡ with_max (step q op).0 m')
unfolding step
step-with_max q m (enqueue queued_ns enqueue_ns event) =
    unfold q_enqueue in
    ((step (with_max q m) (enqueue queued_ns enqueue_ns event)).0.max_depth, ground arith)
step-with_max q m (dequeue ws) = (m, dequeue-with_max ws q m)
step-with_max q m (timed_dequeue ws) = (m, timed_dequeue-with_max ws q m)
step-with_max q m shutdown = (m, unfold q_shutdown in refl)

peak-with_max : (ops : List Op) (q : Queue) (m : ℕ) → peak (with_max q m) ops ≡ peak q ops
unfolding peak
peak-with_max [] q m = refl
peak-with_max (op ∷ ops) q m =
    let (m', e) = step-with_max q m op in rw (e, peak-with_max ops (step q op).0 m')

dequeue-le :
    (ws : List Wait) {q : Queue}
    → IsValid q
    → ((q_dequeue ws q).0.queue_length ≤ q.queue_length)
      × ((q_dequeue ws q).0.max_depth ≡ q.max_depth)
unfolding q_dequeue take_entry
dequeue-le [] v = (omega arith, refl)
dequeue-le (woken ∷ ws) v = ground arith
dequeue-le (interrupted ∷ ws) v = dequeue-le ws v
dequeue-le (timed_out ∷ ws) v = (omega arith, refl)
dequeue-le (failed ∷ ws) v = (omega arith, refl)

timed_dequeue-le :
    (ws : List Wait) {q : Queue}
    → IsValid q
    → ((q_timed_dequeue ws q).0.queue_length ≤ q.queue_length)
      × ((q_timed_dequeue ws q).0.max_depth ≡ q.max_depth)
unfolding q_timed_dequeue take_entry
timed_dequeue-le [] v = (omega arith, refl)
timed_dequeue-le (woken ∷ ws) v = ground arith
timed_dequeue-le (interrupted ∷ ws) v = timed_dequeue-le ws v
timed_dequeue-le (timed_out ∷ ws) v = (omega arith, refl)
timed_dequeue-le (failed ∷ ws) v = (omega arith, refl)

max_depth-step :
    {q : Queue}
    → IsValid q
    → (op : Op) → (step q op).0.max_depth ≡ max q.max_depth (step q op).0.queue_length
unfolding step
max_depth-step v (enqueue queued_ns enqueue_ns event) = unfold q_enqueue in ground arith
max_depth-step v (dequeue ws) = ground (arith, dequeue-le ws v)
max_depth-step v (timed_dequeue ws) = ground (arith, timed_dequeue-le ws v)
max_depth-step v shutdown = unfold q_shutdown in ground arith

-- After a run of calls on a valid queue the maximum depth is the larger of what it was before and
-- the largest number of queued events in the run.
pub max_depth-run :
    (ops : List Op) {q : Queue}
    → IsValid q
    → (run_state q ops).max_depth ≡ max q.max_depth (peak q ops)
unfolding run_state peak
max_depth-run [] v = omega arith
max_depth-run (op ∷ ops) v =
    omega (arith, max_depth-run ops (step-IsValid v op), max_depth-step v op)

-- Calls on a valid queue between a reset of the maximum depth and its restoration leave the counter
-- as if it had not been reset, and the report is the largest number of queued events from the reset
-- on.
pub restore-reset :
    (ops : List Op) {q : Queue}
    → IsValid q
    → let (q₀, saved) = q_max_depth_snapshot_reset q in
      let (q₁, reported) = q_max_depth_snapshot_restore (run_state q₀ ops) saved in
      (q₁.max_depth ≡ (run_state q ops).max_depth) × (reported ≡ max q.queue_length (peak q ops))
unfolding q_max_depth_snapshot_reset q_max_depth_snapshot_restore
restore-reset ops {q} v = ground (
  arith,
  max_depth-run ops v,
  max_depth-run ops (q_max_depth_snapshot_reset-IsValid v),
  peak-with_max ops q (q_max_depth_snapshot_reset q).0.max_depth,
)

-- A snapshot that resets reports what a plain snapshot reports, and leaves the queued events and
-- their number alone; only the interval counters start again, the maximum depth at the number of
-- events that are still queued.
pub snapshot_reset_lem :
    (now : ℕ) (q : Queue)
    → let (q', report) = q_metrics_snapshot_reset now true q in
      (report ≡ q_metrics_snapshot now q)
      × (view q' ≡ view q)
      × (q'.max_depth ≡ q'.queue_length)
      × (q'.full_count ≡ 0)
unfolding q_metrics_snapshot_reset
snapshot_reset_lem now q = ground arith
