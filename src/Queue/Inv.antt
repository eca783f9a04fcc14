-- ===== src/Queue/Inv.antt =====
-- The representation invariant of `struct queue`.
use native.Mathlib.Decide.{dec_lt}
use native.Mathlib.Nat.{mod_self, mod-eq_of_lt, mod-add-mod, add_assoc}
use fapolicyd.Prelude.{
  ℕ, ◌+◌, ◌-◌, ◌%◌, ◌≤◌, ◌<◌, ◌≡◌, Bool, true, false, List, [], ◌∷◌, arith, length, length-set,
  length-replicate,
}
use fapolicyd.Prelude.Words.{u32_mod}
use fapolicyd.DecisionEvent.{DecisionEvent}
use fapolicyd.Queue.{
  Queue, ok, Resources, q_open, advance, new_entry, q_enqueue, Wait, woken, interrupted, timed_out,
  failed, take_entry, q_dequeue, q_timed_dequeue, q_shutdown, q_metrics_snapshot_reset,
  q_max_depth_snapshot_reset, q_max_depth_snapshot_restore, zero_entry,
}

-- `no_lost_post`: each queued event has a post of the semaphore that is not yet waited for.
pub record IsValid (q : Queue) : Type 0 where
  pub storage : length q.events ≡ q.num_entries
  pub positive : 0 < q.num_entries
  pub small : q.num_entries < u32_mod
  pub next_in : q.q_next < q.num_entries
  pub last_in : q.q_last < q.num_entries
  pub length_in : q.queue_length ≤ q.num_entries
  pub next_at : q.q_next ≡ (q.q_last + q.queue_length) % q.num_entries
  pub no_lost_post : q.queue_length ≤ q.sem
  pub depth_seen : q.queue_length ≤ q.max_depth
  pub max_in : q.max_depth ≤ q.num_entries

-- The comparison in the code steps round the ring, and the `unsigned int` sum does not wrap.
pub advance-eq-mod : (num n : ℕ) → 0 < num → num < u32_mod → n < num → advance num n ≡ (n + 1) % num
unfolding advance
advance-eq-mod num n h k l = elim (dec_lt (n + 1) num) [
  | yes p ↦ ground (arith, mod-eq_of_lt p)
  | no p ↦ let e : n + 1 ≡ num = omega arith in rw e (ground (arith, mod_self num))
]

pub advance-lt : (num n : ℕ) → n < num → num < u32_mod → advance num n < num
unfolding advance
advance-lt num n l k = ground arith

-- One more entry at the producer's end.
next-add : (num l n : ℕ) → 0 < num → ((l + n) % num + 1) % num ≡ (l + (n + 1)) % num
next-add num l n h = rw (mod-add-mod, add_assoc)

-- One entry less at the consumer's end.
last-add : (num l n : ℕ) → 0 < num → 0 < n → ((l + 1) % num + (n - 1)) % num ≡ (l + n) % num
last-add num l n h k = let e : l + 1 + (n - 1) ≡ l + n = omega arith in rw (mod-add-mod, e)

module _ {q : Queue} (v : IsValid q) where
  -- A call of `q_enqueue` leaves a valid queue valid, whether the event is stored or not.
  pub q_enqueue-IsValid :
      (queued_ns enqueue_ns : ℕ) (event : DecisionEvent)
      → IsValid (q_enqueue queued_ns enqueue_ns q event).0
  unfolding q_enqueue
  q_enqueue-IsValid queued_ns enqueue_ns event = ground (
    arith,
    length-set q.events q.q_next (new_entry queued_ns enqueue_ns event),
    advance-eq-mod q.num_entries q.q_next,
    advance-lt q.num_entries q.q_next,
    next-add q.num_entries q.q_last q.queue_length,
  )

  pub take_entry-IsValid : 0 < q.sem → IsValid (take_entry q).0
  unfolding take_entry
  take_entry-IsValid posted = ground (
    arith,
    advance-eq-mod q.num_entries q.q_last,
    advance-lt q.num_entries q.q_last,
    last-add q.num_entries q.q_last q.queue_length,
  )

  -- Every dequeue, however its waits end, leaves a valid queue.
  pub q_dequeue-IsValid : (ws : List Wait) → IsValid (q_dequeue ws q).0
  unfolding q_dequeue
  q_dequeue-IsValid [] = v
  q_dequeue-IsValid (woken ∷ ws) = ground (arith, take_entry-IsValid)
  q_dequeue-IsValid (interrupted ∷ ws) = q_dequeue-IsValid ws
  q_dequeue-IsValid (timed_out ∷ ws) = v
  q_dequeue-IsValid (failed ∷ ws) = v

  pub q_timed_dequeue-IsValid : (ws : List Wait) → IsValid (q_timed_dequeue ws q).0
  unfolding q_timed_dequeue
  q_timed_dequeue-IsValid [] = v
  q_timed_dequeue-IsValid (woken ∷ ws) = ground (arith, take_entry-IsValid)
  q_timed_dequeue-IsValid (interrupted ∷ ws) = q_timed_dequeue-IsValid ws
  q_timed_dequeue-IsValid (timed_out ∷ ws) = v
  q_timed_dequeue-IsValid (failed ∷ ws) = v

  pub q_shutdown-IsValid : IsValid (q_shutdown q)
  unfolding q_shutdown
  q_shutdown-IsValid = ground arith

  pub q_metrics_snapshot_reset-IsValid :
      (now : ℕ) (reset : Bool) → IsValid (q_metrics_snapshot_reset now reset q).0
  unfolding q_metrics_snapshot_reset
  q_metrics_snapshot_reset-IsValid now true = ground arith
  q_metrics_snapshot_reset-IsValid now false = v

  pub q_max_depth_snapshot_reset-IsValid : IsValid (q_max_depth_snapshot_reset q).0
  unfolding q_max_depth_snapshot_reset
  q_max_depth_snapshot_reset-IsValid = ground arith

  -- What was saved must itself have been a depth of this queue.
  pub q_max_depth_snapshot_restore-IsValid :
      (saved : ℕ) → saved ≤ q.num_entries → IsValid (q_max_depth_snapshot_restore q saved).0
  unfolding q_max_depth_snapshot_restore
  q_max_depth_snapshot_restore-IsValid saved h = ground arith

-- A queue that `q_open` opens is valid, empty and of the size that was asked for.
pub q_open-IsValid :
    (entry_size num_entries : ℕ) (r : Resources) {q : Queue}
    → q_open entry_size r num_entries ≡ ok q
    → IsValid q × (q.num_entries ≡ num_entries) × (q.queue_length ≡ 0)
unfolding q_open
q_open-IsValid entry_size num_entries r h = ground (arith, length-replicate num_entries zero_entry)
