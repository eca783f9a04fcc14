-- ===== src/Queue.antt =====
-- src/library/queue.c and queue.h: the ring of decision events between the fanotify reader and a
-- decision worker. A function that updates `*q` returns the new queue beside its result. The
-- clocks and the outcomes of the allocations and of the semaphore waits are arguments.
pub mod Inv
pub mod Fifo
pub mod Refine
pub mod Metrics
mod Tests
use fapolicyd.Prelude.{
  ℕ, ◌+◌, ◌-◌, ◌*◌, ◌/◌, ◌%◌, Bool, true, false, ◌||◌, Option, none, some, List, [], ◌∷◌, ltb, leb,
  ◌==◌, if◌then◌else◌, get_or, set, replicate,
}
use fapolicyd.Prelude.Words.{u32_mod, u64_mod, add32, sub32, add64}
use fapolicyd.DecisionEvent.{Metadata, DecisionEvent}

-- `struct queue_entry`
pub record QueueEntry : Type 0 where
  pub event : DecisionEvent
  pub queued_ns : ℕ

-- `struct queue`; `sem` is the value of the semaphore.
pub record Queue : Type 0 where
  pub events : List QueueEntry
  pub num_entries : ℕ
  pub q_next : ℕ
  pub q_last : ℕ
  pub queue_length : ℕ
  pub max_depth : ℕ
  pub full_count : ℕ
  pub sem : ℕ

pub data Errno : Type 0 where
  einval enospc enomem esem : Errno
  other : ℕ → Errno

pub data Result (A : Type 0) : Type 0 where
  ok : A → Result A
  err : Errno → Result A

-- What `calloc` leaves in an entry.
abbrev pub zero_entry : QueueEntry
zero_entry = record {
  event = record {
    metadata = record { mask = 0; fd = 0; pid = 0 };
    enqueue_ns = 0;
    subject_slot = 0;
    completed_subject_slot = 0;
    worker_index = 0;
  };
  queued_ns = 0;
}

-- `queue_now_ns`: what `clock_gettime` gave, or zero if it failed.
unfoldable pub queue_now_ns : Option (ℕ × ℕ) → ℕ
queue_now_ns none = 0
queue_now_ns (some (sec, nsec)) = (sec * 1_000_000_000 + nsec) % u64_mod

-- Whether `malloc`, `calloc` and `sem_init` succeed.
pub record Resources : Type 0 where
  pub malloc : Bool
  pub calloc : Bool
  pub sem_init : Bool

-- `entry_size` is `sizeof(struct queue_entry)`.
unfoldable pub q_open : ℕ → Resources → ℕ → Result Queue
q_open entry_size r num_entries =
    if num_entries == 0
      || ltb (u32_mod - 1) num_entries
      || ltb ((u64_mod - 1) / entry_size) num_entries
    then err einval
    else if r.malloc
    then if r.calloc
      then if r.sem_init
        then ok (record {
          events = replicate num_entries zero_entry;
          num_entries = num_entries;
          q_next = 0;
          q_last = 0;
          queue_length = 0;
          max_depth = 0;
          full_count = 0;
          sem = 0;
        })
        else err esem
      else err enomem
    else err enomem

-- `n++; if (n == q->num_entries) n = 0;`
unfoldable pub advance : ℕ → ℕ → ℕ
advance num_entries n = let m = add32 n 1 in if m == num_entries then 0 else m

-- `while (n > old && !compare_exchange(&max_depth, &old, n));`: with no other writer the loop ends
-- with the larger of the two.
unfoldable pub raise_max : ℕ → ℕ → ℕ
raise_max old n = if ltb old n then n else old

-- The entry that `q_enqueue` stores.
abbrev pub new_entry : ℕ → ℕ → DecisionEvent → QueueEntry
new_entry queued_ns enqueue_ns event = record {
  event = record event { enqueue_ns = enqueue_ns };
  queued_ns = queued_ns;
}

-- `queued_ns` is the reading of the monotonic clock, `enqueue_ns` that of the timing module.
unfoldable pub q_enqueue : ℕ → ℕ → Queue → DecisionEvent → Queue × Result (Unit {0})
unfolding advance raise_max
q_enqueue queued_ns enqueue_ns q event =
    if q.queue_length == q.num_entries
    then (record q { full_count = add64 q.full_count 1 }, err enospc)
    else (
      record q {
        events = set q.events q.q_next (new_entry queued_ns enqueue_ns event);
        q_next = advance q.num_entries q.q_next;
        queue_length = add32 q.queue_length 1;
        max_depth = raise_max q.max_depth (add32 q.queue_length 1);
        sem = q.sem + 1;
      },
      ok tt,
    )

-- What one call of `sem_wait` or `sem_timedwait` does.
pub data Wait : Type 0 where
  woken interrupted timed_out failed : Wait

-- `blocked` means that the call has not returned.
pub data Dequeued : Type 0 where
  blocked : Dequeued
  error : Dequeued
  empty : Dequeued
  got : DecisionEvent → Dequeued

-- What follows a successful wait, in both dequeue functions.
unfoldable pub take_entry : Queue → Queue × Dequeued
unfolding advance
take_entry q = if q.queue_length == 0 then (record q { sem = q.sem - 1 }, empty) else (
  record q {
    q_last = advance q.num_entries q.q_last;
    queue_length = sub32 q.queue_length 1;
    sem = q.sem - 1;
  },
  got (get_or q.events q.q_last zero_entry).event,
)

-- The list holds the outcomes of the waits in turn. A wait at a semaphore of value zero blocks.
unfoldable pub q_dequeue : List Wait → Queue → Queue × Dequeued
unfolding take_entry
q_dequeue [] q = (q, blocked)
q_dequeue (woken ∷ ws) q = if q.sem == 0 then (q, blocked) else take_entry q
q_dequeue (interrupted ∷ ws) q = q_dequeue ws q
q_dequeue (timed_out ∷ ws) q = (q, error)
q_dequeue (failed ∷ ws) q = (q, error)

unfoldable pub q_timed_dequeue : List Wait → Queue → Queue × Dequeued
unfolding take_entry
q_timed_dequeue [] q = (q, blocked)
q_timed_dequeue (woken ∷ ws) q = if q.sem == 0 then (q, blocked) else take_entry q
q_timed_dequeue (interrupted ∷ ws) q = q_timed_dequeue ws q
q_timed_dequeue (timed_out ∷ ws) q = (q, empty)
q_timed_dequeue (failed ∷ ws) q = (q, error)

unfoldable pub q_shutdown : Queue → Queue
q_shutdown q = record q { sem = q.sem + 1 }

-- `struct queue_metrics`
pub record QueueMetrics : Type 0 where
  pub current_depth : ℕ
  pub max_depth : ℕ
  pub full_count : ℕ
  pub oldest_age_ns : ℕ

-- `now` is what `queue_now_ns` returns.
unfoldable pub q_oldest_age_ns : ℕ → Queue → ℕ → ℕ
q_oldest_age_ns now q current_depth =
    if current_depth == 0
    then 0
    else if leb q.num_entries q.q_last
    then 0
    else let queued = (get_or q.events q.q_last zero_entry).queued_ns in
      if queued == 0 then 0 else if ltb now queued then 0 else now - queued

unfoldable pub q_metrics_snapshot : ℕ → Queue → QueueMetrics
unfolding q_oldest_age_ns
q_metrics_snapshot now q = record {
  current_depth = q.queue_length;
  max_depth = q.max_depth;
  full_count = q.full_count;
  oldest_age_ns = q_oldest_age_ns now q q.queue_length;
}

unfoldable pub q_metrics_snapshot_reset : ℕ → Bool → Queue → Queue × QueueMetrics
unfolding q_metrics_snapshot raise_max
q_metrics_snapshot_reset now false q = (q, q_metrics_snapshot now q)
q_metrics_snapshot_reset now true q = (
  record q { max_depth = raise_max q.queue_length q.queue_length; full_count = 0 },
  record {
    current_depth = q.queue_length;
    max_depth = q.max_depth;
    full_count = q.full_count;
    oldest_age_ns = q_oldest_age_ns now q q.queue_length;
  },
)

unfoldable pub q_max_depth_snapshot_reset : Queue → Queue × ℕ
unfolding raise_max
q_max_depth_snapshot_reset q =
    (record q { max_depth = raise_max q.queue_length q.queue_length }, q.max_depth)

unfoldable pub q_max_depth_snapshot_restore : Queue → ℕ → Queue × ℕ
unfolding raise_max
q_max_depth_snapshot_restore q saved =
    (record q { max_depth = raise_max q.max_depth saved }, q.max_depth)
