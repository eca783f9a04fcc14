-- ===== src/DecisionEvent.antt =====
-- src/library/decision-event.h: the envelope that carries a fanotify permission event through
-- the queue, the defer array and the policy decision.
use fapolicyd.Prelude.{ℕ}

-- The fields of `struct fanotify_event_metadata` that the daemon reads.
pub record Metadata : Type 0 where
  pub mask : ℕ
  pub fd : ℕ
  pub pid : ℕ

-- `DECISION_EVENT_NO_SLOT` and `DECISION_EVENT_NO_WORKER` are both `UINT_MAX`.
abbrev pub no_slot : ℕ
no_slot = 4_294_967_295

abbrev pub no_worker : ℕ
no_worker = 4_294_967_295

pub record DecisionEvent : Type 0 where
  pub metadata : Metadata
  pub enqueue_ns : ℕ
  pub subject_slot : ℕ
  pub completed_subject_slot : ℕ
  pub worker_index : ℕ

unfoldable pub decision_event_init : Metadata → DecisionEvent
decision_event_init metadata = record {
  metadata = metadata;
  enqueue_ns = 0;
  subject_slot = no_slot;
  completed_subject_slot = no_slot;
  worker_index = no_worker;
}
