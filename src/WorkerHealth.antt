-- ===== src/WorkerHealth.antt =====
-- src/daemon/worker-health.c: what a worker notes of its progress, and the monitor that looks for
-- stalled workers. A time is in nanoseconds; the clock's reading is an argument, 0 if it fails. The
-- messages, the report and the sleep between rounds are left out.
pub mod History
mod Tests
use fapolicyd.Prelude.{
  ℕ, ◌+◌, ◌-◌, ◌*◌, ◌/◌, ◌%◌, Bool, true, false, not, ◌&&◌, ◌||◌, Option, none, some, List, [], ◌∷◌,
  ◌==◌, ltb, leb, if◌then◌else◌,
}
use fapolicyd.Prelude.Words.{u64_mod}
use fapolicyd.Queue.{QueueMetrics}
use fapolicyd.FailureAction.{failure_action_execute, failure_action_record, worker_stall}

-- `struct worker_health`
pub record WorkerHealth : Type 0 where
  pub heartbeat_ns : ℕ
  pub current_event_started_ns : ℕ
  pub last_completed_event_ns : ℕ
  pub stall_reported : Bool

-- `enum worker_health_state`
pub data HealthState : Type 0 where
  idle busy : HealthState

-- `struct worker_health_snapshot`
pub record HealthSnapshot : Type 0 where
  pub state : HealthState
  pub heartbeat_age_ns : ℕ
  pub current_event_age_ns : ℕ

abbrev pub health_age_ns : ℕ → ℕ → ℕ
health_age_ns now timestamp = if timestamp == 0 || ltb now timestamp then 0 else now - timestamp

abbrev pub worker_health_init : ℕ → WorkerHealth
worker_health_init now = record {
  heartbeat_ns = now;
  current_event_started_ns = 0;
  last_completed_event_ns = 0;
  stall_reported = false;
}

abbrev pub worker_health_heartbeat : ℕ → WorkerHealth → WorkerHealth
worker_health_heartbeat now health = record health { heartbeat_ns = now }

abbrev pub worker_health_event_begin : ℕ → WorkerHealth → WorkerHealth
worker_health_event_begin now health = record health {
  current_event_started_ns = now;
  heartbeat_ns = now;
}

abbrev pub worker_health_event_end : ℕ → WorkerHealth → WorkerHealth
worker_health_event_end now health = record {
  heartbeat_ns = now;
  current_event_started_ns = 0;
  last_completed_event_ns = now;
  stall_reported = false;
}

unfoldable pub worker_health_snapshot : WorkerHealth → ℕ → HealthSnapshot
worker_health_snapshot health now = record {
  state = if health.current_event_started_ns == 0 then idle else busy;
  heartbeat_age_ns = health_age_ns now health.heartbeat_ns;
  current_event_age_ns = health_age_ns now health.current_event_started_ns;
}

-- HEALTH_MONITOR_INTERVAL_SEC in nanoseconds, and HEALTH_QUEUE_BACKLOG_THRESHOLD
abbrev pub monitor_interval : ℕ
monitor_interval = 3 * 1000000000

abbrev pub backlog_threshold : ℕ
backlog_threshold = 5

-- `health_monitor_interval_ns` and `health_stall_timeout_ns`, with the interval that systemd asks
-- for, in microseconds, or 0.
unfoldable pub health_monitor_interval_ns : ℕ → ℕ
health_monitor_interval_ns watchdog =
    if watchdog == 0 then monitor_interval else ((watchdog * 1000) % u64_mod) / 2

unfoldable pub health_stall_timeout_ns : ℕ → ℕ
health_stall_timeout_ns watchdog =
    if watchdog == 0 then monitor_interval else (watchdog * 1000) % u64_mod

abbrev pub is_idle : HealthState → Bool
is_idle idle = true
is_idle busy = false

unfoldable pub worker_health_is_stalled : HealthSnapshot → QueueMetrics → ℕ → Bool
worker_health_is_stalled snapshot metrics timeout_ns =
    if timeout_ns == 0
    then false
    else if not (is_idle snapshot.state)
        && leb timeout_ns snapshot.current_event_age_ns
        && (ltb backlog_threshold metrics.current_depth || leb timeout_ns metrics.oldest_age_ns)
    then true
    else is_idle snapshot.state
      && ltb 0 metrics.current_depth
      && leb timeout_ns metrics.oldest_age_ns
      && leb timeout_ns snapshot.heartbeat_age_ns

-- `struct worker_health_view`
pub record HealthView : Type 0 where
  pub id : ℕ
  pub health : Option WorkerHealth
  pub metrics : QueueMetrics

-- What a check finds: whether all are healthy, whether SIGKILL was raised, the failures counted, and
-- the views.
pub record Checked : Type 0 where
  pub healthy : Bool
  pub killed : Bool
  pub counts : List ℕ
  pub views : List HealthView

-- `health_monitor_log_stall`, which counts a stall once until it is over.
abbrev pub log_stall : WorkerHealth → List ℕ → List ℕ
log_stall health counts =
    if health.stall_reported then counts else (failure_action_record counts worker_stall).0

abbrev pub counted : Bool → Option WorkerHealth → List ℕ → List ℕ
counted stalled none counts = counts
counted stalled (some health) counts = if stalled then log_stall health counts else counts

-- `stall_reported` after a round of the loop.
abbrev pub reported : Bool → HealthView → HealthView
reported stalled view = record view {
  health = elim view.health [
    | none ↦ none
    | some health ↦ some (record health { stall_reported = stalled })
  ];
}

abbrev pub view_is_stalled : ℕ → ℕ → QueueMetrics → Option WorkerHealth → Bool
view_is_stalled now timeout_ns metrics none = false
view_is_stalled now timeout_ns metrics (some health) =
    worker_health_is_stalled (worker_health_snapshot health now) metrics timeout_ns

-- `health_monitor_check_workers` of the views that `collect` gives.
unfoldable pub health_monitor_check_workers : ℕ → ℕ → List ℕ → List HealthView → Checked
unfolding worker_health_is_stalled worker_health_snapshot failure_action_execute
    failure_action_record
health_monitor_check_workers now timeout_ns counts [] = record {
  healthy = true;
  killed = false;
  counts = counts;
  views = [];
}
health_monitor_check_workers now timeout_ns counts (view ∷ views) =
    let stalled = view_is_stalled now timeout_ns view.metrics view.health in
    let rest =
      health_monitor_check_workers now timeout_ns (counted stalled view.health counts) views in
    record {
      healthy = not stalled && rest.healthy;
      killed = stalled && failure_action_execute worker_stall || rest.killed;
      counts = rest.counts;
      views = reported stalled view ∷ rest.views;
    }

-- A round of the monitor: what it finds, and whether it pings the watchdog of systemd.
unfoldable pub monitor_round : ℕ → ℕ → Bool → List ℕ → List HealthView → Checked × Bool
unfolding health_monitor_check_workers health_stall_timeout_ns
monitor_round now watchdog enabled counts views =
    let c = health_monitor_check_workers now (health_stall_timeout_ns watchdog) counts views in
    (c, c.healthy && enabled)
