-- ===== src/WorkerHealth/Tests.antt =====
-- Two workers, one of them at an event for too long, and the theorem at them.
use fapolicyd.Prelude.{◌≡◌, refl, true, false, none, some, List, [], ◌∷◌, arith}
use fapolicyd.Prelude.Bytes.{codes}
use fapolicyd.Queue.{QueueMetrics}
use fapolicyd.FailureAction.{
  no_failures, failure_action_record, failure_action_count, failure_reason_name,
  failure_action_execute, worker_stall,
}
use fapolicyd.WorkerHealth.{
  health_monitor_check_workers, worker_health_is_stalled, worker_health_snapshot,
  health_stall_timeout_ns, health_monitor_interval_ns,
}
use fapolicyd.WorkerHealth.History.{
  beat, event, Watched, views_of, health_of, after_turns, any_stuck, clocks_read, last_time,
  check_workers-any_stuck,
}

abbrev metrics : QueueMetrics
metrics = record { current_depth = 6; max_depth = 9; full_count = 0; oldest_age_ns = 70 }

-- The first is between events since 950, the second at one since 820.
abbrev workers : List Watched
workers =
    record {
      id = 0;
      history = record { start = 1; turns = beat 700 ∷ event 800 950 ∷ []; begun = none };
      metrics = metrics;
    }
    ∷ record {
      id = 1;
      history = record { start = 1; turns = event 2 810 ∷ []; begun = some 820 };
      metrics = metrics;
    }
    ∷ []

-- A second check counts the stall no more.
counted_once :
    let c = health_monitor_check_workers 1000 100 no_failures (views_of workers) in
    failure_action_count
      (health_monitor_check_workers 1001 100 c.counts c.views).counts
      worker_stall
    ≡ 1
unfolding health_monitor_check_workers worker_health_is_stalled worker_health_snapshot health_of
    after_turns failure_action_record failure_action_count failure_action_execute
counted_once = refl

timeouts :
    (health_stall_timeout_ns 0 ≡ 3000000000)
    × (health_stall_timeout_ns 4000000 ≡ 4000000000)
    × (health_monitor_interval_ns 4000000 ≡ 2000000000)
unfolding health_stall_timeout_ns health_monitor_interval_ns
timeouts = (refl, refl, refl)

unknown_reason : failure_reason_name 7 ≡ codes "unknown"
unfolding failure_reason_name
unknown_reason = refl

check_workers-any_stuck_example :
    ((health_monitor_check_workers 1000 100 no_failures (views_of workers)).healthy ≡ false)
    × ((health_monitor_check_workers 1000 100 no_failures (views_of workers)).killed ≡ true)
unfolding any_stuck last_time clocks_read
check_workers-any_stuck_example =
    check_workers-any_stuck 1000 100 no_failures workers (omega arith) refl
