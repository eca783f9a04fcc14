-- ===== src/WorkerHealth/History.antt =====
-- The monitor's verdict described by what the workers have done, not by what they have noted.
use fapolicyd.Prelude.{
  ℕ, ◌-◌, ◌≡◌, ◌<◌, refl, ap, ap₂, ◌∙◌, Bool, true, false, not, ◌&&◌, ◌||◌, Option, none, some,
  List, [], ◌∷◌, arith, ◌==◌, ltb, leb, if◌then◌else◌,
}
use fapolicyd.Queue.{QueueMetrics}
use fapolicyd.FailureAction.{failure_action_execute, failure_reason_action}
use fapolicyd.WorkerHealth.{
  WorkerHealth, worker_health_init, worker_health_heartbeat, worker_health_event_begin,
  worker_health_event_end, worker_health_snapshot, health_age_ns, worker_health_is_stalled,
  HealthSnapshot, is_idle, HealthView, Checked, counted, view_is_stalled,
  health_monitor_check_workers,
}

-- What a worker does between events: a heartbeat, or an event from its begin to its end, with the
-- times.
pub data Turn : Type 0 where
  beat : ℕ → Turn
  event : ℕ → ℕ → Turn

-- A worker: when it started, its turns since, and when it began the event that it is at, if any.
pub record History : Type 0 where
  pub start : ℕ
  pub turns : List Turn
  pub begun : Option ℕ

-- What the worker has noted after its turns.
abbrev pub after_turn : WorkerHealth → Turn → WorkerHealth
after_turn h (beat t) = worker_health_heartbeat t h
after_turn h (event b e) = worker_health_event_end e (worker_health_event_begin b h)

unfoldable pub after_turns : WorkerHealth → List Turn → WorkerHealth
after_turns h [] = h
after_turns h (r ∷ rs) = after_turns (after_turn h r) rs

abbrev pub begin : Option ℕ → WorkerHealth → WorkerHealth
begin none h = h
begin (some t) h = worker_health_event_begin t h

unfoldable pub health_of : History → WorkerHealth
unfolding after_turns
health_of w = begin w.begun (after_turns (worker_health_init w.start) w.turns)

-- When the worker was last done with something.
abbrev pub time_of : Turn → ℕ
time_of (beat t) = t
time_of (event b e) = e

unfoldable pub last_time : ℕ → List Turn → ℕ
last_time t [] = t
last_time t (r ∷ rs) = last_time (time_of r) rs

-- A worker is stuck if it has been at an event for the timeout while more than five events wait or
-- one has waited that long, or if it has done nothing for that long while an event has waited that
-- long.
abbrev pub is_stuck : ℕ → ℕ → History → QueueMetrics → Bool
is_stuck now timeout w m = elim w.begun [
  | some t ↦ leb timeout (now - t) && (ltb 5 m.current_depth || leb timeout m.oldest_age_ns)
  | none ↦
      ltb 0 m.current_depth
      && leb timeout m.oldest_age_ns
      && leb timeout (now - last_time w.start w.turns)
]

-- A worker with its queue, and what the monitor sees of it.
pub record Watched : Type 0 where
  pub id : ℕ
  pub history : History
  pub metrics : QueueMetrics

abbrev pub views_of : List Watched → List HealthView
views_of [] = []
views_of (w ∷ ws) =
    record { id = w.id; health = some (health_of w.history); metrics = w.metrics } ∷ views_of ws

unfoldable pub any_stuck : ℕ → ℕ → List Watched → Bool
any_stuck now timeout [] = false
any_stuck now timeout (w ∷ ws) =
    is_stuck now timeout w.history w.metrics || any_stuck now timeout ws

-- The times that the monitor compares are not 0, which stands for none.
abbrev pub clock_reads : History → Bool
clock_reads w = ltb 0 (last_time w.start w.turns) && elim w.begun [ none ↦ true | some t ↦ ltb 0 t ]

unfoldable pub clocks_read : List Watched → Bool
clocks_read [] = true
clocks_read (w ∷ ws) = clock_reads w.history && clocks_read ws

-- Between events a worker notes that it is at none, and the time that it was last done.
turns_noted :
    (rs : List Turn) (h : WorkerHealth)
    → h.current_event_started_ns ≡ 0
    → ((after_turns h rs).current_event_started_ns ≡ 0)
      × ((after_turns h rs).heartbeat_ns ≡ last_time h.heartbeat_ns rs)
unfolding after_turns last_time
turns_noted [] h z = (z, refl)
turns_noted (beat t ∷ rs) h z = turns_noted rs (worker_health_heartbeat t h) z
turns_noted (event b e ∷ rs) h z =
    turns_noted rs (worker_health_event_end e (worker_health_event_begin b h)) refl

age_lem : (now t : ℕ) → 0 < t → health_age_ns now t ≡ now - t
age_lem now t h = ground arith

idle_stalled :
    (timeout : ℕ) (s : HealthSnapshot) (m : QueueMetrics)
    → 0 < timeout
    → is_idle s.state ≡ true
    → worker_health_is_stalled s m timeout
      ≡ (ltb 0 m.current_depth && leb timeout m.oldest_age_ns && leb timeout s.heartbeat_age_ns)
unfolding worker_health_is_stalled
idle_stalled timeout s m p i =
    let used : (timeout == 0) ≡ false = ground arith in simp (used, i) refl

if_same : (b : Bool) → (if b then true else false) ≡ b
if_same true = refl
if_same false = refl

busy_stalled :
    (timeout : ℕ) (s : HealthSnapshot) (m : QueueMetrics)
    → 0 < timeout
    → is_idle s.state ≡ false
    → worker_health_is_stalled s m timeout ≡ (
        leb timeout s.current_event_age_ns
        && (ltb 5 m.current_depth || leb timeout m.oldest_age_ns))
unfolding worker_health_is_stalled
busy_stalled timeout s m p i =
    let used : (timeout == 0) ≡ false = ground arith in
    simp (used, i)
      (if_same (
        leb timeout s.current_event_age_ns
        && (ltb 5 m.current_depth || leb timeout m.oldest_age_ns)))

snapshot_idle :
    (h : WorkerHealth) (now : ℕ)
    → h.current_event_started_ns ≡ 0
    → is_idle (worker_health_snapshot h now).state ≡ true
unfolding worker_health_snapshot
snapshot_idle h now z = ground arith

snapshot_busy :
    (h : WorkerHealth) (now : ℕ)
    → 0 < h.current_event_started_ns
    → is_idle (worker_health_snapshot h now).state ≡ false
unfolding worker_health_snapshot
snapshot_busy h now z = ground arith

stalled_at :
    (now timeout t0 : ℕ) (rs : List Turn) (begun : Option ℕ) (m : QueueMetrics)
    → 0 < timeout
    → clock_reads record { start = t0; turns = rs; begun = begun } ≡ true
    → worker_health_is_stalled
        (worker_health_snapshot (health_of record { start = t0; turns = rs; begun = begun }) now)
        m
        timeout
      ≡ is_stuck now timeout record { start = t0; turns = rs; begun = begun } m
unfolding health_of worker_health_snapshot
stalled_at now timeout t0 rs none m p c =
    let h = after_turns (worker_health_init t0) rs in
    let n = turns_noted rs (worker_health_init t0) refl in
    idle_stalled timeout (worker_health_snapshot h now) m p (snapshot_idle h now n.0)
    ∙ ap (λ a. ltb 0 m.current_depth && leb timeout m.oldest_age_ns && leb timeout a)
        (ap (health_age_ns now) n.1 ∙ age_lem now (last_time t0 rs) (ground arith))
stalled_at now timeout t0 rs (some t) m p c =
    let h = worker_health_event_begin t (after_turns (worker_health_init t0) rs) in
    busy_stalled timeout (worker_health_snapshot h now) m p (snapshot_busy h now (ground arith))
    ∙ ap (λ a. leb timeout a && (ltb 5 m.current_depth || leb timeout m.oldest_age_ns))
        (age_lem now t (ground arith))

not_or : (a b : Bool) → (not a && not b) ≡ not (a || b)
not_or true b = refl
not_or false b = refl

and_true_or : (a b : Bool) → (a && true || b) ≡ (a || b)
and_true_or true b = refl
and_true_or false b = refl

-- What a check says of the workers.
abbrev pub Says : Bool → Checked → Type 0
Says stuck c = (c.healthy ≡ not stuck) × (c.killed ≡ stuck)

-- Whatever the workers have done, at times that are not 0 and for a timeout that is not 0,
-- `health_monitor_check_workers` raises SIGKILL exactly if one of them is stuck, and finds them healthy
-- exactly if none is.
pub check_workers-any_stuck :
    (now timeout : ℕ) (counts : List ℕ) (ws : List Watched)
    → 0 < timeout
    → clocks_read ws ≡ true
    → Says
        (any_stuck now timeout ws)
        (health_monitor_check_workers now timeout counts (views_of ws))
unfolding health_monitor_check_workers any_stuck clocks_read failure_action_execute
    failure_reason_action
check_workers-any_stuck now timeout counts [] p c = (refl, refl)
check_workers-any_stuck now timeout counts (w ∷ ws) p c =
    let h = some (health_of w.history) in
    let stalled = view_is_stalled now timeout w.metrics h in
    let ih = check_workers-any_stuck now timeout (counted stalled h counts) ws p (ground arith) in
    let e =
      stalled_at now timeout w.history.start w.history.turns w.history.begun w.metrics p
        (ground arith) in
    (
      ap₂ (λ x y. not x && y) e ih.0
          ∙ not_or (is_stuck now timeout w.history w.metrics) (any_stuck now timeout ws),
      ap₂ (λ x y. x && true || y) e ih.1
          ∙ and_true_or (is_stuck now timeout w.history w.metrics) (any_stuck now timeout ws),
    )
