-- ===== src/Worker/Conserve.antt =====
-- A worker that dispatches an event answers it or defers it, once, and so the events that it takes
-- out of the defer array.
use fapolicyd.Prelude.{
  ℕ, zero, suc, ◌+◌, ◌≡◌, ◌≤◌, ◌<◌, refl, ap, ◌∙◌, Bool, true, not, Option, none, some, ◌∷◌, arith,
  ◌==◌, if◌then◌else◌, if-cases,
}
use fapolicyd.Prelude.Words.{u64_mod}
use fapolicyd.DecisionEvent.{Metadata, DecisionEvent, no_slot}
use fapolicyd.Queue.{Result, ok, err}
use fapolicyd.Defer.{
  DeferEntry, DeferQueue, pop_entry, oldest_entry, decision_defer_push, decision_defer_pop_slot,
  decision_defer_count_fallback,
}
use fapolicyd.Defer.View.{weigh, IsValid}
use fapolicyd.Defer.Refine.{popped-IsValid, decision_defer_push_lem}
use fapolicyd.Worker.{
  Subjects, Worker, owned, run_decision_event, continue_slot, run_slot, parked,
  dispatch_decision_event,
}
use fapolicyd.Worker.Tally.{
  count, tally, tally-used, Found, Popped, pop_entry-Popped, oldest_entry-Found, Pushed,
  decision_defer_push-Pushed,
}

-- What a step leaves: of each kind there are as many events answered or deferred as before, and some
-- more. At most one order is given out, and the queue is left alone.
pub record Keeps {C : Type 0} (p : Metadata → Bool) (w w' : Worker C) (more : ℕ) : Type 0 where
  pub valid : IsValid w'.defer
  pub conserved :
      count p w'.answered + tally p w'.defer.entries
      ≡ count p w.answered + tally p w.defer.entries + more
  pub orders : w'.defer.next_order ≤ w.defer.next_order + 1
  pub same_queue : w'.queue ≡ w.queue

-- The step comes to an end so.
abbrev pub Ends : {C : Type 0} → (Metadata → Bool) → Worker C → ℕ → Option (Worker C) → Type 0
Ends p w more none = ⊥
Ends p w more (some w') = Keeps p w w' more

pub pop_entry-IsValid :
    (defer : DeferQueue) (o : Option (ℕ × DeferEntry))
    → IsValid defer
    → Found defer.entries o
    → IsValid (pop_entry defer o).0
pop_entry-IsValid defer none v f = unfold pop_entry in v
pop_entry-IsValid defer (some (i, x)) v (l, e, u) = popped-IsValid v (λ event. true) i x l e u

-- Of a pop: what is left is valid, and holds an event less of its kind and in all.
pub record Shrinks (p : Metadata → Bool) (defer : DeferQueue)
    (r : DeferQueue × Option DecisionEvent) : Type 0 where
  pub valid : IsValid r.0
  pub popped : Popped p defer r
  pub fewer : Popped (λ m. true) defer r

pub pop_entry-Shrinks :
    (p : Metadata → Bool) (defer : DeferQueue) (o : Option (ℕ × DeferEntry))
    → IsValid defer
    → Found defer.entries o
    → Shrinks p defer (pop_entry defer o)
pop_entry-Shrinks p defer o v f = record {
  valid = pop_entry-IsValid defer o v f;
  popped = pop_entry-Popped p defer o f;
  fewer = pop_entry-Popped (λ m. true) defer o f;
}

pub current-fewer :
    (defer defer' : DeferQueue) (event : DecisionEvent)
    → IsValid defer
    → IsValid defer'
    → Popped (λ m. true) defer (defer', some event)
    → defer'.current + 1 ≡ defer.current
current-fewer defer defer' event v v' h =
    omega (arith, v.counted, v'.counted, h.0, tally-used defer.entries, tally-used defer'.entries)

module _ {C : Type 0} (s : Subjects C) (p : Metadata → Bool) where
  -- A step from `v` seen from `u`, which holds as much with what is to come.
  Ends-from :
      (u v : Worker C) (m n : ℕ) (r : Option (Worker C))
      → (count p v.answered + tally p v.defer.entries + m
          ≡ count p u.answered + tally p u.defer.entries + n)
      → v.defer.next_order ≡ u.defer.next_order
      → v.queue ≡ u.queue
      → Ends p v m r
      → Ends p u n r
  Ends-from u v m n none e o q h = h
  Ends-from u v m n (some w) e o q h = record {
    valid = h.valid;
    conserved = h.conserved ∙ e;
    orders = omega (arith, h.orders, o);
    same_queue = h.same_queue ∙ q;
  }

  -- A worker that has answered an event.
  Keeps-answered :
      (w w' : Worker C) (n : ℕ)
      → IsValid w'.defer
      → (count p w'.answered + tally p w'.defer.entries
          ≡ count p w.answered + tally p w.defer.entries + n)
      → w'.defer.next_order ≡ w.defer.next_order
      → w'.queue ≡ w.queue
      → Keeps p w w' n
  Keeps-answered w w' n v e o q = record {
    valid = v;
    conserved = e;
    orders = omega (arith, o);
    same_queue = q;
  }

  continue_slot-Ends :
      (fuel : ℕ) (rest : Worker C → DecisionEvent → Option (Worker C)) (w : Worker C)
      (r : DeferQueue × Option DecisionEvent)
      → IsValid w.defer
      → Shrinks p w.defer r
      → w.defer.current < suc fuel
      → ((w' : Worker C) (event : DecisionEvent)
          → IsValid w'.defer
          → w'.defer.current < fuel
          → Ends p w' (weigh (p event.metadata)) (rest w' event))
      → Ends p w 0 (continue_slot s rest w r)
  continue_slot-Ends fuel rest w (defer, none) v h c g =
      Keeps-answered w (record w { defer = defer }) 0 h.valid
        (omega (arith, ap (λ (d : DeferQueue). tally p d.entries) h.popped))
        (ap (λ (d : DeferQueue). d.next_order) h.popped) refl
  continue_slot-Ends fuel rest w (defer, some event) v h c g =
      let w' = record w { defer = defer } in
      Ends-from w w' (weigh (p event.metadata)) 0 (rest w' event) (omega (arith, h.popped.0))
        h.popped.1 refl
        (g w' event h.valid (omega (arith, c, current-fewer w.defer defer event v h.valid h.fewer)))

  run_slot-Ends :
      (fuel : ℕ) (w : Worker C) (event : DecisionEvent)
      → IsValid w.defer
      → w.defer.current < fuel
      → Ends p w (weigh (p event.metadata)) (run_slot s fuel w event)
  unfolding run_slot run_decision_event count decision_defer_pop_slot
  run_slot-Ends zero w event v c = elim c [ ]
  run_slot-Ends (suc fuel) w event v c =
      let d = s.decide w.context event in
      let w' = record w { context = d.0; answered = event.metadata ∷ w.answered } in
      let n = weigh (p event.metadata) in
      let r = decision_defer_pop_slot w.defer d.1 in
      let done : Keeps p w w' n = Keeps-answered w w' n v (omega arith) refl refl in
      if-cases (Ends p w n) (d.1 == no_slot) (some w')
        (if not (s.is_unblocked d.0 d.1) then some w' else continue_slot s (run_slot s fuel) w' r)
        (λ e. done)
        (λ e.
          if-cases (Ends p w n) (not (s.is_unblocked d.0 d.1)) (some w')
            (continue_slot s (run_slot s fuel) w' r) (λ e'. done)
            (λ e'.
              Ends-from w w' 0 n (continue_slot s (run_slot s fuel) w' r) (omega arith) refl refl (
                continue_slot-Ends fuel (run_slot s fuel) w' r v
                  (pop_entry-Shrinks p w.defer (oldest_entry w.defer d.1) v
                    (oldest_entry-Found w.defer d.1))
                  c (λ u e''. run_slot-Ends fuel u e''))))

  counted_fallback :
      (defer : DeferQueue) → IsValid defer → IsValid (decision_defer_count_fallback defer)
  unfolding decision_defer_count_fallback
  counted_fallback defer v = record {
    places = v.places;
    small = v.small;
    counted = v.counted;
    once = v.once;
    later = v.later;
    depth_seen = v.depth_seen;
  }

  parked-Ends :
      (fuel : ℕ) (w : Worker C) (event : DecisionEvent) (r : DeferQueue × Result (Unit {0}))
      → IsValid w.defer
      → IsValid r.0
      → Pushed p w.defer event r
      → w.defer.current < fuel
      → Ends p w (weigh (p event.metadata)) (parked s fuel w event r)
  unfolding decision_defer_count_fallback
  parked-Ends fuel w event (defer, ok u) v v' h c = record {
    valid = v';
    conserved = omega (arith, h.0);
    orders = h.1;
    same_queue = refl;
  }
  parked-Ends fuel w event (defer, err e) v v' h c =
      let w' = record w { defer = decision_defer_count_fallback defer } in
      let n = weigh (p event.metadata) in
      Ends-from w w' n n (run_slot s fuel w' event)
        (omega (arith, ap (λ (d : DeferQueue). tally p d.entries) h))
        (ap (λ (d : DeferQueue). d.next_order) h) refl
        (run_slot-Ends fuel w' event (counted_fallback defer v')
          (omega (arith, c, ap (λ (d : DeferQueue). d.current) h)))

  -- Whatever the subjects and the policy do, the dispatch of an event by a worker whose defer array
  -- is valid comes to an end: it answers or defers the event, and of the events that were deferred
  -- each is answered or still deferred, once. The array stays valid.
  pub dispatch_decision_event-Ends :
      (now : ℕ) (w : Worker C) (event : DecisionEvent)
      → IsValid w.defer
      → w.defer.next_order + 1 < u64_mod
      → Ends p w (weigh (p event.metadata)) (dispatch_decision_event s now w event)
  unfolding dispatch_decision_event
  dispatch_decision_event-Ends now w event_ v o =
      let event = owned w.id (s.slot_of w.context event_.metadata.pid) event_ in
      let b = s.is_blocked w.context event.subject_slot event.metadata.pid in
      let w' = record w { context = b.0 } in
      let n = weigh (p event.metadata) in
      let fuel = suc w.defer.current in
      let r = decision_defer_push now w.defer event in
      Ends-from w w' n n (if b.1 then parked s fuel w' event r else run_slot s fuel w' event) refl
        refl refl
        (if-cases (Ends p w' n) b.1 (parked s fuel w' event r) (run_slot s fuel w' event)
          (λ e.
            parked-Ends fuel w' event r v (decision_defer_push_lem v now event o).0
              (decision_defer_push-Pushed p now w.defer event v) (omega arith))
          (λ e. run_slot-Ends fuel w' event v (omega arith)))
