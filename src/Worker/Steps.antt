-- ===== src/Worker/Steps.antt =====
-- Each step of a worker accounts for its events.
use fapolicyd.Prelude.{
  ℕ, suc, ◌+◌, ◌≡◌, ◌<◌, refl, sym, ap, ◌∙◌, Bool, true, not, Option, none, some, List, [], ◌∷◌,
  arith, length, get_or, ltb, ◌==◌, if◌then◌else◌, Bool-cases, if-cases, inl, inr,
}
use fapolicyd.DecisionEvent.{Metadata, DecisionEvent}
use fapolicyd.Queue.{
  Queue, Result, ok, err, Dequeued, blocked, error, empty, got, q_enqueue, q_timed_dequeue,
}
use fapolicyd.Queue.Inv.{q_enqueue-IsValid, q_dequeue-IsValid, q_timed_dequeue-IsValid}
use fapolicyd.Queue.Inv
use fapolicyd.Queue.Refine.{reply_of}
use fapolicyd.Defer.{
  DeferEntry, DeferQueue, empty_entry, older, pop_entry, decision_defer_has_events,
}
use fapolicyd.Defer.View.{weigh, IsValid}
use fapolicyd.Worker.{
  Subjects, Worker, ready_from, dispatch_popped, release_ready, dispatch_dequeued, worker_turn,
  dispatch_decision_event,
}
use fapolicyd.Worker.Tally.{count, tally, Found}
use fapolicyd.Worker.Conserve.{Keeps, pop_entry-Shrinks, Shrinks, dispatch_decision_event-Ends}
use fapolicyd.Worker.Turns.{
  queued, dequeued, q_timed_dequeue-count, q_enqueue-count, is_stored, IsWorking, Step, arrive,
  turn, release, arrived, with_none, step, Accounts, Accounts-Keeps,
}

module _ {C : Type 0} (s : Subjects C) (p : Metadata → Bool) where
  arrived-Accounts :
      (w : Worker C) (n : ℕ) (event : DecisionEvent) (r : Queue × Result (Unit {0}))
      → IsWorking w (suc n)
      → Inv.IsValid r.0
      → (count p (queued r.0)
          ≡ count p (queued w.queue)
            + (if is_stored (reply_of r.1) then weigh (p event.metadata) else 0))
      → Accounts p w n (some (arrived w event r))
  unfolding count
  arrived-Accounts w n event (q, ok u) h v e = (
    record {
      queue_valid = v;
      defer_valid = h.defer_valid;
      orders_left = omega (arith, h.orders_left);
    },
    omega (arith, e),
  )
  arrived-Accounts w n event (q, err x) h v e = (
    record {
      queue_valid = v;
      defer_valid = h.defer_valid;
      orders_left = omega (arith, h.orders_left);
    },
    omega (arith, e),
  )

  -- A worker that stays as it is but for its queue and its context.
  Keeps-same :
      (w w' : Worker C)
      → IsValid w'.defer
      → w'.answered ≡ w.answered
      → w'.defer ≡ w.defer
      → w'.queue ≡ w.queue
      → Keeps p w w' 0
  Keeps-same w w' v a d q = record {
    valid = v;
    conserved = omega (arith, ap (count p) a, ap (λ (d : DeferQueue). tally p d.entries) d);
    orders = omega (arith, ap (λ (d : DeferQueue). d.next_order) d);
    same_queue = q;
  }

  queue-Accounts :
      (w : Worker C) (n : ℕ) (q : Queue)
      → IsWorking w (suc n)
      → Inv.IsValid q
      → count p (queued q) + 0 ≡ count p (queued w.queue)
      → Accounts p w n (some (record w { queue = q }, []))
  queue-Accounts w n q h v e =
      let w' = record w { queue = q } in
      Accounts-Keeps p w w' n 0 (some w') h v (omega arith) (omega (arith, e))
        (Keeps-same w' w' h.defer_valid refl refl refl)

  dispatch_dequeued-Accounts :
      (w : Worker C) (n now : ℕ) (r : Queue × Dequeued)
      → IsWorking w (suc n)
      → Inv.IsValid r.0
      → count p (queued r.0) + dequeued p r.1 ≡ count p (queued w.queue)
      → Accounts p w n (with_none (dispatch_dequeued s now w r))
  dispatch_dequeued-Accounts w n now (q, got event) h v e =
      let w' = record w { queue = q } in
      Accounts-Keeps p w w' n (weigh (p event.metadata)) (dispatch_decision_event s now w' event) h
        v (omega arith) (omega (arith, e))
        (dispatch_decision_event-Ends s p now w' event h.defer_valid (omega (arith, h.orders_left)))
  dispatch_dequeued-Accounts w n now (q, blocked) h v e = queue-Accounts w n q h v e
  dispatch_dequeued-Accounts w n now (q, error) h v e = queue-Accounts w n q h v e
  dispatch_dequeued-Accounts w n now (q, empty) h v e = queue-Accounts w n q h v e

  Found-older :
      (whole : List DeferEntry) (o : Option (ℕ × DeferEntry)) (i : ℕ) (x : DeferEntry)
      → Found whole o
      → i < length whole
      → get_or whole i empty_entry ≡ x
      → x.used ≡ true
      → Found whole (older o i x)
  Found-older whole none i x f l e u = (l, e, u)
  Found-older whole (some (j, y)) i x f l e u =
      if-cases (Found whole) (ltb x.order y.order) (some (i, x)) (some (j, y)) (λ h. (l, e, u))
        (λ h. f)

  ready_from-Found :
      (whole : List DeferEntry) (c : C) (current seen i : ℕ) (xs : List DeferEntry)
      (o : Option (ℕ × DeferEntry))
      → i + length xs ≡ length whole
      → ((q : ℕ) → get_or xs q empty_entry ≡ get_or whole (i + q) empty_entry)
      → Found whole o
      → Found whole (ready_from s c current seen i xs o).1
  unfolding ready_from
  ready_from-Found whole c current seen i [] o l h f = f
  ready_from-Found whole c current seen i (x ∷ xs) o l h f =
      let b = s.is_blocked c x.event.subject_slot x.event.metadata.pid in
      let o' = if not b.1 then older o i x else o in
      let at_end : i + 1 + length xs ≡ length whole = omega arith in
      let within : i < length whole = omega arith in
      let next : (q : ℕ) → get_or xs q empty_entry ≡ get_or whole (i + 1 + q) empty_entry =
        λ q. h (suc q) ∙ ap (λ k. get_or whole k empty_entry) (omega arith) in
      let here : get_or whole i empty_entry ≡ x =
        sym (h 0 ∙ ap (λ k. get_or whole k empty_entry) (omega arith)) in
      elim (Bool-cases x.used) [
        | inr u ↦ simp u (ready_from-Found whole c current seen (i + 1) xs o at_end next f)
        | inl u ↦
            let f' : Found whole o' =
              if-cases (Found whole) (not b.1) (older o i x) o
                (λ e. Found-older whole o i x f within here u) (λ e. f) in
            elim (Bool-cases (seen + 1 == current)) [
              | inl e ↦ simp (u, e) f'
              | inr e ↦
                  simp (u, e)
                    (ready_from-Found whole b.0 current (seen + 1) (i + 1) xs o' at_end next f')
            ]
      ]

  dispatch_popped-Accounts :
      (w : Worker C) (n now : ℕ) (r : DeferQueue × Option DecisionEvent)
      → IsWorking w (suc n)
      → Shrinks p w.defer r
      → Accounts p w n (with_none (dispatch_popped s now w r))
  dispatch_popped-Accounts w n now (defer, none) h k =
      let w' = record w { defer = defer } in
      Accounts-Keeps p w w n 0 (some w') h h.queue_valid (omega arith) (omega arith)
        (Keeps-same w w' k.valid refl k.popped refl)
  dispatch_popped-Accounts w n now (defer, some event) h k =
      let w' = record w { defer = defer } in
      Accounts-Keeps p w w' n (weigh (p event.metadata)) (dispatch_decision_event s now w' event) h
        h.queue_valid (omega (arith, k.popped.1)) (omega (arith, k.popped.0))
        (dispatch_decision_event-Ends s p now w' event k.valid
          (omega (arith, h.orders_left, k.popped.1)))

  released :
      (w : Worker C) (c : C) (n now : ℕ) (o : Option (ℕ × DeferEntry))
      → IsWorking w (suc n)
      → Found w.defer.entries o
      → Accounts p w n
          (with_none (dispatch_popped s now (record w { context = c }) (pop_entry w.defer o)))
  released w c n now o h f = same (with_none (dispatch_popped s now w' (pop_entry w.defer o))) (
      dispatch_popped-Accounts w' n now (pop_entry w.defer o)
        record {
          queue_valid = h.queue_valid;
          defer_valid = h.defer_valid;
          orders_left = h.orders_left;
        }
        (pop_entry-Shrinks p w.defer o h.defer_valid f))
    where
      w' : Worker C
      w' = record w { context = c }

      same : (r : Option (Worker C × List Metadata)) → Accounts p w' n r → Accounts p w n r
      same none k = k
      same (some (u, ms)) k = k

  -- Every step comes to an end and accounts for its events.
  pub step-Accounts :
      (w : Worker C) (n : ℕ) (st : Step) → IsWorking w (suc n) → Accounts p w n (step s w st)
  unfolding step worker_turn release_ready
  step-Accounts w n (arrive queued_ns enqueue_ns event) h =
      arrived-Accounts w n event (q_enqueue queued_ns enqueue_ns w.queue event) h
        (q_enqueue-IsValid h.queue_valid queued_ns enqueue_ns event)
        (q_enqueue-count p queued_ns enqueue_ns w.queue event h.queue_valid)
  step-Accounts w n (turn now waits) h =
      dispatch_dequeued-Accounts w n now (q_timed_dequeue waits w.queue) h
        (q_timed_dequeue-IsValid h.queue_valid waits)
        (q_timed_dequeue-count p waits w.queue h.queue_valid)
  step-Accounts w n (release now) h =
      let r = ready_from s w.context w.defer.current 0 0 w.defer.entries none in
      let w' = record w { context = r.0 } in
      let f =
        ready_from-Found w.defer.entries w.context w.defer.current 0 0 w.defer.entries none
          (omega arith) (λ q. ap (λ k. get_or w.defer.entries k empty_entry) (omega arith)) tt in
      if-cases (λ o. Accounts p w n (with_none o)) (decision_defer_has_events w.defer)
        (dispatch_popped s now w' (pop_entry w.defer r.1)) (some w)
        (λ e. released w r.0 n now r.1 h f)
        (λ e.
          Accounts-Keeps p w w n 0 (some w) h h.queue_valid (omega arith) (omega arith)
            (Keeps-same w w h.defer_valid refl refl refl))
