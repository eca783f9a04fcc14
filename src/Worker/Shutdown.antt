-- ===== src/Worker/Shutdown.antt =====
-- The shutdown of a worker answers the events that are still in its queue or deferred.
use fapolicyd.Prelude.{
  ℕ, zero, suc, ◌+◌, ◌≡◌, ◌≤◌, ◌<◌, refl, sym, subst, ap, ◌∙◌, Bool, true, Option, none, some, List,
  [], ◌∷◌, ◌++◌, arith, length, get_or, ◌==◌, replicate, if-cases,
}
use fapolicyd.DecisionEvent.{Metadata, DecisionEvent, no_slot}
use fapolicyd.Queue.{
  Queue, Wait, woken, interrupted, Dequeued, blocked, error, empty, got, q_dequeue, zero_entry,
}
use fapolicyd.Queue.Inv.{q_dequeue-IsValid}
use fapolicyd.Queue.Inv
use fapolicyd.Queue.Refine.{dequeue-got, length-events_from, view}
use fapolicyd.Defer.{DeferQueue, oldest_entry, pop_entry, decision_defer_pop_any}
use fapolicyd.Defer.View.{IsValid}
use fapolicyd.Worker.{
  Subjects, Worker, answer_dequeued, shutdown_queued_events, answer_popped, answer_deferred,
}
use fapolicyd.Worker.Tally.{count, tally, tally-le, oldest_entry-none, oldest_entry-Found}
use fapolicyd.Worker.Conserve.{pop_entry-Shrinks, Shrinks, current-fewer}
use fapolicyd.Worker.Turns.{queued, metadata_of, dequeued, q_dequeue-count}

abbrev pub every : Metadata → Bool
every m = true

count-metadata_of : (es : List DecisionEvent) → count every (metadata_of es) ≡ length es
unfolding count
count-metadata_of [] = refl
count-metadata_of (e ∷ es) = omega (arith, count-metadata_of es)

pub count-queued : (q : Queue) → count every (queued q) ≡ q.queue_length
count-queued q =
    count-metadata_of (view q).items
    ∙ length-events_from q.events q.num_entries q.q_last q.queue_length

count-le : (p : Metadata → Bool) (ms : List Metadata) → count p ms ≤ count every ms
unfolding count
count-le p [] = omega arith
count-le p (m ∷ ms) = ground (arith, count-le p ms)

empty-queued : (p : Metadata → Bool) (q : Queue) → q.queue_length ≡ 0 → count p (queued q) ≡ 0
empty-queued p q h = omega (arith, count-le p (queued q), count-queued q)

-- A wait that is interrupted some times before it is let through.
abbrev pub waits_for : List ℕ → List (List Wait)
waits_for [] = []
waits_for (n ∷ ns) = (replicate n interrupted ++ woken ∷ []) ∷ waits_for ns

-- The queue is one event shorter.
shorter :
    (q q' : Queue) (r : Queue × Dequeued) (n : ℕ) (e : DecisionEvent)
    → q' ≡ r.0
    → r.1 ≡ got e
    → count every (queued r.0) + dequeued every r.1 ≡ count every (queued q)
    → q.queue_length ≤ suc n
    → q'.queue_length ≤ n
shorter q q' (q'', blocked) n e same g h l = absurd (cc)
shorter q q' (q'', error) n e same g h l = absurd (cc)
shorter q q' (q'', empty) n e same g h l = absurd (cc)
shorter q q' (q'', got event) n e same g h l =
    omega (arith, ap (λ (x : Queue). x.queue_length) same, h, count-queued q, count-queued q'')

module _ {C : Type 0} (s : Subjects C) (p : Metadata → Bool) where
  -- The queue is empty, and what was in it is answered.
  pub record Drained (w w' : Worker C) : Type 0 where
    pub emptied : w'.queue.queue_length ≡ 0
    pub same_defer : w'.defer ≡ w.defer
    pub conserved : count p w'.answered ≡ count p w.answered + count p (queued w.queue)

  answer_dequeued-Drained :
      (rest : Worker C → Worker C) (w : Worker C) (r : Queue × Dequeued) (e : DecisionEvent)
      → r.1 ≡ got e
      → count p (queued r.0) + dequeued p r.1 ≡ count p (queued w.queue)
      → ((w' : Worker C) → w'.queue ≡ r.0 → Drained w' (rest w'))
      → Drained w (answer_dequeued s rest w r)
  unfolding count
  answer_dequeued-Drained rest w (q, blocked) e x h g = absurd (cc)
  answer_dequeued-Drained rest w (q, error) e x h g = absurd (cc)
  answer_dequeued-Drained rest w (q, empty) e x h g = absurd (cc)
  answer_dequeued-Drained rest w (q, got event) e x h g =
      let w' = record w { queue = q; answered = event.metadata ∷ w.answered } in
      let d = g w' refl in
      record {
        emptied = d.emptied;
        same_defer = d.same_defer;
        conserved = omega (arith, d.conserved, h);
      }

  pub shutdown_queued_events-Drained :
      (ns : List ℕ) (w : Worker C)
      → Inv.IsValid w.queue
      → w.queue.queue_length ≤ length ns
      → Drained w (shutdown_queued_events s (waits_for ns) w)
  unfolding shutdown_queued_events count
  shutdown_queued_events-Drained [] w v l = record {
    emptied = omega arith;
    same_defer = refl;
    conserved = omega (arith, empty-queued p w.queue (omega arith));
  }
  shutdown_queued_events-Drained (n ∷ ns) w v l =
      let ws = replicate n interrupted ++ woken ∷ [] in
      let rest = shutdown_queued_events s (waits_for ns) in
      let r = q_dequeue ws w.queue in
      let e = (get_or w.queue.events w.queue.q_last zero_entry).event in
      if-cases (Drained w) (w.queue.queue_length == 0) w (answer_dequeued s rest w r)
        (λ z. record {
          emptied = ground arith;
          same_defer = refl;
          conserved = omega (arith, empty-queued p w.queue (ground arith));
        })
        (λ z.
          let got_one = dequeue-got [] n v (λ x. ground arith) in
          let fewer = q_dequeue-count every ws w.queue v in
          answer_dequeued-Drained rest w r e got_one (q_dequeue-count p ws w.queue v) (λ w' same.
            shutdown_queued_events-Drained ns w'
              (subst Inv.IsValid (sym same) (q_dequeue-IsValid v ws))
              (shorter w.queue w'.queue r (length ns) e same got_one fewer l)))

  -- The defer array is empty, and what was in it is answered.
  abbrev pub Emptied : Worker C → Option (Worker C) → Type 0
  Emptied w none = ⊥
  Emptied w (some w') =
      (w'.defer.current ≡ 0)
      × (w'.queue ≡ w.queue)
      × (count p w'.answered ≡ count p w.answered + tally p w.defer.entries)

  Emptied-from :
      (w w' : Worker C) (o : Option (Worker C))
      → (count p w'.answered + tally p w'.defer.entries
          ≡ count p w.answered + tally p w.defer.entries)
      → w'.queue ≡ w.queue
      → Emptied w' o
      → Emptied w o
  Emptied-from w w' none t q e = e
  Emptied-from w w' (some u) t q e = (e.0, e.1 ∙ q, omega (arith, e.2, t))

  answer_popped-Emptied :
      (fuel : ℕ) (rest : Worker C → Option (Worker C)) (w : Worker C)
      (r : DeferQueue × Option DecisionEvent)
      → IsValid w.defer
      → Shrinks p w.defer r
      → (r.1 ≡ none → w.defer.current ≡ 0)
      → w.defer.current < suc fuel
      → ((w' : Worker C) → IsValid w'.defer → w'.defer.current < fuel → Emptied w' (rest w'))
      → Emptied w (answer_popped s rest w r)
  unfolding count
  answer_popped-Emptied fuel rest w (defer, none) v k z c g = (
    omega (arith, z refl, ap (λ (d : DeferQueue). d.current) k.popped),
    refl,
    omega (arith, z refl, v.counted, tally-le p w.defer.entries),
  )
  answer_popped-Emptied fuel rest w (defer, some event) v k z c g =
      let w' = record w { defer = defer; answered = event.metadata ∷ w.answered } in
      Emptied-from w w' (rest w') (omega (arith, k.popped.0)) refl
        (g w' k.valid (omega (arith, c, current-fewer w.defer defer event v k.valid k.fewer)))

  pub answer_deferred-Emptied :
      (fuel : ℕ) (w : Worker C)
      → IsValid w.defer
      → w.defer.current < fuel
      → Emptied w (answer_deferred s fuel w)
  unfolding answer_deferred decision_defer_pop_any
  answer_deferred-Emptied zero w v c = elim c [ ]
  answer_deferred-Emptied (suc fuel) w v c =
      let o = oldest_entry w.defer no_slot in
      answer_popped-Emptied fuel (answer_deferred s fuel) w (pop_entry w.defer o) v
        (pop_entry-Shrinks p w.defer o v (oldest_entry-Found w.defer no_slot))
        (oldest_entry-none w.defer v) c (answer_deferred-Emptied fuel)
