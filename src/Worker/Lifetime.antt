-- ===== src/Worker/Lifetime.antt =====
-- The life of a worker, from its start to its shutdown, and the events that it answers in it.
use fapolicyd.Prelude.{
  ℕ, suc, ◌+◌, ◌≡◌, ◌≤◌, sym, subst, ap, ◌∙◌, Bool, Option, none, some, List, [], ◌∷◌, ◌++◌, arith,
  length,
}
use fapolicyd.DecisionEvent.{Metadata, DecisionEvent}
use fapolicyd.Queue.{Queue, Result, ok, err}
use fapolicyd.Defer.{DeferQueue}
use fapolicyd.Defer.View.{IsValid}
use fapolicyd.Worker.{
  Subjects, Worker, shutdown_queued_events, answer_deferred, shutdown_deferred_events,
}
use fapolicyd.Worker.Tally.{count, tally}
use fapolicyd.Worker.Turns.{
  IsWorking, held, Step, arrive, turn, release, step, Accounts, with_none, arrived,
}
use fapolicyd.Worker.Steps.{step-Accounts}
use fapolicyd.Worker.Shutdown.{
  every, waits_for, Drained, shutdown_queued_events-Drained, Emptied, answer_deferred-Emptied,
  count-queued,
}

-- What follows a step, with the events of both.
abbrev pub add_arrivals :
    {C : Type 0}
    → List Metadata
    → Option (Worker C × List Metadata)
    → Option (Worker C × List Metadata)
add_arrivals ms none = none
add_arrivals ms (some (w, more)) = some (w, ms ++ more)

abbrev pub then_run :
    {C : Type 0}
    → Option (Worker C × List Metadata)
    → (Worker C → Option (Worker C × List Metadata))
    → Option (Worker C × List Metadata)
then_run none rest = none
then_run (some (w, ms)) rest = add_arrivals ms (rest w)

abbrev pub with_arrivals :
    {C : Type 0} → List Metadata → Option (Worker C) → Option (Worker C × List Metadata)
with_arrivals ms none = none
with_arrivals ms (some w) = some (w, ms)

-- `shutdown_queued_events`, then `shutdown_deferred_events`.
abbrev pub then_shut_down :
    {C : Type 0}
    → Subjects C
    → List ℕ
    → Option (Worker C × List Metadata)
    → Option (Worker C × List Metadata)
then_shut_down s ns none = none
then_shut_down s ns (some (w, ms)) =
    with_arrivals ms (shutdown_deferred_events s (shutdown_queued_events s (waits_for ns) w))

-- The steps of a worker, with the events that come into its queue.
unfoldable pub run_steps :
    {C : Type 0} → Subjects C → List Step → Worker C → Option (Worker C × List Metadata)
run_steps s [] w = some (w, [])
run_steps s (st ∷ sts) w = then_run (step s w st) (run_steps s sts)

-- The steps, and the shutdown after them, with as many waits as are given.
unfoldable pub lifetime :
    {C : Type 0} → Subjects C → List Step → List ℕ → Worker C → Option (Worker C × List Metadata)
unfolding run_steps
lifetime s sts ns w = then_shut_down s ns (run_steps s sts w)

-- A run so far: the worker holds or has answered what it did at the start and what has arrived, of a
-- kind and in all, and no more has arrived than there were steps.
abbrev RunAccounts :
    {C : Type 0} → (Metadata → Bool) → Worker C → ℕ → Option (Worker C × List Metadata) → Type 0
RunAccounts p w n none = ⊥
RunAccounts p w n (some (w', ms)) =
    IsWorking w' 0
    × (held p w' ≡ held p w + count p ms)
    × (held every w' ≡ held every w + count every ms)
    × (count every ms ≤ n)

abbrev Few : {C : Type 0} → Option (Worker C × List Metadata) → Type 0
Few none = Unit
Few (some (w, ms)) = count every ms ≤ 1

Few-none : {C : Type 0} (o : Option (Worker C)) → Few (with_none o)
unfolding count
Few-none none = tt
Few-none (some w) = omega arith

Few-arrived :
    {C : Type 0} (w : Worker C) (event : DecisionEvent) (r : Queue × Result (Unit {0}))
    → Few (some (arrived w event r))
unfolding count
Few-arrived w event (q, ok u) = omega arith
Few-arrived w event (q, err e) = omega arith

step-Few : {C : Type 0} (s : Subjects C) (w : Worker C) (st : Step) → Few (step s w st)
unfolding step
step-Few s w (arrive queued_ns enqueue_ns event) = Few-arrived w event _
step-Few s w (turn now waits) = Few-none _
step-Few s w (release now) = Few-none _

count-ms :
    (p : Metadata → Bool) (xs ys : List Metadata) → count p (xs ++ ys) ≡ count p xs + count p ys
unfolding count
count-ms p [] ys = omega arith
count-ms p (x ∷ xs) ys = omega (arith, count-ms p xs ys)

module _ {C : Type 0} (s : Subjects C) (p : Metadata → Bool) where
  add_arrivals-RunAccounts :
      (u w : Worker C) (n : ℕ) (ms : List Metadata) (o : Option (Worker C × List Metadata))
      → held p w ≡ held p u + count p ms
      → held every w ≡ held every u + count every ms
      → count every ms ≤ 1
      → RunAccounts p w n o
      → RunAccounts p u (suc n) (add_arrivals ms o)
  add_arrivals-RunAccounts u w n ms none h k l r = r
  add_arrivals-RunAccounts u w n ms (some (v, more)) h k l r = (
    r.0,
    omega (arith, h, r.1, count-ms p ms more),
    omega (arith, k, r.2, count-ms every ms more),
    omega (arith, l, r.3, count-ms every ms more),
  )

  then_run-RunAccounts :
      (w : Worker C) (n : ℕ) (o : Option (Worker C × List Metadata))
      (rest : Worker C → Option (Worker C × List Metadata))
      → Accounts p w n o
      → Accounts every w n o
      → Few o
      → ((w' : Worker C) → IsWorking w' n → RunAccounts p w' n (rest w'))
      → RunAccounts p w (suc n) (then_run o rest)
  then_run-RunAccounts w n none rest a b f g = a
  then_run-RunAccounts w n (some (w', ms)) rest a b f g =
      add_arrivals-RunAccounts w w' n ms (rest w') a.1 b.1 f (g w' a.0)

  run_steps-RunAccounts :
      (sts : List Step) (w : Worker C)
      → IsWorking w (length sts)
      → RunAccounts p w (length sts) (run_steps s sts w)
  unfolding run_steps count
  run_steps-RunAccounts [] w h = (h, omega arith, omega arith, omega arith)
  run_steps-RunAccounts (st ∷ sts) w h =
      then_run-RunAccounts w (length sts) (step s w st) (run_steps s sts)
        (step-Accounts s p w (length sts) st h) (step-Accounts s every w (length sts) st h)
        (step-Few s w st) (λ w' h'. run_steps-RunAccounts sts w' h')

  -- The worker has stopped, and has answered of a kind as many events as it held and as arrived.
  abbrev pub Answers : Worker C → Option (Worker C × List Metadata) → Type 0
  Answers w none = ⊥
  Answers w (some (w', ms)) =
      (count p w'.answered ≡ held p w + count p ms)
      × (w'.queue.queue_length ≡ 0)
      × (w'.defer.current ≡ 0)

  with_arrivals-Answers :
      (w v u : Worker C) (ms : List Metadata) (o : Option (Worker C))
      → held p v ≡ held p w + count p ms
      → Drained s p v u
      → Emptied s p u o
      → Answers w (with_arrivals ms o)
  with_arrivals-Answers w v u ms none h d e = e
  with_arrivals-Answers w v u ms (some x) h d e = (
    omega (arith, e.2, d.conserved, h, ap (λ (q : DeferQueue). tally p q.entries) d.same_defer),
    ap (λ (q : Queue). q.queue_length) e.1 ∙ d.emptied,
    e.0,
  )

  then_shut_down-Answers :
      (w : Worker C) (n : ℕ) (ns : List ℕ) (o : Option (Worker C × List Metadata))
      → held every w + n ≤ length ns
      → RunAccounts p w n o
      → Answers w (then_shut_down s ns o)
  unfolding shutdown_deferred_events
  then_shut_down-Answers w n ns none l r = r
  then_shut_down-Answers w n ns (some (v, ms)) l r =
      let u = shutdown_queued_events s (waits_for ns) v in
      let d =
        shutdown_queued_events-Drained s p ns v r.0.queue_valid
          (omega (arith, r.2, r.3, l, count-queued v.queue)) in
      with_arrivals-Answers w v u ms (answer_deferred s (suc u.defer.current) u) r.1 d (
        answer_deferred-Emptied s p (suc u.defer.current) u
          (subst IsValid (sym d.same_defer) r.0.defer_valid) (omega arith))

-- Whatever the subjects and the policy do, and whatever the order of arrivals, turns and releases, a
-- worker that starts with a valid queue and a valid defer array comes to an end with both empty, and
-- has then answered each event that it held at the start or that `q_enqueue` stored, as often as it
-- was given, and no other. The waits at the shutdown may be interrupted but do not fail, and orders
-- of deferral do not wrap.
pub lifetime-Answers :
    {C : Type 0} (s : Subjects C) (p : Metadata → Bool) (sts : List Step) (ns : List ℕ)
    (w : Worker C)
    → IsWorking w (length sts)
    → held every w + length sts ≤ length ns
    → Answers s p w (lifetime s sts ns w)
unfolding lifetime
lifetime-Answers s p sts ns w h l =
    then_shut_down-Answers s p w (length sts) ns (run_steps s sts w) l
      (run_steps-RunAccounts s p sts w h)
