-- ===== src/Worker/Turns.antt =====
-- The steps of a worker between its start and the shutdown, and what they do to the events in its
-- queue, those that it has deferred and those that it has answered.
use fapolicyd.Prelude.{
  ℕ, suc, ◌+◌, ◌≡◌, ◌≤◌, ◌<◌, refl, sym, subst, ap, ◌∙◌, Bool, true, false, Option, none, some,
  List, [], ◌∷◌, ◌++◌, arith, length, ◌==◌, if◌then◌else◌, if-cases,
}
use fapolicyd.Prelude.Words.{u64_mod}
use fapolicyd.DecisionEvent.{Metadata, DecisionEvent}
use fapolicyd.Queue.{
  Queue, Result, ok, err, Wait, woken, interrupted, timed_out, failed, Dequeued, blocked, error,
  empty, got, q_enqueue, q_timed_dequeue, q_dequeue,
}
use fapolicyd.Queue.Fifo
use fapolicyd.Queue.Fifo.{Fifo, Reply, took, stored, full, done, await, pop}
use fapolicyd.Queue.Inv.{q_enqueue-IsValid, q_dequeue-IsValid, q_timed_dequeue-IsValid}
use fapolicyd.Queue.Inv
use fapolicyd.Queue.Refine.{view, enqueue_refines, timed_dequeue_refines, dequeue_refines, reply_of}
use fapolicyd.Defer.View.{weigh, IsValid}
use fapolicyd.Worker.{Subjects, Worker, release_ready, worker_turn}
use fapolicyd.Worker.Tally.{count, tally}
use fapolicyd.Worker.Conserve.{Ends}

-- The events in a queue.
abbrev pub metadata_of : List DecisionEvent → List Metadata
metadata_of [] = []
metadata_of (e ∷ es) = e.metadata ∷ metadata_of es

abbrev pub queued : Queue → List Metadata
queued q = metadata_of (view q).items

-- What a reply gives out, of a kind.
abbrev pub given : (Metadata → Bool) → Reply → ℕ
given p (took (got e)) = weigh (p e.metadata)
given p _ = 0

await-count :
    (p : Metadata → Bool) (d : Dequeued) (ws : List Wait) (f : Fifo)
    → given p (took d) ≡ 0
    → count p (metadata_of (await d ws f).0.items) + given p (await d ws f).1
      ≡ count p (metadata_of f.items)
unfolding count
await-count p d [] f h = omega arith
await-count p d (woken ∷ ws) f h =
    if-cases
      (λ (r : Fifo × Reply).
        count p (metadata_of r.0.items) + given p r.1 ≡ count p (metadata_of f.items))
      (f.posts == 0) (f, took blocked) (pop f.items f.posts) (λ e. omega arith)
      (λ e. pop-count p f.items f.posts)
  where
    pop-count :
        (p : Metadata → Bool) (es : List DecisionEvent) (n : ℕ)
        → count p (metadata_of (pop es n).0.items) + given p (pop es n).1 ≡ count p (metadata_of es)
    pop-count p [] n = refl
    pop-count p (e ∷ es) n = omega arith
await-count p d (interrupted ∷ ws) f h = await-count p d ws f h
await-count p d (timed_out ∷ ws) f h = omega (arith, h)
await-count p d (failed ∷ ws) f h = omega arith

-- What a dequeue gives out.
abbrev pub dequeued : (Metadata → Bool) → Dequeued → ℕ
dequeued p d = given p (took d)

pub q_timed_dequeue-count :
    (p : Metadata → Bool) (ws : List Wait) (q : Queue)
    → Inv.IsValid q
    → count p (queued (q_timed_dequeue ws q).0) + dequeued p (q_timed_dequeue ws q).1
      ≡ count p (queued q)
q_timed_dequeue-count p ws q v =
    ap (λ (r : Fifo × Reply). count p (metadata_of r.0.items) + given p r.1)
      (timed_dequeue_refines v ws)
    ∙ await-count p empty ws (view q) refl

pub q_dequeue-count :
    (p : Metadata → Bool) (ws : List Wait) (q : Queue)
    → Inv.IsValid q
    → count p (queued (q_dequeue ws q).0) + dequeued p (q_dequeue ws q).1 ≡ count p (queued q)
q_dequeue-count p ws q v =
    ap (λ (r : Fifo × Reply). count p (metadata_of r.0.items) + given p r.1) (dequeue_refines v ws)
    ∙ await-count p error ws (view q) refl

count-append :
    (p : Metadata → Bool) (xs ys : List DecisionEvent)
    → count p (metadata_of (xs ++ ys)) ≡ count p (metadata_of xs) + count p (metadata_of ys)
unfolding count
count-append p [] ys = omega arith
count-append p (x ∷ xs) ys = omega (arith, count-append p xs ys)

abbrev pub is_stored : Reply → Bool
is_stored stored = true
is_stored _ = false

-- An event that is stored is in the queue.
pub q_enqueue-count :
    (p : Metadata → Bool) (queued_ns enqueue_ns : ℕ) (q : Queue) (event : DecisionEvent)
    → Inv.IsValid q
    → count p (queued (q_enqueue queued_ns enqueue_ns q event).0)
      ≡ count p (queued q)
        + (if is_stored (reply_of (q_enqueue queued_ns enqueue_ns q event).1)
            then weigh (p event.metadata)
            else 0)
unfolding count Fifo.step
q_enqueue-count p queued_ns enqueue_ns q event v =
    let es = (view q).items in
    let e = record event { enqueue_ns = enqueue_ns } in
    let adds = λ (r : Fifo × Reply).
      count p (metadata_of r.0.items)
      ≡ count p (queued q) + (if is_stored r.1 then weigh (p event.metadata) else 0) in
    subst adds (sym (enqueue_refines v queued_ns enqueue_ns event)) (
      if-cases adds (length es == q.num_entries) (view q, full)
        (record (view q) { items = es ++ e ∷ []; posts = q.sem + 1 }, stored) (λ h. omega arith)
        (λ h. omega (arith, count-append p es (e ∷ []))))

-- The array is valid, and so is the queue, and fewer orders have been given out than there are.
pub record IsWorking {C : Type 0} (w : Worker C) (steps : ℕ) : Type 0 where
  pub queue_valid : Inv.IsValid w.queue
  pub defer_valid : IsValid w.defer
  pub orders_left : w.defer.next_order + steps < u64_mod

-- The events that a worker holds or has answered, of a kind.
abbrev pub held : {C : Type 0} → (Metadata → Bool) → Worker C → ℕ
held p w = count p w.answered + tally p w.defer.entries + count p (queued w.queue)

-- What the producer does, a turn of the worker, and a round of the release of deferred events.
pub data Step : Type 0 where
  arrive : ℕ → ℕ → DecisionEvent → Step
  turn : ℕ → List Wait → Step
  release : ℕ → Step

-- An event that `q_enqueue` stores.
abbrev pub arrived :
    {C : Type 0} → Worker C → DecisionEvent → Queue × Result (Unit {0}) → Worker C × List Metadata
arrived w event (q, ok u) = (record w { queue = q }, event.metadata ∷ [])
arrived w event (q, err e) = (record w { queue = q }, [])

abbrev pub with_none : {C : Type 0} → Option (Worker C) → Option (Worker C × List Metadata)
with_none none = none
with_none (some w) = some (w, [])

-- A step, and the events that it adds to the queue.
unfoldable pub step :
    {C : Type 0} → Subjects C → Worker C → Step → Option (Worker C × List Metadata)
step s w (arrive queued_ns enqueue_ns event) =
    some (arrived w event (q_enqueue queued_ns enqueue_ns w.queue event))
step s w (turn now waits) = with_none (worker_turn s now waits w)
step s w (release now) = with_none (release_ready s now w)

-- The step comes to an end, and the worker holds or has answered what it did before and what has
-- arrived.
abbrev pub Accounts :
    {C : Type 0} → (Metadata → Bool) → Worker C → ℕ → Option (Worker C × List Metadata) → Type 0
Accounts p w n none = ⊥
Accounts p w n (some (w', arrivals)) = IsWorking w' n × (held p w' ≡ held p w + count p arrivals)

pub Accounts-Keeps :
    {C : Type 0} (p : Metadata → Bool) (w w' : Worker C) (n more : ℕ) (r : Option (Worker C))
    → IsWorking w (suc n)
    → Inv.IsValid w'.queue
    → w'.defer.next_order ≤ w.defer.next_order
    → held p w' + more ≡ held p w
    → Ends p w' more r
    → Accounts p w n (with_none r)
unfolding count
Accounts-Keeps p w w' n more none h v o e k = k
Accounts-Keeps p w w' n more (some u) h v o e k = (
  record {
    queue_valid = subst Inv.IsValid (sym k.same_queue) v;
    defer_valid = k.valid;
    orders_left = omega (arith, k.orders, o, h.orders_left);
  },
  omega (arith, k.conserved, e, ap (λ q. count p (queued q)) k.same_queue),
)
