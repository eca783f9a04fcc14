-- ===== src/Queue/Refine.antt =====
-- A valid queue behaves as the bounded FIFO of the events that it holds.
use native.Mathlib.Nat.{mod-eq_of_lt, mod-eq-sub-mod, mod-add-mod, add-zero}
use native.Mathlib.Decide.{dec_lt}
use fapolicyd.Prelude.{
  ℕ, zero, suc, ◌+◌, ◌-◌, ◌%◌, ◌<◌, ◌≡◌, ◌≢◌, refl, ap, ap₂, ◌∙◌, List, [], ◌∷◌, ◌++◌, arith,
  length, get_or, set, replicate,
}
use fapolicyd.DecisionEvent.{DecisionEvent}
use fapolicyd.Queue.{
  QueueEntry, Queue, Result, ok, err, zero_entry, new_entry, q_enqueue, Wait, woken, interrupted,
  timed_out, failed, error, empty, got, take_entry, q_dequeue, q_timed_dequeue, q_shutdown,
}
use fapolicyd.Queue.Fifo
use fapolicyd.Queue.Fifo.{Fifo, Op, enqueue, dequeue, timed_dequeue, shutdown, Reply, took}
use fapolicyd.Queue.Inv.{
  IsValid, advance-eq-mod, q_enqueue-IsValid, q_dequeue-IsValid, q_timed_dequeue-IsValid,
  q_shutdown-IsValid,
}

module _ {ℓ} {A : Type ℓ} (d : A) where
  pub get_or-set_self : (xs : List A) (i : ℕ) (v : A) → i < length xs → get_or (set xs i v) i d ≡ v
  get_or-set_self [] i v h = elim h [ ]
  get_or-set_self (x ∷ xs) zero v h = refl
  get_or-set_self (x ∷ xs) (suc i) v h = get_or-set_self xs i v (omega arith)

  pub get_or-set_ne :
      (xs : List A) (i j : ℕ) (v : A) → i ≢ j → get_or (set xs i v) j d ≡ get_or xs j d
  get_or-set_ne [] i j v h = refl
  get_or-set_ne (x ∷ xs) zero zero v h = absurd (h refl)
  get_or-set_ne (x ∷ xs) zero (suc j) v h = refl
  get_or-set_ne (x ∷ xs) (suc i) zero v h = refl
  get_or-set_ne (x ∷ xs) (suc i) (suc j) v h = get_or-set_ne xs i j v (λ e. h (ap suc e))

-- The events of the `n` entries from index `i` on, round the ring of `num`.
abbrev pub events_from : List QueueEntry → ℕ → ℕ → ℕ → List DecisionEvent
events_from entries num i zero = []
events_from entries num i (suc n) =
    (get_or entries i zero_entry).event ∷ events_from entries num ((i + 1) % num) n

abbrev pub view : Queue → Fifo
view q = record {
  items = events_from q.events q.num_entries q.q_last q.queue_length;
  posts = q.sem;
}

pub length-events_from :
    (entries : List QueueEntry) (num i n : ℕ) → length (events_from entries num i n) ≡ n
length-events_from entries num i zero = refl
length-events_from entries num i (suc n) = ap suc (length-events_from entries num ((i + 1) % num) n)

-- The code tests `queue_length == 0`, `events_from` matches on `suc`.
events_from-ne_zero :
    (entries : List QueueEntry) (num i n : ℕ)
    → n ≢ 0
    → events_from entries num i n
      ≡ (get_or entries i zero_entry).event ∷ events_from entries num ((i + 1) % num) (n - 1)
events_from-ne_zero entries num i zero h = absurd (h refl)
events_from-ne_zero entries num i (suc n) h =
    ap (λ k. events_from entries num i (suc k)) (omega arith)

-- Less than a whole turn never leads back to where it began.
turn-ne : (num i k : ℕ) → i < num → suc k < num → (i + suc k) % num ≢ i
turn-ne num i k h hk = elim (dec_lt (i + suc k) num) [
  | yes p ↦ omega (arith, mod-eq_of_lt p)
  | no p ↦ omega (
    arith,
    mod-eq-sub-mod {n = i + suc k} {m = num} (omega arith),
    mod-eq_of_lt {n = i + suc k - num} {m = num} (omega arith),
  )
]

-- The entry that is written just past the `n` live ones becomes the last of them.
events_from-set :
    (entries : List QueueEntry) (num : ℕ) (e : QueueEntry) (n i j : ℕ)
    → length entries ≡ num
    → i < num
    → n < num
    → j ≡ (i + n) % num
    → events_from (set entries j e) num i (suc n) ≡ events_from entries num i n ++ e.event ∷ []
events_from-set entries num e zero i j len hi hn at =
    let here : j ≡ i = at ∙ rw add-zero (mod-eq_of_lt hi) in
    rw (here, get_or-set_self zero_entry entries i e (omega arith))
events_from-set entries num e (suc n) i j len hi hn at =
    ap₂ (λ (a : QueueEntry) (as_ : List DecisionEvent). a.event ∷ as_)
      (get_or-set_ne zero_entry entries j i e (rw at (turn-ne num i n hi hn)))
      (events_from-set entries num e n ((i + 1) % num) j len (omega arith) (omega arith)
        (at ∙ turn))
  where
    turn : (i + suc n) % num ≡ ((i + 1) % num + n) % num
    turn = rw mod-add-mod (ap (λ k. k % num) (omega arith))

abbrev pub reply_of : Result (Unit {0}) → Reply
reply_of (ok _) = Fifo.stored
reply_of (err _) = Fifo.full

unfoldable pub step : Queue → Op → Queue × Reply
step q (enqueue queued_ns enqueue_ns event) =
    let (q', r) = q_enqueue queued_ns enqueue_ns q event in (q', reply_of r)
step q (dequeue ws) = let (q', d) = q_dequeue ws q in (q', took d)
step q (timed_dequeue ws) = let (q', d) = q_timed_dequeue ws q in (q', took d)
step q shutdown = (q_shutdown q, Fifo.done)

unfoldable pub run : Queue → List Op → List Reply
run q [] = []
run q (op ∷ ops) = let (q', reply) = step q op in reply ∷ run q' ops

module _ {q : Queue} (v : IsValid q) where
  pub enqueue_refines :
      (queued_ns enqueue_ns : ℕ) (event : DecisionEvent)
      → let (q', r) = q_enqueue queued_ns enqueue_ns q event in
        (view q', reply_of r)
        ≡ Fifo.step q.num_entries (view q) (enqueue queued_ns enqueue_ns event)
  unfolding q_enqueue Fifo.step
  enqueue_refines queued_ns enqueue_ns event = ground (
    arith,
    length-events_from q.events q.num_entries q.q_last q.queue_length,
    events_from-set q.events q.num_entries (new_entry queued_ns enqueue_ns event) q.queue_length
        q.q_last q.q_next,
  )

  take_refines :
      let (q', d) = take_entry q in (view q', took d) ≡ Fifo.pop (view q).items (view q).posts
  unfolding take_entry
  take_refines = ground (
    arith,
    advance-eq-mod q.num_entries q.q_last,
    length-events_from q.events q.num_entries q.q_last q.queue_length,
    events_from-ne_zero q.events q.num_entries q.q_last q.queue_length,
  )

  pub dequeue_refines :
      (ws : List Wait)
      → let (q', d) = q_dequeue ws q in (view q', took d) ≡ Fifo.await error ws (view q)
  unfolding q_dequeue
  dequeue_refines [] = refl
  dequeue_refines (woken ∷ ws) = ground (arith, take_refines)
  dequeue_refines (interrupted ∷ ws) = dequeue_refines ws
  dequeue_refines (timed_out ∷ ws) = refl
  dequeue_refines (failed ∷ ws) = refl

  pub timed_dequeue_refines :
      (ws : List Wait)
      → let (q', d) = q_timed_dequeue ws q in (view q', took d) ≡ Fifo.await empty ws (view q)
  unfolding q_timed_dequeue
  timed_dequeue_refines [] = refl
  timed_dequeue_refines (woken ∷ ws) = ground (arith, take_refines)
  timed_dequeue_refines (interrupted ∷ ws) = timed_dequeue_refines ws
  timed_dequeue_refines (timed_out ∷ ws) = refl
  timed_dequeue_refines (failed ∷ ws) = refl

  step_refines :
      (op : Op)
      → let (q', reply) = step q op in (view q', reply) ≡ Fifo.step q.num_entries (view q) op
  unfolding step Fifo.step
  step_refines (enqueue queued_ns enqueue_ns event) =
      unfold Fifo.step in enqueue_refines queued_ns enqueue_ns event
  step_refines (dequeue ws) = dequeue_refines ws
  step_refines (timed_dequeue ws) = timed_dequeue_refines ws
  step_refines shutdown = unfold q_shutdown in refl

  pub step-IsValid : (op : Op) → IsValid (step q op).0
  unfolding step
  step-IsValid (enqueue queued_ns enqueue_ns event) = q_enqueue-IsValid v queued_ns enqueue_ns event
  step-IsValid (dequeue ws) = q_dequeue-IsValid v ws
  step-IsValid (timed_dequeue ws) = q_timed_dequeue-IsValid v ws
  step-IsValid shutdown = q_shutdown-IsValid v

num_entries-dequeue : (ws : List Wait) (q : Queue) → (q_dequeue ws q).0.num_entries ≡ q.num_entries
unfolding q_dequeue take_entry
num_entries-dequeue [] q = refl
num_entries-dequeue (woken ∷ ws) q = ground arith
num_entries-dequeue (interrupted ∷ ws) q = num_entries-dequeue ws q
num_entries-dequeue (timed_out ∷ ws) q = refl
num_entries-dequeue (failed ∷ ws) q = refl

num_entries-timed_dequeue :
    (ws : List Wait) (q : Queue) → (q_timed_dequeue ws q).0.num_entries ≡ q.num_entries
unfolding q_timed_dequeue take_entry
num_entries-timed_dequeue [] q = refl
num_entries-timed_dequeue (woken ∷ ws) q = ground arith
num_entries-timed_dequeue (interrupted ∷ ws) q = num_entries-timed_dequeue ws q
num_entries-timed_dequeue (timed_out ∷ ws) q = refl
num_entries-timed_dequeue (failed ∷ ws) q = refl

num_entries-step : (q : Queue) (op : Op) → (step q op).0.num_entries ≡ q.num_entries
unfolding step
num_entries-step q (enqueue queued_ns enqueue_ns event) = unfold q_enqueue in ground arith
num_entries-step q (dequeue ws) = num_entries-dequeue ws q
num_entries-step q (timed_dequeue ws) = num_entries-timed_dequeue ws q
num_entries-step q shutdown = unfold q_shutdown in refl

-- Whatever the order of the calls of the producer, the consumer and the shutdown, a valid queue
-- answers each as the bounded FIFO of the events that it holds does.
pub run_refines :
    (ops : List Op) {q : Queue} → IsValid q → run q ops ≡ Fifo.run q.num_entries (view q) ops
unfolding run Fifo.run
run_refines [] v = refl
run_refines (op ∷ ops) {q} v =
    rw (run_refines ops (step-IsValid v op), ← step_refines v op, num_entries-step)

-- A consumer of a valid queue that holds an event gets the oldest one if its wait ends with the
-- semaphore, however often it was interrupted before.
pub dequeue-got :
    (ws : List Wait) (n : ℕ) {q : Queue}
    → IsValid q
    → q.queue_length ≢ 0
    → (q_dequeue (replicate n interrupted ++ woken ∷ ws) q).1
      ≡ got (get_or q.events q.q_last zero_entry).event
unfolding q_dequeue take_entry
dequeue-got ws zero v h = ground arith
dequeue-got ws (suc n) v h = dequeue-got ws n v h
