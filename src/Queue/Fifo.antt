-- ===== src/Queue/Fifo.antt =====
-- What a queue promises its two threads: a first-in first-out sequence of events of at most `cap`,
-- and a count of wake-ups. The producer's and the consumer's calls are one sequence of operations.
use fapolicyd.Prelude.{ℕ, ◌+◌, ◌-◌, List, [], ◌∷◌, ◌++◌, ◌==◌, if◌then◌else◌, length}
use fapolicyd.DecisionEvent.{DecisionEvent}
use fapolicyd.Queue.{
  Wait, woken, interrupted, timed_out, failed, Dequeued, blocked, error, empty, got,
}

pub record Fifo : Type 0 where
  pub items : List DecisionEvent
  pub posts : ℕ

pub data Op : Type 0 where
  enqueue : ℕ → ℕ → DecisionEvent → Op
  dequeue : List Wait → Op
  timed_dequeue : List Wait → Op
  shutdown : Op

pub data Reply : Type 0 where
  stored : Reply
  full : Reply
  took : Dequeued → Reply
  done : Reply

-- A call that is let through takes the oldest event.
abbrev pub pop : List DecisionEvent → ℕ → Fifo × Reply
pop [] posts = (record { items = []; posts = posts - 1 }, took empty)
pop (e ∷ es) posts = (record { items = es; posts = posts - 1 }, took (got e))

-- The first wait that is not interrupted decides; `on_timeout` is what a time-out answers.
abbrev pub await : Dequeued → List Wait → Fifo → Fifo × Reply
await on_timeout [] f = (f, took blocked)
await on_timeout (woken ∷ ws) f = if f.posts == 0 then (f, took blocked) else pop f.items f.posts
await on_timeout (interrupted ∷ ws) f = await on_timeout ws f
await on_timeout (timed_out ∷ ws) f = (f, took on_timeout)
await on_timeout (failed ∷ ws) f = (f, took error)

unfoldable pub step : ℕ → Fifo → Op → Fifo × Reply
step cap f (enqueue queued_ns enqueue_ns event) = if length f.items == cap then (f, full) else (
  record f {
    items = f.items ++ (record event { enqueue_ns = enqueue_ns }) ∷ [];
    posts = f.posts + 1;
  },
  stored,
)
step cap f (dequeue ws) = await error ws f
step cap f (timed_dequeue ws) = await empty ws f
step cap f shutdown = (record f { posts = f.posts + 1 }, done)

unfoldable pub run : ℕ → Fifo → List Op → List Reply
run cap f [] = []
run cap f (op ∷ ops) = let (f', reply) = step cap f op in reply ∷ run cap f' ops
