-- ===== src/MemoryQueue/Count.antt =====
-- The ready count, under every interleaving of the methods.
use catapulte.Common.{
  ℕ, zero, suc, ◌+◌, ◌%◌, ◌^◌, List, [], ◌∷◌, ◌++◌, ◌≡◌, some, arith, length, length-append,
  Option-cases, inl, inr,
}
use catapulte.MemoryQueue.{
  Task, counted, received, uncounted, drawn, delayed, MemoryQueue, new, run_task, pick, Action,
  enqueue, dequeue, ack, nack, advance, release, step, run, ready,
}

-- The sum of a measure over tasks.
abbrev pub total : (Task → ℕ) → List Task → ℕ
total f [] = 0
total f (t ∷ ts) = f t + total f ts

pub total-append : (f : Task → ℕ) (xs ys : List Task) → total f (xs ++ ys) ≡ total f xs + total f ys
total-append f [] ys = omega arith
total-append f (x ∷ xs) ys = omega (arith, total-append f xs ys)

pub total-pick :
    (f : Task → ℕ) (n : ℕ) (ts : List Task) {t : Task} {us : List Task}
    → pick n ts ≡ some (t, us)
    → total f ts ≡ f t + total f us
unfolding pick
total-pick f n [] h = cc
total-pick f zero (t ∷ ts) h = ground arith
total-pick f (suc n) (t ∷ ts) h = elim (Option-cases (pick n ts)) [
  | inl e ↦ ground arith
  | inr ((u, us), e) ↦ ground (arith, total-pick f n ts e)
]

-- How much of the ready count a call in progress accounts for.
abbrev pub weight : Task → ℕ
weight (counted _) = 1
weight (received _) = 1
weight _ = 0

-- The count is the number of items in the channel, with those that are about to be sent and those
-- that were received and not yet uncounted, as far as 64 bits show it.
abbrev pub IsCounted : MemoryQueue → Type 0
IsCounted q = q.ready_count ≡ (length q.channel + total weight q.tasks) % 2 ^ 64

run_task-IsCounted :
    (t : Task) (us : List Task) (q : MemoryQueue)
    → q.ready_count ≡ (length q.channel + (weight t + total weight us)) % 2 ^ 64
    → let (q', left) = run_task t q in IsCounted (record q' { tasks = left ++ us })
unfolding run_task
run_task-IsCounted (counted i) us q h = ground (arith, length-append q.channel (i ∷ []))
run_task-IsCounted (received i) us q h = omega arith
run_task-IsCounted (uncounted i) us q h = omega arith
run_task-IsCounted (drawn i t) us q h = omega arith
run_task-IsCounted (delayed i) us q h = omega arith

step-IsCounted : (q : MemoryQueue) (a : Action) → IsCounted q → IsCounted (step q a)
unfolding step release
step-IsCounted q (enqueue i) h = omega arith
step-IsCounted q dequeue h = ground arith
step-IsCounted q (ack token) h = ground arith
step-IsCounted q (nack token) h = ground arith
step-IsCounted q (advance n) h = elim (Option-cases (pick n q.tasks)) [
  | inl e ↦ rw (e, step) h
  | inr ((t, us), e) ↦
      rw (e, step) (run_task-IsCounted t us q (ground (arith, total-pick weight n q.tasks e)))
]

run-IsCounted : (as' : List Action) (q : MemoryQueue) → IsCounted q → IsCounted (run q as')
unfolding run
run-IsCounted [] q h = h
run-IsCounted (a ∷ as') q h = run-IsCounted as' (step q a) (step-IsCounted q a h)

-- Whatever the calls and however their atomic operations interleave, the ready count never runs
-- below zero and never drifts: modulo 2 ^ 64 it is the number of items in the channel, with those
-- about to be sent and those just received. So with no call at such a point, and fewer than 2 ^ 64
-- items, `pending` returns the number of items that can be dequeued.
pub ready-run :
    (actions : List Action)
    → let q = run new actions in (ready q ≡ (length q.channel + total weight q.tasks) % 2 ^ 64)
unfolding ready new
ready-run actions = run-IsCounted actions new (omega arith)
