-- ===== src/Tests/Queue.antt =====
-- The in-memory queue on a schedule with an enqueue, a delivery and its acknowledgement.
use catapulte.Common.{
  ◌+◌, ◌≤◌, ◌%◌, ◌^◌, List, [], ◌∷◌, ◌≡◌, none, length, arith, ◌==◌, if◌then◌else◌,
}
use catapulte.MemoryQueue.{
  QueueItem, new, run, ready, Action, step, dequeued, lookup_key, enqueue, dequeue, ack, nack,
  advance,
}
use catapulte.MemoryQueue.Count.{total, weight, ready-run}
use catapulte.MemoryQueue.Tokens.{uses, uses-run, ack-dequeued}
use catapulte.MemoryQueue.Conservation.{held, all_added, all_taken, held-run}
use catapulte.Tests.Delivery.{id, envelope}

abbrev item : QueueItem
item = record { id = id; envelope = envelope; attempt = 1; trace = record { into_pairs = [] } }

-- Two enqueues and two dequeues, one of them returned and the other acknowledged.
abbrev schedule : List Action
schedule =
    enqueue item
    ∷ enqueue item
    ∷ advance 1
    ∷ advance 0
    ∷ dequeue
    ∷ advance 0
    ∷ advance 0
    ∷ advance 0
    ∷ dequeue
    ∷ advance 0
    ∷ advance 0
    ∷ advance 0
    ∷ nack (dequeued item 0).token
    ∷ ack (dequeued item 1).token
    ∷ []

ready-run_example :
    ready (run new schedule)
    ≡ (length (run new schedule).channel + total weight (run new schedule).tasks) % 2 ^ 64
ready-run_example = ready-run schedule

uses-run_example : uses 1 (run new schedule) ≤ 1
uses-run_example = uses-run schedule 1 (omega arith)

held-run_example : held id (run new schedule) + all_taken id new schedule ≡ all_added id schedule
held-run_example = held-run id schedule (omega arith)

ack-dequeued_example :
    lookup_key 0 (step (run new schedule) (ack (dequeued item 1).token)).pending
    ≡ (if 1 == 0 then none else lookup_key 0 (run new schedule).pending)
ack-dequeued_example = ack-dequeued (run new schedule) item 1 0 (omega arith)
