-- ===== src/MemoryQueue.antt =====
-- adapter/outbound-queue-memory/src/lib.rs: the in-memory queue. Its methods run concurrently, so
-- each is cut at its atomic operations: a `Task` is a call in progress, with what it does next, and a
-- schedule says which task moves. Trace context is carried along. `rx_alive` says whether the receiver
-- still exists, without which a send fails.
pub mod Bytes
pub mod Count
pub mod Tokens
pub mod Conservation
use catapulte.Common.{
  ℕ, suc, ◌+◌, ◌-◌, ◌%◌, ◌^◌, List, [], ◌∷◌, ◌++◌, Bool, true, false, Option, none, some, Result,
  ok, err, ◌==◌, length, if◌then◌else◌,
}
use catapulte.Entity.{EmailId, Envelope}
use catapulte.Port.Types.{AckToken, TraceCarrier, DequeuedEmail, EmailQueueError, storage}
use Bytes.{to_le_bytes, from_le_bytes, is_eight}

pub record QueueItem : Type 0 where
  pub id : EmailId
  pub envelope : Envelope
  pub attempt : ℕ
  pub trace : TraceCarrier

pub data Task : Type 0 where
  -- `enqueue` or a re-send: counted, and about to send
  counted : QueueItem → Task
  -- `dequeue`: received, and about to uncount
  received : QueueItem → Task
  -- `dequeue`: uncounted, and about to draw a token
  uncounted : QueueItem → Task
  -- `dequeue`: about to register the item under its token
  drawn : QueueItem → ℕ → Task
  -- the spawned task of `nack`: sleeping until the delay is over
  delayed : QueueItem → Task

pub record MemoryQueue : Type 0 where
  pub channel : List QueueItem
  pub rx_alive : Bool
  pub pending : List (ℕ × QueueItem)
  pub next_token : ℕ
  pub ready_count : ℕ
  pub tasks : List Task

unfoldable pub new : MemoryQueue
new = record {
  channel = [];
  rx_alive = true;
  pending = [];
  next_token = 0;
  ready_count = 0;
  tasks = [];
}

-- `AtomicU64::fetch_add(1)` and `fetch_sub(1)` wrap around.
abbrev pub add_one : ℕ → ℕ
add_one n = (n + 1) % 2 ^ 64

abbrev pub sub_one : ℕ → ℕ
sub_one n = (n + (2 ^ 64 - 1)) % 2 ^ 64

-- `HashMap::insert` and `HashMap::remove`; a key stands at most once in the map.
unfoldable pub remove_key : ℕ → List (ℕ × QueueItem) → List (ℕ × QueueItem)
remove_key k [] = []
remove_key k ((j, i) ∷ m) = let rest = remove_key k m in if j == k then rest else (j, i) ∷ rest

unfoldable pub lookup_key : ℕ → List (ℕ × QueueItem) → Option QueueItem
lookup_key k [] = none
lookup_key k ((j, i) ∷ m) = if j == k then some i else lookup_key k m

unfoldable pub insert_key : ℕ → QueueItem → List (ℕ × QueueItem) → List (ℕ × QueueItem)
insert_key k i m = (k, i) ∷ remove_key k m

-- The item with its attempt counted up, which is a u32.
unfoldable pub next_attempt : QueueItem → QueueItem
next_attempt i = record i { attempt = (i.attempt + 1) % 2 ^ 32 }

-- What a task does next, and what is left of it.
unfoldable pub run_task : Task → MemoryQueue → MemoryQueue × List Task
run_task (counted i) q =
    if q.rx_alive
    then (record q { channel = q.channel ++ i ∷ [] }, [])
    else (record q { ready_count = sub_one q.ready_count }, [])
run_task (received i) q = (record q { ready_count = sub_one q.ready_count }, uncounted i ∷ [])
run_task (uncounted i) q =
    (record q { next_token = add_one q.next_token }, drawn i q.next_token ∷ [])
run_task (drawn i t) q = (record q { pending = insert_key t i q.pending }, [])
run_task (delayed i) q =
    (record q { ready_count = add_one q.ready_count }, counted (next_attempt i) ∷ [])

-- The task at a position, with the others.
unfoldable pub pick : ℕ → List Task → Option (Task × List Task)
pick n [] = none
pick ℕ.zero (t ∷ ts) = some (t, ts)
pick (suc n) (t ∷ ts) = elim (pick n ts) [ none ↦ none | some (u, us) ↦ some (u, t ∷ us) ]

pub data Action : Type 0 where
  enqueue : QueueItem → Action
  dequeue : Action
  ack : AckToken → Action
  nack : AckToken → Action
  advance : ℕ → Action

-- `nack` after its token was read: a pending item is taken out and sleeps.
unfoldable pub release : ℕ → MemoryQueue → MemoryQueue
release t q = elim (lookup_key t q.pending) [
  | none ↦ q
  | some i ↦ record q { pending = remove_key t q.pending; tasks = delayed i ∷ q.tasks }
]

-- The first atomic operation of a method, or a move of the task at a position. `dequeue` on an
-- empty channel waits: nothing happens. `ack` and `nack` of a token that has not eight bytes fail.
unfoldable pub step : MemoryQueue → Action → MemoryQueue
step q (enqueue i) = record q { ready_count = add_one q.ready_count; tasks = counted i ∷ q.tasks }
step q dequeue = elim q.channel [
  | [] ↦ q
  | i ∷ rest ↦ record q { channel = rest; tasks = received i ∷ q.tasks }
]
step q (ack token) =
    if is_eight token.into_bytes
    then record q { pending = remove_key (from_le_bytes token.into_bytes) q.pending }
    else q
step q (nack token) =
    if is_eight token.into_bytes then release (from_le_bytes token.into_bytes) q else q
step q (advance n) = elim (pick n q.tasks) [
  | none ↦ q
  | some (t, ts) ↦ let (q', left) = run_task t q in record q' { tasks = left ++ ts }
]

unfoldable pub run : MemoryQueue → List Action → MemoryQueue
run q [] = q
run q (a ∷ as') = run (step q a) as'

-- The observer `MemoryQueue::pending`, the number of items that wait.
unfoldable pub ready : MemoryQueue → ℕ
ready q = q.ready_count

-- What `dequeue` returns for an item that is registered under a token.
unfoldable pub dequeued : QueueItem → ℕ → DequeuedEmail
dequeued i t = record {
  id = i.id;
  envelope = i.envelope;
  attempt = i.attempt;
  token = record { into_bytes = to_le_bytes t };
  trace = i.trace;
}

-- What `ack` returns; `nack` has another message.
unfoldable pub ack_result : AckToken → Result (Unit {0}) EmailQueueError
ack_result token =
    if is_eight token.into_bytes then ok tt else err (storage "invalid ack token length")

unfoldable pub nack_result : AckToken → Result (Unit {0}) EmailQueueError
nack_result token =
    if is_eight token.into_bytes then ok tt else err (storage "invalid nack token length")
