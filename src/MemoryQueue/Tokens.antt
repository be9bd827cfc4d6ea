-- ===== src/MemoryQueue/Tokens.antt =====
-- The acknowledgement tokens of adapter/outbound-queue-memory/src/lib.rs.
use catapulte.Common.{
  ℕ, ◌+◌, ◌-◌, ◌^◌, ◌≤◌, ◌<◌, List, [], ◌∷◌, ◌++◌, ◌≡◌, Bool, none, arith, length, if◌then◌else◌,
  Option-cases, inl, inr, ◌==◌, ltb,
}
use catapulte.MemoryQueue.{
  QueueItem, Task, counted, received, uncounted, drawn, delayed, MemoryQueue, new, run_task, pick,
  Action, enqueue, dequeue, ack, nack, advance, release, step, run, lookup_key, remove_key,
  insert_key, dequeued,
}
use catapulte.MemoryQueue.Bytes.{from_le_bytes, from_le_bytes-to_le_bytes, length-to_le_bytes}
use catapulte.MemoryQueue.Count.{total, total-pick}

abbrev pub one_if : Bool → ℕ
one_if b = if b then 1 else 0

abbrev pub key_count : ℕ → List (ℕ × QueueItem) → ℕ
key_count t [] = 0
key_count t ((j, i) ∷ m) = one_if (j == t) + key_count t m

abbrev pub holds_token : ℕ → Task → ℕ
holds_token t (drawn _ j) = one_if (j == t)
holds_token t _ = 0

-- How often a token is in use: by a pending item, or by a call that is about to register one.
abbrev pub uses : ℕ → MemoryQueue → ℕ
uses t q = key_count t q.pending + total (holds_token t) q.tasks

pub key_count-remove_key :
    (t k : ℕ) (m : List (ℕ × QueueItem))
    → key_count t (remove_key k m) ≡ (if k == t then 0 else key_count t m)
unfolding remove_key
key_count-remove_key t k [] = ground arith
key_count-remove_key t k ((j, i) ∷ m) = ground (arith, key_count-remove_key t k m)

lookup_key-remove_key :
    (k t : ℕ) (m : List (ℕ × QueueItem))
    → lookup_key k (remove_key t m) ≡ (if t == k then none else lookup_key k m)
unfolding lookup_key remove_key
lookup_key-remove_key k t [] = ground arith
lookup_key-remove_key k t ((j, i) ∷ m) = ground (arith, lookup_key-remove_key k t m)

-- No token is in use twice, and none from `next_token` on is in use.
abbrev pub HasFreshTokens : MemoryQueue → Type 0
HasFreshTokens q = (t : ℕ) → uses t q ≤ one_if (ltb t q.next_token)

run_task-HasFreshTokens :
    (task : Task) (us : List Task) (q : MemoryQueue)
    → q.next_token < 2 ^ 64 - 1
    → ((t : ℕ)
        → key_count t q.pending + (holds_token t task + total (holds_token t) us)
          ≤ one_if (ltb t q.next_token))
    → let (q', left) = run_task task q in HasFreshTokens (record q' { tasks = left ++ us })
unfolding run_task insert_key
run_task-HasFreshTokens (counted i) us q room h t = ground (arith, h t)
run_task-HasFreshTokens (received i) us q room h t = ground (arith, h t)
run_task-HasFreshTokens (uncounted i) us q room h t = ground (arith, h t)
run_task-HasFreshTokens (drawn i k) us q room h t =
    ground (arith, h t, key_count-remove_key t k q.pending)
run_task-HasFreshTokens (delayed i) us q room h t = ground (arith, h t)

pub step-HasFreshTokens :
    (q : MemoryQueue) (a : Action)
    → q.next_token < 2 ^ 64 - 1
    → HasFreshTokens q
    → HasFreshTokens (step q a)
unfolding step release
step-HasFreshTokens q (enqueue i) room h t = ground (arith, h t)
step-HasFreshTokens q dequeue room h t = ground (arith, h t)
step-HasFreshTokens q (ack token) room h t =
    ground (arith, h t, key_count-remove_key t (from_le_bytes token.into_bytes) q.pending)
step-HasFreshTokens q (nack token) room h t =
    ground (arith, h t, key_count-remove_key t (from_le_bytes token.into_bytes) q.pending)
step-HasFreshTokens q (advance n) room h t = elim (Option-cases (pick n q.tasks)) [
  | inl e ↦ rw (e, step) (h t)
  | inr ((u, us), e) ↦
      rw (e, step)
        (run_task-HasFreshTokens u us q room
          (λ j. ground (arith, h j, total-pick (holds_token j) n q.tasks e)) t)
]

pub next_token-step : (q : MemoryQueue) (a : Action) → (step q a).next_token ≤ q.next_token + 1
unfolding step release run_task
next_token-step q (enqueue i) = ground arith
next_token-step q dequeue = ground arith
next_token-step q (ack token) = ground arith
next_token-step q (nack token) = ground arith
next_token-step q (advance n) = ground arith

pub run-HasFreshTokens :
    (actions : List Action) (q : MemoryQueue)
    → q.next_token + length actions < 2 ^ 64
    → HasFreshTokens q
    → HasFreshTokens (run q actions)
unfolding run
run-HasFreshTokens [] q room h = h
run-HasFreshTokens (a ∷ rest) q room h =
    run-HasFreshTokens rest (step q a) (omega (arith, next_token-step q a))
      (step-HasFreshTokens q a (omega arith) h)

pub new-HasFreshTokens : HasFreshTokens new
unfolding new
new-HasFreshTokens t = omega arith

pub new_room :
    (actions : List Action) → length actions < 2 ^ 64 → new.next_token + length actions < 2 ^ 64
unfolding new
new_room actions room = omega arith

-- Under every interleaving of fewer than 2 ^ 64 steps each token is in use at most once: no two
-- deliveries share a token, whether they are pending or about to be registered.
pub uses-run :
    (actions : List Action) (t : ℕ) → length actions < 2 ^ 64 → uses t (run new actions) ≤ 1
uses-run actions t room =
    ground (arith, run-HasFreshTokens actions new (new_room actions room) new-HasFreshTokens t)

-- Acknowledging the token of a delivered email takes out its entry, and leaves every other pending
-- delivery as it is.
pub ack-dequeued :
    (q : MemoryQueue) (i : QueueItem) (t k : ℕ)
    → t < 2 ^ 64
    → lookup_key k (step q (ack (dequeued i t).token)).pending
      ≡ (if t == k then none else lookup_key k q.pending)
unfolding step dequeued
ack-dequeued q i t k h =
    rw (length-to_le_bytes t)
      (rw (from_le_bytes-to_le_bytes t h) (lookup_key-remove_key k t q.pending))
