-- ===== src/MemoryQueue/Conservation.antt =====
-- How often the in-memory queue holds an email.
use catapulte.Common.{
  ℕ, ◌+◌, ◌^◌, ◌≤◌, ◌<◌, List, [], ◌∷◌, ◌++◌, ◌≡◌, ◌∙◌, refl, true, Option, none, some, arith,
  length, if◌then◌else◌, Option-cases, inl, inr, ◌==◌,
}
use catapulte.Entity.{EmailId}
use catapulte.MemoryQueue.{
  QueueItem, Task, counted, received, uncounted, drawn, delayed, MemoryQueue, new, run_task, pick,
  next_attempt, Action, enqueue, dequeue, ack, nack, advance, release, step, run, lookup_key,
  remove_key, insert_key,
}
use catapulte.MemoryQueue.Bytes.{from_le_bytes, is_eight}
use catapulte.MemoryQueue.Count.{total, total-pick}
use catapulte.MemoryQueue.Tokens.{
  one_if, key_count, holds_token, uses, HasFreshTokens, step-HasFreshTokens, next_token-step,
  new-HasFreshTokens, new_room,
}

-- 1 for an item of the email `d`.
abbrev pub is_of : EmailId → QueueItem → ℕ
is_of d i = one_if (i.id.uuid == d.uuid)

abbrev pub in_channel : EmailId → List QueueItem → ℕ
in_channel d [] = 0
in_channel d (i ∷ is) = is_of d i + in_channel d is

abbrev pub in_pending : EmailId → List (ℕ × QueueItem) → ℕ
in_pending d [] = 0
in_pending d ((t, i) ∷ m) = is_of d i + in_pending d m

abbrev pub in_task : EmailId → Task → ℕ
in_task d (counted i) = is_of d i
in_task d (received i) = is_of d i
in_task d (uncounted i) = is_of d i
in_task d (drawn i t) = is_of d i
in_task d (delayed i) = is_of d i

-- How many entries of the email `d` the queue holds, wherever they are.
abbrev pub held : EmailId → MemoryQueue → ℕ
held d q = in_channel d q.channel + in_pending d q.pending + total (in_task d) q.tasks

-- What `lookup_key` finds counts 1 for its email.
abbrev pub found : EmailId → Option QueueItem → ℕ
found d none = 0
found d (some i) = is_of d i

in_channel-append :
    (d : EmailId) (xs : List QueueItem) (i : QueueItem)
    → in_channel d (xs ++ i ∷ []) ≡ in_channel d xs + is_of d i
in_channel-append d [] i = omega arith
in_channel-append d (x ∷ xs) i = omega (arith, in_channel-append d xs i)

in_pending-absent :
    (d : EmailId) (t : ℕ) (m : List (ℕ × QueueItem))
    → key_count t m ≡ 0
    → in_pending d (remove_key t m) ≡ in_pending d m
unfolding remove_key
in_pending-absent d t [] h = refl
in_pending-absent d t ((j, i) ∷ m) h = ground (arith, in_pending-absent d t m)

in_pending-remove_key :
    (d : EmailId) (t : ℕ) (m : List (ℕ × QueueItem))
    → key_count t m ≤ 1
    → in_pending d (remove_key t m) + found d (lookup_key t m) ≡ in_pending d m
unfolding remove_key lookup_key
in_pending-remove_key d t [] h = refl
in_pending-remove_key d t ((j, i) ∷ m) h =
    ground (arith, in_pending-absent d t m, in_pending-remove_key d t m)

run_task-held :
    (d : EmailId) (task : Task) (us : List Task) (q : MemoryQueue)
    → q.rx_alive ≡ true
    → ((t : ℕ) → key_count t q.pending + holds_token t task ≤ 1)
    → let (q', left) = run_task task q in
      held d (record q' { tasks = left ++ us })
      ≡ in_channel d q.channel + in_pending d q.pending + (in_task d task + total (in_task d) us)
unfolding run_task insert_key next_attempt
run_task-held d (counted i) us q alive h = rw alive (omega (arith, in_channel-append d q.channel i))
run_task-held d (received i) us q alive h = omega arith
run_task-held d (uncounted i) us q alive h = omega arith
run_task-held d (drawn i t) us q alive h = ground (arith, h t, in_pending-absent d t q.pending)
run_task-held d (delayed i) us q alive h = omega arith

-- What an action brings in from outside, and what it takes out for good.
abbrev pub added : EmailId → Action → ℕ
added d (enqueue i) = is_of d i
added d _ = 0

abbrev pub taken : EmailId → MemoryQueue → Action → ℕ
taken d q (ack token) =
    if is_eight token.into_bytes
    then found d (lookup_key (from_le_bytes token.into_bytes) q.pending)
    else 0
taken d q _ = 0

-- While the receiver exists and no token is in use twice, every step of every call keeps each email
-- as often as it was there: only an enqueue adds an entry, and only the acknowledgement of a
-- pending delivery takes one out. Dequeues, returned deliveries and the moves of the calls in
-- progress change nothing.
held-step :
    (d : EmailId) (q : MemoryQueue) (a : Action)
    → q.rx_alive ≡ true
    → ((t : ℕ) → uses t q ≤ 1)
    → held d (step q a) + taken d q a ≡ held d q + added d a
unfolding step release
held-step d q (enqueue i) alive h = omega arith
held-step d q dequeue alive h = ground arith
held-step d q (ack token) alive h =
    let t = from_le_bytes token.into_bytes in
    ground (arith, h t, in_pending-remove_key d t q.pending)
held-step d q (nack token) alive h =
    let t = from_le_bytes token.into_bytes in
    ground (arith, h t, in_pending-remove_key d t q.pending)
held-step d q (advance n) alive h = elim (Option-cases (pick n q.tasks)) [
  | inl e ↦ rw (e, step) (omega arith)
  | inr ((u, us), e) ↦
      rw (e, step)
        (ground (
          arith,
          total-pick (in_task d) n q.tasks e,
          run_task-held d u us q alive
              (λ t. ground (arith, h t, total-pick (holds_token t) n q.tasks e)),
        ))
]

rx_alive-step : (q : MemoryQueue) (a : Action) → (step q a).rx_alive ≡ q.rx_alive
unfolding step release run_task
rx_alive-step q (enqueue i) = refl
rx_alive-step q dequeue = ground arith
rx_alive-step q (ack token) = ground arith
rx_alive-step q (nack token) = ground arith
rx_alive-step q (advance n) = ground arith

-- The same over a schedule.
abbrev pub all_added : EmailId → List Action → ℕ
all_added d [] = 0
all_added d (a ∷ as') = added d a + all_added d as'

abbrev pub all_taken : EmailId → MemoryQueue → List Action → ℕ
all_taken d q [] = 0
all_taken d q (a ∷ as') = taken d q a + all_taken d (step q a) as'

held-run_from :
    (d : EmailId) (actions : List Action) (q : MemoryQueue)
    → q.rx_alive ≡ true
    → q.next_token + length actions < 2 ^ 64
    → HasFreshTokens q
    → held d (run q actions) + all_taken d q actions ≡ held d q + all_added d actions
unfolding run
held-run_from d [] q alive room h = omega arith
held-run_from d (a ∷ rest) q alive room h = omega (
  arith,
  held-step d q a alive (λ t. ground (arith, h t)),
  held-run_from d rest (step q a) (rx_alive-step q a ∙ alive) (omega (arith, next_token-step q a))
      (step-HasFreshTokens q a (omega arith) h),
)

-- Conservation, over every schedule of fewer than 2 ^ 64 steps while the receiver exists: for each
-- email, the entries that the queue holds, in the channel, pending or in the hands of a call in
-- progress, and those that an acknowledgement has taken out are together exactly those that were
-- enqueued. Nothing is lost and nothing is doubled, by whatever interleaving.
pub held-run :
    (d : EmailId) (actions : List Action)
    → length actions < 2 ^ 64
    → held d (run new actions) + all_taken d new actions ≡ all_added d actions
held-run d actions room =
    held-run_from d actions new new_alive (new_room actions room) new-HasFreshTokens ∙ held_new
  where
    new_alive : new.rx_alive ≡ true
    new_alive = unfold new in refl

    held_new : held d new + all_added d actions ≡ all_added d actions
    held_new = unfold new in omega arith
