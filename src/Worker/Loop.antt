-- ===== src/Worker/Loop.antt =====
-- adapter/inbound-worker/src/worker.rs: the configuration of a worker, and its loop `run` as a machine.
-- Its steps are what `tokio` interleaves: the polls of the loop, in which a cancellation comes first,
-- and the ends of the tasks that it has spawned. The sleep after a failed dequeue ends at any time.
use catapulte.Common.{
  ℕ, zero, suc, ◌+◌, String, List, [], ◌∷◌, ◌++◌, Bool, true, false, Option, none, some, Result, ok,
  err, ◌==◌, if◌then◌else◌,
}
use catapulte.Entity.{AnyError}
use catapulte.Port.Types.{DequeuedEmail}

pub data VarError : Type 0 where
  not_present : VarError
  not_unicode : VarError

-- `WorkerConfig::from_env`, from the variable and a parser of `usize`; errors are their message.
unfoldable pub from_env : (String → Result ℕ AnyError) → Result String VarError → Result ℕ AnyError
from_env parse (err not_present) = ok 1
from_env parse (err not_unicode) = err "reading CONCURRENCY"
from_env parse (ok v) = elim (parse v) [
  | err _ ↦ err "invalid CONCURRENCY"
  | ok n ↦ if n == 0 then err "CONCURRENCY must be at least 1 (got 0)" else ok n
]

-- Where the loop waits: for a permit, for an email with a permit in hand, in the sleep, for its tasks
-- to end, or nowhere any more.
pub data Phase : Type 0 where
  acquiring dequeuing sleeping draining stopped : Phase

-- `free` permits are left in the semaphore. A task keeps its permit until it ends.
pub record Loop : Type 0 where
  pub phase : Phase
  pub free : ℕ
  pub running : List DequeuedEmail
  pub cancelled : Bool

pub data Action : Type 0 where
  cancel : Action
  -- `sem.acquire_owned()`
  acquire : Action
  -- `cancel.cancelled() => break`
  leave : Action
  -- `dequeue()` returns
  take_email : DequeuedEmail → Action
  fail_dequeue : Action
  -- The sleep is over.
  wake : Action
  -- The task at a position ends.
  finish : ℕ → Action
  -- `join_next()` returns `None`.
  join : Action

unfoldable pub start : ℕ → Loop
start concurrency = record {
  phase = acquiring;
  free = concurrency;
  running = [];
  cancelled = false;
}

-- The tasks without the one at a position.
unfoldable pub remove_at : ℕ → List DequeuedEmail → Option (List DequeuedEmail)
remove_at n [] = none
remove_at zero (d ∷ ds) = some ds
remove_at (suc n) (d ∷ ds) = elim (remove_at n ds) [ some rest ↦ some (d ∷ rest) | none ↦ none ]

-- `acquire_owned`, if a permit is left.
unfoldable pub acquire_permit : ℕ → Loop → Option Loop
acquire_permit zero s = none
acquire_permit (suc n) s = some (record s { phase = dequeuing; free = n })

-- What a poll of the loop does while there is no cancellation; a step that cannot happen is `none`.
unfoldable pub poll : Phase → Action → Loop → Option Loop
poll acquiring acquire s = acquire_permit s.free s
poll dequeuing (take_email d) s =
    some (record s { phase = acquiring; running = s.running ++ d ∷ [] })
poll dequeuing fail_dequeue s = some (record s { phase = sleeping; free = s.free + 1 })
poll sleeping wake s = some (record s { phase = acquiring })
poll _ _ s = none

-- What a poll of the loop does once it is cancelled: a permit in hand is dropped.
unfoldable pub poll_cancelled : Phase → Loop → Option Loop
poll_cancelled acquiring s = some (record s { phase = draining })
poll_cancelled dequeuing s = some (record s { phase = draining; free = s.free + 1 })
poll_cancelled sleeping s = some (record s { phase = draining })
poll_cancelled draining s = none
poll_cancelled stopped s = none

-- The drain ends when no task is left.
unfoldable pub join_all : Phase → List DequeuedEmail → Loop → Option Loop
join_all draining [] s = some (record s { phase = stopped })
join_all _ _ s = none

unfoldable pub finish_task : Option (List DequeuedEmail) → Loop → Option Loop
finish_task none s = none
finish_task (some rest) s = some (record s { running = rest; free = s.free + 1 })

unfoldable pub step : Action → Loop → Option Loop
step cancel s = some (record s { cancelled = true })
step (finish n) s = finish_task (remove_at n s.running) s
step leave s = if s.cancelled then poll_cancelled s.phase s else none
step join s = join_all s.phase s.running s
step acquire s = if s.cancelled then none else poll s.phase acquire s
step (take_email d) s = if s.cancelled then none else poll s.phase (take_email d) s
step fail_dequeue s = if s.cancelled then none else poll s.phase fail_dequeue s
step wake s = if s.cancelled then none else poll s.phase wake s

-- The steps of a schedule, one after the other.
unfoldable pub run : List Action → Loop → Option Loop
run [] s = some s
run (a ∷ rest) s = elim (step a s) [ some next ↦ run rest next | none ↦ none ]
