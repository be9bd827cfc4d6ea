-- ===== src/Tests/Loop.antt =====
-- A worker that takes an email and is cancelled.
use catapulte.Common.{ℕ, ◌+◌, ◌≤◌, String, List, [], ◌∷◌, ◌≡◌, ◌⊎◌, refl, true, Result, err, length}
use catapulte.Entity.{AnyError}
use catapulte.Port.Types.{DequeuedEmail}
use catapulte.Worker.Loop.{
  Action, Loop, acquiring, acquire, acquire_permit, cancel, finish, from_env, join, join_all, leave,
  not_present, poll, poll_cancelled, finish_task, remove_at, run, start, step, stopped, take_email,
}
use catapulte.Worker.Drain.{CanStep, counted, held, run-permits, run-stops}
use catapulte.Tests.Delivery.{envelope, id}

abbrev job : DequeuedEmail
job = record {
  id = id;
  envelope = envelope;
  attempt = 1;
  token = record { into_bytes = 1 ∷ [] };
  trace = record { into_pairs = [] };
}

abbrev before : List Action
before = acquire ∷ take_email job ∷ cancel ∷ []

abbrev cancelled_loop : Loop
cancelled_loop = record { phase = acquiring; free = 0; running = job ∷ []; cancelled = true }

abbrev stopped_loop : Loop
stopped_loop = record { phase = stopped; free = 1; running = []; cancelled = true }

run-permits_example :
    (cancelled_loop.free + held cancelled_loop.phase + length cancelled_loop.running ≡ 1)
    × (length cancelled_loop.running ≤ 1)
unfolding run step poll acquire_permit start
run-permits_example = run-permits 1 before cancelled_loop refl

abbrev parse : String → Result ℕ AnyError
parse s = err "not a number"

run-stops_example :
    (counted (leave ∷ finish 0 ∷ join ∷ []) ≤ 1 + 2)
    × (((stopped_loop.phase ≡ stopped) × (stopped_loop.running ≡ [])) ⊎ CanStep stopped_loop)
unfolding from_env run step poll acquire_permit start poll_cancelled finish_task remove_at join_all
run-stops_example =
    run-stops parse (err not_present) 1 before (leave ∷ finish 0 ∷ join ∷ []) cancelled_loop
      stopped_loop refl refl refl refl
