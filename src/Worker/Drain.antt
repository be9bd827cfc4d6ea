-- ===== src/Worker/Drain.antt =====
-- The bound on the emails that are processed at once, and the end of the loop.
use catapulte.Common.{
  ℕ, zero, suc, ◌+◌, ◌≤◌, List, [], ◌∷◌, ◌≡◌, ◌⊎◌, refl, Bool, true, false, Option, none, some,
  Result, ok, err, length, length-append, arith, some-step, ap, subst, ok-step, ok-else,
  ok-injective, String, ◌==◌, ◌∙◌, inl, inr,
}
use catapulte.Entity.{AnyError}
use catapulte.Port.Types.{DequeuedEmail}
use catapulte.Worker.Loop.{
  Action, Loop, Phase, VarError, from_env, not_present, not_unicode, acquire, acquire_permit,
  acquiring, cancel, dequeuing, draining, fail_dequeue, finish, finish_task, join, join_all, leave,
  poll, poll_cancelled, remove_at, run, sleeping, start, step, stopped, take_email, wake,
}

-- The permit that the loop itself holds.
abbrev pub held : Phase → ℕ
held dequeuing = 1
held _ = 0

-- The permits that are free, held by the loop and held by tasks.
abbrev pub permits : Loop → ℕ
permits s = s.free + held s.phase + length s.running

-- How many phases are left once the loop is cancelled.
abbrev pub phases_left : Phase → ℕ
phases_left draining = 1
phases_left stopped = 0
phases_left _ = 2

-- The steps that are left once the loop is cancelled, with one for each task.
abbrev pub steps_left : Loop → ℕ
steps_left s = phases_left s.phase + length s.running

-- No task is left behind.
abbrev pub IsDrained : Phase → List DequeuedEmail → Type 0
IsDrained stopped running = running ≡ []
IsDrained _ running = Unit {0}

abbrev state : Phase → ℕ → List DequeuedEmail → Bool → Loop
state p n ds c = record { phase = p; free = n; running = ds; cancelled = c }

-- A step counts if it is no further cancellation.
abbrev pub count : Action → ℕ
count cancel = 0
count _ = 1

-- What a step preserves, if it happens: the permits, and no task behind the end. Once the loop is
-- cancelled it stays so, and a step that counts is one less to come.
abbrev Keeps : Action → Loop → Option Loop → Type 0
Keeps a s none = Unit {0}
Keeps a s (some next) =
    (permits next ≡ permits s)
    × IsDrained next.phase next.running
    × (s.cancelled ≡ true → (next.cancelled ≡ true) × (count a + steps_left next ≡ steps_left s))

poll-Keeps :
    (p : Phase) (a : Action) (n : ℕ) (ds : List DequeuedEmail)
    → IsDrained p ds
    → Keeps a (state p n ds false) (poll p a (state p n ds false))
unfolding poll acquire_permit
poll-Keeps acquiring acquire zero ds d = tt
poll-Keeps acquiring acquire (suc n) ds d = (omega arith, tt, λ e. cc)
poll-Keeps dequeuing (take_email x) n ds d = (omega (arith, length-append ds (x ∷ [])), tt, λ e. cc)
poll-Keeps dequeuing fail_dequeue n ds d = (omega arith, tt, λ e. cc)
poll-Keeps sleeping wake n ds d = (omega arith, tt, λ e. cc)
poll-Keeps _ _ n ds d = tt

leave-Keeps :
    (p : Phase) (n : ℕ) (ds : List DequeuedEmail)
    → Keeps leave (state p n ds true) (poll_cancelled p (state p n ds true))
unfolding poll_cancelled
leave-Keeps acquiring n ds = (omega arith, tt, λ e. (refl, omega arith))
leave-Keeps dequeuing n ds = (omega arith, tt, λ e. (refl, omega arith))
leave-Keeps sleeping n ds = (omega arith, tt, λ e. (refl, omega arith))
leave-Keeps draining n ds = tt
leave-Keeps stopped n ds = tt

join-Keeps :
    (p : Phase) (n : ℕ) (ds : List DequeuedEmail) (c : Bool)
    → Keeps join (state p n ds c) (join_all p ds (state p n ds c))
unfolding join_all
join-Keeps draining n [] c = (omega arith, refl, λ e. (e, omega arith))
join-Keeps _ n ds c = tt

length-remove_at :
    (n : ℕ) (ds rest : List DequeuedEmail)
    → remove_at n ds ≡ some rest
    → length ds ≡ suc (length rest)
unfolding remove_at
length-remove_at n [] rest e = cc
length-remove_at zero (d ∷ ds) rest e = ground (arith, e)
length-remove_at (suc n) (d ∷ ds) rest e =
    let (more, found, same) = some-step (remove_at n ds) (λ x. some (d ∷ x)) rest e in
    ground (arith, same, length-remove_at n ds more found)

IsDrained-rest :
    (p : Phase) (ds rest : List DequeuedEmail)
    → IsDrained p ds
    → length ds ≡ suc (length rest)
    → IsDrained p rest
IsDrained-rest stopped ds rest d e = absurd (omega (arith, e, ap (λ l. length l) d))
IsDrained-rest _ ds rest d e = tt

finish-Keeps :
    (p : Phase) (k n : ℕ) (ds : List DequeuedEmail) (c : Bool) (o : Option (List DequeuedEmail))
    → remove_at k ds ≡ o
    → IsDrained p ds
    → Keeps (finish k) (state p n ds c) (finish_task o (state p n ds c))
unfolding finish_task
finish-Keeps p k n ds c none e d = tt
finish-Keeps p k n ds c (some rest) e d =
    let shorter = length-remove_at k ds rest e in
    (omega (arith, shorter), IsDrained-rest p ds rest d shorter, λ h. (h, omega (arith, shorter)))

step-Keeps :
    (a : Action) (p : Phase) (n : ℕ) (ds : List DequeuedEmail) (c : Bool)
    → IsDrained p ds
    → Keeps a (state p n ds c) (step a (state p n ds c))
unfolding step
step-Keeps cancel p n ds c d = (refl, d, λ e. (refl, omega arith))
step-Keeps (finish k) p n ds c d = finish-Keeps p k n ds c (remove_at k ds) refl d
step-Keeps leave p n ds true d = leave-Keeps p n ds
step-Keeps leave p n ds false d = tt
step-Keeps join p n ds c d = join-Keeps p n ds c
step-Keeps acquire p n ds true d = tt
step-Keeps acquire p n ds false d = poll-Keeps p acquire n ds d
step-Keeps (take_email x) p n ds true d = tt
step-Keeps (take_email x) p n ds false d = poll-Keeps p (take_email x) n ds d
step-Keeps fail_dequeue p n ds true d = tt
step-Keeps fail_dequeue p n ds false d = poll-Keeps p fail_dequeue n ds d
step-Keeps wake p n ds true d = tt
step-Keeps wake p n ds false d = poll-Keeps p wake n ds d

-- A step that happens.
step-some :
    (a : Action) (s next : Loop)
    → IsDrained s.phase s.running
    → step a s ≡ some next
    → Keeps a s (some next)
step-some a s next d e = subst (Keeps a s) e (step-Keeps a s.phase s.free s.running s.cancelled d)

-- The steps of a schedule that are no further cancellations.
abbrev pub counted : List Action → ℕ
counted [] = 0
counted (a ∷ as') = count a + counted as'

-- What a schedule preserves.
abbrev Ran : List Action → Loop → Loop → Type 0
Ran acts s last =
    (permits last ≡ permits s)
    × IsDrained last.phase last.running
    × (s.cancelled ≡ true
        → (last.cancelled ≡ true) × (counted acts + steps_left last ≡ steps_left s))

same_loop : (s last : Loop) → some s ≡ some last → s ≡ last
same_loop s last e = cc

run-Ran :
    (acts : List Action) (s last : Loop)
    → IsDrained s.phase s.running
    → run acts s ≡ some last
    → Ran acts s last
unfolding run
run-Ran [] s last d e = subst (Ran [] s) (same_loop s last e) (refl, d, λ c. (c, omega arith))
run-Ran (a ∷ rest) s last d e =
    let (next, stepped, more) = some-step (step a s) (run rest) last e in
    let (same, drained, fewer) = step-some a s next d stepped in
    let (same', drained', fewer') = run-Ran rest next last drained more in
    (
      same' ∙ same,
      drained',
      λ c.
          let (c', less) = fewer c in
          let (c'', less') = fewer' c' in (c'', omega (arith, less, less')),
    )

-- At every time the permits that are free, in the loop's hand and held by tasks are those that the
-- worker started with: it never works on more emails than its concurrency.
pub run-permits :
    (n : ℕ) (acts : List Action) (s : Loop)
    → run acts (start n) ≡ some s
    → (s.free + held s.phase + length s.running ≡ n) × (length s.running ≤ n)
unfolding start
run-permits n acts s e =
    let (same, _, _) = run-Ran acts (start n) s tt e in (omega (arith, same), omega (arith, same))

-- Some step that is no cancellation can happen.
abbrev pub CanStep : Loop → Type 0
CanStep s = (a : Action) × (next : Loop) × (count a ≡ 1) × (step a s ≡ some next)

progress :
    (p : Phase) (n : ℕ) (ds : List DequeuedEmail) (c : Bool)
    → IsDrained p ds
    → 1 ≤ n + held p + length ds
    → ((p ≡ stopped) × (ds ≡ [])) ⊎ CanStep (state p n ds c)
unfolding step poll poll_cancelled acquire_permit join_all finish_task remove_at
progress stopped n ds c d le = inl (refl, d)
progress draining n [] c d le = inr (join, _, refl, refl)
progress draining n (x ∷ xs) c d le = inr (finish 0, _, refl, refl)
progress acquiring n ds true d le = inr (leave, _, refl, refl)
progress acquiring (suc n) ds false d le = inr (acquire, _, refl, refl)
progress acquiring zero (x ∷ xs) false d le = inr (finish 0, _, refl, refl)
progress acquiring zero [] false d le = absurd (omega (arith, le))
progress dequeuing n ds true d le = inr (leave, _, refl, refl)
progress dequeuing n ds false d le = inr (fail_dequeue, _, refl, refl)
progress sleeping n ds true d le = inr (leave, _, refl, refl)
progress sleeping n ds false d le = inr (wake, _, refl, refl)

from_env-positive :
    (parse : String → Result ℕ AnyError) (v : Result String VarError) (n : ℕ)
    → from_env parse v ≡ ok n
    → 1 ≤ n
unfolding from_env
from_env-positive parse (err not_present) n e = omega (arith, ok-injective 1 n e)
from_env-positive parse (err not_unicode) n e = cc
from_env-positive parse (ok v) n e =
    let (m, _, more) = ok-step (parse v) _ _ n e in
    let (positive, same) = ok-else (m == 0) _ _ n more in
    ground (arith, positive, ok-injective m n same)

phases_few : (p : Phase) → phases_left p ≤ 2
phases_few draining = omega arith
phases_few stopped = omega arith
phases_few _ = omega arith

-- A worker that its configuration accepts stops once it is cancelled: from then on at most two steps
-- more than its concurrency happen, and until it has stopped, with no task left, some step can happen.
pub run-stops :
    (parse : String → Result ℕ AnyError) (v : Result String VarError) (n : ℕ)
    (before after : List Action) (s last : Loop)
    → from_env parse v ≡ ok n
    → run before (start n) ≡ some s
    → s.cancelled ≡ true
    → run after s ≡ some last
    → (counted after ≤ n + 2) × (((last.phase ≡ stopped) × (last.running ≡ [])) ⊎ CanStep last)
unfolding start
run-stops parse v n before after s last accepted e cancelled e' =
    let (same, drained, _) = run-Ran before (start n) s tt e in
    let (same', drained', fewer) = run-Ran after s last drained e' in
    let (_, left) = fewer cancelled in
    (
      omega (arith, same, left, phases_few s.phase),
      progress last.phase last.free last.running last.cancelled drained'
          (omega (arith, same, same', from_env-positive parse v n accepted)),
    )
