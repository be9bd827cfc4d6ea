-- ===== src/Common/Results.antt =====
-- Rust's `Result`, with the error's type as a parameter.
use mathlib.Core.Path.{◌≡◌, refl}
use mathlib.Core.Logic.{◌⊎◌, inl, inr}
use mathlib.Core.Option.{Option, none, some}
use mathlib.Core.Bool.{Bool, true, false}
use catapulte.Common.Tests.{if◌then◌else◌}

pub data Result {ℓ} (A E : Type ℓ) : Type ℓ where
  ok : A → Result A E
  err : E → Result A E

-- To prove a property of a branch on a result, with the equation of each branch.
pub Result-elim {ℓ κ} :
    {A E X : Type ℓ} (P : X → Type κ) (r : Result A E) (good : A → X) (bad : E → X)
    → ((a : A) → r ≡ ok a → P (good a))
    → ((e : E) → r ≡ err e → P (bad e))
    → P (elim r [ ok a ↦ good a | err e ↦ bad e ])
Result-elim P (ok a) good bad h k = h a refl
Result-elim P (err e) good bad h k = k e refl

pub Result-cases {ℓ} :
    {A E : Type ℓ} (r : Result A E) → ((a : A) × (r ≡ ok a)) ⊎ ((e : E) × (r ≡ err e))
Result-cases (ok a) = inl (a, refl)
Result-cases (err e) = inr (e, refl)

-- A chain of fallible steps that succeeds has succeeded in its first step.
pub ok-step {ℓ} :
    {A B E F : Type ℓ} (r : Result A E) (good : A → Result B F) (bad : E → F) (b : B)
    → (elim r as (λ _. Result B F) [ ok a ↦ good a | err e ↦ err (bad e) ]) ≡ ok b
    → (a : A) × (r ≡ ok a) × (good a ≡ ok b)
ok-step (ok a) good bad b h = (a, refl, h)
ok-step (err e) good bad b h = cc

pub ok-else {ℓ} :
    {A E : Type ℓ} (t : Bool) (e : E) (r : Result A E) (a : A)
    → (if t then err e else r) ≡ ok a
    → (t ≡ false) × (r ≡ ok a)
ok-else true e r a h = cc
ok-else false e r a h = (refl, h)

pub ok-then {ℓ} :
    {A E : Type ℓ} (t : Bool) (r : Result A E) (e : E) (a : A)
    → (if t then r else err e) ≡ ok a
    → (t ≡ true) × (r ≡ ok a)
ok-then true r e a h = (refl, h)
ok-then false r e a h = cc

pub ok-either {ℓ κ} :
    {A E : Type ℓ} (Q : Type κ) (t : Bool) (x y : Result A E) (a : A)
    → (x ≡ ok a → Q)
    → (y ≡ ok a → Q)
    → (if t then x else y) ≡ ok a
    → Q
ok-either Q true x y a f g h = f h
ok-either Q false x y a f g h = g h

pub ok-some {ℓ} :
    {A B E : Type ℓ} (o : Option A) (good : A → Result B E) (e : E) (b : B)
    → (elim o as (λ _. Result B E) [ some a ↦ good a | none ↦ err e ]) ≡ ok b
    → (a : A) × (o ≡ some a) × (good a ≡ ok b)
ok-some (some a) good e b h = (a, refl, h)
ok-some none good e b h = cc

pub some-step {ℓ} :
    {A B : Type ℓ} (o : Option A) (f : A → Option B) (b : B)
    → (elim o as (λ _. Option B) [ some a ↦ f a | none ↦ none ]) ≡ some b
    → (a : A) × (o ≡ some a) × (f a ≡ some b)
some-step (some a) f b h = (a, refl, h)
some-step none f b h = cc

pub ok-injective {ℓ} : {A E : Type ℓ} (a b : A) → ◌≡◌ {A = Result A E} (ok a) (ok b) → a ≡ b
ok-injective a b h = cc
