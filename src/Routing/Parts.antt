-- ===== src/Routing/Parts.antt =====
-- The routes of one kind, of those that a sender in domain/src/service/routed_email_sender.rs keeps.
use catapulte.Common.{
  ℕ, ◌≤◌, List, [], ◌∷◌, ◌≡◌, ◌∙◌, refl, ap, Bool, true, ok, arith, filter, All, Bool-cases, inl,
  inr,
}
use catapulte.Routing.{SenderRoute, new, normalize_routes}
use catapulte.Routing.Order.{IsSorted, has_priority, new_lem}

All-filter :
    (P : SenderRoute → Type 0) (p : SenderRoute → Bool) (rs : List SenderRoute)
    → All P rs
    → All P (filter p rs)
All-filter P p [] all = tt
All-filter P p (r ∷ rs) all = elim (Bool-cases (p r)) [
  | inl e ↦ rw e (all.0, All-filter P p rs all.1)
  | inr e ↦ rw e (All-filter P p rs all.1)
]

filter-All : (p : SenderRoute → Bool) (rs : List SenderRoute) → All (λ r. p r ≡ true) (filter p rs)
filter-All p [] = tt
filter-All p (r ∷ rs) = elim (Bool-cases (p r)) [
  | inl e ↦ rw e (e, filter-All p rs)
  | inr e ↦ rw e (filter-All p rs)
]

filter-IsSorted :
    (p : SenderRoute → Bool) (rs : List SenderRoute) → IsSorted rs → IsSorted (filter p rs)
filter-IsSorted p [] s = tt
filter-IsSorted p (r ∷ rs) s = elim (Bool-cases (p r)) [
  | inl e ↦ rw e (All-filter (λ x. r.priority ≤ x.priority) p rs s.0, filter-IsSorted p rs s.1)
  | inr e ↦ rw e (filter-IsSorted p rs s.1)
]

filter-swap :
    (p q : SenderRoute → Bool) (rs : List SenderRoute)
    → filter p (filter q rs) ≡ filter q (filter p rs)
filter-swap p q [] = refl
filter-swap p q (r ∷ rs) = ground (arith, filter-swap p q rs)

-- Of the routes that were given, those of a priority that pass a test, in their order.
abbrev pub given_routes : List SenderRoute → (SenderRoute → Bool) → ℕ → List SenderRoute
given_routes given test p = filter test (filter (has_priority p) (normalize_routes given))

kept-given :
    (given kept : List SenderRoute) (test : SenderRoute → Bool) (p : ℕ)
    → filter (has_priority p) kept ≡ filter (has_priority p) (normalize_routes given)
    → filter (has_priority p) (filter test kept) ≡ given_routes given test p
kept-given given kept test p same = filter-swap (has_priority p) test kept ∙ ap (filter test) same

-- A part of the candidates: all of the given routes that pass the test, normalized, by their
-- priority, and those of one priority in the order in which they were given.
pub record IsPart (given : List SenderRoute) (test : SenderRoute → Bool) (part : List SenderRoute)
    : Type 0 where
  pub sound : All (λ r. test r ≡ true) part
  pub sorted : IsSorted part
  pub complete : (p : ℕ) → filter (has_priority p) part ≡ given_routes given test p

pub filter-IsPart :
    (given kept : List SenderRoute) (test : SenderRoute → Bool)
    → new given ≡ ok kept
    → IsPart given test (filter test kept)
filter-IsPart given kept test made =
    let (sorted, same) = new_lem given kept made in
    record {
      sound = filter-All test kept;
      sorted = filter-IsSorted test kept sorted;
      complete = λ p. kept-given given kept test p (same p);
    }
