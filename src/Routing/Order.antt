-- ===== src/Routing/Order.antt =====
-- The order in which `new` keeps the routes.
use catapulte.Common.{
  ℕ, ◌≤◌, List, [], ◌∷◌, ◌≡◌, refl, Bool, ok, arith, filter, leb, ◌==◌, All, Bool-cases, inl, inr,
}
use catapulte.Routing.{SenderRoute, insert_by_priority, sort_by_priority, normalize_routes, new}

-- Every route comes before those of a higher number.
abbrev pub IsSorted : List SenderRoute → Type 0
IsSorted [] = Unit
IsSorted (r ∷ rs) = All (λ x. r.priority ≤ x.priority) rs × IsSorted rs

abbrev pub has_priority : ℕ → SenderRoute → Bool
has_priority p r = r.priority == p

All-le :
    {a b : ℕ} (rs : List SenderRoute)
    → a ≤ b
    → All (λ x. b ≤ x.priority) rs
    → All (λ x. a ≤ x.priority) rs
All-le [] h all = tt
All-le (r ∷ rs) h all = (omega arith, All-le rs h all.1)

All-insert :
    {a : ℕ} (r : SenderRoute) (rs : List SenderRoute)
    → a ≤ r.priority
    → All (λ x. a ≤ x.priority) rs
    → All (λ x. a ≤ x.priority) (insert_by_priority r rs)
unfolding insert_by_priority
All-insert r [] h all = (h, tt)
All-insert r (x ∷ xs) h all = elim (Bool-cases (leb r.priority x.priority)) [
  | inl e ↦ rw e (h, all)
  | inr e ↦ rw e (all.0, All-insert r xs h all.1)
]

insert_by_priority-IsSorted :
    (r : SenderRoute) (rs : List SenderRoute) → IsSorted rs → IsSorted (insert_by_priority r rs)
unfolding insert_by_priority
insert_by_priority-IsSorted r [] s = (tt, tt)
insert_by_priority-IsSorted r (x ∷ xs) s = elim (Bool-cases (leb r.priority x.priority)) [
  | inl e ↦ rw e ((ground arith, All-le xs (ground arith) s.0), s)
  | inr e ↦ rw e (All-insert r xs (ground arith) s.0, insert_by_priority-IsSorted r xs s.1)
]

filter-insert :
    (p : ℕ) (r : SenderRoute) (rs : List SenderRoute)
    → filter (has_priority p) (insert_by_priority r rs) ≡ filter (has_priority p) (r ∷ rs)
unfolding insert_by_priority
filter-insert p r [] = refl
filter-insert p r (x ∷ xs) = ground (arith, filter-insert p r xs)

sort_by_priority-IsSorted : (rs : List SenderRoute) → IsSorted (sort_by_priority rs)
unfolding sort_by_priority
sort_by_priority-IsSorted [] = tt
sort_by_priority-IsSorted (r ∷ rs) =
    insert_by_priority-IsSorted r (sort_by_priority rs) (sort_by_priority-IsSorted rs)

filter-sort :
    (p : ℕ) (rs : List SenderRoute)
    → filter (has_priority p) (sort_by_priority rs) ≡ filter (has_priority p) rs
unfolding sort_by_priority
filter-sort p [] = refl
filter-sort p (r ∷ rs) = ground (arith, filter-insert p r (sort_by_priority rs), filter-sort p rs)

-- Where `new` accepts the routes, what it keeps is sorted by priority, and the routes of each
-- priority are those given, normalised, in the order in which they were given: none is lost, none is
-- added, and equal priorities keep their order.
pub new_lem :
    (rs kept : List SenderRoute)
    → new rs ≡ ok kept
    → IsSorted kept
      × ((p : ℕ) → filter (has_priority p) kept ≡ filter (has_priority p) (normalize_routes rs))
unfolding new
new_lem [] kept h = cc
new_lem (r ∷ rs) kept h =
    let e : sort_by_priority (normalize_routes (r ∷ rs)) ≡ kept = cc in
    let given = normalize_routes (r ∷ rs) in
    rw (← e) (sort_by_priority-IsSorted given, λ p. filter-sort p given)
