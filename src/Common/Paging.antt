-- ===== src/Common/Paging.antt =====
-- A page of the elements that pass a test, in the order of a sort: SQL's WHERE, ORDER BY, LIMIT and
-- OFFSET.
use Prim.Native.Nat.{ℕ, zero, suc, ◌+◌, ◌≤◌}
use mathlib.Core.Path.{◌≡◌, ap, sym, subst}
use mathlib.Core.Logic.{inl, inr}
use mathlib.Core.Bool.{Bool, true, false}
use mathlib.Core.List.{List, [], ◌∷◌, ◌++◌}
use native.Mathlib.Omega.{arith}
use catapulte.Common.Tests.{Bool-cases}
use catapulte.Common.Lists.{
  All, Elem, length, filter, take, drop, take-drop, drop-drop, length-take, take-all,
}
use catapulte.Common.Sorting.{
  sort_by, IsSorted, All-sort_by, Elem-sort_by, length-sort_by, sort_by-IsSorted,
}

module _ {A : Type 0} where
  take-All : (P : A → Type 0) (n : ℕ) (xs : List A) → All P xs → All P (take n xs)
  take-All P zero xs all = tt
  take-All P (suc n) [] all = tt
  take-All P (suc n) (x ∷ xs) all = (all.0, take-All P n xs all.1)

  drop-All : (P : A → Type 0) (n : ℕ) (xs : List A) → All P xs → All P (drop n xs)
  drop-All P zero xs all = all
  drop-All P (suc n) [] all = tt
  drop-All P (suc n) (x ∷ xs) all = drop-All P n xs all.1

  filter-All : (p : A → Bool) (xs : List A) → All (λ x. p x ≡ true) (filter p xs)
  filter-All p [] = tt
  filter-All p (x ∷ xs) = elim (Bool-cases (p x)) [
    | inl e ↦ rw e (e, filter-All p xs)
    | inr e ↦ rw e (filter-All p xs)
  ]

  filter-Elem : (p : A → Bool) (x : A) (xs : List A) → p x ≡ true → Elem x xs → Elem x (filter p xs)
  filter-Elem p x [] t e = elim e [ ]
  filter-Elem p x (y ∷ ys) t e = elim (Bool-cases (p y)) [
    | inl b ↦ rw b (elim e [ inl same ↦ inl same | inr later ↦ inr (filter-Elem p x ys t later) ])
    | inr b ↦ rw b (elim e [
      | inl same ↦ absurd (ground (arith, b, t, ap p same))
      | inr later ↦ filter-Elem p x ys t later
    ])
  ]

  length-filter : (p : A → Bool) (xs : List A) → length (filter p xs) ≤ length xs
  length-filter p [] = omega arith
  length-filter p (x ∷ xs) = ground (arith, length-filter p xs)

module _ {A : Type 0} (before : A → A → Bool) where
  take-IsSorted : (n : ℕ) (xs : List A) → IsSorted before xs → IsSorted before (take n xs)
  take-IsSorted zero xs s = tt
  take-IsSorted (suc n) [] s = tt
  take-IsSorted (suc n) (x ∷ xs) s = (take-All _ n xs s.0, take-IsSorted n xs s.1)

  drop-IsSorted : (n : ℕ) (xs : List A) → IsSorted before xs → IsSorted before (drop n xs)
  drop-IsSorted zero xs s = s
  drop-IsSorted (suc n) [] s = tt
  drop-IsSorted (suc n) (x ∷ xs) s = drop-IsSorted n xs s.1

  abbrev pub page : (A → Bool) → ℕ → ℕ → List A → List A
  page p limit offset xs = take limit (drop offset (sort_by before (filter p xs)))

  pub length-page :
      (p : A → Bool) (limit offset : ℕ) (xs : List A) → length (page p limit offset xs) ≤ limit
  length-page p limit offset xs =
      omega (arith, length-take limit (drop offset (sort_by before (filter p xs))))

  -- A page holds only elements that pass.
  pub page-All :
      (p : A → Bool) (limit offset : ℕ) (xs : List A)
      → All (λ x. p x ≡ true) (page p limit offset xs)
  page-All p limit offset xs =
      take-All _ limit _
        (drop-All _ offset _ (All-sort_by before _ (filter p xs) (filter-All p xs)))

  -- A page and the one behind it are the page of both.
  pub page-page :
      (p : A → Bool) (limit more offset : ℕ) (xs : List A)
      → page p limit offset xs ++ page p more (offset + limit) xs ≡ page p (limit + more) offset xs
  page-page p limit more offset xs =
      let sorted = sort_by before (filter p xs) in
      rw (sym (drop-drop offset limit sorted)) (take-drop limit more (drop offset sorted))

  -- The first page holds all elements that pass if it is long enough.
  pub Elem-page :
      (p : A → Bool) (limit : ℕ) (xs : List A) (x : A)
      → length xs ≤ limit
      → p x ≡ true
      → Elem x xs
      → Elem x (page p limit 0 xs)
  Elem-page p limit xs x le t e =
      subst (Elem x)
        (sym (
          take-all limit (sort_by before (filter p xs))
            (omega (arith, le, length-filter p xs, length-sort_by before (filter p xs)))))
        (Elem-sort_by before x (filter p xs) (filter-Elem p x xs t e))

  pub page-IsSorted :
      ((x y : A) → before y x ≡ true → before x y ≡ false)
      → ((x y z : A) → before y x ≡ false → before z y ≡ false → before z x ≡ false)
      → (p : A → Bool) (limit offset : ℕ) (xs : List A) → IsSorted before (page p limit offset xs)
  page-IsSorted asymmetric chained p limit offset xs =
      take-IsSorted limit _
        (drop-IsSorted offset _ (sort_by-IsSorted before asymmetric chained (filter p xs)))
