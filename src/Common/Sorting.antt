-- ===== src/Common/Sorting.antt =====
-- Insertion sort by a Boolean test that an element stands before another one.
use Prim.Native.Nat.{suc}
use mathlib.Core.Path.{◌≡◌, refl}
use mathlib.Core.Logic.{◌⊎◌, inl, inr}
use mathlib.Core.Bool.{Bool, true, false}
use mathlib.Core.List.{List, [], ◌∷◌}
use native.Mathlib.Omega.{arith}
use catapulte.Common.Tests.{if◌then◌else◌, Bool-cases}
use catapulte.Common.Lists.{All, Elem, length}

module _ {A : Type 0} (before : A → A → Bool) where
  unfoldable pub insert_by : A → List A → List A
  insert_by x [] = x ∷ []
  insert_by x (y ∷ ys) = let rest = insert_by x ys in if before y x then y ∷ rest else x ∷ y ∷ ys

  unfoldable pub sort_by : List A → List A
  sort_by [] = []
  sort_by (x ∷ xs) = insert_by x (sort_by xs)

  -- No element stands before one that precedes it in the list.
  abbrev pub IsSorted : List A → Type 0
  IsSorted [] = Unit
  IsSorted (x ∷ xs) = All (λ y. before y x ≡ false) xs × IsSorted xs

  length-insert_by : (x : A) (ys : List A) → length (insert_by x ys) ≡ suc (length ys)
  unfolding insert_by
  length-insert_by x [] = refl
  length-insert_by x (y ∷ ys) = ground (arith, length-insert_by x ys)

  pub length-sort_by : (xs : List A) → length (sort_by xs) ≡ length xs
  unfolding sort_by
  length-sort_by [] = refl
  length-sort_by (x ∷ xs) = omega (arith, length-insert_by x (sort_by xs), length-sort_by xs)

  Elem-insert_by : (a x : A) (ys : List A) → (a ≡ x) ⊎ Elem a ys → Elem a (insert_by x ys)
  unfolding insert_by
  Elem-insert_by a x [] e = e
  Elem-insert_by a x (y ∷ ys) e = elim (Bool-cases (before y x)) [
    | inl b ↦
        rw (b, insert_by)
          (elim e [
            | inl same ↦ inr (Elem-insert_by a x ys (inl same))
            | inr (inl here) ↦ inl here
            | inr (inr later) ↦ inr (Elem-insert_by a x ys (inr later))
          ])
    | inr b ↦ rw (b, insert_by) e
  ]

  -- Sorting loses no element.
  pub Elem-sort_by : (a : A) (xs : List A) → Elem a xs → Elem a (sort_by xs)
  unfolding sort_by
  Elem-sort_by a [] e = elim e [ ]
  Elem-sort_by a (x ∷ xs) (inl same) = Elem-insert_by a x (sort_by xs) (inl same)
  Elem-sort_by a (x ∷ xs) (inr later) =
      Elem-insert_by a x (sort_by xs) (inr (Elem-sort_by a xs later))

  All-insert_by : (P : A → Type 0) (x : A) (ys : List A) → P x → All P ys → All P (insert_by x ys)
  unfolding insert_by
  All-insert_by P x [] p all = (p, tt)
  All-insert_by P x (y ∷ ys) p all = elim (Bool-cases (before y x)) [
    | inl b ↦ rw (b, insert_by) (all.0, All-insert_by P x ys p all.1)
    | inr b ↦ rw (b, insert_by) (p, all)
  ]

  pub All-sort_by : (P : A → Type 0) (xs : List A) → All P xs → All P (sort_by xs)
  unfolding sort_by
  All-sort_by P [] all = tt
  All-sort_by P (x ∷ xs) all = All-insert_by P x (sort_by xs) all.0 (All-sort_by P xs all.1)

  module _ (asymmetric : (x y : A) → before y x ≡ true → before x y ≡ false)
      (chained : (x y z : A) → before y x ≡ false → before z y ≡ false → before z x ≡ false) where
    All-chained :
        (x y : A) (ys : List A)
        → before y x ≡ false
        → All (λ z. before z y ≡ false) ys
        → All (λ z. before z x ≡ false) ys
    All-chained x y [] b all = tt
    All-chained x y (z ∷ zs) b all = (chained x y z b all.0, All-chained x y zs b all.1)

    insert_by-IsSorted : (x : A) (ys : List A) → IsSorted ys → IsSorted (insert_by x ys)
    unfolding insert_by
    insert_by-IsSorted x [] s = (tt, tt)
    insert_by-IsSorted x (y ∷ ys) s = elim (Bool-cases (before y x)) [
      | inl b ↦
          rw (b, insert_by)
            (
              All-insert_by (λ z. before z y ≡ false) x ys (asymmetric x y b) s.0,
              insert_by-IsSorted x ys s.1,
            )
      | inr b ↦ rw (b, insert_by) ((b, All-chained x y ys b s.0), s)
    ]

    pub sort_by-IsSorted : (xs : List A) → IsSorted (sort_by xs)
    unfolding sort_by
    sort_by-IsSorted [] = tt
    sort_by-IsSorted (x ∷ xs) = insert_by-IsSorted x (sort_by xs) (sort_by-IsSorted xs)
