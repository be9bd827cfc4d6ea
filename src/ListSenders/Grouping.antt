-- ===== src/ListSenders/Grouping.antt =====
-- How the names are grouped by the start of their window: one query for each start, and every name
-- asked for in its own.
use catapulte.Common.{
  ℕ, ◌+◌, ◌≤◌, List, [], ◌∷◌, ◌++◌, ◌≡◌, refl, Bool, true, false, arith, str_eq, if◌then◌else◌,
  Bool-cases, inl, inr,
}
use catapulte.Common.Int.{ℤ, eqb_ℤ}
use catapulte.Entity.Sender.{SenderConfig, SenderName}
use catapulte.Routing.{Groups, push_name}
use catapulte.ListSenders.{config_since, group_configs}

abbrev pub one_if : Bool → ℕ
one_if b = if b then 1 else 0

-- How often a name stands in a list.
abbrev pub name_count : SenderName → List SenderName → ℕ
name_count n [] = 0
name_count n (x ∷ xs) = one_if (str_eq x.as_str n.as_str) + name_count n xs

-- How often a name is asked for with the start `s`.
abbrev pub asked_for : ℤ → SenderName → Groups → ℕ
asked_for s n [] = 0
asked_for s n ((t, names) ∷ rest) =
    (if eqb_ℤ t s then name_count n names else 0) + asked_for s n rest

-- How many queries have the start `s`.
abbrev pub query_count : ℤ → Groups → ℕ
query_count s [] = 0
query_count s ((t, names) ∷ rest) = one_if (eqb_ℤ t s) + query_count s rest

-- How many senders have the name `n` and the window from `s` on.
abbrev pub config_count : ℤ → ℤ → SenderName → List SenderConfig → ℕ
config_count now s n [] = 0
config_count now s n (c ∷ cs) =
    (if eqb_ℤ (config_since now c) s then one_if (str_eq c.name.as_str n.as_str) else 0)
    + config_count now s n cs

eqb_ℤ_iff : (a b : ℤ) → eqb_ℤ a b ≡ true → a ≡ b
eqb_ℤ_iff a b h = ground arith

eqb_ℤ_refl : (a : ℤ) → eqb_ℤ a a ≡ true
eqb_ℤ_refl a = ground arith

name_count-append :
    (n : SenderName) (xs : List SenderName) (x : SenderName)
    → name_count n (xs ++ x ∷ []) ≡ name_count n xs + one_if (str_eq x.as_str n.as_str)
name_count-append n [] x = omega arith
name_count-append n (y ∷ ys) x = omega (arith, name_count-append n ys x)

asked_for-push_name :
    (s t : ℤ) (n x : SenderName) (groups : Groups)
    → asked_for s n (push_name t x groups)
      ≡ asked_for s n groups + (if eqb_ℤ t s then one_if (str_eq x.as_str n.as_str) else 0)
unfolding push_name
asked_for-push_name s t n x [] = ground arith
asked_for-push_name s t n x ((u, names) ∷ rest) = elim (Bool-cases (eqb_ℤ u t)) [
  | inl e ↦ rw e (rw (eqb_ℤ_iff u t e) (ground (arith, name_count-append n names x)))
  | inr e ↦ rw e (omega (arith, asked_for-push_name s t n x rest))
]

query_count-push_self :
    (t : ℤ) (x : SenderName) (groups : Groups)
    → query_count t groups ≤ 1
    → query_count t (push_name t x groups) ≡ 1
unfolding push_name
query_count-push_self t x [] h = ground (arith, eqb_ℤ_refl t)
query_count-push_self t x ((u, names) ∷ rest) h = elim (Bool-cases (eqb_ℤ u t)) [
  | inl e ↦ rw e (ground arith)
  | inr e ↦ rw e (ground (arith, query_count-push_self t x rest))
]

query_count-push_ne :
    (s t : ℤ) (x : SenderName) (groups : Groups)
    → eqb_ℤ t s ≡ false
    → query_count s (push_name t x groups) ≡ query_count s groups
unfolding push_name
query_count-push_ne s t x [] h = ground arith
query_count-push_ne s t x ((u, names) ∷ rest) h = elim (Bool-cases (eqb_ℤ u t)) [
  | inl e ↦ rw e refl
  | inr e ↦ rw e (omega (arith, query_count-push_ne s t x rest h))
]

query_count-push_name :
    (s t : ℤ) (x : SenderName) (groups : Groups)
    → query_count s groups ≤ 1
    → query_count s (push_name t x groups) ≤ 1
query_count-push_name s t x groups h = elim (Bool-cases (eqb_ℤ t s)) [
  | inl e ↦ rw (eqb_ℤ_iff t s e) (omega (arith, query_count-push_self s x groups h))
  | inr e ↦ rw (query_count-push_ne s t x groups e) h
]

group_configs-counts :
    (now : ℤ) (configs : List SenderConfig) (groups : Groups) (s : ℤ) (n : SenderName)
    → query_count s groups ≤ 1
    → (query_count s (group_configs now configs groups) ≤ 1)
      × (asked_for s n (group_configs now configs groups)
          ≡ asked_for s n groups + config_count now s n configs)
unfolding group_configs
group_configs-counts now [] groups s n h = (h, omega arith)
group_configs-counts now (c ∷ cs) groups s n h =
    let since = config_since now c in
    let q =
      group_configs-counts now cs (push_name since c.name groups) s n
        (query_count-push_name s since c.name groups h) in
    (q.0, omega (arith, q.1, asked_for-push_name s since n c.name groups))

-- The senders are grouped without loss: each start of a window has at most one query, and a name
-- is asked for with the start `s` exactly as often as a sender of that name has its window from
-- `s` on.
pub group_configs_lem :
    (now s : ℤ) (n : SenderName) (configs : List SenderConfig)
    → (query_count s (group_configs now configs []) ≤ 1)
      × (asked_for s n (group_configs now configs []) ≡ config_count now s n configs)
group_configs_lem now s n configs =
    let q = group_configs-counts now configs [] s n (omega arith) in (q.0, omega (arith, q.1))
