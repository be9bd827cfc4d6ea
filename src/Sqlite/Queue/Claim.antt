-- ===== src/Sqlite/Queue/Claim.antt =====
-- Which entry a claim takes.
use catapulte.Common.{
  ℕ, ◌≤◌, List, [], ◌∷◌, ◌≡◌, refl, sym, subst, true, false, Option, none, some, arith, leb, All,
  Elem, Bool-cases, inl, inr,
}
use catapulte.Sqlite.{QueueRow}
use catapulte.Sqlite.Queue.{is_claimable, older, oldest, claimed, update_entry, claim_row, claim}

-- `r` is claimable, and nothing that is claimable is older.
abbrev pub IsOldest : ℕ → List QueueRow → QueueRow → Type 0
IsOldest now rows r =
    Elem r rows
    × (is_claimable now r ≡ true)
    × All (λ y. is_claimable now y ≡ true → r.enqueued_at ≤ y.enqueued_at) rows

abbrev OldestSpec : ℕ → List QueueRow → Option QueueRow → Type 0
OldestSpec now rows none = All (λ y. is_claimable now y ≡ false) rows
OldestSpec now rows (some r) = IsOldest now rows r

All-after :
    (now : ℕ) (r s : QueueRow) (rows : List QueueRow)
    → r.enqueued_at ≤ s.enqueued_at
    → All (λ y. is_claimable now y ≡ true → s.enqueued_at ≤ y.enqueued_at) rows
    → All (λ y. is_claimable now y ≡ true → r.enqueued_at ≤ y.enqueued_at) rows
All-after now r s [] le all = tt
All-after now r s (y ∷ ys) le all =
    ((λ c. omega (arith, le, all.0 c)), All-after now r s ys le all.1)

All-unclaimable :
    (now : ℕ) (r : QueueRow) (rows : List QueueRow)
    → All (λ y. is_claimable now y ≡ false) rows
    → All (λ y. is_claimable now y ≡ true → r.enqueued_at ≤ y.enqueued_at) rows
All-unclaimable now r [] all = tt
All-unclaimable now r (y ∷ ys) all = ((λ c. cc), All-unclaimable now r ys all.1)

older-first : (x s : QueueRow) → leb x.enqueued_at s.enqueued_at ≡ true → older x (some s) ≡ x
unfolding older
older-first x s le = rw (le, older) refl

older-second : (x s : QueueRow) → leb x.enqueued_at s.enqueued_at ≡ false → older x (some s) ≡ s
unfolding older
older-second x s gt = rw (gt, older) refl

older-IsOldest :
    (now : ℕ) (x : QueueRow) (xs : List QueueRow) (rest : Option QueueRow)
    → is_claimable now x ≡ true
    → OldestSpec now xs rest
    → IsOldest now (x ∷ xs) (older x rest)
unfolding older
older-IsOldest now x xs none c spec =
    (inl refl, c, ((λ _. omega arith), All-unclaimable now x xs spec))
older-IsOldest now x xs (some s) c (e, t, all) =
    elim (Bool-cases (leb x.enqueued_at s.enqueued_at)) [
      | inl le ↦
          subst (IsOldest now (x ∷ xs)) (sym (older-first x s le))
            (inl refl, c, ((λ _. omega arith), All-after now x s xs (ground (arith, le)) all))
      | inr gt ↦
          subst (IsOldest now (x ∷ xs)) (sym (older-second x s gt))
            (inr e, t, ((λ _. ground (arith, gt)), all))
    ]

oldest-skip :
    (now : ℕ) (x : QueueRow) (xs : List QueueRow) (rest : Option QueueRow)
    → is_claimable now x ≡ false
    → OldestSpec now xs rest
    → OldestSpec now (x ∷ xs) rest
oldest-skip now x xs none c all = (c, all)
oldest-skip now x xs (some s) c (e, t, all) = (inr e, t, ((λ d. cc), all))

oldest-OldestSpec : (now : ℕ) (rows : List QueueRow) → OldestSpec now rows (oldest now rows)
unfolding oldest
oldest-OldestSpec now [] = tt
oldest-OldestSpec now (x ∷ xs) = elim (Bool-cases (is_claimable now x)) [
  | inl c ↦ rw (c, oldest) (older-IsOldest now x xs (oldest now xs) c (oldest-OldestSpec now xs))
  | inr c ↦ rw (c, oldest) (oldest-skip now x xs (oldest now xs) c (oldest-OldestSpec now xs))
]

-- The outcome of a claim: no row and the same queue, or a row that stood in the queue, counted up
-- and leased, and the queue in which its entry is so.
abbrev pub ClaimOutcome : ℕ → List QueueRow → Option QueueRow × List QueueRow → Type 0
ClaimOutcome now rows (none, rows') = (rows' ≡ rows) × All (λ y. is_claimable now y ≡ false) rows
ClaimOutcome now rows (some r, rows') =
    (x : QueueRow) × IsOldest now rows x
    × (r ≡ claimed now x)
    × (rows' ≡ update_entry (claimed now) x.id rows)

claim_row-ClaimOutcome :
    (now : ℕ) (rows : List QueueRow) (chosen : Option QueueRow)
    → OldestSpec now rows chosen
    → ClaimOutcome now rows (claim_row now rows chosen)
unfolding claim_row
claim_row-ClaimOutcome now rows none spec = (refl, spec)
claim_row-ClaimOutcome now rows (some r) spec = (r, spec, refl, refl)

-- A claim takes no entry only if none is claimable: each is leased to somebody or delayed.
-- Otherwise it takes a claimable entry such that no claimable one was queued before it, counts its
-- attempt and leases it.
pub claim-ClaimOutcome : (now : ℕ) (rows : List QueueRow) → ClaimOutcome now rows (claim now rows)
unfolding claim
claim-ClaimOutcome now rows = claim_row-ClaimOutcome now rows _ (oldest-OldestSpec now rows)
