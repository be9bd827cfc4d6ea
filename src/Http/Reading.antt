-- ===== src/Http/Reading.antt =====
-- What reading to the end through the limit gives.
use catapulte.Common.{
  ℕ, zero, suc, ◌-◌, ◌<◌, ◌≤◌, ◌==◌, [], ◌∷◌, ◌++◌, ◌≡◌, ◌∙◌, refl, ap, true, false, Option, none,
  some, Result, ok, err, arith, length, min, take, drop, ltb, if◌then◌else◌, append-take-drop,
  length-take, length-drop, append_assoc,
}
use catapulte.Entity.{AnyError, Bytes}
use catapulte.Http.Reader.{
  LimitedReader, Source, after_probe, after_read, continue_with, limit_exceeded, new, poll_inner,
  poll_read, read_to_end,
}

-- What the inner reader holds, if it is not more than the limit and ends well.
abbrev pub read_all : ℕ → Source → Bytes → Result Bytes AnyError
read_all limit s read =
    if ltb limit (length s.left)
    then err limit_exceeded
    else elim s.failure [ some e ↦ err e | none ↦ ok (read ++ s.left) ]

abbrev reader : Bytes → Option AnyError → ℕ → LimitedReader
reader left failure remaining = record {
  inner = record { left = left; failure = failure };
  remaining = remaining;
  exhausted = false;
}

min-suc : (m n : ℕ) → min (suc m) (suc n) ≡ suc (min m n)
min-suc m n = omega arith

suc_pos : (m : ℕ) → (suc m == 0) ≡ false
suc_pos m = ground arith

sub_zero : (m : ℕ) → suc m - 0 ≡ suc m
sub_zero m = omega arith

append_nil : (xs : Bytes) → xs ++ [] ≡ xs
append_nil [] = refl
append_nil (x ∷ xs) = ap (λ l. x ∷ l) (append_nil xs)

over : (b : ℕ) (bs : Bytes) → ltb 0 (length (b ∷ bs)) ≡ true
over b bs = ground arith

fits : (m : ℕ) → ltb m 0 ≡ false
fits m = ground arith

poll_read-some :
    (s m : ℕ) (failure : Option AnyError) (b : ℕ) (bs : Bytes)
    → poll_read (suc s) (reader (b ∷ bs) failure (suc m)) ≡ (
      ok (b ∷ take (min m s) bs),
      reader (drop (min m s) bs) failure (suc m - length (b ∷ take (min m s) bs)),
    )
unfolding poll_read poll_inner after_read
poll_read-some s m failure b bs = rw (suc_pos m, poll_read) (rw (min-suc m s) refl)

poll_read-end :
    (s m : ℕ) (failure : Option AnyError)
    → poll_read (suc s) (reader [] failure m)
      ≡ ((elim failure [ some e ↦ err e | none ↦ ok [] ]), reader [] failure m)
unfolding poll_read poll_inner after_read after_probe
poll_read-end s zero none = refl
poll_read-end s zero (some e) = refl
poll_read-end s (suc m) none = rw (suc_pos m, poll_read) (rw (sub_zero m) refl)
poll_read-end s (suc m) (some e) = rw (suc_pos m, poll_read) refl

poll_read-full :
    (s : ℕ) (failure : Option AnyError) (b : ℕ) (bs : Bytes)
    → (poll_read s (reader (b ∷ bs) failure 0)).0 ≡ err limit_exceeded
unfolding poll_read poll_inner after_probe
poll_read-full s failure b bs = refl

continue-err :
    (next : LimitedReader → Bytes → Option (Result Bytes AnyError)) (read : Bytes) (e : AnyError)
    (polled : Result Bytes AnyError × LimitedReader)
    → polled.0 ≡ err e
    → continue_with next read polled ≡ some (err e)
unfolding continue_with
continue-err next read e (err x, r) h = ap (λ y. some y) h
continue-err next read e (ok bs, r) h = cc

cons_take-drop : (b : ℕ) (bs : Bytes) (k : ℕ) → (b ∷ take k bs) ++ drop k bs ≡ b ∷ bs
cons_take-drop b bs k = ap (λ l. b ∷ l) (append-take-drop k bs)

joined :
    (read : Bytes) (b : ℕ) (bs : Bytes) (k : ℕ)
    → (read ++ b ∷ take k bs) ++ drop k bs ≡ read ++ b ∷ bs
joined read b bs k =
    append_assoc read (b ∷ take k bs) (drop k bs) ∙ ap (λ l. read ++ l) (cons_take-drop b bs k)

read_all-rest :
    (m k : ℕ) (failure : Option AnyError) (b : ℕ) (bs read : Bytes)
    → k ≤ m
    → read_all
        (suc m - length (b ∷ take k bs))
        (record { left = drop k bs; failure = failure })
        (read ++ b ∷ take k bs)
      ≡ read_all (suc m) (record { left = b ∷ bs; failure = failure }) read
read_all-rest m k none b bs read le =
    ground (arith, le, length-take k bs, length-drop k bs, joined read b bs k)
read_all-rest m k (some e) b bs read le = ground (arith, le, length-take k bs, length-drop k bs)

read_to_end-rest :
    (size : ℕ → ℕ) (n remaining : ℕ) (failure : Option AnyError) (left read : Bytes)
    → length left < n
    → read_to_end size n (reader left failure remaining) read
      ≡ some (read_all remaining (record { left = left; failure = failure }) read)
unfolding read_to_end continue_with
read_to_end-rest size zero remaining failure left read less = absurd (omega (arith, less))
read_to_end-rest size (suc n) remaining none [] read less =
    rw (poll_read-end (size n) remaining none) (rw (fits remaining) (rw (append_nil read) refl))
read_to_end-rest size (suc n) remaining (some e) [] read less =
    rw (poll_read-end (size n) remaining (some e)) (rw (fits remaining) refl)
read_to_end-rest size (suc n) zero failure (b ∷ bs) read less =
    continue-err (read_to_end size n) read limit_exceeded
      (poll_read (suc (size n)) (reader (b ∷ bs) failure 0))
      (poll_read-full (suc (size n)) failure b bs)
    ∙ rw (over b bs) refl
read_to_end-rest size (suc n) (suc m) failure (b ∷ bs) read less =
    rw (poll_read-some (size n) m failure b bs) (
      read_to_end-rest size n _ failure (drop (min m (size n)) bs) _
        (omega (arith, less, length-drop (min m (size n)) bs))
      ∙ ap (λ r. some r) (read_all-rest m (min m (size n)) failure b bs read (omega arith)))

-- Reading to the end through a limit takes at most one poll more than there are bytes, however many
-- bytes each poll hands over, and gives all bytes if they are not more than the limit and the inner
-- reader ends well, its error if they are not more, and the error of the limit otherwise.
pub read_to_end_lem :
    (size : ℕ → ℕ) (n limit : ℕ) (s : Source)
    → length s.left < n
    → read_to_end size n (new s limit) [] ≡ some (read_all limit s [])
unfolding new
read_to_end_lem size n limit s less = read_to_end-rest size n limit s.failure s.left [] less
