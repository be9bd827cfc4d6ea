-- ===== src/Http/Reader.antt =====
-- adapter/inbound-http/src/limited_reader.rs: a reader that fails once more than a limit of bytes comes.
-- The inner reader has the bytes that are left and how it ends: at its end, or with an error. A poll
-- hands over the front of them. That a poll may be pending is left out: it changes nothing.
use catapulte.Common.{
  ℕ, zero, suc, ◌-◌, [], ◌∷◌, ◌++◌, Bool, true, false, Option, none, some, Result, ok, err, length,
  min, take, drop, ◌==◌, if◌then◌else◌,
}
use catapulte.Entity.{AnyError, Bytes}

pub record Source : Type 0 where
  pub left : Bytes
  pub failure : Option AnyError

-- `inner.poll_read` with a buffer of `size` bytes, of which the inner reader fills what it has at hand.
unfoldable pub poll_inner : ℕ → Source → Result Bytes AnyError × Source
poll_inner size s = elim s.left [
  | [] ↦ elim s.failure [ some e ↦ (err e, s) | none ↦ (ok [], s) ]
  | b ∷ bs ↦ (ok (take size (b ∷ bs)), record s { left = drop size (b ∷ bs) })
]

pub record LimitedReader : Type 0 where
  pub inner : Source
  pub remaining : ℕ
  pub exhausted : Bool

unfoldable pub new : Source → ℕ → LimitedReader
new inner max_bytes = record { inner = inner; remaining = max_bytes; exhausted = false }

abbrev pub limit_exceeded : AnyError
limit_exceeded = "attachment exceeded size limit"

-- What the poll for one more byte means at the limit.
unfoldable pub after_probe :
    LimitedReader → Result Bytes AnyError × Source → Result Bytes AnyError × LimitedReader
after_probe r (ok [], inner) = (ok [], record r { inner = inner })
after_probe r (ok (_ ∷ _), inner) =
    (err limit_exceeded, record r { inner = inner; exhausted = true })
after_probe r (err e, inner) = (err e, record r { inner = inner })

-- What a poll below the limit means.
unfoldable pub after_read :
    LimitedReader → Result Bytes AnyError × Source → Result Bytes AnyError × LimitedReader
after_read r (ok bs, inner) =
    (ok bs, record r { inner = inner; remaining = r.remaining - length bs })
after_read r (err e, inner) = (err e, record r { inner = inner })

-- `poll_read` with a buffer of `size` bytes; `usize` has 64 bits.
unfoldable pub poll_read : ℕ → LimitedReader → Result Bytes AnyError × LimitedReader
poll_read size r =
    if r.exhausted
    then (err limit_exceeded, r)
    else if r.remaining == 0
    then after_probe r (poll_inner 1 r.inner)
    else after_read r (poll_inner (min r.remaining size) r.inner)

-- What `read_to_end` does after a poll: nothing more at an error or at the end.
unfoldable pub continue_with :
    (LimitedReader → Bytes → Option (Result Bytes AnyError))
    → Bytes
    → Result Bytes AnyError × LimitedReader
    → Option (Result Bytes AnyError)
continue_with next read (err e, r) = some (err e)
continue_with next read (ok [], r) = some (ok read)
continue_with next read (ok (b ∷ bs), r) = next r (read ++ b ∷ bs)

-- `read_to_end` into `read`, with the fuel `n`; `size k` is one less than what the inner reader has
-- room and bytes for at the poll with the fuel `k`.
unfoldable pub read_to_end : (ℕ → ℕ) → ℕ → LimitedReader → Bytes → Option (Result Bytes AnyError)
read_to_end size zero r read = none
read_to_end size (suc n) r read =
    continue_with (read_to_end size n) read (poll_read (suc (size n)) r)
