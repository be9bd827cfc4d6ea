-- ===== src/Routing/Domain.antt =====
-- `normalize_domain` of domain/src/service/routed_email_sender.rs, and the part of an address
-- behind its last `@`. A text is a list of characters; `to_ascii_lowercase` changes A to Z alone.
pub mod Laws
use Prim.Native.Char.{Char, char, code, IsScalar}
use Prim.Native.Nat.{compare, Ordering}
use Prim.Native.String.{[], ◌∷◌}
use native.Mathlib.Bridge.{le_prop}
use catapulte.Common.{
  ℕ, ◌+◌, ◌≤◌, ◌<◌, String, ◌≡◌, refl, Bool, true, false, ◌&&◌, Option, none, some, arith, leb,
  ◌==◌, if◌then◌else◌, Bool-cases,
}

IsScalar-ascii : (n : ℕ) → n < 128 → IsScalar n
IsScalar-ascii n h = by_test (compare n 55296) refl
  where
    by_test : (c : Ordering) → compare n 55296 ≡ c → IsScalar n
    by_test Ordering.lt e = rw e tt
    by_test Ordering.eq e = absurd (ground arith)
    by_test Ordering.gt e = absurd (ground arith)

-- The code of the lower case letter, where the code is that of A to Z.
unfoldable pub lower_code : ℕ → ℕ
lower_code n = if leb 65 n && leb n 90 then n + 32 else n

pub lower_code-IsScalar : (n : ℕ) → IsScalar n → IsScalar (lower_code n)
unfolding lower_code
lower_code-IsScalar n p = by_test (leb 65 n && leb n 90) refl
  where
    by_test : (b : Bool) → (leb 65 n && leb n 90) ≡ b → IsScalar (if b then n + 32 else n)
    by_test true e = IsScalar-ascii (n + 32) (ground arith)
    by_test false e = p

-- `char::to_ascii_lowercase`
unfoldable pub to_ascii_lowercase : Char → Char
unfolding lower_code
to_ascii_lowercase (char n p) = char (lower_code n) (lower_code-IsScalar n p)

unfoldable pub lowercase : String → String
unfolding to_ascii_lowercase
lowercase [] = []
lowercase (c ∷ s) = to_ascii_lowercase c ∷ lowercase s

-- Whether a text has no character.
abbrev pub is_empty : String → Bool
is_empty [] = true
is_empty (c ∷ s) = false

-- `s.trim_end_matches('.')`
unfoldable pub trim_dots : String → String
trim_dots [] = []
trim_dots (c ∷ s) =
    let rest = trim_dots s in if (code c == 46) && is_empty rest then [] else c ∷ rest

unfoldable pub normalize_domain : String → String
unfolding lowercase trim_dots
normalize_domain s = lowercase (trim_dots s)

-- `s.rsplit_once('@')`, of which the code uses the part behind the last `@`.
unfoldable pub after_last_at : String → Option String
after_last_at [] = none
after_last_at (c ∷ s) = elim (after_last_at s) [
  | some domain ↦ some domain
  | none ↦ if code c == 64 then some s else none
]

-- The domain of a sender: empty if its address has no `@`.
unfoldable pub sender_domain : String → String
unfolding after_last_at normalize_domain
sender_domain sender = elim (after_last_at sender) [ some d ↦ normalize_domain d | none ↦ [] ]
