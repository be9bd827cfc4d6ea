-- ===== src/Routing/Domain/Laws.antt =====
-- The normal form in which routed_email_sender.rs compares domains.
use Prim.Native.Char.{Char, char, code}
use Prim.Native.String.append
use Prim.Native.String.{[], ◌∷◌, ◌++◌}
use text.Mathlib.TextEquality.{Char-path}
use catapulte.Common.{
  ℕ, String, ◌≡◌, refl, ap, sym, ◌∙◌, Bool, true, false, ◌&&◌, arith, ◌==◌, if◌then◌else◌,
  Bool-cases, inl, inr,
}
use catapulte.Routing.Domain.{
  lower_code, to_ascii_lowercase, lowercase, is_empty, trim_dots, normalize_domain,
}

code-to_ascii_lowercase : (c : Char) → code (to_ascii_lowercase c) ≡ lower_code (code c)
unfolding to_ascii_lowercase
code-to_ascii_lowercase (char n p) = refl

lower_code_idem : (n : ℕ) → lower_code (lower_code n) ≡ lower_code n
unfolding lower_code
lower_code_idem n = ground arith

lower_code-dot : (n : ℕ) → (lower_code n == 46) ≡ (n == 46)
unfolding lower_code
lower_code-dot n = ground arith

to_ascii_lowercase_idem :
    (c : Char) → to_ascii_lowercase (to_ascii_lowercase c) ≡ to_ascii_lowercase c
to_ascii_lowercase_idem c = Char-path _ _ (
    code-to_ascii_lowercase (to_ascii_lowercase c)
    ∙ ap lower_code (code-to_ascii_lowercase c)
    ∙ lower_code_idem (code c)
    ∙ sym (code-to_ascii_lowercase c))

lowercase_idem : (s : String) → lowercase (lowercase s) ≡ lowercase s
unfolding lowercase
lowercase_idem [] = refl
lowercase_idem (c ∷ s) = cc (to_ascii_lowercase_idem c, lowercase_idem s)

is_empty-lowercase : (s : String) → is_empty (lowercase s) ≡ is_empty s
unfolding lowercase
is_empty-lowercase [] = refl
is_empty-lowercase (c ∷ s) = refl

lowercase-if :
    (b : Bool) (s : String) → (if b then [] else lowercase s) ≡ lowercase (if b then [] else s)
unfolding lowercase
lowercase-if true s = refl
lowercase-if false s = refl

trim_dots-lowercase : (s : String) → trim_dots (lowercase s) ≡ lowercase (trim_dots s)
unfolding trim_dots lowercase
trim_dots-lowercase [] = refl
trim_dots-lowercase (c ∷ s) =
    simp (trim_dots-lowercase s, code-to_ascii_lowercase, lower_code-dot, is_empty-lowercase)
      (lowercase-if _ (c ∷ trim_dots s))

trim_dots_idem : (s : String) → trim_dots (trim_dots s) ≡ trim_dots s
unfolding trim_dots
trim_dots_idem [] = refl
trim_dots_idem (c ∷ s) = elim (Bool-cases ((code c == 46) && is_empty (trim_dots s))) [
  | inl e ↦ rw e
  | inr e ↦ rw e (rw (trim_dots_idem s) (rw e))
]

trim_dots-dot : (s : String) → trim_dots (s ++ ".") ≡ trim_dots s
unfolding trim_dots
trim_dots-dot [] = refl
trim_dots-dot (c ∷ s) = rw (append.cons c s ".") (rw (trim_dots-dot s))

-- Normalising is idempotent, and neither the case of the letters nor a dot at the end of a domain
-- changes its normal form.
pub normalize_domain_invariance :
    (s : String)
    → (normalize_domain (normalize_domain s) ≡ normalize_domain s)
      × (normalize_domain (lowercase s) ≡ normalize_domain s)
      × (normalize_domain (s ++ ".") ≡ normalize_domain s)
unfolding normalize_domain
normalize_domain_invariance s = (
  simp (trim_dots-lowercase, trim_dots_idem, lowercase_idem),
  simp (trim_dots-lowercase, lowercase_idem),
  simp trim_dots-dot,
)
