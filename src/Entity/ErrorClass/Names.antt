-- ===== src/Entity/ErrorClass/Names.antt =====
-- The names of the error classes, as a filter on events reads them.
use catapulte.Common.{
  String, ◌≡◌, ◌↔◌, ◌∙◌, refl, sym, ap, subst, Result, ok, err, str_eq, eq_iff, if◌then◌else◌,
  Bool-cases, inl, inr,
}
use catapulte.Entity.ErrorClass.{
  ErrorClass, template_resolve, template_interpolate, template_render, attachment, delivery,
  routing, as_str, UnknownErrorClass, from_str,
}

from_str-as_str : (c : ErrorClass) → from_str (as_str c) ≡ ok c
unfolding from_str as_str
from_str-as_str template_resolve = refl
from_str-as_str template_interpolate = refl
from_str-as_str template_render = refl
from_str-as_str attachment = refl
from_str-as_str delivery = refl
from_str-as_str routing = refl

-- One test of the chain.
by_test :
    (s : String) (d c : ErrorClass) (rest : Result ErrorClass UnknownErrorClass)
    → (rest ≡ ok c → s ≡ as_str c)
    → (if str_eq s (as_str d) then ok d else rest) ≡ ok c
    → s ≡ as_str c
by_test s d c rest behind h = elim (Bool-cases (str_eq s (as_str d))) [
  | inl same ↦
      (eq_iff s (as_str d)).0 same
      ∙ ap (λ r. elim r [ ok x ↦ as_str x | err _ ↦ as_str d ])
          (subst (λ b. (if b then ok d else rest) ≡ ok c) same h)
  | inr differs ↦ behind (subst (λ b. (if b then ok d else rest) ≡ ok c) differs h)
]

as_str-from_str : (s : String) (c : ErrorClass) → from_str s ≡ ok c → s ≡ as_str c
unfolding from_str as_str
as_str-from_str s c = by_test s template_resolve c _ (
    by_test s template_interpolate c _ (
      by_test s template_render c _
        (by_test s attachment c _ (by_test s delivery c _ (by_test s routing c _ (λ h. cc))))))

-- A text is read as an error class exactly if it is the name of that class, so the names are
-- read back, no two classes share one, and every other text is refused.
from_str_iff : (s : String) (c : ErrorClass) → (from_str s ≡ ok c) ↔ (s ≡ as_str c)
from_str_iff s c =
    (as_str-from_str s c, λ e. subst (λ t. from_str t ≡ ok c) (sym e) (from_str-as_str c))
