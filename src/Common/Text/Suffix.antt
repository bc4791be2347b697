-- ===== src/Common/Text/Suffix.antt =====
-- What `ends_with` decides.
use Prim.Native.String
use Prim.Native.String.{String, [], ◌∷◌}
use mathlib.Core.Path.{◌≡◌, refl, sym, ◌∙◌, ap}
use mathlib.Core.Logic.{inl, inr}
use mathlib.Core.Bool.{true}
use native.Mathlib.Omega.{arith}
use text.Mathlib.TextLemmas.{nil-append, cons-append}
use text.Mathlib.TextEquality.{eq_iff}
use inite_auth_service.Common.Tests.{◌==◌, Bool-cases}
use inite_auth_service.Common.Text.{ends_with}

-- The text is some beginning followed by `t`.
abbrev pub EndsWith : String → String → Type 0
EndsWith s t = (p : String) × (s ≡ String.◌++◌ p t)

pub ends_with_sound : (s t : String) → ends_with s t ≡ true → EndsWith s t
ends_with_sound [] t h = ("", (eq_iff "" t).0 h ∙ sym (nil-append t))
ends_with_sound (c ∷ s) t h = elim (Bool-cases ((c ∷ s) == t)) [
  | inl e ↦ ("", (eq_iff (c ∷ s) t).0 e ∙ sym (nil-append t))
  | inr e ↦
      let (p, same) = ends_with_sound s t (ground arith) in
      (c ∷ p, ap (λ r. c ∷ r) same ∙ sym (cons-append c p t))
]

pub ends_with_self : (t : String) → ends_with t t ≡ true
ends_with_self [] = refl
ends_with_self (c ∷ t) = ground (arith, eq_iff (c ∷ t) (c ∷ t))

pub ends_with-append : (p t : String) → ends_with (String.◌++◌ p t) t ≡ true
ends_with-append [] t = rw (nil-append t) (ends_with_self t)
ends_with-append (c ∷ p) t = rw (cons-append c p t) (ground (arith, ends_with-append p t))
