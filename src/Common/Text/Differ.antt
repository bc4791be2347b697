-- ===== src/Common/Text/Differ.antt =====
-- Texts whose beginnings differ at a character are not equal.
use Prim.Native.Nat.{ℕ}
use Prim.Native.Char.{code}
use Prim.Native.String.{String, [], ◌∷◌, ◌++◌}
use Prim.Native.String.append.{cons as cons-append}
use mathlib.Core.Path.{◌≡◌, refl, sym, ap, ◌∙◌}
use mathlib.Core.Bool.{Bool, true, false}
use mathlib.Core.Logic.{inl, inr}
use native.Mathlib.Omega.{arith}
use inite_auth_service.Common.Tests.{nat_eq, if◌then◌else◌, Bool-cases, not-both}

-- Before either ends, the two have different characters at one place.
abbrev pub differ : String → String → Bool
differ [] q = false
differ (c ∷ p) [] = false
differ (c ∷ p) (d ∷ q) = if nat_eq (code c) (code d) then differ p q else true

head_code : String → ℕ
head_code [] = 0
head_code (c ∷ s) = code c

tail : String → String
tail [] = []
tail (c ∷ s) = s

pub append-differ : (p q s t : String) → differ p q ≡ true → p ++ s ≡ q ++ t → ⊥
unfolding head_code tail
append-differ [] q s t h e = not-both false h refl
append-differ (c ∷ p) [] s t h e = not-both false h refl
append-differ (c ∷ p) (d ∷ q) s t h e =
    let joined : (c ∷ (p ++ s)) ≡ (d ∷ (q ++ t)) =
      sym (cons-append c p s) ∙ e ∙ cons-append d q t in
    let same : code c ≡ code d = ap head_code joined in
    elim (Bool-cases (nat_eq (code c) (code d))) [
      | inl equal ↦ append-differ p q s t (rw equal at h) (ap tail joined)
      | inr unequal ↦ absurd (ground arith)
    ]
