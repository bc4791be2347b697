-- ===== src/Common/Tests.antt =====
-- Boolean tests on numbers, texts and options, the conditional, and the case lemmas.
use Prim.Native.Nat.{ℕ, compare, Ordering}
use Prim.Native.String.{String}
use mathlib.Core.Path.{◌≡◌, refl}
use mathlib.Core.Logic.{◌⊎◌, inl, inr, ◌↔◌}
use mathlib.Core.Bool.{Bool, true, false, not}
use mathlib.Core.Option.{Option, none, some}
use native.Mathlib.Omega.{arith}
use text.Mathlib.Text.{◌==◌ as text_eq}
use text.Mathlib.TextEquality.{eq_iff}

abbrev pub ltb : ℕ → ℕ → Bool
ltb a b = elim (compare a b) [ Ordering.lt ↦ true | _ ↦ false ]

abbrev pub leb : ℕ → ℕ → Bool
leb a b = elim (compare a b) [ Ordering.gt ↦ false | _ ↦ true ]

abbrev pub nat_eq : ℕ → ℕ → Bool
nat_eq a b = elim (compare a b) [ Ordering.eq ↦ true | _ ↦ false ]

-- `===` on texts
infix 50 ◌==◌
abbrev pub ◌==◌ : String → String → Bool
s == t = text_eq s t

infix 1 if◌then◌else◌
abbrev pub if◌then◌else◌ {ℓ} : {A : Type ℓ} → Bool → A → A → A
if true then x else y = x
if false then x else y = y

pub Bool-cases : (b : Bool) → (b ≡ true) ⊎ (b ≡ false)
Bool-cases true = inl refl
Bool-cases false = inr refl

pub not-true : {b : Bool} → (b ≡ true → ⊥) → b ≡ false
not-true {b = true} h = absurd (h refl)
not-true {b = false} h = refl

pub nat_eq-false : (a b : ℕ) → (a ≡ b → ⊥) → nat_eq a b ≡ false
nat_eq-false a b h = ground arith

pub not-both : (b : Bool) → b ≡ true → b ≡ false → ⊥
not-both b h k = ground arith

pub eq_self : (s : String) → (s == s) ≡ true
eq_self s = (eq_iff s s).1 refl

pub eq_false : (s t : String) → (s ≡ t → ⊥) → (s == t) ≡ false
eq_false s t h = not-true (λ e. h ((eq_iff s t).0 e))

-- A text is true in a test when it is not empty.
abbrev pub truthy : String → Bool
truthy s = not (s == "")

abbrev pub truthy? : Option String → Bool
truthy? none = false
truthy? (some s) = truthy s

-- `a === b` where both sides may be null
abbrev pub same? : Option String → Option String → Bool
same? none none = true
same? none (some t) = false
same? (some s) none = false
same? (some s) (some t) = s == t

-- `o === t` where `o` may be null
abbrev pub is_text : Option String → String → Bool
is_text none t = false
is_text (some s) t = s == t

pub is_text_iff : (o : Option String) (t : String) → (is_text o t ≡ true) ↔ (o ≡ some t)
is_text_iff none t = (λ h. cc, λ h. cc)
is_text_iff (some s) t = (λ h. cc ((eq_iff s t).0 h), λ h. (eq_iff s t).1 (ground arith))

module _ {ℓ} {A : Type ℓ} where
  abbrev pub is_some : Option A → Bool
  is_some none = false
  is_some (some a) = true

  -- `o ?? d`
  abbrev pub or_else : Option A → A → A
  or_else none d = d
  or_else (some a) d = a

  pub Option-cases : (o : Option A) → (o ≡ none) ⊎ ((a : A) × (o ≡ some a))
  Option-cases none = inl refl
  Option-cases (some a) = inr (a, refl)
