-- ===== src/Common/Lists.antt =====
-- Lists under Boolean tests, and the operations of a table: the first row that passes a test, how
-- many pass it, and an update of those that pass it.
use Prim.Native.Nat.{ℕ, suc, ◌+◌, ◌≤◌}
use Prim.Native.String.{String}
use mathlib.Core.Path.{◌≡◌, refl, ap}
use mathlib.Core.Logic.{inl, inr}
use mathlib.Core.Bool.{Bool, true, false, ◌&&◌, ◌||◌}
use mathlib.Core.Option.{Option, none, some}
use mathlib.Core.List.{List, [], ◌∷◌, ◌++◌}
use native.Mathlib.Omega.{arith}
use inite_auth_service.Common.Tests.{◌==◌, if◌then◌else◌, Bool-cases}

module _ {ℓ} {A : Type ℓ} where
  abbrev pub length : List A → ℕ
  length [] = 0
  length (x ∷ xs) = suc (length xs)

  abbrev pub any : (A → Bool) → List A → Bool
  any p [] = false
  any p (x ∷ xs) = p x || any p xs

  abbrev pub all : (A → Bool) → List A → Bool
  all p [] = true
  all p (x ∷ xs) = p x && all p xs

  abbrev pub select : (A → Bool) → List A → List A
  select p [] = []
  select p (x ∷ xs) = if p x then x ∷ select p xs else select p xs

  abbrev pub find_first : (A → Bool) → List A → Option A
  find_first p [] = none
  find_first p (x ∷ xs) = if p x then some x else find_first p xs

  abbrev pub count_where : (A → Bool) → List A → ℕ
  count_where p [] = 0
  count_where p (x ∷ xs) = if p x then suc (count_where p xs) else count_where p xs

  abbrev pub update_where : (A → Bool) → (A → A) → List A → List A
  update_where p f [] = []
  update_where p f (x ∷ xs) = (if p x then f x else x) ∷ update_where p f xs

  pub length-update_where :
      (p : A → Bool) (f : A → A) (xs : List A) → length (update_where p f xs) ≡ length xs
  length-update_where p f [] = refl
  length-update_where p f (x ∷ xs) = ap suc (length-update_where p f xs)

  pub length-select-le : (p : A → Bool) (xs : List A) → length (select p xs) ≤ length xs
  length-select-le p [] = omega arith
  length-select-le p (x ∷ xs) = ground (arith, length-select-le p xs)

  pub length-append : (xs ys : List A) → length (xs ++ ys) ≡ length xs + length ys
  length-append [] ys = omega arith
  length-append (x ∷ xs) ys = omega (arith, length-append xs ys)

  pub any-find_first-none : (p : A → Bool) (xs : List A) → find_first p xs ≡ none → any p xs ≡ false
  any-find_first-none p [] h = refl
  any-find_first-none p (x ∷ xs) h = ground (arith, any-find_first-none p xs)

  pub count-none : (p : A → Bool) (xs : List A) → any p xs ≡ false → count_where p xs ≡ 0
  count-none p [] h = refl
  count-none p (x ∷ xs) h = ground (arith, count-none p xs)

  pub find_first-passes :
      (p : A → Bool) (xs : List A) (a : A) → find_first p xs ≡ some a → p a ≡ true
  find_first-passes p [] a h = cc
  find_first-passes p (x ∷ xs) a h = elim (Bool-cases (p x)) [
    | inl e ↦ let same : x ≡ a = ground arith in ground arith
    | inr e ↦ find_first-passes p xs a (ground arith)
  ]

module _ {ℓ κ} {A : Type ℓ} (P : A → Type κ) where
  abbrev pub All : List A → Type κ
  All [] = Unit
  All (x ∷ xs) = P x × All xs

-- `xs.includes(s)`
abbrev pub includes : List String → String → Bool
includes [] s = false
includes (x ∷ xs) s = x == s || includes xs s
