-- ===== src/Common/Sets.antt =====
-- Lists of texts used as sets: `new Set(xs)` in its order of insertion, and membership.
use mathlib.Core.Path.{◌≡◌, refl, ap}
use mathlib.Core.Logic.{inl, inr}
use mathlib.Core.Bool.{Bool, true, false, ◌&&◌, ◌||◌, not}
use mathlib.Core.List.{List, [], ◌∷◌, ◌++◌}
use Prim.Native.String.{String}
use native.Mathlib.Omega.{arith}
use text.Mathlib.TextEquality.{eq_iff}
use inite_auth_service.Common.Tests.{◌==◌, Bool-cases, eq_self}
use inite_auth_service.Common.Lists.{All, select, includes, any}

unique_from : List String → List String → List String
unique_from seen [] = []
unique_from seen (x ∷ xs) = elim (includes seen x) [
  | true ↦ unique_from seen xs
  | false ↦ x ∷ unique_from (x ∷ seen) xs
]

-- `[...new Set(xs)]`
unfoldable pub unique : List String → List String
unfolding unique_from
unique xs = unique_from [] xs

abbrev pub IsDistinct : List String → Type 0
IsDistinct [] = Unit
IsDistinct (x ∷ xs) = (includes xs x ≡ false) × IsDistinct xs

pub includes-append :
    (xs ys : List String) (s : String) → includes (xs ++ ys) s ≡ (includes xs s || includes ys s)
includes-append [] ys s = refl
includes-append (x ∷ xs) ys s = ground (arith, includes-append xs ys s)

pub includes-select :
    (p : String → Bool) (xs : List String) (s : String)
    → includes (select p xs) s ≡ (includes xs s && p s)
includes-select p [] s = refl
includes-select p (x ∷ xs) s = elim (Bool-cases (x == s)) [
  | inl e ↦
      let same : x ≡ s = (eq_iff x s).0 e in
      rw same (ground (arith, eq_self s, includes-select p xs s))
  | inr e ↦ ground (arith, includes-select p xs s)
]

includes-unique_from :
    (seen xs : List String) (s : String)
    → includes (unique_from seen xs) s ≡ (includes xs s && not (includes seen s))
unfolding unique_from
includes-unique_from seen [] s = refl
includes-unique_from seen (x ∷ xs) s = elim (Bool-cases (x == s)) [
  | inl e ↦
      let same : x ≡ s = (eq_iff x s).0 e in
      rw same (
        ground
          (arith, eq_self s, includes-unique_from seen xs s, includes-unique_from (s ∷ seen) xs s))
  | inr e ↦ ground (arith, includes-unique_from seen xs s, includes-unique_from (x ∷ seen) xs s)
]

pub includes-unique : (xs : List String) (s : String) → includes (unique xs) s ≡ includes xs s
unfolding unique
includes-unique xs s = ground (arith, includes-unique_from [] xs s)

unique_from-IsDistinct : (seen xs : List String) → IsDistinct (unique_from seen xs)
unfolding unique_from
unique_from-IsDistinct seen [] = tt
unique_from-IsDistinct seen (x ∷ xs) = elim (Bool-cases (includes seen x)) [
  | inl e ↦ rw (e, unique_from) (unique_from-IsDistinct seen xs)
  | inr e ↦
      rw (e, unique_from)
        (
          ground (arith, includes-unique_from (x ∷ seen) xs x, eq_self x),
          unique_from-IsDistinct (x ∷ seen) xs,
        )
]

pub unique-IsDistinct : (xs : List String) → IsDistinct (unique xs)
unfolding unique
unique-IsDistinct xs = unique_from-IsDistinct [] xs

pub select-IsDistinct :
    (p : String → Bool) (xs : List String) → IsDistinct xs → IsDistinct (select p xs)
select-IsDistinct p [] h = tt
select-IsDistinct p (x ∷ xs) h = ground (arith, includes-select p xs x, select-IsDistinct p xs h.1)

-- No element of the list is among those seen.
abbrev IsFresh : List String → List String → Type 0
IsFresh seen [] = Unit
IsFresh seen (x ∷ xs) = (includes seen x ≡ false) × IsFresh seen xs

IsFresh-cons :
    (y : String) (seen xs : List String)
    → includes xs y ≡ false
    → IsFresh seen xs
    → IsFresh (y ∷ seen) xs
IsFresh-cons y seen [] h f = tt
IsFresh-cons y seen (x ∷ xs) h f =
    (ground (arith, eq_iff x y, eq_iff y x), IsFresh-cons y seen xs (ground arith) f.1)

unique_from-eq_self :
    (seen xs : List String) → IsFresh seen xs → IsDistinct xs → unique_from seen xs ≡ xs
unfolding unique_from
unique_from-eq_self seen [] f d = refl
unique_from-eq_self seen (x ∷ xs) f d =
    rw (f.0, unique_from)
      (ap (λ ys. x ∷ ys) (unique_from-eq_self (x ∷ seen) xs (IsFresh-cons x seen xs d.0 f.1) d.1))

IsFresh-nil : (xs : List String) → IsFresh [] xs
IsFresh-nil [] = tt
IsFresh-nil (x ∷ xs) = (refl, IsFresh-nil xs)

pub unique-eq_self : (xs : List String) → IsDistinct xs → unique xs ≡ xs
unfolding unique
unique-eq_self xs d = unique_from-eq_self [] xs (IsFresh-nil xs) d

-- A list that passes a test whole is left alone by it.
pub select-all : (p : String → Bool) (xs : List String) → select p (select p xs) ≡ select p xs
select-all p [] = refl
select-all p (x ∷ xs) = ground (arith, select-all p xs)

pub All-select {κ} :
    (P : String → Type κ) (p : String → Bool) (xs : List String) → All P xs → All P (select p xs)
All-select P p [] h = tt
All-select P p (x ∷ xs) h = elim (Bool-cases (p x)) [
  | inl e ↦ rw e (h.0, All-select P p xs h.1)
  | inr e ↦ rw e (All-select P p xs h.1)
]

All-unique_from {κ} :
    (P : String → Type κ) (seen xs : List String) → All P xs → All P (unique_from seen xs)
unfolding unique_from
All-unique_from P seen [] h = tt
All-unique_from P seen (x ∷ xs) h = elim (Bool-cases (includes seen x)) [
  | inl e ↦ rw (e, unique_from) (All-unique_from P seen xs h.1)
  | inr e ↦ rw (e, unique_from) (h.0, All-unique_from P (x ∷ seen) xs h.1)
]

pub All-unique {κ} : (P : String → Type κ) (xs : List String) → All P xs → All P (unique xs)
unfolding unique
All-unique P xs h = All-unique_from P [] xs h

-- A test passes somewhere in the list exactly when it passes at an element of it.
pub any_sound :
    (p : String → Bool) (xs : List String)
    → any p xs ≡ true
    → (x : String) × (includes xs x ≡ true) × (p x ≡ true)
any_sound p [] h = cc
any_sound p (x ∷ xs) h = elim (Bool-cases (p x)) [
  | inl e ↦ (x, ground (arith, eq_self x), e)
  | inr e ↦ let (y, member, passes) = any_sound p xs (ground arith) in (y, ground arith, passes)
]

pub any_complete :
    (p : String → Bool) (xs : List String) (x : String)
    → includes xs x ≡ true
    → p x ≡ true
    → any p xs ≡ true
any_complete p [] x h e = cc
any_complete p (y ∷ ys) x h e = elim (Bool-cases (y == x)) [
  | inl same ↦ let f : y ≡ x = (eq_iff y x).0 same in rw (f, e)
  | inr other ↦ ground (arith, any_complete p ys x)
]
