-- ===== src/Rbac/Permission.antt =====
-- When a list of permissions grants one.
use Prim.Native.String.{String, [] as nil, ◌∷◌ as cons, ◌++◌ as append}
use text.Mathlib.TextLemmas.{nil-append, cons-append}
use text.Mathlib.TextEquality.{starts_with_iff}
use text.Mathlib.TextPositions.{starts_with-append}
use inite_auth_service.Common.{
  List, [], ◌∷◌, Bool, true, ◌≡◌, ◌↔◌, refl, sym, ap, ◌∙◌, arith, any, all, includes, starts_with,
  Bool-cases, inl, inr, ◌==◌, eq_iff, subst, All,
}
use inite_auth_service.Common.Text.Suffix.{ends_with_sound, ends_with-append}
use inite_auth_service.Rbac.{drop_last, wildcard_grants, has_permission}

-- The list has everything, or the permission, or the wildcard of a space of names that it lies in.
pub data Grants (granted : List String) (required : String) : Type 0 where
  by_star : includes granted "*" ≡ true → Grants granted required
  by_name : includes granted required ≡ true → Grants granted required
  by_space :
      (space rest : String)
      → includes granted (append space ":*") ≡ true
      → append (append space ":") rest ≡ required
      → Grants granted required

drop_last-append : (s : String) → drop_last (append s ":*") ≡ append s ":"
unfolding drop_last
drop_last-append nil = refl
drop_last-append (cons c nil) =
    ap drop_last (cons-append c nil ":*" ∙ ap (λ t. cons c t) (nil-append ":*"))
    ∙ sym (cons-append c nil ":" ∙ ap (λ t. cons c t) (nil-append ":"))
drop_last-append (cons c (cons d s)) =
    ap drop_last (cons-append c (cons d s) ":*" ∙ ap (λ t. cons c t) (cons-append d s ":*"))
    ∙ ap (λ t. cons c t) (ap drop_last (sym (cons-append d s ":*")) ∙ drop_last-append (cons d s))
    ∙ sym (cons-append c (cons d s) ":")

-- What passes a test that some element passes.
any-witness :
    (p : String → Bool) (xs : List String)
    → any p xs ≡ true
    → (x : String) × (includes xs x ≡ true) × (p x ≡ true)
any-witness p [] h = cc
any-witness p (x ∷ xs) h = elim (Bool-cases (p x)) [
  | inl e ↦ (x, ground (arith, eq_iff x x), e)
  | inr e ↦
      let (y, there, passes) = any-witness p xs (rw e at h) in (y, ground (arith, there), passes)
]

any-includes :
    (p : String → Bool) (x : String) (xs : List String)
    → includes xs x ≡ true
    → p x ≡ true
    → any p xs ≡ true
any-includes p x [] there passes = there
any-includes p x (y ∷ xs) there passes = elim (Bool-cases (y == x)) [
  | inl e ↦ rw ((eq_iff y x).0 e) (rw passes refl)
  | inr e ↦ ground (arith, any-includes p x xs (rw e at there) passes)
]

wildcard_grants-space :
    (space rest : String)
    → wildcard_grants (append (append space ":") rest) (append space ":*") ≡ true
unfolding wildcard_grants
wildcard_grants-space space rest =
    rw (ends_with-append space ":*", drop_last-append space)
      (starts_with-append (append space ":") rest)

space-of :
    (required g : String)
    → wildcard_grants required g ≡ true
    → (space : String) × (rest : String) × (g ≡ append space ":*")
      × (append (append space ":") rest ≡ required)
unfolding wildcard_grants
space-of required g h =
    let (space, same) = ends_with_sound g ":*" (ground arith) in
    let starts : starts_with required (drop_last g) ≡ true = ground arith in
    let (rest, joined) = (starts_with_iff required (append space ":")).0 (
      subst (λ t. starts_with required t ≡ true) (ap drop_last same ∙ drop_last-append space)
        starts) in
    (space, rest, same, joined)

pub has_permission_iff :
    (granted : List String) (required : String)
    → (has_permission granted required ≡ true) ↔ Grants granted required
unfolding has_permission
has_permission_iff granted required = (sound, complete)
  where
    sound : has_permission granted required ≡ true → Grants granted required
    sound h = elim (Bool-cases (includes granted "*")) [
      | inl star ↦ by_star star
      | inr s ↦ elim (Bool-cases (includes granted required)) [
        | inl name ↦ by_name name
        | inr n ↦
            let (g, there, passes) =
              any-witness (wildcard_grants required) granted (rw (s, n) at h) in
            let (space, rest, same, joined) = space-of required g passes in
            by_space space rest (subst (λ x. includes granted x ≡ true) same there) joined
      ]
    ]

    complete : Grants granted required → has_permission granted required ≡ true
    complete (by_star star) = rw star refl
    complete (by_name name) = ground (arith, name)
    complete (by_space space rest there same) =
        let passes : wildcard_grants required (append space ":*") ≡ true =
          subst (λ r. wildcard_grants r (append space ":*") ≡ true) same
            (wildcard_grants-space space rest) in
        let found =
          any-includes (wildcard_grants required) (append space ":*") granted there passes in
        ground (arith, found)

pub all-Grants :
    (granted required : List String)
    → all (has_permission granted) required ≡ true
    → All (Grants granted) required
all-Grants granted [] h = tt
all-Grants granted (p ∷ required) h =
    ((has_permission_iff granted p).0 (ground arith), all-Grants granted required (ground arith))

pub Grants-all :
    (granted required : List String)
    → All (Grants granted) required
    → all (has_permission granted) required ≡ true
Grants-all granted [] g = refl
Grants-all granted (p ∷ required) g =
    rw ((has_permission_iff granted p).1 g.0) (Grants-all granted required g.1)
