-- ===== src/Common/Text/Split.antt =====
-- Splitting at a separator undoes joining by it.
use Prim.Native.Nat.{ℕ}
use Prim.Native.Char.{code}
use Prim.Native.String
use Prim.Native.String.{String, [], ◌∷◌}
use mathlib.Core.Path.{◌≡◌, refl, sym, ◌∙◌, ap}
use mathlib.Core.Bool.{false}
use mathlib.Core.Logic.{inl, inr}
use mathlib.Core.List.{[], ◌∷◌, ◌++◌}
use native.Mathlib.Omega.{arith}
use text.Mathlib.TextLemmas.{append-nil, append_assoc, nil-append, cons-append}
use inite_auth_service.Common.Tests.{nat_eq, Bool-cases}
use inite_auth_service.Common.Text.{push, split_from, split_on, has_char}

split_from-append :
    (sep : ℕ) (cur w rest : String)
    → has_char sep w ≡ false
    → split_from sep cur (String.◌++◌ w rest) ≡ split_from sep (String.◌++◌ cur w) rest
unfolding split_from
split_from-append sep cur [] rest h = rw (nil-append rest, append-nil cur)
split_from-append sep cur (c ∷ w) rest h =
    let other : nat_eq (code c) sep ≡ false = ground arith in
    rw (cons-append c w rest) (
      rw (other, split_from)
        (split_from-append sep (push cur c) w rest (ground arith)
          ∙ ap (λ t. split_from sep t rest) regroup))
  where
    regroup : String.◌++◌ (push cur c) w ≡ String.◌++◌ cur (c ∷ w)
    regroup =
        append_assoc cur (c ∷ []) w
        ∙ ap (String.◌++◌ cur) (cons-append c [] w ∙ ap (λ t. c ∷ t) (nil-append w))

-- A piece without the full stop, then a full stop: the piece is split off.
pub split_on-dot :
    (w rest : String)
    → has_char b'.' w ≡ false
    → split_on b'.' (String.◌++◌ w (String.◌++◌ "." rest)) ≡ w ∷ split_on b'.' rest
unfolding split_on split_from
split_on-dot w rest h =
    split_from-append b'.' "" w (String.◌++◌ "." rest) h
    ∙ rw (nil-append w, cons-append _ [] rest, nil-append rest) refl

pub split_on-last : (sep : ℕ) (w : String) → has_char sep w ≡ false → split_on sep w ≡ w ∷ []
unfolding split_on split_from
split_on-last sep w h =
    ap (split_from sep "") (sym (append-nil w))
    ∙ split_from-append sep "" w "" h
    ∙ rw (nil-append w) refl

split_from-join :
    (cur w rest : String)
    → split_from b',' cur (String.◌++◌ w (String.◌++◌ "," rest))
      ≡ split_from b',' cur w ++ split_on b',' rest
unfolding split_from split_on
split_from-join cur [] rest =
    rw (nil-append (String.◌++◌ "," rest), cons-append _ [] rest, nil-append rest) refl
split_from-join cur (c ∷ w) rest = elim (Bool-cases (nat_eq (code c) b',')) [
  | inl comma ↦
      rw (cons-append c w _, comma, split_from)
        (ap (λ pieces. cur ∷ pieces) (split_from-join "" w rest))
  | inr other ↦ rw (cons-append c w _, other, split_from) (split_from-join (push cur c) w rest)
]

-- The pieces of two texts with a comma between them are those of the one, then those of the other.
pub split_on-append :
    (w rest : String)
    → split_on b',' (String.◌++◌ w (String.◌++◌ "," rest)) ≡ split_on b',' w ++ split_on b',' rest
unfolding split_on
split_on-append w rest = split_from-join "" w rest
