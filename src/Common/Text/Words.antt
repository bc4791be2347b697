-- ===== src/Common/Text/Words.antt =====
-- Words, and the texts that join them: a scope list and its text stand for each other.
use Prim.Native.Char.{Char}
use Prim.Native.String
use Prim.Native.String.{String, [], ◌∷◌}
use mathlib.Core.Path.{◌≡◌, refl, sym, ◌∙◌, ap}
use mathlib.Core.Logic.{◌≢◌, inl, inr}
use mathlib.Core.Bool.{false}
use mathlib.Core.List.{List, [], ◌∷◌}
use text.Mathlib.TextLemmas.{append-nil, append_assoc, nil-append, cons-append}
use text.Mathlib.TextEquality.{eq_iff}
use inite_auth_service.Common.Tests.{◌==◌, Bool-cases, eq_false}
use inite_auth_service.Common.Lists.{All}
use inite_auth_service.Common.Text.{push, is_space, emit, words_from, words, join}

-- No character of the text is white space.
abbrev pub IsSpaceless : String → Type 0
IsSpaceless [] = Unit
IsSpaceless (c ∷ s) = (is_space c ≡ false) × IsSpaceless s

abbrev pub IsWord : String → Type 0
IsWord s = (s ≢ "") × IsSpaceless s

IsSpaceless-push :
    (s : String) (c : Char) → IsSpaceless s → is_space c ≡ false → IsSpaceless (push s c)
IsSpaceless-push [] c h e = rw (nil-append (c ∷ [])) (e, tt)
IsSpaceless-push (d ∷ s) c h e = rw (cons-append d s (c ∷ [])) (h.0, IsSpaceless-push s c h.1 e)

emit-IsWord :
    (cur : String) (rest : List String)
    → IsSpaceless cur
    → All IsWord rest
    → All IsWord (emit cur rest)
emit-IsWord cur rest h r = elim (Bool-cases (cur == "")) [
  | inl e ↦ rw e r
  | inr e ↦ rw e (((λ same. cc (sym e ∙ ((eq_iff cur "").1 same))), h), r)
]

words_from-IsWord : (cur s : String) → IsSpaceless cur → All IsWord (words_from cur s)
unfolding words_from
words_from-IsWord cur [] h = emit-IsWord cur [] h tt
words_from-IsWord cur (c ∷ s) h = elim (Bool-cases (is_space c)) [
  | inl e ↦ rw (e, words_from) (emit-IsWord cur _ h (words_from-IsWord "" s tt))
  | inr e ↦ rw (e, words_from) (words_from-IsWord (push cur c) s (IsSpaceless-push cur c h e))
]

pub words-IsWord : (s : String) → All IsWord (words s)
unfolding words
words-IsWord s = words_from-IsWord "" s tt

words_from-append :
    (cur w rest : String)
    → IsSpaceless w
    → words_from cur (String.◌++◌ w rest) ≡ words_from (String.◌++◌ cur w) rest
unfolding words_from
words_from-append cur [] rest h = rw (nil-append rest, append-nil cur)
words_from-append cur (c ∷ w) rest h = rw (cons-append c w rest) (
    rw (h.0, words_from)
      (words_from-append (push cur c) w rest h.1 ∙ ap (λ t. words_from t rest) regroup))
  where
    regroup : String.◌++◌ (push cur c) w ≡ String.◌++◌ cur (c ∷ w)
    regroup =
        append_assoc cur (c ∷ []) w
        ∙ ap (String.◌++◌ cur) (cons-append c [] w ∙ ap (λ t. c ∷ t) (nil-append w))

words_from-word :
    (w rest : String) → IsWord w → words_from w (String.◌++◌ " " rest) ≡ w ∷ words_from "" rest
unfolding words_from is_space
words_from-word w rest h = rw (cons-append _ [] rest, nil-append rest) (rw (eq_false w "" h.0) refl)

-- Joining words by one space and splitting again gives the words.
pub words-join : (ws : List String) → All IsWord ws → words (join " " ws) ≡ ws
unfolding words words_from
words-join [] h = refl
words-join (w ∷ []) h =
    ap (words_from "") (sym (append-nil w))
    ∙ words_from-append "" w "" h.0.1
    ∙ rw (nil-append w) (rw (eq_false w "" h.0.0) refl)
words-join (w ∷ (v ∷ ws)) h =
    words_from-append "" w (String.◌++◌ " " (join " " (v ∷ ws))) h.0.1
    ∙ rw (nil-append w)
        (words_from-word w (join " " (v ∷ ws)) h.0 ∙ ap (λ t. w ∷ t) (words-join (v ∷ ws) h.1))
