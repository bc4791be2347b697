-- ===== src/Common/Text.antt =====
-- The JavaScript text operations that the source uses, over the code points of a text. Case folding
-- is that of ASCII.
pub mod Words
pub mod Suffix
pub mod Split
pub mod Differ
use Prim.Native.Nat.{ℕ, ◌+◌, ◌-◌, ◌*◌}
use Prim.Native.Char.{Char, code}
use Prim.Native.String
use Prim.Native.String.{String, [], ◌∷◌}
use mathlib.Core.Path.{◌≡◌, refl}
use mathlib.Core.Bool.{Bool, true, false, ◌&&◌, ◌||◌, not}
use mathlib.Core.Option.{Option, none, some}
use mathlib.Core.List.{List, [], ◌∷◌, reverse}
use native.Mathlib.Omega.{arith}
use inite_auth_service.Common.Tests.{ltb, leb, nat_eq, ◌==◌, if◌then◌else◌, Bool-cases}
use inite_auth_service.Common.Lists.{All}

abbrev pub push : String → Char → String
push s c = String.◌++◌ s (c ∷ [])

-- The white space of `\s` and `trim`.
pub is_space : Char → Bool
is_space c =
    (leb 9 (code c) && leb (code c) 13)
    || nat_eq (code c) 32
    || nat_eq (code c) 160
    || nat_eq (code c) 0x1680
    || (leb 0x2000 (code c) && leb (code c) 0x200a)
    || nat_eq (code c) 0x2028
    || nat_eq (code c) 0x2029
    || nat_eq (code c) 0x202f
    || nat_eq (code c) 0x205f
    || nat_eq (code c) 0x3000
    || nat_eq (code c) 0xfeff

-- A piece that `filter(Boolean)` keeps.
abbrev emit : String → List String → List String
emit cur rest = if cur == "" then rest else cur ∷ rest

words_from : String → String → List String
words_from cur [] = emit cur []
words_from cur (c ∷ s) = elim (is_space c) [
  | true ↦ emit cur (words_from "" s)
  | false ↦ words_from (push cur c) s
]

-- `s.split(/\s+/).filter(Boolean)`
unfoldable pub words : String → List String
unfolding words_from is_space
words s = words_from "" s

-- `xs.join(sep)`
abbrev pub join : String → List String → String
join sep [] = ""
join sep (x ∷ []) = x
join sep (x ∷ (y ∷ ys)) = String.◌++◌ x (String.◌++◌ sep (join sep (y ∷ ys)))

split_from : ℕ → String → String → List String
split_from sep cur [] = cur ∷ []
split_from sep cur (c ∷ s) = elim (nat_eq (code c) sep) [
  | true ↦ cur ∷ split_from sep "" s
  | false ↦ split_from sep (push cur c) s
]

-- `s.split(sep)` at a separator of one character
unfoldable pub split_on : ℕ → String → List String
unfolding split_from
split_on sep s = split_from sep "" s

unfoldable pub trim_start : String → String
unfolding is_space
trim_start [] = []
trim_start (c ∷ s) = if is_space c then trim_start s else c ∷ s

-- `pending` holds the white space that is kept only if something follows it.
trim_end_from : String → String → String
trim_end_from pending [] = ""
trim_end_from pending (c ∷ s) = elim (is_space c) [
  | true ↦ trim_end_from (push pending c) s
  | false ↦ String.◌++◌ pending (c ∷ trim_end_from "" s)
]

unfoldable pub trim : String → String
unfolding trim_start trim_end_from
trim s = trim_end_from "" (trim_start s)

unfoldable pub is_digit : Char → Bool
is_digit c = leb b'0' (code c) && leb (code c) b'9'

-- The digits at the head of a text as a number, with what follows them; `none` without a digit.
abbrev read_so_far : Option ℕ → ℕ
read_so_far none = 0
read_so_far (some n) = n

digits_from : Option ℕ → String → Option ℕ × String
digits_from acc [] = (acc, [])
digits_from acc (c ∷ s) = elim (is_digit c) [
  | true ↦ digits_from (some (read_so_far acc * 10 + (code c - b'0'))) s
  | false ↦ (acc, c ∷ s)
]

unfoldable pub leading_digits : String → Option ℕ × String
unfolding digits_from is_digit
leading_digits s = digits_from none s

-- `s.includes(c)` for a single character
abbrev pub has_char : ℕ → String → Bool
has_char n [] = false
has_char n (c ∷ s) = nat_eq (code c) n || has_char n s

-- `s.endsWith(t)`
abbrev pub ends_with : String → String → Bool
ends_with [] t = "" == t
ends_with (c ∷ s) t = ((c ∷ s) == t) || ends_with s t

-- `s.replace(/c$/, '')`: without one such character at the end
abbrev pub strip_last : ℕ → String → String
strip_last n [] = []
strip_last n (c ∷ []) = if nat_eq (code c) n then "" else c ∷ []
strip_last n (c ∷ (d ∷ s)) = c ∷ strip_last n (d ∷ s)
