-- ===== src/Redis/Tally.antt =====
-- Numbers as texts, for values that are stored in tests: a stroke for each unit, and a dot.
use Prim.Native.Char.{code}
use Prim.Native.String.{String, [], ◌∷◌}
use inite_auth_service.Common.{ℕ, zero, suc, Option, none, some, ◌≡◌, refl, nat_eq, if◌then◌else◌}

abbrev pub tally : ℕ → String → String
tally zero rest = "." ∷ rest
tally (suc n) rest = "|" ∷ tally n rest

abbrev bump : Option (ℕ × String) → Option (ℕ × String)
bump none = none
bump (some (n, rest)) = some (suc n, rest)

abbrev pub read_tally : String → Option (ℕ × String)
read_tally [] = none
read_tally (c ∷ s) =
    let more : Option (ℕ × String) = read_tally s in
    if nat_eq (code c) b'.' then some (0, s) else bump more

pub read_tally-tally : (n : ℕ) (rest : String) → read_tally (tally n rest) ≡ some (n, rest)
read_tally-tally zero rest = refl
read_tally-tally (suc n) rest = rw (read_tally-tally n rest) refl
