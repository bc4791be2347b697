-- ===== src/StepUp.antt =====
-- src/oauth/step-up.service.ts: the assurance that a session achieved against the one that an RP asks
-- for. `lower` is the runtime's `toLowerCase`. The challenge response is not modelled.
pub mod Ranks
mod Tests
use inite_auth_service.Common.{
  ℕ, String, List, [], ◌∷◌, Option, none, some, Bool, true, false, not, ◌==◌, leb, nat_eq, max,
  if◌then◌else◌, any, map, includes, length, truthy,
}
use inite_auth_service.Common.Text.{words, trim}
use inite_auth_service.Common.Sets.{unique}

-- `ACR_RANKS`
abbrev pub low_acrs : List String
low_acrs = "aal1" ∷ "1" ∷ "loa1" ∷ "low" ∷ []

abbrev pub mid_acrs : List String
mid_acrs = "aal2" ∷ "2" ∷ "mfa" ∷ "loa2" ∷ "silver" ∷ []

abbrev pub high_acrs : List String
high_acrs = "phr" ∷ "phrh" ∷ "aal3" ∷ "3" ∷ "loa3" ∷ "hwk" ∷ "gold" ∷ []

abbrev pub acr_rank : String → ℕ
acr_rank acr =
    if includes low_acrs acr
    then 1
    else if includes mid_acrs acr
    then 2
    else if includes high_acrs acr
    then 3
    else 0

abbrev resistant_factors : List String
resistant_factors = "fido" ∷ "hwk" ∷ "wia" ∷ "pop" ∷ []

module _ (lower : String → String) where
  unfoldable pub rank_of_acr_token : String → ℕ
  unfolding trim
  rank_of_acr_token token = acr_rank (lower (trim token))

  unfoldable pub is_phishing_resistant : List String → Bool
  is_phishing_resistant amr = any (λ m. includes resistant_factors (lower m)) amr

  unfoldable pub session_rank : List String → ℕ
  unfolding is_phishing_resistant
  session_rank [] = 0
  session_rank (m ∷ amr) =
      if is_phishing_resistant (m ∷ amr)
      then 3
      else if leb 2 (length (unique (map lower (m ∷ amr))))
      then 2
      else 1

  -- The canonical `acr` of a session.
  unfoldable pub achieved_acr : List String → Option String
  unfolding session_rank
  achieved_acr amr =
      if leb 3 (session_rank amr)
      then some "phr"
      else if nat_eq (session_rank amr) 2
      then some "aal2"
      else if nat_eq (session_rank amr) 1
      then some "aal1"
      else none

  unfoldable pub max_rank : List String → ℕ
  unfolding rank_of_acr_token
  max_rank [] = 0
  max_rank (t ∷ ts) = max (rank_of_acr_token t) (max_rank ts)

  unfoldable pub required_rank : Option String → ℕ
  unfolding max_rank
  required_rank none = 0
  required_rank (some acr_values) =
      if not (truthy acr_values) then 0 else max_rank (words acr_values)

  unfoldable pub is_satisfied : List String → Option String → Bool
  unfolding session_rank required_rank
  is_satisfied amr acr_values =
      let required : ℕ = required_rank acr_values in
      if nat_eq required 0 then true else leb required (session_rank amr)
