-- ===== src/StepUp/Ranks.antt =====
-- Which sessions satisfy which requests.
use inite_auth_service.Common.{
  ℕ, String, List, [], ◌∷◌, Option, none, some, Bool, true, ◌≡◌, ◌↔◌, arith, ◌≤◌, if◌then◌else◌,
}
use inite_auth_service.Common.Text.{words}
use inite_auth_service.StepUp.{
  rank_of_acr_token, session_rank, required_rank, max_rank, is_satisfied, is_phishing_resistant,
}

abbrev rank_if : Bool → Bool → Bool → ℕ
rank_if low mid high = if low then 1 else if mid then 2 else if high then 3 else 0

rank_if-le : (low mid high : Bool) → rank_if low mid high ≤ 3
rank_if-le low mid high = ground arith

module _ (lower : String → String) where
  rank-le : (token : String) → rank_of_acr_token lower token ≤ 3
  unfolding rank_of_acr_token
  rank-le token = rank_if-le _ _ _

  max_rank-le : (ts : List String) → max_rank lower ts ≤ 3
  unfolding max_rank
  max_rank-le [] = omega arith
  max_rank-le (t ∷ ts) = omega (arith, rank-le t, max_rank-le ts)

  -- A request is satisfied exactly by the sessions whose rank is not below the greatest rank among
  -- its known values; one without a known value is satisfied by all.
  pub is_satisfied_iff :
      (amr : List String) (acr_values : Option String)
      → (is_satisfied lower amr acr_values ≡ true)
        ↔ (required_rank lower acr_values ≤ session_rank lower amr)
  unfolding is_satisfied
  is_satisfied_iff amr acr_values = (λ h. ground arith, λ h. ground arith)

  required_rank-le : (acr_values : Option String) → required_rank lower acr_values ≤ 3
  unfolding required_rank
  required_rank-le none = omega arith
  required_rank-le (some v) = ground (arith, max_rank-le (words v))

  -- A session with a phishing-resistant factor satisfies every request.
  pub resistant-is_satisfied :
      (amr : List String) (acr_values : Option String)
      → is_phishing_resistant lower amr ≡ true
      → is_satisfied lower amr acr_values ≡ true
  unfolding session_rank is_phishing_resistant
  resistant-is_satisfied [] acr_values h = ground arith
  resistant-is_satisfied (m ∷ amr) acr_values h =
      (is_satisfied_iff (m ∷ amr) acr_values).1 (rw h (required_rank-le acr_values))
