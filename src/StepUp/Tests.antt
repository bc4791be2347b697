-- ===== src/StepUp/Tests.antt =====
-- The ranks at a passkey session.
use inite_auth_service.Common.{[], ◌∷◌, true, ◌≡◌, refl}
use inite_auth_service.StepUp.{is_phishing_resistant}

passkey : is_phishing_resistant (λ s. s) ("fido" ∷ []) ≡ true
unfolding is_phishing_resistant
passkey = refl
