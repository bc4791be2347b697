-- ===== src/Grace/Window.antt =====
-- How long a rotated token may be answered with the pair that replaced it.
use inite_auth_service.Common.{
  ℕ, String, Option, some, true, false, ◌≡◌, refl, arith, ◌+◌, ◌≤◌, ◌<◌, min, leb, nat_eq,
  if◌then◌else◌, ◌||◌, or_else, Option-cases, inl, inr, not-both,
}
use inite_auth_service.Store.{TokenRow}
use inite_auth_service.Grace.{
  grace_window_ms, within_grace, duration_seconds, setting_value, within,
}

min_le : (a b : ℕ) → min a b ≤ b
min_le a b = omega arith

-- Whatever REFRESH_REUSE_GRACE says, the window is no longer than sixty seconds.
pub grace_window_ms-le : (settings : String → Option String) → grace_window_ms settings ≤ 60000
unfolding grace_window_ms
grace_window_ms-le settings = ground (
  arith,
  min_le (or_else (duration_seconds (setting_value settings "REFRESH_REUSE_GRACE" "30s")) 30) 60,
)

abbrev Timely : ℕ → ℕ → ℕ → ℕ → Type 0
Timely at expires window now = (now ≤ at + window) × (now < expires) × (0 < window)

timely :
    (at expires window now : ℕ)
    → (if nat_eq window 0 || leb expires now then false else within at window now) ≡ true
    → Timely at expires window now
timely at expires window now h = (ground arith, ground arith, ground arith)

-- A token is within the grace only if it was rotated at most a window ago, has not expired itself
-- and the window is not zero.
pub within_grace-bound :
    (token : TokenRow) (window now : ℕ)
    → within_grace token window now ≡ true
    → (at : ℕ) × (token.revoked_at ≡ some at) × Timely at token.expires_at window now
unfolding within_grace
within_grace-bound token window now h = elim (Option-cases token.revoked_at) [
  | inl e ↦ absurd (not-both false (rw e at h) refl)
  | inr (at, e) ↦ (at, e, timely at token.expires_at window now (rw e at h))
]
