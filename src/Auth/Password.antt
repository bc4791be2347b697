-- ===== src/Auth/Password.antt =====
-- loginWithPassword of src/auth/auth.service.ts, and src/auth/login-security.service.ts. bcrypt's
-- `compare`, `toISOString` and the signing of the session token are parameters. The fire-and-forget
-- calls run in the order in which they are made, and their failures are swallowed.
pub mod Lockout
pub mod Success
use inite_auth_service.Common.{
  ℕ, String, List, [], ◌∷◌, Option, none, some, Bool, true, false, not, ◌||◌, ◌+◌, ◌-◌, ◌*◌, ◌/◌,
  max, ltb, leb, nat_eq, if◌then◌else◌, truthy, truthy?, is_some, find_first,
}
use Prim.Native.String.{◌++◌ as append}
use mathlib.Core.List.{reverse}
use inite_auth_service.Common.Effect.{M, pure, throw, ◌>>=◌, ◌>>◌, ok, err, unauthorized, Fault}
use inite_auth_service.Redis.{Redis}
use inite_auth_service.Auth.{
  Account, SignIn, on_accounts, note, SecurityEvent, login_attempt, login_audit, account_lockout,
  locked_mail, threshold_mail, account_by_email, account_by_id, update_account,
}

pub record Tier : Type 0 where
  pub at_failures : ℕ
  pub lock_ms : ℕ

abbrev tier : ℕ → ℕ → Tier
tier failures ms = record { at_failures = failures; lock_ms = ms }

abbrev lockout_schedule : List Tier
lockout_schedule =
    tier 5 (60 * 1000)
    ∷ tier 6 (5 * 60 * 1000)
    ∷ tier 7 (15 * 60 * 1000)
    ∷ tier 8 (60 * 60 * 1000)
    ∷ tier 9 (24 * 60 * 60 * 1000)
    ∷ []

abbrev lock_end : ℕ → Option Tier → Option ℕ
lock_end now none = none
lock_end now (some t) = some (now + t.lock_ms)

-- Until when that many misses lock.
unfoldable pub lockout_after : ℕ → ℕ → Option ℕ
lockout_after now next =
    lock_end now (find_first (λ t. leb t.at_failures next) (reverse lockout_schedule))

abbrev pub invalid_credentials : Fault
invalid_credentials = unauthorized "" "Invalid credentials"

abbrev pub account_locked : Fault
account_locked = unauthorized "" "Account temporarily locked."

-- `user.lockoutUntil && user.lockoutUntil > new Date()`
abbrev pub locked_at : ℕ → Option ℕ → Bool
locked_at now none = false
locked_at now (some until) = ltb now until

abbrev pub count_miss : ℕ → ℕ → Account → Account
count_miss now next a = record a {
  failed_login_count = next;
  lockout_until = lockout_after now next;
}

abbrev pub cleared : Account → Account
cleared a = record a { failed_login_count = 0; lockout_until = none }

module _ {ℓ} {S : Type ℓ} (redis : Redis S) (iso : ℕ → String) (now : ℕ) where
  -- The mail that a notification sends, to a person who has an address.
  mail_to : (String → SecurityEvent) → Option Account → SignIn S → SignIn S
  mail_to mail none w = w
  mail_to mail (some a) w = elim a.email [
    | none ↦ w
    | some address ↦ if truthy address then (note (mail address) w).0 else w
  ]

  after_debounce : (String → SecurityEvent) → String → SignIn S → S × Bool → SignIn S
  unfolding mail_to
  after_debounce mail user_id w (server, false) = record w { server = server }
  after_debounce mail user_id w (server, true) =
      mail_to mail (account_by_id user_id w.accounts) (record w { server = server })

  notify_account_locked : String → ℕ → SignIn S → SignIn S
  unfolding after_debounce
  notify_account_locked user_id until w =
      after_debounce (λ address. locked_mail address until) user_id w
        (redis.set_if_absent now (append "notify:locked:" user_id) (iso until)
          (max 60 ((until - now + 999) / 1000)) w.server)

  notify_failed_login_threshold : String → ℕ → SignIn S → SignIn S
  unfolding after_debounce
  notify_failed_login_threshold user_id attempts w =
      after_debounce (λ address. threshold_mail address attempts) user_id w
        (redis.set_if_absent now (append "notify:failed-threshold:" user_id) "3" 3600 w.server)

  notify_lock : String → Option ℕ → SignIn S → SignIn S
  unfolding notify_account_locked
  notify_lock user_id none w = w
  notify_lock user_id (some until) w =
      notify_account_locked user_id until (note account_lockout w).0

  notify_miss : String → ℕ → M (SignIn S) (Unit {0})
  unfolding notify_lock notify_failed_login_threshold
  notify_miss user_id next w =
      let locked : SignIn S = notify_lock user_id (lockout_after now next) w in
      if nat_eq next 3
      then (notify_failed_login_threshold user_id next locked, ok tt)
      else (locked, ok tt)

  unfoldable pub record_failed_login : String → ℕ → M (SignIn S) (Unit {0})
  unfolding notify_miss
  record_failed_login user_id current_count = do
    _ ← on_accounts (update_account user_id (count_miss now (current_count + 1)))
    notify_miss user_id (current_count + 1)

  module _ (compare : String → String → Bool) (sign : Account → String) where
    reset_count : Account → M (SignIn S) (Unit {0})
    reset_count a =
        if ltb 0 a.failed_login_count || is_some a.lockout_until
        then (do _ ← on_accounts (update_account a.id cleared); pure tt)
        else pure tt

    pub check_password : Account → String → String → M (SignIn S) (Account × String)
    unfolding record_failed_login reset_count
    check_password a hash password =
        if not (compare password hash)
        then (do
          note (login_attempt "invalid")
          note (login_audit "auth.login.failed" a.did false)
          record_failed_login a.id a.failed_login_count
          throw invalid_credentials)
        else (do
          reset_count a
          note (login_attempt "success")
          note (login_audit "auth.login.password" a.did true)
          pure (a, sign a))

    login_unlocked : Account → String → String → M (SignIn S) (Account × String)
    unfolding check_password
    login_unlocked a hash password =
        if locked_at now a.lockout_until
        then (do note (login_attempt "locked"); throw account_locked)
        else check_password a hash password

    login_hash : Account → Option String → String → M (SignIn S) (Account × String)
    unfolding login_unlocked
    login_hash a none password = throw invalid_credentials
    login_hash a (some hash) password =
        if truthy hash then login_unlocked a hash password else throw invalid_credentials

    login_found : Option Account → String → M (SignIn S) (Account × String)
    unfolding login_hash
    login_found none password = throw invalid_credentials
    login_found (some a) password = login_hash a a.password_hash password

    -- The account as it was read, and the session token.
    unfoldable pub login_with_password : String → String → M (SignIn S) (Account × String)
    unfolding login_found
    login_with_password email password w =
        login_found (account_by_email email w.accounts) password w
