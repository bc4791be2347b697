-- ===== src/Auth/Otp/Factors.antt =====
-- src/auth/otp/otp.service.ts: one-time codes as a login factor and as a second factor. `lower` is
-- the runtime's `toLowerCase`; the id and the DID of a new account are drawn.
use inite_auth_service.Common.{
  ℕ, String, List, Option, none, some, Bool, true, false, if◌then◌else◌, truthy,
}
use Prim.Native.String.{◌++◌ as append}
use inite_auth_service.Common.Effect.{M, pure, throw, ◌>>=◌, ◌>>◌, unauthorized, bad_request}
use inite_auth_service.Redis.{Redis, JsonOf}
use inite_auth_service.Auth.{
  Account, SignIn, on_accounts, on_server, account_by_id, account_by_email, update_account,
  create_identity, with_verified_email,
}
use inite_auth_service.Auth.Otp.{
  OtpChannel, OtpRecord, SendCount, email, sms, generate_and_send, verify,
}

-- The account, and whether it is new.
resolve_found : (id did : String) → String → Option Account → M (List Account) (Account × Bool)
resolve_found id did address none = do
  created ← create_identity id did address
  a ← update_account created.id with_verified_email
  pure (a, true)
resolve_found id did address (some existing) =
    if existing.email_verified
    then pure (existing, false)
    else (do a ← update_account existing.id with_verified_email; pure (a, false))

unfoldable pub resolve_or_create_user :
    (id did : String) → String → M (List Account) (Account × Bool)
unfolding resolve_found
resolve_or_create_user id did address accounts =
    resolve_found id did address (account_by_email address accounts) accounts

module _ {ℓ} {S : Type ℓ} (redis : Redis S) (records : JsonOf OtpRecord) (counts : JsonOf SendCount)
    (sha256 lower : String → String) (sms_enabled : Bool) (now : ℕ) where
  abbrev pub login_subject : String → String
  login_subject address = append "login:email:" (lower address)

  abbrev pub mfa_subject : String → String
  mfa_subject user_id = append "mfa:" user_id

  abbrev deliver :
      String → String → OtpChannel → String → M (SignIn S) (OtpChannel × String × String)
  deliver code subject channel send_to =
      on_server
        (generate_and_send redis records sha256 now counts sms_enabled code subject channel send_to)

  -- The name that is read for the mail is left out.
  pub request_email_login_code : String → String → M (SignIn S) (OtpChannel × String × String)
  request_email_login_code code address = deliver code (login_subject address) email address

  unfoldable pub verify_email_login_code :
      (id did : String) → String → String → M (SignIn S) (Account × Bool)
  unfolding resolve_or_create_user
  verify_email_login_code id did address code = do
    on_server (verify redis records sha256 now (login_subject address) code)
    on_accounts (resolve_or_create_user id did address)

  send_to_phone : String → String → Option String → M (SignIn S) (OtpChannel × String × String)
  send_to_phone code user_id none = throw (bad_request "" "Phone number required for SMS")
  send_to_phone code user_id (some phone) =
      if truthy phone
      then deliver code (mfa_subject user_id) sms phone
      else throw (bad_request "" "Phone number required for SMS")

  send_to_email : String → String → Option String → M (SignIn S) (OtpChannel × String × String)
  send_to_email code user_id none = throw (bad_request "" "User has no email on file")
  send_to_email code user_id (some address) =
      if truthy address
      then deliver code (mfa_subject user_id) email address
      else throw (bad_request "" "User has no email on file")

  request_mfa_found :
      String
      → Option Account
      → OtpChannel
      → Option String
      → M (SignIn S) (OtpChannel × String × String)
  unfolding send_to_phone send_to_email
  request_mfa_found code none channel phone = throw (unauthorized "" "User not found")
  request_mfa_found code (some user) email phone = send_to_email code user.id user.email
  request_mfa_found code (some user) sms phone = send_to_phone code user.id phone

  pub request_mfa_code :
      String → String → OtpChannel → Option String → M (SignIn S) (OtpChannel × String × String)
  unfolding request_mfa_found
  request_mfa_code code user_id channel phone w =
      request_mfa_found code (account_by_id user_id w.accounts) channel phone w

  pub verify_mfa_code : String → String → M (SignIn S) Bool
  verify_mfa_code user_id code = do
    on_server (verify redis records sha256 now (mfa_subject user_id) code)
    pure true
