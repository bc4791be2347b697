-- ===== src/Auth/Reset.antt =====
-- requestPasswordReset and resetPassword of src/auth/auth.service.ts. SHA-256, bcrypt, the breach
-- check of HIBP and the signing of the session token are parameters; the token is drawn.
pub mod Once
use inite_auth_service.Common.{
  ℕ, String, List, Option, none, some, Bool, true, false, ◌+◌, ◌*◌, ltb, if◌then◌else◌, is_text,
  find_first,
}
use inite_auth_service.Common.Effect.{M, pure, throw, ◌>>=◌, ◌>>◌, guard, ok, err, bad_request}
use inite_auth_service.Auth.{Account, account_by_email, update_account}

abbrev pub has_reset_token : String → Account → Bool
has_reset_token hash a = is_text a.reset_token hash

-- `!expires || expires < new Date()`
abbrev pub reset_over : ℕ → Option ℕ → Bool
reset_over now none = true
reset_over now (some end) = ltb end now

module _ (sha256 : String → String) (now : ℕ) where
  abbrev pub with_reset : String → Option String → Account → Account
  with_reset token params a = record a {
    reset_token = some (sha256 token);
    reset_expires = some (now + 60 * 60 * 1000);
    reset_params = params;
  }

  request_found : String → Option String → Option Account → M (List Account) (Option String)
  request_found token params none = pure none
  request_found token params (some a) = do
    _ ← update_account a.id (with_reset token params)
    pure (some token)

  -- The token that is mailed, if any. `params` are those of a request with a client, else none.
  unfoldable pub request_password_reset :
      String → String → Option String → M (List Account) (Option String)
  unfolding request_found
  request_password_reset token email params accounts =
      request_found token params (account_by_email email accounts) accounts

  -- `breached` is the outcome of assertNotBreached, `bcrypt` hashes, `sign` makes the session token.
  module _ (breached : String → Bool) (bcrypt : String → String) (sign : Account → String) where
    abbrev pub with_password : String → Account → Account
    with_password password a = record a {
      password_hash = some (bcrypt password);
      reset_token = none;
      reset_expires = none;
      reset_params = none;
    }

    set_password : Account → String → M (List Account) (Account × String × Option String)
    set_password a password = do
      updated ← update_account a.id (with_password password)
      pure (updated, sign updated, a.reset_params)

    reset_found : Option Account → String → M (List Account) (Account × String × Option String)
    unfolding set_password
    reset_found none password = throw (bad_request "" "Invalid reset token")
    reset_found (some a) password =
        if reset_over now a.reset_expires
        then throw (bad_request "" "Reset token expired")
        else if breached password
        then throw (bad_request "password_breached" "")
        else set_password a password

    unfoldable pub reset_password :
        String → String → M (List Account) (Account × String × Option String)
    unfolding reset_found
    reset_password token password accounts =
        reset_found (find_first (has_reset_token (sha256 token)) accounts) password accounts
