-- ===== src/Auth/Mfa.antt =====
-- src/identity/identity-mfa.service.ts and src/identity/backup-codes.ts: the second factor. bcrypt,
-- speakeasy (its secrets, its URLs and the check of a code) and the QR code are parameters or drawn;
-- AES and the key belong to FieldCrypto.
pub mod Backup
use inite_auth_service.Common.{
  ℕ, String, List, [], ◌∷◌, Option, none, some, Bool, true, false, not, ◌&&◌, ◌||◌, length,
  if◌then◌else◌, truthy, truthy?, or_else, map, is_some,
}
use inite_auth_service.Common.Effect.{
  M, Result, pure, throw, ◌>>=◌, ◌>>◌, guard, lift_result, ok, err, bad_request, unauthorized,
  not_found, internal,
}
use inite_auth_service.FieldCrypto.{Aes, FieldCrypto, encrypt, decrypt, is_encrypted}
use inite_auth_service.Auth.{Account, account_by_id, update_account}

-- `countBackupCodes`
abbrev pub count_backup_codes : Option (List String) → ℕ
count_backup_codes none = 0
count_backup_codes (some codes) = length codes

pub record SecurityStatus : Type 0 where
  pub has_password : Bool
  pub two_factor_enabled : Bool
  pub email_verified : Bool
  pub backup_codes_remaining : ℕ

status_of : Option Account → Result SecurityStatus
status_of none = err (not_found "User not found")
status_of (some a) = ok (record {
  has_password = truthy? a.password_hash;
  two_factor_enabled = a.two_factor_enabled;
  email_verified = a.email_verified;
  backup_codes_remaining = count_backup_codes a.backup_codes;
})

-- The counts of passkeys and wallets, which are other tables, are left out.
pub get_security_status : String → M (List Account) SecurityStatus
unfolding status_of
get_security_status id accounts = (accounts, status_of (account_by_id id accounts))

-- The list without the first hash of the code, where there is one.
module _ (compare : String → String → Bool) where
  abbrev pub matches : String → String → Bool
  matches code hashed = truthy hashed && compare code hashed

  unfoldable pub take_code : String → List String → Option (List String)
  take_code code [] = none
  take_code code (hashed ∷ rest) =
      let others : Option (List String) = take_code code rest in
      if matches code hashed
      then some rest
      else elim others [ none ↦ none | some left ↦ some (hashed ∷ left) ]

abbrev pub with_codes : List String → Account → Account
with_codes codes a = record a { backup_codes = some codes }

module _ (aes : Aes) (crypto : FieldCrypto) (compare : String → String → Bool)
    (upper : String → String) (totp : String → String → Bool) where
  -- The password is asked for where there is one.
  check_password_of : Option String → String → M (List Account) (Unit {0})
  check_password_of none password = pure tt
  check_password_of (some hash) password =
      if truthy hash && not (compare password hash)
      then throw (unauthorized "" "Invalid password")
      else pure tt

  -- `codes` are the fresh codes that are drawn, `bcrypt` hashes them.
  regenerate_found :
      (String → String) → List String → Option Account → String → M (List Account) (List String)
  unfolding check_password_of
  regenerate_found bcrypt codes none password = throw (not_found "User not found")
  regenerate_found bcrypt codes (some a) password = do
    guard a.two_factor_enabled (bad_request "" "2FA is not enabled")
    check_password_of a.password_hash password
    _ ← update_account a.id (with_codes (map bcrypt codes))
    pure codes

  pub regenerate_backup_codes :
      (String → String) → List String → String → String → M (List Account) (List String)
  unfolding regenerate_found
  regenerate_backup_codes bcrypt codes id password accounts =
      regenerate_found bcrypt codes (account_by_id id accounts) password accounts

  setup_found : (iv secret : String) → Option Account → M (List Account) String
  setup_found iv secret none = throw (not_found "Identity not found")
  setup_found iv secret (some a) = do
    guard (not a.two_factor_enabled) (bad_request "" "2FA is already enabled")
    envelope ← lift_result (encrypt aes crypto iv secret)
    _ ← update_account a.id (λ row. record row { two_factor_secret = some envelope })
    pure secret

  -- The secret, which is drawn.
  pub setup_2fa : (iv secret : String) → String → M (List Account) String
  unfolding setup_found
  setup_2fa iv secret id accounts = setup_found iv secret (account_by_id id accounts) accounts

  -- `decrypt` passes null on, and the TOTP library throws on it.
  decrypt_held : Option String → Result String
  decrypt_held none = err (internal "TypeError")
  decrypt_held (some stored) = decrypt aes crypto stored

  abbrev secret_of : Account → String
  secret_of a = or_else a.two_factor_secret ""

  enable_found :
      (String → String) → List String → Option Account → String → M (List Account) (List String)
  unfolding decrypt_held
  enable_found bcrypt codes none code =
      throw (bad_request "" "2FA not set up. Please run setup first.")
  enable_found bcrypt codes (some a) code = do
    guard (truthy? a.two_factor_secret) (bad_request "" "2FA not set up. Please run setup first.")
    guard (not a.two_factor_enabled) (bad_request "" "2FA is already enabled")
    secret ← lift_result (decrypt_held a.two_factor_secret)
    guard (totp secret code) (bad_request "" "Invalid verification code")
    _ ←
        update_account a.id
          (λ row. record (with_codes (map bcrypt codes) row) { two_factor_enabled = true })
    pure codes

  pub enable_2fa :
      (String → String) → List String → String → String → M (List Account) (List String)
  unfolding enable_found
  enable_2fa bcrypt codes id code accounts =
      enable_found bcrypt codes (account_by_id id accounts) code accounts

  abbrev disabled : Account → Account
  disabled row = record row {
    two_factor_enabled = false;
    two_factor_secret = none;
    backup_codes = some [];
  }

  disable_found : Option Account → String → String → M (List Account) (Unit {0})
  unfolding check_password_of decrypt_held
  disable_found none code password = throw (not_found "User not found")
  disable_found (some a) code password = do
    guard a.two_factor_enabled (bad_request "" "2FA is not enabled")
    check_password_of a.password_hash password
    secret ← lift_result (decrypt_held a.two_factor_secret)
    guard (totp secret code) (bad_request "" "Invalid 2FA code")
    _ ← update_account a.id disabled
    pure tt

  pub disable_2fa : String → String → String → M (List Account) (Unit {0})
  unfolding disable_found
  disable_2fa id code password accounts =
      disable_found (account_by_id id accounts) code password accounts

  reencrypt_if_legacy : (iv : String) → String → String → M (List Account) (Unit {0})
  reencrypt_if_legacy iv id stored = if is_encrypted stored then pure tt else (do
    envelope ← lift_result (encrypt aes crypto iv stored)
    _ ← update_account id (λ row. record row { two_factor_secret = some envelope })
    pure tt)

  redeem_code : Account → Option (List String) → M (List Account) (Unit {0})
  redeem_code a none = throw (bad_request "" "Invalid verification code")
  redeem_code a (some left) = do _ ← update_account a.id (with_codes left); pure tt

  verify_secret : (iv : String) → Account → String → Result String → M (List Account) (Unit {0})
  unfolding reencrypt_if_legacy redeem_code
  verify_secret iv a code (err e) = throw e
  verify_secret iv a code (ok secret) =
      if totp secret code
      then reencrypt_if_legacy iv a.id (secret_of a)
      else redeem_code a (take_code compare (upper code) (or_else a.backup_codes []))

  verify_found : (iv : String) → Option Account → String → M (List Account) (Unit {0})
  unfolding verify_secret decrypt_held
  verify_found iv none code = throw (bad_request "" "2FA is not enabled for this user")
  verify_found iv (some a) code =
      if not a.two_factor_enabled || not (truthy? a.two_factor_secret)
      then throw (bad_request "" "2FA is not enabled for this user")
      else verify_secret iv a code (decrypt_held a.two_factor_secret)

  unfoldable pub verify_2fa : (iv : String) → String → String → M (List Account) (Unit {0})
  unfolding verify_found
  verify_2fa iv id code accounts = verify_found iv (account_by_id id accounts) code accounts
