-- ===== src/Auth.antt =====
-- src/auth and src/identity: signing in. The rows of prisma/schema.prisma that these services read
-- and write, with the columns they use. The state also holds the Redis server, of any type.
pub mod Otp
pub mod Rows
mod Tests
pub mod Password
pub mod Magic
pub mod Reset
pub mod Mfa
use inite_auth_service.Common.{
  ℕ, String, List, [], ◌∷◌, ◌++◌, Option, none, some, Bool, true, false, ◌==◌, is_text,
  update_where, find_first, any, ◌||◌, if◌then◌else◌,
}
use inite_auth_service.Common.Effect.{M, ok, err, internal}

pub record Account : Type 0 where
  pub id : String
  pub did : String
  pub email : Option String
  pub email_verified : Bool
  pub name : Option String
  pub password_hash : Option String
  pub failed_login_count : ℕ
  pub lockout_until : Option ℕ
  pub reset_token : Option String
  pub reset_expires : Option ℕ
  pub reset_params : Option String
  pub two_factor_secret : Option String
  pub two_factor_enabled : Bool
  -- `metadata.backupCodes`, none where that is no array
  pub backup_codes : Option (List String)

abbrev pub has_account_id : String → Account → Bool
has_account_id id a = a.id == id

abbrev pub has_email : String → Account → Bool
has_email email a = is_text a.email email

-- `user.findUnique` by id and by email
abbrev pub account_by_id : String → List Account → Option Account
account_by_id id accounts = find_first (has_account_id id) accounts

abbrev pub account_by_email : String → List Account → Option Account
account_by_email email accounts = find_first (has_email email) accounts

-- `user.update` of the row with that id, and the row as it then is
unfoldable pub update_account : String → (Account → Account) → M (List Account) Account
update_account id f accounts = elim (account_by_id id accounts) [
  | none ↦ (accounts, err (internal "P2025"))
  | some a ↦ (update_where (has_account_id id) f accounts, ok (f a))
]

-- IdentityService.createIdentity: the id and the DID are drawn.
abbrev pub new_account : (id did : String) → Option String → Account
new_account id did email = record {
  id = id;
  did = did;
  email = email;
  email_verified = false;
  name = none;
  password_hash = none;
  failed_login_count = 0;
  lockout_until = none;
  reset_token = none;
  reset_expires = none;
  reset_params = none;
  two_factor_secret = none;
  two_factor_enabled = false;
  backup_codes = none;
}

unfoldable pub create_identity : (id did : String) → String → M (List Account) Account
create_identity id did email accounts =
    if any (λ a. has_account_id id a || has_email email a || a.did == did) accounts
    then (accounts, err (internal "P2002"))
    else (accounts ++ new_account id did (some email) ∷ [], ok (new_account id did (some email)))

-- What the sign-in services write to metrics, to the audit log and by mail.
pub data SecurityEvent : Type 0 where
  login_attempt : (result : String) → SecurityEvent
  login_audit : (event : String) (did : String) (success : Bool) → SecurityEvent
  account_lockout : SecurityEvent
  locked_mail : (email : String) (until : ℕ) → SecurityEvent
  threshold_mail : (email : String) (attempts : ℕ) → SecurityEvent

pub record SignIn {ℓ} (S : Type ℓ) : Type ℓ where
  pub accounts : List Account
  pub server : S
  pub log : List SecurityEvent

module _ {ℓ κ} {S : Type ℓ} {A : Type κ} where
  abbrev pub on_accounts : M (List Account) A → M (SignIn S) A
  on_accounts m w = (record w { accounts = (m w.accounts).0 }, (m w.accounts).1)

  abbrev pub on_server : M S A → M (SignIn S) A
  on_server m w = (record w { server = (m w.server).0 }, (m w.server).1)

abbrev pub note {ℓ} : {S : Type ℓ} → SecurityEvent → M (SignIn S) (Unit {0})
note e w = (record w { log = w.log ++ e ∷ [] }, ok tt)

abbrev pub with_verified_email : Account → Account
with_verified_email a = record a { email_verified = true }
