-- ===== src/Auth/Tests.antt =====
-- Concrete runs of the sign-in services on one account.
use inite_auth_service.Common.{
  ℕ, String, List, [], ◌∷◌, Option, none, some, Bool, true, false, ◌≡◌, refl, ◌==◌, ◌≤◌, arith,
  select, not,
}
use Prim.Native.String.{◌++◌ as append}
use inite_auth_service.Common.Effect.{Fault, Result, ok, err, bad_request}
use inite_auth_service.Redis.Table.{Memory, table_redis}
use inite_auth_service.FieldCrypto.{FieldCrypto}
use inite_auth_service.Samples.{toy_aes}
use inite_auth_service.Auth.{
  Account, SignIn, new_account, account_by_email, account_by_id, has_account_id,
}
use inite_auth_service.Auth.Password.{account_locked}
use inite_auth_service.Auth.Password.Lockout.{login, miss-locks}
use inite_auth_service.Auth.Password.Success.{login-right}
use inite_auth_service.Auth.Magic.{MagicLink, Mailbox, verify_magic_link}
use inite_auth_service.Auth.Magic.Once.{verify_magic_link-once}
use inite_auth_service.Auth.Reset.{request_password_reset, reset_password}
use inite_auth_service.Auth.Reset.Once.{reset_password-request}
use inite_auth_service.Auth.Mfa.Backup.{acceptances, acceptances-bound}

abbrev hash_of : String → String
hash_of password = append "h:" password

abbrev matches_hash : String → String → Bool
matches_hash password hash = hash == hash_of password

-- Four misses, a second factor and one backup code.
abbrev ann_account : Account
ann_account = record (new_account "u1" "did:web:ann" (some "ann@example.com")) {
  email_verified = true;
  password_hash = some "h:secret";
  failed_login_count = 4;
  two_factor_secret = some "totp";
  two_factor_enabled = true;
  backup_codes = some ("h:A1" ∷ []);
}

abbrev site : SignIn Memory
site = record { accounts = ann_account ∷ []; server = []; log = [] }

abbrev token_of : Account → String
token_of a = a.did

abbrev iso_of : ℕ → String
iso_of t = "2026"

abbrev sample_login : ℕ → String → SignIn Memory → SignIn Memory × Result (Account × String)
sample_login now password w =
    login table_redis iso_of matches_hash token_of now "ann@example.com" password w

-- The fifth miss locks for a minute, the right password included.
miss-locks_example :
    (sample_login 30000 "secret" (sample_login 1000 "wrong" site).0).1 ≡ err account_locked
miss-locks_example =
    miss-locks table_redis iso_of matches_hash token_of 1000 30000 60000 "ann@example.com" "wrong"
      "secret" ann_account "h:secret" site refl refl refl refl refl refl refl (omega arith)

login-right_example :
    ((sample_login 1000 "secret" site).1 ≡ ok (ann_account, "did:web:ann"))
    × ((b : Account) × (account_by_email "ann@example.com"
            (sample_login 1000 "secret" site).0.accounts
          ≡ some b)
        × (b.failed_login_count ≡ 0)
        × (b.lockout_until ≡ none))
login-right_example =
    login-right table_redis iso_of matches_hash token_of 1000 "ann@example.com" "secret" ann_account
      "h:secret" site refl refl refl refl refl refl

abbrev ann_link : MagicLink
ann_link = record {
  id = "l1";
  token = "t1";
  email = "ann@example.com";
  user_id = some "u1";
  purpose = "login";
  expires_at = 900000;
  used = false;
  oauth_params = none;
}

abbrev mailbox : Mailbox
mailbox = record { links = ann_link ∷ []; accounts = ann_account ∷ [] }

verify_magic_link-once_example :
    (x : Fault) × ((verify_magic_link 3000 "u3" "did:3" "t1"
        (verify_magic_link 2000 "u2" "did:2" "t1" mailbox).0).1
      ≡ err x)
verify_magic_link-once_example =
    verify_magic_link-once 2000 3000 "u2" "did:2" "u3" "did:3" "t1" mailbox (omega arith)
      (omega arith)

abbrev never : String → Bool
never s = false

abbrev asked_accounts : List Account
asked_accounts =
    (request_password_reset hash_of 1000 "r1" "ann@example.com" none (ann_account ∷ [])).0

abbrev reset_at :
    ℕ → String → List Account → List Account × Result (Account × String × Option String)
reset_at now password accounts =
    reset_password hash_of now never hash_of token_of "r1" password accounts

reset_password-request_example :
    ((reset_at 2000 "better" asked_accounts).1
      ≡ ok (record ann_account { password_hash = some "h:better" }, "did:web:ann", none))
    × (account_by_id "u1" (reset_at 2000 "better" asked_accounts).0
        ≡ some (record ann_account { password_hash = some "h:better" }))
    × (select (λ b. not (has_account_id "u1" b)) (reset_at 2000 "better" asked_accounts).0 ≡ [])
    × ((reset_at 3000 "other" (reset_at 2000 "better" asked_accounts).0).1
        ≡ err (bad_request "" "Invalid reset token"))
reset_password-request_example =
    reset_password-request hash_of never hash_of token_of 1000 2000 3000 "r1" "ann@example.com"
      "better" "other" none ann_account (ann_account ∷ []) refl refl refl (omega arith) refl

abbrev no_totp : String → String → Bool
no_totp secret code = false

abbrev same_text : String → String
same_text s = s

abbrev keyless : FieldCrypto
keyless = record { key = none }

acceptances-bound_example :
    acceptances toy_aes keyless matches_hash same_text no_totp "iv" "u1"
      ("A1" ∷ "A1" ∷ [])
      (ann_account ∷ [])
    ≤ 1
acceptances-bound_example =
    acceptances-bound toy_aes keyless matches_hash same_text no_totp "iv" "u1" ("A1" ∷ "A1" ∷ [])
      (ann_account ∷ []) (λ s. refl, (λ s. refl, tt))
