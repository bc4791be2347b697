-- ===== src/Auth/Mfa/Backup.antt =====
-- A backup code is spent when it is taken.
use inite_auth_service.Common.{
  ℕ, suc, String, List, [], ◌∷◌, Option, none, some, Bool, false, ◌≡◌, refl, ◌≤◌, ◌+◌, not, ◌||◌,
  Bool-cases, Option-cases, inl, inr, arith, ap, ◌∙◌, length, truthy?, or_else, All,
  find_first-passes, eq_iff,
}
use inite_auth_service.Common.Effect.{Result, ok, err, ◌>>=◌}
use inite_auth_service.FieldCrypto.{Aes, FieldCrypto}
use inite_auth_service.Auth.{Account, account_by_id, has_account_id}
use inite_auth_service.Auth.Rows.{find-update, update_account-found}
use inite_auth_service.Auth.Mfa.{
  count_backup_codes, take_code, matches, with_codes, decrypt_held, redeem_code, verify_secret,
  verify_found, verify_2fa,
}

pub length-take_code :
    (compare : String → String → Bool) (code : String) (codes left : List String)
    → take_code compare code codes ≡ some left
    → length codes ≡ suc (length left)
unfolding take_code
length-take_code compare code [] left h = cc
length-take_code compare code (hashed ∷ rest) left h =
    elim (Bool-cases (matches compare code hashed)) [
      | inl hit ↦ let same : rest ≡ left = cc (rw hit at h) in ap (λ l. suc (length l)) same
      | inr miss ↦ elim (Option-cases (take_code compare code rest)) [
        | inl gone ↦ absurd (apart (rw gone at rw miss at h))
        | inr (fewer, e) ↦
            let same : (hashed ∷ fewer) ≡ left = cc (rw e at rw miss at h) in
            ap suc (length-take_code compare code rest fewer e) ∙ ap (λ l. suc (length l)) same
      ]
    ]
  where
    apart : none ≡ some left → ⊥
    apart k = cc

abbrev pub accepted : Result (Unit {0}) → ℕ
accepted (ok u) = 1
accepted (err e) = 0

abbrev codes_of : Option Account → ℕ
codes_of none = 0
codes_of (some a) = count_backup_codes a.backup_codes

-- How many backup codes the person has.
abbrev pub codes_left : String → List Account → ℕ
codes_left id accounts = codes_of (account_by_id id accounts)

module _ (aes : Aes) (crypto : FieldCrypto) (compare : String → String → Bool)
    (upper : String → String) (totp : String → String → Bool) (iv id : String) where
  -- An answer that takes one code for one acceptance.
  abbrev Spends : List Account → List Account × Result (Unit {0}) → Type 0
  Spends accounts out = codes_left id accounts ≡ accepted out.1 + codes_left id out.0

  redeem_code-Spends :
      (a : Account) (code : String) (accounts : List Account)
      → account_by_id id accounts ≡ some a
      → a.id ≡ id
      → Spends accounts (
          redeem_code aes crypto compare upper totp a
            (take_code compare code (or_else a.backup_codes []))
            accounts)
  unfolding redeem_code
  redeem_code-Spends a code accounts found same =
      elim (Option-cases (take_code compare code (or_else a.backup_codes []))) [
        | inl gone ↦ rw gone (omega arith)
        | inr (left, e) ↦
            let named : account_by_id a.id accounts ≡ some a =
              ap (λ i. account_by_id i accounts) same ∙ found in
            let stored = update_account-found a.id (with_codes left) a accounts named in
            let after =
              find-update (has_account_id a.id) (has_account_id id) (with_codes left) a accounts
                named found refl in
            rw e (
              rw (stored, ◌>>=◌)
                (rw stored (
                  rw found (
                    rw after (
                      spent a.backup_codes left
                        (length-take_code compare code (or_else a.backup_codes []) left e))))))
      ]
    where
      spent :
          (codes : Option (List String)) (left : List String)
          → length (or_else codes []) ≡ suc (length left)
          → count_backup_codes codes ≡ 1 + length left
      spent none left h = omega arith
      spent (some codes) left h = omega arith

  -- The authenticator accepts the code under no secret.
  abbrev pub Refuses : String → Type 0
  Refuses code = (secret : String) → totp secret code ≡ false

  secret-Spends :
      (a : Account) (code : String) (secret : Result String) (accounts : List Account)
      → Refuses code
      → account_by_id id accounts ≡ some a
      → Spends accounts (verify_secret aes crypto compare upper totp iv a code secret accounts)
  unfolding verify_secret
  secret-Spends a code (err e) accounts refuses found = omega arith
  secret-Spends a code (ok secret) accounts refuses found = rw (refuses secret) (
      redeem_code-Spends a (upper code) accounts found
        ((eq_iff a.id id).0 (find_first-passes (has_account_id id) accounts a found)))

  found-Spends :
      (found : Option Account) (code : String) (accounts : List Account)
      → Refuses code
      → account_by_id id accounts ≡ found
      → Spends accounts (verify_found aes crypto compare upper totp iv found code accounts)
  unfolding verify_found
  found-Spends none code accounts refuses h = omega arith
  found-Spends (some a) code accounts refuses h =
      elim (Bool-cases (not a.two_factor_enabled || not (truthy? a.two_factor_secret))) [
        | inl off ↦ rw off (omega arith)
        | inr on ↦ rw on (
            secret-Spends a code (decrypt_held aes crypto compare upper totp a.two_factor_secret)
              accounts refuses h)
      ]

  -- Codes one after the other: how many are accepted.
  abbrev pub acceptances : List String → List Account → ℕ
  acceptances [] accounts = 0
  acceptances (code ∷ codes) accounts =
      accepted (verify_2fa aes crypto compare upper totp iv id code accounts).1
      + acceptances codes (verify_2fa aes crypto compare upper totp iv id code accounts).0

  -- Of any sequence of codes that the authenticator accepts under no secret, the second factor accepts
  -- at most as many as the person had backup codes.
  pub acceptances-bound :
      (codes : List String) (accounts : List Account)
      → All Refuses codes
      → acceptances codes accounts ≤ codes_left id accounts
  unfolding verify_2fa
  acceptances-bound [] accounts refused = omega arith
  acceptances-bound (code ∷ codes) accounts (refuses, rest) = omega (
    arith,
    found-Spends (account_by_id id accounts) code accounts refuses refl,
    acceptances-bound codes (verify_2fa aes crypto compare upper totp iv id code accounts).0 rest,
  )
