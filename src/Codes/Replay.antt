-- ===== src/Codes/Replay.antt =====
-- A used code that comes back, and the verifier of PKCE.
use inite_auth_service.Common.{
  ℕ, String, List, [], ◌∷◌, some, Bool, true, false, not, ◌&&◌, ◌||◌, nat_eq, ◌≡◌, ◌≢◌, inl, inr,
  or_else, find_first, count_where, update_where, any, truthy?, refl, arith, Bool-cases, ap, sym,
  is_some, subst,
}
use inite_auth_service.Common.Effect.{◌>>=◌, ◌>>◌, Fault, ok, err}
use inite_auth_service.Resource.{Runtime}
use inite_auth_service.Store.{Db, CodeRow, TokenRow, update_tokens}
use inite_auth_service.Grace.{IssuedTokens, erased, kept_pairs_in, revoke_at}
use inite_auth_service.Issuer.{Env, Request}
use inite_auth_service.Codes.{
  ExchangeAuthorizationCodeInput, has_code, claimable, mark_used, update_codes, find_code,
  of_person, handle_code_claim_failure, revoke_replayed, check_verifier, redeem,
  exchange_authorization_code, verify_code_challenge, requested,
}
use inite_auth_service.Common.Effect.Runs.{Result-cases}
use inite_auth_service.Codes.Exchange.{fail, claim_failed, claimed, exchange-unclaimed}

not_ok : (x : Fault) (tokens : IssuedTokens) → err x ≡ ok tokens → ⊥
not_ok x tokens h = cc

abbrev unsafe_token : CodeRow → TokenRow → Bool
unsafe_token row r = of_person row r && (not r.revoked || is_some r.grace_replay)

abbrev ended_rows : ℕ → CodeRow → List TokenRow → List TokenRow
ended_rows now row rows =
    update_where (kept_pairs_in (of_person row)) erased
      (update_where (λ r. of_person row r && not r.revoked) (revoke_at now) rows)

ended :
    (now : ℕ) (row : CodeRow) (rows : List TokenRow)
    → any (unsafe_token row) (ended_rows now row rows) ≡ false
ended now row [] = refl
ended now row (r ∷ rows) = ground (arith, ended now row rows)

used_stays :
    (now : ℕ) (input : ExchangeAuthorizationCodeInput) (row : CodeRow) (rows : List CodeRow)
    → row.used ≡ true
    → find_first (has_code input.code) rows ≡ some row
    → find_first (has_code input.code) (update_where (claimable now input) mark_used rows)
      ≡ some row
used_stays now input row [] used found = found
used_stays now input row (r ∷ rows) used found = elim (Bool-cases (has_code input.code r)) [
  | inl e ↦
      let same : r ≡ row = some-inj (rw e at found) in
      rw (subst (λ x. claimable now input x ≡ false) (sym same) (dead row used))
        (rw e (ap some same))
  | inr e ↦ rw e (rw e (used_stays now input row rows used (rw e at found)))
]
  where
    some-inj : {a b : CodeRow} → some a ≡ some b → a ≡ b
    some-inj h = cc

    dead : (x : CodeRow) → x.used ≡ true → claimable now input x ≡ false
    dead x h = ground arith

module _ (env : Env) (req : Request) (sha256 : String → String) (js : Runtime) (registry : String)
    (input : ExchangeAuthorizationCodeInput) (db : Db) where
  abbrev Verifies : CodeRow → Type 0
  Verifies row =
      verify_code_challenge sha256 (or_else input.code_verifier "") (or_else row.code_challenge "")
        (or_else (requested row.code_challenge_method) "S256")
      ≡ true

  revoked-tokens :
      (row : CodeRow) (d : Db)
      → row.used ≡ true
      → ((revoke_replayed env req sha256 (some row) >> fail) d).0.tokens
        ≡ ended_rows req.now row d.tokens
  unfolding revoke_replayed update_tokens
  revoked-tokens row d used = simp used

  family-gone :
      (row : CodeRow)
      → find_first (has_code input.code) db.codes ≡ some row
      → row.used ≡ true
      → any
          (unsafe_token row)
          (handle_code_claim_failure env req sha256 input.code
            (claimed env sha256 js registry input req db)).0.tokens
        ≡ false
  unfolding handle_code_claim_failure find_code
  family-gone row found used = rw (used_stays req.now input row db.codes used found) (
      rw (revoked-tokens row (claimed env sha256 js registry input req db) used)
        (ended req.now row db.tokens))

  -- A used code that is presented again, in an exchange that does not claim exactly one row, is a
  -- theft: the exchange is refused, and no refresh token of that person and client stays unrevoked or
  -- keeps a pair.
  pub exchange-replay :
      (row : CodeRow)
      → find_first (has_code input.code) db.codes ≡ some row
      → row.used ≡ true
      → count_where (claimable req.now input) db.codes ≢ 1
      → ((exchange_authorization_code env req sha256 js registry input db).1 ≡ err claim_failed)
        × (any
              (unsafe_token row)
              (exchange_authorization_code env req sha256 js registry input db).0.tokens
            ≡ false)
  exchange-replay row found used n =
      rw (exchange-unclaimed env sha256 js registry input req db n)
        (refl, family-gone row found used)

  exchange-claimed :
      count_where (claimable req.now input) db.codes ≡ 1
      → exchange_authorization_code env req sha256 js registry input db
        ≡ redeem env req sha256 js registry input
            (find_first (has_code input.code) (claimed env sha256 js registry input req db).codes)
            (claimed env sha256 js registry input req db)
  unfolding exchange_authorization_code update_codes find_code
  exchange-claimed one = rw one refl

  meets_challenge :
      (row : CodeRow)
      → check_verifier env req sha256 row input.code_verifier ≡ ok tt
      → truthy? row.code_challenge ≡ true
      → Verifies row
  unfolding check_verifier
  meets_challenge row passed challenge = ground arith

  redeem-Verifies :
      (tokens : IssuedTokens) (row : CodeRow) (d : Db)
      → (redeem env req sha256 js registry input (some row) d).1 ≡ ok tokens
      → truthy? row.code_challenge ≡ true
      → Verifies row
  unfolding redeem
  redeem-Verifies tokens row d issued challenge =
      elim (Result-cases (check_verifier env req sha256 row input.code_verifier)) [
        | inl (u, e) ↦ meets_challenge row e challenge
        | inr (x, e) ↦ absurd (not_ok x tokens (rw (e, ◌>>◌, ◌>>=◌) at issued))
      ]

  -- Tokens are issued for a code with a challenge only against a verifier that meets it, under the
  -- method of the code, S256 where it has none.
  pub exchange-pkce :
      (tokens : IssuedTokens)
      → (exchange_authorization_code env req sha256 js registry input db).1 ≡ ok tokens
      → (row : CodeRow)
      → find_first (has_code input.code) (claimed env sha256 js registry input req db).codes
        ≡ some row
      → truthy? row.code_challenge ≡ true
      → Verifies row
  exchange-pkce tokens issued row found challenge =
      elim (Bool-cases (nat_eq (count_where (claimable req.now input) db.codes) 1)) [
        | inl one ↦
            redeem-Verifies tokens row (claimed env sha256 js registry input req db)
              (rw found at rw (exchange-claimed (ground arith)) at issued) challenge
        | inr n ↦ absurd (
            not_ok claim_failed tokens (
              rw (exchange-unclaimed env sha256 js registry input req db (ground arith)) at issued))
      ]
