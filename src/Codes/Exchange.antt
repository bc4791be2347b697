-- ===== src/Codes/Exchange.antt =====
-- What the exchange of a code does to the codes, and who may exchange.
use inite_auth_service.Common.{
  nat_eq-false, ℕ, String, List, [], ◌∷◌, Option, none, some, Bool, true, false, not, nat_eq, ◌≤◌,
  ◌≡◌, ◌≢◌, inl, inr, if◌then◌else◌, find_first, count_where, update_where, any, refl, arith,
  Bool-cases, ap, count-none,
}
use inite_auth_service.Common.Effect.{M, pure, throw, ◌>>=◌, ◌>>◌, bad_request, Fault, ok, err}
use inite_auth_service.Resource.{Runtime}
use inite_auth_service.Store.{Db, CodeRow, update_tokens}
use inite_auth_service.Issuer.{Env, Request}
use inite_auth_service.Codes.{
  ExchangeAuthorizationCodeInput, has_code, claimable, mark_used, update_codes, find_code,
  handle_code_claim_failure, revoke_replayed, redeem, exchange_authorization_code,
}
use inite_auth_service.Codes.Framed.{bind-Framed, if-Framed, still, redeem-Framed, failure-Framed}

abbrev pub claim_failed : Fault
claim_failed = bad_request "" "Invalid or expired authorization code"

abbrev pub fail : M Db (Unit {0})
fail = throw claim_failed

refused :
    (b : Bool) (m : M Db (Unit {0}))
    → ((d : Db) → (m d).1 ≡ ok tt)
    → (d : Db) → (((if b then pure tt else m) >> fail) d).1 ≡ err claim_failed
refused true m q d = refl
refused false m q d = rw (q d, ◌>>◌, ◌>>=◌) refl

-- What is claimed is claimable no more, at any later time.
spent :
    (input : ExchangeAuthorizationCodeInput) (now later : ℕ) (rows : List CodeRow)
    → now ≤ later
    → any (claimable later input) (update_where (claimable now input) mark_used rows) ≡ false
spent input now later [] order = refl
spent input now later (r ∷ rows) order = elim (Bool-cases (claimable now input r)) [
  | inl e ↦ rw e (ground (arith, spent input now later rows order))
  | inr e ↦ rw e (ground (arith, e, spent input now later rows order))
]

module _ (env : Env) (sha256 : String → String) (js : Runtime) (registry : String)
    (input : ExchangeAuthorizationCodeInput) where
  module _ (req : Request) (db : Db) where
    abbrev pub claimed : Db
    claimed = record db { codes = update_where (claimable req.now input) mark_used db.codes }

    exchange-codes :
        (exchange_authorization_code env req sha256 js registry input db).0.codes ≡ claimed.codes
    unfolding exchange_authorization_code update_codes find_code
    exchange-codes =
        (bind-Framed
            (if nat_eq (count_where (claimable req.now input) db.codes) 1
              then pure tt
              else handle_code_claim_failure env req sha256 input.code)
            (λ u. find_code input.code >>= redeem env req sha256 js registry input)
            (if-Framed _ _ _ (still (ok tt)) (failure-Framed env req sha256 input.code))
            (λ u.
              bind-Framed (find_code input.code) (redeem env req sha256 js registry input)
                (record { codes_same = λ d. refl })
                (redeem-Framed env req sha256 js registry input))).codes_same
          claimed

    replay-err :
        (row : Option CodeRow) (d : Db)
        → ((revoke_replayed env req sha256 row >> fail) d).1 ≡ err claim_failed
    unfolding revoke_replayed update_tokens
    replay-err none d = refl
    replay-err (some row) d = refused (not row.used) _ (λ e. refl) d

    failure-err :
        (code : String) (d : Db)
        → (handle_code_claim_failure env req sha256 code d).1 ≡ err claim_failed
    unfolding handle_code_claim_failure find_code
    failure-err code d = replay-err (find_first (has_code code) d.codes) d

    pub exchange-unclaimed :
        count_where (claimable req.now input) db.codes ≢ 1
        → exchange_authorization_code env req sha256 js registry input db
          ≡ ((handle_code_claim_failure env req sha256 input.code claimed).0, err claim_failed)
    unfolding exchange_authorization_code update_codes
    exchange-unclaimed n =
        rw (nat_eq-false _ _ n) (rw (failure-err input.code claimed, ◌>>◌, ◌>>=◌) refl)

  -- A code is exchanged once: after an exchange, however it ended, the same exchange at any later time
  -- is refused.
  pub exchange-once :
      (first second : Request) (db : Db)
      → first.now ≤ second.now
      → (exchange_authorization_code env second sha256 js registry input
          (exchange_authorization_code env first sha256 js registry input db).0).1
        ≡ err claim_failed
  exchange-once first second db order =
      ap (λ out. out.1)
        (exchange-unclaimed second
          (exchange_authorization_code env first sha256 js registry input db).0 (none_left _ gone))
    where
      none_left : (n : ℕ) → n ≡ 0 → n ≢ 1
      none_left n zeroed one = omega (arith, zeroed, one)

      gone :
          count_where
            (claimable second.now input)
            (exchange_authorization_code env first sha256 js registry input db).0.codes
          ≡ 0
      gone =
          count-none (claimable second.now input)
            (exchange_authorization_code env first sha256 js registry input db).0.codes
            (rw (exchange-codes first db) (spent input first.now second.now db.codes order))
