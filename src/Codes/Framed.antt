-- ===== src/Codes/Framed.antt =====
-- After the claim, an exchange writes no code.
use inite_auth_service.Common.{
  String, Option, none, some, Bool, true, false, not, ◌≡◌, inl, inr, if◌then◌else◌, find_first, any,
  truthy, refl, Bool-cases, ◌∙◌,
}
use inite_auth_service.Common.Effect.Runs.{Result-cases}
use inite_auth_service.Common.Effect.{
  M, pure, throw, ◌>>=◌, lift_result, bad_request, Result, ok, err,
}
use inite_auth_service.Resource.{Runtime}
use inite_auth_service.Store.{
  Db, CodeRow, TokenRow, create_token, clashes, find_client, update_tokens,
}
use inite_auth_service.Claims.{GenerateInput}
use inite_auth_service.Issuer.{
  Env, Request, generate_tokens, persist_refresh_token, refresh_row, issued_for,
}
use inite_auth_service.Codes.{
  ExchangeAuthorizationCodeInput, has_code, find_code, handle_code_claim_failure, revoke_replayed,
  check_verifier, resolve_code_audience, redeem,
}

module _ {ℓ} {A : Type ℓ} where
  -- It writes no code.
  pub record Framed (m : M Db A) : Type 0 where
    pub codes_same : (db : Db) → (m db).0.codes ≡ db.codes

  pub still : (r : Result A) → Framed (lift_result r)
  still r = record { codes_same = λ db. refl }

  pub if-Framed : (b : Bool) (m n : M Db A) → Framed m → Framed n → Framed (if b then m else n)
  if-Framed true m n q r = q
  if-Framed false m n q r = r

module _ {ℓ κ} {A : Type ℓ} {B : Type κ} where
  pub bind-Framed :
      (m : M Db A) (k : A → M Db B) → Framed m → ((a : A) → Framed (k a)) → Framed (m >>= k)
  bind-Framed m k q r = record {
    codes_same = λ db. elim (Result-cases (m db).1) [
      | inl (a, e) ↦ rw (e, ◌>>=◌) ((r a).codes_same (m db).0 ∙ q.codes_same db)
      | inr (x, e) ↦ rw (e, ◌>>=◌) (q.codes_same db)
    ];
  }

create-Framed : (row : TokenRow) → Framed (create_token row)
unfolding create_token
create-Framed row = record {
  codes_same = λ db. elim (Bool-cases (any (clashes row) db.tokens)) [
    | inl e ↦ rw e refl
    | inr e ↦ rw e refl
  ];
}

update-Framed : (p : TokenRow → Bool) (f : TokenRow → TokenRow) → Framed (update_tokens p f)
unfolding update_tokens
update-Framed p f = record { codes_same = λ db. refl }

module _ (env : Env) (req : Request) (sha256 : String → String) where
  generate-Framed : (input : GenerateInput) → Framed (generate_tokens env req input none)
  unfolding generate_tokens persist_refresh_token
  generate-Framed input = record {
    codes_same = λ db.
        (bind-Framed (create_token (refresh_row env req db input (issued_for env req db input)))
            (λ u. pure (issued_for env req db input)) (create-Framed _)
            (λ u. still (ok (issued_for env req db input)))).codes_same
          db;
  }

  revoke-Framed : (row : Option CodeRow) → Framed (revoke_replayed env req sha256 row)
  unfolding revoke_replayed
  revoke-Framed none = still (ok tt)
  revoke-Framed (some row) = if-Framed _ _ _ (still (ok tt)) (
      bind-Framed _ _ (update-Framed _ _)
        (λ n. bind-Framed _ _ (update-Framed _ _) (λ k. still (ok tt))))

  pub failure-Framed : (code : String) → Framed (handle_code_claim_failure env req sha256 code)
  unfolding handle_code_claim_failure find_code
  failure-Framed code = record {
    codes_same = λ db.
        (bind-Framed (revoke_replayed env req sha256 (find_first (has_code code) db.codes))
            (λ u. throw (bad_request "" "Invalid or expired authorization code")) (revoke-Framed _)
            (λ u. still (err _))).codes_same
          db;
  }

  module _ (js : Runtime) (registry : String) where
    audience-Framed :
        (client_id : String) (resource : Option String)
        → Framed (resolve_code_audience env req sha256 js registry client_id resource)
    unfolding resolve_code_audience find_client
    audience-Framed client_id none = still (ok none)
    audience-Framed client_id (some resource) =
        if-Framed (not (truthy resource)) _ _ (still (ok none)) (record { codes_same = λ db. refl })

    pub redeem-Framed :
        (input : ExchangeAuthorizationCodeInput) (row : Option CodeRow)
        → Framed (redeem env req sha256 js registry input row)
    unfolding redeem
    redeem-Framed input none = still (err _)
    redeem-Framed input (some row) =
        bind-Framed _ _ (still (check_verifier env req sha256 row input.code_verifier)) (λ u.
          bind-Framed _ _ (audience-Framed input.client_id row.resource)
            (λ audience. generate-Framed _))
