-- ===== src/Codes.antt =====
-- src/oauth/oauth.service.ts and pkce.service.ts: authorization codes. `sha256` is SHA-256 in
-- base64url, `lane_flag` is CUSTOMER_LANE_ENABLED with the lane service there, and `parse_details` is
-- AuthorizationDetailsService.parse. The mail on a first consent is not modelled.
pub mod Framed
pub mod Exchange
pub mod Replay
mod Tests
use inite_auth_service.Common.{
  ℕ, String, List, [], ◌∷◌, ◌++◌, Option, none, some, Bool, true, false, not, ◌&&◌, ◌||◌, ◌==◌, ltb,
  nat_eq, ◌+◌, ◌*◌, if◌then◌else◌, or_else, find_first, count_where, update_where, any, select,
  includes, truthy, truthy?, is_text,
}
use inite_auth_service.Common.Effect.{
  M, pure, throw, read, ◌>>=◌, ◌>>◌, lift_result, bad_request, unauthorized, internal, Result, ok,
  err,
}
use inite_auth_service.Resource.{Runtime, ResourceBoundClient, assert_resource_allowed}
use inite_auth_service.Store.{
  Db, CodeRow, ClientRow, TokenRow, User, Detail, update_tokens, find_client,
}
use inite_auth_service.Grace.{IssuedTokens, erased, kept_pairs_in, revoke_at, erase_expired_replays}
use inite_auth_service.Lane.{LaneClient, LaneOrg, org_for, admit}
use inite_auth_service.Claims.{GenerateInput, lane_client}
use inite_auth_service.StepUp.{session_rank}
use inite_auth_service.Issuer.{Env, Request, generate_tokens}

unfoldable pub verify_code_challenge : (String → String) → String → String → String → Bool
verify_code_challenge sha256 verifier challenge method =
    if method == "plain"
    then verifier == challenge
    else if method == "S256"
    then sha256 verifier == challenge
    else false

-- The method is checked: any but the two is an error.
unfoldable pub generate_code_challenge : (String → String) → String → String → Result String
generate_code_challenge sha256 verifier method =
    if method == "plain"
    then ok verifier
    else if method == "S256"
    then ok (sha256 verifier)
    else err (internal "Unsupported code challenge method")

pub record CreateAuthorizationCodeInput : Type 0 where
  pub user : User
  pub client_id : String
  pub redirect_uri : String
  pub scope : String
  pub code_challenge : Option String
  pub code_challenge_method : Option String
  pub nonce : Option String
  pub acr_values : Option String
  pub amr : Option (List String)
  pub resource : Option String
  pub authorization_details : Option String
  pub organization : Option String
  pub customer : Option String

pub record ExchangeAuthorizationCodeInput : Type 0 where
  pub code : String
  pub client_id : String
  pub redirect_uri : String
  pub code_verifier : Option String

-- Ten minutes.
abbrev pub code_ttl_ms : ℕ
code_ttl_ms = 10 * 60 * 1000

abbrev pub has_code : String → CodeRow → Bool
has_code code row = row.code == code

-- `hasWalletGrant` of wallet-grant.ts
unfoldable pub has_wallet_grant : Option (List Detail) → Bool
has_wallet_grant none = false
has_wallet_grant (some details) = any (λ d. d.type_name == "inite_wallet") details

-- The rows that the claim of an exchange updates.
abbrev pub claimable : ℕ → ExchangeAuthorizationCodeInput → CodeRow → Bool
claimable now input row =
    has_code input.code row
    && row.client_id == input.client_id
    && row.redirect_uri == input.redirect_uri
    && not row.used
    && ltb now row.expires_at

abbrev pub mark_used : CodeRow → CodeRow
mark_used row = record row { used = true }

unfoldable pub update_codes : (CodeRow → Bool) → (CodeRow → CodeRow) → M Db ℕ
update_codes p f db = (record db { codes = update_where p f db.codes }, ok (count_where p db.codes))

unfoldable pub find_code : String → M Db (Option CodeRow)
find_code code db = (db, ok (find_first (has_code code) db.codes))

-- `authorizationCode.create`: the code is unique.
insert_code : CodeRow → M Db (Unit {0})
insert_code row db =
    if any (has_code row.code) db.codes
    then (db, err (internal "P2002"))
    else (record db { codes = db.codes ++ row ∷ [] }, ok tt)

abbrev pub of_person : CodeRow → TokenRow → Bool
of_person row r = r.user.id == row.user.id && r.client_id == row.client_id

abbrev requested : Option String → Option String
requested none = none
requested (some s) = if truthy s then some s else none

module _ (env : Env) (req : Request) (sha256 : String → String) where
  -- `codeTenant`, at the client row that `createAuthorizationCode` read.
  admitted : CreateAuthorizationCodeInput → LaneClient → Option LaneOrg → M Db (Option String)
  admitted input client none = pure client.company_id
  admitted input client (some org) = do
    _ ← admit input.user.id input.client_id org (or_else input.amr [])
    pure (some org.company_id)

  module _ (lower : String → String) (lane_flag : Bool)
      (parse_details : Option String → Result (Option (List Detail))) where
    unfoldable pub code_tenant :
        CreateAuthorizationCodeInput → Option ClientRow → M Db (Option String)
    unfolding admitted
    code_tenant input none = pure none
    code_tenant input (some client) = do
      org ← org_for lower lane_flag (lane_client client) input.organization input.customer
      admitted input (lane_client client) org

    passkey_checked : CreateAuthorizationCodeInput → Option (List Detail) → M Db (Unit {0})
    passkey_checked input details =
        if has_wallet_grant details && ltb (session_rank lower (or_else input.amr [])) 3
        then throw (
            unauthorized "insufficient_user_authentication"
              "Approving wallet access needs a passkey")
        else pure tt

    unfoldable pub code_row :
        CreateAuthorizationCodeInput → Option (List Detail) → Option String → CodeRow
    code_row input details company_id = record {
      code = req.secret;
      user = input.user;
      client_id = input.client_id;
      company_id = company_id;
      redirect_uri = input.redirect_uri;
      scope = some input.scope;
      code_challenge = input.code_challenge;
      code_challenge_method = input.code_challenge_method;
      nonce = input.nonce;
      acr_values = input.acr_values;
      resource = input.resource;
      details = details;
      amr = or_else input.amr [];
      expires_at = req.now + code_ttl_ms;
      used = false;
    }

    unfoldable pub create_authorization_code : CreateAuthorizationCodeInput → M Db String
    unfolding passkey_checked insert_code
    create_authorization_code input = do
      client ← find_client input.client_id
      details ← lift_result (parse_details input.authorization_details)
      passkey_checked input details
      company_id ← code_tenant input client
      insert_code (code_row input details company_id)
      pure req.secret

  revoke_replayed : Option CodeRow → M Db (Unit {0})
  revoke_replayed none = pure tt
  revoke_replayed (some row) = if not row.used then pure tt else do
    _ ← update_tokens (λ r. of_person row r && not r.revoked) (revoke_at req.now)
    _ ← update_tokens (kept_pairs_in (of_person row)) erased
    pure tt

  -- `handleCodeClaimFailure`: a code that is used already is a replay.
  unfoldable pub handle_code_claim_failure : String → M Db (Unit {0})
  unfolding revoke_replayed
  handle_code_claim_failure code = do
    replay ← find_code code
    revoke_replayed replay
    throw (bad_request "" "Invalid or expired authorization code")

  unfoldable pub check_verifier : CodeRow → Option String → Result (Unit {0})
  check_verifier row verifier =
      if not (truthy? row.code_challenge)
      then ok tt
      else if not (truthy? verifier)
      then err (bad_request "" "Code verifier required")
      else if not (
          verify_code_challenge sha256 (or_else verifier "") (or_else row.code_challenge "")
            (or_else (requested row.code_challenge_method) "S256"))
      then err (bad_request "" "Invalid code verifier")
      else ok tt

  module _ (js : Runtime) (registry : String) where
    audience_of : String → Option ClientRow → String → Result (Option String)
    audience_of client_id client resource =
        let allowed : List String = elim client [ none ↦ [] | some c ↦ c.allowed_audiences ] in
        let bound : ResourceBoundClient = record {
          client_id = client_id;
          is_public = elim client [ none ↦ none | some c ↦ some c.is_public ];
          allowed_audiences = some allowed;
          redirect_uris = some (elim client [ none ↦ [] | some c ↦ c.redirect_uris ]);
        } in
        if any (λ a. true) allowed && not (includes allowed resource)
        then err (bad_request "" "Resource is not allowed for this client")
        else elim (assert_resource_allowed js registry bound (some resource)) [
          | ok u ↦ ok (some resource)
          | err e ↦ err e
        ]

    -- `resolveCodeAudience`
    unfoldable pub resolve_code_audience : String → Option String → M Db (Option String)
    unfolding audience_of
    resolve_code_audience client_id none = pure none
    resolve_code_audience client_id (some resource) =
        if not (truthy resource)
        then pure none
        else do client ← find_client client_id; lift_result (audience_of client_id client resource)

    unfoldable pub exchange_input : String → CodeRow → Option String → GenerateInput
    exchange_input client_id row audience = record {
      user = row.user;
      client_id = client_id;
      scope = or_else row.scope "";
      rotated_from = none;
      nonce = row.nonce;
      amr = some row.amr;
      acr = row.acr_values;
      audience = audience;
      details = row.details;
      tenant = row.company_id;
    }

    pub redeem : ExchangeAuthorizationCodeInput → Option CodeRow → M Db IssuedTokens
    redeem input none = throw (bad_request "" "Authorization code not found after claim")
    redeem input (some row) = do
      lift_result (check_verifier row input.code_verifier)
      audience ← resolve_code_audience input.client_id row.resource
      generate_tokens env req (exchange_input input.client_id row audience) none

    unfoldable pub exchange_authorization_code : ExchangeAuthorizationCodeInput → M Db IssuedTokens
    unfolding redeem
    exchange_authorization_code input = do
      claimed ← update_codes (claimable req.now input) mark_used
      if nat_eq claimed 1 then pure tt else handle_code_claim_failure input.code
      row ← find_code input.code
      redeem input row

abbrev expired : ℕ → ℕ → Bool
expired now expires_at = ltb expires_at now

delete_expired : ℕ → M Db (Unit {0})
delete_expired now db = (
  record db {
    codes = select (λ (r : CodeRow). not (expired now r.expires_at)) db.codes;
    tokens = select (λ (r : TokenRow). not (expired now r.expires_at)) db.tokens;
  },
  ok tt,
)

-- `cleanupExpired`, every hour.
unfoldable pub cleanup_expired : ℕ → M Db ℕ
unfolding delete_expired
cleanup_expired now = do delete_expired now; erase_expired_replays now
