-- ===== src/Issuer.antt =====
-- src/oauth/oauth-token-issuer.service.ts: issuing tokens, the gated insert of the refresh token, and
-- revocation. The HMAC, the signer of JWTs and the ambient request are parameters; a request reads
-- the clock once.
pub mod Insert
use inite_auth_service.Common.{
  ℕ, String, List, [], ◌∷◌, Option, none, some, Bool, true, false, not, ◌&&◌, ◌||◌, ◌+◌, ◌*◌, ◌==◌,
  if◌then◌else◌, or_else, find_first, is_text, is_some,
}
use inite_auth_service.Common.Effect.{M, pure, read, ◌>>=◌, ◌>>◌, transaction, Result, ok, err}
use inite_auth_service.FieldCrypto.{Aes, FieldCrypto}
use inite_auth_service.Store.{
  Db, User, TokenRow, ClientRow, Organization, Detail, create_token, update_tokens, find_token,
  log_event, token_revoked, has_lookup,
}
use inite_auth_service.Grace.{
  Json, IssuedTokens, expiry_seconds, setting_value, revoke_at, erased, kept_pairs_around,
}
use inite_auth_service.Lane.{token_tenant}
use inite_auth_service.Claims.{
  GenerateInput, AccessClaims, IdClaims, OrgContext, resolve_org_context, build_access_token,
  build_id_token, if_any, lane_client, map_option,
}

-- What the issuer is built with, and what the runtime gives it. `hmac` is HMAC-SHA256 under the
-- refresh-token secret, in base64url.
pub record Env : Type 0 where
  pub hmac : String → String
  pub sign_access : AccessClaims → String
  pub sign_id : IdClaims → String
  pub setting : String → Option String
  pub jwt_issuer : String
  pub act_for : GenerateInput → Option String
  pub provision : GenerateInput → Option Organization
  pub crypto : Option FieldCrypto
  pub aes : Aes
  pub json : Json
  pub ssf_on : Bool
  pub audit_on : Bool

-- What a request brings: the time, the device, and its random values (the refresh token, the row's
-- id and the IV).
pub record Request : Type 0 where
  pub now : ℕ
  pub ip : Option String
  pub user_agent : Option String
  pub secret : String
  pub row_id : String
  pub iv : String

-- Seven days.
abbrev pub refresh_ttl_ms : ℕ
refresh_ttl_ms = 7 * 86400 * 1000

module _ (env : Env) (req : Request) where
  pub access_token_ttl : ℕ
  access_token_ttl = expiry_seconds (setting_value env.setting "JWT_ACCESS_TOKEN_EXPIRY" "10m") 600

  pub rbac_on : Bool
  rbac_on = is_text (env.setting "RBAC_TOKEN_CLAIMS_ENABLED") "true"

  unfoldable pub issued_for : Db → GenerateInput → IssuedTokens
  unfolding access_token_ttl rbac_on
  issued_for db input =
      let resolved : OrgContext = resolve_org_context rbac_on env.provision db input in
      let ctx : OrgContext = record resolved { act = env.act_for input } in
      record {
        access_token =
            env.sign_access (build_access_token input ctx access_token_ttl env.jwt_issuer);
        expires_in = access_token_ttl;
        refresh_token = req.secret;
        id_token = env.sign_id (build_id_token input ctx access_token_ttl env.jwt_issuer);
        scope = input.scope;
      }

  -- The row that `persistRefreshToken` inserts.
  unfoldable pub refresh_row : Db → GenerateInput → IssuedTokens → TokenRow
  refresh_row db input issued = record {
    id = req.row_id;
    token_lookup = some (env.hmac issued.refresh_token);
    user = input.user;
    client_id = input.client_id;
    company_id =
        token_tenant
          (map_option lane_client
            (find_first (λ (c : ClientRow). c.client_id == input.client_id) db.clients))
          input.tenant;
    scope = some input.scope;
    nonce = input.nonce;
    amr = or_else input.amr [];
    ip = req.ip;
    user_agent = req.user_agent;
    resource = input.audience;
    details = if_any input.details;
    last_used_at = some req.now;
    created_at = req.now;
    expires_at = req.now + refresh_ttl_ms;
    revoked = false;
    revoked_at = none;
    rotated_from = input.rotated_from;
    grace_replay = none;
    grace_replay_until = none;
  }

  unfoldable pub gated :
      IssuedTokens → (IssuedTokens → M Db (Unit {0})) → TokenRow → M Db (Unit {0})
  gated issued gate row = transaction (gate issued >> create_token row)

  unfoldable pub persist_refresh_token :
      GenerateInput → IssuedTokens → Option (IssuedTokens → M Db (Unit {0})) → M Db (Unit {0})
  unfolding gated
  persist_refresh_token input issued none = do db ← read; create_token (refresh_row db input issued)
  persist_refresh_token input issued (some gate) = do
    db ← read
    gated issued gate (refresh_row db input issued)

  -- `generateTokens`: `gate` runs in the transaction of the insert, and may abort it.
  unfoldable pub generate_tokens :
      GenerateInput → Option (IssuedTokens → M Db (Unit {0})) → M Db IssuedTokens
  generate_tokens input gate = do
    db ← read
    persist_refresh_token input (issued_for db input) gate
    pure (issued_for db input)

  unfoldable pub signal_token_revoked : Option String → Option String → M Db (Unit {0})
  signal_token_revoked none company_id = pure tt
  signal_token_revoked (some did) company_id =
      if not env.ssf_on || did == "" then pure tt else log_event (token_revoked did company_id)

  abbrev of_client : String → String → TokenRow → Bool
  of_client lookup client_id row = has_lookup lookup row && row.client_id == client_id

  unfoldable pub after_revoke : String → Option TokenRow → M Db (Unit {0})
  unfolding signal_token_revoked
  after_revoke client_id none = pure tt
  after_revoke client_id (some row) = do
    _ ←
        update_tokens (λ r. kept_pairs_around row.id row.rotated_from r && r.client_id == client_id)
          erased
    signal_token_revoked (some row.user.did) row.company_id

  -- `revokeToken` (RFC 7009): unknown tokens and those of another client are passed over.
  unfoldable pub revoke_token : String → String → M Db (Unit {0})
  unfolding after_revoke
  revoke_token token client_id = do
    row ← find_token (of_client (env.hmac token) client_id)
    _ ←
        update_tokens (λ r. of_client (env.hmac token) client_id r && not r.revoked)
          (revoke_at req.now)
    after_revoke client_id row
