-- ===== src/M2m.antt =====
-- src/oauth/oauth-m2m.service.ts, isSelfAgent of src/oauth/self-agent.ts and requestedAudience of
-- src/oauth/token-support.ts: tokens of machines, and the exchange of tokens. JWT signing and
-- verification, agentDid and the form of an agent's id are parameters. The claims that a token is
-- signed with are returned next to it.
pub mod Scope
pub mod Audience
mod Tests
use inite_auth_service.Common.{
  ℕ, String, List, [], ◌∷◌, Option, none, some, Bool, true, false, not, ◌&&◌, ◌||◌, ◌==◌, nat_eq,
  ltb, if◌then◌else◌, truthy, truthy?, includes, any, select, or_else, length,
}
use inite_auth_service.Common.Text.{words, join, trim}
use inite_auth_service.Common.Effect.{Result, ok, err, bad_request, Fault}
use inite_auth_service.Scopes.{is_dynamic_client_id}
use inite_auth_service.Resource.{Runtime, is_registered_resource, is_empty}
use inite_auth_service.Store.{Detail}
use inite_auth_service.Grace.{expiry_seconds, setting_value}
use inite_auth_service.Claims.{sanitize_custom_claims}

-- `keys` counts the public keys of its registration.
pub record MachineClient : Type 0 where
  pub client_id : String
  pub company_id : Option String
  pub allowed_scopes : Option (List String)
  pub allowed_audiences : Option (List String)
  pub allowed_grants : Option (List String)
  pub auth_method : String
  pub keys : ℕ
  pub custom_claims : List (String × Option (List (Option String)))

abbrev is_self_agent : (String → Bool) → MachineClient → Bool
is_self_agent is_agent_id client =
    if not (is_agent_id client.client_id) || truthy? client.company_id
    then false
    else if not (includes (or_else client.allowed_grants []) "client_credentials")
    then false
    else if client.auth_method == "private_key_jwt"
    then ltb 0 client.keys
    else includes ("client_secret_post" ∷ "client_secret_basic" ∷ []) client.auth_method

abbrev requested_scopes : Option String → List String
requested_scopes scope = words (or_else scope "")

-- `requested.filter((s) => !allowed.includes(s))`
abbrev pub denied : List String → List String → List String
denied allowed requested = select (λ s. not (includes allowed s)) requested

abbrev allowed_scopes_of : MachineClient → List String
allowed_scopes_of client = or_else client.allowed_scopes []

granted_of_credentials : List String → List String → List String
granted_of_credentials allowed requested =
    if is_empty requested then allowed else select (includes allowed) requested

resolve_machine_scopes : List String → List String → Result (List String)
unfolding granted_of_credentials
resolve_machine_scopes allowed requested =
    let granted : List String = granted_of_credentials allowed requested in
    if not (is_empty requested) && not (nat_eq (length granted) (length requested))
    then err (bad_request "" "Scope(s) not allowed for this client")
    else if is_empty granted
    then err (bad_request "" "No scopes available for this client_credentials grant")
    else ok granted

unfoldable pub resolve_client_credentials_scopes :
    MachineClient → Option String → Result (List String)
unfolding resolve_machine_scopes
resolve_client_credentials_scopes client scope =
    resolve_machine_scopes (allowed_scopes_of client) (requested_scopes scope)

first_audience : MachineClient → List String → Result String
first_audience client [] = ok client.client_id
first_audience client (a ∷ rest) = ok a

named_audience : Runtime → String → MachineClient → List String → String → Result String
named_audience js env client allowed audience =
    if not (is_empty allowed) && not (includes allowed audience)
    then err (bad_request "" "Audience is not allowed for this client")
    else if is_empty allowed
        && is_dynamic_client_id (some client.client_id)
        && not (is_registered_resource js env audience)
    then err (bad_request "" "Audience is not a registered INITE resource")
    else ok audience

exchange_audience : Runtime → String → MachineClient → List String → Option String → Result String
unfolding first_audience named_audience
exchange_audience js env client allowed none = first_audience client allowed
exchange_audience js env client allowed (some audience) =
    if truthy audience
    then named_audience js env client allowed audience
    else first_audience client allowed

unfoldable pub resolve_exchange_audience :
    Runtime → String → MachineClient → Option String → Result String
unfolding exchange_audience
resolve_exchange_audience js env client audience =
    exchange_audience js env client (or_else client.allowed_audiences []) audience

-- What the source reads of a verified token; `identity` is the claims org, org_id and roles that are
-- there, as texts.
pub record SubjectClaims : Type 0 where
  pub sub : Option String
  pub scopes : Option (List String)
  pub scope : Option String
  pub identity : List (String × String)
  pub authorization_details : Option (List Detail)

claim_scopes_of : Option (List String) → Option String → List String
claim_scopes_of none scope = words (or_else scope "")
claim_scopes_of (some scopes) scope = scopes

unfoldable pub claim_scopes : SubjectClaims → List String
unfolding claim_scopes_of
claim_scopes claims = claim_scopes_of claims.scopes claims.scope

ceiling_of : List String → List String → List String
ceiling_of subject allowed = if is_empty allowed then subject else select (includes allowed) subject

bounded_scopes : List String → List String → Result (List String)
bounded_scopes ceiling requested =
    if is_empty requested
    then (if is_empty ceiling
        then err (bad_request "" "No scopes available for token exchange")
        else ok ceiling)
    else if is_empty (denied ceiling requested)
    then ok requested
    else err (bad_request "" "Requested scope exceeds the subject token")

unfoldable pub resolve_exchange_scopes :
    Option String → List String → List String → Result (List String)
unfolding ceiling_of bounded_scopes
resolve_exchange_scopes requested subject allowed =
    bounded_scopes (ceiling_of subject allowed) (requested_scopes requested)

-- `subjectMcpAuthorizationDetails`
mcp_details : Option (List Detail) → List Detail
mcp_details none = []
mcp_details (some details) = select (λ d. d.type_name == "inite_mcp_resource") details

pub record MachineClaims : Type 0 where
  pub sub : Option String
  pub client_id : String
  -- who acts: `sub` and, where an actor token names it, the client
  pub act : Option (Option String × Option String)
  pub scopes : List String
  pub identity : List (String × String)
  pub custom : List (String × List String)
  -- `cnf.jkt` and `cnf['x5t#S256']`
  pub jkt : Option String
  pub cert : Option String
  pub authorization_details : List Detail
  pub audience : String
  pub issuer : String

pub record MachineToken : Type 0 where
  pub claims : MachineClaims
  pub access_token : String
  pub expires_in : ℕ
  pub scope : String
  pub token_type : String

-- The configuration and the services that the grants call.
pub record M2mEnv : Type 0 where
  pub js : Runtime
  pub registry : String
  pub issuer : String
  pub settings : String → Option String
  pub sign : MachineClaims → ℕ → String
  -- `verifyExchangeToken`, none where it throws
  pub verify_token : String → Option SubjectClaims
  pub is_agent_id : String → Bool
  pub agent_did : String → String → String

abbrev machine_ttl : M2mEnv → ℕ
machine_ttl env = expiry_seconds (setting_value env.settings "JWT_M2M_ACCESS_TOKEN_EXPIRY" "5m") 300

pub record ExchangeInput : Type 0 where
  pub client : MachineClient
  pub subject_token : String
  pub subject_token_type : String
  pub actor_token : Option String
  pub requested_scope : Option String
  pub resource : Option String
  pub audience : Option String

-- `if (value)` keeps a value that is not empty.
abbrev nonempty_text : Option String → Option String
nonempty_text none = none
nonempty_text (some v) = if truthy v then some v else none

module _ (env : M2mEnv) where
  abbrev token_with : String → MachineClaims → MachineToken
  token_with kind claims = record {
    claims = claims;
    access_token = env.sign claims (machine_ttl env);
    expires_in = machine_ttl env;
    scope = join " " claims.scopes;
    token_type = kind;
  }

  machine_subject : MachineClient → String
  machine_subject client =
      if is_self_agent env.is_agent_id client
      then env.agent_did env.issuer client.client_id
      else or_else client.company_id client.client_id

  credentials_token :
      MachineClient
      → Option String
      → Option String
      → Result (List String)
      → Result String
      → Result MachineToken
  unfolding machine_subject
  credentials_token client jkt cert (err e) audience = err e
  credentials_token client jkt cert (ok scopes) (err e) = err e
  credentials_token client jkt cert (ok scopes) (ok audience) = ok (
      token_with (if truthy? jkt then "DPoP" else "Bearer") (record {
        sub = some (machine_subject client);
        client_id = client.client_id;
        act = none;
        scopes = scopes;
        identity = [];
        custom = sanitize_custom_claims client.custom_claims;
        jkt = nonempty_text jkt;
        cert = nonempty_text cert;
        authorization_details = [];
        audience = audience;
        issuer = env.issuer;
      }))

  unfoldable pub issue_client_credentials_token :
      MachineClient → (scope audience jkt cert : Option String) → Result MachineToken
  unfolding credentials_token
  issue_client_credentials_token client scope audience jkt cert =
      credentials_token client jkt cert (resolve_client_credentials_scopes client scope)
        (resolve_exchange_audience env.js env.registry client audience)

  verified_token : Option SubjectClaims → Result SubjectClaims
  verified_token none = err (bad_request "" "subject_token or actor_token is invalid or expired")
  verified_token (some claims) = ok claims

  actor_claims : MachineClient → Result SubjectClaims → Result (Option String × Option String)
  actor_claims client (err e) = err e
  actor_claims client (ok claims) = ok (claims.sub, some client.client_id)

  -- The party that acts: the client, or the subject of the actor token.
  actor_of : MachineClient → Option String → Result (Option String × Option String)
  unfolding actor_claims verified_token
  actor_of client none = ok (some client.client_id, none)
  actor_of client (some token) =
      if truthy token
      then actor_claims client (verified_token (env.verify_token token))
      else ok (some client.client_id, none)

  exchanged_token :
      ExchangeInput
      → SubjectClaims
      → Result (List String)
      → Result String
      → Result (Option String × Option String)
      → Result MachineToken
  unfolding mcp_details
  exchanged_token input subject (err e) audience act = err e
  exchanged_token input subject (ok scopes) (err e) act = err e
  exchanged_token input subject (ok scopes) (ok audience) (err e) = err e
  exchanged_token input subject (ok scopes) (ok audience) (ok act) = ok (
      token_with "Bearer" (record {
        sub = subject.sub;
        client_id = input.client.client_id;
        act = some act;
        scopes = scopes;
        identity = subject.identity;
        custom = sanitize_custom_claims input.client.custom_claims;
        jkt = none;
        cert = none;
        authorization_details = mcp_details subject.authorization_details;
        audience = audience;
        issuer = env.issuer;
      }))

  -- `input.resource ?? input.audience`
  target_of : Option String → Option String → Option String
  target_of none audience = audience
  target_of (some resource) audience = some resource

  exchange_subject : ExchangeInput → Result SubjectClaims → Result MachineToken
  unfolding exchanged_token actor_of target_of
  exchange_subject input (err e) = err e
  exchange_subject input (ok subject) =
      exchanged_token input subject
        (resolve_exchange_scopes input.requested_scope (claim_scopes subject)
          (allowed_scopes_of input.client))
        (resolve_exchange_audience env.js env.registry input.client
          (target_of input.resource input.audience))
        (actor_of input.client input.actor_token)

  unfoldable pub exchange_token : ExchangeInput → Result MachineToken
  unfolding exchange_subject verified_token
  exchange_token input =
      if input.subject_token_type == "urn:ietf:params:oauth:token-type:access_token"
        || input.subject_token_type == "urn:ietf:params:oauth:token-type:jwt"
      then exchange_subject input (verified_token (env.verify_token input.subject_token))
      else err (bad_request "" "Unsupported subject_token_type")

-- `typeof value === 'string' && value.trim()`; a repeated parameter is its first value.
named : Option String → Option String
unfolding trim
named none = none
named (some raw) = if truthy (trim raw) then some (trim raw) else none

requested_resource : List String → Option String → Option String
requested_resource allowed none = none
requested_resource allowed (some resource) =
    if is_empty allowed || includes allowed resource then some resource else none

audience_or_resource : List String → Option String → Option String → Option String
unfolding requested_resource
audience_or_resource allowed none resource = requested_resource allowed resource
audience_or_resource allowed (some audience) resource = some audience

unfoldable pub requested_audience : Option String → Option String → List String → Option String
unfolding named audience_or_resource
requested_audience audience resource allowed =
    audience_or_resource allowed (named audience) (named resource)
