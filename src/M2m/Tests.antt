-- ===== src/M2m/Tests.antt =====
-- A machine's token, and the exchange of a person's token by an agent.
use inite_auth_service.Common.{
  String, [], ◌∷◌, Option, none, some, true, false, ◌&&◌, ◌||◌, ◌≡◌, refl, includes,
}
use inite_auth_service.Common.Effect.{ok}
use inite_auth_service.Common.Text.{words, trim, leading_digits}
use inite_auth_service.Grace.{expiry_seconds, duration_seconds}
use inite_auth_service.Claims.{sanitize_custom_claims}
use inite_auth_service.Resource.{is_empty}
use inite_auth_service.Samples.{js}
use inite_auth_service.M2m.{
  MachineClient, MachineToken, MachineClaims, M2mEnv, ExchangeInput, SubjectClaims, claim_scopes,
  exchange_token, resolve_exchange_scopes, resolve_exchange_audience,
}
use inite_auth_service.M2m.Scope.{exchange_token-narrows}

abbrev bff : MachineClient
bff = record {
  client_id = "bff";
  company_id = none;
  allowed_scopes = some ("brain" ∷ []);
  allowed_audiences = some ("https://brain" ∷ []);
  allowed_grants = none;
  auth_method = "client_secret_post";
  keys = 0;
  custom_claims = [];
}

abbrev person : SubjectClaims
person = record {
  sub = some "did:web:ann";
  scopes = some ("openid" ∷ "brain" ∷ []);
  scope = none;
  identity = [];
  authorization_details = none;
}

abbrev m2m_env : M2mEnv
m2m_env = record {
  js = js;
  registry = "";
  issuer = "https://auth";
  settings = λ k. some "5m";
  sign = λ claims ttl. "jwt";
  verify_token = λ token. some person;
  is_agent_id = λ id. false;
  agent_did = λ issuer id. id;
}

abbrev exchange : ExchangeInput
exchange = record {
  client = bff;
  subject_token = "subject";
  subject_token_type = "urn:ietf:params:oauth:token-type:jwt";
  actor_token = none;
  requested_scope = none;
  resource = none;
  audience = none;
}

abbrev brain_claims : (subject : String) → Option (Option String × Option String) → MachineClaims
brain_claims subject act = record {
  sub = some subject;
  client_id = "bff";
  act = act;
  scopes = "brain" ∷ [];
  identity = [];
  custom = [];
  jkt = none;
  cert = none;
  authorization_details = [];
  audience = "https://brain";
  issuer = "https://auth";
}

abbrev brain_token : MachineClaims → MachineToken
brain_token claims = record {
  claims = claims;
  access_token = "jwt";
  expires_in = 300;
  scope = "brain";
  token_type = "Bearer";
}

abbrev exchanged : MachineToken
exchanged = brain_token (brain_claims "did:web:ann" (some (some "bff", none)))

abbrev of_machine : MachineToken
of_machine = brain_token (brain_claims "bff" none)

exchange_runs : exchange_token m2m_env exchange ≡ ok exchanged
unfolding exchange_token resolve_exchange_scopes resolve_exchange_audience claim_scopes words
    expiry_seconds duration_seconds trim leading_digits sanitize_custom_claims
exchange_runs = refl

exchange_token-narrows_example :
    (subject : SubjectClaims) × (m2m_env.verify_token "subject" ≡ some subject)
    × (exchanged.claims.sub ≡ subject.sub)
    × ((includes (claim_scopes subject) "brain"
          && (is_empty {A = String} ("brain" ∷ []) || includes ("brain" ∷ []) "brain"))
        ≡ true)
exchange_token-narrows_example =
    exchange_token-narrows m2m_env exchange exchanged "brain" exchange_runs refl
