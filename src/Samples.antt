-- ===== src/Samples.antt =====
-- Sample rows and requests that the tests of several modules run on.
use inite_auth_service.Common.{ℕ, String, [], ◌∷◌, Option, none, some, true, false}
use inite_auth_service.FieldCrypto.{Aes}
use inite_auth_service.Resource.{Runtime}
use inite_auth_service.Store.{Db, User, Metadata, TokenRow, CodeRow}
use inite_auth_service.Grace.{IssuedTokens, Json}
use inite_auth_service.Claims.{GenerateInput}
use inite_auth_service.Issuer.{Env, Request}

abbrev pub no_metadata : Metadata
no_metadata = record { roles = none; is_superadmin = false; is_admin = false; company_id = none }

abbrev pub ann : User
ann = record {
  id = "u1";
  did = "did:web:ann";
  email = some "ann@example.com";
  email_verified = true;
  name = none;
  avatar_url = none;
  metadata = no_metadata;
}

abbrev pub token_row : String → String → Option String → TokenRow
token_row id lookup parent = record {
  id = id;
  token_lookup = some lookup;
  user = ann;
  client_id = "web";
  company_id = none;
  scope = some "openid email";
  nonce = none;
  amr = "otp" ∷ [];
  ip = none;
  user_agent = none;
  resource = none;
  details = none;
  last_used_at = none;
  created_at = 1000;
  expires_at = 900000;
  revoked = false;
  revoked_at = none;
  rotated_from = parent;
  grace_replay = none;
  grace_replay_until = none;
}

abbrev pub sample_code : CodeRow
sample_code = record {
  code = "c1";
  user = ann;
  client_id = "web";
  company_id = none;
  redirect_uri = "https://web/cb";
  scope = some "openid";
  code_challenge = some "v1";
  code_challenge_method = some "plain";
  nonce = none;
  acr_values = none;
  resource = none;
  details = none;
  amr = "otp" ∷ [];
  expires_at = 600000;
  used = false;
}

abbrev pub empty_db : Db
empty_db = record {
  tokens = [];
  codes = [];
  clients = [];
  users = ann ∷ [];
  organizations = [];
  memberships = [];
  consents = [];
  log = [];
}

abbrev pub one_token : Db
one_token = record empty_db { tokens = token_row "t1" "s1" none ∷ [] }

abbrev pub one_code : Db
one_code = record empty_db { codes = sample_code ∷ [] }

-- A toy cipher that leaves the text as it is and takes the key for the tag.
abbrev pub toy_aes : Aes
toy_aes = record { seal = λ key iv text. (key, text); unseal = λ key iv tag text. some text }

abbrev pub issued_pair : IssuedTokens
issued_pair = record {
  access_token = "at";
  expires_in = 600;
  refresh_token = "rt";
  id_token = "idt";
  scope = "openid";
}

-- It prints every pair alike, and reads the one below.
abbrev pub toy_json : Json
toy_json = record {
  print = λ p. "pair";
  parse = λ s. some (record { issued = issued_pair; parent_id = "t1"; issued_at = 5000 });
}

abbrev pub env : Env
env = record {
  hmac = λ s. s;
  sign_access = λ c. c.scope;
  sign_id = λ c. c.person.sub;
  setting = λ k. none;
  jwt_issuer = "https://auth";
  act_for = λ i. none;
  provision = λ i. none;
  crypto = none;
  aes = toy_aes;
  json = toy_json;
  ssf_on = true;
  audit_on = true;
}

abbrev pub request : ℕ → String → String → Request
request now secret row_id = record {
  now = now;
  ip = none;
  user_agent = none;
  secret = secret;
  row_id = row_id;
  iv = "iv";
}

abbrev pub js : Runtime
js = record { parse_url = λ s. none; lower = λ s. s }

abbrev pub input : GenerateInput
input = record {
  user = ann;
  client_id = "web";
  scope = "openid email";
  rotated_from = none;
  nonce = none;
  amr = some ("otp" ∷ []);
  acr = none;
  audience = none;
  details = none;
  tenant = none;
}
