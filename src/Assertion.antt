-- ===== src/Assertion.antt =====
-- src/oauth/client-assertion.service.ts, src/oauth/client-assertion-jti.store.ts and
-- src/oauth/client-assertion-jti-reaper.service.ts: clients that sign in with a signed assertion. jose
-- and the lookup of a client's keys are parameters. Times are milliseconds, but for `exp`.
pub mod Rows
pub mod Replay
mod Tests
use inite_auth_service.Common.{
  ℕ, String, List, [], ◌∷◌, ◌++◌, Option, none, some, Bool, true, false, not, ◌&&◌, ◌||◌, ◌+◌, ◌*◌,
  ◌/◌, ltb, leb, nat_eq, ◌==◌, same?, if◌then◌else◌, truthy, truthy?, includes, or_else, is_text,
  any, find_first, select,
}
use inite_auth_service.Common.Effect.{
  M, Result, pure, throw, guard, lift_result, ◌>>=◌, ◌>>◌, ok, err, Fault, unauthorized,
  bad_request,
}

pub record AssertionClient : Type 0 where
  pub client_id : String
  pub active : Bool
  pub auth_method : String
  pub jwks : Option String

-- The parts of an assertion that are read before its signature is checked.
pub record Unverified : Type 0 where
  pub alg : Option String
  pub iss : Option String
  pub sub : Option String

pub record JwtPayload : Type 0 where
  pub exp : Option ℕ
  pub jti : Option String

-- `decodeProtectedHeader` with `decodeJwt`, and `jwtVerify` with the client's keys, at a time, for an
-- issuer that is the subject too.
pub record Jose : Type 0 where
  pub decode : String → Option Unverified
  pub jwt_verify :
      (now : ℕ) (algorithms : List String) (clock_tolerance : ℕ)
      → String
      → AssertionClient
      → (issuer : String) (audiences : List String) → Option JwtPayload

pub record JtiRow : Type 0 where
  pub client_id : String
  pub jti : String
  pub expires_at : ℕ

pub record Registry : Type 0 where
  pub clients : List AssertionClient
  pub jtis : List JtiRow

abbrev assertion_algs : List String
assertion_algs =
    "RS256" ∷ "RS384" ∷ "RS512" ∷ "PS256" ∷ "PS384" ∷ "PS512" ∷ "ES256" ∷ "ES384" ∷ "ES512"
    ∷ "EdDSA" ∷ []

abbrev pub max_assertion_lifetime_s : ℕ
max_assertion_lifetime_s = 300

abbrev pub same_jti : String → String → JtiRow → Bool
same_jti client_id jti row = row.client_id == client_id && row.jti == jti

abbrev pub replayed_jti : Fault
replayed_jti = unauthorized "" "client_assertion replayed (jti reuse)"

-- ClientAssertionJtiStore.consume: the pair of client and jti is unique.
unfoldable pub consume_jti : JtiRow → M Registry (Unit {0})
consume_jti new r =
    if any (same_jti new.client_id new.jti) r.jtis
    then (r, err replayed_jti)
    else (record r { jtis = r.jtis ++ new ∷ [] }, ok tt)

-- ClientAssertionJtiReaperService.reapExpired
unfoldable pub reap_expired : ℕ → Registry → Registry
reap_expired now r = record r { jtis = select (λ row. not (ltb row.expires_at now)) r.jtis }

decoded : Option Unverified → Result Unverified
decoded none = err (unauthorized "" "malformed client_assertion")
decoded (some u) = ok u

alg_allowed : Option String → Bool
alg_allowed none = false
alg_allowed (some alg) = truthy alg && includes assertion_algs alg

client_id_of : Option String → Result String
client_id_of none = err (unauthorized "" "client_assertion iss/sub must equal client_id")
client_id_of (some id) =
    if truthy id
    then ok id
    else err (unauthorized "" "client_assertion iss/sub must equal client_id")

-- `hint ?? payload.sub`
hint_or : Option String → Option String → Option String
hint_or none sub = sub
hint_or (some hint) sub = some hint

resolve_client_id : Option String → Unverified → Result String
unfolding client_id_of hint_or
resolve_client_id hint u =
    if not (same? u.iss u.sub) || not (same? u.sub (hint_or hint u.sub))
    then err (unauthorized "" "client_assertion iss/sub must equal client_id")
    else client_id_of (hint_or hint u.sub)

private_key_client : Option AssertionClient → Result AssertionClient
private_key_client none = err (unauthorized "" "unknown client")
private_key_client (some client) =
    if client.auth_method == "private_key_jwt"
    then ok client
    else err (unauthorized "" "client is not registered for private_key_jwt")

abbrev active_client : String → AssertionClient → Bool
active_client id client = client.client_id == id && client.active

load_private_key_jwt_client : String → List AssertionClient → Result AssertionClient
unfolding private_key_client
load_private_key_jwt_client id clients = private_key_client (find_first (active_client id) clients)

verified_payload : Option JwtPayload → Result JwtPayload
verified_payload none = err (unauthorized "" "client_assertion signature/claims invalid")
verified_payload (some p) = ok p

module _ (jose : Jose) (now : ℕ) where
  replay_row : String → ℕ → Option String → Result JtiRow
  replay_row client_id exp none = err (unauthorized "" "client_assertion missing jti")
  replay_row client_id exp (some jti) =
      if not (truthy jti)
      then err (unauthorized "" "client_assertion missing jti")
      else if ltb (now / 1000 + max_assertion_lifetime_s) exp
      then err (bad_request "" "client_assertion lifetime too long (max 300s)")
      else ok (record { client_id = client_id; jti = jti; expires_at = exp * 1000 })

  row_of : String → JwtPayload → Option ℕ → Result JtiRow
  unfolding replay_row
  row_of client_id payload none = err (unauthorized "" "client_assertion missing exp")
  row_of client_id payload (some exp) =
      if nat_eq exp 0
      then err (unauthorized "" "client_assertion missing exp")
      else replay_row client_id exp payload.jti

  with_row : AssertionClient → Result JtiRow → Result (AssertionClient × JtiRow)
  with_row client (err e) = err e
  with_row client (ok row) = ok (client, row)

  with_payload : AssertionClient → String → Result JwtPayload → Result (AssertionClient × JtiRow)
  unfolding with_row row_of
  with_payload client id (err e) = err e
  with_payload client id (ok payload) = with_row client (row_of id payload payload.exp)

  -- `verifySignature`
  abbrev verify_signature : String → List String → String → AssertionClient → Result JwtPayload
  verify_signature assertion audiences id client =
      verified_payload (jose.jwt_verify now assertion_algs 60 assertion client id audiences)

  with_client :
      String → List String → String → Result AssertionClient → Result (AssertionClient × JtiRow)
  unfolding with_payload
  with_client assertion audiences id (err e) = err e
  with_client assertion audiences id (ok client) =
      with_payload client id (verify_signature assertion audiences id client)

  with_id :
      String
      → List String
      → List AssertionClient
      → Result String
      → Result (AssertionClient × JtiRow)
  unfolding with_client load_private_key_jwt_client
  with_id assertion audiences clients (err e) = err e
  with_id assertion audiences clients (ok id) =
      with_client assertion audiences id (load_private_key_jwt_client id clients)

  with_header :
      String
      → Option String
      → List String
      → List AssertionClient
      → Result Unverified
      → Result (AssertionClient × JtiRow)
  unfolding with_id
  with_header assertion hint audiences clients (err e) = err e
  with_header assertion hint audiences clients (ok u) =
      if alg_allowed u.alg
      then with_id assertion audiences clients (resolve_client_id hint u)
      else err (unauthorized "" "client_assertion alg not allowed")

  -- All checks of an assertion but that of its jti: the client, and the row to record.
  unfoldable pub checked_assertion :
      String
      → Option String
      → List String
      → List AssertionClient
      → Result (AssertionClient × JtiRow)
  unfolding with_header alg_allowed verified_payload resolve_client_id decoded
  checked_assertion assertion hint audiences clients =
      with_header assertion hint audiences clients (decoded (jose.decode assertion))

  record_jti : Result (AssertionClient × JtiRow) → M Registry AssertionClient
  record_jti (err e) = throw e
  record_jti (ok (client, row)) = do consume_jti row; pure client

  unfoldable pub authenticate : String → Option String → List String → M Registry AssertionClient
  unfolding record_jti
  authenticate assertion hint audiences r =
      record_jti (checked_assertion assertion hint audiences r.clients) r
