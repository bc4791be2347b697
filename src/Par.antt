-- ===== src/Par.antt =====
-- src/oauth/par.service.ts: pushed authorization requests, on the Redis server. The random part of a
-- request URI is drawn, and JSON is the runtime's.
pub mod Once
mod Tests
use inite_auth_service.Common.{
  ℕ, String, Option, none, some, Bool, true, false, not, ◌==◌, if◌then◌else◌, truthy, starts_with,
}
use Prim.Native.String.{◌++◌ as append}
use inite_auth_service.Common.Effect.{M, pure, throw, ◌>>=◌, ◌>>◌, ok, err, bad_request}
use inite_auth_service.Redis.{Redis, JsonOf}

pub record ParPayload : Type 0 where
  pub client_id : String
  pub redirect_uri : String
  pub response_type : Option String
  pub scope : Option String
  pub state : Option String
  pub code_challenge : Option String
  pub code_challenge_method : Option String
  pub nonce : Option String
  pub acr_values : Option String
  pub prompt : Option String
  pub resource : Option String
  pub authorization_details : Option String
  pub ui_locales : Option String
  pub login_hint : Option String
  pub organization : Option String
  pub customer : Option String

abbrev pub request_uri_prefix : String
request_uri_prefix = "urn:ietf:params:oauth:request_uri:"

abbrev pub par_ttl_seconds : ℕ
par_ttl_seconds = 60

abbrev pub par_key : String → String
par_key request_uri = append "par:" request_uri

module _ {ℓ} {S : Type ℓ} (redis : Redis S) (json : JsonOf ParPayload) (now : ℕ) where
  -- The request URI and its life in seconds.
  unfoldable pub push : (ref : String) → ParPayload → M S (String × ℕ)
  push ref payload s =
      if not (truthy payload.client_id)
      then (s, err (bad_request "" "client_id is required"))
      else if not (truthy payload.redirect_uri)
      then (s, err (bad_request "" "redirect_uri is required"))
      else (
        redis.set now (par_key (append request_uri_prefix ref)) (json.stringify payload)
            par_ttl_seconds s,
        ok (append request_uri_prefix ref, par_ttl_seconds),
      )

  bound : String → Option ParPayload → Option ParPayload
  bound client_id none = none
  bound client_id (some payload) = if payload.client_id == client_id then some payload else none

  taken : String → Option String → Option ParPayload
  unfolding bound
  taken client_id none = none
  taken client_id (some raw) = if truthy raw then bound client_id (json.parse raw) else none

  -- The request, if it is there for that client; it is deleted in any case.
  unfoldable pub consume : String → String → S → S × Option ParPayload
  unfolding taken
  consume request_uri client_id s =
      if not (starts_with request_uri request_uri_prefix) then (s, none) else (
        (redis.get_del now (par_key request_uri) s).0,
        taken client_id (redis.get_del now (par_key request_uri) s).1,
      )
