-- ===== src/Par/Tests.antt =====
-- A pushed request, read by its client and then by another.
use inite_auth_service.Common.{String, [], none, some, ◌≡◌, refl, ap, not-both, ◌==◌}
use inite_auth_service.Common.Effect.{ok}
use inite_auth_service.Redis.{JsonOf, JsonLaws}
use inite_auth_service.Redis.Table.{Memory, table_redis, table_redis_laws}
use inite_auth_service.Par.{ParPayload, push, consume}
use inite_auth_service.Par.Once.{consume-push}

abbrev payload : ParPayload
payload = record {
  client_id = "web";
  redirect_uri = "https://web/cb";
  response_type = some "code";
  scope = some "openid";
  state = none;
  code_challenge = none;
  code_challenge_method = none;
  nonce = none;
  acr_values = none;
  prompt = none;
  resource = none;
  authorization_details = none;
  ui_locales = none;
  login_hint = none;
  organization = none;
  customer = none;
}

-- It prints every request alike, and reads the one above.
abbrev payload_json : JsonOf ParPayload
payload_json = record { stringify = λ p. "{}"; parse = λ s. some payload }

payload_json_laws : JsonLaws payload_json payload
payload_json_laws = record { parse-stringify = refl; filled = λ h. filled_text h }
  where
    filled_text : ◌≡◌ {A = String} "{}" "" → ⊥
    filled_text h = not-both ("{}" == "") (ap (λ s. s == "") h) refl

abbrev pushed_table : Memory
pushed_table = (push table_redis payload_json 1000 "abc" payload []).0

abbrev abc : String
abc = "urn:ietf:params:oauth:request_uri:abc"

consume-push_example :
    ((push table_redis payload_json 1000 "abc" payload []).1 ≡ ok (abc, 60))
    × ((consume table_redis payload_json 30000 abc "web" pushed_table).1 ≡ some payload)
    × ((consume table_redis payload_json 31000 abc "web"
          (consume table_redis payload_json 30000 abc "web" pushed_table).0).1
        ≡ none)
consume-push_example =
    consume-push table_redis table_redis_laws payload_json 1000 30000 31000 "abc" "web" "web"
      payload [] payload_json_laws refl refl
