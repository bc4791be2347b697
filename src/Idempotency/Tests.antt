-- ===== src/Idempotency/Tests.antt =====
-- A call and its retry on a server in memory, with the theorem at them.
use inite_auth_service.Common.{
  ℕ, String, [], none, some, ◌≡◌, refl, ap, not-both, ◌==◌, if◌then◌else◌,
}
use inite_auth_service.Common.Effect.{M, ok, err, bad_request}
use inite_auth_service.Redis.{JsonOf, JsonLaws}
use inite_auth_service.Redis.Table.{Memory, table_redis, table_redis_laws}
use inite_auth_service.Idempotency.{
  CachedResponse, IdempotentRequest, hash_body, well_sized, redis_key, intercept,
}
use inite_auth_service.Idempotency.Retry.{intercept-retry}

-- A body is its text, and base64url is left out.
abbrev hash : String → String
hash = hash_body (λ s. s) (λ s. some s)

abbrev call : String → IdempotentRequest String
call body = record {
  key = some "0123456789abcdef";
  user_id = none;
  sub = none;
  client_id = some "shop";
  ip = some "1.2.3.4";
  body = body;
}

-- The handler counts its runs.
abbrev counter : M ℕ (ℕ × String)
counter n = (ℕ.suc n, ok (201, "made"))

abbrev first_response : CachedResponse
first_response = record { status_code = 201; body = "made"; body_hash = "pay 5" }

abbrev one_json : JsonOf CachedResponse
one_json = record { stringify = λ c. "{}"; parse = λ s. some first_response }

one_json_laws : JsonLaws one_json first_response
one_json_laws = record { parse-stringify = refl; filled = λ h. filled_text h }
  where
    filled_text : ◌≡◌ {A = String} "{}" "" → ⊥
    filled_text h = not-both ("{}" == "") (ap (λ s. s == "") h) refl

abbrev after_first : Memory × ℕ
after_first = (intercept table_redis one_json 1000 hash counter (call "pay 5") ([], 0)).0

runs_once : (intercept table_redis one_json 5000 hash counter (call "pay 5") after_first).0.1 ≡ 1
unfolding intercept hash_body
runs_once = refl

body_changed :
    (intercept table_redis one_json 5000 hash counter (call "pay 6") after_first).1
    ≡ err (bad_request "" "Idempotency-Key reused with a different request body")
unfolding intercept hash_body
body_changed = refl

-- Two bodies that agree in the first 64 characters of their encoding are one to the hash.
hash_cut :
    hash "0123456789012345678901234567890123456789012345678901234567890123 pay 5"
    ≡ hash "0123456789012345678901234567890123456789012345678901234567890123 pay 9"
unfolding hash_body
hash_cut = refl

intercept-retry_example :
    ((intercept table_redis one_json 1000 hash counter (call "pay 5") ([], 0)).1 ≡ ok (201, "made"))
    × (intercept table_redis one_json 5000 hash counter
          (call "pay 6")
          (intercept table_redis one_json 1000 hash counter (call "pay 5") ([], 0)).0
        ≡ (
          (intercept table_redis one_json 1000 hash counter (call "pay 5") ([], 0)).0,
          (if hash "pay 5" == hash "pay 6"
              then ok (201, "made")
              else err (bad_request "" "Idempotency-Key reused with a different request body")),
        ))
unfolding hash_body well_sized redis_key
intercept-retry_example =
    intercept-retry table_redis table_redis_laws one_json hash 1000 5000 (call "pay 5")
      (call "pay 6") "0123456789abcdef" "made" 201 counter counter [] 0 refl refl refl refl refl
      refl refl one_json_laws refl
