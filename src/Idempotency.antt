-- ===== src/Idempotency.antt =====
-- src/common/idempotency.interceptor.ts: a retry under one Idempotency-Key, on the Redis server. The
-- handler is any computation on a state of its own; `serial` is JSON.stringify over the sorted names
-- of the body's members, none where it throws. The source does not wait for its write to the server
-- and logs its failure; here the write is done before the answer, and does not fail.
pub mod Retry
mod Tests
use Prim.Native.String.{◌++◌ as append, [] as nil, ◌∷◌ as cons}
use inite_auth_service.Common.{
  ℕ, zero, suc, String, Option, none, some, Bool, true, false, not, ◌||◌, ◌==◌, ◌+◌, ltb,
  if◌then◌else◌, truthy,
}
use inite_auth_service.Common.Effect.{M, Result, ok, err, bad_request}
use inite_auth_service.Redis.{Redis, JsonOf}

abbrev pub ttl_seconds : ℕ
ttl_seconds = 86400

-- `body` as JSON, which is what the response carries
pub record CachedResponse : Type 0 where
  pub status_code : ℕ
  pub body : String
  pub body_hash : String

pub record IdempotentRequest {ℓ} (B : Type ℓ) : Type ℓ where
  pub key : Option String
  pub user_id : Option String
  pub sub : Option String
  pub client_id : Option String
  pub ip : Option String
  pub body : B

text_length : String → ℕ
text_length nil = 0
text_length (cons c s) = suc (text_length s)

take_chars : ℕ → String → String
take_chars zero s = nil
take_chars (suc n) nil = nil
take_chars (suc n) (cons c s) = cons c (take_chars n s)

otherwise : Option String → String → String
otherwise none d = d
otherwise (some s) d = s

hash_text : (base64url : String → String) → Option String → String
unfolding take_chars
hash_text base64url none = "unhashable"
hash_text base64url (some text) = take_chars 64 (base64url text)

module _ {ℓ} {B : Type ℓ} where
  unfoldable pub actor : IdempotentRequest B → String
  unfolding otherwise
  actor req =
      otherwise req.user_id
        (otherwise req.sub (otherwise req.client_id (otherwise req.ip "anonymous")))

  unfoldable pub redis_key : IdempotentRequest B → String → String
  unfolding actor
  redis_key req key = append "idem:" (append (actor req) (append ":" key))

  unfoldable pub hash_body :
      (base64url : String → String) → (serial : B → Option String) → B → String
  unfolding hash_text
  hash_body base64url serial body = hash_text base64url (serial body)

unfoldable pub well_sized : String → Bool
unfolding text_length
well_sized key = not (ltb (text_length key) 16 || ltb 128 (text_length key))

module _ {ℓ} {S : Type ℓ} (redis : Redis S) (json : JsonOf CachedResponse) where
  cached_after : ℕ → String → String → S → Result (ℕ × String) → S
  cached_after now slot hash s (err e) = s
  cached_after now slot hash s (ok (status, body)) =
      redis.set now slot
        (json.stringify (record { status_code = status; body = body; body_hash = hash }))
        ttl_seconds s

module _ {ℓ κ} {S : Type ℓ} {W : Type κ} (redis : Redis S) (json : JsonOf CachedResponse) where
  -- The handler's turn, which keeps nothing.
  run_bare : M W (ℕ × String) → M (S × W) (ℕ × String)
  run_bare handler (s, w) = ((s, (handler w).0), (handler w).1)

  -- The first call: what the handler answers is kept.
  run_and_keep : ℕ → String → String → M W (ℕ × String) → M (S × W) (ℕ × String)
  unfolding cached_after
  run_and_keep now slot hash handler (s, w) =
      ((cached_after redis json now slot hash s (handler w).1, (handler w).0), (handler w).1)

  replay : String → M W (ℕ × String) → Option CachedResponse → M (S × W) (ℕ × String)
  unfolding run_bare
  replay hash handler none s = run_bare handler s
  replay hash handler (some parsed) s =
      if not (parsed.body_hash == hash)
      then (s, err (bad_request "" "Idempotency-Key reused with a different request body"))
      else (s, ok (parsed.status_code, parsed.body))

  answer : ℕ → String → String → M W (ℕ × String) → Option String → M (S × W) (ℕ × String)
  unfolding replay run_and_keep
  answer now slot hash handler none s = run_and_keep now slot hash handler s
  answer now slot hash handler (some cached) s =
      if truthy cached
      then replay hash handler (json.parse cached) s
      else run_and_keep now slot hash handler s

  under_key : ℕ → String → String → M W (ℕ × String) → String → M (S × W) (ℕ × String)
  unfolding answer run_bare well_sized
  under_key now slot hash handler key (s, w) =
      if not (truthy key)
      then run_bare handler (s, w)
      else if not (well_sized key)
      then ((s, w), err (bad_request "" "Idempotency-Key must be 16-128 characters"))
      else answer now slot hash handler (redis.get now slot s) (s, w)

  -- `hash` is `hashBody(req.body)`.
  unfoldable pub intercept {μ} :
      {B : Type μ}
      → ℕ
      → (B → String)
      → M W (ℕ × String)
      → IdempotentRequest B
      → M (S × W) (ℕ × String)
  unfolding under_key redis_key
  intercept now hash handler req s = elim (req.key) [
    | none ↦ run_bare handler s
    | some key ↦ under_key now (redis_key req key) (hash req.body) handler key s
  ]
