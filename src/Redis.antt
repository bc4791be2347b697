-- ===== src/Redis.antt =====
-- src/common/redis.service.ts: RedisService is a thin layer over the Redis server, which is a
-- parameter: the commands that the service sends, as functions of the time, and what Redis documents
-- of them. A key is there until its time to live has passed.
pub mod Table
pub mod Values
pub mod Tally
use inite_auth_service.Common.{
  ℕ, String, Option, none, some, Bool, true, false, ◌≡◌, ◌≤◌, ◌+◌, ◌*◌, ltb, if◌then◌else◌,
}

pub record Redis {ℓ} (S : Type ℓ) : Type ℓ where
  pub get : (now : ℕ) → String → S → Option String
  pub set : (now : ℕ) → String → String → (ttl_seconds : ℕ) → S → S
  pub set_if_absent : (now : ℕ) → String → String → (ttl_seconds : ℕ) → S → S × Bool
  pub get_del : (now : ℕ) → String → S → S × Option String
  pub del : String → S → S

-- SET with EX, SET with NX, GETDEL and DEL.
pub record RedisLaws {ℓ} {S : Type ℓ} (redis : Redis S) : Type ℓ where
  pub get-set :
      (now later ttl : ℕ) (key value : String) (s : S)
      → 1 ≤ ttl
      → redis.get later key (redis.set now key value ttl s)
        ≡ (if ltb later (now + ttl * 1000) then some value else none)
  pub get-set-other :
      (now later ttl : ℕ) (key other value : String) (s : S)
      → (key ≡ other → ⊥)
      → redis.get later other (redis.set now key value ttl s) ≡ redis.get later other s
  pub get-del : (now : ℕ) (key : String) (s : S) → redis.get now key (redis.del key s) ≡ none
  pub get-del-other :
      (now : ℕ) (key other : String) (s : S)
      → (key ≡ other → ⊥)
      → redis.get now other (redis.del key s) ≡ redis.get now other s
  -- A key that is absent stays absent while nobody sets it.
  pub get-later :
      (now later : ℕ) (key : String) (s : S)
      → now ≤ later
      → redis.get now key s ≡ none
      → redis.get later key s ≡ none
  pub set_if_absent-none :
      (now ttl : ℕ) (key value : String) (s : S)
      → redis.get now key s ≡ none
      → redis.set_if_absent now key value ttl s ≡ (redis.set now key value ttl s, true)
  pub set_if_absent-some :
      (now ttl : ℕ) (key value held : String) (s : S)
      → redis.get now key s ≡ some held
      → redis.set_if_absent now key value ttl s ≡ (s, false)
  pub get_del_lem :
      (now : ℕ) (key : String) (s : S)
      → redis.get_del now key s ≡ (redis.del key s, redis.get now key s)

-- `JSON.stringify` and `JSON.parse` at one type.
pub record JsonOf {ℓ} (A : Type ℓ) : Type ℓ where
  pub stringify : A → String
  pub parse : String → Option A

-- What JSON promises of a value: it is read back, and its text is not empty.
pub record JsonLaws {ℓ} {A : Type ℓ} (json : JsonOf A) (a : A) : Type ℓ where
  pub parse-stringify : json.parse (json.stringify a) ≡ some a
  pub filled : json.stringify a ≡ "" → ⊥
