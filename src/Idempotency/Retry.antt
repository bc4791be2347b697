-- ===== src/Idempotency/Retry.antt =====
-- A retry is answered from what the first call left.
use inite_auth_service.Common.{
  ℕ, String, none, some, true, ◌≡◌, refl, ◌+◌, ltb, ◌==◌, if◌then◌else◌, truthy, ◌∙◌, arith,
  Bool-cases, inl, inr,
}
use inite_auth_service.Common.Effect.{M, ok, err, bad_request}
use inite_auth_service.Redis.{Redis, RedisLaws, JsonOf, JsonLaws}
use inite_auth_service.Redis.Values.{truthy-stringify}
use inite_auth_service.Idempotency.{
  CachedResponse, IdempotentRequest, redis_key, well_sized, intercept, under_key, answer, replay,
  run_and_keep, cached_after, ttl_seconds,
}

-- What the first call keeps.
abbrev pub response :
    {B : Type 0} → (B → String) → ℕ → String → IdempotentRequest B → CachedResponse
response hash status body req = record {
  status_code = status;
  body = body;
  body_hash = hash req.body;
}

module _ {S : Type 0} {B : Type 0} (redis : Redis S) (json : JsonOf CachedResponse)
    (hash : B → String) where
  abbrev held : ℕ → ℕ → String → IdempotentRequest B → String → S → S
  held now status body req key s =
      redis.set now (redis_key req key) (json.stringify (response hash status body req)) ttl_seconds
        s

module _ {S : Type 0} {W : Type 0} (redis : Redis S) (laws : RedisLaws redis)
    (json : JsonOf CachedResponse) where
  replay-some :
      (hash : String) (c : CachedResponse) (again : M W (ℕ × String)) (s : S) (w : W)
      → replay redis json hash again (some c) (s, w) ≡ (
        (s, w),
        (if c.body_hash == hash
            then ok (c.status_code, c.body)
            else err (bad_request "" "Idempotency-Key reused with a different request body")),
      )
  unfolding replay
  replay-some hash c again s w = elim (Bool-cases (c.body_hash == hash)) [
    | inl e ↦ rw e refl
    | inr e ↦ rw e refl
  ]

  slot-kept :
      (now later : ℕ) (slot hash : String) (c : CachedResponse) (again : M W (ℕ × String)) (s : S)
      (w : W)
      → JsonLaws json c
      → ltb later (now + 86400000) ≡ true
      → answer redis json later slot hash again
          (redis.get later slot (redis.set now slot (json.stringify c) ttl_seconds s))
          (redis.set now slot (json.stringify c) ttl_seconds s, w)
        ≡ replay redis json hash again
            (some c)
            (redis.set now slot (json.stringify c) ttl_seconds s, w)
  unfolding answer
  slot-kept now later slot hash c again s w json_laws early =
      rw (laws.get-set now later ttl_seconds slot (json.stringify c) s (omega arith))
        (rw early (rw (truthy-stringify json c json_laws) (rw json_laws.parse-stringify refl)))

  module _ {B : Type 0} (hash : B → String) where
    keyed :
        (now : ℕ) (req : IdempotentRequest B) (key : String) (handler : M W (ℕ × String)) (s : S)
        (w : W)
        → req.key ≡ some key
        → truthy key ≡ true
        → well_sized key ≡ true
        → intercept redis json now hash handler req (s, w)
          ≡ answer redis json now
              (redis_key req key)
              (hash req.body)
              handler
              (redis.get now (redis_key req key) s)
              (s, w)
    unfolding intercept under_key
    keyed now req key handler s w known there sized = rw (known, there, sized) refl

    first_call :
        (now : ℕ) (req : IdempotentRequest B) (key body : String) (status : ℕ)
        (handler : M W (ℕ × String)) (s : S) (w : W)
        → req.key ≡ some key
        → truthy key ≡ true
        → well_sized key ≡ true
        → redis.get now (redis_key req key) s ≡ none
        → (handler w).1 ≡ ok (status, body)
        → intercept redis json now hash handler req (s, w)
          ≡ ((held redis json hash now status body req key s, (handler w).0), ok (status, body))
    unfolding answer run_and_keep cached_after
    first_call now req key body status handler s w known there sized fresh answered =
        keyed now req key handler s w known there sized ∙ rw (fresh, answered) refl

    -- A first call that succeeds under a key answers as its handler does. Within a day after it, a call of the same actor under
    -- the same key runs no handler: with a body of the same hash it gets the answer of the first
    -- call, with another it is refused.
    pub intercept-retry :
        (now later : ℕ) (first second : IdempotentRequest B) (key body : String) (status : ℕ)
        (handler again : M W (ℕ × String)) (s : S) (w : W)
        → first.key ≡ some key
        → second.key ≡ some key
        → redis_key second key ≡ redis_key first key
        → truthy key ≡ true
        → well_sized key ≡ true
        → redis.get now (redis_key first key) s ≡ none
        → (handler w).1 ≡ ok (status, body)
        → JsonLaws json (response hash status body first)
        → ltb later (now + 86400000) ≡ true
        → ((intercept redis json now hash handler first (s, w)).1 ≡ ok (status, body))
          × (intercept redis json later hash again second
                (intercept redis json now hash handler first (s, w)).0
              ≡ (
                (intercept redis json now hash handler first (s, w)).0,
                (if hash first.body == hash second.body
                    then ok (status, body)
                    else err
                        (bad_request "" "Idempotency-Key reused with a different request body")),
              ))
    intercept-retry now later first second key body status handler again s w first_key second_key
          same there sized fresh answered json_laws early =
        rw (first_call now first key body status handler s w first_key there sized fresh answered) (
          refl,
          keyed later second key again (held redis json hash now status body first key s)
                (handler w).0 second_key there sized
              ∙ rw same (
                  slot-kept now later (redis_key first key) (hash second.body)
                    (response hash status body first) again s (handler w).0 json_laws early)
              ∙ replay-some (hash second.body) (response hash status body first) again
                  (held redis json hash now status body first key s) (handler w).0,
        )
