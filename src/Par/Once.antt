-- ===== src/Par/Once.antt =====
-- A pushed request is read once, by the client that pushed it, within its life.
use inite_auth_service.Common.{
  ℕ, String, Option, none, some, true, ◌≡◌, refl, ◌+◌, ltb, ◌==◌, if◌then◌else◌, truthy,
  starts_with, Bool-cases, inl, inr, arith, ap, ◌∙◌,
}
use Prim.Native.String.{◌++◌ as append}
use text.Mathlib.TextPositions.{starts_with-append}
use inite_auth_service.Common.Effect.{ok}
use inite_auth_service.Redis.{Redis, RedisLaws, JsonOf, JsonLaws}
use inite_auth_service.Redis.Values.{truthy-stringify}
use inite_auth_service.Par.{
  ParPayload, request_uri_prefix, par_key, par_ttl_seconds, push, bound, taken, consume,
}

module _ {S : Type 0} (redis : Redis S) (laws : RedisLaws redis) (json : JsonOf ParPayload) where
  consume-deletes :
      (now : ℕ) (request_uri client_id : String) (s : S)
      → starts_with request_uri request_uri_prefix ≡ true
      → consume redis json now request_uri client_id s ≡ (
        redis.del (par_key request_uri) s,
        taken redis json now client_id (redis.get now (par_key request_uri) s),
      )
  unfolding consume
  consume-deletes now request_uri client_id s prefixed =
      rw prefixed (rw (laws.get_del_lem now (par_key request_uri) s) refl)

  abbrev uri : String → String
  uri ref = append request_uri_prefix ref

  -- What the server shows of a pushed request until its minute is over, to a client.
  abbrev shown : ℕ → ℕ → ParPayload → String → Option ParPayload
  shown now later payload client_id =
      if ltb later (now + 60000)
      then (if payload.client_id == client_id then some payload else none)
      else none

  pushed :
      (now : ℕ) (ref : String) (payload : ParPayload) (s : S)
      → truthy payload.client_id ≡ true
      → truthy payload.redirect_uri ≡ true
      → push redis json now ref payload s ≡ (
        redis.set now (par_key (uri ref)) (json.stringify payload) par_ttl_seconds s,
        ok (uri ref, par_ttl_seconds),
      )
  unfolding push
  pushed now ref payload s named directed = rw named (rw directed refl)

  taken-set :
      (now later : ℕ) (ref client_id : String) (payload : ParPayload) (s : S)
      → JsonLaws json payload
      → taken redis json later client_id (
          redis.get later
            (par_key (uri ref))
            (redis.set now (par_key (uri ref)) (json.stringify payload) par_ttl_seconds s))
        ≡ shown now later payload client_id
  unfolding taken bound
  taken-set now later ref client_id payload s json_laws =
      rw
        (laws.get-set now later par_ttl_seconds (par_key (uri ref)) (json.stringify payload) s
          (omega arith))
        (elim (Bool-cases (ltb later (now + 60000))) [
          | inl early ↦
              rw early
                (rw (truthy-stringify json payload json_laws) (rw json_laws.parse-stringify refl))
          | inr late ↦ rw late refl
        ])

  -- A request that names its client and its redirect is pushed; it is then shown to that client only
  -- and within a minute only, and whoever asks for it, the next one gets nothing.
  pub consume-push :
      (now later last : ℕ) (ref client_id other : String) (payload : ParPayload) (s : S)
      → JsonLaws json payload
      → truthy payload.client_id ≡ true
      → truthy payload.redirect_uri ≡ true
      → ((push redis json now ref payload s).1 ≡ ok (uri ref, 60))
        × ((consume redis json later (uri ref) client_id (push redis json now ref payload s).0).1
            ≡ shown now later payload client_id)
        × ((consume redis json last
              (uri ref)
              other
              (consume redis json later
                (uri ref)
                client_id
                (push redis json now ref payload s).0).0).1
            ≡ none)
  unfolding taken
  consume-push now later last ref client_id other payload s json_laws named directed =
      let prefixed : starts_with (uri ref) request_uri_prefix ≡ true =
        starts_with-append request_uri_prefix ref in
      rw (pushed now ref payload s named directed) (
        refl,
        ap (λ out. out.1) (consume-deletes later (uri ref) client_id (held now) prefixed)
            ∙ taken-set now later ref client_id payload s json_laws,
        ap (λ out. (consume redis json last (uri ref) other out.0).1)
              (consume-deletes later (uri ref) client_id (held now) prefixed)
            ∙ ap (λ out. out.1)
                (consume-deletes last (uri ref) other (redis.del (par_key (uri ref)) (held now))
                  prefixed)
            ∙ ap (taken redis json last other) (laws.get-del last (par_key (uri ref)) (held now)),
      )
    where
      held : ℕ → S
      held at = redis.set at (par_key (uri ref)) (json.stringify payload) par_ttl_seconds s
