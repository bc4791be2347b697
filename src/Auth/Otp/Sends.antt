-- ===== src/Auth/Otp/Sends.antt =====
-- How often a one-time code is sent.
use inite_auth_service.Common.{
  ℕ, String, Option, none, some, Bool, true, false, ◌||◌, ◌≡◌, refl, ◌<◌, ◌+◌, ◌*◌, ltb, Bool-cases,
  inl, inr, arith, sym, ◌∙◌, truthy, Option-cases,
}
use inite_auth_service.Common.Text.Differ.{append-differ}
use inite_auth_service.Common.Effect.{
  Result, Fault, M, ok, err, too_many_requests, bad_request, ◌>>=◌, ◌>>◌, guard, pure,
}
use inite_auth_service.Common.Effect.Runs.{Result-cases, bind-ok, guard-true}
use inite_auth_service.Redis.{Redis, RedisLaws, JsonOf}
use inite_auth_service.Auth.Otp.{
  OtpRecord, SendCount, OtpChannel, is_email, code_key, cooldown_key, count_key, cooldown_seconds,
  code_ttl_seconds, fresh_record, enforce_rate_limits, after_cooldown, count_send, count_parsed,
  parsed, seconds_left, max_sends_per_hour, save_count, next_count, store_code, generate_and_send,
}

-- The answer of a send before its interval is over.
abbrev pub send_too_soon : Fault
send_too_soon = too_many_requests "Please wait before requesting another code"

cooldown-code : (subject : String) → cooldown_key subject ≡ code_key subject → ⊥
cooldown-code subject h = append-differ "otp:cooldown:" "otp:code:" subject subject refl h

count-cooldown : (subject : String) → count_key subject ≡ cooldown_key subject → ⊥
count-cooldown subject h = append-differ "otp:count:" "otp:cooldown:" subject subject refl h

code-cooldown : (subject : String) → code_key subject ≡ cooldown_key subject → ⊥
code-cooldown subject h = cooldown-code subject (sym h)

module _ {S : Type 0} (redis : Redis S) (laws : RedisLaws redis) (records : JsonOf OtpRecord)
    (sha256 : String → String) (counts : JsonOf SendCount) (subject : String) where
  abbrev waits : ℕ → S → Option String
  waits t s = redis.get t (cooldown_key subject) s

  save_count-waits :
      (now t : ℕ) (next : SendCount) (s : S)
      → waits t (save_count redis records sha256 now counts (count_key subject) next s).0
        ≡ waits t s
  unfolding save_count
  save_count-waits now t next s = elim (Bool-cases (ltb max_sends_per_hour next.count)) [
    | inl over ↦ rw over refl
    | inr under ↦ rw under (
        laws.get-set-other now t (seconds_left next.reset_at now) (count_key subject)
          (cooldown_key subject) (counts.stringify next) s (count-cooldown subject))
  ]

  count_parsed-waits :
      (now t : ℕ) (old : Result SendCount) (s : S)
      → waits t (count_parsed redis records sha256 now counts (count_key subject) old s).0
        ≡ waits t s
  unfolding count_parsed
  count_parsed-waits now t (err e) s = refl
  count_parsed-waits now t (ok old) s =
      save_count-waits now t (next_count redis records sha256 now (some old)) s

  count_send-waits :
      (now t : ℕ) (raw : Option String) (s : S)
      → waits t (count_send redis records sha256 now counts (count_key subject) raw s).0 ≡ waits t s
  unfolding count_send
  count_send-waits now t none s =
      save_count-waits now t (next_count redis records sha256 now none) s
  count_send-waits now t (some raw) s = elim (Bool-cases (truthy raw)) [
    | inl filled ↦ rw filled (count_parsed-waits now t (parsed (counts.parse raw)) s)
    | inr empty ↦ rw empty (save_count-waits now t (next_count redis records sha256 now none) s)
  ]

  -- A first send in its interval starts the interval, whether or not the count admits it.
  enforce-free :
      (now t : ℕ) (s : S)
      → waits now s ≡ none
      → t < now + cooldown_seconds * 1000
      → waits t (enforce_rate_limits redis records sha256 now counts subject s).0 ≡ some "1"
  unfolding enforce_rate_limits after_cooldown
  enforce-free now t s free soon =
      rw (laws.set_if_absent-none now cooldown_seconds (cooldown_key subject) "1" s free) (
        count_send-waits now t (redis.get now (count_key subject) (started now s)) (started now s)
        ∙ laws.get-set now t cooldown_seconds (cooldown_key subject) "1" s (omega arith)
        ∙ rw (early now t soon) refl)
    where
      started : ℕ → S → S
      started now s = redis.set now (cooldown_key subject) "1" cooldown_seconds s

      early :
          (now t : ℕ)
          → t < now + cooldown_seconds * 1000
          → ltb t (now + cooldown_seconds * 1000) ≡ true
      early now t h = ground arith

  enforce-held :
      (now : ℕ) (held : String) (s : S)
      → waits now s ≡ some held
      → enforce_rate_limits redis records sha256 now counts subject s ≡ (s, err send_too_soon)
  unfolding enforce_rate_limits after_cooldown
  enforce-held now held s h =
      rw (laws.set_if_absent-some now cooldown_seconds (cooldown_key subject) "1" held s h) refl

  module _ (sms_enabled : Bool) (channel : OtpChannel) where
    abbrev send : ℕ → String → String → S → S × Result (OtpChannel × String × String)
    send now code send_to =
        generate_and_send redis records sha256 now counts sms_enabled code subject channel send_to

    abbrev sends : ℕ → String → String → M S (OtpChannel × String × String)
    sends now code send_to = do
      enforce_rate_limits redis records sha256 now counts subject
      store_code redis records sha256 now subject code
      pure (channel, send_to, code)

    send-off :
        (now : ℕ) (code send_to : String) (s : S)
        → (is_email channel || sms_enabled) ≡ false
        → send now code send_to s ≡ (s, err (bad_request "" "SMS channel is not configured"))
    unfolding generate_and_send
    send-off now code send_to s off = rw (off, ◌>>◌, ◌>>=◌) (rw off refl)

    send-on :
        (now : ℕ) (code send_to : String) (s : S)
        → (is_email channel || sms_enabled) ≡ true
        → send now code send_to s ≡ sends now code send_to s
    unfolding generate_and_send
    send-on now code send_to s on =
        bind-ok
          (guard (is_email channel || sms_enabled) (bad_request "" "SMS channel is not configured"))
          (λ _. sends now code send_to) s (guard-true (is_email channel || sms_enabled) _ s on)

    sends-waits :
        (now t : ℕ) (code send_to : String) (sent : OtpChannel × String × String) (s : S)
        → (sends now code send_to s).1 ≡ ok sent
        → t < now + cooldown_seconds * 1000
        → waits t (sends now code send_to s).0 ≡ some "1"
    sends-waits now t code send_to sent s h soon = elim (Option-cases (waits now s)) [
      | inr (held, e) ↦
          absurd (apart send_too_soon (rw (enforce-held now held s e, ◌>>◌, ◌>>=◌) at h))
      | inl free ↦
          elim (Result-cases (enforce_rate_limits redis records sha256 now counts subject s).1) [
            | inr (x, e) ↦ absurd (apart x (rw (e, ◌>>◌, ◌>>=◌) at h))
            | inl (u, e) ↦ rw (e, ◌>>◌, ◌>>=◌) (kept (after now s) ∙ enforce-free now t s free soon)
          ]
    ]
      where
        apart : (x : Fault) → err x ≡ ok sent → ⊥
        apart x k = cc

        after : ℕ → S → S
        after now s = (enforce_rate_limits redis records sha256 now counts subject s).0

        kept : (s : S) → waits t (store_code redis records sha256 now subject code s).0 ≡ waits t s
        kept s =
            laws.get-set-other now t code_ttl_seconds (code_key subject) (cooldown_key subject)
              (records.stringify (fresh_record sha256 now code)) s (code-cooldown subject)

    sends-held :
        (now : ℕ) (code send_to held : String) (s : S)
        → waits now s ≡ some held
        → sends now code send_to s ≡ (s, err send_too_soon)
    sends-held now code send_to held s h =
        rw (enforce-held now held s h, ◌>>◌, ◌>>=◌) (rw (enforce-held now held s h) refl)

    -- For thirty seconds after a send that goes through, another send to the same subject on the same
    -- channel is refused and changes nothing, whatever its code and its address.
    pub send-cooldown :
        (now later : ℕ) (code again send_to address : String) (sent : OtpChannel × String × String)
        (s : S)
        → (send now code send_to s).1 ≡ ok sent
        → later < now + 30000
        → send later again address (send now code send_to s).0
          ≡ ((send now code send_to s).0, err send_too_soon)
    send-cooldown now later code again send_to address sent s h soon =
        elim (Bool-cases (is_email channel || sms_enabled)) [
          | inr off ↦ absurd (apart (rw (send-off now code send_to s off) at h))
          | inl on ↦
              send-on later again address (send now code send_to s).0 on
              ∙ sends-held later again address "1" (send now code send_to s).0 (
                  rw (send-on now code send_to s on) (
                    sends-waits now later code send_to sent s
                      (rw (send-on now code send_to s on) at h) soon))
        ]
      where
        apart : err (bad_request "" "SMS channel is not configured") ≡ ok sent → ⊥
        apart k = cc
