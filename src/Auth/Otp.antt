-- ===== src/Auth/Otp.antt =====
-- src/auth/otp/otp.service.ts: one-time codes by email or SMS. The state is the Redis server; `sha256`
-- is SHA-256 in hex. A request reads the clock once, and the six digits that it draws are an argument.
pub mod Tries
pub mod Guesses
pub mod Sends
pub mod Factors
mod Tests
use inite_auth_service.Common.{
  ℕ, String, Option, none, some, Bool, true, false, not, ◌||◌, ◌+◌, ◌-◌, ◌*◌, ◌/◌, max, ltb, leb,
  ◌==◌, if◌then◌else◌, truthy, is_some, or_else,
}
use Prim.Native.String.{◌++◌ as append}
use inite_auth_service.Common.Effect.{
  M, pure, throw, ◌>>=◌, ◌>>◌, guard, Result, ok, err, Fault, bad_request, unauthorized,
  too_many_requests, internal,
}
use inite_auth_service.Redis.{Redis, JsonOf}

pub data OtpChannel : Type 0 where
  email sms : OtpChannel

abbrev pub code_ttl_seconds : ℕ
code_ttl_seconds = 600

abbrev pub max_attempts : ℕ
max_attempts = 5

abbrev pub cooldown_seconds : ℕ
cooldown_seconds = 30

abbrev pub max_sends_per_hour : ℕ
max_sends_per_hour = 6

pub record OtpRecord : Type 0 where
  pub code_hash : String
  pub attempts : ℕ
  pub expires_at : ℕ

-- What is kept under the key of the count.
pub record SendCount : Type 0 where
  pub count : ℕ
  pub reset_at : ℕ

abbrev pub code_key : String → String
code_key subject = append "otp:code:" subject

abbrev pub cooldown_key : String → String
cooldown_key subject = append "otp:cooldown:" subject

abbrev pub count_key : String → String
count_key subject = append "otp:count:" subject

-- `Math.max(1, Math.ceil((end - now) / 1000))`
abbrev pub seconds_left : ℕ → ℕ → ℕ
seconds_left end now = max 1 ((end - now + 999) / 1000)

abbrev is_email : OtpChannel → Bool
is_email email = true
is_email sms = false

-- `JSON.parse` throws on other texts.
abbrev parsed : {A : Type 0} → Option A → Result A
parsed none = err (internal "SyntaxError")
parsed (some a) = ok a

abbrev pub invalid_code : Fault
invalid_code = unauthorized "" "Invalid or expired code"

abbrev pub too_many_misses : Fault
too_many_misses = unauthorized "" "Too many incorrect attempts. Request a new code."

-- The hash is hex on both sides, where equal texts have equal lengths.
abbrev timing_safe_equal_hex : String → String → Bool
timing_safe_equal_hex a b = a == b

abbrev pub fresh_record : (String → String) → ℕ → String → OtpRecord
fresh_record sha256 now code = record {
  code_hash = sha256 code;
  attempts = 0;
  expires_at = now + code_ttl_seconds * 1000;
}

module _ {ℓ} {S : Type ℓ} (redis : Redis S) (records : JsonOf OtpRecord) (sha256 : String → String)
    (now : ℕ) where
  -- A wrong code: burned after too many, else counted.
  missed : String → OtpRecord → M S (Unit {0})
  missed key held s =
      let attempts : ℕ = held.attempts + 1 in
      if leb max_attempts attempts then (redis.del key s, err too_many_misses) else (
        redis.set now key (records.stringify (record held { attempts = attempts }))
            (seconds_left held.expires_at now) s,
        err invalid_code,
      )

  verify_record : String → String → Result OtpRecord → M S (Unit {0})
  unfolding missed
  verify_record key code (err e) s = (s, err e)
  verify_record key code (ok held) s =
      if leb held.expires_at now
      then (redis.del key s, err invalid_code)
      else if timing_safe_equal_hex held.code_hash (sha256 code)
      then (redis.del key s, ok tt)
      else missed key held s

  verify_raw : String → String → Option String → M S (Unit {0})
  unfolding verify_record
  verify_raw key code none s = (s, err invalid_code)
  verify_raw key code (some raw) s =
      if not (truthy raw)
      then (s, err invalid_code)
      else verify_record key code (parsed (records.parse raw)) s

  unfoldable pub verify : String → String → M S (Unit {0})
  unfolding verify_raw
  verify subject code s = verify_raw (code_key subject) code (redis.get now (code_key subject) s) s

  -- The next state of the count: a window that is over starts anew.
  next_count : Option SendCount → SendCount
  next_count none = record { count = 1; reset_at = now + 3600000 }
  next_count (some old) =
      if ltb now old.reset_at
      then record { count = old.count + 1; reset_at = old.reset_at }
      else record { count = 1; reset_at = now + 3600000 }

  save_count : JsonOf SendCount → String → SendCount → M S (Unit {0})
  save_count counts key next s =
      if ltb max_sends_per_hour next.count
      then (s, err (too_many_requests "Too many codes requested. Try again later."))
      else (redis.set now key (counts.stringify next) (seconds_left next.reset_at now) s, ok tt)

  count_parsed : JsonOf SendCount → String → Result SendCount → M S (Unit {0})
  unfolding next_count save_count
  count_parsed counts key (err e) s = (s, err e)
  count_parsed counts key (ok old) s = save_count counts key (next_count (some old)) s

  count_send : JsonOf SendCount → String → Option String → M S (Unit {0})
  unfolding count_parsed
  count_send counts key none s = save_count counts key (next_count none) s
  count_send counts key (some raw) s =
      if not (truthy raw)
      then save_count counts key (next_count none) s
      else count_parsed counts key (parsed (counts.parse raw)) s

  after_cooldown : JsonOf SendCount → String → S × Bool → S × Result (Unit {0})
  unfolding count_send
  after_cooldown counts key (s, false) =
      (s, err (too_many_requests "Please wait before requesting another code"))
  after_cooldown counts key (s, true) = count_send counts key (redis.get now key s) s

  unfoldable pub enforce_rate_limits : JsonOf SendCount → String → M S (Unit {0})
  unfolding after_cooldown
  enforce_rate_limits counts subject s =
      after_cooldown counts (count_key subject)
        (redis.set_if_absent now (cooldown_key subject) "1" cooldown_seconds s)

  abbrev pub store_code : String → String → M S (Unit {0})
  store_code subject code s = (
    redis.set now (code_key subject) (records.stringify (fresh_record sha256 now code))
        code_ttl_seconds s,
    ok tt,
  )

  -- `generateAndSend`: the channel, the address and the code that are handed to the delivery, whose
  -- failure is only logged. `code` is the six digits that are drawn.
  unfoldable pub generate_and_send :
      (counts : JsonOf SendCount) (sms_enabled : Bool) (code subject : String)
      → OtpChannel
      → String
      → M S (OtpChannel × String × String)
  unfolding enforce_rate_limits
  generate_and_send counts sms_enabled code subject channel send_to = do
    guard (is_email channel || sms_enabled) (bad_request "" "SMS channel is not configured")
    enforce_rate_limits counts subject
    store_code subject code
    pure (channel, send_to, code)
