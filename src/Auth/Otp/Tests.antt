-- ===== src/Auth/Otp/Tests.antt =====
-- Concrete runs of the one-time codes.
use inite_auth_service.Common.{
  ℕ, String, List, [], ◌∷◌, Option, none, some, false, ◌≡◌, refl, ◌++◌, arith, count_where, sym, ap,
  ◌∙◌,
}
use inite_auth_service.Common.Effect.{Result, ok, err}
use inite_auth_service.Redis.{JsonOf, JsonLaws}
use inite_auth_service.Redis.Table.{Memory, table_redis, table_redis_laws}
use inite_auth_service.Redis.Tally.{tally, read_tally, read_tally-tally}
use inite_auth_service.Auth.Otp.{
  OtpRecord, SendCount, OtpChannel, email, store_code, fresh_record, generate_and_send,
}
use inite_auth_service.Auth.Otp.Tries.{Try, run_tries, answers, store_code-answers}
use inite_auth_service.Auth.Otp.Guesses.{accepted, five_misses-refused}
use inite_auth_service.Auth.Otp.Sends.{send_too_soon, send-cooldown}

-- A record as a text: its numbers, then its hash.
abbrev with_hash : ℕ → Option (ℕ × String) → Option OtpRecord
with_hash attempts none = none
with_hash attempts (some (end, hash)) =
    some (record { code_hash = hash; attempts = attempts; expires_at = end })

abbrev with_end : Option (ℕ × String) → Option OtpRecord
with_end none = none
with_end (some (attempts, rest)) = with_hash attempts (read_tally rest)

abbrev otp_json : JsonOf OtpRecord
otp_json = record {
  stringify = λ r. tally r.attempts (tally r.expires_at r.code_hash);
  parse = λ s. with_end (read_tally s);
}

tally-filled : (n : ℕ) (rest : String) → tally n rest ≡ "" → ⊥
tally-filled n rest h = apart (n, rest) (sym (read_tally-tally n rest) ∙ ap read_tally h)
  where
    apart : (x : ℕ × String) → some x ≡ none → ⊥
    apart x k = cc

otp_json_laws : (r : OtpRecord) → JsonLaws otp_json r
otp_json_laws r = record {
  parse-stringify =
      rw (read_tally-tally r.attempts (tally r.expires_at r.code_hash))
        (rw (read_tally-tally r.expires_at r.code_hash) refl);
  filled = tally-filled r.attempts (tally r.expires_at r.code_hash);
}

abbrev count_json : JsonOf SendCount
count_json = record { stringify = λ c. "{}"; parse = λ s. none }

abbrev same_text : String → String
same_text s = s

abbrev try : ℕ → String → Try
try at code = record { at = at; code = code }

abbrev two_tries : List Try
two_tries = try 2000 "000000" ∷ try 3000 "123456" ∷ []

abbrev code_stored : Memory
code_stored = (store_code table_redis otp_json same_text 1000 "mfa:u1" "123456" []).0

-- Otp.store_code-answers on a wrong try and a right one
store_code-answers_example :
    run_tries table_redis otp_json same_text "mfa:u1" two_tries code_stored
    ≡ answers same_text two_tries (some (fresh_record same_text 1000 "123456"))
store_code-answers_example =
    store_code-answers table_redis otp_json same_text "mfa:u1" table_redis_laws otp_json_laws 1000
      "123456" two_tries [] (omega arith, (omega arith, tt))

abbrev five_wrong : List Try
five_wrong =
    try 2000 "000000"
    ∷ try 3000 "000001"
    ∷ try 4000 "000002"
    ∷ try 5000 "000003"
    ∷ try 6000 "000004"
    ∷ []

-- The right code comes sixth.
five_misses-refused_example :
    count_where accepted (
      run_tries table_redis otp_json same_text "mfa:u1"
        (five_wrong ++ try 7000 "123456" ∷ [])
        code_stored)
    ≡ 0
five_misses-refused_example =
    five_misses-refused table_redis table_redis_laws otp_json otp_json_laws same_text "mfa:u1" 1000
      "123456" [] five_wrong (try 7000 "123456" ∷ [])
      (omega arith, (omega arith, (omega arith, (omega arith, (omega arith, (omega arith, tt))))))
      refl (omega arith)

abbrev sent_to : ℕ → String → Memory → Memory × Result (OtpChannel × String × String)
sent_to now code s =
    generate_and_send table_redis otp_json same_text now count_json false code "mfa:u1" email
      "ann@example.com" s

first_sent : (sent_to 1000 "123456" []).1 ≡ ok (email, "ann@example.com", "123456")
unfolding generate_and_send
first_sent = refl

send-cooldown_example :
    sent_to 20000 "654321" (sent_to 1000 "123456" []).0
    ≡ ((sent_to 1000 "123456" []).0, err send_too_soon)
send-cooldown_example =
    send-cooldown table_redis table_redis_laws otp_json same_text count_json "mfa:u1" false email
      1000 20000 "123456" "654321" "ann@example.com" "ann@example.com"
      (email, "ann@example.com", "123456") [] first_sent (omega arith)
