-- ===== src/Auth/Otp/Guesses.antt =====
-- How many tries a one-time code stands: it is accepted once, and not after five wrong ones.
use inite_auth_service.Common.{
  ℕ, String, List, [], ◌∷◌, ◌++◌, Option, none, some, Bool, true, false, ◌≡◌, refl, ◌≤◌, ◌+◌, suc,
  leb, Bool-cases, inl, inr, arith, count_where, length, any,
}
use inite_auth_service.Common.Effect.{Result, ok, err}
use inite_auth_service.Redis.{Redis, RedisLaws, JsonOf, JsonLaws}
use inite_auth_service.Auth.Otp.{OtpRecord, max_attempts, store_code, fresh_record}
use inite_auth_service.Auth.Otp.Tries.{Try, From, right, answers, run_tries, store_code-answers}

abbrev pub accepted : Result (Unit {0}) → Bool
accepted (ok u) = true
accepted (err e) = false

module _ (sha256 : String → String) where
  none-refused : (tries : List Try) → count_where accepted (answers sha256 tries none) ≡ 0
  none-refused [] = refl
  none-refused (try ∷ tries) = none-refused tries

  answers-once :
      (tries : List Try) (held : Option OtpRecord)
      → count_where accepted (answers sha256 tries held) ≤ 1
  answers-once [] held = omega arith
  answers-once (try ∷ tries) none = answers-once tries none
  answers-once (try ∷ tries) (some held) = elim (Bool-cases (leb held.expires_at try.at)) [
    | inl late ↦ rw late (answers-once tries none)
    | inr timely ↦ elim (Bool-cases (right sha256 held try)) [
      | inl good ↦ rw timely (rw good (omega (arith, none-refused tries)))
      | inr wrong ↦ elim (Bool-cases (leb max_attempts (held.attempts + 1))) [
        | inl last ↦ rw timely (rw wrong (rw last (answers-once tries none)))
        | inr more ↦ rw timely (
            rw wrong
              (rw more (answers-once tries (some (record held { attempts = held.attempts + 1 })))))
      ]
    ]
  ]

  -- The wrong tries come first, at least as many as are left.
  misses-refused :
      (wrong rest : List Try) (held : OtpRecord)
      → any (right sha256 held) wrong ≡ false
      → max_attempts ≤ held.attempts + length wrong
      → suc held.attempts ≤ max_attempts
      → count_where accepted (answers sha256 (wrong ++ rest) (some held)) ≡ 0
  misses-refused [] rest held h enough left = absurd (omega arith)
  misses-refused (try ∷ wrong) rest held h enough left =
      let this : right sha256 held try ≡ false = ground arith in
      let others : any (right sha256 held) wrong ≡ false = ground arith in
      elim (Bool-cases (leb held.expires_at try.at)) [
        | inl late ↦ rw late (none-refused (wrong ++ rest))
        | inr timely ↦ elim (Bool-cases (leb max_attempts (held.attempts + 1))) [
          | inl last ↦ rw timely (rw this (rw last (none-refused (wrong ++ rest))))
          | inr more ↦ rw timely (
              rw this (
                rw more (
                  misses-refused wrong rest (record held { attempts = held.attempts + 1 }) others
                    (omega arith) (ground arith))))
        ]
      ]

module _ {S : Type 0} (redis : Redis S) (laws : RedisLaws redis) (records : JsonOf OtpRecord)
    (json : (held : OtpRecord) → JsonLaws records held) (sha256 : String → String)
    (subject : String) (now : ℕ) (code : String) (s : S) where
  -- After a code is stored, of any tries in the order of their times at most one is accepted.
  pub tries-once :
      (tries : List Try)
      → From now tries
      → count_where accepted (
          run_tries redis records sha256 subject tries
            (store_code redis records sha256 now subject code s).0)
        ≤ 1
  tries-once tries from =
      rw (store_code-answers redis records sha256 subject laws json now code tries s from)
        (answers-once sha256 tries (some (fresh_record sha256 now code)))

  -- After a code is stored, of any tries in the order of their times that start with five whose hash
  -- is not that of the code none is accepted, the right code included.
  pub five_misses-refused :
      (wrong rest : List Try)
      → From now (wrong ++ rest)
      → any (right sha256 (fresh_record sha256 now code)) wrong ≡ false
      → 5 ≤ length wrong
      → count_where accepted (
          run_tries redis records sha256 subject
            (wrong ++ rest)
            (store_code redis records sha256 now subject code s).0)
        ≡ 0
  five_misses-refused wrong rest from h enough =
      rw (store_code-answers redis records sha256 subject laws json now code (wrong ++ rest) s from)
        (misses-refused sha256 wrong rest (fresh_record sha256 now code) h (omega arith)
          (omega arith))
