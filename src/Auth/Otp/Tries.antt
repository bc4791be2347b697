-- ===== src/Auth/Otp/Tries.antt =====
-- A one-time code as a machine on the record alone, and that OtpService.verify behaves as it does: the
-- time to live in Redis, which is in whole seconds, is never seen.
use inite_auth_service.Common.{
  ℕ, String, List, [], ◌∷◌, Option, none, some, Bool, true, false, ◌≡◌, refl, ◌≤◌, ◌+◌, ◌*◌, ◌==◌,
  ltb, leb, if◌then◌else◌, Bool-cases, inl, inr, arith, sym, ap, ◌∙◌, subst,
}
use inite_auth_service.Common.Effect.{Result, ok, err}
use inite_auth_service.Redis.{Redis, RedisLaws, JsonOf, JsonLaws}
use inite_auth_service.Redis.Values.{truthy-stringify}
use inite_auth_service.Auth.Otp.{
  OtpRecord, code_key, seconds_left, max_attempts, code_ttl_seconds, invalid_code, too_many_misses,
  missed, verify_record, verify_raw, verify, store_code, fresh_record,
}

pub record Try : Type 0 where
  pub at : ℕ
  pub code : String

-- The tries are in the order of their times, from `start` on.
abbrev pub From : ℕ → List Try → Type 0
From start [] = Unit
From start (try ∷ tries) = (start ≤ try.at) × From try.at tries

abbrev pub right : (String → String) → OtpRecord → Try → Bool
right sha256 held try = held.code_hash == sha256 try.code

-- The code while it is held, and the answer to a try.
abbrev pub step : (String → String) → Try → Option OtpRecord → Option OtpRecord × Result (Unit {0})
step sha256 try none = (none, err invalid_code)
step sha256 try (some held) =
    if leb held.expires_at try.at
    then (none, err invalid_code)
    else if right sha256 held try
    then (none, ok tt)
    else if leb max_attempts (held.attempts + 1)
    then (none, err too_many_misses)
    else (some (record held { attempts = held.attempts + 1 }), err invalid_code)

abbrev pub answers : (String → String) → List Try → Option OtpRecord → List (Result (Unit {0}))
answers sha256 [] held = []
answers sha256 (try ∷ tries) held =
    (step sha256 try held).1 ∷ answers sha256 tries (step sha256 try held).0

module _ {S : Type 0} (redis : Redis S) (records : JsonOf OtpRecord) (sha256 : String → String)
    (subject : String) where
  -- The service, one try after the other.
  abbrev pub run_tries : List Try → S → List (Result (Unit {0}))
  run_tries [] s = []
  run_tries (try ∷ tries) s =
      (verify redis records sha256 try.at subject try.code s).1
      ∷ run_tries tries (verify redis records sha256 try.at subject try.code s).0

  -- From `start` on the server shows the record until its key ends, which is not before the code does.
  abbrev pub Agrees : ℕ → S → Option OtpRecord → Type 0
  Agrees start s none = (t : ℕ) → start ≤ t → redis.get t (code_key subject) s ≡ none
  Agrees start s (some held) =
      (until : ℕ) × (held.expires_at ≤ until)
      × ((t : ℕ)
          → start ≤ t
          → redis.get t (code_key subject) s
            ≡ (if ltb t until then some (records.stringify held) else none))

  module _ (laws : RedisLaws redis) (json : (held : OtpRecord) → JsonLaws records held) where
    Agrees-del : (start : ℕ) (s : S) → Agrees start (redis.del (code_key subject) s) none
    Agrees-del start s t le = laws.get-del t (code_key subject) s

    Agrees-set :
        (now ttl : ℕ) (held : OtpRecord) (s : S)
        → 1 ≤ ttl
        → held.expires_at ≤ now + ttl * 1000
        → Agrees now (redis.set now (code_key subject) (records.stringify held) ttl s) (some held)
    Agrees-set now ttl held s positive le = (
      now + ttl * 1000,
      le,
      λ t from. laws.get-set now t ttl (code_key subject) (records.stringify held) s positive,
    )

    seconds_left-positive : (end now : ℕ) → 1 ≤ seconds_left end now
    seconds_left-positive end now = omega arith

    seconds_left-covers : (end now : ℕ) → end ≤ now + seconds_left end now * 1000
    seconds_left-covers end now = omega arith

    verify-held :
        (now : ℕ) (code : String) (held : OtpRecord) (s : S)
        → redis.get now (code_key subject) s ≡ some (records.stringify held)
        → verify redis records sha256 now subject code s
          ≡ verify_record redis records sha256 now (code_key subject) code (ok held) s
    unfolding verify verify_raw
    verify-held now code held s shown =
        rw shown
          (rw (truthy-stringify records held (json held)) (rw (json held).parse-stringify refl))

    verify-absent :
        (now : ℕ) (code : String) (s : S)
        → redis.get now (code_key subject) s ≡ none
        → verify redis records sha256 now subject code s ≡ (s, err invalid_code)
    unfolding verify verify_raw
    verify-absent now code s gone = rw gone refl

    -- What a request leaves and answers, as the machine does.
    abbrev Follows : Try → S × Result (Unit {0}) → Option OtpRecord → Type 0
    Follows try out held =
        (out.1 ≡ (step sha256 try held).1) × Agrees try.at out.0 (step sha256 try held).0

    record-Follows :
        (try : Try) (held : OtpRecord) (s : S)
        → Follows try
            (verify_record redis records sha256 try.at (code_key subject) try.code (ok held) s)
            (some held)
    unfolding verify_record missed
    record-Follows try held s = elim (Bool-cases (leb held.expires_at try.at)) [
      | inl late ↦ rw late (refl, Agrees-del try.at s)
      | inr timely ↦ elim (Bool-cases (right sha256 held try)) [
        | inl good ↦ rw timely (rw good (refl, Agrees-del try.at s))
        | inr wrong ↦ elim (Bool-cases (leb max_attempts (held.attempts + 1))) [
          | inl last ↦ rw timely (rw wrong (rw last (refl, Agrees-del try.at s)))
          | inr more ↦ rw timely (
              rw wrong (
                rw more (
                  refl,
                  Agrees-set try.at (seconds_left held.expires_at try.at)
                      (record held { attempts = held.attempts + 1 }) s
                      (seconds_left-positive held.expires_at try.at)
                      (seconds_left-covers held.expires_at try.at),
                )))
        ]
      ]
    ]

    verify-Follows :
        (start : ℕ) (try : Try) (held : Option OtpRecord) (s : S)
        → Agrees start s held
        → start ≤ try.at
        → Follows try (verify redis records sha256 try.at subject try.code s) held
    verify-Follows start try none s gone le =
        rw (verify-absent try.at try.code s (gone try.at le)) (refl, λ t from. gone t (omega arith))
    verify-Follows start try (some held) s (until, covers, shown) le =
        elim (Bool-cases (ltb try.at until)) [
          | inl there ↦
              subst (λ out. Follows try out (some held))
                (sym (verify-held try.at try.code held s (shown try.at le ∙ rw there refl)))
                (record-Follows try held s)
          | inr ended ↦
              subst (λ out. Follows try out (some held))
                (sym (verify-absent try.at try.code s (shown try.at le ∙ rw ended refl)))
                (past ended)
        ]
      where
        gone :
            (t : ℕ)
            → try.at ≤ t
            → ltb try.at until ≡ false
            → (if ltb t until then some (records.stringify held) else none) ≡ none
        gone t from ended = ground arith

        past : ltb try.at until ≡ false → Follows try (s, err invalid_code) (some held)
        past ended =
            let late : leb held.expires_at try.at ≡ true = ground arith in
            rw late (refl, λ t from. shown t (omega arith) ∙ gone t from ended)

    -- From a state that holds the record, and over tries in the order of their times, the service
    -- answers as the machine on the record alone does.
    pub run_tries-answers :
        (start : ℕ) (tries : List Try) (held : Option OtpRecord) (s : S)
        → Agrees start s held
        → From start tries
        → run_tries tries s ≡ answers sha256 tries held
    run_tries-answers start [] held s agrees from = refl
    run_tries-answers start (try ∷ tries) held s agrees (le, from) =
        let (same, next) = verify-Follows start try held s agrees le in
        rw same (
          ap (λ rest. (step sha256 try held).1 ∷ rest)
            (run_tries-answers try.at tries (step sha256 try held).0
              (verify redis records sha256 try.at subject try.code s).0 next from))

    -- After a code is stored, the service answers tries in the order of their times as the machine on
    -- the record alone does: the code is held for ten minutes, until it is tried right, or until the
    -- fifth wrong try.
    pub store_code-answers :
        (now : ℕ) (code : String) (tries : List Try) (s : S)
        → From now tries
        → run_tries tries (store_code redis records sha256 now subject code s).0
          ≡ answers sha256 tries (some (fresh_record sha256 now code))
    store_code-answers now code tries s from =
        run_tries-answers now tries (some (fresh_record sha256 now code))
          (store_code redis records sha256 now subject code s).0
          (Agrees-set now code_ttl_seconds (fresh_record sha256 now code) s (omega arith)
            (omega arith))
          from
