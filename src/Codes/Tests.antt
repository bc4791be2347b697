-- ===== src/Codes/Tests.antt =====
-- The theorems on codes at one code.
use inite_auth_service.Common.{
  [], ◌∷◌, none, some, true, false, not, ◌&&◌, ◌||◌, ◌≡◌, refl, arith, any, is_some,
}
use inite_auth_service.Common.Effect.{ok, err, bad_request}
use inite_auth_service.Store.{Db, CodeRow, TokenRow, find_client, create_token}
use inite_auth_service.Grace.{IssuedTokens}
use inite_auth_service.Claims.{resolve_org_context}
use inite_auth_service.Issuer.{generate_tokens, persist_refresh_token, issued_for, refresh_row}
use inite_auth_service.Codes.{
  ExchangeAuthorizationCodeInput, exchange_authorization_code, exchange_input,
  verify_code_challenge, of_person, mark_used, update_codes, find_code, redeem, check_verifier,
  resolve_code_audience,
}
use inite_auth_service.Codes.Exchange.{exchange-once}
use inite_auth_service.Codes.Replay.{exchange-replay, exchange-pkce}
use inite_auth_service.Samples.{env, request, js, sample_code, one_code, token_row}

abbrev ask : ExchangeAuthorizationCodeInput
ask = record {
  code = "c1";
  client_id = "web";
  redirect_uri = "https://web/cb";
  code_verifier = some "v1";
}

exchange-once_example :
    (exchange_authorization_code env
      (request 4000 "s2" "t2")
      (λ s. s)
      js
      ""
      ask
      (exchange_authorization_code env (request 3000 "s1" "t1") (λ s. s) js "" ask one_code).0).1
    ≡ err (bad_request "" "Invalid or expired authorization code")
exchange-once_example =
    exchange-once env (λ s. s) js "" ask (request 3000 "s1" "t1") (request 4000 "s2" "t2") one_code
      (omega arith)

abbrev used_code : CodeRow
used_code = mark_used sample_code

abbrev replay_db : Db
replay_db = record one_code { codes = used_code ∷ []; tokens = token_row "t1" "s1" none ∷ [] }

exchange-replay_example :
    ((exchange_authorization_code env (request 4000 "s2" "t2") (λ s. s) js "" ask replay_db).1
      ≡ err (bad_request "" "Invalid or expired authorization code"))
    × (any
          (λ (r : TokenRow). of_person used_code r && (not r.revoked || is_some r.grace_replay))
          (exchange_authorization_code env
            (request 4000 "s2" "t2")
            (λ s. s)
            js
            ""
            ask
            replay_db).0.tokens
        ≡ false)
exchange-replay_example =
    exchange-replay env (request 4000 "s2" "t2") (λ s. s) js "" ask replay_db used_code refl refl
      (λ h. omega (arith, h))

tokens : IssuedTokens
tokens =
    issued_for env (request 3000 "s1" "t1") one_code
      (exchange_input env (request 3000 "s1" "t1") (λ s. s) js "" "web" sample_code none)

issued :
    (exchange_authorization_code env (request 3000 "s1" "t1") (λ s. s) js "" ask one_code).1
    ≡ ok tokens
unfolding tokens exchange_authorization_code update_codes find_code redeem check_verifier
    verify_code_challenge resolve_code_audience find_client generate_tokens persist_refresh_token
    create_token issued_for refresh_row exchange_input resolve_org_context
issued = refl

exchange-pkce_example : verify_code_challenge (λ s. s) "v1" "v1" "plain" ≡ true
exchange-pkce_example =
    exchange-pkce env (request 3000 "s1" "t1") (λ s. s) js "" ask one_code tokens issued used_code
      refl refl
