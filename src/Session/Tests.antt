-- ===== src/Session/Tests.antt =====
-- Signing out everywhere, on one session.
use inite_auth_service.Common.{some, true, false, ◌≡◌, any, count_where, select}
use inite_auth_service.Common.Effect.{ok}
use inite_auth_service.Samples.{one_token}
use inite_auth_service.Session.{revoke_all_sessions}
use inite_auth_service.Session.Everywhere.{
  lingering, spared_live, foreign, revoke_all_sessions-ends,
}

revoke_all_sessions-ends_example :
    ((revoke_all_sessions true 5000 "u1" (some "t9") one_token).1 ≡ ok tt)
    × (any
          (lingering 5000 "u1" (some "t9"))
          (revoke_all_sessions true 5000 "u1" (some "t9") one_token).0.tokens
        ≡ false)
    × (count_where
          (spared_live 5000 "u1" (some "t9"))
          (revoke_all_sessions true 5000 "u1" (some "t9") one_token).0.tokens
        ≡ count_where (spared_live 5000 "u1" (some "t9")) one_token.tokens)
    × (select
          (foreign 5000 "u1" (some "t9"))
          (revoke_all_sessions true 5000 "u1" (some "t9") one_token).0.tokens
        ≡ select (foreign 5000 "u1" (some "t9")) one_token.tokens)
revoke_all_sessions-ends_example = revoke_all_sessions-ends 5000 "u1" (some "t9") true one_token
