-- ===== src/Issuer/Insert.antt =====
-- The insert of a refresh token behind a gate: how issuing ends, from how the transaction ends.
use inite_auth_service.Common.{some, ◌≡◌, refl}
use inite_auth_service.Common.Effect.{M, Fault, ok, err, transaction, ◌>>◌, ◌>>=◌}
use inite_auth_service.Store.{Db, create_token}
use inite_auth_service.Grace.{IssuedTokens}
use inite_auth_service.Claims.{GenerateInput}
use inite_auth_service.Issuer.{
  Env, Request, issued_for, refresh_row, generate_tokens, persist_refresh_token, gated,
}

module _ (env : Env) (req : Request) (input : GenerateInput) (gate : IssuedTokens → M Db (Unit {0}))
    (db end : Db) where
  abbrev pub insertion : M Db (Unit {0})
  insertion = transaction (
      gate (issued_for env req db input)
      >> create_token (refresh_row env req db input (issued_for env req db input)))

  pub generate-ok :
      insertion db ≡ (end, ok tt)
      → generate_tokens env req input (some gate) db ≡ (end, ok (issued_for env req db input))
  unfolding generate_tokens persist_refresh_token gated
  generate-ok e =
      rw (e, generate_tokens, ◌>>◌, ◌>>=◌) (rw (e, persist_refresh_token, gated, ◌>>=◌) refl)

  pub generate-err :
      {x : Fault}
      → insertion db ≡ (end, err x)
      → generate_tokens env req input (some gate) db ≡ (end, err x)
  unfolding generate_tokens persist_refresh_token gated
  generate-err e =
      rw (e, generate_tokens, ◌>>◌, ◌>>=◌) (rw (e, persist_refresh_token, gated, ◌>>=◌) refl)
