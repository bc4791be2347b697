-- ===== src/Refresh/Life.antt =====
-- The life of the refresh-token table: any sequence of the operations on it, from an empty one. A
-- rotation works on any row, so that a request may have read it before another one changed it.
use inite_auth_service.Common.{ℕ, String, [], Option, none, ◌≡◌, refl, arith, subst, sym}
use inite_auth_service.Store.{TokenRow, Db}
use inite_auth_service.Resource.{Runtime}
use inite_auth_service.Claims.{GenerateInput}
use inite_auth_service.Grace.{erase_expired_replays}
use inite_auth_service.Issuer.{Env, Request, generate_tokens, revoke_token}
use inite_auth_service.Refresh.{RefreshBounds, RefreshBoundClient, rotate, refresh, replayed}
use inite_auth_service.Refresh.Chain.{IsChained}
use inite_auth_service.Refresh.Quiet.{
  Settles-IsChained, revoke_token-Quiet, erase_expired_replays-Quiet, replayed-Quiet,
}
use inite_auth_service.Refresh.Table.{rotate-IsChained, refresh-IsChained, issue-IsChained}

module _ (env : Env) where
  pub data Step : Db → Db → Type 0 where
    issues :
        (req : Request) (input : GenerateInput) (db : Db)
        → input.rotated_from ≡ none
        → Step db (generate_tokens env req input none db).0
    refreshes :
        (req : Request) (js : Runtime) (registry value client_id : String)
        (client : Option RefreshBoundClient) (db : Db)
        → Step db (refresh env req js registry value client_id client db).0
    rotates :
        (req : Request) (token : TokenRow) (bounds : RefreshBounds) (db : Db)
        → Step db (rotate env req token bounds db).0
    replays : (req : Request) (token : TokenRow) (db : Db) → Step db (replayed env req token db).0
    revokes :
        (req : Request) (value client_id : String) (db : Db)
        → Step db (revoke_token env req value client_id db).0
    cleans : (now : ℕ) (db : Db) → Step db (erase_expired_replays now db).0

  pub data Reach (start : Db) : Db → Type 0 where
    begin : Reach start start
    after : {mid end : Db} → Reach start mid → Step mid end → Reach start end

  Step-IsChained : {a b : Db} → Step a b → IsChained a.tokens → IsChained b.tokens
  Step-IsChained (issues req input db root) c = issue-IsChained env req input db root c
  Step-IsChained (refreshes req js registry value client_id client db) c =
      refresh-IsChained env req js registry value client_id client db c
  Step-IsChained (rotates req token bounds db) c = rotate-IsChained env req token bounds db c
  Step-IsChained (replays req token db) c =
      Settles-IsChained ((replayed-Quiet env req token).settles db) c
  Step-IsChained (revokes req value client_id db) c =
      Settles-IsChained ((revoke_token-Quiet env req value client_id).settles db) c
  Step-IsChained (cleans now db) c =
      Settles-IsChained ((erase_expired_replays-Quiet now).settles db) c

  empty-IsChained : IsChained []
  empty-IsChained = record {
    kept = tt;
    chains = λ id. record {
      one_child = omega arith;
      live_childless = λ h. refl;
      parent_there = λ h. refl;
    };
  }

  -- From an empty table, whatever first issues, refreshes, rotations of rows read at any time,
  -- replays, revocations and erasures of ended pairs come, in whatever order: each token has one child at most, a
  -- live token has none, a child has its parent in the table, and a kept pair stands on a revoked row
  -- only.
  pub Reach-IsChained :
      (start end : Db) → start.tokens ≡ [] → Reach start end → IsChained end.tokens
  Reach-IsChained start end empty begin = subst IsChained (sym empty) empty-IsChained
  Reach-IsChained start end empty (after r s) = Step-IsChained s (Reach-IsChained start _ empty r)
