-- ===== src/Refresh/Table.antt =====
-- Issuing, rotating and refreshing keep the chains of the table.
use inite_auth_service.Common.{
  String, [], ◌∷◌, ◌++◌, Option, none, some, Bool, true, false, ◌≡◌, inl, inr, refl, arith, any,
  count_where, Bool-cases, nat_eq, if◌then◌else◌, not, ltb, ◌==◌, find_first,
}
use inite_auth_service.Common.Effect.{M, ok, err, Result, lift_result, ◌>>=◌, Fault, throw}
use inite_auth_service.Store.{TokenRow, Db, clashes, create_token, has_lookup, find_token}
use inite_auth_service.Resource.{Runtime}
use inite_auth_service.Claims.{GenerateInput}
use inite_auth_service.Issuer.{
  Env, Request, refresh_row, generate_tokens, persist_refresh_token, issued_for,
}
use inite_auth_service.Refresh.{
  RefreshBounds, RefreshBoundClient, rotate, refresh, replayed, respond, refresh_bounds,
  rotation_input, dead_refresh_token,
}
use inite_auth_service.Refresh.Chain.{append-IsChained, is_live, IsChained}
use inite_auth_service.Refresh.Claim.{claimed-Joins, no_clash-fresh}
use inite_auth_service.Refresh.Quiet.{Settles-IsChained, lost_race-Quiet, replayed-Quiet}
use inite_auth_service.Refresh.Rotation.{child, claimed, rotate-won, rotate-lost, rotate-clash}

module _ (env : Env) (req : Request) (token : TokenRow) (bounds : RefreshBounds) (db : Db) where
  child-parent : (child env req token bounds db).rotated_from ≡ some token.id
  unfolding refresh_row rotation_input
  child-parent = refl

  child-unkept : (child env req token bounds db).grace_replay ≡ none
  unfolding refresh_row
  child-unkept = refl

  -- A rotation, won, lost or refused by the table, on whatever row was read for it, keeps the chains:
  -- one child for each token at most, none for a live one, and each child's parent in the table.
  pub rotate-IsChained : IsChained db.tokens → IsChained (rotate env req token bounds db).0.tokens
  rotate-IsChained c = elim (Bool-cases (nat_eq (count_where (is_live token.id) db.tokens) 1)) [
    | inr e ↦
        rw (rotate-lost env req token bounds db (ground arith))
          (Settles-IsChained ((lost_race-Quiet env req token).settles db) c)
    | inl e ↦
        elim (Bool-cases
          (any (clashes (child env req token bounds db)) (claimed env req token bounds db))) [
            | inl taken ↦ rw (rotate-clash env req token bounds db (ground arith) taken) c
            | inr free ↦ rw (rotate-won env req token bounds db (ground arith) free) (
                claimed-Joins req.now token (child env req token bounds db) _ db c child-parent
                  child-unkept (ground arith) free)
          ]
  ]

-- Where the table has no row that clashes, a first issue adds a row without a parent.
module _ (env : Env) (req : Request) (input : GenerateInput) (db : Db) where
  abbrev first_row : TokenRow
  first_row = refresh_row env req db input (issued_for env req db input)

  first-Joins :
      input.rotated_from ≡ none
      → any (clashes first_row) db.tokens ≡ false
      → IsChained db.tokens
      → IsChained (db.tokens ++ first_row ∷ [])
  unfolding refresh_row
  first-Joins root free c =
      append-IsChained db.tokens first_row
        (record {
          fresh = no_clash-fresh first_row db.tokens free;
          unkept = refl;
          parent = λ id e. cc (root, e);
        })
        c

  pub issue-IsChained :
      input.rotated_from ≡ none
      → IsChained db.tokens
      → IsChained (generate_tokens env req input none db).0.tokens
  unfolding generate_tokens persist_refresh_token create_token
  issue-IsChained root c = elim (Bool-cases (any (clashes first_row) db.tokens)) [
    | inl taken ↦ rw taken (rw (taken, persist_refresh_token, create_token, ◌>>=◌) c)
    | inr free ↦
        rw free (rw (free, persist_refresh_token, create_token, ◌>>=◌) (first-Joins root free c))
  ]

module _ {ℓ} {A : Type ℓ} where
  record Keeps (m : M Db A) : Type 0 where
    keeps : (db : Db) → IsChained db.tokens → IsChained (m db).0.tokens

  throw-Keeps : (e : Fault) → Keeps (throw {A = A} e)
  throw-Keeps e = record { keeps = λ db c. c }

  if-Keeps : (b : Bool) (m n : M Db A) → Keeps m → Keeps n → Keeps (if b then m else n)
  if-Keeps true m n q r = q
  if-Keeps false m n q r = r

module _ (env : Env) (req : Request) (js : Runtime) (registry : String) where
  bounded-Keeps :
      (token : TokenRow) (b : Result RefreshBounds) → Keeps (lift_result b >>= rotate env req token)
  bounded-Keeps token (ok b) = record { keeps = rotate-IsChained env req token b }
  bounded-Keeps token (err e) = throw-Keeps e

  replayed-Keeps : (token : TokenRow) → Keeps (replayed env req token)
  replayed-Keeps token = record {
    keeps = λ db. Settles-IsChained ((replayed-Quiet env req token).settles db);
  }

  respond-Keeps :
      (client_id : String) (client : Option RefreshBoundClient) (found : Option TokenRow)
      → Keeps (respond env req js registry client_id client found)
  unfolding respond
  respond-Keeps client_id client none = throw-Keeps _
  respond-Keeps client_id client (some token) =
      if-Keeps (not (token.client_id == client_id)) _ _
        (throw-Keeps (dead_refresh_token "Invalid refresh token"))
        (if-Keeps token.revoked _ _ (replayed-Keeps token) (
          if-Keeps (ltb token.expires_at req.now) _ _
            (throw-Keeps (dead_refresh_token "Refresh token expired"))
            (bounded-Keeps token (refresh_bounds js registry client token))))

  -- The whole refresh request keeps the chains, on each of its branches.
  pub refresh-IsChained :
      (value client_id : String) (client : Option RefreshBoundClient) (db : Db)
      → IsChained db.tokens
      → IsChained (refresh env req js registry value client_id client db).0.tokens
  unfolding refresh find_token
  refresh-IsChained value client_id client db =
      (respond-Keeps client_id client (find_first (has_lookup (env.hmac value)) db.tokens)).keeps db
