-- ===== src/Refresh/Bounds.antt =====
-- When a refresh issues a token, and how far the new grant reaches.
use inite_auth_service.Common.{
  String, List, Option, none, some, Bool, true, false, not, ◌&&◌, ◌≡◌, ◌≢◌, refl, arith, ◌≤◌,
  length, find_first, includes, Bool-cases, inl, inr, if◌then◌else◌, sym, ◌∙◌, ap, ltb, ◌==◌,
  eq_iff, or_else, any,
}
use inite_auth_service.Common.Text.{words, join}
use inite_auth_service.Common.Text.Words.{words-join}
use inite_auth_service.Common.Effect.{M, ok, err}
use inite_auth_service.Scopes.{row, permitted_scopes}
use inite_auth_service.Scopes.Laws.{allowed_for, includes-permitted_scopes, permitted_scopes-IsWord}
use inite_auth_service.Resource.{Runtime, is_resource_allowed}
use inite_auth_service.Store.{TokenRow, Db, has_lookup, find_token}
use inite_auth_service.Grace.{IssuedTokens}
use inite_auth_service.Issuer.{Env, Request}
use inite_auth_service.Refresh.{
  RefreshBounds, RefreshBoundClient, refresh_bounds, scope_part, resource_part, refresh, respond,
  replayed, dead_refresh_token,
}
use inite_auth_service.Refresh.Chain.{is_live}
use inite_auth_service.Refresh.Quiet.{replayed-Quiet, Settles-length, Settles-live}

module _ (js : Runtime) (registry : String) (client : RefreshBoundClient) (token : TokenRow) where
  -- A client's refresh is refused when its rules no longer let it target the token's resource;
  -- otherwise the grant keeps that resource, and its scopes are those of the token that the client
  -- may hold now.
  pub refresh_bounds-narrows :
      (bounds : RefreshBounds)
      → refresh_bounds js registry (some client) token ≡ ok bounds
      → (is_resource_allowed js registry (resource_part client) token.resource ≡ true)
        × (bounds.resource ≡ token.resource)
        × ((s : String)
            → includes (words bounds.scope) s ≡ (
                includes (words (or_else token.scope "")) s
                && includes (allowed_for (row (scope_part client))) s))
  unfolding refresh_bounds
  refresh_bounds-narrows bounds h =
      elim (Bool-cases (is_resource_allowed js registry (resource_part client) token.resource)) [
        | inr e ↦ absurd (err_not_ok (rw e at h))
        | inl e ↦ (
          e,
          ap (λ b. b.resource) (sym (same (rw e at h))),
          λ s.
              ap (λ b. includes (words b.scope) s) (sym (same (rw e at h)))
              ∙ ap (λ ws. includes ws s)
                  (words-join held (permitted_scopes-IsWord (row (scope_part client)) token.scope))
              ∙ includes-permitted_scopes (row (scope_part client)) token.scope s,
        )
      ]
    where
      held : List String
      held = permitted_scopes (row (scope_part client)) token.scope

      same :
          ok (record { scope = join " " held; resource = token.resource }) ≡ ok bounds
          → record { scope = join " " held; resource = token.resource } ≡ bounds
      same e = cc

      err_not_ok :
          err (dead_refresh_token "Refresh token is bound to a resource this client may not target")
            ≡ ok bounds
          → ⊥
      err_not_ok e = cc

module _ (env : Env) (req : Request) where
  -- The answer to a replayed token issues nothing: the table keeps its rows, and no token becomes
  -- live that was not.
  pub replayed-mints_none :
      (token : TokenRow) (id : String) (db : Db)
      → (length (replayed env req token db).0.tokens ≡ length db.tokens)
        × ((any (is_live id) (replayed env req token db).0.tokens
              && not (any (is_live id) db.tokens))
            ≡ false)
  replayed-mints_none token id db = (
    Settles-length ((replayed-Quiet env req token).settles db),
    ground (arith, Settles-live ((replayed-Quiet env req token).settles db) id),
  )

pick :
    {A : Type 0} (b : Bool) (m n : M Db A) (P : M Db A → Type 0)
    → (b ≡ true → P m)
    → (b ≡ false → P n)
    → P (if b then m else n)
pick true m n P q r = q refl
pick false m n P q r = r refl

module _ (env : Env) (req : Request) (js : Runtime) (registry : String) (client_id : String)
    (client : Option RefreshBoundClient) (db : Db) where
  abbrev Grows : M Db IssuedTokens → Type 0
  Grows m = length (m db).0.tokens ≢ length db.tokens

  abbrev pub Fit : TokenRow → Type 0
  Fit token = (token.client_id ≡ client_id) × (token.revoked ≡ false) × (req.now ≤ token.expires_at)

  respond-mints :
      (found : Option TokenRow)
      → Grows (respond env req js registry client_id client found)
      → (token : TokenRow) × (found ≡ some token) × Fit token
  unfolding respond
  respond-mints none minted = absurd (minted refl)
  respond-mints (some token) minted =
      pick (not (token.client_id == client_id)) _ _
        (λ m. Grows m → (t : TokenRow) × (some token ≡ some t) × Fit t)
        (λ e minted. absurd (minted refl))
        (λ mine.
          pick token.revoked _ _ (λ m. Grows m → (t : TokenRow) × (some token ≡ some t) × Fit t)
            (λ e minted. absurd (minted (replayed-mints_none env req token "" db).0))
            (λ fresh.
              pick (ltb token.expires_at req.now) _ _
                (λ m. Grows m → (t : TokenRow) × (some token ≡ some t) × Fit t)
                (λ e minted. absurd (minted refl))
                (λ timely minted. (
                  token,
                  refl,
                  (ground (arith, eq_iff token.client_id client_id), fresh, ground arith),
                ))))
        minted

  -- A refresh adds a row only for a token that is in the table under the presented value, belongs to
  -- the client, is not revoked and has not expired.
  pub refresh-mints :
      (value : String)
      → length (refresh env req js registry value client_id client db).0.tokens ≢ length db.tokens
      → (token : TokenRow) × (find_first (has_lookup (env.hmac value)) db.tokens ≡ some token)
        × Fit token
  unfolding refresh find_token
  refresh-mints value minted =
      respond-mints (find_first (has_lookup (env.hmac value)) db.tokens) minted
