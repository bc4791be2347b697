-- ===== src/Refresh/Grant.antt =====
-- What a whole refresh grants: a new row, bounded by the old one and by what the client may hold now.
use inite_auth_service.Common.{
  String, List, [], ◌∷◌, ◌++◌, some, Bool, true, false, ◌&&◌, ◌≡◌, ◌≢◌, refl, arith, ◌≤◌, ◌+◌,
  length, find_first, includes, any, count_where, Bool-cases, inl, inr, ap, ◌∙◌, sym, ltb, ◌==◌,
  eq_iff, eq_self, or_else, nat_eq, subst,
}
use inite_auth_service.Common.Text.{words}
use inite_auth_service.Common.Effect.{M, Result, ok, lift_result, ◌>>=◌}
use inite_auth_service.Common.Effect.Runs.{Result-cases}
use inite_auth_service.Scopes.{row}
use inite_auth_service.Scopes.Laws.{allowed_for}
use inite_auth_service.Resource.{Runtime, is_resource_allowed}
use inite_auth_service.Store.{TokenRow, Db, has_id, has_lookup, find_token, clashes}
use inite_auth_service.Grace.{IssuedTokens}
use inite_auth_service.Claims.{AccessClaims, build_access_token, resolve_org_context}
use inite_auth_service.Issuer.{Env, Request, issued_for, refresh_row, access_token_ttl, rbac_on}
use inite_auth_service.Refresh.{
  RefreshBounds, RefreshBoundClient, refresh_bounds, resource_part, scope_part, refresh, respond,
  rotate, rotation_input,
}
use inite_auth_service.Refresh.Chain.{is_live}
use inite_auth_service.Refresh.Quiet.{lost_race-Quiet, Settles-length}
use inite_auth_service.Refresh.Rotation.{
  new_pair, child, claimed, rotate-won, rotate-clash, rotate-lost,
}
use inite_auth_service.Refresh.Bounds.{Fit, refresh-mints, refresh_bounds-narrows}

-- A row that no row before it passes for is the one that is found at the end of a table.
pub find-last :
    (p : TokenRow → Bool) (rows : List TokenRow) (new : TokenRow)
    → any p rows ≡ false
    → p new ≡ true
    → find_first p (rows ++ new ∷ []) ≡ some new
find-last p [] new none_before passes = rw passes refl
find-last p (r ∷ rows) new none_before passes = elim (Bool-cases (p r)) [
  | inl e ↦ ground arith
  | inr e ↦ rw e (find-last p rows new (rw e at none_before) passes)
]

no_clash-id :
    (new : TokenRow) (rows : List TokenRow)
    → any (clashes new) rows ≡ false
    → any (has_id new.id) rows ≡ false
no_clash-id new [] h = refl
no_clash-id new (r ∷ rows) h = ground (arith, no_clash-id new rows)

-- A child of the token: of the same person, client and resource, and of the given scope, live for
-- seven days.
pub record IsChildOf (env : Env) (req : Request) (token : TokenRow) (bounds : RefreshBounds)
    (pair : IssuedTokens) (new : TokenRow) : Type 0 where
  pub parent : new.rotated_from ≡ some token.id
  pub person : new.user ≡ token.user
  pub client : new.client_id ≡ token.client_id
  pub fresh : new.revoked ≡ false
  pub life : new.expires_at ≡ req.now + 604800000
  pub opened_by : new.token_lookup ≡ some (env.hmac pair.refresh_token)
  pub secret : pair.refresh_token ≡ req.secret
  pub resource : new.resource ≡ bounds.resource
  pub scope : new.scope ≡ some bounds.scope
  pub told : pair.scope ≡ bounds.scope
  pub claims : AccessClaims
  pub signed : pair.access_token ≡ env.sign_access claims
  pub subject : claims.user_id ≡ token.user.id
  pub audience : claims.aud ≡ or_else bounds.resource token.client_id
  pub claimed_scope : claims.scope ≡ bounds.scope

module _ (env : Env) (req : Request) (token : TokenRow) (bounds : RefreshBounds) (db : Db) where
  signed_claims : AccessClaims
  signed_claims =
      build_access_token (rotation_input token bounds)
        (record (resolve_org_context (rbac_on env req) env.provision db
          (rotation_input token bounds)) { act = env.act_for (rotation_input token bounds) })
        (access_token_ttl env req) env.jwt_issuer

  pub child-IsChildOf :
      IsChildOf env req token bounds
        (new_pair env req token bounds db)
        (child env req token bounds db)
  unfolding issued_for refresh_row rotation_input build_access_token signed_claims
  child-IsChildOf = record {
    parent = refl;
    person = refl;
    client = refl;
    fresh = refl;
    life = refl;
    opened_by = refl;
    secret = refl;
    resource = refl;
    scope = refl;
    told = refl;
    claims = signed_claims;
    signed = refl;
    subject = refl;
    audience = refl;
    claimed_scope = refl;
  }

  pub child-id : (child env req token bounds db).id ≡ req.row_id
  unfolding refresh_row
  child-id = refl

  -- A rotation that adds a row was won, and the added row is the child.
  rotate-grown :
      length (rotate env req token bounds db).0.tokens ≢ length db.tokens
      → (count_where (is_live token.id) db.tokens ≡ 1)
        × (any (clashes (child env req token bounds db)) (claimed env req token bounds db) ≡ false)
  rotate-grown grown = elim (Bool-cases (nat_eq (count_where (is_live token.id) db.tokens) 1)) [
    | inr lost ↦ absurd (
        grown (
          ap (λ out. length out.0.tokens) (rotate-lost env req token bounds db (not_one lost))
          ∙ Settles-length ((lost_race-Quiet env req token).settles db)))
    | inl won ↦
        elim (Bool-cases
          (any (clashes (child env req token bounds db)) (claimed env req token bounds db))) [
            | inr free ↦ (ground arith, free)
            | inl taken ↦ absurd (
                grown (
                  ap (λ out. length out.0.tokens)
                    (rotate-clash env req token bounds db (ground arith) taken)))
          ]
  ]
    where
      not_one :
          nat_eq (count_where (is_live token.id) db.tokens) 1 ≡ false
          → count_where (is_live token.id) db.tokens ≢ 1
      not_one h e = ground arith

  rotate-new :
      length (rotate env req token bounds db).0.tokens ≢ length db.tokens
      → (find_first (has_id req.row_id) (rotate env req token bounds db).0.tokens
          ≡ some (child env req token bounds db))
        × ((rotate env req token bounds db).1 ≡ ok (new_pair env req token bounds db))
  rotate-new grown =
      let (one, free) = rotate-grown grown in
      rw (rotate-won env req token bounds db one free) (
        find-last (has_id req.row_id) (claimed env req token bounds db)
            (child env req token bounds db)
            (subst (λ id. any (has_id id) (claimed env req token bounds db) ≡ false) child-id
              (no_clash-id (child env req token bounds db) (claimed env req token bounds db) free))
            (subst (λ id. (id == req.row_id) ≡ true) (sym child-id) (eq_self req.row_id)),
        refl,
      )

module _ (env : Env) (req : Request) (js : Runtime) (registry client_id : String)
    (client : RefreshBoundClient) (db : Db) where
  -- What a grant reaches: the resource of the token, which the client may still target, and those of
  -- the token's scopes that the client may hold now.
  abbrev pub Narrows : TokenRow → RefreshBounds → Type 0
  Narrows token bounds =
      (is_resource_allowed js registry (resource_part client) token.resource ≡ true)
      × (bounds.resource ≡ token.resource)
      × ((s : String)
          → includes (words bounds.scope) s ≡ (
              includes (words (or_else token.scope "")) s
              && includes (allowed_for (row (scope_part client))) s))

  abbrev pub answer_to : String → Db × Result IssuedTokens
  answer_to value = refresh env req js registry value client_id (some client) db

  unfoldable pub bounded : TokenRow → M Db IssuedTokens
  bounded token = do
    bounds ← lift_result (refresh_bounds js registry (some client) token)
    rotate env req token bounds

  pub refresh-bounded :
      (value : String) (token : TokenRow)
      → find_first (has_lookup (env.hmac value)) db.tokens ≡ some token
      → token.client_id ≡ client_id
      → token.revoked ≡ false
      → req.now ≤ token.expires_at
      → answer_to value ≡ bounded token db
  unfolding refresh respond find_token bounded
  refresh-bounded value token found mine fresh timely =
      let own : (token.client_id == client_id) ≡ true = (eq_iff token.client_id client_id).1 mine in
      let in_time : ltb token.expires_at req.now ≡ false = ground arith in
      rw found (rw (own, respond) (rw (fresh) (rw in_time refl)))

  -- A bounded rotation that adds a row had bounds.
  bounded-grown :
      (token : TokenRow)
      → length (bounded token db).0.tokens ≢ length db.tokens
      → (bounds : RefreshBounds) × (refresh_bounds js registry (some client) token ≡ ok bounds)
        × (bounded token db ≡ rotate env req token bounds db)
  unfolding bounded
  bounded-grown token grown = elim (Result-cases (refresh_bounds js registry (some client) token)) [
    | inl (bounds, e) ↦ (bounds, e, rw e refl)
    | inr (x, e) ↦ absurd (grown (rw e refl))
  ]

  -- A refresh of a known client that adds a row answers with a pair. The row that it adds, and the
  -- pair with its access token, are the child of the presented token, which is live and the client's:
  -- they keep its resource, which the client may still target, and their scopes are exactly those of
  -- the token that the client may hold now.
  pub refresh-grants :
      (value : String)
      → length (answer_to value).0.tokens ≢ length db.tokens
      → (token : TokenRow) × (find_first (has_lookup (env.hmac value)) db.tokens ≡ some token)
        × Fit env req js registry client_id (some client) db token
        × ((bounds : RefreshBounds) × Narrows token bounds
            × ((pair : IssuedTokens) × ((answer_to value).1 ≡ ok pair)
                × ((new : TokenRow) × (find_first (has_id req.row_id) (answer_to value).0.tokens
                      ≡ some new)
                    × IsChildOf env req token bounds pair new)))
  refresh-grants value grown =
      let (token, found, fit) =
        refresh-mints env req js registry client_id (some client) db value grown in
      let run = refresh-bounded value token found fit.0 fit.1 fit.2 in
      let (bounds, known, rotated) =
        bounded-grown token (subst (λ out. length out.0.tokens ≢ length db.tokens) run grown) in
      let same = run ∙ rotated in
      let (there, paired) =
        rotate-new env req token bounds db
          (subst (λ out. length out.0.tokens ≢ length db.tokens) same grown) in
      (
        token,
        found,
        fit,
        (
          bounds,
          refresh_bounds-narrows js registry client token bounds known,
          (
            new_pair env req token bounds db,
            ap (λ out. out.1) same ∙ paired,
            (
              child env req token bounds db,
              ap (λ out. find_first (has_id req.row_id) out.0.tokens) same ∙ there,
              child-IsChildOf env req token bounds db,
            ),
          ),
        ),
      )
