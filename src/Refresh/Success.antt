-- ===== src/Refresh/Success.antt =====
-- That a refresh with a live token goes through, and what the table is then.
use inite_auth_service.Common.{
  String, List, [], ◌∷◌, ◌++◌, Option, none, some, Bool, true, false, not, ◌&&◌, ◌||◌, ◌≡◌, refl,
  arith, ◌≤◌, find_first, any, count_where, update_where, Bool-cases, inl, inr, ap, ◌∙◌, sym, ◌==◌,
  eq_iff, eq_self, subst,
}
use inite_auth_service.Common.Text.{join}
use inite_auth_service.Common.Effect.{ok}
use inite_auth_service.Scopes.{row, permitted_scopes}
use inite_auth_service.Resource.{Runtime, is_resource_allowed}
use inite_auth_service.Store.{TokenRow, Db, has_id, has_lookup, clashes}
use inite_auth_service.Grace.{IssuedTokens, Kept, erased, kept_pairs_in}
use inite_auth_service.Issuer.{Env, Request, issued_for, refresh_row}
use inite_auth_service.Refresh.{
  RefreshBounds, RefreshBoundClient, refresh_bounds, resource_part, scope_part, keep_pair,
}
use inite_auth_service.Refresh.Chain.{is_live, any-append}
use inite_auth_service.Refresh.Claim.{claimed_rows, erase_on, spent, none_live}
use inite_auth_service.Refresh.Rotation.{new_pair, child, claimed, rotate-won}
use inite_auth_service.Refresh.Bounds.{refresh_bounds-narrows}
use inite_auth_service.Refresh.Grant.{
  IsChildOf, Narrows, answer_to, bounded, refresh-bounded, find-last, child-IsChildOf, child-id,
}

-- A test that an update does not change is passed by a row after it exactly when one passed it before.
any-update :
    (q p : TokenRow → Bool) (f : TokenRow → TokenRow) (rows : List TokenRow)
    → ((r : TokenRow) → q (f r) ≡ q r)
    → any q (update_where p f rows) ≡ any q rows
any-update q p f [] keeps = refl
any-update q p f (r ∷ rows) keeps = elim (Bool-cases (p r)) [
  | inl e ↦ rw e (rw (keeps r) (ap (λ b. q r || b) (any-update q p f rows keeps)))
  | inr e ↦ rw e (ap (λ b. q r || b) (any-update q p f rows keeps))
]

any-erase_on :
    (q : TokenRow → Bool) (parent : Option String) (rows : List TokenRow)
    → ((r : TokenRow) → q (erased r) ≡ q r)
    → any q (erase_on parent rows) ≡ any q rows
any-erase_on q none rows keeps = refl
any-erase_on q (some parent) rows keeps =
    any-update q (kept_pairs_in (has_id parent)) erased rows keeps

module _ (env : Env) (req : Request) (token : TokenRow) (kept : Kept) where
  lookup-spent :
      (lookup : String) (k : Kept) (r : TokenRow)
      → has_lookup lookup (spent req.now k r) ≡ has_lookup lookup r
  lookup-spent lookup none r = refl
  lookup-spent lookup (some (blob, end)) r = refl

  id-spent : (id : String) (k : Kept) (r : TokenRow) → has_id id (spent req.now k r) ≡ has_id id r
  id-spent id none r = refl
  id-spent id (some (blob, end)) r = refl

  any-claimed :
      (q : TokenRow → Bool) (rows : List TokenRow)
      → ((r : TokenRow) → q (erased r) ≡ q r)
      → ((r : TokenRow) → q (spent req.now kept r) ≡ q r)
      → any q (claimed_rows req.now token kept rows) ≡ any q rows
  any-claimed q rows keeps spends =
      any-erase_on q token.rotated_from (update_where (is_live token.id) (spent req.now kept) rows)
        keeps
      ∙ any-update q (is_live token.id) (spent req.now kept) rows spends

  other-live :
      (id : String) (rows : List TokenRow)
      → (token.id == id) ≡ false
      → any (is_live id) (update_where (is_live token.id) (spent req.now kept) rows)
        ≡ any (is_live id) rows
  other-live id [] other = refl
  other-live id (r ∷ rows) other = elim (Bool-cases (is_live token.id r)) [
    | inr e ↦ rw e (ap (λ b. is_live id r || b) (other-live id rows other))
    | inl e ↦
        let same : (r.id == token.id) ≡ true = ground arith in
        let apart : (r.id == id) ≡ false = rw ((eq_iff r.id token.id).0 same) other in
        let before : has_id id (spent req.now kept r) ≡ false = id-spent id kept r ∙ apart in
        rw e (rw (before) (rw apart (other-live id rows other)))
  ]

  -- After the claim the live tokens are those before it without the claimed one.
  live-claimed :
      (id : String) (rows : List TokenRow)
      → any (is_live id) (claimed_rows req.now token kept rows)
        ≡ (any (is_live id) rows && not (token.id == id))
  live-claimed id rows =
      any-erase_on (is_live id) token.rotated_from
        (update_where (is_live token.id) (spent req.now kept) rows) (λ r. refl)
      ∙ elim (Bool-cases (token.id == id)) [
        | inl this ↦
            let same : token.id ≡ id = (eq_iff token.id id).0 this in
            let gone = none_live req.now kept token.id rows in
            let gone_id : any (is_live id)
                  (update_where (is_live token.id) (spent req.now kept) rows)
                ≡ false =
              subst
                (λ i.
                  any (is_live i) (update_where (is_live token.id) (spent req.now kept) rows)
                  ≡ false)
                same gone in
            ground (arith, gone_id)
        | inr other ↦ ground (arith, other-live id rows other)
      ]

free-clash :
    (new : TokenRow) (lookup : String) (rows : List TokenRow)
    → new.token_lookup ≡ some lookup
    → any (has_id new.id) rows ≡ false
    → any (has_lookup lookup) rows ≡ false
    → any (clashes new) rows ≡ false
free-clash new lookup [] looked ids lookups = refl
free-clash new lookup (r ∷ rows) looked ids lookups =
    rw looked (ground (arith, free-clash new lookup rows looked))

module _ (env : Env) (req : Request) (token : TokenRow) (bounds : RefreshBounds) (db : Db) where
  abbrev kept_pair : Kept
  kept_pair = keep_pair env req token.id (new_pair env req token bounds db)

  child-lookup : (child env req token bounds db).token_lookup ≡ some (env.hmac req.secret)
  unfolding refresh_row issued_for
  child-lookup = refl

  child-live : (child env req token bounds db).revoked ≡ false
  unfolding refresh_row
  child-live = refl

  claimed-free :
      any (has_id req.row_id) db.tokens ≡ false
      → any (has_lookup (env.hmac req.secret)) db.tokens ≡ false
      → (any (has_id req.row_id) (claimed env req token bounds db) ≡ false)
        × (any (has_lookup (env.hmac req.secret)) (claimed env req token bounds db) ≡ false)
  claimed-free ids lookups = (
    any-claimed env req token kept_pair (has_id req.row_id) db.tokens (λ r. refl)
          (id-spent env req token kept_pair req.row_id kept_pair)
        ∙ ids,
    any-claimed env req token kept_pair (has_lookup (env.hmac req.secret)) db.tokens (λ r. refl)
          (lookup-spent env req token kept_pair (env.hmac req.secret) kept_pair)
        ∙ lookups,
  )

  claimed-no_clash :
      any (has_id req.row_id) db.tokens ≡ false
      → any (has_lookup (env.hmac req.secret)) db.tokens ≡ false
      → any (clashes (child env req token bounds db)) (claimed env req token bounds db) ≡ false
  claimed-no_clash ids lookups =
      let (free_id, free_lookup) = claimed-free ids lookups in
      free-clash (child env req token bounds db) (env.hmac req.secret)
        (claimed env req token bounds db) child-lookup
        (subst (λ id. any (has_id id) (claimed env req token bounds db) ≡ false)
          (sym (child-id env req token bounds db)) free_id)
        free_lookup

  -- The live tokens after a rotation that was won.
  live-after :
      (id : String)
      → any (is_live id) (claimed env req token bounds db ++ child env req token bounds db ∷ [])
        ≡ ((any (is_live id) db.tokens && not (token.id == id)) || req.row_id == id)
  live-after id =
      any-append (is_live id) (claimed env req token bounds db) (child env req token bounds db)
      ∙ rw (live-claimed env req token kept_pair id db.tokens)
          (rw (child-id env req token bounds db) (rw child-live (ground arith)))

  rotated-lookup :
      any (has_id req.row_id) db.tokens ≡ false
      → any (has_lookup (env.hmac req.secret)) db.tokens ≡ false
      → find_first
          (has_lookup (env.hmac req.secret))
          (claimed env req token bounds db ++ child env req token bounds db ∷ [])
        ≡ some (child env req token bounds db)
  rotated-lookup ids lookups =
      find-last (has_lookup (env.hmac req.secret)) (claimed env req token bounds db)
        (child env req token bounds db) (claimed-free ids lookups).1
        (rw child-lookup (eq_self (env.hmac req.secret)))

module _ (env : Env) (req : Request) (js : Runtime) (registry client_id : String)
    (client : RefreshBoundClient) (db : Db) where
  bounds_now : TokenRow → RefreshBounds
  bounds_now token = record {
    scope = join " " (permitted_scopes (row (scope_part client)) token.scope);
    resource = token.resource;
  }

  bounds_now-known :
      (token : TokenRow)
      → is_resource_allowed js registry (resource_part client) token.resource ≡ true
      → refresh_bounds js registry (some client) token ≡ ok (bounds_now token)
  unfolding refresh_bounds bounds_now
  bounds_now-known token allowed = rw allowed refl

  refresh-won :
      (value : String) (token : TokenRow)
      → find_first (has_lookup (env.hmac value)) db.tokens ≡ some token
      → token.client_id ≡ client_id
      → token.revoked ≡ false
      → req.now ≤ token.expires_at
      → is_resource_allowed js registry (resource_part client) token.resource ≡ true
      → count_where (is_live token.id) db.tokens ≡ 1
      → any (has_id req.row_id) db.tokens ≡ false
      → any (has_lookup (env.hmac req.secret)) db.tokens ≡ false
      → answer_to env req js registry client_id client db value ≡ (
        record db {
          tokens =
              claimed env req token (bounds_now token) db
              ++ child env req token (bounds_now token) db ∷ [];
        },
        ok (new_pair env req token (bounds_now token) db),
      )
  unfolding bounded
  refresh-won value token found mine fresh timely allowed one ids lookups =
      refresh-bounded env req js registry client_id client db value token found mine fresh timely
      ∙ rw (bounds_now-known token allowed) (
          rotate-won env req token (bounds_now token) db one
            (claimed-no_clash env req token (bounds_now token) db ids lookups))

  -- A known client presents a token that is its own, live and in time, whose resource it may still
  -- target and whose id one live row has; the id and the lookup of the new row are free. Then the
  -- refresh answers with a pair, and the pair's refresh token finds a child of the presented token,
  -- bounded by it and by what the client may hold now. The live tokens after it are those before it
  -- without the presented one, and the child.
  pub refresh-rotates :
      (value : String) (token : TokenRow)
      → find_first (has_lookup (env.hmac value)) db.tokens ≡ some token
      → token.client_id ≡ client_id
      → token.revoked ≡ false
      → req.now ≤ token.expires_at
      → is_resource_allowed js registry (resource_part client) token.resource ≡ true
      → count_where (is_live token.id) db.tokens ≡ 1
      → any (has_id req.row_id) db.tokens ≡ false
      → any (has_lookup (env.hmac req.secret)) db.tokens ≡ false
      → (bounds : RefreshBounds) × Narrows env req js registry client_id client db token bounds
        × ((pair : IssuedTokens) × ((answer_to env req js registry client_id client db value).1
              ≡ ok pair)
            × ((new : TokenRow) × (find_first
                    (has_lookup (env.hmac pair.refresh_token))
                    (answer_to env req js registry client_id client db value).0.tokens
                  ≡ some new)
                × IsChildOf env req token bounds pair new))
        × ((id : String)
            → any (is_live id) (answer_to env req js registry client_id client db value).0.tokens
              ≡ ((any (is_live id) db.tokens && not (token.id == id)) || req.row_id == id))
  refresh-rotates value token found mine fresh timely allowed one ids lookups =
      let bounds = bounds_now token in
      let made : IsChildOf env req token bounds (new_pair env req token bounds db)
          (child env req token bounds db) =
        child-IsChildOf env req token bounds db in
      rw (refresh-won value token found mine fresh timely allowed one ids lookups) (
        bounds,
        refresh_bounds-narrows js registry client token bounds (bounds_now-known token allowed),
        (
          new_pair env req token bounds db,
          refl,
          (
            child env req token bounds db,
            subst
                (λ secret.
                  find_first (has_lookup (env.hmac secret))
                    (claimed env req token bounds db ++ child env req token bounds db ∷ [])
                  ≡ some (child env req token bounds db))
                (sym made.secret) (rotated-lookup env req token bounds db ids lookups),
            made,
          ),
        ),
        λ id. live-after env req token bounds db id,
      )
