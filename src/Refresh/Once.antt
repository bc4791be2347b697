-- ===== src/Refresh/Once.antt =====
-- A refresh token is spent once, and a theft verdict ends the family.
use inite_auth_service.Common.{
  List, [], ◌∷◌, ◌++◌, Bool, true, false, not, ◌&&◌, ◌||◌, ◌≡◌, ◌≢◌, refl, arith, any, select,
  count_where, update_where, Bool-cases, inl, inr, is_some, ◌==◌, subst, eq_iff, not-true, not-both,
  ap, count-none,
}
use inite_auth_service.Common.Effect.{err}
use inite_auth_service.Store.{TokenRow, Db, clashes, has_id, update_tokens}
use inite_auth_service.Grace.{erased, kept_pairs_in, revoke_at}
use inite_auth_service.Issuer.{Env, Request, signal_token_revoked}
use inite_auth_service.Refresh.{
  RefreshBounds, rotate, lost_race, keep_pair, same_family, revoke_family, audit_reuse,
  dead_refresh_token,
}
use inite_auth_service.Refresh.Chain.{is_live, count-append}
use inite_auth_service.Refresh.Claim.{claimed-dead, claimed-there, no_clash-fresh}
use inite_auth_service.Refresh.Rotation.{new_pair, child, claimed, rotate-won, rotate-lost}

module _ (env : Env) (first second : Request) (token : TokenRow) (bounds other : RefreshBounds)
    (db : Db) where
  -- After a rotation that is won (the token live, the child's id and lookup free), a second rotation of
  -- the same row, as it was read before, ends as a lost race.
  pub rotate-once :
      count_where (is_live token.id) db.tokens ≡ 1
      → any (clashes (child env first token bounds db)) (claimed env first token bounds db) ≡ false
      → rotate env second token other (rotate env first token bounds db).0
        ≡ lost_race env second token (rotate env first token bounds db).0
  rotate-once one free =
      rotate-lost env second token other _
        (rw (rotate-won env first token bounds db one free) none_left)
    where
      stale : (child env first token bounds db).id == token.id ≡ true → ⊥
      stale e =
          not-both (any (has_id token.id) (claimed env first token bounds db))
            (claimed-there first.now token
              (keep_pair env first token.id (new_pair env first token bounds db)) db one)
            (subst (λ x. any (has_id x) (claimed env first token bounds db) ≡ false)
              ((eq_iff (child env first token bounds db).id token.id).0 e)
              (no_clash-fresh (child env first token bounds db) (claimed env first token bounds db)
                free))

      none_left :
          count_where
            (is_live token.id)
            (claimed env first token bounds db ++ child env first token bounds db ∷ [])
          ≢ 1
      none_left h = ground (
        arith,
        not-true stale,
        count-append (is_live token.id) (claimed env first token bounds db)
            (child env first token bounds db),
        count-none (is_live token.id) (claimed env first token bounds db) (
            claimed-dead first.now token
              (keep_pair env first token.id (new_pair env first token bounds db)) db),
      )

module _ (env : Env) (req : Request) (token : TokenRow) (db : Db) where
  abbrev unsafe_row : TokenRow → Bool
  unsafe_row r = same_family token r && (not r.revoked || is_some r.grace_replay)

  stopped :
      (rows : List TokenRow)
      → any unsafe_row (
          update_where
            (kept_pairs_in (same_family token))
            erased
            (update_where (λ r. same_family token r && not r.revoked) (revoke_at req.now) rows))
        ≡ false
  stopped [] = refl
  stopped (r ∷ rows) = ground (arith, stopped rows)

  bystanders :
      (rows : List TokenRow)
      → select
          (λ r. not (same_family token r))
          (update_where
            (kept_pairs_in (same_family token))
            erased
            (update_where (λ r. same_family token r && not r.revoked) (revoke_at req.now) rows))
        ≡ select (λ r. not (same_family token r)) rows
  bystanders [] = refl
  bystanders (r ∷ rows) = elim (Bool-cases (same_family token r)) [
    | inl e ↦ ground (arith, bystanders rows)
    | inr e ↦ rw e (rw e (rw e (ap (λ xs. r ∷ xs) (bystanders rows))))
  ]

  verdict :
      (revoke_family env req token db).1 ≡ err (dead_refresh_token "Refresh token revoked")
      × ((revoke_family env req token db).0.tokens
          ≡ update_where (kept_pairs_in (same_family token)) erased (
              update_where
                (λ r. same_family token r && not r.revoked)
                (revoke_at req.now)
                db.tokens))
  unfolding revoke_family update_tokens audit_reuse signal_token_revoked
  verdict = elim (Bool-cases env.audit_on) [
    | inl a ↦ rw a (elim (Bool-cases (not env.ssf_on || token.user.did == "")) [
      | inl e ↦ rw e (refl, refl)
      | inr e ↦ rw e (refl, refl)
    ])
    | inr a ↦ rw a (elim (Bool-cases (not env.ssf_on || token.user.did == "")) [
      | inl e ↦ rw e (refl, refl)
      | inr e ↦ rw e (refl, refl)
    ])
  ]

  -- The verdict of a theft ends the family of the token: the request is refused, no row of the same
  -- person and client stays unrevoked or keeps a pair, and the rows of others are as they were.
  pub revoke_family-stops :
      ((revoke_family env req token db).1 ≡ err (dead_refresh_token "Refresh token revoked"))
      × (any unsafe_row (revoke_family env req token db).0.tokens ≡ false)
      × (select (λ r. not (same_family token r)) (revoke_family env req token db).0.tokens
          ≡ select (λ r. not (same_family token r)) db.tokens)
  revoke_family-stops =
      (verdict.0, rw (verdict.1) (stopped db.tokens), rw (verdict.1) (bystanders db.tokens))
