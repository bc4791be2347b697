-- ===== src/Session/Everywhere.antt =====
-- Signing out everywhere leaves no session but the one that is spared.
use inite_auth_service.Common.{
  ℕ, String, List, [], ◌∷◌, Option, none, some, Bool, true, false, not, ◌&&◌, ◌||◌, ◌≡◌, refl, ◌==◌,
  any, count_where, find_first, select, update_where, Bool-cases, inl, inr, arith, is_some, ap, ◌∙◌,
}
use inite_auth_service.Common.Effect.{ok}
use inite_auth_service.Store.{Db, TokenRow, update_tokens}
use inite_auth_service.Grace.{revoke_at, kept_pairs_in, erased}
use inite_auth_service.Session.{
  of_user, spared, did_of, emit_session_revoked, signal_session_revoked, revoke_all_sessions,
}

module _ (now : ℕ) (user_id : String) (except : Option String) where
  abbrev ended : List TokenRow → List TokenRow
  ended rows = update_where (kept_pairs_in (of_user user_id)) erased (
      update_where (λ r. of_user user_id r && not r.revoked && not (spared except r))
        (revoke_at now) rows)

  -- Live without being spared, or with a pair kept.
  abbrev pub lingering : TokenRow → Bool
  lingering r =
      of_user user_id r && ((not r.revoked && not (spared except r)) || is_some r.grace_replay)

  abbrev pub foreign : TokenRow → Bool
  foreign r = not (of_user user_id r)

  abbrev pub spared_live : TokenRow → Bool
  spared_live r = of_user user_id r && not r.revoked && spared except r

  ended-lingering : (rows : List TokenRow) → any lingering (ended rows) ≡ false
  ended-lingering [] = refl
  ended-lingering (r ∷ rows) =
      let rest = ended-lingering rows in
      elim (Bool-cases (spared except r)) [ inl stays ↦ ground arith | inr goes ↦ ground arith ]

  ended-foreign : (rows : List TokenRow) → select foreign (ended rows) ≡ select foreign rows
  ended-foreign [] = refl
  ended-foreign (r ∷ rows) =
      let rest = ended-foreign rows in
      elim (Bool-cases (of_user user_id r)) [ inl own ↦ ground arith | inr other ↦ ground arith ]

  ended-spared :
      (rows : List TokenRow) → count_where spared_live (ended rows) ≡ count_where spared_live rows
  ended-spared [] = refl
  ended-spared (r ∷ rows) =
      let rest = ended-spared rows in
      elim (Bool-cases (spared except r)) [ inl stays ↦ ground arith | inr goes ↦ ground arith ]

  signal-tokens :
      (ssf_on : Bool) (company_id : Option String) (db : Db)
      → ((signal_session_revoked ssf_on now user_id company_id db).0.tokens ≡ db.tokens)
        × ((signal_session_revoked ssf_on now user_id company_id db).1 ≡ ok tt)
  unfolding signal_session_revoked emit_session_revoked
  signal-tokens true company_id db = emitted (did_of (find_first (λ u. u.id == user_id) db.users))
    where
      emitted :
          (did : Option String)
          → ((emit_session_revoked true now did company_id db).0.tokens ≡ db.tokens)
            × ((emit_session_revoked true now did company_id db).1 ≡ ok tt)
      emitted none = (refl, refl)
      emitted (some did) = (refl, refl)
  signal-tokens false company_id db = (refl, refl)

  -- Signing out everywhere succeeds: no token of the person is live but the spared ones, and none
  -- keeps a pair; the spared ones are as many as before, and the tokens of others as they were.
  pub revoke_all_sessions-ends :
      (ssf_on : Bool) (db : Db)
      → ((revoke_all_sessions ssf_on now user_id except db).1 ≡ ok tt)
        × (any lingering (revoke_all_sessions ssf_on now user_id except db).0.tokens ≡ false)
        × (count_where spared_live (revoke_all_sessions ssf_on now user_id except db).0.tokens
            ≡ count_where spared_live db.tokens)
        × (select foreign (revoke_all_sessions ssf_on now user_id except db).0.tokens
            ≡ select foreign db.tokens)
  unfolding revoke_all_sessions update_tokens
  revoke_all_sessions-ends ssf_on db =
      let (same, fine) = signal-tokens ssf_on none (record db { tokens = ended db.tokens }) in
      (
        fine,
        ap (any lingering) same ∙ ended-lingering db.tokens,
        ap (count_where spared_live) same ∙ ended-spared db.tokens,
        ap (select foreign) same ∙ ended-foreign db.tokens,
      )
