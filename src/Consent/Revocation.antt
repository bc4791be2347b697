-- ===== src/Consent/Revocation.antt =====
-- A revocation ends a consent and the tokens that rest on it.
use inite_auth_service.Common.{
  ℕ, String, List, [], ◌∷◌, none, Bool, false, not, ◌&&◌, ◌||◌, ◌≡◌, refl, any, find_first,
  update_where, select, Bool-cases, inl, inr, arith, is_some, count_where,
}
use inite_auth_service.Common.Effect.{ok}
use inite_auth_service.Store.{Db, TokenRow, update_tokens}
use inite_auth_service.Grace.{revoke_at, kept_pairs_in, erased}
use inite_auth_service.Consent.{consent_of, find_consent, held_by, revoke}

find-select-not :
    {A : Type 0} (p : A → Bool) (xs : List A) → find_first p (select (λ x. not (p x)) xs) ≡ none
find-select-not p [] = refl
find-select-not p (x ∷ xs) = elim (Bool-cases (p x)) [
  | inl hit ↦ rw hit (find-select-not p xs)
  | inr miss ↦ rw miss (rw miss (find-select-not p xs))
]

module _ (now : ℕ) (user_id client_id : String) where
  abbrev settled : List TokenRow → List TokenRow
  settled rows =
      update_where (kept_pairs_in (held_by user_id client_id)) erased
        (update_where (λ r. held_by user_id client_id r && not r.revoked) (revoke_at now) rows)

  abbrev pub usable : TokenRow → Bool
  usable r = held_by user_id client_id r && (not r.revoked || is_some r.grace_replay)

  settled-usable : (rows : List TokenRow) → any usable (settled rows) ≡ false
  settled-usable [] = refl
  settled-usable (r ∷ rows) = ground (arith, settled-usable rows)

  abbrev pub foreign : TokenRow → Bool
  foreign r = not (held_by user_id client_id r)

  settled-foreign : (rows : List TokenRow) → select foreign (settled rows) ≡ select foreign rows
  settled-foreign [] = refl
  settled-foreign (r ∷ rows) = ground (arith, settled-foreign rows)

  -- A revocation succeeds with the number of live tokens that the client held for the person; then
  -- the consent is gone, no such token is live or keeps a pair, and the other tokens are as before.
  pub revoke-stops :
      (db : Db)
      → ((revoke now user_id client_id db).1
          ≡ ok (count_where (λ r. held_by user_id client_id r && not r.revoked) db.tokens))
        × (find_consent user_id client_id (revoke now user_id client_id db).0 ≡ none)
        × (any usable (revoke now user_id client_id db).0.tokens ≡ false)
        × (select foreign (revoke now user_id client_id db).0.tokens ≡ select foreign db.tokens)
  unfolding revoke update_tokens
  revoke-stops db = (
    refl,
    find-select-not (consent_of user_id client_id) db.consents,
    settled-usable db.tokens,
    settled-foreign db.tokens,
  )
