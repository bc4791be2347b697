-- ===== src/Consent/Laws.antt =====
-- A consent covers what was approved, and no more; a revocation ends it.
use inite_auth_service.Common.{
  String, List, [], ◌∷◌, ◌++◌, Option, none, some, Bool, true, false, ◌≡◌, refl, ◌==◌, find_first,
  update_where, Bool-cases, Option-cases, inl, inr, arith, ap, ◌∙◌, eq_self,
}
use inite_auth_service.Common.Sets.{unique, includes-unique}
use inite_auth_service.Store.{Db, ClientRow, ConsentRow}
use inite_auth_service.Consent.{
  ConsentQuestion, is_first_party, scopes_of, consent_of, find_consent, exceeds,
  required_of_consent, required_of_client, is_required_of, is_required, approved_before, merged,
  record_consent,
}

find-append-none :
    {A : Type 0} (p : A → Bool) (a : A) (xs : List A)
    → find_first p xs ≡ none
    → p a ≡ true
    → find_first p (xs ++ a ∷ []) ≡ some a
find-append-none p a [] h k = rw k refl
find-append-none p a (x ∷ xs) h k = elim (Bool-cases (p x)) [
  | inl hit ↦ absurd (apart x (rw hit at h))
  | inr miss ↦ rw miss (find-append-none p a xs (rw miss at h) k)
]
  where
    apart : {A : Type 0} (y : A) → some y ≡ none → ⊥
    apart y e = cc

find-update_where :
    {A : Type 0} (p : A → Bool) (f : A → A) (a : A) (xs : List A)
    → find_first p xs ≡ some a
    → ((x : A) → p (f x) ≡ p x)
    → find_first p (update_where p f xs) ≡ some (f a)
find-update_where p f a [] h keeps = cc
find-update_where p f a (x ∷ xs) h keeps = elim (Bool-cases (p x)) [
  | inl hit ↦
      let same : x ≡ a = cc (rw hit at h) in rw hit (rw (keeps x ∙ hit) (ap (λ y. some (f y)) same))
  | inr miss ↦ rw miss (rw miss (find-update_where p f a xs (rw miss at h) keeps))
]

-- The consent that is found after a recording has the scopes approved before and now.
find-recorded :
    (user_id client_id scope : String) (db : Db)
    → (row : ConsentRow) × (find_consent user_id client_id
          (record_consent user_id client_id scope db).0
        ≡ some row)
      × (row.scopes ≡ merged scope (find_consent user_id client_id db))
unfolding record_consent
find-recorded user_id client_id scope db = elim (Option-cases (find_consent user_id client_id db)) [
  | inl gone ↦ rw gone (
    record { user_id = user_id; client_id = client_id; scopes = merged scope none },
    find-append-none (consent_of user_id client_id) _ db.consents gone
        (ground (arith, eq_self user_id, eq_self client_id)),
    refl,
  )
  | inr (row, found) ↦ rw found (
    record row { scopes = merged scope (some row) },
    find-update_where (consent_of user_id client_id)
        (λ r. record r { scopes = merged scope (some row) }) row db.consents found (λ x. refl),
    refl,
  )
]

exceeds-unique :
    (requested approved : List String)
    → exceeds requested (unique approved) ≡ exceeds requested approved
exceeds-unique [] approved = refl
exceeds-unique (s ∷ requested) approved =
    rw (includes-unique approved s) (rw (exceeds-unique requested approved) refl)

-- The client of the question, as it is registered.
abbrev client_of : ConsentQuestion → Db → Option ClientRow
client_of q db = find_first (λ c. c.client_id == q.client_id) db.clients

-- For a registered client that is not the family's own, and a request without details: after an
-- approval of `scope`, the person is asked again exactly when the request names a scope that was
-- approved neither then nor before.
pub is_required-record_consent :
    (q : ConsentQuestion) (scope : String) (client : ClientRow) (db : Db)
    → q.details ≡ none
    → find_first (λ c. c.client_id == q.client_id) db.clients ≡ some client
    → is_first_party client ≡ false
    → is_required q (record_consent q.user_id q.client_id scope db).0
      ≡ exceeds
          (scopes_of (some q.scope))
          (approved_before (find_consent q.user_id q.client_id db) ++ scopes_of (some scope))
unfolding is_required is_required_of required_of_client required_of_consent record_consent
is_required-record_consent q scope client db plain registered foreign =
    let (row, found, covers) = find-recorded q.user_id q.client_id scope db in
    simp plain (
      rw (ap (λ o. required_of_client q o after) known) (
        rw foreign (
          rw found (
            rw covers (
              exceeds-unique (scopes_of (some q.scope)) (
                approved_before (find_consent q.user_id q.client_id db)
                ++ scopes_of (some scope)))))))
  where
    after : Db
    after = (record_consent q.user_id q.client_id scope db).0

    known : find_first (λ c. c.client_id == q.client_id) after.clients ≡ some client
    known = registered
