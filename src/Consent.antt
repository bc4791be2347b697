-- ===== src/Consent.antt =====
-- src/oauth/consent.service.ts: whether a person is asked before an application gets a code.
pub mod Laws
pub mod Revocation
mod Tests
use inite_auth_service.Common.{
  ℕ, String, List, [], ◌∷◌, ◌++◌, Option, none, some, Bool, true, false, not, ◌&&◌, ◌||◌, ◌==◌,
  if◌then◌else◌, any, includes, or_else, starts_with, find_first, update_where, select,
}
use inite_auth_service.Common.Text.{words}
use inite_auth_service.Common.Sets.{unique}
use inite_auth_service.Common.Effect.{M, pure, transaction, write, ◌>>=◌, ◌>>◌, ok}
use inite_auth_service.Store.{
  Db, ClientRow, ConsentRow, TokenRow, Detail, find_client, update_tokens,
}
use inite_auth_service.Scopes.{is_true}
use inite_auth_service.Grace.{revoke_at, kept_pairs_in, erased}

pub record ConsentQuestion : Type 0 where
  pub user_id : String
  pub client_id : String
  pub scope : String
  pub details : Option (List Detail)

unfoldable pub is_first_party : ClientRow → Bool
is_first_party client = is_true client.first_party && not (starts_with client.client_id "dcr_")

unfoldable pub scopes_of : Option String → List String
scopes_of scope = words (or_else scope "")

abbrev pub consent_of : String → String → ConsentRow → Bool
consent_of user_id client_id row = row.user_id == user_id && row.client_id == client_id

-- `oAuthConsent.findUnique`
abbrev pub find_consent : String → String → Db → Option ConsentRow
find_consent user_id client_id db = find_first (consent_of user_id client_id) db.consents

-- `some((s) => !approved.has(s))`
abbrev pub exceeds : List String → List String → Bool
exceeds requested approved = any (λ s. not (includes approved s)) requested

required_of_consent : String → Option ConsentRow → Bool
required_of_consent scope none = true
required_of_consent scope (some row) = exceeds (scopes_of (some scope)) row.scopes

required_of_client : ConsentQuestion → Option ClientRow → Db → Bool
unfolding is_first_party required_of_consent
required_of_client q none db = true
required_of_client q (some client) db =
    if is_first_party client
    then false
    else required_of_consent q.scope (find_consent q.user_id q.client_id db)

-- An array of details is true in a test, empty or not.
is_required_of : Option (List Detail) → ConsentQuestion → Db → Bool
unfolding required_of_client
is_required_of (some details) q db = true
is_required_of none q db =
    required_of_client q (find_first (λ c. c.client_id == q.client_id) db.clients) db

unfoldable pub is_required : ConsentQuestion → Db → Bool
unfolding is_required_of
is_required q db = is_required_of q.details q db

abbrev pub approved_before : Option ConsentRow → List String
approved_before none = []
approved_before (some row) = row.scopes

-- `oAuthConsent.upsert`
abbrev upsert :
    String → String → List String → Option ConsentRow → List ConsentRow → List ConsentRow
upsert user_id client_id scopes none rows =
    rows ++ record { user_id = user_id; client_id = client_id; scopes = scopes } ∷ []
upsert user_id client_id scopes (some row) rows =
    update_where (consent_of user_id client_id) (λ r. record r { scopes = scopes }) rows

abbrev pub merged : String → Option ConsentRow → List String
merged scope existing = unique (approved_before existing ++ scopes_of (some scope))

-- `record`, which is a word of this language
unfoldable pub record_consent : String → String → String → M Db (Unit {0})
record_consent user_id client_id scope db =
    let existing : Option ConsentRow = find_consent user_id client_id db in
    (
      record db {
        consents = upsert user_id client_id (merged scope existing) existing db.consents;
      },
      ok tt,
    )

abbrev pub held_by : String → String → TokenRow → Bool
held_by user_id client_id row = row.user.id == user_id && row.client_id == client_id

abbrev forget : String → String → Db → Db
forget user_id client_id db = record db {
  consents = select (λ r. not (consent_of user_id client_id r)) db.consents;
}

-- How many tokens it revoked.
unfoldable pub revoke : (now : ℕ) → String → String → M Db ℕ
revoke now user_id client_id = transaction (do
  write (forget user_id client_id)
  revoked ← update_tokens (λ r. held_by user_id client_id r && not r.revoked) (revoke_at now)
  _ ← update_tokens (kept_pairs_in (held_by user_id client_id)) erased
  pure revoked)
