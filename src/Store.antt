-- ===== src/Store.antt =====
-- The rows of prisma/schema.prisma that the OAuth core reads and writes, and the queries on them.
-- A row that the source reads with `include: { user: true }` holds its user. Times are milliseconds.
-- An authorization detail is its `type` and the text of the rest.
use inite_auth_service.Common.{
  ℕ, String, List, [], ◌∷◌, ◌++◌, Option, none, some, Bool, false, ◌||◌, any, update_where,
  count_where, find_first, is_text, ◌==◌, if◌then◌else◌,
}
use inite_auth_service.Common.Effect.{M, internal, ok, err}

pub record Detail : Type 0 where
  pub type_name : String
  pub body : String

-- The keys of `users.metadata` that the source reads.
pub record Metadata : Type 0 where
  pub roles : Option (List String)
  pub is_superadmin : Bool
  pub is_admin : Bool
  pub company_id : Option String

pub record User : Type 0 where
  pub id : String
  pub did : String
  pub email : Option String
  pub email_verified : Bool
  pub name : Option String
  pub avatar_url : Option String
  pub metadata : Metadata

pub record TokenRow : Type 0 where
  pub id : String
  pub token_lookup : Option String
  pub user : User
  pub client_id : String
  pub company_id : Option String
  pub scope : Option String
  pub nonce : Option String
  pub amr : List String
  pub ip : Option String
  pub user_agent : Option String
  pub resource : Option String
  pub details : Option (List Detail)
  pub last_used_at : Option ℕ
  pub created_at : ℕ
  pub expires_at : ℕ
  pub revoked : Bool
  pub revoked_at : Option ℕ
  pub rotated_from : Option String
  pub grace_replay : Option String
  pub grace_replay_until : Option ℕ

pub record CodeRow : Type 0 where
  pub code : String
  pub user : User
  pub client_id : String
  pub company_id : Option String
  pub redirect_uri : String
  pub scope : Option String
  pub code_challenge : Option String
  pub code_challenge_method : Option String
  pub nonce : Option String
  pub acr_values : Option String
  pub resource : Option String
  pub details : Option (List Detail)
  pub amr : List String
  pub expires_at : ℕ
  pub used : Bool

-- In `custom_claims` a value that is no array is none, and so is an element that is no text.
pub record ClientRow : Type 0 where
  pub client_id : String
  pub company_id : Option String
  pub customer_lane : Bool
  pub is_public : Bool
  pub first_party : Option Bool
  pub allowed_scopes : List String
  pub allowed_audiences : List String
  pub redirect_uris : List String
  pub custom_claims : List (String × Option (List (Option String)))

-- The keys of `organizations.metadata` that the source reads.
pub record OrgMetadata : Type 0 where
  pub active : Option Bool
  pub status : Option String
  pub lane_clients : Option (List String)
  pub is_demo : Bool

pub record Organization : Type 0 where
  pub id : String
  pub company_id : String
  pub slug : String
  pub metadata : OrgMetadata

pub record Membership : Type 0 where
  pub user_id : String
  pub organization_id : String
  pub role : String
  pub status : String

pub record ConsentRow : Type 0 where
  pub user_id : String
  pub client_id : String
  pub scopes : List String

-- What the OAuth core writes to other systems: audit records and SSF signals.
pub data Event : Type 0 where
  audit : (event : String) (success : Bool) (client_id : String) (token_id : String) → Event
  customer_joined : (client_id : String) (user_id : String) (organization_id : String) → Event
  session_revoked : (did : String) (company_id : Option String) → Event
  token_revoked : (did : String) (company_id : Option String) → Event

pub record Db : Type 0 where
  pub tokens : List TokenRow
  pub codes : List CodeRow
  pub clients : List ClientRow
  pub users : List User
  pub organizations : List Organization
  pub memberships : List Membership
  pub consents : List ConsentRow
  pub log : List Event

abbrev pub log_event : Event → M Db (Unit {0})
log_event e db = (record db { log = db.log ++ e ∷ [] }, ok tt)

abbrev pub has_id : String → TokenRow → Bool
has_id id row = row.id == id

abbrev pub has_lookup : String → TokenRow → Bool
has_lookup lookup row = is_text row.token_lookup lookup

-- `refreshToken.updateMany`: how many rows passed the filter.
unfoldable pub update_tokens : (TokenRow → Bool) → (TokenRow → TokenRow) → M Db ℕ
update_tokens p f db =
    (record db { tokens = update_where p f db.tokens }, ok (count_where p db.tokens))

-- `refreshToken.create`: the id and the lookup are unique.
abbrev pub shares_lookup : Option String → TokenRow → Bool
shares_lookup none row = false
shares_lookup (some lookup) row = has_lookup lookup row

abbrev pub clashes : TokenRow → TokenRow → Bool
clashes new row = has_id new.id row || shares_lookup new.token_lookup row

unfoldable pub create_token : TokenRow → M Db (Unit {0})
create_token new db =
    if any (clashes new) db.tokens
    then (db, err (internal "P2002"))
    else (record db { tokens = db.tokens ++ new ∷ [] }, ok tt)

unfoldable pub find_token : (TokenRow → Bool) → M Db (Option TokenRow)
find_token p db = (db, ok (find_first p db.tokens))

unfoldable pub find_client : String → M Db (Option ClientRow)
find_client id db = (db, ok (find_first (λ c. c.client_id == id) db.clients))
