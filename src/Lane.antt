-- ===== src/Lane.antt =====
-- src/oauth/customer-lane.ts and customer-lane.service.ts: a tenant's own customers. The rules are
-- functions of rows; the service finds the org that a request is for and admits a person to it.
-- `toLowerCase` is the runtime's.
pub mod Admission
mod Tests
use Prim.Native.Char.{Char, code}
use Prim.Native.String
use inite_auth_service.Common.{
  ℕ, String, List, [], ◌∷◌, ◌++◌, Option, none, some, Bool, true, false, not, ◌&&◌, ◌||◌, leb,
  nat_eq, ◌==◌, if◌then◌else◌, includes, any, select, map, is_text, truthy, truthy?, find_first,
  ◌<◌, or_else,
}
use inite_auth_service.Common.Text.{trim}
use inite_auth_service.Common.Effect.{
  M, pure, throw, ◌>>=◌, ◌>>◌, guard, read, bad_request, forbidden, unauthorized, Result, ok, err,
}
use inite_auth_service.Store.{
  Db, Organization, OrgMetadata, Membership, User, ClientRow, log_event, customer_joined,
}

abbrev pub customer_role : String
customer_role = "customer"

abbrev passwordless_amr : List String
passwordless_amr = "otp" ∷ "magic-link" ∷ []

abbrev closed_statuses : List String
closed_statuses = "inactive" ∷ "suspended" ∷ "archived" ∷ "deleted" ∷ []

pub record LaneOrg : Type 0 where
  pub id : String
  pub company_id : String
  pub slug : String

pub record LaneClient : Type 0 where
  pub client_id : String
  pub company_id : Option String
  pub customer_lane : Bool

-- The marker, from a query parameter that may be missing.
unfoldable pub normalize_customer_marker : Option String → Option String
normalize_customer_marker none = none
normalize_customer_marker (some raw) = if raw == "1" || raw == "true" then some "1" else none

abbrev slug_head : Char → Bool
slug_head c = (leb b'a' (code c) && leb (code c) b'z') || (leb b'0' (code c) && leb (code c) b'9')

slug_tail : ℕ → String → Bool
slug_tail room String.[] = true
slug_tail ℕ.zero (String.◌∷◌ c s) = false
slug_tail (ℕ.suc room) (String.◌∷◌ c s) = (slug_head c || nat_eq (code c) b'-') && slug_tail room s

-- `^[a-z0-9][a-z0-9-]{0,62}$`
unfoldable pub is_slug : String → Bool
unfolding slug_tail
is_slug String.[] = false
is_slug (String.◌∷◌ c s) = slug_head c && slug_tail 62 s

abbrev is_false : Option Bool → Bool
is_false none = false
is_false (some b) = not b

abbrev is_closed : Option String → Bool
is_closed none = false
is_closed (some status) = includes closed_statuses status

-- Rule 2: an org is open unless its metadata closes it.
unfoldable pub is_organization_active : Organization → Bool
is_organization_active org =
    if is_false org.metadata.active then false else not (is_closed org.metadata.status)

abbrev named_in : Option (List String) → String → Bool
named_in none id = false
named_in (some clients) id = includes clients id

-- Rule 3: the client's own tenant, or the org names the client.
unfoldable pub org_allows_client : Organization → LaneClient → Bool
org_allows_client org client =
    if truthy? client.company_id && is_text client.company_id org.company_id
    then true
    else named_in org.metadata.lane_clients client.client_id

-- Rule 4.
unfoldable pub is_passwordless_session : List String → Bool
is_passwordless_session amr = not (includes amr "pwd") && any (includes passwordless_amr) amr

pub data LaneVerdict : Type 0 where
  staff customer passwordless closed : LaneVerdict

-- The companyId a token is for: a lane client's granted org, else the client's own.
unfoldable pub token_tenant : Option LaneClient → Option String → Option String
token_tenant none granted = none
token_tenant (some row) granted =
    if row.customer_lane && truthy? granted then granted else row.company_id

-- Rule 6.
unfoldable pub staff_roles : List Membership → List String
staff_roles memberships =
    select (λ r. not (r == customer_role)) (map (λ (m : Membership). m.role) memberships)

-- Rules 4 and 5.
unfoldable pub lane_verdict : Option Membership → List String → LaneVerdict
unfolding is_passwordless_session
lane_verdict none amr = if is_passwordless_session amr then customer else passwordless
lane_verdict (some m) amr =
    if not (m.status == "active")
    then closed
    else if not (m.role == customer_role)
    then staff
    else if is_passwordless_session amr
    then customer
    else passwordless

abbrev non_empty : String → Option String
non_empty v = if truthy v then some v else none

module _ (lower : String → String) where
  -- The hint as sent: trimmed and lowered, or none.
  unfoldable pub normalize_organization_hint : Option String → Option String
  normalize_organization_hint none = none
  normalize_organization_hint (some raw) = non_empty (lower (trim raw))

  abbrev of_slug : String → Organization → Bool
  of_slug slug org = org.slug == slug

  open_org : LaneClient → Option Organization → M Db (Option LaneOrg)
  open_org client none = throw (bad_request "invalid_request" "Unknown or inactive organization")
  open_org client (some org) =
      if not (is_organization_active org)
      then throw (bad_request "invalid_request" "Unknown or inactive organization")
      else if not (org_allows_client org client)
      then throw (
          bad_request "unauthorized_client"
            "This client may not sign in customers for that organization")
      else pure (some (record { id = org.id; company_id = org.company_id; slug = org.slug }))

  lane_org : (flag : Bool) → LaneClient → Option String → Option String → M Db (Option LaneOrg)
  lane_org flag client none marker = pure none
  lane_org flag client (some slug) none = pure none
  lane_org flag client (some slug) (some marker) =
      if not client.customer_lane
      then pure none
      else if not flag
      then pure none
      else if not (is_slug slug)
      then throw (bad_request "invalid_request" "Unknown or inactive organization")
      else do db ← read; open_org client (find_first (of_slug slug) db.organizations)

  -- `orgFor`: `flag` is CUSTOMER_LANE_ENABLED.
  unfoldable pub org_for : Bool → LaneClient → Option String → Option String → M Db (Option LaneOrg)
  unfolding lane_org open_org
  org_for flag client organization marker =
      lane_org flag client (normalize_organization_hint organization)
        (normalize_customer_marker marker)

abbrev pub is_member : String → String → Membership → Bool
is_member user_id org_id m = m.user_id == user_id && m.organization_id == org_id

unfoldable pub membership_of : String → String → M Db (Option Membership)
membership_of user_id org_id db = (db, ok (find_first (is_member user_id org_id) db.memberships))

abbrev with_user_id : String → User → Bool
with_user_id id u = u.id == id

abbrev verified : Option User → Bool
verified none = false
verified (some u) = u.email_verified

assert_email_verified : String → M Db (Unit {0})
assert_email_verified user_id = do
  db ← read
  guard (verified (find_first (with_user_id user_id) db.users))
      (unauthorized "login_required" "Email address not verified")

abbrev standing_role : Option Membership → M Db String
standing_role none = throw (forbidden "access_denied" "")
standing_role (some m) =
    if m.status == "active" then pure m.role else throw (forbidden "access_denied" "")

-- The insert loses to a row that is there by then: that row stands.
unfoldable pub create_customer : String → String → M Db String
unfolding membership_of
create_customer user_id org_id db =
    if any (is_member user_id org_id) db.memberships
    then standing_role (find_first (is_member user_id org_id) db.memberships) db
    else (
      record db {
        memberships =
            db.memberships
            ++ record {
              user_id = user_id;
              organization_id = org_id;
              role = customer_role;
              status = "active";
            }
              ∷ [];
      },
      ok customer_role,
    )

record_joined : String → String → String → String → M Db (Unit {0})
record_joined role user_id client_id org_id =
    if role == customer_role then log_event (customer_joined client_id user_id org_id) else pure tt

admit_by : LaneVerdict → Option Membership → String → String → LaneOrg → M Db (String × Bool)
unfolding assert_email_verified record_joined
admit_by closed existing user_id client_id org =
    throw (forbidden "access_denied" "Membership is not active")
admit_by passwordless existing user_id client_id org =
    throw (unauthorized "login_required" "Customers sign in with an email code or a sign-in link")
admit_by _ (some m) user_id client_id org = pure (m.role, false)
admit_by _ none user_id client_id org = do
  assert_email_verified user_id
  role ← create_customer user_id org.id
  record_joined role user_id client_id org.id
  pure (role, role == customer_role)

-- `admit`: the role that the person holds then, and whether the membership is new.
unfoldable pub admit : String → String → LaneOrg → List String → M Db (String × Bool)
unfolding admit_by
admit user_id client_id org amr = do
  existing ← membership_of user_id org.id
  admit_by (lane_verdict existing amr) existing user_id client_id org
