-- ===== src/Claims.antt =====
-- src/oauth/custom-claims.ts, org-claims.ts and the claims of oauth-token-issuer.service.ts: what a
-- token says of its person, org and client. `provision` is PersonalWorkspaceService.provisionFor and
-- `act_for` is AgentsService.actFor; both are components of their own, and parameters here.
pub mod Laws
mod Tests
use Prim.Native.Char.{Char, code}
use Prim.Native.String
use inite_auth_service.Common.{
  ℕ, zero, suc, String, List, [], ◌∷◌, ◌++◌, Option, none, some, Bool, true, false, not, ◌&&◌, ◌||◌,
  leb, nat_eq, ◌==◌, if◌then◌else◌, includes, select, map, is_text, truthy?, find_first, or_else,
}
use inite_auth_service.Common.Sets.{unique}
use inite_auth_service.Store.{Db, User, ClientRow, Organization, Membership, Detail}
use inite_auth_service.Lane.{LaneClient, token_tenant, staff_roles}
use inite_auth_service.AdminScope.{platform_role_claim}

abbrev claim_char : Char → Bool
claim_char c =
    (leb b'a' (code c) && leb (code c) b'z')
    || (leb b'0' (code c) && leb (code c) b'9')
    || nat_eq (code c) b'_'
    || nat_eq (code c) b'-'

claim_tail : ℕ → String → Bool
claim_tail room String.[] = true
claim_tail zero (String.◌∷◌ c s) = false
claim_tail (suc room) (String.◌∷◌ c s) = claim_char c && claim_tail room s

abbrev is_nil : String → Bool
is_nil s = s == ""

-- `^[a-z][a-z0-9_-]{1,63}$`
unfoldable pub valid_value : String → Bool
unfolding claim_tail
valid_value String.[] = false
valid_value (String.◌∷◌ c s) =
    (leb b'a' (code c) && leb (code c) b'z') && not (is_nil s) && claim_tail 63 s

abbrev texts : List (Option String) → List String
texts [] = []
texts (none ∷ vs) = texts vs
texts (some v ∷ vs) = v ∷ texts vs

abbrev pub take : ℕ → List String → List String
take zero xs = []
take (suc n) [] = []
take (suc n) (x ∷ xs) = x ∷ take n xs

abbrev keep_claim : String → List String → List (String × List String) → List (String × List String)
keep_claim key [] rest = rest
keep_claim key (v ∷ vs) rest = (key, v ∷ vs) ∷ rest

-- Only `policy` and `packs`, only arrays of short identifiers, sixteen of them at most.
unfoldable pub sanitize_custom_claims :
    List (String × Option (List (Option String))) → List (String × List String)
sanitize_custom_claims [] = []
sanitize_custom_claims ((key, none) ∷ raw) = sanitize_custom_claims raw
sanitize_custom_claims ((key, some values) ∷ raw) =
    let rest : List (String × List String) = sanitize_custom_claims raw in
    if not (includes ("policy" ∷ "packs" ∷ []) key)
    then rest
    else keep_claim key (take 16 (select valid_value (texts values))) rest

pub record OrgContext : Type 0 where
  pub roles : List String
  pub custom_claims : List (String × List String)
  pub org : Option String
  pub org_id : Option String
  pub org_role : Option String
  pub org_slug : Option String
  pub demo : Bool
  pub act : Option String

-- `GenerateTokensInput`
pub record GenerateInput : Type 0 where
  pub user : User
  pub client_id : String
  pub scope : String
  pub rotated_from : Option String
  pub nonce : Option String
  pub amr : Option (List String)
  pub acr : Option String
  pub audience : Option String
  pub details : Option (List Detail)
  pub tenant : Option String

abbrev pub lane_client : ClientRow → LaneClient
lane_client c = record {
  client_id = c.client_id;
  company_id = c.company_id;
  customer_lane = c.customer_lane;
}

abbrev pub map_option {ℓ κ} : {A : Type ℓ} {B : Type κ} → (A → B) → Option A → Option B
map_option f none = none
map_option f (some a) = some (f a)

abbrev claims_of : Option ClientRow → List (String × List String)
unfolding sanitize_custom_claims
claims_of none = []
claims_of (some c) = sanitize_custom_claims c.custom_claims

abbrev roles_or_user : List String → List String
roles_or_user [] = "user" ∷ []
roles_or_user (r ∷ rs) = r ∷ rs

abbrev base_context : List String → List (String × List String) → OrgContext
base_context meta_roles custom = record {
  roles = roles_or_user meta_roles;
  custom_claims = custom;
  org = none;
  org_id = none;
  org_role = none;
  org_slug = none;
  demo = false;
  act = none;
}

-- `include: { organization: true }` over the active memberships of the person.
joined : List Organization → String → List Membership → List (Membership × Organization)
joined orgs user_id [] = []
joined orgs user_id (m ∷ ms) =
    let rest : List (Membership × Organization) = joined orgs user_id ms in
    if m.user_id == user_id && m.status == "active"
    then elim (find_first (λ (o : Organization). o.id == m.organization_id) orgs) [
      | none ↦ rest
      | some o ↦ (m, o) ∷ rest
    ]
    else rest

abbrev of_tenant : Option String → Membership × Organization → Bool
of_tenant tenant (m, o) = is_text tenant o.company_id

-- `memberships.find(...) ?? memberships[0]`
abbrev choose :
    Option String
    → Membership × Organization
    → List (Membership × Organization)
    → Membership × Organization
choose tenant first rest = or_else (find_first (of_tenant tenant) (first ∷ rest)) first

provisioned_context : List String → OrgContext → Option Organization → OrgContext
provisioned_context meta_roles base none = base
provisioned_context meta_roles base (some o) = record base {
  roles = unique (meta_roles ++ "owner" ∷ []);
  org = some o.company_id;
  org_id = some o.id;
  org_role = some "owner";
  org_slug = some o.slug;
}

member_context :
    List String
    → OrgContext
    → Option String
    → List (Membership × Organization)
    → Option Organization
    → OrgContext
unfolding provisioned_context
member_context meta_roles base tenant [] provisioned =
    provisioned_context meta_roles base provisioned
member_context meta_roles base tenant (first ∷ rest) provisioned =
    let (m, o) = choose tenant first rest in
    record base {
      roles = roles_or_user (
          unique (
            meta_roles
            ++ staff_roles (map (λ (p : Membership × Organization). p.0) (first ∷ rest))));
      org = some o.company_id;
      org_id = some o.id;
      org_role = some m.role;
      org_slug = some o.slug;
      demo = o.metadata.is_demo;
    }

-- `resolveOrgContext`: `rbac` is RBAC_TOKEN_CLAIMS_ENABLED.
unfoldable pub resolve_org_context :
    (rbac : Bool) → (GenerateInput → Option Organization) → Db → GenerateInput → OrgContext
unfolding member_context joined claims_of
resolve_org_context rbac provision db input =
    let meta_roles : List String = or_else input.user.metadata.roles [] in
    let client : Option ClientRow =
      find_first (λ (c : ClientRow). c.client_id == input.client_id) db.clients in
    let base : OrgContext = base_context meta_roles (claims_of client) in
    if not rbac
    then base
    else member_context meta_roles base (token_tenant (map_option lane_client client) input.tenant)
        (joined db.organizations input.user.id db.memberships) (provision input)

-- The tenant claims, absent without an org.
pub record OrgClaims : Type 0 where
  pub org : String
  pub org_id : Option String
  pub org_slug : Option String
  pub org_role : Option String
  pub demo : Bool

abbrev only_truthy : Option String → Option String
only_truthy o = if truthy? o then o else none

unfoldable pub org_claims : OrgContext → Option OrgClaims
org_claims ctx = elim ctx.org [
  | none ↦ none
  | some org ↦
      if org == ""
      then none
      else some (record {
        org = org;
        org_id = ctx.org_id;
        org_slug = only_truthy ctx.org_slug;
        org_role = only_truthy ctx.org_role;
        demo = ctx.demo;
      })
]

pub record PersonClaims : Type 0 where
  pub sub : String
  pub email : Option String
  pub email_verified : Bool
  pub name : Option String
  pub picture : Option String
  pub roles : List String
  pub platform_role : Option String
  pub org : Option OrgClaims
  pub exp : ℕ
  pub aud : String
  pub iss : String

pub record AccessClaims : Type 0 where
  pub person : PersonClaims
  pub open person use *
  pub client_id : String
  pub user_id : String
  pub custom : List (String × List String)
  pub act : Option String
  pub authorization_details : Option (List Detail)
  pub scope : String

pub record IdClaims : Type 0 where
  pub person : PersonClaims
  pub open person use *
  pub nonce : Option String
  pub amr : Option (List String)
  pub acr : Option String

-- `details?.length ? details : nothing`, and so for the methods
abbrev pub if_any {ℓ} : {A : Type ℓ} → Option (List A) → Option (List A)
if_any none = none
if_any (some []) = none
if_any (some (x ∷ xs)) = some (x ∷ xs)

person_claims : GenerateInput → OrgContext → ℕ → String → String → PersonClaims
person_claims input ctx ttl aud iss = record {
  sub = input.user.did;
  email = input.user.email;
  email_verified = input.user.email_verified;
  name = input.user.name;
  picture = input.user.avatar_url;
  roles = ctx.roles;
  platform_role = platform_role_claim input.user.metadata;
  org = org_claims ctx;
  exp = ttl;
  aud = aud;
  iss = iss;
}

unfoldable pub build_access_token : GenerateInput → OrgContext → ℕ → String → AccessClaims
unfolding person_claims
build_access_token input ctx ttl iss = record {
  person = person_claims input ctx ttl (or_else input.audience input.client_id) iss;
  client_id = input.client_id;
  user_id = input.user.id;
  custom = ctx.custom_claims;
  act = ctx.act;
  authorization_details = if_any input.details;
  scope = input.scope;
}

unfoldable pub build_id_token : GenerateInput → OrgContext → ℕ → String → IdClaims
unfolding person_claims
build_id_token input ctx ttl iss = record {
  person = person_claims input ctx ttl input.client_id iss;
  nonce = only_truthy input.nonce;
  amr = if_any input.amr;
  acr = only_truthy input.acr;
}
