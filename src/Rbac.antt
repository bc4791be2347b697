-- ===== src/Rbac.antt =====
-- src/rbac/permissions.ts, src/rbac/rbac.service.ts and src/rbac/org-rbac.guard.ts: what a role may do
-- in an organization, and the guard of the routes that ask for permissions. Whether the JWT passed
-- is an argument of the guard, and so are the rows of OrgRole.
mod Tests
pub mod Guard
pub mod Permission
use Prim.Native.String.{[] as nil, ◌∷◌ as cons}
use inite_auth_service.Common.{
  String, List, [], ◌∷◌, Option, none, some, Bool, true, false, not, ◌&&◌, ◌||◌, ◌==◌, any, all,
  if◌then◌else◌, find_first, or_else, includes, truthy, is_some, is_text, starts_with,
}
use inite_auth_service.Common.Text.{ends_with}
use inite_auth_service.Common.Effect.{Result, ok, err, forbidden}
use inite_auth_service.Store.{Membership}
use inite_auth_service.Lane.{is_member}
use inite_auth_service.AdminScope.{
  AdminScope, superadmin, scoped, AdminScopePrincipal, resolve_admin_scope,
}

-- A row of no organization is a template.
pub record OrgRole : Type 0 where
  pub organization_id : Option String
  pub slug : String
  pub permissions : List String

-- What RbacService reads.
pub record RbacDb : Type 0 where
  pub memberships : List Membership
  pub org_roles : List OrgRole

-- SYSTEM_ROLE_PERMISSIONS
unfoldable pub system_role_permissions : String → Option (List String)
system_role_permissions role =
    if role == "owner"
    then some ("org:*" ∷ [])
    else if role == "admin"
    then some ("org:read" ∷ "org:members:manage" ∷ "org:roles:manage" ∷ [])
    else if role == "member"
    then some ("org:read" ∷ [])
    else if role == "viewer"
    then some ("org:read" ∷ [])
    else if role == "customer"
    then some []
    else none

drop_last : String → String
drop_last nil = nil
drop_last (cons c nil) = nil
drop_last (cons c (cons d s)) = cons c (drop_last (cons d s))

-- `g` ends with `:*`, and what is required starts with the rest of it.
wildcard_grants : String → String → Bool
unfolding drop_last
wildcard_grants required g = ends_with g ":*" && starts_with required (drop_last g)

unfoldable pub has_permission : List String → String → Bool
unfolding wildcard_grants
has_permission granted required =
    if includes granted "*" || includes granted required
    then true
    else any (wildcard_grants required) granted

is_role : String → String → OrgRole → Bool
is_role organization_id slug r = is_text r.organization_id organization_id && r.slug == slug

role_or_system : String → Option OrgRole → List String
unfolding system_role_permissions
role_or_system slug (some custom) = custom.permissions
role_or_system slug none = or_else (system_role_permissions slug) []

unfoldable pub permissions_for_role : RbacDb → String → String → List String
unfolding role_or_system is_role
permissions_for_role db organization_id slug =
    role_or_system slug (find_first (is_role organization_id slug) db.org_roles)

permissions_of_membership : RbacDb → String → Option Membership → List String
unfolding permissions_for_role
permissions_of_membership db organization_id none = []
permissions_of_membership db organization_id (some m) =
    if m.status == "active" then permissions_for_role db organization_id m.role else []

unfoldable pub resolve_permissions : RbacDb → String → String → List String
unfolding permissions_of_membership
resolve_permissions db user_id organization_id =
    permissions_of_membership db organization_id
      (find_first (is_member user_id organization_id) db.memberships)

-- The user of a request that the JWT guard let in.
pub record RbacUser : Type 0 where
  pub principal : AdminScopePrincipal
  pub user_id : String
  pub org_id : Option String

pub record RbacRequest : Type 0 where
  pub org_param : Option String
  pub org_header : Option String
  pub user : RbacUser

either : Option String → Option String → Option String
either none other = other
either (some s) other = some s

unfoldable pub resolve_org_id : RbacRequest → Option String
unfolding either
resolve_org_id req = either req.org_param (either req.org_header req.user.org_id)

-- The organization of the request, and the person's permissions there
of_member : RbacDb → List String → String → Option String → Result Bool
unfolding resolve_permissions has_permission
of_member db required user_id none = err (forbidden "" "organization context required")
of_member db required user_id (some org_id) =
    if not (truthy org_id)
    then err (forbidden "" "organization context required")
    else if not (all (has_permission (resolve_permissions db user_id org_id)) required)
    then err (forbidden "" "insufficient permissions")
    else ok true

of_principal : RbacDb → List String → RbacRequest → Option AdminScope → Result Bool
unfolding of_member resolve_org_id
of_principal db required req (some superadmin) = ok true
of_principal db required req (some (scoped id)) =
    if is_text req.user.principal.kind "machine"
    then ok true
    else of_member db required req.user.user_id (resolve_org_id req)
of_principal db required req none =
    if is_text req.user.principal.kind "machine"
    then err (forbidden "" "insufficient scope")
    else of_member db required req.user.user_id (resolve_org_id req)

-- `canActivate`, after the JWT guard answered `authed`
unfoldable pub can_activate :
    RbacDb → (authed : Bool) → (required : List String) → RbacRequest → Result Bool
unfolding of_principal
can_activate db false required req = ok false
can_activate db true [] req = ok true
can_activate db true (p ∷ required) req =
    of_principal db (p ∷ required) req (resolve_admin_scope (some req.user.principal))
