-- ===== src/AdminScope.antt =====
-- src/admin/admin-scope.ts and src/oauth/platform-role-claim.ts: the tenant scope of an operator.
mod Tests
pub mod Laws
use inite_auth_service.Common.{
  String, List, [], Option, none, some, Bool, true, false, ◌||◌, ◌==◌, if◌then◌else◌, includes,
  or_else, truthy, is_text, not,
}
use inite_auth_service.Store.{Metadata}

pub data AdminScope : Type 0 where
  superadmin : AdminScope
  scoped : String → AdminScope

-- `scope` is none where it is no `Set`.
pub record AdminScopePrincipal : Type 0 where
  pub kind : Option String
  pub scope : Option (List String)
  pub company_id : Option String
  pub metadata : Option Metadata

abbrev scoped_or_super : Option String → AdminScope
scoped_or_super none = superadmin
scoped_or_super (some id) = if truthy id then scoped id else superadmin

unfoldable pub resolve_machine_scope : AdminScopePrincipal → Option AdminScope
resolve_machine_scope user =
    if not (includes (or_else user.scope []) "admin")
    then none
    else some (scoped_or_super user.company_id)

unfoldable pub resolve_user_scope : Option Metadata → Option AdminScope
resolve_user_scope none = none
resolve_user_scope (some m) =
    let roles : List String = or_else m.roles [] in
    if m.is_superadmin || includes roles "superadmin"
    then some superadmin
    else if not (m.is_admin || includes roles "admin")
    then none
    else some (scoped_or_super m.company_id)

unfoldable pub resolve_admin_scope : Option AdminScopePrincipal → Option AdminScope
unfolding resolve_machine_scope resolve_user_scope
resolve_admin_scope none = none
resolve_admin_scope (some user) =
    if is_text user.kind "machine"
    then resolve_machine_scope user
    else resolve_user_scope user.metadata

-- `applyScopeFilter`: the companyId that a list endpoint filters by then.
unfoldable pub apply_scope_filter : AdminScope → Option String → Option String
apply_scope_filter (scoped id) filter_id = some id
apply_scope_filter superadmin filter_id = filter_id

abbrev pub claim_of : Option AdminScope → Option String
claim_of none = none
claim_of (some superadmin) = some "superadmin"
claim_of (some (scoped id)) = none

-- `platformRoleClaim`: the claim `platform_role`, if any.
unfoldable pub platform_role_claim : Metadata → Option String
unfolding resolve_admin_scope
platform_role_claim m = claim_of (
    resolve_admin_scope
      (some (record { kind = none; scope = none; company_id = none; metadata = some m })))
