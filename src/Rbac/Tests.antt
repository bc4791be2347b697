-- ===== src/Rbac/Tests.antt =====
-- Runs of the guard, and the theorem at one: an admin of org1 who is a plain member of org2.
use inite_auth_service.Common.{String, [], ◌∷◌, Option, none, some, true, false, ◌≡◌, ◌↔◌, refl}
use inite_auth_service.Common.Effect.{err, ok, forbidden}
use inite_auth_service.Rbac.{RbacDb, RbacRequest, has_permission, can_activate}
use inite_auth_service.Rbac.Guard.{MayPass, can_activate_iff}
use inite_auth_service.AdminScope.{resolve_admin_scope}

abbrev tenants : RbacDb
tenants = record {
  memberships =
      (record { user_id = "u"; organization_id = "org1"; role = "admin"; status = "active" })
      ∷ (record { user_id = "u"; organization_id = "org2"; role = "member"; status = "active" })
      ∷ (record { user_id = "u"; organization_id = "org3"; role = "owner"; status = "suspended" })
      ∷ (record { user_id = "u"; organization_id = "org4"; role = "customer"; status = "active" })
      ∷ [];
  org_roles =
      (record { organization_id = some "org2"; slug = "viewer"; permissions = "*" ∷ [] }) ∷ [];
}

abbrev asks : Option String → RbacRequest
asks org = record {
  org_param = none;
  org_header = org;
  user = record {
    principal = record { kind = some "user"; scope = none; company_id = none; metadata = none };
    user_id = "u";
    org_id = some "org2";
  };
}

owner_wildcard : has_permission ("org:*" ∷ []) "org:members:manage" ≡ true
unfolding has_permission
owner_wildcard = refl

other_prefix : has_permission ("org:*" ∷ []) "organization:read" ≡ false
unfolding has_permission
other_prefix = refl

admin_manages : can_activate tenants true ("org:members:manage" ∷ []) (asks (some "org1")) ≡ ok true
unfolding can_activate resolve_admin_scope
admin_manages = refl

member_manages :
    can_activate tenants true ("org:members:manage" ∷ []) (asks none)
    ≡ err (forbidden "" "insufficient permissions")
unfolding can_activate resolve_admin_scope
member_manages = refl

suspended_owner :
    can_activate tenants true ("org:read" ∷ []) (asks (some "org3"))
    ≡ err (forbidden "" "insufficient permissions")
unfolding can_activate resolve_admin_scope
suspended_owner = refl

customer_reads :
    can_activate tenants true ("org:read" ∷ []) (asks (some "org4"))
    ≡ err (forbidden "" "insufficient permissions")
unfolding can_activate resolve_admin_scope
customer_reads = refl

can_activate_iff_example :
    (can_activate tenants true ("org:members:manage" ∷ []) (asks (some "org1")) ≡ ok true)
    ↔ ((true ≡ true) × MayPass tenants ("org:members:manage" ∷ []) (asks (some "org1")))
can_activate_iff_example =
    can_activate_iff tenants true "org:members:manage" [] (asks (some "org1"))
