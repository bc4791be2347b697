-- ===== src/AdminScope/Tests.antt =====
-- The admin scope at a superadmin.
use inite_auth_service.Common.{[], ◌∷◌, none, some, false, ◌≡◌, ◌↔◌, refl}
use inite_auth_service.Store.{Metadata}
use inite_auth_service.AdminScope.{
  superadmin, AdminScopePrincipal, resolve_admin_scope, platform_role_claim,
}
use inite_auth_service.AdminScope.Laws.{IsPlatformOperator, platform_role_claim_iff}

abbrev chief : Metadata
chief = record {
  roles = some ("superadmin" ∷ []);
  is_superadmin = false;
  is_admin = false;
  company_id = some "c1";
}

abbrev person : AdminScopePrincipal
person = record { kind = none; scope = none; company_id = none; metadata = some chief }

platform_role_claim_iff_example :
    ((resolve_admin_scope (some person) ≡ some superadmin) ↔ IsPlatformOperator chief)
    × ((platform_role_claim chief ≡ some "superadmin") ↔ IsPlatformOperator chief)
platform_role_claim_iff_example = platform_role_claim_iff person chief refl refl
