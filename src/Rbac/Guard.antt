-- ===== src/Rbac/Guard.antt =====
-- Who passes the guard of a route that asks for permissions.
use inite_auth_service.Common.{
  String, List, [], ◌∷◌, Option, none, some, Bool, true, false, ◌==◌, all, All, find_first, is_text,
  truthy, ◌↔◌, ◌≡◌, refl, subst, arith, Bool-cases, inl, inr,
}
use inite_auth_service.Common.Effect.{ok}
use inite_auth_service.Store.{Membership}
use inite_auth_service.Lane.{is_member}
use inite_auth_service.AdminScope.{AdminScope, superadmin, scoped, resolve_admin_scope}
use inite_auth_service.Rbac.Permission.{Grants, all-Grants, Grants-all}
use inite_auth_service.Rbac.{
  RbacDb, RbacRequest, has_permission, permissions_for_role, resolve_permissions, resolve_org_id,
  permissions_of_membership, of_member, of_principal, can_activate,
}

-- The person's membership in the organization is active, and its role grants all that is required.
pub data MemberMay (db : RbacDb) (required : List String) (user_id : String) (asked : Option String)
    : Type 0 where
  by_membership :
      (org_id : String) (m : Membership)
      → asked ≡ some org_id
      → truthy org_id ≡ true
      → find_first (is_member user_id org_id) db.memberships ≡ some m
      → (m.status == "active") ≡ true
      → All (Grants (permissions_for_role db org_id m.role)) required
      → MemberMay db required user_id asked

pub data MayPass (db : RbacDb) (required : List String) (req : RbacRequest) : Type 0 where
  by_rank :
      resolve_admin_scope (some req.user.principal) ≡ some superadmin → MayPass db required req
  by_scope :
      (company_id : String)
      → is_text req.user.principal.kind "machine" ≡ true
      → resolve_admin_scope (some req.user.principal) ≡ some (scoped company_id)
      → MayPass db required req
  by_role :
      is_text req.user.principal.kind "machine" ≡ false
      → MemberMay db required req.user.user_id (resolve_org_id req)
      → MayPass db required req

nothing-granted :
    (p : String) (required : List String) → all (has_permission []) (p ∷ required) ≡ false
unfolding has_permission
nothing-granted p required = refl

membership-granted :
    (db : RbacDb) (p : String) (required : List String) (org_id : String)
    (found : Option Membership)
    → all (has_permission (permissions_of_membership db org_id found)) (p ∷ required) ≡ true
    → (m : Membership) × (found ≡ some m)
      × ((m.status == "active") ≡ true)
      × (all (has_permission (permissions_for_role db org_id m.role)) (p ∷ required) ≡ true)
unfolding permissions_of_membership
membership-granted db p required org_id none h =
    let nothing = nothing-granted p required in ground arith
membership-granted db p required org_id (some m) h = elim (Bool-cases (m.status == "active")) [
  | inl active ↦
      let granted : permissions_of_membership db org_id (some m)
          ≡ permissions_for_role db org_id m.role =
        rw active refl in
      (m, refl, active, subst (λ g. all (has_permission g) (p ∷ required) ≡ true) granted h)
  | inr gone ↦
      let nothing = nothing-granted p required in
      let emptied : permissions_of_membership db org_id (some m) ≡ [] = rw gone refl in
      let impossible = subst (λ g. all (has_permission g) (p ∷ required) ≡ true) emptied h in
      ground arith
]

of_member-MemberMay :
    (db : RbacDb) (p : String) (required : List String) (user_id : String) (asked : Option String)
    → of_member db (p ∷ required) user_id asked ≡ ok true
    → MemberMay db (p ∷ required) user_id asked
unfolding of_member resolve_permissions
of_member-MemberMay db p required user_id none h = cc
of_member-MemberMay db p required user_id (some org_id) h =
    let found = find_first (is_member user_id org_id) db.memberships in
    let granted : all (has_permission (permissions_of_membership db org_id found)) (p ∷ required)
        ≡ true =
      ground arith in
    let r = membership-granted db p required org_id found granted in
    by_membership org_id r.0 refl (ground arith) r.1 r.2
      (all-Grants (permissions_for_role db org_id r.0.role) (p ∷ required) r.3)

MemberMay-of_member :
    (db : RbacDb) (required : List String) (user_id : String) (asked : Option String)
    → MemberMay db required user_id asked
    → of_member db required user_id asked ≡ ok true
unfolding of_member resolve_permissions permissions_of_membership
MemberMay-of_member db required user_id asked
      (by_membership org_id m named there found active all_of) =
    let granted : all (has_permission (resolve_permissions db user_id org_id)) required ≡ true =
      rw (found, active) (Grants-all (permissions_for_role db org_id m.role) required all_of) in
    rw (named, there, granted) refl

of_principal-MayPass :
    (db : RbacDb) (p : String) (required : List String) (req : RbacRequest)
    (scope : Option AdminScope)
    → resolve_admin_scope (some req.user.principal) ≡ scope
    → of_principal db (p ∷ required) req scope ≡ ok true
    → MayPass db (p ∷ required) req
unfolding of_principal
of_principal-MayPass db p required req (some superadmin) e h = by_rank e
of_principal-MayPass db p required req (some (scoped id)) e h =
    elim (Bool-cases (is_text req.user.principal.kind "machine")) [
      | inl machine ↦ by_scope id machine e
      | inr person ↦
          by_role person (
            of_member-MemberMay db p required req.user.user_id (resolve_org_id req)
              (rw person at h))
    ]
of_principal-MayPass db p required req none e h =
    elim (Bool-cases (is_text req.user.principal.kind "machine")) [
      | inl machine ↦ let impossible = rw machine at h in cc
      | inr person ↦
          by_role person (
            of_member-MemberMay db p required req.user.user_id (resolve_org_id req)
              (rw person at h))
    ]

person-passes :
    (db : RbacDb) (required : List String) (req : RbacRequest) (scope : Option AdminScope)
    → is_text req.user.principal.kind "machine" ≡ false
    → of_member db required req.user.user_id (resolve_org_id req) ≡ ok true
    → of_principal db required req scope ≡ ok true
unfolding of_principal
person-passes db required req none person passes = rw person passes
person-passes db required req (some superadmin) person passes = refl
person-passes db required req (some (scoped id)) person passes = rw person passes

MayPass-of_principal :
    (db : RbacDb) (required : List String) (req : RbacRequest)
    → MayPass db required req
    → of_principal db required req (resolve_admin_scope (some req.user.principal)) ≡ ok true
unfolding of_principal
MayPass-of_principal db required req (by_rank e) = rw e refl
MayPass-of_principal db required req (by_scope id machine e) = rw (e, machine) refl
MayPass-of_principal db required req (by_role person may) =
    person-passes db required req (resolve_admin_scope (some req.user.principal)) person
      (MemberMay-of_member db required req.user.user_id (resolve_org_id req) may)

-- A route that asks for a permission lets in a signed-in superadmin, machine that is an operator, or
-- person whose membership in the organization asked for is active and has a role that grants all the
-- permissions, and nobody else.
pub can_activate_iff :
    (db : RbacDb) (authed : Bool) (p : String) (required : List String) (req : RbacRequest)
    → (can_activate db authed (p ∷ required) req ≡ ok true)
      ↔ ((authed ≡ true) × MayPass db (p ∷ required) req)
unfolding can_activate
can_activate_iff db false p required req = (λ h. cc, λ r. cc r.0)
can_activate_iff db true p required req = (
  λ h. (
    refl,
    of_principal-MayPass db p required req (resolve_admin_scope (some req.user.principal)) refl h,
  ),
  λ r. MayPass-of_principal db (p ∷ required) req r.1,
)
