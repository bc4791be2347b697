-- ===== src/AdminScope/Laws.antt =====
-- Who is an operator of the whole platform.
use inite_auth_service.Common.{
  String, [], Option, none, some, true, false, ◌≡◌, ◌↔◌, inl, inr, refl, includes, or_else,
  if◌then◌else◌, truthy, truthy?, Bool-cases, is_text, List, ◌||◌, arith,
}
use inite_auth_service.Store.{Metadata}
use inite_auth_service.AdminScope.{
  AdminScope, superadmin, scoped, AdminScopePrincipal, resolve_user_scope, resolve_machine_scope,
  resolve_admin_scope, platform_role_claim, claim_of, scoped_or_super,
}

-- A machine is an operator only with the `admin` scope, and one with a company of its own is held to
-- that company.
pub machine-scoped :
    (user : AdminScopePrincipal) (id : String)
    → is_text user.kind "machine" ≡ true
    → user.company_id ≡ some id
    → truthy id ≡ true
    → resolve_admin_scope (some user)
      ≡ (if includes (or_else user.scope []) "admin" then some (scoped id) else none)
unfolding resolve_admin_scope resolve_machine_scope
machine-scoped user id machine bound set =
    elim (Bool-cases (includes (or_else user.scope []) "admin")) [
      | inl e ↦ rw (machine, e, bound, set) refl
      | inr e ↦ rw (machine, e) refl
    ]

-- What the metadata of a superadmin says: the flag, the role, or an admin of no company, which is
-- what admins were before they had one.
pub data IsPlatformOperator (m : Metadata) : Type 0 where
  by_flag : m.is_superadmin ≡ true → IsPlatformOperator m
  by_role : includes (or_else m.roles []) "superadmin" ≡ true → IsPlatformOperator m
  by_no_company :
      (m.is_admin || includes (or_else m.roles []) "admin") ≡ true
      → truthy? m.company_id ≡ false
      → IsPlatformOperator m

company-super :
    (company_id : Option String)
    → some (scoped_or_super company_id) ≡ some superadmin
    → truthy? company_id ≡ false
company-super none h = refl
company-super (some id) h = elim (Bool-cases (truthy id)) [
  | inl e ↦ absurd (apart (rw e at h))
  | inr e ↦ e
]
  where
    apart : some (scoped id) ≡ some superadmin → ⊥
    apart k = cc

super-company :
    (company_id : Option String)
    → truthy? company_id ≡ false
    → some (scoped_or_super company_id) ≡ some superadmin
super-company none h = refl
super-company (some id) h = rw h refl

no_scope : none ≡ some superadmin → ⊥
no_scope h = cc

resolve_user_scope_iff :
    (m : Metadata) → (resolve_user_scope (some m) ≡ some superadmin) ↔ IsPlatformOperator m
unfolding resolve_user_scope
resolve_user_scope_iff m = (sound, complete)
  where
    roles : List String
    roles = or_else m.roles []

    sound : resolve_user_scope (some m) ≡ some superadmin → IsPlatformOperator m
    sound h = elim (Bool-cases m.is_superadmin) [
      | inl flag ↦ by_flag flag
      | inr e ↦ elim (Bool-cases (includes (or_else m.roles []) "superadmin")) [
        | inl role ↦ by_role role
        | inr r ↦ elim (Bool-cases (m.is_admin || includes (or_else m.roles []) "admin")) [
          | inl admin ↦ by_no_company admin (company-super m.company_id (rw (e, r, admin) at h))
          | inr a ↦ absurd (no_scope (rw (e, r, a) at h))
        ]
      ]
    ]

    complete : IsPlatformOperator m → resolve_user_scope (some m) ≡ some superadmin
    complete (by_flag flag) = rw flag refl
    complete (by_role role) = ground (arith, role)
    complete (by_no_company admin unstamped) =
        elim (Bool-cases (m.is_superadmin || includes (or_else m.roles []) "superadmin")) [
          | inl e ↦ rw e refl
          | inr e ↦ rw (e, admin) (super-company m.company_id unstamped)
        ]

claim_of_iff : (s : Option AdminScope) → (claim_of s ≡ some "superadmin") ↔ (s ≡ some superadmin)
claim_of_iff none = (λ h. cc, λ h. cc)
claim_of_iff (some superadmin) = (λ h. refl, λ h. refl)
claim_of_iff (some (scoped id)) = (λ h. cc, λ h. cc)

-- Of a principal that is no machine, its metadata alone decide: it is a superadmin, and its tokens
-- carry the claim `platform_role`, exactly where the metadata have the flag or the role of a
-- superadmin, or name an admin and no company.
pub platform_role_claim_iff :
    (user : AdminScopePrincipal) (m : Metadata)
    → is_text user.kind "machine" ≡ false
    → user.metadata ≡ some m
    → ((resolve_admin_scope (some user) ≡ some superadmin) ↔ IsPlatformOperator m)
      × ((platform_role_claim m ≡ some "superadmin") ↔ IsPlatformOperator m)
unfolding platform_role_claim resolve_admin_scope
platform_role_claim_iff user m human known =
    let claimed = claim_of_iff (resolve_user_scope (some m)) in
    let super = resolve_user_scope_iff m in
    (rw (human, known) super, (λ h. super.0 (claimed.0 h), λ o. claimed.1 (super.1 o)))
