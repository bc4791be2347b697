-- ===== src/Claims/Laws.antt =====
-- What reaches a token: of the client's claims, and of the memberships.
use inite_auth_service.Common.{
  ℕ, zero, suc, String, List, [], ◌∷◌, ◌++◌, Option, none, some, Bool, true, false, not, ◌≡◌, refl,
  arith, ◌≤◌, length, All, includes, select, map, ◌==◌, Bool-cases, inl, inr, or_else, ◌∙◌,
  find_first,
}
use inite_auth_service.Common.Sets.{unique, includes-unique, includes-append, includes-select}
use inite_auth_service.Store.{Db, ClientRow, Organization, Membership}
use inite_auth_service.Lane.{staff_roles, token_tenant, customer_role}
use inite_auth_service.Claims.{
  valid_value, sanitize_custom_claims, keep_claim, take, texts, OrgContext, GenerateInput,
  resolve_org_context, base_context, member_context, provisioned_context, roles_or_user, joined,
  claims_of, map_option, lane_client,
}

abbrev Valid : String → Type 0
Valid v = valid_value v ≡ true

-- A claim of an allowed key with sixteen short identifiers at most.
abbrev Sane : String × List String → Type 0
Sane (key, values) =
    (includes ("policy" ∷ "packs" ∷ []) key ≡ true) × (length values ≤ 16) × All Valid values

length-take : (n : ℕ) (vs : List String) → length (take n vs) ≤ n
length-take zero vs = omega arith
length-take (suc n) [] = omega arith
length-take (suc n) (v ∷ vs) = omega (arith, length-take n vs)

take-Valid : (n : ℕ) (vs : List String) → All Valid vs → All Valid (take n vs)
take-Valid zero vs a = tt
take-Valid (suc n) [] a = tt
take-Valid (suc n) (v ∷ vs) a = (a.0, take-Valid n vs a.1)

select-Valid : (vs : List String) → All Valid (select valid_value vs)
select-Valid [] = tt
select-Valid (v ∷ vs) = elim (Bool-cases (valid_value v)) [
  | inl e ↦ rw e (e, select-Valid vs)
  | inr e ↦ rw e (select-Valid vs)
]

keep_claim-Sane :
    (key : String) (vs : List String) (rest : List (String × List String))
    → Sane (key, vs)
    → All Sane rest
    → All Sane (keep_claim key vs rest)
keep_claim-Sane key [] rest s a = a
keep_claim-Sane key (v ∷ vs) rest s a = (s, a)

-- Of a client's custom claims a token carries only those named `policy` or `packs`, each with
-- sixteen values at most, all of them lower-case identifiers of at most 64 characters.
pub sanitize_custom_claims-Sane :
    (raw : List (String × Option (List (Option String)))) → All Sane (sanitize_custom_claims raw)
unfolding sanitize_custom_claims
sanitize_custom_claims-Sane [] = tt
sanitize_custom_claims-Sane ((key, none) ∷ raw) = sanitize_custom_claims-Sane raw
sanitize_custom_claims-Sane ((key, some values) ∷ raw) =
    elim (Bool-cases (includes ("policy" ∷ "packs" ∷ []) key)) [
      | inr e ↦ rw e (sanitize_custom_claims-Sane raw)
      | inl e ↦ rw e (
          keep_claim-Sane key (take 16 (select valid_value (texts values)))
            (sanitize_custom_claims raw)
            (
              e,
              length-take 16 (select valid_value (texts values)),
              take-Valid 16 _ (select-Valid (texts values)),
            )
            (sanitize_custom_claims-Sane raw))
    ]

abbrev holds : List String → Bool
holds roles = includes roles customer_role

roles_or_user-holds :
    (roles : List String) → holds roles ≡ false → holds (roles_or_user roles) ≡ false
roles_or_user-holds [] h = refl
roles_or_user-holds (r ∷ roles) h = h

staff_roles-holds : (ms : List Membership) → holds (staff_roles ms) ≡ false
unfolding staff_roles
staff_roles-holds ms =
    includes-select (λ r. not (r == customer_role)) (map (λ (m : Membership). m.role) ms)
      customer_role
    ∙ ground arith

merged-holds :
    (roles staff : List String)
    → holds roles ≡ false
    → holds staff ≡ false
    → holds (unique (roles ++ staff)) ≡ false
merged-holds roles staff h k =
    includes-unique (roles ++ staff) customer_role
    ∙ includes-append roles staff customer_role
    ∙ ground arith

provisioned-holds :
    (roles : List String) (base : OrgContext) (o : Option Organization)
    → holds roles ≡ false
    → holds base.roles ≡ false
    → holds (provisioned_context roles base o).roles ≡ false
unfolding provisioned_context
provisioned-holds roles base none h k = k
provisioned-holds roles base (some o) h k = merged-holds roles ("owner" ∷ []) h refl

member-holds :
    (roles : List String) (base : OrgContext) (tenant : Option String)
    (ms : List (Membership × Organization)) (o : Option Organization)
    → holds roles ≡ false
    → holds base.roles ≡ false
    → holds (member_context roles base tenant ms o).roles ≡ false
unfolding member_context
member-holds roles base tenant [] o h k = provisioned-holds roles base o h k
member-holds roles base tenant (first ∷ rest) o h k =
    let staff : List String =
      staff_roles (map (λ (p : Membership × Organization). p.0) (first ∷ rest)) in
    roles_or_user-holds (unique (roles ++ staff)) (
      merged-holds roles staff h
        (staff_roles-holds (map (λ (p : Membership × Organization). p.0) (first ∷ rest))))

-- A customer's membership gives no role to a token: unless the person's own metadata names the role
-- `customer`, no token of theirs does, for whatever client and org it is issued.
pub resolve_org_context-no_customer :
    (rbac : Bool) (provision : GenerateInput → Option Organization) (db : Db)
    (input : GenerateInput)
    → includes (or_else input.user.metadata.roles []) customer_role ≡ false
    → includes (resolve_org_context rbac provision db input).roles customer_role ≡ false
unfolding resolve_org_context
resolve_org_context-no_customer false provision db input h =
    roles_or_user-holds (or_else input.user.metadata.roles []) h
resolve_org_context-no_customer true provision db input h =
    let roles : List String = or_else input.user.metadata.roles [] in
    let client : Option ClientRow =
      find_first (λ (c : ClientRow). c.client_id == input.client_id) db.clients in
    member-holds roles (base_context roles (claims_of client))
      (token_tenant (map_option lane_client client) input.tenant)
      (joined db.organizations input.user.id db.memberships) (provision input) h
      (roles_or_user-holds roles h)
