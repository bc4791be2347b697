-- ===== src/Lane/Admission.antt =====
-- What admitting a person does to the memberships.
use inite_auth_service.Common.{
  eq_false, String, List, [], ◌∷◌, ◌++◌, none, some, Bool, true, false, ◌≡◌, ◌≢◌, ◌⊎◌, inl, inr,
  arith, eq_iff, find_first, Bool-cases, any-find_first-none, ◌↔◌,
}
use inite_auth_service.Common.Effect.{ok}
use inite_auth_service.Store.{Db, Membership}
use inite_auth_service.Lane.{
  admit_by, LaneOrg, customer, customer_role, is_passwordless_session, lane_verdict, is_member,
  membership_of, create_customer, admit, verified, with_user_id,
}

-- The row that a new customer gets.
abbrev pub new_customer : String → String → Membership
new_customer user_id org_id = record {
  user_id = user_id;
  organization_id = org_id;
  role = customer_role;
  status = "active";
}

-- A person is a customer exactly after a passwordless sign-in, and only with no membership or an
-- active customer's; an active member with another role is staff whatever the session is.
pub lane_verdict-customer_iff :
    (m : Membership) (amr : List String)
    → (lane_verdict (some m) amr ≡ customer)
      ↔ ((m.status ≡ "active") × (m.role ≡ customer_role) × (is_passwordless_session amr ≡ true))
unfolding lane_verdict
lane_verdict-customer_iff m amr = (
  (λ h. ground (arith, eq_iff m.status "active", eq_iff m.role customer_role)),
  (λ h. ground (arith, eq_iff m.status "active", eq_iff m.role customer_role)),
)

-- Admitting a person who is a member already changes nothing at all, and answers with the role that
-- they hold exactly when the membership is active and, for a customer, the session is passwordless.
pub admit-member :
    (user_id client_id : String) (org : LaneOrg) (amr : List String) (db : Db) (m : Membership)
    → find_first (is_member user_id org.id) db.memberships ≡ some m
    → ((admit user_id client_id org amr db).0 ≡ db)
      × (((admit user_id client_id org amr db).1 ≡ ok (m.role, false)) ↔ (
          (m.status ≡ "active")
          × ((m.role ≢ customer_role) ⊎ (is_passwordless_session amr ≡ true))))
unfolding admit membership_of lane_verdict admit_by
admit-member user_id client_id org amr db m found =
    rw (found, admit)
      (
        ground arith,
        (
          λ h. (ground (arith, eq_iff m.status "active"), answered h),
          λ h. elim h.1 [
            | inl n ↦
                ground (arith, (eq_iff m.status "active").1 h.0, eq_false m.role customer_role n)
            | inr p ↦ ground (arith, (eq_iff m.status "active").1 h.0, p)
          ],
        ),
      )
  where
    answered :
        (admit_by (lane_verdict (some m) amr) (some m) user_id client_id org db).1
          ≡ ok (m.role, false)
        → (m.role ≢ customer_role) ⊎ (is_passwordless_session amr ≡ true)
    answered h = elim (Bool-cases (is_passwordless_session amr)) [
      | inl e ↦ inr e
      | inr e ↦ inl (λ c. ground (arith, eq_iff m.role customer_role))
    ]

-- Admitting a person with no membership either fails and changes no membership, or adds exactly one
-- row, an active customer of that org, after a passwordless session.
pub admit-stranger :
    (user_id client_id : String) (org : LaneOrg) (amr : List String) (db : Db)
    → find_first (is_member user_id org.id) db.memberships ≡ none
    → (((admit user_id client_id org amr db).0.memberships ≡ db.memberships)
        × ((r : String × Bool) → (admit user_id client_id org amr db).1 ≢ ok r))
      ⊎ (((admit user_id client_id org amr db).0.memberships
            ≡ db.memberships ++ new_customer user_id org.id ∷ [])
          × ((admit user_id client_id org amr db).1 ≡ ok (customer_role, true))
          × (is_passwordless_session amr ≡ true))
unfolding admit membership_of lane_verdict create_customer
admit-stranger user_id client_id org amr db found =
    elim (Bool-cases (is_passwordless_session amr)) [
      | inr e ↦ inl (ground arith, λ r h. ground arith)
      | inl e ↦ elim (Bool-cases (verified (find_first (with_user_id user_id) db.users))) [
        | inr u ↦ inl (ground arith, λ r h. ground arith)
        | inl u ↦
            let vacant = any-find_first-none (is_member user_id org.id) db.memberships found in
            inr (ground arith, ground arith, e)
      ]
    ]
