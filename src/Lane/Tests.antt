-- ===== src/Lane/Tests.antt =====
-- Admission of a member and of a stranger.
use inite_auth_service.Common.{String, [], ◌∷◌, Bool, true, false, ◌≡◌, ◌≢◌, ◌⊎◌, ◌↔◌, refl}
use inite_auth_service.Common.Effect.{ok}
use inite_auth_service.Store.{Db, Membership}
use inite_auth_service.Lane.{LaneOrg, admit, customer_role, is_passwordless_session}
use inite_auth_service.Lane.Admission.{new_customer, admit-member, admit-stranger}
use inite_auth_service.Samples.{empty_db}

abbrev shop : LaneOrg
shop = record { id = "o1"; company_id = "c1"; slug = "shop" }

abbrev clerk : Membership
clerk = record { user_id = "u1"; organization_id = "o1"; role = "manager"; status = "active" }

abbrev staffed : Db
staffed = record empty_db { memberships = clerk ∷ [] }

admit-member_example :
    ((admit "u1" "web" shop ("otp" ∷ []) staffed).0 ≡ staffed)
    × (((admit "u1" "web" shop ("otp" ∷ []) staffed).1 ≡ ok ("manager", false)) ↔ (
        (clerk.status ≡ "active")
        × ((clerk.role ≢ customer_role) ⊎ (is_passwordless_session ("otp" ∷ []) ≡ true))))
admit-member_example = admit-member "u1" "web" shop ("otp" ∷ []) staffed clerk refl

admit-stranger_example :
    (((admit "u1" "web" shop ("otp" ∷ []) empty_db).0.memberships ≡ [])
      × ((r : String × Bool) → (admit "u1" "web" shop ("otp" ∷ []) empty_db).1 ≢ ok r))
    ⊎ (((admit "u1" "web" shop ("otp" ∷ []) empty_db).0.memberships ≡ new_customer "u1" "o1" ∷ [])
        × ((admit "u1" "web" shop ("otp" ∷ []) empty_db).1 ≡ ok (customer_role, true))
        × (is_passwordless_session ("otp" ∷ []) ≡ true))
admit-stranger_example = admit-stranger "u1" "web" shop ("otp" ∷ []) empty_db refl
