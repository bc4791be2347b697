-- ===== src/Claims/Tests.antt =====
-- The claims of a customer.
use inite_auth_service.Common.{[], ◌∷◌, none, true, false, ◌≡◌, refl, includes}
use inite_auth_service.Store.{Db, Organization}
use inite_auth_service.Lane.{customer_role}
use inite_auth_service.Claims.{resolve_org_context}
use inite_auth_service.Claims.Laws.{resolve_org_context-no_customer}
use inite_auth_service.Samples.{empty_db, input}

abbrev shop : Organization
shop = record {
  id = "o1";
  company_id = "c1";
  slug = "shop";
  metadata = record { active = none; status = none; lane_clients = none; is_demo = false };
}

abbrev shop_db : Db
shop_db = record empty_db {
  organizations = shop ∷ [];
  memberships =
      record { user_id = "u1"; organization_id = "o1"; role = "customer"; status = "active" } ∷ [];
}

customer_unnamed :
    includes (resolve_org_context true (λ i. none) shop_db input).roles customer_role ≡ false
customer_unnamed = resolve_org_context-no_customer true (λ i. none) shop_db input refl
