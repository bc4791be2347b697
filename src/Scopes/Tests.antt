-- ===== src/Scopes/Tests.antt =====
-- Runs of the scope rules.
use inite_auth_service.Common.{String, [], ◌∷◌, Option, some, false, ◌≡◌, refl}
use inite_auth_service.Common.Text.{words}
use inite_auth_service.Common.Sets.{unique}
use inite_auth_service.Scopes.{ClientRef, row, bare, permitted_scopes, grantable_scope}

abbrev fund_client : ClientRef
fund_client = row (record {
  client_id = "inite-fund";
  allowed_scopes = some ("fund:read" ∷ []);
  is_public = some false;
})

abbrev agent : ClientRef
agent = bare "dcr_1"

asked : Option String
asked = some "openid  fund:read brain:admin openid fund:write"

permitted_fund : permitted_scopes fund_client asked ≡ "openid" ∷ "fund:read" ∷ []
unfolding permitted_scopes words unique asked
permitted_fund = refl

permitted_agent : permitted_scopes agent asked ≡ "openid" ∷ "fund:read" ∷ "fund:write" ∷ []
unfolding permitted_scopes words unique asked
permitted_agent = refl

granted_default : grantable_scope fund_client (some "brain:admin") ≡ "openid profile email"
unfolding grantable_scope permitted_scopes words unique
granted_default = refl
