-- ===== src/Resource/Tests.antt =====
-- Runs of the resource rule, and the theorems at them. The parser knows four texts.
use inite_auth_service.Common.{
  String, [], ◌∷◌, Option, none, some, true, false, ◌==◌, if◌then◌else◌, ◌≡◌, refl, ◌↔◌, arith,
  eq_iff,
}
use inite_auth_service.Resource.{
  Url, Runtime, ResourceBoundClient, is_resource_allowed, needs_registered_resource,
  is_registered_resource, is_own_resource, on_family_host, extra_entries,
}
use inite_auth_service.Resource.Laws.{MayBind, is_resource_allowed_iff}
use inite_auth_service.Common.Text.{trim, split_on}
use inite_auth_service.Scopes.{is_dynamic_client_id}

abbrev web : String → String → Url
web host origin = record {
  protocol = "https:";
  hostname = host;
  port = "";
  username = "";
  password = "";
  hash = "";
  origin = origin;
}

abbrev toy_parse : String → Option Url
toy_parse s =
    if s == "https://billing.inite.ai/mcp"
    then some (web "billing.inite.ai" "https://billing.inite.ai")
    else if s == "https://shop.example/mcp"
    then some (web "shop.example" "https://shop.example")
    else if s == "https://shop.example/cb"
    then some (web "shop.example" "https://shop.example")
    else none

abbrev toy : Runtime
toy = record { parse_url = toy_parse; lower = λ s. s }

abbrev dcr : ResourceBoundClient
dcr = record {
  client_id = "dcr_7";
  is_public = some true;
  allowed_audiences = some [];
  redirect_uris = some [];
}

abbrev shop : ResourceBoundClient
shop = record {
  client_id = "shop";
  is_public = some false;
  allowed_audiences = none;
  redirect_uris = some ("https://shop.example/cb" ∷ []);
}

dcr_billing : is_resource_allowed toy "" dcr (some "https://billing.inite.ai/mcp") ≡ true
unfolding is_resource_allowed needs_registered_resource is_registered_resource on_family_host
    is_dynamic_client_id extra_entries trim split_on
dcr_billing = refl

dcr_bare : is_resource_allowed toy "" dcr (some "brain") ≡ false
unfolding is_resource_allowed needs_registered_resource is_registered_resource on_family_host
    is_dynamic_client_id
dcr_bare = refl

shop_own : is_resource_allowed toy "" shop (some "https://shop.example/mcp") ≡ true
unfolding is_resource_allowed needs_registered_resource is_own_resource is_dynamic_client_id
shop_own = refl

shop_other : is_resource_allowed toy "" shop (some "https://billing.inite.ai/mcp") ≡ false
unfolding is_resource_allowed needs_registered_resource is_own_resource is_dynamic_client_id
shop_other = refl

is_resource_allowed_iff_example :
    (is_resource_allowed toy "" shop (some "https://shop.example/mcp") ≡ true)
    ↔ MayBind toy "" shop "https://shop.example/mcp"
is_resource_allowed_iff_example =
    is_resource_allowed_iff toy "" shop "https://shop.example/mcp"
      (λ e. ground (arith, eq_iff "https://shop.example/mcp" ""))

abbrev billing : String
billing = "https://billing.inite.ai/mcp"
