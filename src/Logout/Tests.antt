-- ===== src/Logout/Tests.antt =====
-- A logout that returns to its client.
use inite_auth_service.Common.{String, [], ◌∷◌, none, some, true, false, ◌||◌, ◌≡◌, refl, ◌==◌}
use inite_auth_service.Scopes.{is_dynamic_client_id}
use inite_auth_service.Resource.{Url, Runtime}
use inite_auth_service.Logout.{
  LogoutRedirectDeps, LogoutRedirectInput, identify_client, resolve_post_logout_redirect,
}
use inite_auth_service.Logout.Safe.{MaySend, resolve_post_logout_redirect-MaySend}

abbrev shop_url : Url
shop_url = record {
  protocol = "https:";
  hostname = "shop.example";
  port = "";
  username = "";
  password = "";
  hash = "";
  origin = "https://shop.example";
}

-- Every text is a URL of the shop.
abbrev shop_js : Runtime
shop_js = record { parse_url = λ s. some shop_url; lower = λ s. s }

abbrev shop_deps : LogoutRedirectDeps
shop_deps = record {
  find_redirect_uris = λ id. some ("https://shop.example/cb" ∷ []);
  hint_client_id = λ token. none;
  is_trusted_origin = λ origin. false;
}

abbrev shop_logout : LogoutRedirectInput
shop_logout = record {
  post_logout_redirect_uri = some "https://shop.example/bye";
  state = none;
  client_id = some "shop";
  id_token_hint = none;
}

to_shop : resolve_post_logout_redirect shop_js shop_deps shop_logout ≡ some shop_url
unfolding resolve_post_logout_redirect identify_client is_dynamic_client_id
to_shop = refl

resolve_post_logout_redirect-MaySend_example :
    (uri : String) × (some "https://shop.example/bye" ≡ some uri)
    × (shop_js.parse_url uri ≡ some shop_url)
    × (((shop_url.protocol == "https:") || (shop_url.protocol == "http:")) ≡ true)
    × MaySend shop_js shop_deps (identify_client shop_deps shop_logout) shop_url
resolve_post_logout_redirect-MaySend_example =
    resolve_post_logout_redirect-MaySend shop_js shop_deps shop_logout shop_url to_shop
