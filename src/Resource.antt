-- ===== src/Resource.antt =====
-- src/oauth/resource-registry.ts: which RFC 8707 resources a client may bind a token to. The URL
-- parser and `toLowerCase` are the runtime's, and parameters here; `env` is OAUTH_RESOURCE_REGISTRY.
pub mod Registered
pub mod Own
pub mod Laws
mod Tests
use Prim.Native.String
use inite_auth_service.Common.{
  String, List, [], ◌∷◌, Option, none, some, Bool, true, false, not, ◌&&◌, ◌||◌, or_else, includes,
  if◌then◌else◌, ◌==◌, truthy, truthy?, any, select, map,
}
use inite_auth_service.Common.Text.{has_char, ends_with, strip_last, split_on, trim}
use inite_auth_service.Common.Effect.{Fault, bad_request, Result, ok, err}
use inite_auth_service.Scopes.{is_dynamic_client_id, is_true}

-- The parts of a parsed URL that the source reads.
pub record Url : Type 0 where
  pub protocol : String
  pub hostname : String
  pub port : String
  pub username : String
  pub password : String
  pub hash : String
  pub origin : String

-- What the JavaScript runtime provides.
pub record Runtime : Type 0 where
  pub parse_url : String → Option Url
  pub lower : String → String

abbrev pub family_domains : List String
family_domains =
    "inite.ai" ∷ "inite.services" ∷ "inite.rent" ∷ "inite.estate" ∷ "inite.digital" ∷ "inite.club"
    ∷ "inite.solutions" ∷ "inite.fund" ∷ "inite.studio" ∷ "inite.shop" ∷ "inite.food"
    ∷ "inite.travel" ∷ "inite.events" ∷ "inite.health" ∷ "inite.training" ∷ "inite.education"
    ∷ "inite.sport" ∷ "mikefluff.com" ∷ []

unfoldable pub extra_entries : String → List String
extra_entries env = select truthy (map (λ s. strip_last b'/' (trim s)) (split_on b',' env))

-- What the resource rule needs to know about the client.
pub record ResourceBoundClient : Type 0 where
  pub client_id : String
  pub is_public : Option Bool
  pub allowed_audiences : Option (List String)
  pub redirect_uris : Option (List String)

abbrev pub is_empty {ℓ} : {A : Type ℓ} → List A → Bool
is_empty [] = true
is_empty (x ∷ xs) = false

unfoldable pub needs_registered_resource : ResourceBoundClient → Bool
needs_registered_resource client =
    if not (is_empty (or_else client.allowed_audiences []))
    then false
    else is_dynamic_client_id (some client.client_id) || is_true client.is_public

module _ (js : Runtime) where
  unfoldable pub on_family_host : Url → Bool
  on_family_host url =
      let host : String = js.lower url.hostname in
      any (λ d. host == d || ends_with host (String.◌++◌ "." d)) family_domains

  registered_url : String → String → Url → Bool
  registered_url env resource url =
      if truthy url.hash || has_char b'#' resource
      then false
      else if truthy url.username || truthy url.password
      then false
      else if includes (extra_entries env) (strip_last b'/' resource)
          || includes (extra_entries env) url.origin
      then true
      else if not (url.protocol == "https:")
      then false
      else if truthy url.port
      then false
      else on_family_host url

  unfoldable pub is_registered_resource : String → String → Bool
  unfolding registered_url
  is_registered_resource env resource = elim (js.parse_url resource) [
    | none ↦ false
    | some url ↦ registered_url env resource url
  ]

  own_origin : String → String → Bool
  own_origin origin uri = elim (js.parse_url uri) [
    | none ↦ false
    | some own ↦ own.protocol == "https:" && own.origin == origin
  ]

  own_url : ResourceBoundClient → String → Url → Bool
  own_url client resource url =
      if not (url.protocol == "https:") || truthy url.hash || has_char b'#' resource
      then false
      else if truthy url.username || truthy url.password
      then false
      else any (own_origin url.origin) (or_else client.redirect_uris [])

  unfoldable pub is_own_resource : ResourceBoundClient → String → Bool
  unfolding own_url own_origin
  is_own_resource client resource =
      if resource == client.client_id
      then true
      else elim (js.parse_url resource) [ none ↦ false | some url ↦ own_url client resource url ]

  allowed_by : String → ResourceBoundClient → List String → String → Bool
  allowed_by env client [] resource =
      if needs_registered_resource client
      then is_registered_resource env resource
      else is_own_resource client resource
  allowed_by env client (a ∷ as_) resource = includes (a ∷ as_) resource

  -- `isResourceAllowed`: an absent or empty resource always may.
  unfoldable pub is_resource_allowed : String → ResourceBoundClient → Option String → Bool
  unfolding allowed_by
  is_resource_allowed env client none = true
  is_resource_allowed env client (some resource) =
      if not (truthy resource)
      then true
      else allowed_by env client (or_else client.allowed_audiences []) resource

  unfoldable pub assert_resource_allowed :
      String → ResourceBoundClient → Option String → Result (Unit {0})
  assert_resource_allowed env client resource =
      if is_resource_allowed env client resource
      then ok tt
      else err (
          bad_request "invalid_target" (
            if needs_registered_resource client
            then "Resource is not a registered INITE resource"
            else "Resource is not allowed for this client"))
