-- ===== src/Logout.antt =====
-- src/oauth/logout-redirect.ts: where a logout may send the browser. The URL parser and its printer
-- are the runtime's; the lookup of clients, the client of an id_token_hint and the trusted origins are
-- the interface LogoutRedirectDeps, as in the source.
pub mod Safe
mod Tests
use inite_auth_service.Common.{
  String, List, Option, none, some, Bool, true, false, not, ◌&&◌, ◌||◌, ◌==◌, if◌then◌else◌, any,
  truthy,
}
use inite_auth_service.Scopes.{is_dynamic_client_id}
use inite_auth_service.Resource.{Runtime, Url, on_family_host}

pub record LogoutRedirectDeps : Type 0 where
  -- `findClient`: the redirect URIs of the active client of that id
  pub find_redirect_uris : String → Option (List String)
  pub hint_client_id : String → Option String
  pub is_trusted_origin : String → Bool

pub record LogoutRedirectInput : Type 0 where
  pub post_logout_redirect_uri : Option String
  pub state : Option String
  pub client_id : Option String
  pub id_token_hint : Option String

-- Who asks: nobody may be told from a hint that is not ours.
pub data Asker : Type 0 where
  refuse anybody : Asker
  client : String → Asker

abbrev asker : Option String → Asker
asker none = anybody
asker (some id) = if truthy id then client id else anybody

-- `input.clientId || fromHint || null`
client_or_hint : Option String → Option String → Asker
client_or_hint none hint = asker hint
client_or_hint (some id) hint = if truthy id then client id else asker hint

agrees : Option String → String → Bool
agrees none hint = true
agrees (some id) hint = not (truthy id) || id == hint

hinted : Option String → Option String → Asker
unfolding client_or_hint agrees
hinted client_id none = refuse
hinted client_id (some hint) =
    if not (truthy hint)
    then refuse
    else if agrees client_id hint
    then client_or_hint client_id (some hint)
    else refuse

by_hint : LogoutRedirectDeps → Option String → Option String → Asker
unfolding hinted
by_hint deps client_id none = client_or_hint client_id none
by_hint deps client_id (some token) =
    if truthy token
    then hinted client_id (deps.hint_client_id token)
    else client_or_hint client_id none

unfoldable pub identify_client : LogoutRedirectDeps → LogoutRedirectInput → Asker
unfolding by_hint
identify_client deps input = by_hint deps input.client_id input.id_token_hint

module _ (js : Runtime) (deps : LogoutRedirectDeps) where
  -- The origin of a URI, if it parses, is this one.
  abbrev pub same_origin : String → String → Bool
  same_origin origin uri = elim (js.parse_url uri) [
    | none ↦ false
    | some url ↦ url.origin == origin
  ]

  abbrev pub registers : String → Option (List String) → Bool
  registers origin none = false
  registers origin (some uris) = any (same_origin origin) uris

  is_allowed_target : Url → Asker → Bool
  is_allowed_target url refuse = false
  is_allowed_target url anybody =
      url.protocol == "https:" && (on_family_host js url || deps.is_trusted_origin url.origin)
  is_allowed_target url (client id) =
      not (is_dynamic_client_id (some id)) && registers url.origin (deps.find_redirect_uris id)

  redirect_url : LogoutRedirectInput → Option Url → Option Url
  unfolding is_allowed_target
  redirect_url input none = none
  redirect_url input (some url) =
      if not (url.protocol == "https:") && not (url.protocol == "http:")
      then none
      else if is_allowed_target url (identify_client deps input)
      then some url
      else none

  redirect_to : LogoutRedirectInput → Option String → Option Url
  unfolding redirect_url
  redirect_to input none = none
  redirect_to input (some uri) = if truthy uri then redirect_url input (js.parse_url uri) else none

  -- The URL to go to, before `state` is set on it and it is printed.
  unfoldable pub resolve_post_logout_redirect : LogoutRedirectInput → Option Url
  unfolding redirect_to
  resolve_post_logout_redirect input = redirect_to input input.post_logout_redirect_uri
