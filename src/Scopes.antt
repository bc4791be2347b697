-- ===== src/Scopes.antt =====
-- src/oauth/oauth-scopes.registry.ts: the scopes that the server knows, and which of the requested
-- ones a client may hold.
pub mod Laws
mod Tests
use inite_auth_service.Common.{
  String, List, [], ◌∷◌, ◌++◌, Option, none, some, Bool, true, false, starts_with, or_else, select,
  includes, if◌then◌else◌,
}
use inite_auth_service.Common.Text.{words, join}
use inite_auth_service.Common.Sets.{unique}

abbrev pub standard_scopes : List String
standard_scopes = "openid" ∷ "profile" ∷ "email" ∷ "offline_access" ∷ []

abbrev pub brain_scopes : List String
brain_scopes =
    "brain:read" ∷ "brain:write" ∷ "brain:admin" ∷ "brain:read_pii" ∷ "registry:publish"
    ∷ "indexer:write" ∷ []

abbrev pub mikefluff_scopes : List String
mikefluff_scopes = "mikefluff:purchase" ∷ "mikefluff:booking" ∷ []

abbrev pub wallet_scopes : List String
wallet_scopes = "wallet:pay" ∷ []

abbrev pub billing_scopes : List String
billing_scopes = "billing:account" ∷ []

abbrev pub fund_scopes : List String
fund_scopes = "fund:read" ∷ "fund:write" ∷ []

abbrev pub dcr_vertical_scopes : List String
dcr_vertical_scopes =
    "brain:read"
    ∷ "brain:write"
    ∷ (mikefluff_scopes ++ wallet_scopes ++ billing_scopes ++ fund_scopes)

-- Everything that a token can carry.
unfoldable pub supported_scopes : List String
supported_scopes =
    standard_scopes ++ brain_scopes ++ mikefluff_scopes ++ wallet_scopes ++ billing_scopes
    ++ fund_scopes

-- What an open registration may be granted.
abbrev pub dcr_supported_scopes : List String
dcr_supported_scopes = standard_scopes ++ dcr_vertical_scopes

abbrev pub default_scope : String
default_scope = "openid profile email"

unfoldable pub is_dynamic_client_id : Option String → Bool
is_dynamic_client_id none = false
is_dynamic_client_id (some id) = starts_with id "dcr_"

pub record ScopeBoundClient : Type 0 where
  pub client_id : String
  pub allowed_scopes : Option (List String)
  pub is_public : Option Bool

-- The argument `ScopeBoundClient | string | null | undefined`.
pub data ClientRef : Type 0 where
  row : ScopeBoundClient → ClientRef
  bare : String → ClientRef
  absent : ClientRef

abbrev pub ref_id : ClientRef → Option String
ref_id (row c) = some c.client_id
ref_id (bare id) = some id
ref_id absent = none

-- `x === true` on a flag that may be missing
abbrev pub is_true : Option Bool → Bool
is_true none = false
is_true (some b) = b

-- The scopes that an operator-provisioned client's row allows.
abbrev row_allowance : ScopeBoundClient → List String
row_allowance c =
    standard_scopes
    ++ or_else c.allowed_scopes []
    ++ (if is_true c.is_public then dcr_vertical_scopes else [])

-- The branches behind the test for a dynamic client; with no row, the OIDC baseline only.
abbrev permitted_by_row : ClientRef → List String → List String
permitted_by_row (row c) scopes = select (includes (row_allowance c)) scopes
permitted_by_row (bare id) scopes = select (includes standard_scopes) scopes
permitted_by_row absent scopes = select (includes standard_scopes) scopes

unfoldable pub permitted_scopes : ClientRef → Option String → List String
unfolding is_dynamic_client_id
permitted_scopes client requested =
    let scopes : List String = unique (words (or_else requested "")) in
    if is_dynamic_client_id (ref_id client)
    then select (includes dcr_supported_scopes) scopes
    else permitted_by_row client scopes

abbrev scope_or_default : List String → String
scope_or_default [] = default_scope
scope_or_default (s ∷ ss) = join " " (s ∷ ss)

unfoldable pub grantable_scope : ClientRef → Option String → String
grantable_scope client requested = scope_or_default (permitted_scopes client requested)
