-- ===== src/Refresh.antt =====
-- src/oauth/refresh-grant.ts and refresh-bounds.ts: the refresh_token grant, with rotation, theft
-- detection and the reuse grace. `refresh` is the whole request; `rotate` is its second half, which
-- works on the row as it was read, so that another request may have come in between.
pub mod Chain
pub mod Claim
pub mod Quiet
pub mod Rotation
pub mod Table
pub mod Life
pub mod Once
pub mod Bounds
pub mod Grant
pub mod Success
pub mod Reuse
mod Tests
use inite_auth_service.Common.{
  ℕ, String, List, [], ◌∷◌, Option, none, some, Bool, true, false, not, ◌&&◌, ◌||◌, ◌==◌, ltb, leb,
  nat_eq, if◌then◌else◌, or_else, find_first, count_where, is_text, truthy?,
}
use inite_auth_service.Common.Text.{join}
use inite_auth_service.Common.Effect.{
  M, Fault, bad_request, pure, throw, read, ◌>>=◌, ◌>>◌, or_refused, lift_result, Result, ok, err,
}
use inite_auth_service.Scopes.{ScopeBoundClient, row, permitted_scopes}
use inite_auth_service.Resource.{Runtime, ResourceBoundClient, is_resource_allowed}
use inite_auth_service.Store.{
  Db, TokenRow, has_id, has_lookup, find_token, update_tokens, log_event, audit,
}
use inite_auth_service.Grace.{
  IssuedTokens, Kept, grace_window_ms, within_grace, seal_replay, open_replay, can_keep_pairs,
  erased, kept_pairs_in, revoke_at, claim_rotation,
}
use inite_auth_service.Claims.{GenerateInput}
use inite_auth_service.Issuer.{Env, Request, generate_tokens, signal_token_revoked}

abbrev pub dead_refresh_token : String → Fault
dead_refresh_token description = bad_request "invalid_grant" description

-- The client row as the refresh grant sees it.
pub record RefreshBoundClient : Type 0 where
  pub client_id : String
  pub is_public : Option Bool
  pub allowed_scopes : Option (List String)
  pub allowed_audiences : Option (List String)
  pub redirect_uris : Option (List String)

abbrev pub scope_part : RefreshBoundClient → ScopeBoundClient
scope_part c = record {
  client_id = c.client_id;
  allowed_scopes = c.allowed_scopes;
  is_public = c.is_public;
}

abbrev pub resource_part : RefreshBoundClient → ResourceBoundClient
resource_part c = record {
  client_id = c.client_id;
  is_public = c.is_public;
  allowed_audiences = c.allowed_audiences;
  redirect_uris = c.redirect_uris;
}

pub record RefreshBounds : Type 0 where
  pub scope : String
  pub resource : Option String

-- `js` and `registry` are what the resource rule takes.
module _ (js : Runtime) (registry : String) where
  unfoldable pub refresh_bounds : Option RefreshBoundClient → TokenRow → Result RefreshBounds
  refresh_bounds none token =
      ok (record { scope = or_else token.scope ""; resource = token.resource })
  refresh_bounds (some client) token =
      if not (is_resource_allowed js registry (resource_part client) token.resource)
      then err
          (dead_refresh_token "Refresh token is bound to a resource this client may not target")
      else ok (record {
        scope = join " " (permitted_scopes (row (scope_part client)) token.scope);
        resource = token.resource;
      })

-- The rows of the same person and client.
abbrev pub same_family : TokenRow → TokenRow → Bool
same_family token r = r.user.id == token.user.id && r.client_id == token.client_id

abbrev pub is_child_of : String → TokenRow → Bool
is_child_of id r = is_text r.rotated_from id

abbrev pub child_in_family : TokenRow → String → TokenRow → Bool
child_in_family token id r = same_family token r && is_child_of id r

pub data ChildState : Type 0 where
  live : String → ChildState
  rotated gone : ChildState

pub data GraceOutcome : Type 0 where
  pair : IssuedTokens → GraceOutcome
  was_rotated no_pair : GraceOutcome

abbrev pub is_live_at : ℕ → String → TokenRow → Bool
is_live_at now id r = has_id id r && not r.revoked && ltb now r.expires_at

abbrev pub touch : ℕ → TokenRow → TokenRow
touch now r = record r { last_used_at = some now }

grandchild_state : TokenRow → String → M Db ChildState
grandchild_state token id db =
    if nat_eq (count_where (child_in_family token id) db.tokens) 0
    then (db, ok gone)
    else (db, ok rotated)

state_of_child : ℕ → TokenRow → Option TokenRow → M Db ChildState
unfolding grandchild_state
state_of_child now token none = pure gone
state_of_child now token (some child) = do
  touched ← update_tokens (is_live_at now child.id) (touch now)
  if nat_eq touched 1 then pure (live child.id) else grandchild_state token child.id

-- The child is checked with a conditional update.
unfoldable pub child_state : ℕ → TokenRow → M Db ChildState
unfolding state_of_child
child_state now token = do
  child ← find_token (child_in_family token token.id)
  state_of_child now token child

-- The grant that a rotated token carries over.
unfoldable pub rotation_input : TokenRow → RefreshBounds → GenerateInput
rotation_input token bounds = record {
  user = token.user;
  client_id = token.client_id;
  scope = bounds.scope;
  rotated_from = some token.id;
  nonce = token.nonce;
  amr = some token.amr;
  acr = none;
  audience = bounds.resource;
  details = token.details;
  tenant = token.company_id;
}

module _ (env : Env) (req : Request) where
  audit_reuse : String → Bool → TokenRow → M Db (Unit {0})
  audit_reuse event success token =
      if env.audit_on then log_event (audit event success token.client_id token.id) else pure tt

  grace_on : Bool
  grace_on = can_keep_pairs env.aes env.json env.crypto req.iv req.now

  window : ℕ
  window = grace_window_ms env.setting

  erase_own : TokenRow → M Db (Unit {0})
  erase_own token = do _ ← update_tokens (kept_pairs_in (has_id token.id)) erased; pure tt

  -- A kept pair read after its window is erased at once.
  erase_if_over : TokenRow → Option ℕ → M Db (Unit {0})
  unfolding erase_own
  erase_if_over token none = pure tt
  erase_if_over token (some end) =
      if truthy? token.grace_replay && leb end req.now then erase_own token else pure tt

  hand_back : TokenRow → Option IssuedTokens → M Db GraceOutcome
  unfolding audit_reuse
  hand_back token none = pure no_pair
  hand_back token (some tokens) = do
    audit_reuse "token.refreshed.grace_reuse" true token
    pure (pair tokens)

  by_child : TokenRow → ChildState → M Db GraceOutcome
  unfolding hand_back
  by_child token (live id) = hand_back token (open_replay env.aes env.json env.crypto token req.now)
  by_child token rotated = pure was_rotated
  by_child token gone = pure no_pair

  through_child : TokenRow → M Db GraceOutcome
  unfolding by_child
  through_child token = do state ← child_state req.now token; by_child token state

  within_window : TokenRow → M Db GraceOutcome
  unfolding through_child window grace_on
  within_window token =
      if not grace_on || not (within_grace token window req.now)
      then pure no_pair
      else through_child token

  unfoldable pub grace_reuse : TokenRow → M Db GraceOutcome
  unfolding erase_if_over within_window
  grace_reuse token = do erase_if_over token token.grace_replay_until; within_window token

  -- The theft branch: the family is revoked, and no kept pair outlives the verdict.
  unfoldable pub revoke_family : TokenRow → M Db IssuedTokens
  unfolding audit_reuse
  revoke_family token = do
    _ ← update_tokens (λ r. same_family token r && not r.revoked) (revoke_at req.now)
    _ ← update_tokens (kept_pairs_in (same_family token)) erased
    audit_reuse "token.failed.refresh_reuse" false token
    signal_token_revoked env req (some token.user.did) token.company_id
    throw (dead_refresh_token "Refresh token revoked")

  answer_replay : TokenRow → GraceOutcome → M Db IssuedTokens
  answer_replay token (pair tokens) = pure tokens
  answer_replay token was_rotated = throw (dead_refresh_token "Refresh token already rotated")
  answer_replay token no_pair = revoke_family token

  unfoldable pub replayed : TokenRow → M Db IssuedTokens
  unfolding answer_replay
  replayed token = do outcome ← grace_reuse token; answer_replay token outcome

  answer_loser : GraceOutcome → M Db IssuedTokens
  answer_loser (pair tokens) = pure tokens
  answer_loser _ = throw (dead_refresh_token "Refresh token already rotated")

  loser_outcome : Option TokenRow → M Db GraceOutcome
  loser_outcome none = pure no_pair
  loser_outcome (some r) = grace_reuse r

  -- The claim was lost to another rotation: the winner's pair within the grace.
  unfoldable pub lost_race : TokenRow → M Db IssuedTokens
  unfolding answer_loser loser_outcome
  lost_race token = do
    rotated_row ← find_token (has_id token.id)
    outcome ← loser_outcome rotated_row
    answer_loser outcome

  unfoldable pub keep_pair : String → IssuedTokens → Kept
  unfolding window
  keep_pair = seal_replay env.aes env.json env.crypto window req.iv req.now

  -- The second half of a refresh, on the row as it was read.
  unfoldable pub rotate : TokenRow → RefreshBounds → M Db IssuedTokens
  rotate token bounds =
      or_refused
        (generate_tokens env req (rotation_input token bounds)
          (some (claim_rotation req.now token keep_pair)))
        (lost_race token)

  module _ (js : Runtime) (registry : String) where
    respond : String → Option RefreshBoundClient → Option TokenRow → M Db IssuedTokens
    respond client_id client none = throw (dead_refresh_token "Invalid refresh token")
    respond client_id client (some token) =
        if not (token.client_id == client_id)
        then throw (dead_refresh_token "Invalid refresh token")
        else if token.revoked
        then replayed token
        else if ltb token.expires_at req.now
        then throw (dead_refresh_token "Refresh token expired")
        else do bounds ← lift_result (refresh_bounds js registry client token); rotate token bounds

    unfoldable pub refresh : String → String → Option RefreshBoundClient → M Db IssuedTokens
    unfolding respond
    refresh value client_id client = do
      found ← find_token (has_lookup (env.hmac value))
      respond client_id client found
