-- ===== src/Session.antt =====
-- src/session/session.service.ts: a person's sessions, which are live refresh tokens. `ssf_on` is
-- whether the signal service is configured.
pub mod Everywhere
mod Tests
use inite_auth_service.Common.{
  ℕ, String, List, Option, none, some, Bool, true, false, not, ◌&&◌, ◌||◌, ◌==◌, ltb, if◌then◌else◌,
  truthy, truthy?, same?, find_first, select, map,
}
use inite_auth_service.Common.Effect.{M, pure, ◌>>=◌, ◌>>◌}
use inite_auth_service.Store.{
  Db, User, TokenRow, session_revoked, log_event, has_id, update_tokens, find_token,
}
use inite_auth_service.Grace.{revoke_at, kept_pairs_in, kept_pairs_around, erased}

-- The name of the client is left out.
pub record ActiveSession : Type 0 where
  pub id : String
  pub client_id : String
  pub scope : Option String
  pub created_at : ℕ
  pub expires_at : ℕ
  pub last_used_at : Option ℕ
  pub ip : Option String
  pub user_agent : Option String
  pub is_current_device : Bool

-- The caller of a request: its address and its user agent.
pub record Caller : Type 0 where
  pub ip : Option String
  pub user_agent : Option String

abbrev some_text : Option String → Option String
some_text none = none
some_text (some s) = if truthy s then some s else none

is_current : Option Caller → TokenRow → Bool
is_current none token = false
is_current (some caller) token =
    truthy? token.user_agent
    && truthy? caller.user_agent
    && same? token.user_agent caller.user_agent
    && same? token.ip (some_text caller.ip)

session_of : Option Caller → TokenRow → ActiveSession
unfolding is_current
session_of caller token = record {
  id = token.id;
  client_id = token.client_id;
  scope = token.scope;
  created_at = token.created_at;
  expires_at = token.expires_at;
  last_used_at = token.last_used_at;
  ip = token.ip;
  user_agent = token.user_agent;
  is_current_device = is_current caller token;
}

abbrev pub of_user : String → TokenRow → Bool
of_user user_id row = row.user.id == user_id

abbrev pub is_active_session : ℕ → String → TokenRow → Bool
is_active_session now user_id row = of_user user_id row && not row.revoked && ltb now row.expires_at

-- In the order of the table; the source sorts by the last use and the creation, newest first.
pub get_active_sessions : ℕ → Option Caller → String → Db → List ActiveSession
unfolding session_of
get_active_sessions now caller user_id db =
    map (session_of caller) (select (is_active_session now user_id) db.tokens)

-- `id: { not: exceptSessionId }`, where one is given
abbrev pub spared : Option String → TokenRow → Bool
spared none row = false
spared (some id) row = truthy id && has_id id row

abbrev did_of : Option User → Option String
did_of none = none
did_of (some u) = some u.did

module _ (ssf_on : Bool) (now : ℕ) where
  emit_session_revoked : Option String → Option String → M Db (Unit {0})
  emit_session_revoked none company_id = pure tt
  emit_session_revoked (some did) company_id = log_event (session_revoked did company_id)

  signal_session_revoked : String → Option String → M Db (Unit {0})
  unfolding emit_session_revoked
  signal_session_revoked user_id company_id db =
      if ssf_on
      then emit_session_revoked (did_of (find_first (λ u. u.id == user_id) db.users)) company_id db
      else (pure tt) db

  abbrev session_row : String → String → TokenRow → Bool
  session_row user_id session_id row = has_id session_id row && of_user user_id row

  erase_around : String → Option TokenRow → M Db (Unit {0})
  unfolding signal_session_revoked
  erase_around user_id none = signal_session_revoked user_id none
  erase_around user_id (some token) = do
    _ ←
        update_tokens (λ r. kept_pairs_around token.id token.rotated_from r && of_user user_id r)
          erased
    signal_session_revoked user_id token.company_id

  unfoldable pub revoke_session : String → String → M Db (Unit {0})
  unfolding erase_around
  revoke_session user_id session_id = do
    token ← find_token (session_row user_id session_id)
    _ ← update_tokens (session_row user_id session_id) (revoke_at now)
    erase_around user_id token

  unfoldable pub revoke_all_sessions : String → Option String → M Db (Unit {0})
  unfolding signal_session_revoked
  revoke_all_sessions user_id except = do
    _ ←
        update_tokens (λ r. of_user user_id r && not r.revoked && not (spared except r))
          (revoke_at now)
    _ ← update_tokens (kept_pairs_in (of_user user_id)) erased
    signal_session_revoked user_id none
