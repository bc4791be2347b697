-- ===== src/Refresh/Tests.antt =====
-- The theorems on refresh tokens at a table of one token.
use inite_auth_service.Common.{
  count_where, String, [], ◌∷◌, none, some, true, false, not, ◌&&◌, ◌≡◌, ◌≢◌, refl, sym, ◌∙◌, arith,
  any, length, select, ◌≤◌, ◌||◌, is_some, find_first, ◌==◌,
}
use inite_auth_service.Common.Text.{words}
use inite_auth_service.Common.Sets.{unique}
use inite_auth_service.Common.Effect.{Result, ok, err}
use inite_auth_service.Scopes.{permitted_scopes}
use inite_auth_service.Resource.{is_resource_allowed}
use inite_auth_service.Store.{
  Db, TokenRow, find_token, create_token, update_tokens, clashes, has_lookup, has_id,
}
use inite_auth_service.Issuer.{
  Env, generate_tokens, persist_refresh_token, gated, issued_for, refresh_row,
}
use inite_auth_service.Grace.{
  IssuedTokens, can_keep_pairs, within_grace, grace_window_ms, duration_seconds, open_replay,
  seal_replay, claim_rotation, erase_parent,
}
use inite_auth_service.Refresh.Reuse.{grace_reuse-pair}
use inite_auth_service.FieldCrypto.{encrypt, decrypt, is_encrypted}
use inite_auth_service.Common.Text.{split_on, trim, leading_digits}
use inite_auth_service.Refresh.{
  grace_reuse, erase_if_over, within_window, through_child, child_state, state_of_child, by_child,
  hand_back, audit_reuse, grace_on, window, pair, child_in_family, is_live_at, RefreshBounds,
  RefreshBoundClient, refresh, respond, rotate, lost_race, revoke_family, replayed, refresh_bounds,
  keep_pair, same_family, dead_refresh_token, resource_part,
}
use inite_auth_service.Refresh.Chain.{is_live, IsChained}
use inite_auth_service.Refresh.Rotation.{child, claimed}
use inite_auth_service.Refresh.Life.{Reach, Step, Reach-IsChained}
use inite_auth_service.Refresh.Once.{rotate-once, revoke_family-stops}
use inite_auth_service.Refresh.Bounds.{Fit, replayed-mints_none, refresh-mints}
use inite_auth_service.Refresh.Grant.{IsChildOf, Narrows, answer_to, refresh-grants}
use inite_auth_service.Refresh.Success.{refresh-rotates}
use inite_auth_service.Samples.{
  issued_pair, toy_aes, toy_json, env, request, js, input, token_row, one_token, empty_db,
}

abbrev bounds : RefreshBounds
bounds = record { scope = "openid email"; resource = none }

abbrev held : TokenRow
held = token_row "t1" "s1" none

abbrev web : RefreshBoundClient
web = record {
  client_id = "web";
  is_public = some true;
  allowed_scopes = none;
  allowed_audiences = none;
  redirect_uris = none;
}

Reach-IsChained_example :
    IsChained
      (rotate env
        (request 3000 "s2" "t2")
        held
        bounds
        (generate_tokens env (request 2000 "s1" "t1") input none empty_db).0).0.tokens
Reach-IsChained_example =
    Reach-IsChained env empty_db
      (rotate env (request 3000 "s2" "t2") held bounds
        (generate_tokens env (request 2000 "s1" "t1") input none empty_db).0).0
      refl
      (Reach.after
        (Reach.after Reach.begin (Step.issues (request 2000 "s1" "t1") input empty_db refl))
        (Step.rotates (request 3000 "s2" "t2") held bounds
          (generate_tokens env (request 2000 "s1" "t1") input none empty_db).0))

free :
    any
      (clashes (child env (request 3000 "s2" "t2") held bounds one_token))
      (claimed env (request 3000 "s2" "t2") held bounds one_token)
    ≡ false
unfolding refresh_row issued_for keep_pair seal_replay
free = refl

rotate-once_example :
    rotate env
      (request 3500 "s3" "t3")
      held
      bounds
      (rotate env (request 3000 "s2" "t2") held bounds one_token).0
    ≡ lost_race env
        (request 3500 "s3" "t3")
        held
        (rotate env (request 3000 "s2" "t2") held bounds one_token).0
rotate-once_example =
    rotate-once env (request 3000 "s2" "t2") (request 3500 "s3" "t3") held bounds bounds one_token
      refl free

revoke_family-stops_example :
    ((revoke_family env (request 3000 "s2" "t2") held one_token).1
      ≡ err (dead_refresh_token "Refresh token revoked"))
    × (any
          (λ (r : TokenRow). same_family held r && (not r.revoked || is_some r.grace_replay))
          (revoke_family env (request 3000 "s2" "t2") held one_token).0.tokens
        ≡ false)
    × (select
          (λ r. not (same_family held r))
          (revoke_family env (request 3000 "s2" "t2") held one_token).0.tokens
        ≡ select (λ r. not (same_family held r)) one_token.tokens)
revoke_family-stops_example = revoke_family-stops env (request 3000 "s2" "t2") held one_token

replayed-mints_none_example :
    (length (replayed env (request 3000 "s2" "t2") held one_token).0.tokens
      ≡ length one_token.tokens)
    × ((any (is_live "t2") (replayed env (request 3000 "s2" "t2") held one_token).0.tokens
          && not (any (is_live "t2") one_token.tokens))
        ≡ false)
replayed-mints_none_example = replayed-mints_none env (request 3000 "s2" "t2") held "t2" one_token

grown : length (refresh env (request 3000 "s2" "t2") js "" "s1" "web" none one_token).0.tokens ≡ 2
unfolding refresh respond refresh_bounds find_token rotate generate_tokens persist_refresh_token
    gated create_token claim_rotation erase_parent update_tokens issued_for refresh_row keep_pair
    seal_replay
grown = refl

minted :
    length (refresh env (request 3000 "s2" "t2") js "" "s1" "web" none one_token).0.tokens
    ≢ length one_token.tokens
minted h = omega (arith, sym grown ∙ h)

refresh-mints_example :
    (token : TokenRow) × (find_first (has_lookup "s1") one_token.tokens ≡ some token)
    × ((token.client_id ≡ "web") × (token.revoked ≡ false) × (3000 ≤ token.expires_at))
refresh-mints_example =
    refresh-mints env (request 3000 "s2" "t2") js "" "web" none one_token "s1" minted

resource_open : is_resource_allowed js "" (resource_part web) held.resource ≡ true
unfolding is_resource_allowed
resource_open = refl

-- The client named, so that its rules bound the grant.
abbrev web_answer : Db × Result IssuedTokens
web_answer = answer_to env (request 3000 "s2" "t2") js "" "web" web one_token "s1"

grown_web : length web_answer.0.tokens ≡ 2
unfolding refresh respond refresh_bounds is_resource_allowed permitted_scopes words unique
    find_token rotate generate_tokens persist_refresh_token gated create_token claim_rotation
    erase_parent update_tokens issued_for refresh_row keep_pair seal_replay
grown_web = refl

minted_web : length web_answer.0.tokens ≢ length one_token.tokens
minted_web h = omega (arith, sym grown_web ∙ h)

refresh-grants_example :
    (token : TokenRow) × (find_first (has_lookup "s1") one_token.tokens ≡ some token)
    × Fit env (request 3000 "s2" "t2") js "" "web" (some web) one_token token
    × ((reach : RefreshBounds) × Narrows env
          (request 3000 "s2" "t2")
          js
          ""
          "web"
          web
          one_token
          token
          reach
        × ((pair_of : IssuedTokens) × (web_answer.1 ≡ ok pair_of)
            × ((new : TokenRow) × (find_first (has_id "t2") web_answer.0.tokens ≡ some new)
                × IsChildOf env (request 3000 "s2" "t2") token reach pair_of new)))
refresh-grants_example =
    refresh-grants env (request 3000 "s2" "t2") js "" "web" web one_token "s1" minted_web

refresh-rotates_example :
    (reach : RefreshBounds) × Narrows env
      (request 3000 "s2" "t2")
      js
      ""
      "web"
      web
      one_token
      held
      reach
    × ((pair_of : IssuedTokens) × (web_answer.1 ≡ ok pair_of)
        × ((new : TokenRow) × (find_first
                (has_lookup (env.hmac pair_of.refresh_token))
                web_answer.0.tokens
              ≡ some new)
            × IsChildOf env (request 3000 "s2" "t2") held reach pair_of new))
    × ((id : String)
        → any (is_live id) web_answer.0.tokens
          ≡ ((any (is_live id) one_token.tokens && not ("t1" == id)) || "t2" == id))
refresh-rotates_example =
    refresh-rotates env (request 3000 "s2" "t2") js "" "web" web one_token "s1" held refl refl refl
      (omega arith) resource_open refl refl refl

-- A keyed issuer, whose grace is thirty seconds.
abbrev keyed_env : Env
keyed_env = record env { crypto = some (record { key = some "k1" }) }

abbrev spent_row : TokenRow
spent_row = record held {
  revoked = true;
  revoked_at = some 5000;
  grace_replay = some "v1.iv.k1.pair";
  grace_replay_until = some 35000;
}

abbrev rotated_db : Db
rotated_db = record one_token { tokens = spent_row ∷ token_row "t2" "s2" (some "t1") ∷ [] }

abbrev answered : IssuedTokens
answered = record issued_pair { expires_in = 596 }

reused :
    (grace_reuse keyed_env (request 9000 "s3" "t3") spent_row rotated_db).1 ≡ ok (pair answered)
unfolding split_on grace_reuse erase_if_over within_window through_child child_state state_of_child
    by_child hand_back audit_reuse grace_on window find_token update_tokens can_keep_pairs
    seal_replay within_grace grace_window_ms duration_seconds open_replay encrypt decrypt
    is_encrypted trim leading_digits
reused = refl

grace_reuse-pair_example :
    (within_grace spent_row (grace_window_ms keyed_env.setting) 9000 ≡ true)
    × (open_replay toy_aes toy_json (some (record { key = some "k1" })) spent_row 9000
        ≡ some answered)
    × ((child : TokenRow) × (find_first (child_in_family spent_row "t1") rotated_db.tokens
          ≡ some child)
        × (count_where (is_live_at 9000 child.id) rotated_db.tokens ≡ 1))
grace_reuse-pair_example =
    grace_reuse-pair keyed_env (request 9000 "s3" "t3") spent_row answered rotated_db reused
