-- ===== src/Grace.antt =====
-- src/oauth/refresh-grace.ts and src/oauth/token-expiry.ts: the refresh reuse grace. A rotation keeps
-- the pair it returned, encrypted, on the rotated row for a short window. JSON is the runtime's.
pub mod Window
pub mod Replay
mod Tests
use inite_auth_service.Common.{
  ℕ, String, List, [], ◌∷◌, Option, none, some, Bool, true, false, not, ◌&&◌, ◌||◌, ◌-◌, ◌+◌, ◌*◌,
  ◌/◌, min, max, ltb, leb, nat_eq, ◌==◌, if◌then◌else◌, is_some, or_else, includes, ◌≡◌,
}
use inite_auth_service.Common.Text.{trim, leading_digits}
use inite_auth_service.Common.Effect.{
  M, pure, throw, ◌>>=◌, ◌>>◌, guard, Result, ok, err, bad_request, gate_refused,
}
use inite_auth_service.FieldCrypto.{Aes, FieldCrypto, encrypt, decrypt, is_encrypted}
use inite_auth_service.Store.{TokenRow, Db, has_id, update_tokens}

abbrev unit_seconds : String → Option ℕ
unit_seconds unit =
    if unit == ""
    then some 1
    else if unit == "s"
    then some 1
    else if unit == "m"
    then some 60
    else if unit == "h"
    then some 3600
    else if unit == "d"
    then some 86400
    else none

abbrev times_unit : Option ℕ → ℕ → Option ℕ
times_unit none n = none
times_unit (some u) n = some (n * u)

abbrev with_unit : Option ℕ → String → Option ℕ
with_unit none rest = none
with_unit (some n) rest = times_unit (unit_seconds rest) n

-- `^(\d+)([smhd]?)$` on the trimmed value, in seconds.
unfoldable pub duration_seconds : String → Option ℕ
unfolding trim leading_digits
duration_seconds value = let (digits, rest) = leading_digits (trim value) in with_unit digits rest

unfoldable pub expiry_seconds : String → ℕ → ℕ
expiry_seconds expiry fallback = or_else (duration_seconds expiry) fallback

abbrev pub grace_max_seconds : ℕ
grace_max_seconds = 60

abbrev pub default_grace_seconds : ℕ
default_grace_seconds = 30

-- `settings.value(key, fallback)` over `settings.raw`
abbrev pub setting_value : (String → Option String) → String → String → String
setting_value raw key fallback = or_else (raw key) fallback

unfoldable pub grace_window_ms : (String → Option String) → ℕ
grace_window_ms settings =
    let raw : String = setting_value settings "REFRESH_REUSE_GRACE" "30s" in
    min (or_else (duration_seconds raw) default_grace_seconds) grace_max_seconds * 1000

abbrev within : ℕ → ℕ → ℕ → Bool
within revoked_at window now = leb (now - revoked_at) window

-- `now.getTime() - revokedAt.getTime()` may be negative there, and is then within the window too.
unfoldable pub within_grace : TokenRow → ℕ → ℕ → Bool
within_grace token window now = elim token.revoked_at [
  | none ↦ false
  | some revoked_at ↦
      if nat_eq window 0 || leb token.expires_at now then false else within revoked_at window now
]

pub record IssuedTokens : Type 0 where
  pub access_token : String
  pub expires_in : ℕ
  pub refresh_token : String
  pub id_token : String
  pub scope : String

pub record SealedPair : Type 0 where
  pub issued : IssuedTokens
  pub open issued use *
  pub parent_id : String
  pub issued_at : ℕ

-- `JSON.stringify` and `JSON.parse` at a sealed pair; `parse` fails where the source's cast would
-- read no pair.
pub record Json : Type 0 where
  pub print : SealedPair → String
  pub parse : String → Option SealedPair

-- The columns that `sealReplay` sets, if any: the envelope, and when its window ends.
abbrev pub Kept : Type 0
Kept = Option (String × ℕ)

-- `new Date(...)` of a row's end is in the past or at `now`
abbrev over : Option ℕ → ℕ → Bool
over none now = true
over (some end) now = leb end now

-- `Math.max(0, expiresIn - Math.floor((now - issuedAt) / 1000))`, also where `now` is the earlier.
life_left : ℕ → ℕ → ℕ → ℕ
life_left expires_in issued_at now =
    if leb issued_at now
    then expires_in - (now - issued_at) / 1000
    else expires_in + (issued_at - now + 999) / 1000

module _ (aes : Aes) (json : Json) where
  keep_envelope : Result String → ℕ → Kept
  keep_envelope (ok envelope) end = some (envelope, end)
  keep_envelope (err e) end = none

  unfoldable pub seal_replay :
      Option FieldCrypto → ℕ → (iv : String) (now : ℕ) → String → IssuedTokens → Kept
  unfolding keep_envelope
  seal_replay none window iv now parent_id issued = none
  seal_replay (some crypto) window iv now parent_id issued =
      if nat_eq window 0
      then none
      else keep_envelope
          (encrypt aes crypto iv
            (json.print (record { issued = issued; parent_id = parent_id; issued_at = now })))
          (now + window)

  open_pair : String → ℕ → Option SealedPair → Option IssuedTokens
  open_pair id now none = none
  open_pair id now (some sealed) =
      if not (sealed.parent_id == id)
      then none
      else some (record {
        access_token = sealed.access_token;
        expires_in = life_left sealed.expires_in sealed.issued_at now;
        refresh_token = sealed.refresh_token;
        id_token = sealed.id_token;
        scope = sealed.scope;
      })

  open_envelope : FieldCrypto → String → ℕ → String → Option IssuedTokens
  unfolding open_pair life_left
  open_envelope crypto id now blob =
      if not (is_encrypted blob) then none else elim (decrypt aes crypto blob) [
        | ok text ↦ open_pair id now (json.parse text)
        | err e ↦ none
      ]

  unfoldable pub open_replay : Option FieldCrypto → TokenRow → ℕ → Option IssuedTokens
  unfolding open_envelope
  open_replay none token now = none
  open_replay (some crypto) token now = elim token.grace_replay [
    | none ↦ none
    | some blob ↦
        if blob == "" || over token.grace_replay_until now
        then none
        else open_envelope crypto token.id now blob
  ]

  abbrev probe : IssuedTokens
  probe = record {
    access_token = "";
    expires_in = 0;
    refresh_token = "";
    id_token = "";
    scope = "";
  }

  unfoldable pub can_keep_pairs : Option FieldCrypto → String → ℕ → Bool
  unfolding seal_replay
  can_keep_pairs crypto iv now = is_some (seal_replay crypto 1 iv now "probe" probe)

-- `ERASED_REPLAY`
abbrev pub erased : TokenRow → TokenRow
erased row = record row { grace_replay = none; grace_replay_until = none }

-- `keptPairsIn(scope)`
abbrev pub kept_pairs_in : (TokenRow → Bool) → TokenRow → Bool
kept_pairs_in scope row = scope row && is_some row.grace_replay

abbrev id_in : List String → TokenRow → Bool
id_in ids row = includes ids row.id

-- `keptPairsAround(token)`: a token with a parent has the pair kept for it on that parent.
unfoldable pub kept_pairs_around : String → Option String → TokenRow → Bool
kept_pairs_around id none row = kept_pairs_in (id_in (id ∷ [])) row
kept_pairs_around id (some parent) row = kept_pairs_in (id_in (id ∷ parent ∷ [])) row

abbrev ends_before : Option ℕ → ℕ → Bool
ends_before none now = false
ends_before (some end) now = ltb end now

-- `eraseExpiredReplays`, the hourly cleanup.
unfoldable pub erase_expired_replays : ℕ → M Db ℕ
unfolding update_tokens
erase_expired_replays now = update_tokens (λ row. ends_before row.grace_replay_until now) erased

abbrev pub revoke_at : ℕ → TokenRow → TokenRow
revoke_at now row = record row { revoked = true; revoked_at = some now }

abbrev pub with_kept : Kept → TokenRow → TokenRow
with_kept none row = row
with_kept (some (blob, end)) row = record row {
  grace_replay = some blob;
  grace_replay_until = some end;
}

unfoldable pub erase_parent : Option String → M Db (Unit {0})
erase_parent none = pure tt
erase_parent (some parent) = do _ ← update_tokens (kept_pairs_in (has_id parent)) erased; pure tt

-- `claimRotation`, inside the transaction that inserts the child.
unfoldable pub claim_rotation :
    ℕ → TokenRow → (String → IssuedTokens → Kept) → IssuedTokens → M Db (Unit {0})
unfolding erase_parent update_tokens
claim_rotation now token seal issued = do
  claimed ←
      update_tokens (λ row. has_id token.id row && not row.revoked)
        (λ row. with_kept (seal token.id issued) (revoke_at now row))
  guard (nat_eq claimed 1) gate_refused
  erase_parent token.rotated_from
