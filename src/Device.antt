-- ===== src/Device.antt =====
-- src/oauth/device-flow.service.ts: the device grant. The state is the table of device codes; `sha256`
-- is SHA-256 in base64url, `upper` the runtime's `toUpperCase`. The random codes are arguments: a
-- device code and five candidates for the user code.
pub mod Polls
pub mod Approval
mod Tests
use inite_auth_service.Common.{
  ℕ, String, List, [], ◌∷◌, ◌++◌, Option, none, some, Bool, true, false, not, ◌&&◌, ◌||◌, ◌==◌, ltb,
  ◌+◌, ◌-◌, ◌*◌, leb, if◌then◌else◌, find_first, update_where, any, select, includes, truthy,
  truthy?, same?, is_text,
}
use inite_auth_service.Common.Text.{trim, has_char}
use inite_auth_service.Common.Effect.{
  M, pure, throw, ◌>>=◌, ◌>>◌, lift_result, bad_request, not_found, internal, Result, ok, err,
}
use inite_auth_service.Resource.{Runtime, Url, ResourceBoundClient, assert_resource_allowed}

pub data DeviceStatus : Type 0 where
  pending approved denied expired : DeviceStatus

pub record DeviceRow : Type 0 where
  pub id : String
  pub device_code_hash : String
  pub user_code : String
  pub client_id : String
  pub scope : Option String
  pub resource : Option String
  pub status : DeviceStatus
  pub user_id : Option String
  pub expires_at : ℕ
  pub interval : ℕ
  pub last_polled_at : Option ℕ

abbrev pub Table : Type 0
Table = List DeviceRow

abbrev default_interval_seconds : ℕ
default_interval_seconds = 5

abbrev default_ttl_seconds : ℕ
default_ttl_seconds = 600

abbrev pub has_hash : String → DeviceRow → Bool
has_hash hash row = row.device_code_hash == hash

abbrev pub has_user_code : String → DeviceRow → Bool
has_user_code code row = row.user_code == code

abbrev pub has_row_id : String → DeviceRow → Bool
has_row_id id row = row.id == id

abbrev invalid_target : String → Result (Option String)
invalid_target description = err (bad_request "invalid_target" description)

module _ (js : Runtime) (registry : String) where
  allowed_resource : ResourceBoundClient → String → List String → Result (Option String)
  allowed_resource client resource allowed =
      if any (λ a. true) allowed && not (includes allowed resource)
      then invalid_target "Resource is not allowed for this client"
      else elim (assert_resource_allowed js registry client (some resource)) [
        | ok u ↦ ok (some resource)
        | err e ↦ err e
      ]

  absolute_resource : ResourceBoundClient → String → Option Url → Result (Option String)
  unfolding allowed_resource
  absolute_resource client resource none = invalid_target "resource must be an absolute URI"
  absolute_resource client resource (some url) =
      if has_char b'#' resource || truthy url.hash
      then invalid_target "resource must not contain a fragment"
      else allowed_resource client resource
          (elim client.allowed_audiences [ none ↦ [] | some l ↦ l ])

  unfoldable pub resolve_resource : ResourceBoundClient → Option String → Result (Option String)
  unfolding absolute_resource
  resolve_resource client none = ok none
  resolve_resource client (some resource) =
      if not (truthy resource)
      then ok none
      else absolute_resource client resource (js.parse_url resource)

-- `uniqueUserCode`, over the candidates that it draws.
unfoldable pub unique_user_code : List String → M Table String
unique_user_code [] rows = (rows, err (internal "Failed to mint a unique device user_code"))
unique_user_code (code ∷ codes) rows = elim (any (has_user_code code) rows) [
  | true ↦ unique_user_code codes rows
  | false ↦ (rows, ok code)
]

insert_row : DeviceRow → M Table (Unit {0})
insert_row row rows =
    if any
      (λ r. has_hash row.device_code_hash r || has_user_code row.user_code r || has_row_id row.id r)
      rows
    then (rows, err (internal "P2002"))
    else (rows ++ row ∷ [], ok tt)

-- `issue`: the user code that is shown.
unfoldable pub issue :
    Runtime
    → String
    → (String → String)
    → (now : ℕ) (id device_code : String) → List String
    → ResourceBoundClient
    → Option String
    → Option String
    → M Table String
unfolding insert_row
issue js registry sha256 now id device_code candidates client scope resource = do
  bound ← lift_result (resolve_resource js registry client resource)
  user_code ← unique_user_code candidates
  insert_row (record {
    id = id;
    device_code_hash = sha256 device_code;
    user_code = user_code;
    client_id = client.client_id;
    scope = scope;
    resource = bound;
    status = pending;
    user_id = none;
    expires_at = now + default_ttl_seconds * 1000;
    interval = default_interval_seconds;
    last_polled_at = none;
  })
  pure user_code

abbrev pub unexpired : ℕ → Option DeviceRow → Option DeviceRow
unexpired now none = none
unexpired now (some row) = if ltb row.expires_at now then none else some row

module _ (upper : String → String) (now : ℕ) where
  unfoldable pub find_by_user_code : String → Table → Option DeviceRow
  unfolding trim
  find_by_user_code code rows =
      if not (truthy code)
      then none
      else unexpired now (find_first (has_user_code (upper (trim code))) rows)

  abbrev pub write_row : String → (DeviceRow → DeviceRow) → Table → Table
  write_row id f rows = update_where (has_row_id id) f rows

  abbrev pub approve_as : String → DeviceRow → DeviceRow
  approve_as user_id row = record row { status = approved; user_id = some user_id }

  decide : DeviceStatus → String → DeviceRow → M Table DeviceRow
  decide pending user_id row rows =
      (write_row row.id (approve_as user_id) rows, ok (approve_as user_id row))
  decide approved user_id row rows =
      if is_text row.user_id user_id
      then (rows, ok row)
      else (rows, err (bad_request "" "Device code is approved"))
  decide denied user_id row rows = (rows, err (bad_request "" "Device code is denied"))
  decide expired user_id row rows = (rows, err (bad_request "" "Device code is expired"))

  approve_found : String → Option DeviceRow → M Table DeviceRow
  unfolding decide
  approve_found user_id none rows = (rows, err (not_found "Invalid or expired device code"))
  approve_found user_id (some row) rows = decide row.status user_id row rows

  -- The user code is normalised twice, here and in `findByUserCode`.
  unfoldable pub approve : String → String → M Table DeviceRow
  unfolding approve_found trim
  approve code user_id rows =
      approve_found user_id (find_by_user_code (upper (trim code)) rows) rows

  deny_found : Option DeviceRow → Table → Table
  deny_found none rows = rows
  deny_found (some row) rows = elim row.status [
    | pending ↦ write_row row.id (λ r. record r { status = denied }) rows
    | approved ↦ rows
    | denied ↦ rows
    | expired ↦ rows
  ]

  unfoldable pub deny : String → M Table (Unit {0})
  unfolding deny_found
  deny code rows = (deny_found (find_by_user_code code rows) rows, ok tt)

-- Less than the interval since the last poll.
abbrev pub too_soon : ℕ → DeviceRow → Bool
too_soon now row = elim row.last_polled_at [
  | none ↦ false
  | some at ↦ ltb now (at + row.interval * 1000)
]

abbrev oauth_error : String → Table → Table × Result DeviceRow
oauth_error code rows = (rows, err (bad_request code ""))

abbrev pub delete_row : String → Table → Table
delete_row id rows = select (λ r. not (has_row_id id r)) rows

redeem_approved : Option String → DeviceRow → M Table DeviceRow
redeem_approved user_id row rows =
    if not (truthy? user_id)
    then oauth_error "invalid_grant" rows
    else (delete_row row.id rows, ok row)

by_status : DeviceStatus → DeviceRow → M Table DeviceRow
unfolding redeem_approved
by_status denied row rows = oauth_error "access_denied" rows
by_status pending row rows = oauth_error "authorization_pending" rows
by_status expired row rows = oauth_error "invalid_grant" rows
by_status approved row rows = redeem_approved row.user_id row rows

poll_row : ℕ → DeviceRow → M Table DeviceRow
unfolding by_status
poll_row now row rows =
    if ltb row.expires_at now
    then oauth_error "expired_token"
        (update_where (has_row_id row.id) (λ r. record r { status = expired }) rows)
    else if too_soon now row
    then oauth_error "slow_down" (
        update_where (has_row_id row.id)
          (λ r. record r { last_polled_at = some now; interval = row.interval + 5 }) rows)
    else by_status row.status row
        (update_where (has_row_id row.id) (λ r. record r { last_polled_at = some now }) rows)

poll_found : ℕ → String → Option DeviceRow → M Table DeviceRow
unfolding poll_row
poll_found now client_id none rows = oauth_error "invalid_grant" rows
poll_found now client_id (some row) rows =
    if not (row.client_id == client_id)
    then oauth_error "invalid_grant" rows
    else poll_row now row rows

-- `pollForApproval`: the row as it was read, and deleted by then.
unfoldable pub poll_for_approval : (String → String) → ℕ → String → String → M Table DeviceRow
unfolding poll_found
poll_for_approval sha256 now device_code client_id rows =
    poll_found now client_id (find_first (has_hash (sha256 device_code)) rows) rows
