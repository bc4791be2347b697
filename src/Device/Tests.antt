-- ===== src/Device/Tests.antt =====
-- The device grant at one approved code.
use inite_auth_service.Common.{
  [], ◌∷◌, none, some, true, false, ◌≡◌, refl, arith, find_first, truthy?, ◌≤◌, update_where,
}
use inite_auth_service.Common.Text.{trim}
use inite_auth_service.Common.Effect.{ok, err, bad_request}
use inite_auth_service.Device.{
  DeviceRow, pending, approved, poll_for_approval, poll_found, poll_row, by_status, redeem_approved,
  approve, approve_found, decide, find_by_user_code, has_hash, has_user_code, has_row_id, too_soon,
  delete_row,
}
use inite_auth_service.Device.Polls.{poll-Ready, poll-once}
use inite_auth_service.Device.Approval.{Grants, approve-Grants}

abbrev asked : DeviceRow
asked = record {
  id = "d1";
  device_code_hash = "h1";
  user_code = "BCDF-GHJK";
  client_id = "cli";
  scope = none;
  resource = none;
  status = pending;
  user_id = none;
  expires_at = 600000;
  interval = 5;
  last_polled_at = some 1000;
}

abbrev granted : DeviceRow
granted = record asked { status = approved; user_id = some "u1" }

polled : (poll_for_approval (λ s. s) 9000 "h1" "cli" (granted ∷ [])).1 ≡ ok granted
unfolding poll_for_approval poll_found poll_row by_status redeem_approved
polled = refl

poll-Ready_example :
    (row : DeviceRow) × (find_first (has_hash "h1") (granted ∷ []) ≡ some row)
    × ((row.client_id ≡ "cli")
        × (row.status ≡ approved)
        × (truthy? row.user_id ≡ true)
        × (9000 ≤ row.expires_at)
        × (too_soon 9000 row ≡ false))
    × (poll_for_approval (λ s. s) 9000 "h1" "cli" (granted ∷ []) ≡ (
      delete_row row.id (
          update_where
            (has_row_id row.id)
            (λ r. record r { last_polled_at = some 9000 })
            (granted ∷ [])),
      ok row,
    ))
poll-Ready_example = poll-Ready 9000 "cli" (λ s. s) "h1" granted (granted ∷ []) polled

poll-once_example :
    (poll_for_approval
      (λ s. s)
      15000
      "h1"
      "cli"
      (poll_for_approval (λ s. s) 9000 "h1" "cli" (granted ∷ [])).0).1
    ≡ err (bad_request "invalid_grant" "")
poll-once_example =
    poll-once (λ s. s) 9000 15000 "h1" "cli" "cli" granted (granted ∷ []) (omega arith) polled

approved_now : (approve (λ s. s) 2000 " BCDF-GHJK" "u1" (asked ∷ [])).1 ≡ ok granted
unfolding approve approve_found decide find_by_user_code trim
approved_now = refl

approve-Grants_example :
    (row : DeviceRow) × (find_first (has_user_code "BCDF-GHJK") (asked ∷ []) ≡ some row)
    × (2000 ≤ row.expires_at)
    × Grants "u1" row granted (asked ∷ []) (approve (λ s. s) 2000 " BCDF-GHJK" "u1" (asked ∷ [])).0
unfolding trim
approve-Grants_example =
    approve-Grants (λ s. s) 2000 "u1" (asked ∷ []) " BCDF-GHJK" granted approved_now
