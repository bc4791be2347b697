-- ===== src/Device/Approval.antt =====
-- What an approval does, and that it takes nothing over.
use inite_auth_service.Common.{
  ℕ, String, Option, none, some, ◌≡◌, ◌⊎◌, refl, arith, ◌≤◌, ltb, find_first, update_where, truthy,
  Bool-cases, inl, inr, subst, is_text, is_text_iff,
}
use inite_auth_service.Common.Text.{trim}
use inite_auth_service.Common.Effect.{ok, err, bad_request, not_found}
use inite_auth_service.Device.{
  DeviceStatus, pending, approved, denied, expired, DeviceRow, Table, has_user_code, has_row_id,
  approve_as, find_by_user_code, approve, approve_found, decide, unexpired,
}

abbrev pub ApprovedFor : String → DeviceRow → Type 0
ApprovedFor user_id row = (row.status ≡ approved) × (row.user_id ≡ some user_id)

-- A pending row is approved for the person in the table; a row that the person approved before is
-- left, and so is the table.
abbrev pub Grants : String → DeviceRow → DeviceRow → Table → Table → Type 0
Grants user_id row got rows end =
    ((row.status ≡ pending)
      × (got ≡ record row { status = approved; user_id = some user_id })
      × (end
          ≡ update_where (has_row_id row.id)
              (λ r. record r { status = approved; user_id = some user_id }) rows))
    ⊎ (ApprovedFor user_id row × (got ≡ row) × (end ≡ rows))

module _ (upper : String → String) (now : ℕ) (user_id : String) (rows : Table) where
  decide-Grants :
      (status : DeviceStatus) (row got : DeviceRow)
      → row.status ≡ status
      → (decide upper now status user_id row rows).1 ≡ ok got
      → Grants user_id row got rows (decide upper now status user_id row rows).0
  unfolding decide
  decide-Grants pending row got e h = inl (e, same h, refl)
    where
      same : ok (approve_as upper now user_id row) ≡ ok got → got ≡ approve_as upper now user_id row
      same k = cc
  decide-Grants approved row got e h = elim (Bool-cases (is_text row.user_id user_id)) [
    | inl mine ↦
        inr ((e, (is_text_iff row.user_id user_id).0 mine), same (rw mine at h), rw mine refl)
    | inr other ↦ absurd (apart (rw other at h))
  ]
    where
      same : ok row ≡ ok got → got ≡ row
      same k = cc

      apart : err (bad_request "" "Device code is approved") ≡ ok got → ⊥
      apart k = cc
  decide-Grants denied row got e h = absurd (apart h)
    where
      apart : err (bad_request "" "Device code is denied") ≡ ok got → ⊥
      apart k = cc
  decide-Grants expired row got e h = absurd (apart h)
    where
      apart : err (bad_request "" "Device code is expired") ≡ ok got → ⊥
      apart k = cc

  found-Grants :
      (found : Option DeviceRow) (got : DeviceRow)
      → (approve_found upper now user_id found rows).1 ≡ ok got
      → (row : DeviceRow) × (found ≡ some row)
        × Grants user_id row got rows (approve_found upper now user_id found rows).0
  unfolding approve_found
  found-Grants none got h = absurd (apart h)
    where
      apart : err (not_found "Invalid or expired device code") ≡ ok got → ⊥
      apart k = cc
  found-Grants (some row) got h = (row, refl, decide-Grants row.status row got refl h)

  unexpired-in_time :
      (found : Option DeviceRow) (row : DeviceRow)
      → unexpired now found ≡ some row
      → (found ≡ some row) × (now ≤ row.expires_at)
  unexpired-in_time none row h = cc
  unexpired-in_time (some r) row h = elim (Bool-cases (ltb r.expires_at now)) [
    | inl late ↦ absurd (apart (rw late at h))
    | inr timely ↦
        let same : some r ≡ some row = rw timely at h in
        let in_time : now ≤ r.expires_at = ground arith in
        (same, subst (λ (x : DeviceRow). now ≤ x.expires_at) (same_row same) in_time)
  ]
    where
      apart : none ≡ some row → ⊥
      apart k = cc

      same_row : some r ≡ some row → r ≡ row
      same_row k = cc

  find-in_time :
      (code : String) (row : DeviceRow)
      → find_by_user_code upper now code rows ≡ some row
      → (find_first (has_user_code (upper (trim code))) rows ≡ some row) × (now ≤ row.expires_at)
  unfolding find_by_user_code
  find-in_time code row h = elim (Bool-cases (truthy code)) [
    | inl there ↦
        unexpired-in_time (find_first (has_user_code (upper (trim code))) rows) row (rw there at h)
    | inr empty ↦ absurd (apart (rw empty at h))
  ]
    where
      apart : none ≡ some row → ⊥
      apart k = cc

  -- An approval that succeeds is of the row that the user code, normalised twice, names, in its time.
  -- Either the row was pending, and is approved for the person in the table, and nothing else is
  -- written; or that person approved it before, and nothing is written.
  pub approve-Grants :
      (code : String) (got : DeviceRow)
      → (approve upper now code user_id rows).1 ≡ ok got
      → (row : DeviceRow) × (find_first (has_user_code (upper (trim (upper (trim code))))) rows
          ≡ some row)
        × (now ≤ row.expires_at)
        × Grants user_id row got rows (approve upper now code user_id rows).0
  unfolding approve
  approve-Grants code got h =
      let (row, found, grants) =
        found-Grants (find_by_user_code upper now (upper (trim code)) rows) got h in
      let (named, timely) = find-in_time (upper (trim code)) row found in
      (row, named, timely, grants)
