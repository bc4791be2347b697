-- ===== src/Device/Polls.antt =====
-- When a poll is answered with the approval, and that it is answered once.
use inite_auth_service.Common.{
  ℕ, String, [], ◌∷◌, Option, none, some, Bool, true, false, ◌≡◌, refl, arith, ◌≤◌, ◌==◌, ltb,
  find_first, update_where, any, count_where, Bool-cases, inl, inr, sym, ◌∙◌, ap, truthy?, eq_iff,
  subst,
}
use inite_auth_service.Common.Effect.{ok, err, bad_request}
use inite_auth_service.Device.{
  DeviceStatus, pending, approved, denied, expired, DeviceRow, Table, has_hash, has_row_id,
  too_soon, delete_row, redeem_approved, by_status, poll_row, poll_found, poll_for_approval,
}

module _ (now : ℕ) (client_id : String) where
  -- What a poll needs: an approved code of the client, in time and not too soon after the last poll.
  abbrev Ready : DeviceRow → Type 0
  Ready row =
      (row.client_id ≡ client_id)
      × (row.status ≡ approved)
      × (truthy? row.user_id ≡ true)
      × (now ≤ row.expires_at)
      × (too_soon now row ≡ false)

  status-approved :
      (status : DeviceStatus) (row got : DeviceRow) (rows : Table)
      → (by_status status row rows).1 ≡ ok got
      → (status ≡ approved)
        × (truthy? row.user_id ≡ true)
        × (by_status status row rows ≡ (delete_row row.id rows, ok row))
  unfolding by_status redeem_approved
  status-approved denied row got rows h = absurd (apart h)
    where
      apart : err (bad_request "access_denied" "") ≡ ok got → ⊥
      apart k = cc
  status-approved pending row got rows h = absurd (apart h)
    where
      apart : err (bad_request "authorization_pending" "") ≡ ok got → ⊥
      apart k = cc
  status-approved expired row got rows h = absurd (apart h)
    where
      apart : err (bad_request "invalid_grant" "") ≡ ok got → ⊥
      apart k = cc
  status-approved approved row got rows h = elim (Bool-cases (truthy? row.user_id)) [
    | inl e ↦ (refl, e, rw e refl)
    | inr e ↦ absurd (apart (rw e at h))
  ]
    where
      apart : err (bad_request "invalid_grant" "") ≡ ok got → ⊥
      apart k = cc

  found-Ready :
      (found : Option DeviceRow) (got : DeviceRow) (rows : Table)
      → (poll_found now client_id found rows).1 ≡ ok got
      → (row : DeviceRow) × (found ≡ some row)
        × Ready row
        × (poll_found now client_id found rows ≡ (
          delete_row row.id
              (update_where (has_row_id row.id) (λ r. record r { last_polled_at = some now }) rows),
          ok row,
        ))
  unfolding poll_found poll_row
  found-Ready none got rows h = absurd (apart h)
    where
      apart : err (bad_request "invalid_grant" "") ≡ ok got → ⊥
      apart k = cc
  found-Ready (some row) got rows h = elim (Bool-cases (row.client_id == client_id)) [
    | inr e ↦ absurd (apart "invalid_grant" (rw e at h))
    | inl e ↦ elim (Bool-cases (ltb row.expires_at now)) [
      | inl late ↦ absurd (apart "expired_token" (rw late at rw e at h))
      | inr timely ↦ elim (Bool-cases (too_soon now row)) [
        | inl soon ↦ absurd (apart "slow_down" (rw soon at rw timely at rw e at h))
        | inr calm ↦
            let (state, named, result) =
              status-approved row.status row got (polled row rows)
                (rw calm at rw timely at rw e at h) in
            (
              row,
              refl,
              ((eq_iff row.client_id client_id).0 e, state, named, ground arith, calm),
              rw e (rw timely (rw calm result)),
            )
      ]
    ]
  ]
    where
      apart : (code : String) → err (bad_request code "") ≡ ok got → ⊥
      apart code k = cc

      polled : DeviceRow → Table → Table
      polled r rs = update_where (has_row_id r.id) (λ x. record x { last_polled_at = some now }) rs

  -- A poll is answered with the approval only for an approved code of that client, which names a
  -- person, has not expired and was not polled within its interval.
  pub poll-Ready :
      (sha256 : String → String) (code : String) (got : DeviceRow) (rows : Table)
      → (poll_for_approval sha256 now code client_id rows).1 ≡ ok got
      → (row : DeviceRow) × (find_first (has_hash (sha256 code)) rows ≡ some row)
        × Ready row
        × (poll_for_approval sha256 now code client_id rows ≡ (
          delete_row row.id
              (update_where (has_row_id row.id) (λ r. record r { last_polled_at = some now }) rows),
          ok row,
        ))
  unfolding poll_for_approval
  poll-Ready sha256 code got rows h =
      found-Ready (find_first (has_hash (sha256 code)) rows) got rows h

module _ (hash : String) (id : String) (now : ℕ) where
  abbrev after_poll : Table → Table
  after_poll rows =
      delete_row id
        (update_where (has_row_id id) (λ r. record r { last_polled_at = some now }) rows)

  none-stays :
      (rows : Table)
      → any (has_hash hash) rows ≡ false
      → any (has_hash hash) (after_poll rows) ≡ false
  none-stays [] h = refl
  none-stays (r ∷ rows) h = ground (arith, none-stays rows)

  count-any :
      (rows : Table) → count_where (has_hash hash) rows ≤ 0 → any (has_hash hash) rows ≡ false
  count-any [] h = refl
  count-any (r ∷ rows) h = ground (arith, count-any rows)

  deleted :
      (row : DeviceRow) (rows : Table)
      → row.id ≡ id
      → count_where (has_hash hash) rows ≤ 1
      → find_first (has_hash hash) rows ≡ some row
      → any (has_hash hash) (after_poll rows) ≡ false
  deleted row [] named one found = refl
  deleted row (r ∷ rows) named one found = elim (Bool-cases (has_hash hash r)) [
    | inl e ↦
        let same : r.id ≡ id = ap (λ x. x.id) (some-inj (rw e at found)) ∙ named in
        ground (arith, (eq_iff r.id id).1 same, none-stays rows (count-any rows (ground arith)))
    | inr e ↦ ground (arith, e, deleted row rows named (ground arith) (rw e at found))
  ]
    where
      some-inj : {a b : DeviceRow} → some a ≡ some b → a ≡ b
      some-inj k = cc

no-find_first :
    (p : DeviceRow → Bool) (rows : Table) → any p rows ≡ false → find_first p rows ≡ none
no-find_first p [] h = refl
no-find_first p (r ∷ rows) h = ground (arith, no-find_first p rows)

poll-absent :
    (sha256 : String → String) (now : ℕ) (code client_id : String) (rows : Table)
    → find_first (has_hash (sha256 code)) rows ≡ none
    → (poll_for_approval sha256 now code client_id rows).1 ≡ err (bad_request "invalid_grant" "")
unfolding poll_for_approval poll_found
poll-absent sha256 now code client_id rows none_there = rw none_there refl

-- An approval is handed out once: where the hash of a device code is unique in the table, a second
-- poll with the code, at any time and by any client, is refused as unknown.
pub poll-once :
    (sha256 : String → String) (now later : ℕ) (code client_id other : String) (got : DeviceRow)
    (rows : Table)
    → count_where (has_hash (sha256 code)) rows ≤ 1
    → (poll_for_approval sha256 now code client_id rows).1 ≡ ok got
    → (poll_for_approval sha256 later code other
        (poll_for_approval sha256 now code client_id rows).0).1
      ≡ err (bad_request "invalid_grant" "")
poll-once sha256 now later code client_id other got rows one h =
    let (row, found, ready, result) = poll-Ready now client_id sha256 code got rows h in
    poll-absent sha256 later code other (poll_for_approval sha256 now code client_id rows).0 (
      subst (λ out. find_first (has_hash (sha256 code)) out.0 ≡ none) (sym result)
        (no-find_first (has_hash (sha256 code)) (after_poll (sha256 code) row.id now rows)
          (deleted (sha256 code) row.id now row rows refl one found)))
