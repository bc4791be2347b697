-- ===== src/Assertion/Replay.antt =====
-- An assertion is accepted once while its row is kept, and may be accepted again after the reaper.
use inite_auth_service.Common.{
  ℕ, String, List, [], ◌∷◌, ◌++◌, Option, Bool, true, false, not, ◌&&◌, ◌||◌, ◌≡◌, refl, ◌≤◌, ◌<◌,
  leb, ltb, any, select, Bool-cases, inl, inr, arith, sym, ap, ◌∙◌, subst, eq_self,
}
use inite_auth_service.Common.Effect.{Result, Fault, ok, err, ◌>>=◌, ◌>>◌}
use inite_auth_service.Common.Effect.Runs.{Result-cases}
use inite_auth_service.Assertion.{
  AssertionClient, Jose, JtiRow, Registry, same_jti, replayed_jti, consume_jti, reap_expired,
  checked_assertion, record_jti, authenticate,
}
use inite_auth_service.Assertion.Rows.{JoseLaws, checked_assertion-row}

any-append :
    {A : Type 0} (p : A → Bool) (xs ys : List A) → any p (xs ++ ys) ≡ (any p xs || any p ys)
any-append p [] ys = refl
any-append p (x ∷ xs) ys = ground (arith, any-append p xs ys)

same_jti_self : (row : JtiRow) → same_jti row.client_id row.jti row ≡ true
same_jti_self row = ground (arith, eq_self row.client_id, eq_self row.jti)

-- The pair of client and jti is in the table.
abbrev recorded : JtiRow → Registry → Bool
recorded row r = any (same_jti row.client_id row.jti) r.jtis

module _ (jose : Jose) (assertion : String) (hint : Option String) (audiences : List String) where
  abbrev run : ℕ → Registry → Registry × Result AssertionClient
  run now r = authenticate jose now assertion hint audiences r

  abbrev admits : ℕ → List AssertionClient → Result (AssertionClient × JtiRow)
  admits now clients = checked_assertion jose now assertion hint audiences clients

  authenticate-fresh :
      (now : ℕ) (client : AssertionClient) (row : JtiRow) (r : Registry)
      → admits now r.clients ≡ ok (client, row)
      → recorded row r ≡ false
      → run now r ≡ (record r { jtis = r.jtis ++ row ∷ [] }, ok client)
  unfolding authenticate record_jti consume_jti
  authenticate-fresh now client row r h fresh =
      ap (λ o. record_jti jose now o r) h ∙ rw (fresh, ◌>>◌, ◌>>=◌) (rw fresh refl)

  authenticate-recorded :
      (now : ℕ) (client : AssertionClient) (row : JtiRow) (r : Registry)
      → admits now r.clients ≡ ok (client, row)
      → recorded row r ≡ true
      → run now r ≡ (r, err replayed_jti)
  unfolding authenticate record_jti consume_jti
  authenticate-recorded now client row r h used =
      ap (λ o. record_jti jose now o r) h ∙ rw (used, ◌>>◌, ◌>>=◌) (rw used refl)

  authenticate-err :
      (now : ℕ) (e : Fault) (r : Registry) → admits now r.clients ≡ err e → run now r ≡ (r, err e)
  unfolding authenticate record_jti
  authenticate-err now e r h = ap (λ o. record_jti jose now o r) h

-- What may happen to the registry in between: any client's assertion, and the reaper.
pub data Between : Type 0 where
  another :
      (now : ℕ) (assertion : String) (hint : Option String) (audiences : List String) → Between
  reap : (now : ℕ) → Between

module _ (jose : Jose) where
  abbrev step : Between → Registry → Registry
  step (another now assertion hint audiences) r =
      (authenticate jose now assertion hint audiences r).0
  step (reap now) r = reap_expired now r

  abbrev pub after_all : List Between → Registry → Registry
  after_all [] r = r
  after_all (e ∷ es) r = after_all es (step e r)

  -- No reaper runs after the end of the row.
  abbrev pub Early : ℕ → List Between → Type 0
  Early end [] = Unit
  Early end (another now assertion hint audiences ∷ es) = Early end es
  Early end (reap now ∷ es) = (now ≤ end) × Early end es

  -- A row of the pair that ends no sooner.
  abbrev lasting : JtiRow → JtiRow → Bool
  lasting row x = same_jti row.client_id row.jti x && leb row.expires_at x.expires_at

  abbrev kept : JtiRow → Registry → Bool
  kept row r = any (lasting row) r.jtis

  kept-recorded :
      (row : JtiRow) (rows : List JtiRow)
      → any (lasting row) rows ≡ true
      → any (same_jti row.client_id row.jti) rows ≡ true
  kept-recorded row [] h = cc
  kept-recorded row (x ∷ rows) h = elim (Bool-cases (lasting row x)) [
    | inl hit ↦ ground arith
    | inr miss ↦ let later = kept-recorded row rows (rw miss at h) in ground arith
  ]

  kept-record_jti :
      (now : ℕ) (row : JtiRow) (o : Result (AssertionClient × JtiRow)) (r : Registry)
      → kept row r ≡ true
      → (kept row (record_jti jose now o r).0 ≡ true)
        × ((record_jti jose now o r).0.clients ≡ r.clients)
  unfolding record_jti consume_jti
  kept-record_jti now row (err e) r h = (h, refl)
  kept-record_jti now row (ok (client, new)) r h = elim (Bool-cases (recorded new r)) [
    | inl used ↦ rw (used, ◌>>◌, ◌>>=◌) (rw used (h, refl))
    | inr fresh ↦
        rw (fresh, ◌>>◌, ◌>>=◌)
          (rw fresh (any-append (lasting row) r.jtis (new ∷ []) ∙ rw h refl, refl))
  ]

  kept-select :
      (now : ℕ) (row : JtiRow) (rows : List JtiRow)
      → now ≤ row.expires_at
      → any (lasting row) rows ≡ true
      → any (lasting row) (select (λ x. not (ltb x.expires_at now)) rows) ≡ true
  kept-select now row [] le h = cc
  kept-select now row (x ∷ rows) le h = elim (Bool-cases (lasting row x)) [
    | inl hit ↦ let stays : ltb x.expires_at now ≡ false = ground arith in rw stays (rw hit refl)
    | inr miss ↦ let rest = kept-select now row rows le (rw miss at h) in ground arith
  ]

  kept-after_all :
      (es : List Between) (row : JtiRow) (r : Registry)
      → Early row.expires_at es
      → kept row r ≡ true
      → (kept row (after_all es r) ≡ true) × ((after_all es r).clients ≡ r.clients)
  unfolding authenticate reap_expired
  kept-after_all [] row r early h = (h, refl)
  kept-after_all (another now assertion hint audiences ∷ es) row r early h =
      let (next, same) =
        kept-record_jti now row (checked_assertion jose now assertion hint audiences r.clients) r
          h in
      let (last, clients) =
        kept-after_all es row (step (another now assertion hint audiences) r) early next in
      (last, clients ∙ same)
  kept-after_all (reap now ∷ es) row r (le, early) h =
      let (last, clients) =
        kept-after_all es row (reap_expired now r) early (kept-select now row r.jtis le h) in
      (last, clients)

  module _ (laws : JoseLaws jose) (assertion : String) (hint : Option String)
      (audiences : List String) where
    abbrev mid : JtiRow → Registry → Registry
    mid row r = record r { jtis = r.jtis ++ row ∷ [] }

    kept-mid : (row : JtiRow) (r : Registry) → kept row (mid row r) ≡ true
    kept-mid row r =
        any-append (lasting row) r.jtis (row ∷ []) ∙ (let self = same_jti_self row in ground arith)

    -- The assertion where its row is still kept.
    refused-kept :
        (now later : ℕ) (client : AssertionClient) (row : JtiRow) (r s : Registry)
        → checked_assertion jose now assertion hint audiences r.clients ≡ ok (client, row)
        → s.clients ≡ r.clients
        → kept row s ≡ true
        → (x : Fault) × ((authenticate jose later assertion hint audiences s).1 ≡ err x)
    refused-kept now later client row r s passes same there =
        elim (Result-cases (checked_assertion jose later assertion hint audiences s.clients)) [
          | inr (x, e) ↦
              (x, ap (λ out. out.1) (authenticate-err jose assertion hint audiences later x s e))
          | inl ((d, other), e) ↦
              let (who, what) =
                checked_assertion-row jose assertion hint audiences laws now later r.clients client
                  d row other passes
                  (ap (checked_assertion jose later assertion hint audiences) (sym same) ∙ e) in
              (
                replayed_jti,
                ap (λ out. out.1)
                    (authenticate-recorded jose assertion hint audiences later d other s e
                      (subst (λ x. recorded x s ≡ true) what (kept-recorded row s.jtis there))),
              )
        ]

    -- After an assertion that passed the checks was accepted, and after any other assertions and any
    -- runs of the reaper up to the end of the assertion, it is refused at every later time.
    pub authenticate-once :
        (now later : ℕ) (client : AssertionClient) (row : JtiRow) (r : Registry) (es : List Between)
        → checked_assertion jose now assertion hint audiences r.clients ≡ ok (client, row)
        → recorded row r ≡ false
        → Early row.expires_at es
        → ((authenticate jose now assertion hint audiences r).1 ≡ ok client)
          × ((x : Fault) × ((authenticate jose later assertion hint audiences
                  (after_all es (authenticate jose now assertion hint audiences r).0)).1
                ≡ err x))
    authenticate-once now later client row r es passes fresh early =
        let first =
          authenticate-fresh jose assertion hint audiences now client row r passes fresh in
        let (there, clients) = kept-after_all es row (mid row r) early (kept-mid row r) in
        rw first (
          refl,
          refused-kept now later client row r (after_all es (mid row r)) passes clients there,
        )

  none-reaped :
      (now : ℕ) (row : JtiRow) (rows : List JtiRow)
      → any (same_jti row.client_id row.jti) rows ≡ false
      → row.expires_at < now
      → any
          (same_jti row.client_id row.jti)
          (select (λ x. not (ltb x.expires_at now)) (rows ++ row ∷ []))
        ≡ false
  none-reaped now row [] h late = ground arith
  none-reaped now row (x ∷ rows) h late =
      let rest = none-reaped now row rows (ground arith) late in
      let this : same_jti row.client_id row.jti x ≡ false = ground arith in ground arith

  -- An assertion that passes the checks at two times, the second after its end (the signature check
  -- allows for a minute of clock difference), is accepted at both where the reaper runs after its end
  -- and between the two.
  pub reap-replay :
      (assertion : String) (hint : Option String) (audiences : List String) (now reaped later : ℕ)
      (client : AssertionClient) (row : JtiRow) (r : Registry)
      → checked_assertion jose now assertion hint audiences r.clients ≡ ok (client, row)
      → checked_assertion jose later assertion hint audiences r.clients ≡ ok (client, row)
      → recorded row r ≡ false
      → row.expires_at < reaped
      → ((authenticate jose now assertion hint audiences r).1 ≡ ok client)
        × ((authenticate jose later assertion hint audiences
              (reap_expired reaped (authenticate jose now assertion hint audiences r).0)).1
            ≡ ok client)
  unfolding reap_expired
  reap-replay assertion hint audiences now reaped later client row r passes again fresh late =
      rw (authenticate-fresh jose assertion hint audiences now client row r passes fresh) (
        refl,
        ap (λ out. out.1)
            (authenticate-fresh jose assertion hint audiences later client row
              (reap_expired reaped (record r { jtis = r.jtis ++ row ∷ [] })) again
              (none-reaped reaped row r.jtis fresh late)),
      )
