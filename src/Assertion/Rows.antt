-- ===== src/Assertion/Rows.antt =====
-- What an assertion that passes the checks records is settled by the assertion and the clients.
use inite_auth_service.Common.{
  ℕ, String, List, Option, none, some, ◌≡◌, refl, ◌*◌, ◌+◌, ◌/◌, ltb, nat_eq, truthy, Bool-cases,
  inl, inr, ap, ◌∙◌, subst,
}
use inite_auth_service.Common.Effect.{Result, Fault, ok, err}
use inite_auth_service.Common.Effect.Runs.{Result-cases}
use inite_auth_service.Assertion.{
  AssertionClient, Unverified, JwtPayload, Jose, JtiRow, max_assertion_lifetime_s, replay_row,
  row_of, with_row, with_payload, with_client, with_id, with_header, checked_assertion,
  verified_payload, load_private_key_jwt_client, resolve_client_id, alg_allowed, decoded,
  assertion_algs,
}

-- A signature that verifies at two times has one payload.
pub record JoseLaws (jose : Jose) : Type 0 where
  pub jwt_verify-payload :
      (now later : ℕ) (algs : List String) (tolerance : ℕ) (assertion : String)
      (client : AssertionClient) (issuer : String) (audiences : List String) (p q : JwtPayload)
      → jose.jwt_verify now algs tolerance assertion client issuer audiences ≡ some p
      → jose.jwt_verify later algs tolerance assertion client issuer audiences ≡ some q
      → p ≡ q

abbrev row_with : String → Option ℕ → Option String → Option JtiRow
row_with id none jti = none
row_with id (some exp) none = none
row_with id (some exp) (some jti) =
    some (record { client_id = id; jti = jti; expires_at = exp * 1000 })

module _ (jose : Jose) where
  refused : {A : Type 0} (x : Fault) (a : A) → err x ≡ ok a → ⊥
  refused x a k = cc

  abbrev passes : AssertionClient → JtiRow → Result (AssertionClient × JtiRow)
  passes c row = ok (c, row)

  pair_of :
      (c d : AssertionClient) (row other : JtiRow)
      → passes c row ≡ passes d other
      → (c ≡ d) × (row ≡ other)
  pair_of c d row other h = (ap (client_in c) h, ap (row_in row) h)
    where
      client_in : AssertionClient → Result (AssertionClient × JtiRow) → AssertionClient
      client_in c (ok (d, row)) = d
      client_in c (err x) = c

      row_in : JtiRow → Result (AssertionClient × JtiRow) → JtiRow
      row_in row (ok (d, other)) = other
      row_in row (err x) = row

  replay_row-row :
      (now : ℕ) (id : String) (exp : ℕ) (jti : Option String) (row : JtiRow)
      → replay_row jose now id exp jti ≡ ok row
      → row_with id (some exp) jti ≡ some row
  unfolding replay_row
  replay_row-row now id exp none row h = absurd (refused _ row h)
  replay_row-row now id exp (some jti) row h = elim (Bool-cases (truthy jti)) [
    | inr empty ↦ absurd (refused _ row (rw empty at h))
    | inl filled ↦ elim (Bool-cases (ltb (now / 1000 + max_assertion_lifetime_s) exp)) [
      | inl long ↦ absurd (refused _ row (rw long at rw filled at h))
      | inr short ↦ cc (rw short at rw filled at h)
    ]
  ]

  row_of-row :
      (now : ℕ) (id : String) (p : JwtPayload) (exp : Option ℕ) (row : JtiRow)
      → row_of jose now id p exp ≡ ok row
      → row_with id exp p.jti ≡ some row
  unfolding row_of
  row_of-row now id p none row h = absurd (refused _ row h)
  row_of-row now id p (some exp) row h = elim (Bool-cases (nat_eq exp 0)) [
    | inl zero_exp ↦ absurd (refused _ row (rw zero_exp at h))
    | inr set ↦ replay_row-row now id exp p.jti row (rw set at h)
  ]

  with_payload-row :
      (now : ℕ) (client c : AssertionClient) (id : String) (o : Option JwtPayload) (row : JtiRow)
      → with_payload jose now client id (verified_payload o) ≡ ok (c, row)
      → (p : JwtPayload) × (o ≡ some p) × (client ≡ c) × (row_with id p.exp p.jti ≡ some row)
  unfolding with_payload with_row verified_payload
  with_payload-row now client c id none row h = absurd (refused _ (c, row) h)
  with_payload-row now client c id (some p) row h =
      elim (Result-cases (row_of jose now id p p.exp)) [
        | inl (found, e) ↦
            let same = pair_of client c found row (rw e at h) in
            (p, refl, same.0, row_of-row now id p p.exp found e ∙ ap (λ x. some x) same.1)
        | inr (x, e) ↦ absurd (refused x (c, row) (rw e at h))
      ]

  module _ (assertion : String) (hint : Option String) (audiences : List String) where
    -- How an assertion that passes names its client and its row.
    record Passed (now : ℕ) (clients : List AssertionClient) (c : AssertionClient) (row : JtiRow)
        : Type 0 where
      pub unverified : Unverified
      pub id : String
      pub payload : JwtPayload
      pub decoded_e : decoded (jose.decode assertion) ≡ ok unverified
      pub resolved_e : resolve_client_id hint unverified ≡ ok id
      pub loaded_e : load_private_key_jwt_client id clients ≡ ok c
      pub verified_e : jose.jwt_verify now assertion_algs 60 assertion c id audiences ≡ some payload
      pub row_e : row_with id payload.exp payload.jti ≡ some row

    checked_assertion-Passed :
        (now : ℕ) (clients : List AssertionClient) (c : AssertionClient) (row : JtiRow)
        → checked_assertion jose now assertion hint audiences clients ≡ ok (c, row)
        → Passed now clients c row
    unfolding checked_assertion with_header with_id with_client
    checked_assertion-Passed now clients c row h =
        elim (Result-cases (decoded (jose.decode assertion))) [
          | inr (x, e) ↦ absurd (refused x (c, row) (rw e at h))
          | inl (u, e) ↦ elim (Bool-cases (alg_allowed u.alg)) [
            | inr bad ↦ absurd (refused _ (c, row) (rw bad at rw e at h))
            | inl good ↦ elim (Result-cases (resolve_client_id hint u)) [
              | inr (x, e2) ↦ absurd (refused x (c, row) (rw e2 at rw good at rw e at h))
              | inl (id, e2) ↦ elim (Result-cases (load_private_key_jwt_client id clients)) [
                | inr (x, e3) ↦ absurd (refused x (c, row) (rw e3 at rw e2 at rw good at rw e at h))
                | inl (client, e3) ↦
                    let (p, e4, same, e5) =
                      with_payload-row now client c id
                        (jose.jwt_verify now assertion_algs 60 assertion client id audiences) row
                        (rw e3 at rw e2 at rw good at rw e at h) in
                    record {
                      unverified = u;
                      id = id;
                      payload = p;
                      decoded_e = e;
                      resolved_e = e2;
                      loaded_e = e3 ∙ ap (λ x. ok x) same;
                      verified_e =
                          subst
                            (λ x.
                              jose.jwt_verify now assertion_algs 60 assertion x id audiences
                              ≡ some p)
                            same e4;
                      row_e = e5;
                    }
              ]
            ]
          ]
        ]

    -- Two checks of one assertion that both pass name the same client and the same row.
    pub checked_assertion-row :
        (laws : JoseLaws jose) (now later : ℕ) (clients : List AssertionClient)
        (c d : AssertionClient) (row other : JtiRow)
        → checked_assertion jose now assertion hint audiences clients ≡ ok (c, row)
        → checked_assertion jose later assertion hint audiences clients ≡ ok (d, other)
        → (c ≡ d) × (row ≡ other)
    checked_assertion-row laws now later clients c d row other h k =
        let first = checked_assertion-Passed now clients c row h in
        let second = checked_assertion-Passed later clients d other k in
        let u : first.unverified ≡ second.unverified = cc (first.decoded_e, second.decoded_e) in
        let i : first.id ≡ second.id = cc (first.resolved_e, second.resolved_e, u) in
        let client : c ≡ d = cc (first.loaded_e, second.loaded_e, i) in
        let payload : first.payload ≡ second.payload =
          laws.jwt_verify-payload now later assertion_algs 60 assertion c first.id audiences
            first.payload second.payload first.verified_e (cc (second.verified_e, i, client)) in
        (client, cc (first.row_e, second.row_e, payload, i))
