-- ===== src/M2m/Scope.antt =====
-- That an exchange of a token only narrows its authority.
use inite_auth_service.Common.{
  String, List, [], ◌∷◌, Option, some, true, false, ◌&&◌, ◌||◌, ◌≡◌, ◌==◌, includes, Bool-cases,
  Option-cases, inl, inr, arith, sym, ap, ◌∙◌, subst, eq_iff,
}
use inite_auth_service.Common.Sets.{includes-select}
use inite_auth_service.Common.Effect.{Result, Fault, ok, err}
use inite_auth_service.Common.Effect.Runs.{Result-cases}
use inite_auth_service.Resource.{is_empty}
use inite_auth_service.M2m.{
  MachineToken, M2mEnv, ExchangeInput, SubjectClaims, denied, allowed_scopes_of, claim_scopes,
  ceiling_of, bounded_scopes, resolve_exchange_scopes, resolve_exchange_audience, verified_token,
  exchanged_token, exchange_subject, exchange_token, actor_of, target_of, requested_scopes,
}

refused : {A : Type 0} (x : Fault) (a : A) → err x ≡ ok a → ⊥
refused x a k = cc

denied-covers :
    (ceiling requested : List String) (s : String)
    → is_empty (denied ceiling requested) ≡ true
    → includes requested s ≡ true
    → includes ceiling s ≡ true
denied-covers ceiling [] s h k = cc
denied-covers ceiling (x ∷ requested) s h k = elim (Bool-cases (includes ceiling x)) [
  | inr out ↦ absurd (apart (rw out at h))
  | inl within ↦ elim (Bool-cases (x == s)) [
    | inl same ↦ subst (λ y. includes ceiling y ≡ true) ((eq_iff x s).0 same) within
    | inr other ↦ denied-covers ceiling requested s (rw within at h) (rw other at k)
  ]
]
  where
    apart : false ≡ true → ⊥
    apart e = cc

ceiling-within :
    (subject allowed : List String) (s : String)
    → includes (ceiling_of subject allowed) s ≡ true
    → (includes subject s && (is_empty allowed || includes allowed s)) ≡ true
unfolding ceiling_of
ceiling-within subject allowed s h = elim (Bool-cases (is_empty allowed)) [
  | inl free ↦ let within : includes subject s ≡ true = rw free at h in ground arith
  | inr listed ↦
      let both : (includes subject s && includes allowed s) ≡ true =
        sym (includes-select (includes allowed) subject s) ∙ rw listed at h in
      ground arith
]

bounded-within :
    (ceiling requested got : List String) (s : String)
    → bounded_scopes ceiling requested ≡ ok got
    → includes got s ≡ true
    → includes ceiling s ≡ true
unfolding bounded_scopes
bounded-within ceiling requested got s h k = elim (Bool-cases (is_empty requested)) [
  | inl none_asked ↦ elim (Bool-cases (is_empty ceiling)) [
    | inl nothing ↦ absurd (refused _ got (rw nothing at rw none_asked at h))
    | inr some_there ↦
        let same : ceiling ≡ got = cc (rw some_there at rw none_asked at h) in
        ap (λ l. includes l s) same ∙ k
  ]
  | inr asked ↦ elim (Bool-cases (is_empty (denied ceiling requested))) [
    | inl covered ↦
        let same : requested ≡ got = cc (rw covered at rw asked at h) in
        denied-covers ceiling requested s covered (ap (λ l. includes l s) same ∙ k)
    | inr over ↦ absurd (refused _ got (rw over at rw asked at h))
  ]
]

module _ (env : M2mEnv) where
  -- The parts that an exchanged token is made of.
  abbrev Exchanged : ExchangeInput → SubjectClaims → MachineToken → Type 0
  Exchanged input subject t =
      (resolve_exchange_scopes input.requested_scope (claim_scopes subject)
          (allowed_scopes_of input.client)
        ≡ ok t.claims.scopes)
      × (resolve_exchange_audience env.js env.registry input.client
            (target_of env input.resource input.audience)
          ≡ ok t.claims.audience)
      × (t.claims.sub ≡ subject.sub)
      × (t.claims.client_id ≡ input.client.client_id)

  made :
      (input : ExchangeInput) (subject : SubjectClaims) (t : MachineToken) (scopes : List String)
      (audience : String) (act : Option String × Option String)
      → exchanged_token env input subject (ok scopes) (ok audience) (ok act) ≡ ok t
      → (scopes ≡ t.claims.scopes)
        × (audience ≡ t.claims.audience)
        × (t.claims.sub ≡ subject.sub)
        × (t.claims.client_id ≡ input.client.client_id)
  unfolding exchanged_token
  made input subject t scopes audience act h = (
    ap (λ r. (token_in r).claims.scopes) h,
    ap (λ r. (token_in r).claims.audience) h,
    sym (ap (λ r. (token_in r).claims.sub) h),
    sym (ap (λ r. (token_in r).claims.client_id) h),
  )
    where
      token_in : Result MachineToken → MachineToken
      token_in (ok x) = x
      token_in (err x) = t

  exchange_subject-Exchanged :
      (input : ExchangeInput) (subject : SubjectClaims) (t : MachineToken)
      → exchange_subject env input (ok subject) ≡ ok t
      → Exchanged input subject t
  unfolding exchange_subject exchanged_token
  exchange_subject-Exchanged input subject t h =
      elim (Result-cases (
        resolve_exchange_scopes input.requested_scope (claim_scopes subject)
          (allowed_scopes_of input.client))) [
            | inr (x, e) ↦ absurd (refused x t (rw e at h))
            | inl (scopes, e) ↦
                elim (Result-cases (
                  resolve_exchange_audience env.js env.registry input.client
                    (target_of env input.resource input.audience))) [
                      | inr (x, e2) ↦ absurd (refused x t (rw e2 at rw e at h))
                      | inl (audience, e2) ↦
                          elim (Result-cases (actor_of env input.client input.actor_token)) [
                            | inr (x, e3) ↦ absurd (refused x t (rw e3 at rw e2 at rw e at h))
                            | inl (act, e3) ↦
                                let (same, aimed, sub, by) =
                                  made input subject t scopes audience act
                                    (rw e3 at rw e2 at rw e at h) in
                                (e ∙ ap (λ x. ok x) same, e2 ∙ ap (λ x. ok x) aimed, sub, by)
                          ]
                    ]
          ]

  -- An exchanged token is made of a subject token that verifies: it has the same subject, and each of
  -- its scopes is a scope of that token, and one of the client's, where the client has a list.
  pub exchange_token-narrows :
      (input : ExchangeInput) (t : MachineToken) (s : String)
      → exchange_token env input ≡ ok t
      → includes t.claims.scopes s ≡ true
      → (subject : SubjectClaims) × (env.verify_token input.subject_token ≡ some subject)
        × (t.claims.sub ≡ subject.sub)
        × ((includes (claim_scopes subject) s
              && (is_empty (allowed_scopes_of input.client)
                  || includes (allowed_scopes_of input.client) s))
            ≡ true)
  unfolding exchange_token verified_token exchange_subject resolve_exchange_scopes
  exchange_token-narrows input t s h k =
      elim (Bool-cases (
        input.subject_token_type == "urn:ietf:params:oauth:token-type:access_token"
        || input.subject_token_type == "urn:ietf:params:oauth:token-type:jwt")) [
          | inr other ↦ absurd (refused _ t (rw other at h))
          | inl typed ↦ elim (Option-cases (env.verify_token input.subject_token)) [
            | inl bad ↦ absurd (refused _ t (rw bad at rw typed at h))
            | inr (subject, e) ↦
                let (scopes, audience, sub, by) =
                  exchange_subject-Exchanged input subject t (rw e at rw typed at h) in
                (
                  subject,
                  e,
                  sub,
                  ceiling-within (claim_scopes subject) (allowed_scopes_of input.client) s (
                      bounded-within
                        (ceiling_of (claim_scopes subject) (allowed_scopes_of input.client))
                        (requested_scopes input.requested_scope) t.claims.scopes s scopes k),
                )
          ]
        ]
