-- ===== src/Assertion/Tests.antt =====
-- One assertion, accepted, and refused or accepted again.
use inite_auth_service.Common.{
  ℕ, [], ◌∷◌, none, some, true, ◌≡◌, refl, arith, sym, ◌∙◌, ltb, if◌then◌else◌, Bool-cases, inl,
  inr,
}
use inite_auth_service.Common.Effect.{Fault, ok, err}
use inite_auth_service.Assertion.{
  AssertionClient, JwtPayload, Jose, JtiRow, Registry, checked_assertion, authenticate,
  reap_expired,
}
use inite_auth_service.Assertion.Rows.{JoseLaws}
use inite_auth_service.Assertion.Replay.{another, reap, after_all, authenticate-once, reap-replay}

abbrev agent : AssertionClient
agent = record {
  client_id = "agent";
  active = true;
  auth_method = "private_key_jwt";
  jwks = some "{}";
}

abbrev agent_payload : JwtPayload
agent_payload = record { exp = some 100; jti = some "j1" }

-- Every assertion is the agent's, for a minute after its end.
abbrev toy_jose : Jose
toy_jose = record {
  decode = λ s. some (record { alg = some "ES256"; iss = some "agent"; sub = some "agent" });
  jwt_verify = λ now algs tolerance s client issuer audiences.
      if ltb now 160000 then some agent_payload else none;
}

verified_payload_lem :
    (now : ℕ) (p : JwtPayload)
    → (if ltb now 160000 then some agent_payload else none) ≡ some p
    → agent_payload ≡ p
verified_payload_lem now p h = elim (Bool-cases (ltb now 160000)) [
  | inl early ↦ cc (rw early at h)
  | inr late ↦ absurd (apart (rw late at h))
]
  where
    apart : none ≡ some p → ⊥
    apart k = cc

toy_jose_laws : JoseLaws toy_jose
toy_jose_laws = record {
  jwt_verify-payload = λ now later algs tolerance assertion client issuer audiences p q h k.
      sym (verified_payload_lem now p h) ∙ verified_payload_lem later q k;
}

abbrev agents : Registry
agents = record { clients = agent ∷ []; jtis = [] }

abbrev agent_row : JtiRow
agent_row = record { client_id = "agent"; jti = "j1"; expires_at = 100000 }

admitted_now : checked_assertion toy_jose 50000 "jwt" none [] agents.clients ≡ ok (agent, agent_row)
unfolding checked_assertion
admitted_now = refl

admitted_late :
    checked_assertion toy_jose 130000 "jwt" none [] agents.clients ≡ ok (agent, agent_row)
unfolding checked_assertion
admitted_late = refl

abbrev accepted_once : Registry
accepted_once = (authenticate toy_jose 50000 "jwt" none [] agents).0

authenticate-once_example :
    ((authenticate toy_jose 50000 "jwt" none [] agents).1 ≡ ok agent)
    × ((x : Fault) × ((authenticate toy_jose 60000 "jwt" none []
            (after_all toy_jose (reap 55000 ∷ another 56000 "other" none [] ∷ []) accepted_once)).1
          ≡ err x))
authenticate-once_example =
    authenticate-once toy_jose toy_jose_laws "jwt" none [] 50000 60000 agent agent_row agents
      (reap 55000 ∷ another 56000 "other" none [] ∷ []) admitted_now refl (omega arith, tt)

reap-replay_example :
    ((authenticate toy_jose 50000 "jwt" none [] agents).1 ≡ ok agent)
    × ((authenticate toy_jose 130000 "jwt" none [] (reap_expired 120000 accepted_once)).1
        ≡ ok agent)
reap-replay_example =
    reap-replay toy_jose "jwt" none [] 50000 120000 130000 agent agent_row agents admitted_now
      admitted_late refl (omega arith)
