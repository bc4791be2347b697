-- ===== src/Consent/Tests.antt =====
-- A consent of one person to one application.
use inite_auth_service.Common.{
  [], ◌∷◌, ◌++◌, none, some, true, false, not, ◌&&◌, ◌≡◌, refl, any, select, count_where,
}
use inite_auth_service.Common.Effect.{ok}
use inite_auth_service.Store.{Db, ClientRow}
use inite_auth_service.Samples.{one_token}
use inite_auth_service.Consent.{
  ConsentQuestion, is_first_party, is_required, exceeds, scopes_of, record_consent, revoke,
  find_consent, held_by,
}
use inite_auth_service.Consent.Laws.{is_required-record_consent}
use inite_auth_service.Consent.Revocation.{usable, foreign, revoke-stops}

abbrev web_client : ClientRow
web_client = record {
  client_id = "web";
  company_id = none;
  customer_lane = false;
  is_public = true;
  first_party = none;
  allowed_scopes = [];
  allowed_audiences = [];
  redirect_uris = [];
  custom_claims = [];
}

abbrev consented : Db
consented = record one_token {
  clients = web_client ∷ [];
  consents = record { user_id = "u1"; client_id = "web"; scopes = "openid" ∷ [] } ∷ [];
}

abbrev question : ConsentQuestion
question = record {
  user_id = "u1";
  client_id = "web";
  scope = "openid email phone";
  details = none;
}

foreign_web : is_first_party web_client ≡ false
unfolding is_first_party
foreign_web = refl

is_required-record_consent_example :
    is_required question (record_consent "u1" "web" "email" consented).0
    ≡ exceeds (scopes_of (some "openid email phone")) (("openid" ∷ []) ++ scopes_of (some "email"))
is_required-record_consent_example =
    is_required-record_consent question "email" web_client consented refl refl foreign_web

revoke-stops_example :
    ((revoke 5000 "u1" "web" consented).1
      ≡ ok (count_where (λ r. held_by "u1" "web" r && not r.revoked) consented.tokens))
    × (find_consent "u1" "web" (revoke 5000 "u1" "web" consented).0 ≡ none)
    × (any (usable 5000 "u1" "web") (revoke 5000 "u1" "web" consented).0.tokens ≡ false)
    × (select (foreign 5000 "u1" "web") (revoke 5000 "u1" "web" consented).0.tokens
        ≡ select (foreign 5000 "u1" "web") consented.tokens)
revoke-stops_example = revoke-stops 5000 "u1" "web" consented
