-- ===== src/Scopes/Laws.antt =====
-- What a client may hold: exactly what is requested and allowed, once each, stable under asking again.
use inite_auth_service.Common.{
  String, List, [], ◌∷◌, Option, some, ◌&&◌, or_else, select, includes, if◌then◌else◌, ◌≡◌, refl,
  ap, sym, ◌∙◌, All, Bool-cases, inl, inr,
}
use inite_auth_service.Common.Text.{words, join}
use inite_auth_service.Common.Text.Words.{IsWord, words-IsWord, words-join}
use inite_auth_service.Common.Sets.{
  unique, IsDistinct, includes-select, includes-unique, unique-IsDistinct, select-IsDistinct,
  unique-eq_self, select-all, All-select, All-unique,
}
use inite_auth_service.Scopes.{
  ClientRef, row, bare, absent, ref_id, standard_scopes, dcr_supported_scopes, row_allowance,
  permitted_by_row, is_dynamic_client_id, permitted_scopes, grantable_scope, scope_or_default,
  default_scope,
}

-- The rule as a set for each client: the open-registration set for a dynamic client, else what its
-- row allows.
abbrev without_prefix : ClientRef → List String
without_prefix (row c) = row_allowance c
without_prefix (bare id) = standard_scopes
without_prefix absent = standard_scopes

abbrev pub allowed_for : ClientRef → List String
allowed_for client =
    if is_dynamic_client_id (ref_id client) then dcr_supported_scopes else without_prefix client

abbrev requested_set : Option String → List String
requested_set requested = unique (words (or_else requested ""))

permitted_by_row-select :
    (client : ClientRef) (scopes : List String)
    → permitted_by_row client scopes ≡ select (includes (without_prefix client)) scopes
permitted_by_row-select (row c) scopes = refl
permitted_by_row-select (bare id) scopes = refl
permitted_by_row-select absent scopes = refl

pub permitted_scopes-select :
    (client : ClientRef) (requested : Option String)
    → permitted_scopes client requested
      ≡ select (includes (allowed_for client)) (requested_set requested)
unfolding permitted_scopes
permitted_scopes-select client requested =
    elim (Bool-cases (is_dynamic_client_id (ref_id client))) [
      | inl e ↦ rw e
      | inr e ↦ rw e (permitted_by_row-select client (requested_set requested))
    ]

-- A scope is permitted exactly when it is among the requested words and allowed for the client: a
-- dynamic client is held to the open-registration set whatever its row says, a public client may
-- hold the open-registration scopes besides its own, and a client without a row the baseline only.
pub includes-permitted_scopes :
    (client : ClientRef) (requested : Option String) (s : String)
    → includes (permitted_scopes client requested) s
      ≡ (includes (words (or_else requested "")) s && includes (allowed_for client) s)
includes-permitted_scopes client requested s = rw (permitted_scopes-select client requested) (
    includes-select (includes (allowed_for client)) (requested_set requested) s
    ∙ rw (includes-unique (words (or_else requested "")) s))

pub permitted_scopes-IsDistinct :
    (client : ClientRef) (requested : Option String)
    → IsDistinct (permitted_scopes client requested)
permitted_scopes-IsDistinct client requested = rw (permitted_scopes-select client requested) (
    select-IsDistinct (includes (allowed_for client)) (requested_set requested)
      (unique-IsDistinct (words (or_else requested ""))))

pub permitted_scopes-IsWord :
    (client : ClientRef) (requested : Option String)
    → All IsWord (permitted_scopes client requested)
permitted_scopes-IsWord client requested = rw (permitted_scopes-select client requested) (
    All-select IsWord (includes (allowed_for client)) (requested_set requested)
      (All-unique IsWord _ (words-IsWord (or_else requested ""))))

-- Asking again, with the text of what was permitted, permits the same scopes in the same order.
pub permitted_scopes-join :
    (client : ClientRef) (requested : Option String)
    → permitted_scopes client (some (join " " (permitted_scopes client requested)))
      ≡ permitted_scopes client requested
permitted_scopes-join client requested =
    permitted_scopes-select client (some (join " " held))
    ∙ ap (λ ws. select (includes (allowed_for client)) (unique ws))
        (words-join held (permitted_scopes-IsWord client requested))
    ∙ ap (select (includes (allowed_for client)))
        (unique-eq_self held (permitted_scopes-IsDistinct client requested))
    ∙ rw (permitted_scopes-select client requested)
        (select-all (includes (allowed_for client)) (requested_set requested))
  where
    held : List String
    held = permitted_scopes client requested

abbrev baseline : List String
baseline = "openid" ∷ "profile" ∷ "email" ∷ []

permitted_by_row-baseline : (client : ClientRef) → permitted_by_row client baseline ≡ baseline
permitted_by_row-baseline (row c) = refl
permitted_by_row-baseline (bare id) = refl
permitted_by_row-baseline absent = refl

permitted_scopes-default :
    (client : ClientRef) → permitted_scopes client (some default_scope) ≡ baseline
unfolding permitted_scopes words unique
permitted_scopes-default client = elim (Bool-cases (is_dynamic_client_id (ref_id client))) [
  | inl e ↦ rw e
  | inr e ↦ rw e (permitted_by_row-baseline client)
]

grantable_scope-held :
    (client : ClientRef) (requested : Option String) (held : List String)
    → held ≡ permitted_scopes client requested
    → grantable_scope client (some (scope_or_default held)) ≡ scope_or_default held
unfolding grantable_scope
grantable_scope-held client requested [] e = ap scope_or_default (permitted_scopes-default client)
grantable_scope-held client requested (s ∷ ss) e = ap scope_or_default (
    ap (λ held. permitted_scopes client (some (join " " held))) e
    ∙ permitted_scopes-join client requested
    ∙ sym e)

-- The granted text is a fixed point: a grant of it is the same text, also where it is the default.
pub grantable_scope_idem :
    (client : ClientRef) (requested : Option String)
    → grantable_scope client (some (grantable_scope client requested))
      ≡ grantable_scope client requested
unfolding grantable_scope
grantable_scope_idem client requested =
    grantable_scope-held client requested (permitted_scopes client requested) refl
