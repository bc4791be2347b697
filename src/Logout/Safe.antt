-- ===== src/Logout/Safe.antt =====
-- A logout is no open redirect.
use inite_auth_service.Common.{
  String, Option, none, some, true, false, not, ◌&&◌, ◌||◌, ◌≡◌, refl, ◌==◌, truthy, Bool-cases,
  Option-cases, inl, inr, arith, subst, not-both, eq_iff,
}
use inite_auth_service.Scopes.{is_dynamic_client_id}
use inite_auth_service.Resource.{Runtime, Url, on_family_host}
use inite_auth_service.Logout.{
  LogoutRedirectDeps, LogoutRedirectInput, Asker, refuse, anybody, client, identify_client,
  registers, is_allowed_target, redirect_url, redirect_to, resolve_post_logout_redirect,
}

module _ (js : Runtime) (deps : LogoutRedirectDeps) where
  -- Where the one who asks may send the browser.
  abbrev pub MaySend : Asker → Url → Type 0
  MaySend refuse url = ⊥
  MaySend anybody url =
      (url.protocol ≡ "https:")
      × ((on_family_host js url || deps.is_trusted_origin url.origin) ≡ true)
  MaySend (client id) url =
      (is_dynamic_client_id (some id) ≡ false)
      × (registers js deps url.origin (deps.find_redirect_uris id) ≡ true)

  allowed-MaySend :
      (who : Asker) (url : Url) → is_allowed_target js deps url who ≡ true → MaySend who url
  unfolding is_allowed_target
  allowed-MaySend refuse url h = not-both false h refl
  allowed-MaySend anybody url h = ((eq_iff url.protocol "https:").0 (ground arith), ground arith)
  allowed-MaySend (client id) url h = (ground arith, ground arith)

  parsed-MaySend :
      (input : LogoutRedirectInput) (parsed : Option Url) (url : Url)
      → redirect_url js deps input parsed ≡ some url
      → (parsed ≡ some url)
        × (((url.protocol == "https:") || (url.protocol == "http:")) ≡ true)
        × MaySend (identify_client deps input) url
  unfolding redirect_url
  parsed-MaySend input none url h = absurd (apart h)
    where
      apart : none ≡ some url → ⊥
      apart k = cc
  parsed-MaySend input (some found) url h =
      elim (Bool-cases (not (found.protocol == "https:") && not (found.protocol == "http:"))) [
        | inl scheme ↦ absurd (apart (rw scheme at h))
        | inr web ↦
            elim (Bool-cases (is_allowed_target js deps found (identify_client deps input))) [
              | inr foreign ↦ absurd (apart (rw foreign at rw web at h))
              | inl fine ↦
                  let same : found ≡ url = cc (rw fine at rw web at h) in
                  subst
                    (λ u.
                      (some found ≡ some u)
                      × (((u.protocol == "https:") || (u.protocol == "http:")) ≡ true)
                      × MaySend (identify_client deps input) u)
                    same
                    (refl, ground arith, allowed-MaySend (identify_client deps input) found fine)
            ]
      ]
    where
      apart : none ≡ some url → ⊥
      apart k = cc

  -- A logout sends the browser only to the URL that was asked for, and only to a web page: for a
  -- client, which did not register itself, to an origin among its registered redirects; for nobody in
  -- particular, to https on a family host or a trusted origin; and nowhere where the hint is not ours
  -- or names another client.
  pub resolve_post_logout_redirect-MaySend :
      (input : LogoutRedirectInput) (url : Url)
      → resolve_post_logout_redirect js deps input ≡ some url
      → (uri : String) × (input.post_logout_redirect_uri ≡ some uri)
        × (js.parse_url uri ≡ some url)
        × (((url.protocol == "https:") || (url.protocol == "http:")) ≡ true)
        × MaySend (identify_client deps input) url
  unfolding resolve_post_logout_redirect redirect_to identify_client
  resolve_post_logout_redirect-MaySend input url h =
      elim (Option-cases input.post_logout_redirect_uri) [
        | inl absent ↦ absurd (apart (rw absent at h))
        | inr (uri, e) ↦ elim (Bool-cases (truthy uri)) [
          | inr empty ↦ absurd (apart (rw empty at rw e at h))
          | inl given ↦
              let (parsed, web, may) =
                parsed-MaySend input (js.parse_url uri) url (rw given at rw e at h) in
              (uri, e, parsed, web, may)
        ]
      ]
    where
      apart : none ≡ some url → ⊥
      apart k = cc
