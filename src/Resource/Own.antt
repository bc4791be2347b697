-- ===== src/Resource/Own.antt =====
-- A client's own resources as a relation, and that the code decides it.

use inite_auth_service.Common.{
  String, [], some, true, ◌&&◌, or_else, includes, ◌==◌, ◌≡◌, ◌↔◌, ◌⊎◌, inl, inr, arith, eq_iff,
  Bool-cases, Option-cases,
}
use inite_auth_service.Common.Sets.{any_sound, any_complete}
use inite_auth_service.Resource.{
  Url, Runtime, ResourceBoundClient, own_origin, own_url, is_own_resource,
}
use inite_auth_service.Resource.Registered.{IsPlain}

module _ (js : Runtime) where
  -- The client itself, or an https URL on the origin of one of its https redirect URIs.
  abbrev pub Own : ResourceBoundClient → String → Type 0
  Own client resource =
      (resource ≡ client.client_id)
      ⊎ ((url : Url) × (js.parse_url resource ≡ some url)
          × (url.protocol ≡ "https:")
          × IsPlain js resource url
          × (uri : String) × (own : Url) × (includes (or_else client.redirect_uris []) uri ≡ true)
          × (js.parse_url uri ≡ some own)
          × (own.protocol ≡ "https:")
          × (own.origin ≡ url.origin))

  own_origin_sound :
      (origin uri : String)
      → own_origin js origin uri ≡ true
      → (own : Url) × (js.parse_url uri ≡ some own)
        × (own.protocol ≡ "https:")
        × (own.origin ≡ origin)
  unfolding own_origin
  own_origin_sound origin uri h = elim (Option-cases (js.parse_url uri)) [
    | inl e ↦ cc (rw (e, own_origin) at h)
    | inr (own, e) ↦
        let passes : (own.protocol == "https:" && own.origin == origin) ≡ true =
          rw (e, own_origin) at h in
        (
          own,
          e,
          ground (arith, eq_iff own.protocol "https:"),
          ground (arith, eq_iff own.origin origin),
        )
  ]

  pub is_own_resource_iff :
      (client : ResourceBoundClient) (resource : String)
      → (is_own_resource js client resource ≡ true) ↔ Own client resource
  unfolding is_own_resource
  is_own_resource_iff client resource = (sound, complete)
    where
      sound : is_own_resource js client resource ≡ true → Own client resource
      sound h = elim (Bool-cases (resource == client.client_id)) [
        | inl e ↦ inl ((eq_iff resource client.client_id).0 e)
        | inr e ↦ elim (Option-cases (js.parse_url resource)) [
          | inl f ↦ cc (rw (e, f, is_own_resource) at h)
          | inr (url, f) ↦
              let passes : own_url js client resource url ≡ true =
                rw (e, f, is_own_resource) at h in
              let (uri, member, own) =
                any_sound (own_origin js url.origin) (or_else client.redirect_uris [])
                  (ground arith) in
              let (other, parsed, https, same) = own_origin_sound url.origin uri own in
              inr (
                url,
                f,
                ground (arith, eq_iff url.protocol "https:"),
                ground (arith, eq_iff url.hash "", eq_iff url.username "", eq_iff url.password ""),
                uri,
                other,
                member,
                parsed,
                https,
                same,
              )
        ]
      ]

      complete : Own client resource → is_own_resource js client resource ≡ true
      complete (inl e) = ground (arith, eq_iff resource client.client_id)
      complete (inr (url, f, https, plain, uri, own, member, parsed, own_https, same)) =
          let origin : own_origin js url.origin uri ≡ true =
            ground (arith, eq_iff own.protocol "https:", eq_iff own.origin url.origin) in
          let found =
            any_complete (own_origin js url.origin) (or_else client.redirect_uris []) uri member
              origin in
          ground (
            arith,
            eq_iff url.protocol "https:",
            eq_iff url.hash "",
            eq_iff url.username "",
            eq_iff url.password "",
            found,
          )
