-- ===== src/Resource/Registered.antt =====
-- The registered resources as a relation, and that the code decides it.
use Prim.Native.String
use inite_auth_service.Common.{
  String, some, Bool, true, false, ◌||◌, includes, ◌==◌, any, ◌≡◌, ◌↔◌, ◌⊎◌, inl, inr, arith,
  eq_iff, Bool-cases, Option-cases,
}
use inite_auth_service.Common.Text.{has_char, ends_with, strip_last}
use inite_auth_service.Common.Text.Suffix.{EndsWith, ends_with_sound, ends_with-append}
use inite_auth_service.Common.Sets.{any_sound, any_complete}
use inite_auth_service.Resource.{
  Url, Runtime, family_domains, extra_entries, on_family_host, registered_url,
  is_registered_resource,
}

module _ (js : Runtime) where
  -- The host is a family domain, or a name below one.
  abbrev pub OnFamily : Url → Type 0
  OnFamily url =
      (d : String) × (includes family_domains d ≡ true)
      × ((js.lower url.hostname ≡ d) ⊎ EndsWith (js.lower url.hostname) (String.◌++◌ "." d))

  -- No fragment and no userinfo.
  abbrev pub IsPlain : String → Url → Type 0
  IsPlain resource url =
      (url.hash ≡ "") × (has_char b'#' resource ≡ false) × (url.username ≡ "") × (url.password ≡ "")

  abbrev pub Registered : String → String → Type 0
  Registered env resource =
      (url : Url) × (js.parse_url resource ≡ some url)
      × IsPlain resource url
      × (((includes (extra_entries env) (strip_last b'/' resource)
              || includes (extra_entries env) url.origin)
            ≡ true)
          ⊎ ((url.protocol ≡ "https:") × (url.port ≡ "") × OnFamily url))

  on_family_host_iff : (url : Url) → (on_family_host js url ≡ true) ↔ OnFamily url
  unfolding on_family_host
  on_family_host_iff url = (sound, complete)
    where
      test : String → Bool
      test d = js.lower url.hostname == d || ends_with (js.lower url.hostname) (String.◌++◌ "." d)

      sound : any test family_domains ≡ true → OnFamily url
      sound h =
          let (d, member, passes) = any_sound test family_domains h in
          elim (Bool-cases (js.lower url.hostname == d)) [
            | inl e ↦ (d, member, inl ((eq_iff (js.lower url.hostname) d).0 e))
            | inr e ↦ (d, member, inr (ends_with_sound _ (String.◌++◌ "." d) (ground arith)))
          ]

      complete : OnFamily url → any test family_domains ≡ true
      complete (d, member, inl e) =
          any_complete test family_domains d member
            (ground (arith, eq_iff (js.lower url.hostname) d))
      complete (d, member, inr (p, e)) =
          any_complete test family_domains d member
            (ground (arith, ends_with-append p (String.◌++◌ "." d)))

  abbrev pub listed : String → String → Url → Bool
  listed env resource url =
      includes (extra_entries env) (strip_last b'/' resource)
      || includes (extra_entries env) url.origin

  abbrev Accepted : String → String → Url → Type 0
  Accepted env resource url =
      IsPlain resource url
      × ((listed env resource url ≡ true)
          ⊎ ((url.protocol ≡ "https:") × (url.port ≡ "") × OnFamily url))

  registered_url_sound :
      (env resource : String) (url : Url)
      → registered_url js env resource url ≡ true
      → Accepted env resource url
  unfolding registered_url
  registered_url_sound env resource url h = (
    ground (arith, eq_iff url.hash "", eq_iff url.username "", eq_iff url.password ""),
    elim (Bool-cases (listed env resource url)) [
      | inl e ↦ inl e
      | inr e ↦ inr (
        ground (arith, eq_iff url.protocol "https:"),
        ground (arith, eq_iff url.port ""),
        (on_family_host_iff url).0 (ground arith),
      )
    ],
  )

  registered_url_complete :
      (env resource : String) (url : Url)
      → Accepted env resource url
      → registered_url js env resource url ≡ true
  unfolding registered_url
  registered_url_complete env resource url (p, inl e) =
      ground (arith, eq_iff url.hash "", eq_iff url.username "", eq_iff url.password "")
  registered_url_complete env resource url (p, inr (https, port, family)) = ground (
    arith,
    eq_iff url.hash "",
    eq_iff url.username "",
    eq_iff url.password "",
    eq_iff url.protocol "https:",
    eq_iff url.port "",
    (on_family_host_iff url).1 family,
  )

  pub is_registered_resource_iff :
      (env resource : String)
      → (is_registered_resource js env resource ≡ true) ↔ Registered env resource
  unfolding is_registered_resource
  is_registered_resource_iff env resource = (sound, complete)
    where
      sound : is_registered_resource js env resource ≡ true → Registered env resource
      sound h = elim (Option-cases (js.parse_url resource)) [
        | inl e ↦ cc (rw (e, is_registered_resource) at h)
        | inr (url, e) ↦
            let (plain, host) =
              registered_url_sound env resource url (rw (e, is_registered_resource) at h) in
            (url, e, plain, host)
      ]

      complete : Registered env resource → is_registered_resource js env resource ≡ true
      complete (url, e, plain, host) =
          rw (e, is_registered_resource) (registered_url_complete env resource url (plain, host))
