-- ===== src/Resource/Laws.antt =====
-- The resource rule as a relation, and that the code decides it.

use inite_auth_service.Common.{
  String, List, [], ◌∷◌, some, true, false, or_else, includes, ◌≡◌, refl, ◌↔◌, ◌⊎◌, inl, inr,
  eq_iff, Bool-cases, ◌≢◌, starts_with, not-true,
}
use inite_auth_service.Scopes.{is_dynamic_client_id}
use inite_auth_service.Resource.{
  Url, Runtime, ResourceBoundClient, needs_registered_resource, allowed_by, is_resource_allowed,
}
use inite_auth_service.Resource.Registered.{
  OnFamily, IsPlain, Registered, listed, is_registered_resource_iff,
}
use inite_auth_service.Resource.Own.{Own, is_own_resource_iff}

module _ (js : Runtime) where
  -- The rule, for the client's list: a client with a list is held to it; without one, a dynamically
  -- registered or public client is held to the registered resources, and any other to its own.
  abbrev pub MayBindBy : String → ResourceBoundClient → List String → String → Type 0
  MayBindBy env client list resource =
      ((list ≢ []) × (includes list resource ≡ true))
      ⊎ ((list ≡ []) × (needs_registered_resource client ≡ true) × Registered js env resource)
      ⊎ ((list ≡ []) × (needs_registered_resource client ≡ false) × Own js client resource)

  abbrev pub MayBind : String → ResourceBoundClient → String → Type 0
  MayBind env client resource = MayBindBy env client (or_else client.allowed_audiences []) resource

  allowed_by_iff :
      (env : String) (client : ResourceBoundClient) (list : List String) (resource : String)
      → (allowed_by js env client list resource ≡ true) ↔ MayBindBy env client list resource
  unfolding allowed_by
  allowed_by_iff env client [] resource = (sound, complete)
    where
      sound : allowed_by js env client [] resource ≡ true → MayBindBy env client [] resource
      sound h = elim (Bool-cases (needs_registered_resource client)) [
        | inl e ↦ inr (
            inl (refl, e, (is_registered_resource_iff js env resource).0 (rw (e, allowed_by) at h)))
        | inr e ↦
            inr
              (inr (refl, e, (is_own_resource_iff js client resource).0 (rw (e, allowed_by) at h)))
      ]

      complete : MayBindBy env client [] resource → allowed_by js env client [] resource ≡ true
      complete (inl (nonempty, _)) = absurd (nonempty refl)
      complete (inr (inl (_, e, r))) =
          rw (e, allowed_by) ((is_registered_resource_iff js env resource).1 r)
      complete (inr (inr (_, e, o))) =
          rw (e, allowed_by) ((is_own_resource_iff js client resource).1 o)
  allowed_by_iff env client (a ∷ list) resource = (λ h. inl ((λ e. cc), h), complete)
    where
      complete :
          MayBindBy env client (a ∷ list) resource
          → allowed_by js env client (a ∷ list) resource ≡ true
      complete (inl (_, h)) = h
      complete (inr (inl (e, _, _))) = cc
      complete (inr (inr (e, _, _))) = cc

  -- For a named resource, the code lets a client bind a token to it exactly when the rule does.
  pub is_resource_allowed_iff :
      (env : String) (client : ResourceBoundClient) (resource : String)
      → resource ≢ ""
      → (is_resource_allowed js env client (some resource) ≡ true) ↔ MayBind env client resource
  unfolding is_resource_allowed
  is_resource_allowed_iff env client resource named =
      rw (not-true (λ e. named ((eq_iff resource "").0 e)))
        (allowed_by_iff env client (or_else client.allowed_audiences []) resource)

  -- A dynamically registered client without a list of its own that may bind to a resource outside
  -- OAUTH_RESOURCE_REGISTRY binds to an https URL on a family host, with no port, userinfo or fragment.
  pub dynamic_client_resource :
      (env : String) (client : ResourceBoundClient) (resource : String)
      → resource ≢ ""
      → or_else client.allowed_audiences [] ≡ []
      → starts_with client.client_id "dcr_" ≡ true
      → is_resource_allowed js env client (some resource) ≡ true
      → (url : Url) × (js.parse_url resource ≡ some url)
        × IsPlain js resource url
        × ((listed js env resource url ≡ true)
            ⊎ ((url.protocol ≡ "https:") × (url.port ≡ "") × OnFamily js url))
  unfolding needs_registered_resource is_dynamic_client_id
  dynamic_client_resource env client resource named empty dynamic allowed =
      elim ((is_resource_allowed_iff env client resource named).0 allowed) [
        | inl (nonempty, _) ↦ absurd (nonempty empty)
        | inr (inl (_, _, registered)) ↦ registered
        | inr (inr (_, unneeded, _)) ↦ cc (rw (empty, dynamic) at unneeded)
      ]
