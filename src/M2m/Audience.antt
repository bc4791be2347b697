-- ===== src/M2m/Audience.antt =====
-- The audience and the scopes of a machine's token stay within what its client was given.
use inite_auth_service.Common.{String, List, some, Bool, not, ◌&&◌, ◌||◌, ◌==◌, includes}
use inite_auth_service.Scopes.{is_dynamic_client_id}
use inite_auth_service.Resource.{Runtime, is_empty, is_registered_resource}
use inite_auth_service.M2m.{MachineClient}

-- The audiences of a client: those of its list; without a list its own id, and, for a client that
-- registered itself, the registered resources only.
abbrev pub targets : Runtime → String → MachineClient → List String → String → Bool
targets js env client allowed a =
    includes allowed a
    || (is_empty allowed
        && (a == client.client_id
            || not (is_dynamic_client_id (some client.client_id))
            || is_registered_resource js env a))
