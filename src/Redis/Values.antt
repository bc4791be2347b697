-- ===== src/Redis/Values.antt =====
-- A value that was stored as JSON is true in a test.
use inite_auth_service.Common.{true, ◌≡◌, refl, truthy, eq_false}
use inite_auth_service.Redis.{JsonOf, JsonLaws}

pub truthy-stringify :
    {A : Type 0} (json : JsonOf A) (a : A) → JsonLaws json a → truthy (json.stringify a) ≡ true
truthy-stringify json a laws = rw (eq_false (json.stringify a) "" laws.filled) refl
