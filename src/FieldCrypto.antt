-- ===== src/FieldCrypto.antt =====
-- src/common/field-crypto.ts: the envelope `v1.<iv>.<tag>.<ciphertext>` of an encrypted field.
-- AES-256-GCM and base64url are the runtime's: `Aes` takes and gives base64url texts, and the random
-- IV is an argument. The key is what `fromEnv` derived, or none where FIELD_ENCRYPTION_KEY is not set.
pub mod RoundTrip
mod Tests
use Prim.Native.String
use inite_auth_service.Common.{
  String, List, [], ◌∷◌, Option, none, some, Bool, true, false, ◌&&◌, starts_with, length, nat_eq,
  if◌then◌else◌, ◌≡◌,
}
use inite_auth_service.Common.Text.{split_on, join, has_char}
use inite_auth_service.Common.Effect.{Fault, internal, Result, ok, err}

-- AES-256-GCM: `seal key iv plaintext` is the tag and the ciphertext; `unseal` checks the tag.
pub record Aes : Type 0 where
  pub seal : String → String → String → String × String
  pub unseal : String → String → String → String → Option String

-- What is relied on: what is sealed opens again under its key, and base64url has no full stop.
pub record AesLaws (aes : Aes) (key iv text : String) : Type 0 where
  pub unseal-seal : aes.unseal key iv (aes.seal key iv text).0 (aes.seal key iv text).1 ≡ some text
  pub dotless_tag : has_char b'.' (aes.seal key iv text).0 ≡ false
  pub dotless_text : has_char b'.' (aes.seal key iv text).1 ≡ false

pub record FieldCrypto : Type 0 where
  pub key : Option String

abbrev no_key : Fault
no_key = internal "FIELD_ENCRYPTION_KEY is not configured"

unfoldable pub is_encrypted : String → Bool
is_encrypted value = starts_with value "v1." && nat_eq (length (split_on b'.' value)) 4

module _ (aes : Aes) where
  unfoldable pub encrypt : FieldCrypto → String → String → Result String
  encrypt self iv plaintext = elim self.key [
    | none ↦ err no_key
    | some key ↦
        let sealed : String × String = aes.seal key iv plaintext in
        ok (join "." ("v1" ∷ iv ∷ sealed.0 ∷ sealed.1 ∷ []))
  ]

  open_parts : String → List String → Result String
  open_parts key (version ∷ iv ∷ tag ∷ text ∷ []) = elim (aes.unseal key iv tag text) [
    | none ↦ err (internal "Unsupported state or unable to authenticate data")
    | some plaintext ↦ ok plaintext
  ]
  open_parts key _ = err (internal "Invalid initialization vector")

  -- A value that is no envelope is passed through.
  unfoldable pub decrypt : FieldCrypto → String → Result String
  unfolding open_parts
  decrypt self value =
      if is_encrypted value
      then elim self.key [ none ↦ err no_key | some key ↦ open_parts key (split_on b'.' value) ]
      else ok value
