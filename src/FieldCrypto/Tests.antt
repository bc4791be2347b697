-- ===== src/FieldCrypto/Tests.antt =====
-- The round trip at a toy cipher, which leaves the text as it is and takes the key for the tag.
use inite_auth_service.Common.{String, none, some, true, if◌then◌else◌, ◌==◌, ◌≡◌, refl}
use inite_auth_service.Common.Effect.{ok}
use inite_auth_service.FieldCrypto.{Aes, AesLaws, FieldCrypto, encrypt, decrypt, is_encrypted}
use inite_auth_service.FieldCrypto.RoundTrip.{decrypt-encrypt}

abbrev toy : Aes
toy = record {
  seal = λ key iv text. (key, text);
  unseal = λ key iv tag text. if tag == key then some text else none;
}

abbrev keyed : FieldCrypto
keyed = record { key = some "k1" }

toy-AesLaws : AesLaws toy "k1" "iv" "secret"
toy-AesLaws = record { unseal-seal = refl; dotless_tag = refl; dotless_text = refl }

decrypt-encrypt_example :
    (value : String) × (encrypt toy keyed "iv" "secret" ≡ ok value)
    × (is_encrypted value ≡ true)
    × (decrypt toy keyed value ≡ ok "secret")
decrypt-encrypt_example = decrypt-encrypt toy "k1" "iv" "secret" toy-AesLaws keyed refl refl
