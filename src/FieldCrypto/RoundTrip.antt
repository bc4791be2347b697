-- ===== src/FieldCrypto/RoundTrip.antt =====
-- What was encrypted under a key is recognised and decrypts to the same text.
use Prim.Native.String
use text.Mathlib.TextPositions.{starts_with-append}
use text.Mathlib.TextLemmas.{append_assoc}
use inite_auth_service.Common.{
  String, List, [], ◌∷◌, some, true, false, starts_with, ◌≡◌, refl, ap, sym, ◌∙◌,
}
use inite_auth_service.Common.Text.{split_on, join, has_char}
use inite_auth_service.Common.Text.Split.{split_on-dot, split_on-last}
use inite_auth_service.Common.Effect.{ok}
use inite_auth_service.FieldCrypto.{Aes, AesLaws, FieldCrypto, is_encrypted, encrypt, decrypt}

abbrev parts : String → String → String → List String
parts iv tag text = "v1" ∷ iv ∷ tag ∷ text ∷ []

split_on-parts :
    (iv tag text : String)
    → has_char b'.' iv ≡ false
    → has_char b'.' tag ≡ false
    → has_char b'.' text ≡ false
    → split_on b'.' (join "." (parts iv tag text)) ≡ parts iv tag text
split_on-parts iv tag text hi ht hx =
    split_on-dot "v1" _ refl
    ∙ ap (λ ps. "v1" ∷ ps)
        (split_on-dot iv _ hi
          ∙ ap (λ ps. iv ∷ ps)
              (split_on-dot tag _ ht ∙ ap (λ ps. tag ∷ ps) (split_on-last b'.' text hx)))

starts_with-parts :
    (rest : String) → starts_with (String.◌++◌ "v1" (String.◌++◌ "." rest)) "v1." ≡ true
starts_with-parts rest =
    ap (λ t. starts_with t "v1.") (sym (append_assoc "v1" "." rest)) ∙ starts_with-append "v1." rest

module _ (aes : Aes) (key iv text : String) (laws : AesLaws aes key iv text) where
  -- A keyed instance encrypts every text to an envelope, which it recognises and decrypts to the text.
  pub decrypt-encrypt :
      (self : FieldCrypto)
      → self.key ≡ some key
      → has_char b'.' iv ≡ false
      → (value : String) × (encrypt aes self iv text ≡ ok value)
        × (is_encrypted value ≡ true)
        × (decrypt aes self value ≡ ok text)
  unfolding encrypt decrypt is_encrypted
  decrypt-encrypt self keyed dotless = (value, rw (keyed, encrypt), marked, opened)
    where
      tag : String
      tag = (aes.seal key iv text).0

      body : String
      body = (aes.seal key iv text).1

      value : String
      value = join "." (parts iv tag body)

      split : split_on b'.' value ≡ parts iv tag body
      split = split_on-parts iv tag body dotless laws.dotless_tag laws.dotless_text

      marked : is_encrypted value ≡ true
      marked = rw (starts_with-parts _, split)

      opened : decrypt aes self value ≡ ok text
      opened = rw (marked, keyed, split, laws.unseal-seal)
