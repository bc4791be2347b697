-- ===== src/Grace/Replay.antt =====
-- A pair that was sealed comes back within its window, with what is left of its life, and no later.
use inite_auth_service.Common.{
  sym, ◌∙◌, ap, subst, ℕ, String, some, true, false, ◌≡◌, refl, arith, ◌+◌, ◌-◌, ◌/◌, ◌≤◌, ◌<◌,
  nat_eq, leb, ◌==◌, eq_self, eq_iff, not-true, not-both,
}
use inite_auth_service.Common.Text.{has_char}
use inite_auth_service.FieldCrypto.{Aes, AesLaws, FieldCrypto, is_encrypted}
use inite_auth_service.FieldCrypto.RoundTrip.{decrypt-encrypt}
use inite_auth_service.Store.{TokenRow}
use inite_auth_service.Grace.{
  IssuedTokens, Json, seal_replay, open_replay, keep_envelope, open_envelope, open_pair, life_left,
}

leb-true : (a b : ℕ) → a ≤ b → leb a b ≡ true
leb-true a b h = ground arith

leb-false : (a b : ℕ) → b < a → leb a b ≡ false
leb-false a b h = ground arith

nat_eq-zero : (n : ℕ) → 0 < n → nat_eq n 0 ≡ false
nat_eq-zero n h = ground arith

not_blank : (blob : String) → is_encrypted blob ≡ true → (blob == "") ≡ false
unfolding is_encrypted
not_blank blob marked = not-true (λ e.
    not-both (is_encrypted "") (subst (λ b. is_encrypted b ≡ true) ((eq_iff blob "").0 e) marked)
      blank)
  where
    blank : is_encrypted "" ≡ false
    blank = refl

module _ (aes : Aes) (json : Json) (crypto : FieldCrypto) (key iv id : String)
    (issued : IssuedTokens) (at window : ℕ) where
  abbrev pair_text : String
  pair_text = json.print (record { issued = issued; parent_id = id; issued_at = at })

  life_left-after :
      (now : ℕ)
      → at ≤ now
      → life_left issued.expires_in at now ≡ issued.expires_in - (now - at) / 1000
  unfolding life_left
  life_left-after now since = rw (leb-true at now since) refl

  kept-opens :
      AesLaws aes key iv pair_text
      → json.parse pair_text ≡ some (record { issued = issued; parent_id = id; issued_at = at })
      → crypto.key ≡ some key
      → has_char b'.' iv ≡ false
      → 0 < window
      → (blob : String) × (seal_replay aes json (some crypto) window iv at id issued
          ≡ some (blob, at + window))
        × ((token : TokenRow) (now : ℕ)
            → token.id ≡ id
            → token.grace_replay ≡ some blob
            → token.grace_replay_until ≡ some (at + window)
            → at ≤ now
            → now < at + window
            → open_replay aes json (some crypto) token now
              ≡ some (record issued { expires_in = issued.expires_in - (now - at) / 1000 }))
  unfolding seal_replay keep_envelope open_replay open_envelope open_pair
  kept-opens laws parses keyed dotless positive =
      let (blob, sealed, marked, opened) =
        decrypt-encrypt aes key iv pair_text laws crypto keyed dotless in
      (
        blob,
        rw (nat_eq-zero window positive, sealed) refl,
        λ token now named kept end since before.
            rw
              (
                kept,
                end,
                not_blank blob marked,
                leb-false (at + window) now before,
                marked,
                opened,
                parses,
              )
              (rw (named, eq_self id, life_left-after now since) refl),
      )

  -- A pair that was sealed under a key opens, on the row that it was sealed for and until its window
  -- ends, to the same pair, with the access token's life less the whole seconds that passed.
  pub open_replay-seal_replay :
      (blob : String) (end : ℕ) (token : TokenRow) (now : ℕ)
      → AesLaws aes key iv pair_text
      → json.parse pair_text ≡ some (record { issued = issued; parent_id = id; issued_at = at })
      → crypto.key ≡ some key
      → has_char b'.' iv ≡ false
      → 0 < window
      → seal_replay aes json (some crypto) window iv at id issued ≡ some (blob, end)
      → token.id ≡ id
      → token.grace_replay ≡ some blob
      → token.grace_replay_until ≡ some end
      → at ≤ now
      → now < end
      → open_replay aes json (some crypto) token now
        ≡ some (record issued { expires_in = issued.expires_in - (now - at) / 1000 })
  open_replay-seal_replay blob end token now laws parses keyed dotless positive sealed named kept
        until since before =
      let (text, sealed_too, opens) = kept-opens laws parses keyed dotless positive in
      let same : (text, at + window) ≡ (blob, end) = pair-inj (sym sealed_too ∙ sealed) in
      opens token now named (kept ∙ ap (λ k. some k.0) (sym same))
        (until ∙ ap (λ k. some k.1) (sym same)) since
        (subst (λ e. now < e) (ap (λ k. k.1) (sym same)) before)
    where
      pair-inj : {a b : String × ℕ} → some a ≡ some b → a ≡ b
      pair-inj h = cc
