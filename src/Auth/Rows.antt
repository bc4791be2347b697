-- ===== src/Auth/Rows.antt =====
-- A row that is found both by its id and under another test, after an update of the row with its id.
use inite_auth_service.Common.{
  String, List, [], ◌∷◌, some, Bool, true, ◌≡◌, refl, sym, ap, ◌∙◌, update_where, find_first,
  Bool-cases, inl, inr, not-both, find_first-passes,
}
use inite_auth_service.Common.Effect.{ok}
use inite_auth_service.Auth.{Account, has_account_id, account_by_id, update_account}

module _ {ℓ} {A : Type ℓ} (named found : A → Bool) (f : A → A) (a : A) where
  -- The update reaches the found row, where the row is the one that is named.
  pub find-update :
      (xs : List A)
      → find_first named xs ≡ some a
      → find_first found xs ≡ some a
      → found (f a) ≡ found a
      → find_first found (update_where named f xs) ≡ some (f a)
  find-update [] h k keeps = cc
  find-update (x ∷ xs) h k keeps = elim (Bool-cases (named x)) [
    | inl this ↦
        let same : x ≡ a = cc (rw this at h) in
        elim (Bool-cases (found x)) [
          | inl hit ↦
              let still : found (f x) ≡ true = cc in rw this (rw still (ap (λ y. some (f y)) same))
          | inr miss ↦ absurd (
              not-both (found a) (find_first-passes found (x ∷ xs) a k)
                (ap found (sym same) ∙ miss))
        ]
    | inr other ↦ elim (Bool-cases (found x)) [
      | inl hit ↦
          let same : x ≡ a = cc (rw hit at k) in
          absurd (
            not-both (named a) (find_first-passes named (x ∷ xs) a h) (ap named (sym same) ∙ other))
      | inr miss ↦ rw other (rw miss (find-update xs (rw other at h) (rw miss at k) keeps))
    ]
  ]

-- `user.update` of a row that is there.
pub update_account-found :
    (id : String) (f : Account → Account) (a : Account) (accounts : List Account)
    → account_by_id id accounts ≡ some a
    → update_account id f accounts ≡ (update_where (has_account_id id) f accounts, ok (f a))
unfolding update_account
update_account-found id f a accounts h = rw (h, update_account) refl
