-- ===== src/Auth/Reset/Once.antt =====
-- What a password reset does to the account that asked for it, and that its token is taken once.
use inite_auth_service.Common.{
  ℕ, String, List, [], ◌∷◌, Option, none, some, Bool, true, false, ◌≡◌, refl, ◌≤◌, ◌+◌, ◌*◌,
  Bool-cases, inl, inr, arith, find_first, update_where, select, not, eq_self, ap, ◌∙◌,
}
use inite_auth_service.Common.Effect.{Result, ok, err, bad_request, ◌>>=◌}
use inite_auth_service.Auth.{Account, has_account_id, account_by_id, account_by_email}
use inite_auth_service.Auth.Rows.{find-update, update_account-found}
use inite_auth_service.Auth.Reset.{
  has_reset_token, reset_over, with_reset, with_password, request_found, request_password_reset,
  set_password, reset_found, reset_password,
}

module _ {A : Type 0} (named found : A → Bool) (f : A → A) where
  apart : (y : A) → some y ≡ none → ⊥
  apart y e = cc

  -- A row that is updated to pass a test that no row passed is the one that is found under it.
  find-new :
      (a : A) (xs : List A)
      → find_first named xs ≡ some a
      → find_first found xs ≡ none
      → found (f a) ≡ true
      → find_first found (update_where named f xs) ≡ some (f a)
  find-new a [] h k new = cc
  find-new a (x ∷ xs) h k new = elim (Bool-cases (named x)) [
    | inl this ↦
        let same : x ≡ a = cc (rw this at h) in
        let still : found (f x) ≡ true = ap (λ y. found (f y)) same ∙ new in
        rw this (rw still (ap (λ y. some (f y)) same))
    | inr other ↦ elim (Bool-cases (found x)) [
      | inl hit ↦ absurd (apart x (rw hit at k))
      | inr miss ↦ rw other (rw miss (find-new a xs (rw other at h) (rw miss at k) new))
    ]
  ]

  -- A test that no row passed before two updates of the same rows, none of which the second leaves
  -- passing it, is passed by no row after them.
  find-cleared :
      (g : A → A) (xs : List A)
      → find_first found xs ≡ none
      → ((y : A) → named (f y) ≡ named y)
      → ((y : A) → found (g (f y)) ≡ false)
      → find_first found (update_where named g (update_where named f xs)) ≡ none
  find-cleared g [] h keeps clears = refl
  find-cleared g (x ∷ xs) h keeps clears = elim (Bool-cases (found x)) [
    | inl hit ↦ absurd (apart x (rw hit at h))
    | inr miss ↦ elim (Bool-cases (named x)) [
      | inl this ↦
          rw this
            (rw (keeps x ∙ this) (rw (clears x) (find-cleared g xs (rw miss at h) keeps clears)))
      | inr other ↦ rw other (rw other (rw miss (find-cleared g xs (rw miss at h) keeps clears)))
    ]
  ]

-- The rows that an update does not name stay as they were.
select-update :
    {A : Type 0} (named : A → Bool) (f : A → A) (xs : List A)
    → ((y : A) → named (f y) ≡ named y)
    → select (λ y. not (named y)) (update_where named f xs) ≡ select (λ y. not (named y)) xs
select-update named f [] keeps = refl
select-update named f (x ∷ xs) keeps = elim (Bool-cases (named x)) [
  | inl this ↦ rw this (rw (keeps x ∙ this) (select-update named f xs keeps))
  | inr other ↦ rw other (rw other (ap (λ ys. x ∷ ys) (select-update named f xs keeps)))
]

module _ (sha256 : String → String) (breached : String → Bool) (bcrypt : String → String)
    (sign : Account → String) where
  abbrev reset :
      ℕ → String → String → List Account → List Account × Result (Account × String × Option String)
  reset now token password accounts =
      reset_password sha256 now breached bcrypt sign token password accounts

  abbrev asked : ℕ → String → String → Option String → List Account → List Account
  asked now token email params accounts =
      (request_password_reset sha256 now token email params accounts).0

  -- The account with the new password, and with nothing left of the reset.
  abbrev changed : String → Account → Account
  changed password a = record a {
    password_hash = some (bcrypt password);
    reset_token = none;
    reset_expires = none;
    reset_params = none;
  }

  asked-found :
      (now : ℕ) (token email : String) (params : Option String) (a : Account)
      (accounts : List Account)
      → account_by_email email accounts ≡ some a
      → account_by_id a.id accounts ≡ some a
      → asked now token email params accounts
        ≡ update_where (has_account_id a.id) (with_reset sha256 now token params) accounts
  unfolding request_password_reset request_found
  asked-found now token email params a accounts found named =
      let request =
        update_account-found a.id (with_reset sha256 now token params) a accounts named in
      ap (λ o. (request_found sha256 now token params o accounts).0) found
      ∙ rw (request, ◌>>=◌) (rw request refl)

  reset-found :
      (now : ℕ) (token password : String) (b : Account) (accounts : List Account)
      → find_first (has_reset_token (sha256 token)) accounts ≡ some b
      → account_by_id b.id accounts ≡ some b
      → reset_over now b.reset_expires ≡ false
      → breached password ≡ false
      → reset now token password accounts ≡ (
        update_where
            (has_account_id b.id)
            (with_password sha256 now breached bcrypt sign password)
            accounts,
        ok (
          with_password sha256 now breached bcrypt sign password b,
          sign (with_password sha256 now breached bcrypt sign password b),
          b.reset_params,
        ),
      )
  unfolding reset_password reset_found set_password
  reset-found now token password b accounts held named timely safe =
      let stored =
        update_account-found b.id (with_password sha256 now breached bcrypt sign password) b
          accounts named in
      rw (held, reset_found) (rw timely (rw safe (rw (stored, ◌>>=◌) (rw stored refl))))

  reset-unknown :
      (now : ℕ) (token password : String) (accounts : List Account)
      → find_first (has_reset_token (sha256 token)) accounts ≡ none
      → (reset now token password accounts).1 ≡ err (bad_request "" "Invalid reset token")
  unfolding reset_password reset_found
  reset-unknown now token password accounts h = rw (h, reset_found) refl

  -- A reset within the hour after it was asked for by the address of an account, with the token that
  -- no account carried before and a password that is not breached, returns the account, a session token
  -- and the parameters; in the table that account then has the hash of the password and no reset, and
  -- the accounts of other ids are what they were; then the token is refused, at any time and for any
  -- password.
  pub reset_password-request :
      (now later last : ℕ) (token email password other : String) (params : Option String)
      (a : Account) (accounts : List Account)
      → account_by_email email accounts ≡ some a
      → account_by_id a.id accounts ≡ some a
      → find_first (has_reset_token (sha256 token)) accounts ≡ none
      → later ≤ now + 3600000
      → breached password ≡ false
      → ((reset later token password (asked now token email params accounts)).1
          ≡ ok (changed password a, sign (changed password a), params))
        × (account_by_id a.id (reset later token password (asked now token email params accounts)).0
            ≡ some (changed password a))
        × (select
              (λ b. not (has_account_id a.id b))
              (reset later token password (asked now token email params accounts)).0
            ≡ select (λ b. not (has_account_id a.id b)) accounts)
        × ((reset last token other
              (reset later token password (asked now token email params accounts)).0).1
            ≡ err (bad_request "" "Invalid reset token"))
  reset_password-request now later last token email password other params a accounts found named new
        soon safe =
      let by_token : find_first (has_reset_token (sha256 token))
            (update_where (has_account_id a.id) set accounts)
          ≡ some (set a) =
        find-new (has_account_id a.id) (has_reset_token (sha256 token)) set a accounts named new
          (eq_self (sha256 token)) in
      let by_id : account_by_id a.id (update_where (has_account_id a.id) set accounts)
          ≡ some (set a) =
        find-update (has_account_id a.id) (has_account_id a.id) set a accounts named named refl in
      let timely : reset_over later (some (now + 60 * 60 * 1000)) ≡ false = ground arith in
      rw (asked-found now token email params a accounts found named) (
        rw
          (reset-found later token password (set a)
            (update_where (has_account_id a.id) set accounts) by_token by_id timely safe)
          (
            refl,
            find-update (has_account_id a.id) (has_account_id a.id)
                (with_password sha256 later breached bcrypt sign password) (set a)
                (update_where (has_account_id a.id) set accounts) by_id by_id refl,
            select-update (has_account_id a.id)
                  (with_password sha256 later breached bcrypt sign password)
                  (update_where (has_account_id a.id) set accounts) (λ y. refl)
                ∙ select-update (has_account_id a.id) set accounts (λ y. refl),
            reset-unknown last token other _ (
                find-cleared (has_account_id a.id) (has_reset_token (sha256 token)) set
                  (with_password sha256 later breached bcrypt sign password) accounts new
                  (λ y. refl) (λ y. refl)),
          ))
    where
      set : Account → Account
      set = with_reset sha256 now token params
