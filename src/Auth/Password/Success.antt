-- ===== src/Auth/Password/Success.antt =====
-- That the right password signs in again once a lock is over.
use inite_auth_service.Common.{
  ℕ, String, Option, none, some, Bool, true, false, ◌≡◌, refl, ◌||◌, ltb, Bool-cases, inl, inr,
  arith, truthy, is_some,
}
use inite_auth_service.Common.Effect.{ok, ◌>>=◌, ◌>>◌}
use inite_auth_service.Redis.{Redis}
use inite_auth_service.Auth.{
  Account, SignIn, account_by_email, account_by_id, has_account_id, has_email,
}
use inite_auth_service.Auth.Rows.{find-update, update_account-found}
use inite_auth_service.Auth.Password.{locked_at, cleared, reset_count, check_password}
use inite_auth_service.Auth.Password.Lockout.{login, login-checked}

module _ {S : Type 0} (redis : Redis S) (iso : ℕ → String) (compare : String → String → Bool)
    (sign : Account → String) where
  -- The account behind the address has no misses and no lock.
  abbrev Clean : String → SignIn S → Type 0
  Clean email w =
      (b : Account) × (account_by_email email w.accounts ≡ some b)
      × (b.failed_login_count ≡ 0)
      × (b.lockout_until ≡ none)

  reset_count-Clean :
      (now : ℕ) (email : String) (a : Account) (w : SignIn S)
      → account_by_email email w.accounts ≡ some a
      → account_by_id a.id w.accounts ≡ some a
      → ((reset_count redis iso now compare sign a w).1 ≡ ok tt)
        × Clean email (reset_count redis iso now compare sign a w).0
  unfolding reset_count
  reset_count-Clean now email a w found named =
      elim (Bool-cases (ltb 0 a.failed_login_count || is_some a.lockout_until)) [
        | inl stale ↦
            let reset = update_account-found a.id cleared a w.accounts named in
            rw (stale, ◌>>=◌)
              (rw (reset, ◌>>=◌)
                (rw reset (
                  refl,
                  (
                    cleared a,
                    find-update (has_account_id a.id) (has_email email) cleared a w.accounts named
                        found refl,
                    refl,
                    refl,
                  ),
                )))
        | inr fresh ↦
            rw fresh (refl, (a, found, ground arith, no_lock a.lockout_until (ground arith)))
      ]
    where
      no_lock : (o : Option ℕ) → is_some o ≡ false → o ≡ none
      no_lock none h = refl
      no_lock (some until) h = cc

  -- The right password signs in to an account whose lock, if any, is over, and whose id and address
  -- lead to one row; its misses and its lock are cleared then.
  pub login-right :
      (now : ℕ) (email password : String) (a : Account) (hash : String) (w : SignIn S)
      → account_by_email email w.accounts ≡ some a
      → account_by_id a.id w.accounts ≡ some a
      → a.password_hash ≡ some hash
      → truthy hash ≡ true
      → locked_at now a.lockout_until ≡ false
      → compare password hash ≡ true
      → ((login redis iso compare sign now email password w).1 ≡ ok (a, sign a))
        × Clean email (login redis iso compare sign now email password w).0
  unfolding check_password
  login-right now email password a hash w found named hashed filled unlocked right =
      let (fine, clean) = reset_count-Clean now email a w found named in
      rw
        (login-checked redis iso compare sign now email password a hash w (found, hashed, filled)
          unlocked)
        (rw right (rw (fine, ◌>>◌, ◌>>=◌) (refl, clean)))
