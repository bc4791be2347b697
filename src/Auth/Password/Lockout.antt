-- ===== src/Auth/Password/Lockout.antt =====
-- What a miss locks, and that a locked account says nothing of its password.
use inite_auth_service.Common.{
  ℕ, String, Option, none, some, Bool, true, false, ◌≡◌, refl, ◌<◌, ◌+◌, ltb, leb, nat_eq,
  if◌then◌else◌, Bool-cases, inl, inr, arith, ap, ◌∙◌, truthy, update_where,
}
use inite_auth_service.Common.Effect.{Result, ok, err, ◌>>=◌, ◌>>◌}
use inite_auth_service.Redis.{Redis}
use inite_auth_service.Auth.{
  Account, SignIn, SecurityEvent, note, login_attempt, login_audit, account_lockout,
  account_by_email, account_by_id, has_account_id, has_email,
}
use inite_auth_service.Auth.Rows.{find-update, update_account-found}
use inite_auth_service.Auth.Password.{
  lockout_after, account_locked, invalid_credentials, locked_at, count_miss, mail_to,
  after_debounce, notify_account_locked, notify_failed_login_threshold, notify_lock, notify_miss,
  record_failed_login, check_password, login_unlocked, login_hash, login_found, login_with_password,
}

-- How long the lock is after so many misses in a row: none before the fifth, then a minute, five
-- minutes, a quarter of an hour, an hour, and a day from the ninth on.
abbrev pub lock_length : ℕ → Option ℕ
lock_length n =
    if leb 9 n
    then some 86400000
    else if leb 8 n
    then some 3600000
    else if leb 7 n
    then some 900000
    else if leb 6 n
    then some 300000
    else if leb 5 n
    then some 60000
    else none

lock_time : (now : ℕ) → Option ℕ → Option ℕ
lock_time now none = none
lock_time now (some ms) = some (now + ms)

lockout_after-length : (now next : ℕ) → lockout_after now next ≡ lock_time now (lock_length next)
unfolding lockout_after lock_time
lockout_after-length now next = ground arith

module _ {S : Type 0} (redis : Redis S) (iso : ℕ → String) where
  mail_to-accounts :
      (now : ℕ) (mail : String → SecurityEvent) (found : Option Account) (w : SignIn S)
      → (mail_to redis iso now mail found w).accounts ≡ w.accounts
  unfolding mail_to
  mail_to-accounts now mail none w = refl
  mail_to-accounts now mail (some a) w = address a.email
    where
      address :
          (e : Option String)
          → (elim e as (λ _. SignIn S) [
            | none ↦ w
            | some to ↦ if truthy to then (note (mail to) w).0 else w
          ]).accounts
            ≡ w.accounts
      address none = refl
      address (some to) = ground arith

  after_debounce-accounts :
      (now : ℕ) (mail : String → SecurityEvent) (user_id : String) (w : SignIn S) (out : S × Bool)
      → (after_debounce redis iso now mail user_id w out).accounts ≡ w.accounts
  unfolding after_debounce
  after_debounce-accounts now mail user_id w (server, false) = refl
  after_debounce-accounts now mail user_id w (server, true) =
      mail_to-accounts now mail (account_by_id user_id w.accounts) (record w { server = server })

  notify_account_locked-accounts :
      (now : ℕ) (user_id : String) (until : ℕ) (w : SignIn S)
      → (notify_account_locked redis iso now user_id until w).accounts ≡ w.accounts
  unfolding notify_account_locked
  notify_account_locked-accounts now user_id until w = after_debounce-accounts now _ user_id w _

  threshold-accounts :
      (now : ℕ) (user_id : String) (attempts : ℕ) (w : SignIn S)
      → (notify_failed_login_threshold redis iso now user_id attempts w).accounts ≡ w.accounts
  unfolding notify_failed_login_threshold
  threshold-accounts now user_id attempts w = after_debounce-accounts now _ user_id w _

  notify_lock-accounts :
      (now : ℕ) (user_id : String) (until : Option ℕ) (w : SignIn S)
      → (notify_lock redis iso now user_id until w).accounts ≡ w.accounts
  unfolding notify_lock
  notify_lock-accounts now user_id none w = refl
  notify_lock-accounts now user_id (some until) w =
      notify_account_locked-accounts now user_id until (note account_lockout w).0

  -- Notifications leave the accounts as they are, and never fail.
  notify_miss-accounts :
      (now : ℕ) (user_id : String) (next : ℕ) (w : SignIn S)
      → ((notify_miss redis iso now user_id next w).0.accounts ≡ w.accounts)
        × ((notify_miss redis iso now user_id next w).1 ≡ ok tt)
  unfolding notify_miss
  notify_miss-accounts now user_id next w = elim (Bool-cases (nat_eq next 3)) [
    | inl third ↦ rw third (
      threshold-accounts now user_id next
            (notify_lock redis iso now user_id (lockout_after now next) w)
          ∙ notify_lock-accounts now user_id (lockout_after now next) w,
      refl,
    )
    | inr other ↦ rw other (notify_lock-accounts now user_id (lockout_after now next) w, refl)
  ]

  -- A miss counts, and locks as the schedule says; nothing else of the accounts changes.
  record_failed_login-found :
      (now : ℕ) (a : Account) (count : ℕ) (w : SignIn S)
      → account_by_id a.id w.accounts ≡ some a
      → ((record_failed_login redis iso now a.id count w).0.accounts
          ≡ update_where (has_account_id a.id) (count_miss now (count + 1)) w.accounts)
        × ((record_failed_login redis iso now a.id count w).1 ≡ ok tt)
  unfolding record_failed_login
  record_failed_login-found now a count w h =
      let counted = update_account-found a.id (count_miss now (count + 1)) a w.accounts h in
      rw (counted, ◌>>=◌)
        (rw counted (
          notify_miss-accounts now a.id (count + 1) (record w {
            accounts = update_where (has_account_id a.id) (count_miss now (count + 1)) w.accounts;
          })))

  module _ (compare : String → String → Bool) (sign : Account → String) where
    abbrev pub login : ℕ → String → String → SignIn S → SignIn S × Result (Account × String)
    login now email password w = login_with_password redis iso now compare sign email password w

    check-missed :
        (now : ℕ) (a : Account) (hash password : String) (w : SignIn S)
        → compare password hash ≡ false
        → account_by_id a.id w.accounts ≡ some a
        → ((check_password redis iso now compare sign a hash password w).0.accounts
            ≡ update_where
                (has_account_id a.id)
                (count_miss now (a.failed_login_count + 1))
                w.accounts)
          × ((check_password redis iso now compare sign a hash password w).1
              ≡ err invalid_credentials)
    unfolding check_password
    check-missed now a hash password w wrong h =
        let (counted, fine) = record_failed_login-found now a a.failed_login_count (noted w) h in
        rw wrong (rw (fine, ◌>>◌, ◌>>=◌) (counted, refl))
      where
        noted : SignIn S → SignIn S
        noted v =
            (note (login_audit "auth.login.failed" a.did false)
              (note (login_attempt "invalid") v).0).0

    -- The account that the address leads to, with a hash.
    abbrev Reached : String → Account → String → SignIn S → Type 0
    Reached email a hash w =
        (account_by_email email w.accounts ≡ some a)
        × (a.password_hash ≡ some hash)
        × (truthy hash ≡ true)

    login-Reached :
        (now : ℕ) (email password : String) (a : Account) (hash : String) (w : SignIn S)
        → Reached email a hash w
        → login now email password w ≡ login_unlocked redis iso now compare sign a hash password w
    unfolding login_with_password login_found login_hash
    login-Reached now email password a hash w (found, hashed, filled) =
        rw (found, login_with_password) (rw hashed (rw filled refl))

    -- While an account is locked, every password gets the same answer: the login is refused, and only
    -- the attempt is counted.
    pub login-locked :
        (now : ℕ) (email password : String) (a : Account) (hash : String) (w : SignIn S)
        → account_by_email email w.accounts ≡ some a
        → a.password_hash ≡ some hash
        → truthy hash ≡ true
        → locked_at now a.lockout_until ≡ true
        → login now email password w ≡ ((note (login_attempt "locked") w).0, err account_locked)
    unfolding login_unlocked
    login-locked now email password a hash w found hashed filled locked =
        login-Reached now email password a hash w (found, hashed, filled) ∙ rw locked refl

    pub login-checked :
        (now : ℕ) (email password : String) (a : Account) (hash : String) (w : SignIn S)
        → Reached email a hash w
        → locked_at now a.lockout_until ≡ false
        → login now email password w ≡ check_password redis iso now compare sign a hash password w
    unfolding login_unlocked
    login-checked now email password a hash w reached unlocked =
        login-Reached now email password a hash w reached ∙ rw unlocked refl

    -- After a wrong password for an account that is not locked, whose id and address lead to one row,
    -- and whose misses then are five or more, every login to that address is refused until the time of
    -- the lock is over, the right password included: a minute after the fifth miss, a day from the
    -- ninth on.
    pub miss-locks :
        (now later ms : ℕ) (email password other : String) (a : Account) (hash : String)
        (w : SignIn S)
        → account_by_email email w.accounts ≡ some a
        → account_by_id a.id w.accounts ≡ some a
        → a.password_hash ≡ some hash
        → truthy hash ≡ true
        → locked_at now a.lockout_until ≡ false
        → compare password hash ≡ false
        → lock_length (a.failed_login_count + 1) ≡ some ms
        → later < now + ms
        → (login later email other (login now email password w).0).1 ≡ err account_locked
    unfolding lock_time
    miss-locks now later ms email password other a hash w found named hashed filled unlocked wrong
          length soon =
        let (counted, refused) = check-missed now a hash password w wrong named in
        let after : SignIn S = (login now email password w).0 in
        let accounts : after.accounts ≡ update_where (has_account_id a.id) as_missed w.accounts =
          ap (λ out. out.0.accounts)
            (login-checked now email password a hash w (found, hashed, filled) unlocked)
          ∙ counted in
        ap (λ out. out.1)
          (login-locked later email other (as_missed a) hash after
            (ap (account_by_email email) accounts
              ∙ find-update (has_account_id a.id) (has_email email) as_missed a w.accounts named
                  found refl)
            hashed filled (ap (locked_at later) until ∙ early))
      where
        as_missed : Account → Account
        as_missed = count_miss now (a.failed_login_count + 1)

        until : lockout_after now (a.failed_login_count + 1) ≡ some (now + ms)
        until = lockout_after-length now (a.failed_login_count + 1) ∙ rw length refl

        early : ltb later (now + ms) ≡ true
        early = ground arith
