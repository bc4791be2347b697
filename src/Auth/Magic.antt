-- ===== src/Auth/Magic.antt =====
-- src/auth/magic-link.service.ts: links that sign in by mail. The state is the table of links and that
-- of accounts; the token of a link, its id, and the id and DID of a new account are drawn. The OAuth
-- parameters ride along as a text.
pub mod Once
use inite_auth_service.Common.{
  ℕ, String, List, [], ◌∷◌, ◌++◌, Option, none, some, Bool, true, false, not, ◌&&◌, ◌||◌, ◌+◌, ◌*◌,
  ltb, ◌==◌, if◌then◌else◌, truthy, any, find_first, update_where, select, count_where, map,
}
use inite_auth_service.Common.Effect.{
  M, Result, pure, throw, ◌>>=◌, ◌>>◌, ok, err, bad_request, internal,
}
use inite_auth_service.Auth.{
  Account, account_by_id, account_by_email, update_account, create_identity, with_verified_email,
}

pub record MagicLink : Type 0 where
  pub id : String
  pub token : String
  pub email : String
  pub user_id : Option String
  pub purpose : String
  pub expires_at : ℕ
  pub used : Bool
  pub oauth_params : Option String

pub record Mailbox : Type 0 where
  pub links : List MagicLink
  pub accounts : List Account

abbrev pub has_token : String → MagicLink → Bool
has_token token link = link.token == token

abbrev pub has_link_id : String → MagicLink → Bool
has_link_id id link = link.id == id

abbrev pub unused : String → MagicLink → Bool
unused token link = has_token token link && not link.used

abbrev pub use_link : MagicLink → MagicLink
use_link link = record link { used = true }

abbrev id_of : Option Account → Option String
id_of none = none
id_of (some a) = some a.id

module _ (now : ℕ) where
  abbrev new_link :
      (id token : String) → String → Option Account → String → Option String → MagicLink
  new_link id token email user purpose params = record {
    id = id;
    token = token;
    email = email;
    user_id = id_of user;
    purpose = purpose;
    expires_at = now + 15 * 60 * 1000;
    used = false;
    oauth_params = params;
  }

  -- `params` are those of a request with a client, else none.
  unfoldable pub generate_magic_link :
      (id token : String) → String → String → Option String → M Mailbox String
  generate_magic_link id token email purpose params box =
      if any (λ link. has_token token link || has_link_id id link) box.links
      then (box, err (internal "P2002"))
      else (
        record box {
          links =
              box.links
              ++ new_link id token email (account_by_email email box.accounts) purpose params ∷ [];
        },
        ok token,
      )

  module _ (new_id did : String) where
    read_account : String → M (List Account) (Account × Bool)
    read_account id accounts = elim (account_by_id id accounts) [
      | none ↦ (accounts, err (bad_request "" "User not found"))
      | some a ↦ (accounts, ok (a, false))
    ]

    -- The account of a link, and whether it is new.
    link_account : String → Option String → M (List Account) (Account × Bool)
    unfolding read_account
    link_account email none = do a ← create_identity new_id did email; pure (a, true)
    link_account email (some id) = read_account id

    verify_account : Account × Bool → M (List Account) (Account × Bool)
    verify_account (a, is_new) =
        if not a.email_verified
        then (do b ← update_account a.id with_verified_email; pure (b, is_new))
        else pure (a, is_new)

    sign_in_account : MagicLink → M (List Account) (Account × Bool)
    unfolding link_account verify_account
    sign_in_account link = do found ← link_account link.email link.user_id; verify_account found

    with_params : Option String → Result (Account × Bool) → Result (Account × Bool × Option String)
    with_params params (err e) = err e
    with_params params (ok (a, is_new)) = ok (a, is_new, params)

    redeem_link : MagicLink → M Mailbox (Account × Bool × Option String)
    unfolding sign_in_account with_params
    redeem_link link box = (
      record {
        links = update_where (has_link_id link.id) use_link box.links;
        accounts = (sign_in_account link box.accounts).0;
      },
      with_params link.oauth_params (sign_in_account link box.accounts).1,
    )

    verify_link : Option MagicLink → M Mailbox (Account × Bool × Option String)
    unfolding redeem_link
    verify_link none = throw (bad_request "" "Invalid or expired magic link")
    verify_link (some link) =
        if ltb link.expires_at now
        then throw (bad_request "" "Magic link expired")
        else redeem_link link

    unfoldable pub verify_magic_link : String → M Mailbox (Account × Bool × Option String)
    unfolding verify_link
    verify_magic_link token box = verify_link (find_first (unused token) box.links) box

  -- `cleanupExpired`, hourly: how many links it deletes.
  unfoldable pub cleanup_expired_links : M Mailbox ℕ
  cleanup_expired_links box = (
    record box { links = select (λ link. not (ltb link.expires_at now)) box.links },
    ok (count_where (λ link. ltb link.expires_at now) box.links),
  )
