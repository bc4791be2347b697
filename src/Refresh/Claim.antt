-- ===== src/Refresh/Claim.antt =====
-- The issuing transaction of a rotation: the claim, the erasure on the parent and the insert.
use inite_auth_service.Common.{
  nat_eq-false, ℕ, String, List, [], ◌∷◌, ◌++◌, Option, none, some, true, false, ◌≡◌, ◌≢◌, inl, inr,
  refl, arith, any, count_where, update_where, Bool-cases, sym, ◌∙◌, ◌<◌, subst, not-true,
}
use inite_auth_service.Common.Effect.{ok, err, gate_refused}
use inite_auth_service.Store.{TokenRow, Db, has_id, clashes, update_tokens}
use inite_auth_service.Grace.{
  IssuedTokens, Kept, erased, kept_pairs_in, revoke_at, claim_rotation, with_kept, erase_parent,
}
use inite_auth_service.Refresh.{is_child_of, touch}
use inite_auth_service.Refresh.Chain.{
  IsSettling, IsChained, is_live, count-update, any_id-update, any_live-update, update-IsChained,
  append-IsChained,
}

-- The rotated row, with the pair that is kept on it.
abbrev pub spent : ℕ → Kept → TokenRow → TokenRow
spent now kept r = with_kept kept (revoke_at now r)

pub erased-IsSettling : IsSettling erased
erased-IsSettling = record {
  same_id = λ r. refl;
  same_parent = λ r. refl;
  stays_revoked = λ r h. h;
  keeps = λ r k h. cc;
}

pub touch-IsSettling : (now : ℕ) → IsSettling (touch now)
touch-IsSettling now = record {
  same_id = λ r. refl;
  same_parent = λ r. refl;
  stays_revoked = λ r h. h;
  keeps = λ r k h. k h;
}

pub revoke_at-IsSettling : (now : ℕ) → IsSettling (revoke_at now)
revoke_at-IsSettling now = record {
  same_id = λ r. refl;
  same_parent = λ r. refl;
  stays_revoked = λ r h. refl;
  keeps = λ r k h. refl;
}

spent-IsSettling : (now : ℕ) (kept : Kept) → IsSettling (spent now kept)
spent-IsSettling now none = revoke_at-IsSettling now
spent-IsSettling now (some (blob, end)) = record {
  same_id = λ r. refl;
  same_parent = λ r. refl;
  stays_revoked = λ r h. refl;
  keeps = λ r k h. refl;
}

abbrev pub erase_on : Option String → List TokenRow → List TokenRow
erase_on none rows = rows
erase_on (some parent) rows = update_where (kept_pairs_in (has_id parent)) erased rows

-- The table after a claim that was won.
abbrev pub claimed_rows : ℕ → TokenRow → Kept → List TokenRow → List TokenRow
claimed_rows now token kept rows =
    erase_on token.rotated_from (update_where (is_live token.id) (spent now kept) rows)

erase_on-IsChained :
    (parent : Option String) (rows : List TokenRow)
    → IsChained rows
    → IsChained (erase_on parent rows)
erase_on-IsChained none rows c = c
erase_on-IsChained (some parent) rows c = update-IsChained _ erased erased-IsSettling rows c

erase_on-count :
    (parent : Option String) (id : String) (rows : List TokenRow)
    → count_where (is_child_of id) (erase_on parent rows) ≡ count_where (is_child_of id) rows
erase_on-count none id rows = refl
erase_on-count (some parent) id rows = count-update _ erased erased-IsSettling id rows

erase_on-any_id :
    (parent : Option String) (id : String) (rows : List TokenRow)
    → any (has_id id) (erase_on parent rows) ≡ any (has_id id) rows
erase_on-any_id none id rows = refl
erase_on-any_id (some parent) id rows = any_id-update _ erased erased-IsSettling id rows

erase_on-any_live :
    (parent : Option String) (id : String) (rows : List TokenRow)
    → any (is_live id) (erase_on parent rows) ≡ true
    → any (is_live id) rows ≡ true
erase_on-any_live none id rows h = h
erase_on-any_live (some parent) id rows h = any_live-update _ erased erased-IsSettling id rows h

spent-dead :
    (now : ℕ) (kept : Kept) (id : String) (r : TokenRow) → is_live id (spent now kept r) ≡ false
spent-dead now none id r = ground arith
spent-dead now (some (blob, end)) id r = ground arith

some-inj : {s t : String} → some s ≡ some t → s ≡ t
some-inj h = cc

-- No row of that id is live any more.
pub none_live :
    (now : ℕ) (kept : Kept) (id : String) (rows : List TokenRow)
    → any (is_live id) (update_where (is_live id) (spent now kept) rows) ≡ false
none_live now kept id [] = refl
none_live now kept id (r ∷ rows) = elim (Bool-cases (is_live id r)) [
  | inl e ↦ rw e (ground (arith, spent-dead now kept id r, none_live now kept id rows))
  | inr e ↦ rw e (ground (arith, none_live now kept id rows))
]

any_live-count :
    (id : String) (rows : List TokenRow)
    → 0 < count_where (is_live id) rows
    → any (is_live id) rows ≡ true
any_live-count id [] h = elim h [ ]
any_live-count id (r ∷ rows) h = ground (arith, any_live-count id rows)

any_id-live :
    (id : String) (rows : List TokenRow)
    → any (is_live id) rows ≡ true
    → any (has_id id) rows ≡ true
any_id-live id [] h = h
any_id-live id (r ∷ rows) h = ground (arith, any_id-live id rows)

pub no_clash-fresh :
    (new : TokenRow) (rows : List TokenRow)
    → any (clashes new) rows ≡ false
    → any (has_id new.id) rows ≡ false
no_clash-fresh new [] h = refl
no_clash-fresh new (r ∷ rows) h = ground (arith, no_clash-fresh new rows)

module _ (now : ℕ) (token : TokenRow) (seal : String → IssuedTokens → Kept) (issued : IssuedTokens)
    (db : Db) where
  parent_step :
      (parent : Option String) (d : Db)
      → erase_parent parent d ≡ (record d { tokens = erase_on parent d.tokens }, ok tt)
  unfolding erase_parent update_tokens
  parent_step none d = refl
  parent_step (some parent) d = refl

  pub claim-won :
      count_where (is_live token.id) db.tokens ≡ 1
      → claim_rotation now token seal issued db
        ≡ (record db { tokens = claimed_rows now token (seal token.id issued) db.tokens }, ok tt)
  unfolding claim_rotation update_tokens
  claim-won one = rw one (parent_step token.rotated_from _)

  pub claim-lost :
      count_where (is_live token.id) db.tokens ≢ 1
      → (claim_rotation now token seal issued db).1 ≡ err gate_refused
  unfolding claim_rotation update_tokens
  claim-lost more = rw (nat_eq-false _ _ more) refl

module _ (now : ℕ) (token : TokenRow) (kept : Kept) (db : Db) where
  -- The claimed token has no live row any more,
  pub claimed-dead : any (is_live token.id) (claimed_rows now token kept db.tokens) ≡ false
  claimed-dead = not-true (λ h. cc (
    none_live now kept token.id db.tokens,
    erase_on-any_live token.rotated_from token.id
        (update_where (is_live token.id) (spent now kept) db.tokens) h,
  ))

  -- and stays in the table.
  pub claimed-there :
      count_where (is_live token.id) db.tokens ≡ 1
      → any (has_id token.id) (claimed_rows now token kept db.tokens) ≡ true
  claimed-there one =
      erase_on-any_id token.rotated_from token.id _
      ∙ any_id-update _ _ (spent-IsSettling now kept) token.id db.tokens
      ∙ any_id-live token.id db.tokens (any_live-count token.id db.tokens (omega (arith, one)))

module _ (now : ℕ) (token new : TokenRow) (kept : Kept) (db : Db) where
  -- The inserted child joins the claimed table.
  pub claimed-Joins :
      IsChained db.tokens
      → new.rotated_from ≡ some token.id
      → new.grace_replay ≡ none
      → count_where (is_live token.id) db.tokens ≡ 1
      → any (clashes new) (claimed_rows now token kept db.tokens) ≡ false
      → IsChained (claimed_rows now token kept db.tokens ++ new ∷ [])
  claimed-Joins c parent unkept one free =
      let rows : List TokenRow = claimed_rows now token kept db.tokens in
      let updated : List TokenRow = update_where (is_live token.id) (spent now kept) db.tokens in
      let settled : IsSettling (spent now kept) = spent-IsSettling now kept in
      append-IsChained _ new
        (record {
          fresh = no_clash-fresh new _ free;
          unkept = unkept;
          parent = λ id e.
              subst
                (λ x.
                  (any (has_id x) rows ≡ true)
                  × (any (is_live x) rows ≡ false)
                  × (count_where (is_child_of x) rows ≡ 0))
                (some-inj (sym parent ∙ e))
                (
                  claimed-there now token kept db one,
                  claimed-dead now token kept db,
                  erase_on-count token.rotated_from token.id updated
                      ∙ count-update _ _ settled token.id db.tokens
                      ∙ (c.chains token.id).live_childless
                          (any_live-count token.id db.tokens (omega (arith, one))),
                );
        })
        (erase_on-IsChained token.rotated_from _ (update-IsChained _ _ settled db.tokens c))
