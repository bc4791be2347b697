-- ===== src/Refresh/Chain.antt =====
-- One chain for each grant: the shape of the refresh-token table, and which writes keep it.
use inite_auth_service.Common.{
  String, List, [], ◌∷◌, ◌++◌, none, some, Bool, true, false, not, ◌&&◌, ◌||◌, ◌≡◌, inl, inr, ◌≤◌,
  ◌+◌, refl, arith, any, All, count_where, update_where, ◌==◌, eq_iff, is_some, Bool-cases,
  if◌then◌else◌, subst, is_text_iff, not-true,
}
use inite_auth_service.Store.{TokenRow, has_id}
use inite_auth_service.Refresh.{is_child_of}

abbrev pub is_live : String → TokenRow → Bool
is_live id r = has_id id r && not r.revoked

-- A pair is kept only on a revoked row.
abbrev pub KeptIfRevoked : TokenRow → Type 0
KeptIfRevoked r = is_some r.grace_replay ≡ true → r.revoked ≡ true

-- The rows named `id` and the rows that were rotated from them.
pub record Chain (rows : List TokenRow) (id : String) : Type 0 where
  -- A token is rotated into one child at most,
  pub one_child : count_where (is_child_of id) rows ≤ 1
  -- a token that has a child is not live,
  pub live_childless : any (is_live id) rows ≡ true → count_where (is_child_of id) rows ≡ 0
  -- and a child has its parent in the table.
  pub parent_there : any (has_id id) rows ≡ false → count_where (is_child_of id) rows ≡ 0

pub record IsChained (rows : List TokenRow) : Type 0 where
  pub kept : All KeptIfRevoked rows
  pub chains : (id : String) → Chain rows id

-- A write that keeps the identity of a row, revives none, and keeps no pair on a live row.
pub record IsSettling (f : TokenRow → TokenRow) : Type 0 where
  pub same_id : (r : TokenRow) → (f r).id ≡ r.id
  pub same_parent : (r : TokenRow) → (f r).rotated_from ≡ r.rotated_from
  pub stays_revoked : (r : TokenRow) → r.revoked ≡ true → (f r).revoked ≡ true
  pub keeps : (r : TokenRow) → KeptIfRevoked r → KeptIfRevoked (f r)

module _ (p : TokenRow → Bool) (f : TokenRow → TokenRow) (s : IsSettling f) where
  pub count-update :
      (id : String) (rows : List TokenRow)
      → count_where (is_child_of id) (update_where p f rows) ≡ count_where (is_child_of id) rows
  count-update id [] = refl
  count-update id (r ∷ rows) = ground (arith, s.same_parent r, count-update id rows)

  pub any_id-update :
      (id : String) (rows : List TokenRow)
      → any (has_id id) (update_where p f rows) ≡ any (has_id id) rows
  any_id-update id [] = refl
  any_id-update id (r ∷ rows) = ground (arith, s.same_id r, any_id-update id rows)

  pub any_live-update :
      (id : String) (rows : List TokenRow)
      → any (is_live id) (update_where p f rows) ≡ true
      → any (is_live id) rows ≡ true
  any_live-update id [] h = h
  any_live-update id (r ∷ rows) h =
      ground (arith, s.same_id r, s.stays_revoked r, any_live-update id rows)

  kept-update :
      (rows : List TokenRow) → All KeptIfRevoked rows → All KeptIfRevoked (update_where p f rows)
  kept-update [] k = tt
  kept-update (r ∷ rows) k = elim (Bool-cases (p r)) [
    | inl e ↦ rw e (s.keeps r k.0, kept-update rows k.1)
    | inr e ↦ rw e (k.0, kept-update rows k.1)
  ]

  pub update-IsChained : (rows : List TokenRow) → IsChained rows → IsChained (update_where p f rows)
  update-IsChained rows c = record {
    kept = kept-update rows c.kept;
    chains = λ id. record {
      one_child = rw (count-update id rows) (c.chains id).one_child;
      live_childless =
          λ h. rw (count-update id rows) ((c.chains id).live_childless (any_live-update id rows h));
      parent_there = λ h.
          rw (count-update id rows) ((c.chains id).parent_there (rw (any_id-update id rows) at h));
    };
  }

pub any-append :
    (q : TokenRow → Bool) (rows : List TokenRow) (new : TokenRow)
    → any q (rows ++ new ∷ []) ≡ (any q rows || q new)
any-append q [] new = ground arith
any-append q (r ∷ rows) new = ground (arith, any-append q rows new)

pub count-append :
    (q : TokenRow → Bool) (rows : List TokenRow) (new : TokenRow)
    → count_where q (rows ++ new ∷ []) ≡ count_where q rows + (if q new then 1 else 0)
count-append q [] new = ground arith
count-append q (r ∷ rows) new = ground (arith, count-append q rows new)

kept-append :
    (rows : List TokenRow) (new : TokenRow)
    → All KeptIfRevoked rows
    → KeptIfRevoked new
    → All KeptIfRevoked (rows ++ new ∷ [])
kept-append [] new k n = (n, tt)
kept-append (r ∷ rows) new k n = (k.0, kept-append rows new k.1 n)

-- A row that no row is named like, and whose parent, if it has one, is there, revoked and childless.
pub record Joins (rows : List TokenRow) (new : TokenRow) : Type 0 where
  pub fresh : any (has_id new.id) rows ≡ false
  pub unkept : new.grace_replay ≡ none
  pub parent :
      (id : String)
      → new.rotated_from ≡ some id
      → (any (has_id id) rows ≡ true)
        × (any (is_live id) rows ≡ false)
        × (count_where (is_child_of id) rows ≡ 0)

module _ (rows : List TokenRow) (new : TokenRow) (j : Joins rows new) where
  fresh_for : (id : String) → new.id ≡ id → any (has_id id) rows ≡ false
  fresh_for id e = subst (λ x. any (has_id x) rows ≡ false) e j.fresh

  append-child : (id : String) → is_child_of id new ≡ true → Chain (rows ++ new ∷ []) id
  append-child id child =
      let (there, dead, childless) = j.parent id ((is_text_iff new.rotated_from id).0 child) in
      let other : (new.id == id) ≡ false =
        not-true (λ e. cc (there, fresh_for id ((eq_iff new.id id).0 e))) in
      record {
        one_child = ground (arith, count-append (is_child_of id) rows new);
        live_childless = λ h. ground (arith, any-append (is_live id) rows new);
        parent_there = λ h. ground (arith, any-append (has_id id) rows new);
      }

  append-other :
      (id : String) → is_child_of id new ≡ false → Chain rows id → Chain (rows ++ new ∷ []) id
  append-other id childless c = record {
    one_child = ground (arith, c.one_child, count-append (is_child_of id) rows new);
    live_childless = λ h. elim (Bool-cases (new.id == id)) [
      | inl e ↦ ground (
        arith,
        c.parent_there (fresh_for id ((eq_iff new.id id).0 e)),
        count-append (is_child_of id) rows new,
      )
      | inr e ↦ ground (
        arith,
        c.live_childless,
        any-append (is_live id) rows new,
        count-append (is_child_of id) rows new,
      )
    ];
    parent_there = λ h. ground (
      arith,
      c.parent_there,
      any-append (has_id id) rows new,
      count-append (is_child_of id) rows new,
    );
  }

  pub append-IsChained : IsChained rows → IsChained (rows ++ new ∷ [])
  append-IsChained c = record {
    kept = kept-append rows new c.kept (λ h. ground (arith, j.unkept));
    chains = λ id. elim (Bool-cases (is_child_of id new)) [
      | inl e ↦ append-child id e
      | inr e ↦ append-other id e (c.chains id)
    ];
  }
