-- ===== src/Refresh/Rotation.antt =====
-- The three ends of `rotate`: won, lost, and a child whose id or lookup is taken.
use inite_auth_service.Common.{
  List, [], ◌∷◌, ◌++◌, some, true, false, ◌≡◌, ◌≢◌, refl, any, count_where,
}
use inite_auth_service.Common.Effect.{M, ok, err, internal}
use inite_auth_service.Store.{TokenRow, Db, clashes, create_token}
use inite_auth_service.Grace.{IssuedTokens, claim_rotation}
use inite_auth_service.Issuer.{Env, Request, issued_for, refresh_row, generate_tokens}
use inite_auth_service.Common.Effect.Runs.{
  transaction-ok, transaction-err, or_refused-ok, or_refused-internal, or_refused-refused,
  transaction-refused,
}
use inite_auth_service.Issuer.Insert.{generate-ok, generate-err}
use inite_auth_service.Refresh.{RefreshBounds, rotation_input, keep_pair, rotate, lost_race}
use inite_auth_service.Refresh.Chain.{is_live}
use inite_auth_service.Refresh.Claim.{claimed_rows, claim-won, claim-lost}

module _ (env : Env) (req : Request) (token : TokenRow) (bounds : RefreshBounds) (db : Db) where
  abbrev pub new_pair : IssuedTokens
  new_pair = issued_for env req db (rotation_input token bounds)

  abbrev pub child : TokenRow
  child = refresh_row env req db (rotation_input token bounds) new_pair

  abbrev pub claimed : List TokenRow
  claimed = claimed_rows req.now token (keep_pair env req token.id new_pair) db.tokens

  create-free :
      any (clashes child) claimed ≡ false
      → create_token child (record db { tokens = claimed })
        ≡ (record db { tokens = claimed ++ child ∷ [] }, ok tt)
  unfolding create_token
  create-free free = rw free refl

  create-taken :
      any (clashes child) claimed ≡ true
      → create_token child (record db { tokens = claimed })
        ≡ (record db { tokens = claimed }, err (internal "P2002"))
  unfolding create_token
  create-taken taken = rw taken refl

  abbrev gate : IssuedTokens → M Db (Unit {0})
  gate = claim_rotation req.now token (keep_pair env req)

  abbrev issuing : M Db IssuedTokens
  issuing = generate_tokens env req (rotation_input token bounds) (some gate)

  -- A rotation whose token is live, in a table where the child's id and lookup are free, returns the new
  -- pair; the table is then the old one with that token revoked, holding the sealed pair if one can be
  -- kept, the pair kept on the token's own parent erased, and the child added at the end.
  pub rotate-won :
      count_where (is_live token.id) db.tokens ≡ 1
      → any (clashes child) claimed ≡ false
      → rotate env req token bounds db ≡ (record db { tokens = claimed ++ child ∷ [] }, ok new_pair)
  unfolding rotate
  rotate-won one free = or_refused-ok issuing (lost_race env req token) db _ (
      generate-ok env req (rotation_input token bounds) gate db _ (
        transaction-ok (gate new_pair) (create_token child) db _
          (claim-won req.now token (keep_pair env req) new_pair db one) (create-free free)))

  pub rotate-clash :
      count_where (is_live token.id) db.tokens ≡ 1
      → any (clashes child) claimed ≡ true
      → rotate env req token bounds db ≡ (db, err (internal "P2002"))
  unfolding rotate
  rotate-clash one taken = or_refused-internal issuing (lost_race env req token) db _ (
      generate-err env req (rotation_input token bounds) gate db _ (
        transaction-err (gate new_pair) (create_token child) db _
          (claim-won req.now token (keep_pair env req) new_pair db one) (create-taken taken)))

  pub rotate-lost :
      count_where (is_live token.id) db.tokens ≢ 1
      → rotate env req token bounds db ≡ lost_race env req token db
  unfolding rotate
  rotate-lost more = or_refused-refused issuing (lost_race env req token) db db (
      generate-err env req (rotation_input token bounds) gate db db (
        transaction-refused (gate new_pair) (create_token child) db
          (claim-lost req.now token (keep_pair env req) new_pair db more)))
