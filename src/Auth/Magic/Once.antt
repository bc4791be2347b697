-- ===== src/Auth/Magic/Once.antt =====
-- A magic link is taken once.
use inite_auth_service.Common.{
  ℕ, String, List, [], ◌∷◌, none, some, true, ◌≡◌, refl, ◌≤◌, ltb, Bool-cases, Option-cases, inl,
  inr, arith, find_first, update_where, count_where, eq_self, sym, ap, ◌∙◌,
}
use inite_auth_service.Common.Effect.{Fault, err, bad_request}
use inite_auth_service.Auth.Magic.{
  MagicLink, Mailbox, has_token, has_link_id, unused, use_link, verify_link, redeem_link,
  verify_magic_link,
}

module _ (token : String) (id : String) where
  none-stays :
      (links : List MagicLink)
      → count_where (has_token token) links ≡ 0
      → find_first (unused token) (update_where (has_link_id id) use_link links) ≡ none
  none-stays [] h = refl
  none-stays (l ∷ links) h = ground (arith, none-stays links)

find-used :
    (token : String) (link : MagicLink) (links : List MagicLink)
    → count_where (has_token token) links ≤ 1
    → find_first (unused token) links ≡ some link
    → find_first (unused token) (update_where (has_link_id link.id) use_link links) ≡ none
find-used token link [] one h = cc
find-used token link (l ∷ links) one h = elim (Bool-cases (unused token l)) [
  | inl this ↦
      let same : l ≡ link = cc (rw this at h) in
      let hit : has_link_id link.id l ≡ true =
        ap (λ x. has_link_id x.id l) (sym same) ∙ eq_self l.id in
      let named : has_token token l ≡ true = ground arith in
      let rest : count_where (has_token token) links ≡ 0 = ground arith in
      rw hit (ground (arith, none-stays token link.id links rest))
  | inr other ↦ let rest = find-used token link links (ground arith) (rw other at h) in ground arith
]

-- After a verification of a link whose token no two rows share, however it ended, every verification
-- of that token at that time or later is refused.
pub verify_magic_link-once :
    (now later : ℕ) (id did other_id other_did token : String) (box : Mailbox)
    → count_where (has_token token) box.links ≤ 1
    → now ≤ later
    → (x : Fault) × ((verify_magic_link later other_id other_did token
          (verify_magic_link now id did token box).0).1
        ≡ err x)
unfolding verify_magic_link verify_link redeem_link
verify_magic_link-once now later id did other_id other_did token box one le =
    elim (Option-cases (find_first (unused token) box.links)) [
      | inl gone ↦ rw gone (rw gone (bad_request "" "Invalid or expired magic link", refl))
      | inr (link, found) ↦ elim (Bool-cases (ltb link.expires_at now)) [
        | inl late ↦
            let still : ltb link.expires_at later ≡ true = ground arith in
            rw found (rw late (rw found (rw still (bad_request "" "Magic link expired", refl))))
        | inr timely ↦ rw found (
            rw timely (
              rw (find-used token link box.links one found)
                (bad_request "" "Invalid or expired magic link", refl)))
      ]
    ]
