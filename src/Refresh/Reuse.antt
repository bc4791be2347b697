-- ===== src/Refresh/Reuse.antt =====
-- When a rotated token is answered with the pair that replaced it.
use inite_auth_service.Common.{
  ℕ, String, Option, none, some, true, false, not, ◌&&◌, ◌||◌, ◌≡◌, refl, arith, leb, nat_eq,
  find_first, count_where, Bool-cases, Option-cases, inl, inr, sym, ◌∙◌, ap, truthy?, subst,
}
use inite_auth_service.Common.Effect.Runs.{Result-cases}
use inite_auth_service.Common.Effect.{Fault, ok, err, ◌>>=◌, ◌>>◌}
use inite_auth_service.Store.{TokenRow, Db, update_tokens, find_token}
use inite_auth_service.FieldCrypto.{Aes, FieldCrypto}
use inite_auth_service.Grace.{Json, IssuedTokens, grace_window_ms, within_grace, open_replay}
use inite_auth_service.Issuer.{Env, Request}
use inite_auth_service.Refresh.{
  child_in_family, is_live_at, ChildState, live, rotated, gone, pair, was_rotated, no_pair,
  grandchild_state, state_of_child, child_state, audit_reuse, grace_on, window, erase_own,
  erase_if_over, hand_back, by_child, through_child, within_window, grace_reuse,
}

-- A pair whose window is over does not open.
ended-none :
    (aes : Aes) (json : Json) (crypto : Option FieldCrypto) (token : TokenRow) (now end : ℕ)
    → token.grace_replay_until ≡ some end
    → leb end now ≡ true
    → open_replay aes json crypto token now ≡ none
unfolding open_replay
ended-none aes json none token now end until over = refl
ended-none aes json (some crypto) token now end until over =
    elim (Option-cases token.grace_replay) [
      | inl e ↦ rw e refl
      | inr (blob, e) ↦ rw (e, until, over) (ground arith)
    ]

-- The child of the token is there and live.
abbrev HasLiveChild : ℕ → TokenRow → Db → Type 0
HasLiveChild now token db =
    (child : TokenRow) × (find_first (child_in_family token token.id) db.tokens ≡ some child)
    × (count_where (is_live_at now child.id) db.tokens ≡ 1)

grandchild-not_live :
    (token : TokenRow) (child id : String) (db : Db)
    → (grandchild_state token child db).1 ≡ ok (live id)
    → ⊥
unfolding grandchild_state
grandchild-not_live token child id db h =
    elim (Bool-cases (nat_eq (count_where (child_in_family token child) db.tokens) 0)) [
      | inl e ↦ apart_gone (rw e at h)
      | inr e ↦ apart_rotated (rw e at h)
    ]
  where
    apart_gone : ok gone ≡ ok (live id) → ⊥
    apart_gone k = cc

    apart_rotated : ok rotated ≡ ok (live id) → ⊥
    apart_rotated k = cc

child-live :
    (now : ℕ) (token child : TokenRow) (id : String) (db : Db)
    → (state_of_child now token (some child) db).1 ≡ ok (live id)
    → count_where (is_live_at now child.id) db.tokens ≡ 1
unfolding state_of_child update_tokens
child-live now token child id db h =
    elim (Bool-cases (nat_eq (count_where (is_live_at now child.id) db.tokens) 1)) [
      | inl e ↦ ground arith
      | inr e ↦ absurd (grandchild-not_live token child.id id _ (rw e at h))
    ]

child_state-live :
    (now : ℕ) (token : TokenRow) (id : String) (db : Db)
    → (child_state now token db).1 ≡ ok (live id)
    → HasLiveChild now token db
unfolding child_state find_token state_of_child
child_state-live now token id db h =
    elim (Option-cases (find_first (child_in_family token token.id) db.tokens)) [
      | inl e ↦ absurd (apart (rw e at h))
      | inr (child, e) ↦ (child, e, child-live now token child id db (rw e at h))
    ]
  where
    apart : (state_of_child now token none db).1 ≡ ok (live id) → ⊥
    apart k = cc

module _ (env : Env) (req : Request) (token : TokenRow) where
  abbrev kept_pair : Option IssuedTokens
  kept_pair = open_replay env.aes env.json env.crypto token req.now

  hand_back-pair :
      (o : Option IssuedTokens) (tokens : IssuedTokens) (db : Db)
      → (hand_back env req token o db).1 ≡ ok (pair tokens)
      → o ≡ some tokens
  unfolding hand_back audit_reuse
  hand_back-pair none tokens db h = cc
  hand_back-pair (some given) tokens db h = elim (Bool-cases env.audit_on) [
    | inl e ↦ same (rw e at h)
    | inr e ↦ same (rw e at h)
  ]
    where
      same : ok (pair given) ≡ ok (pair tokens) → some given ≡ some tokens
      same k = cc

  by_child-pair :
      (state : ChildState) (tokens : IssuedTokens) (d : Db)
      → (by_child env req token state d).1 ≡ ok (pair tokens)
      → (kept_pair ≡ some tokens) × ((id : String) × (state ≡ live id))
  unfolding by_child
  by_child-pair (live id) tokens d h = (hand_back-pair kept_pair tokens d h, (id, refl))
  by_child-pair rotated tokens d h = absurd (no_pair_here h)
    where
      no_pair_here : ok was_rotated ≡ ok (pair tokens) → ⊥
      no_pair_here k = cc
  by_child-pair gone tokens d h = absurd (no_pair_here h)
    where
      no_pair_here : ok no_pair ≡ ok (pair tokens) → ⊥
      no_pair_here k = cc

  through-pair :
      (tokens : IssuedTokens) (db : Db)
      → (through_child env req token db).1 ≡ ok (pair tokens)
      → (kept_pair ≡ some tokens) × HasLiveChild req.now token db
  unfolding through_child
  through-pair tokens db h = elim (Result-cases (child_state req.now token db).1) [
    | inl (state, e) ↦
        let (kept, (id, alive)) =
          by_child-pair state tokens (child_state req.now token db).0 (rw (e, ◌>>=◌) at h) in
        (kept, child_state-live req.now token id db (e ∙ ap ok alive))
    | inr (x, e) ↦ absurd (apart x (rw (e, ◌>>=◌) at h))
  ]
    where
      apart : (x : Fault) → err x ≡ ok (pair tokens) → ⊥
      apart x k = cc

  window-pair :
      (tokens : IssuedTokens) (db : Db)
      → (within_window env req token db).1 ≡ ok (pair tokens)
      → (within_grace token (grace_window_ms env.setting) req.now ≡ true)
        × (kept_pair ≡ some tokens)
        × HasLiveChild req.now token db
  unfolding within_window window
  window-pair tokens db h =
      elim (Bool-cases (
        not (grace_on env req) || not (within_grace token (grace_window_ms env.setting) req.now))) [
          | inl e ↦ absurd (apart (rw e at h))
          | inr e ↦
              (let (kept, child) = through-pair tokens db (rw e at h) in
                (ground arith, kept, child))
        ]
    where
      apart : ok no_pair ≡ ok (pair tokens) → ⊥
      apart k = cc

  erase-ok : (until : Option ℕ) (db : Db) → (erase_if_over env req token until db).1 ≡ ok tt
  unfolding erase_if_over erase_own update_tokens
  erase-ok none db = refl
  erase-ok (some end) db = elim (Bool-cases (truthy? token.grace_replay && leb end req.now)) [
    | inl e ↦ rw e refl
    | inr e ↦ rw e refl
  ]

  erase-idle :
      (tokens : IssuedTokens) (db : Db)
      → kept_pair ≡ some tokens
      → (erase_if_over env req token token.grace_replay_until db).0 ≡ db
  unfolding erase_if_over open_replay
  erase-idle tokens db kept = elim (Option-cases token.grace_replay_until) [
    | inl e ↦ rw e refl
    | inr (end, e) ↦ elim (Bool-cases (leb end req.now)) [
      | inl over ↦
          absurd
            (apart (sym (ended-none env.aes env.json env.crypto token req.now end e over) ∙ kept))
      | inr early ↦ rw e (idle end early)
    ]
  ]
    where
      apart : none ≡ some tokens → ⊥
      apart k = cc

      idle :
          (end : ℕ) → leb end req.now ≡ false → (erase_if_over env req token (some end) db).0 ≡ db
      idle end early = ground arith

  -- A rotated token is answered with a pair only within the grace of its rotation, only with the pair
  -- that its row keeps, and only while its child is there and live.
  pub grace_reuse-pair :
      (tokens : IssuedTokens) (db : Db)
      → (grace_reuse env req token db).1 ≡ ok (pair tokens)
      → (within_grace token (grace_window_ms env.setting) req.now ≡ true)
        × (kept_pair ≡ some tokens)
        × HasLiveChild req.now token db
  unfolding grace_reuse
  grace_reuse-pair tokens db h =
      let (timely, kept, child) =
        window-pair tokens (erase_if_over env req token token.grace_replay_until db).0
          (rw (erase-ok token.grace_replay_until db, ◌>>◌, ◌>>=◌) at h) in
      (timely, kept, subst (HasLiveChild req.now token) (erase-idle tokens db kept) child)
