-- ===== src/Refresh/Quiet.antt =====
-- The paths of the refresh grant, the revocation and the cleanup that issue nothing: they only
-- settle rows of the table.
use inite_auth_service.Common.{
  ℕ, String, List, Option, none, some, Bool, true, false, not, ◌||◌, ◌≡◌, refl, any, update_where,
  count_where, length, length-update_where, if◌then◌else◌, ◌∙◌, Bool-cases, inl, inr, nat_eq, ◌==◌,
}
use inite_auth_service.Common.Effect.Runs.{Result-cases}
use inite_auth_service.Common.Effect.{M, ◌>>=◌, pure, throw, Fault}
use inite_auth_service.Store.{
  TokenRow, Db, Event, token_revoked, update_tokens, find_token, log_event,
}
use inite_auth_service.Grace.{IssuedTokens, erased, erase_expired_replays, revoke_at}
use inite_auth_service.Issuer.{Env, Request, after_revoke, revoke_token, signal_token_revoked}
use inite_auth_service.Refresh.{
  touch, state_of_child, grandchild_state, audit_reuse, hand_back, by_child, within_window,
  through_child, answer_replay, answer_loser, loser_outcome, erase_if_over, erase_own,
  child_in_family, child_state, ChildState, live, rotated, gone, GraceOutcome, pair, was_rotated,
  no_pair, grace_reuse, revoke_family, replayed, lost_race,
}
use inite_auth_service.Refresh.Chain.{
  IsSettling, IsChained, is_live, update-IsChained, any_live-update,
}
use inite_auth_service.Refresh.Claim.{erased-IsSettling, touch-IsSettling, revoke_at-IsSettling}

-- The second table comes from the first by writes that settle rows.
pub data Settles : List TokenRow → List TokenRow → Type 0 where
  same : {rows : List TokenRow} → Settles rows rows
  also :
      {rows mid : List TokenRow} (p : TokenRow → Bool) (f : TokenRow → TokenRow)
      → IsSettling f
      → Settles rows mid
      → Settles rows (update_where p f mid)

pub Settles-trans : {a b c : List TokenRow} → Settles a b → Settles b c → Settles a c
Settles-trans s same = s
Settles-trans s (also p f settling t) = also p f settling (Settles-trans s t)

pub Settles-IsChained : {a b : List TokenRow} → Settles a b → IsChained a → IsChained b
Settles-IsChained same c = c
Settles-IsChained (also p f settling s) c = update-IsChained p f settling _ (Settles-IsChained s c)

pub Settles-length : {a b : List TokenRow} → Settles a b → length b ≡ length a
Settles-length same = refl
Settles-length (also p f settling s) = length-update_where p f _ ∙ Settles-length s

-- None becomes live again.
pub Settles-live :
    {a b : List TokenRow}
    → Settles a b
    → (id : String) → any (is_live id) b ≡ true
    → any (is_live id) a ≡ true
Settles-live same id h = h
Settles-live (also p f settling s) id h = Settles-live s id (any_live-update p f settling id _ h)

module _ {ℓ} {A : Type ℓ} where
  pub record Quiet (m : M Db A) : Type 0 where
    pub settles : (db : Db) → Settles db.tokens (m db).0.tokens

  pure-Quiet : (a : A) → Quiet (pure a)
  pure-Quiet a = record { settles = λ db. same }

  throw-Quiet : (e : Fault) → Quiet (throw {A = A} e)
  throw-Quiet e = record { settles = λ db. same }

module _ {ℓ κ} {A : Type ℓ} {B : Type κ} where
  pub Quiet-bind :
      (m : M Db A) (k : A → M Db B) → Quiet m → ((a : A) → Quiet (k a)) → Quiet (m >>= k)
  Quiet-bind m k q r = record {
    settles = λ db. elim (Result-cases (m db).1) [
      | inl (a, e) ↦ rw (e, ◌>>=◌) (Settles-trans (q.settles db) ((r a).settles (m db).0))
      | inr (x, e) ↦ rw (e, ◌>>=◌) (q.settles db)
    ];
  }

module _ {ℓ} {A : Type ℓ} where
  if-Quiet : (b : Bool) (m n : M Db A) → Quiet m → Quiet n → Quiet (if b then m else n)
  if-Quiet true m n q r = q
  if-Quiet false m n q r = r

pub update-Quiet :
    (p : TokenRow → Bool) (f : TokenRow → TokenRow) → IsSettling f → Quiet (update_tokens p f)
unfolding update_tokens
update-Quiet p f settling = record { settles = λ db. also p f settling same }

find-Quiet : (p : TokenRow → Bool) → Quiet (find_token p)
unfolding find_token
find-Quiet p = record { settles = λ db. same }

log-Quiet : (e : Event) → Quiet (log_event e)
log-Quiet e = record { settles = λ db. same }

signal-Quiet :
    (env : Env) (req : Request) (did tenant : Option String)
    → Quiet (signal_token_revoked env req did tenant)
unfolding signal_token_revoked
signal-Quiet env req none tenant = pure-Quiet tt
signal-Quiet env req (some did) tenant =
    if-Quiet (not env.ssf_on || did == "") (pure tt) (log_event (token_revoked did tenant))
      (pure-Quiet tt) (log-Quiet _)

pub erase_expired_replays-Quiet : (now : ℕ) → Quiet (erase_expired_replays now)
unfolding erase_expired_replays
erase_expired_replays-Quiet now = update-Quiet _ erased erased-IsSettling

grandchild_state-Quiet : (token : TokenRow) (id : String) → Quiet (grandchild_state token id)
unfolding grandchild_state
grandchild_state-Quiet token id = record {
  settles = λ db. elim (Bool-cases (nat_eq (count_where (child_in_family token id) db.tokens) 0)) [
    | inl e ↦ rw e same
    | inr e ↦ rw e same
  ];
}

state_of_child-Quiet :
    (now : ℕ) (token : TokenRow) (child : Option TokenRow) → Quiet (state_of_child now token child)
unfolding state_of_child
state_of_child-Quiet now token none = pure-Quiet gone
state_of_child-Quiet now token (some child) =
    Quiet-bind _ _ (update-Quiet _ (touch now) (touch-IsSettling now)) (λ n.
      if-Quiet (nat_eq n 1) _ _ (pure-Quiet (live child.id))
        (grandchild_state-Quiet token child.id))

child_state-Quiet : (now : ℕ) (token : TokenRow) → Quiet (child_state now token)
unfolding child_state
child_state-Quiet now token = Quiet-bind _ _ (find-Quiet _) (state_of_child-Quiet now token)

module _ (env : Env) (req : Request) where
  audit-Quiet :
      (event : String) (success : Bool) (token : TokenRow)
      → Quiet (audit_reuse env req event success token)
  unfolding audit_reuse
  audit-Quiet event success token = if-Quiet env.audit_on _ _ (log-Quiet _) (pure-Quiet tt)

  hand_back-Quiet :
      (token : TokenRow) (pair : Option IssuedTokens) → Quiet (hand_back env req token pair)
  unfolding hand_back
  hand_back-Quiet token none = pure-Quiet no_pair
  hand_back-Quiet token (some tokens) =
      Quiet-bind _ _ (audit-Quiet _ _ token) (λ u. pure-Quiet (pair tokens))

  by_child-Quiet : (token : TokenRow) (state : ChildState) → Quiet (by_child env req token state)
  unfolding by_child
  by_child-Quiet token (live id) = hand_back-Quiet token _
  by_child-Quiet token rotated = pure-Quiet was_rotated
  by_child-Quiet token gone = pure-Quiet no_pair

  erase_if_over-Quiet :
      (token : TokenRow) (end : Option ℕ) → Quiet (erase_if_over env req token end)
  unfolding erase_if_over erase_own
  erase_if_over-Quiet token none = pure-Quiet tt
  erase_if_over-Quiet token (some end) =
      if-Quiet _ _ _ (Quiet-bind _ _ (update-Quiet _ erased erased-IsSettling) (λ n. pure-Quiet tt))
        (pure-Quiet tt)

  within_window-Quiet : (token : TokenRow) → Quiet (within_window env req token)
  unfolding within_window through_child
  within_window-Quiet token =
      if-Quiet _ _ _ (pure-Quiet no_pair)
        (Quiet-bind _ _ (child_state-Quiet req.now token) (by_child-Quiet token))

  pub grace_reuse-Quiet : (token : TokenRow) → Quiet (grace_reuse env req token)
  unfolding grace_reuse
  grace_reuse-Quiet token =
      Quiet-bind _ _ (erase_if_over-Quiet token token.grace_replay_until)
        (λ u. within_window-Quiet token)

  pub revoke_family-Quiet : (token : TokenRow) → Quiet (revoke_family env req token)
  unfolding revoke_family
  revoke_family-Quiet token =
      Quiet-bind _ _ (update-Quiet _ (revoke_at req.now) (revoke_at-IsSettling req.now)) (λ n.
        Quiet-bind _ _ (update-Quiet _ erased erased-IsSettling) (λ k.
          Quiet-bind _ _ (audit-Quiet _ _ token)
            (λ u. Quiet-bind _ _ (signal-Quiet env req _ _) (λ v. throw-Quiet _))))

  answer_replay-Quiet :
      (token : TokenRow) (outcome : GraceOutcome) → Quiet (answer_replay env req token outcome)
  unfolding answer_replay
  answer_replay-Quiet token (pair tokens) = pure-Quiet tokens
  answer_replay-Quiet token was_rotated = throw-Quiet _
  answer_replay-Quiet token no_pair = revoke_family-Quiet token

  pub replayed-Quiet : (token : TokenRow) → Quiet (replayed env req token)
  unfolding replayed
  replayed-Quiet token = Quiet-bind _ _ (grace_reuse-Quiet token) (answer_replay-Quiet token)

  answer_loser-Quiet : (outcome : GraceOutcome) → Quiet (answer_loser env req outcome)
  unfolding answer_loser
  answer_loser-Quiet (pair tokens) = pure-Quiet tokens
  answer_loser-Quiet was_rotated = throw-Quiet _
  answer_loser-Quiet no_pair = throw-Quiet _

  loser_outcome-Quiet : (r : Option TokenRow) → Quiet (loser_outcome env req r)
  unfolding loser_outcome
  loser_outcome-Quiet none = pure-Quiet _
  loser_outcome-Quiet (some r) = grace_reuse-Quiet r

  pub lost_race-Quiet : (token : TokenRow) → Quiet (lost_race env req token)
  unfolding lost_race
  lost_race-Quiet token =
      Quiet-bind _ _ (find-Quiet _)
        (λ found. Quiet-bind _ _ (loser_outcome-Quiet found) answer_loser-Quiet)

  after_revoke-Quiet :
      (client_id : String) (row : Option TokenRow) → Quiet (after_revoke env req client_id row)
  unfolding after_revoke
  after_revoke-Quiet client_id none = pure-Quiet _
  after_revoke-Quiet client_id (some row) =
      Quiet-bind _ _ (update-Quiet _ erased erased-IsSettling)
        (λ n. signal-Quiet env req (some row.user.did) row.company_id)

  pub revoke_token-Quiet : (value client_id : String) → Quiet (revoke_token env req value client_id)
  unfolding revoke_token
  revoke_token-Quiet value client_id = Quiet-bind _ _ (find-Quiet _) (λ row.
      Quiet-bind _ _ (update-Quiet _ (revoke_at req.now) (revoke_at-IsSettling req.now))
        (λ n. after_revoke-Quiet client_id row))
