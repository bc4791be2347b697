-- ===== src/Common/Effect.antt =====
-- Requests as functions from a state to a state and a result. What a request has written before it
-- throws stays written, except inside `transaction`.
pub mod Runs
use mathlib.Core.Bool.{Bool, true, false}
use Prim.Native.String.{String}

-- A thrown HTTP exception: its kind, the `error` code (empty where the source passes a bare
-- message) and the description.
pub data Fault : Type 0 where
  bad_request unauthorized forbidden : String → String → Fault
  not_found too_many_requests : String → Fault
  internal : String → Fault
  -- `RefreshGateRefused`, which aborts an issuing transaction
  gate_refused : Fault

pub data Result {ℓ} (A : Type ℓ) : Type ℓ where
  ok : A → Result A
  err : Fault → Result A

abbrev pub M {ℓ κ} : Type ℓ → Type κ → Type (ℓ ⊔ κ)
M S A = S → S × Result A

module _ {ℓ κ} {S : Type ℓ} {A : Type κ} where
  abbrev pub pure : A → M S A
  pure a s = (s, ok a)

  abbrev pub throw : Fault → M S A
  throw e s = (s, err e)

  -- `$transaction`: a throw undoes the writes.
  abbrev pub transaction : M S A → M S A
  transaction m s = elim (m s).1 [ ok a ↦ ((m s).0, ok a) | err e ↦ (s, err e) ]

  abbrev pub lift_result : Result A → M S A
  lift_result r s = (s, r)

module _ {ℓ κ} {S : Type ℓ} {A : Type κ} where
  abbrev if_refused : Fault → M S A → M S A
  if_refused gate_refused handler s = handler s
  if_refused e handler s = (s, err e)

  -- `try { m } catch (e) { if (!(e instanceof RefreshGateRefused)) throw e; }`, then the handler.
  abbrev pub or_refused : M S A → M S A → M S A
  or_refused m handler s = elim (m s).1 [
    | ok a ↦ ((m s).0, ok a)
    | err e ↦ if_refused e handler (m s).0
  ]

infixl 5 ◌>>=◌ ◌>>◌
abbrev pub ◌>>=◌ {ℓ κ μ} : {S : Type ℓ} {A : Type κ} {B : Type μ} → M S A → (A → M S B) → M S B
◌>>=◌ m f s = elim (m s).1 [ ok a ↦ f a (m s).0 | err e ↦ ((m s).0, err e) ]

abbrev pub ◌>>◌ {ℓ κ} : {S : Type ℓ} {B : Type κ} → M S (Unit {0}) → M S B → M S B
m >> k = m >>= λ _. k

abbrev pub read {ℓ} : {S : Type ℓ} → M S S
read s = (s, ok s)

abbrev pub write {ℓ} : {S : Type ℓ} → (S → S) → M S (Unit {0})
write f s = (f s, ok tt)

abbrev pub guard {ℓ} : {S : Type ℓ} → Bool → Fault → M S (Unit {0})
guard true e s = (s, ok tt)
guard false e s = (s, err e)
