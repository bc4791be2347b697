-- ===== src/Common/Effect/Runs.antt =====
-- How a transaction and a handler end, from how their parts end.
use Prim.Native.String.{String}
use mathlib.Core.Path.{◌≡◌, refl}
use mathlib.Core.Logic.{◌⊎◌, inl, inr}
use mathlib.Core.Bool.{Bool, true, false}
use inite_auth_service.Common.Effect.{
  Result, M, Fault, ok, err, internal, gate_refused, transaction, or_refused, ◌>>◌, ◌>>=◌, guard,
}

module _ {ℓ} {A : Type ℓ} where
  pub Result-cases : (r : Result A) → ((a : A) × (r ≡ ok a)) ⊎ ((e : Fault) × (r ≡ err e))
  Result-cases (ok a) = inl (a, refl)
  Result-cases (err e) = inr (e, refl)

module _ {ℓ κ} {S : Type ℓ} {B : Type κ} (m : M S (Unit {0})) (k : M S B) (s mid : S) where
  pub transaction-ok :
      {end : S} {b : B}
      → m s ≡ (mid, ok tt)
      → k mid ≡ (end, ok b)
      → transaction (m >> k) s ≡ (end, ok b)
  transaction-ok e f =
      rw (e, transaction, ◌>>◌, ◌>>=◌) (rw e (rw f (rw (e, ◌>>◌, ◌>>=◌) (rw e (rw f refl)))))

  pub transaction-err :
      {end : S} {x : Fault}
      → m s ≡ (mid, ok tt)
      → k mid ≡ (end, err x)
      → transaction (m >> k) s ≡ (s, err x)
  transaction-err e f = rw (e, transaction, ◌>>◌, ◌>>=◌) (rw e (rw f refl))

module _ {ℓ κ} {S : Type ℓ} {B : Type κ} (m : M S (Unit {0})) (k : M S B) (s : S) where
  pub transaction-refused : {x : Fault} → (m s).1 ≡ err x → transaction (m >> k) s ≡ (s, err x)
  transaction-refused e = rw (e, transaction, ◌>>◌, ◌>>=◌) refl

module _ {ℓ κ} {S : Type ℓ} {A : Type κ} (m handler : M S A) (s end : S) where
  pub or_refused-ok : {a : A} → m s ≡ (end, ok a) → or_refused m handler s ≡ (end, ok a)
  or_refused-ok e = rw (e, or_refused) (rw e refl)

  pub or_refused-internal :
      {x : String}
      → m s ≡ (end, err (internal x))
      → or_refused m handler s ≡ (end, err (internal x))
  or_refused-internal e = rw (e, or_refused) (rw e refl)

  pub or_refused-refused : m s ≡ (end, err gate_refused) → or_refused m handler s ≡ handler end
  or_refused-refused e = rw (e, or_refused) (rw e refl)

module _ {ℓ κ μ} {S : Type ℓ} {A : Type κ} {B : Type μ} (m : M S A) (f : A → M S B) (s : S) where
  pub bind-ok : {mid : S} {a : A} → m s ≡ (mid, ok a) → (m >>= f) s ≡ f a mid
  bind-ok e = rw (e, ◌>>=◌) (rw e refl)

  pub bind-err : {x : Fault} → (m s).1 ≡ err x → (m >>= f) s ≡ ((m s).0, err x)
  bind-err e = rw (e, ◌>>=◌) refl

module _ {ℓ} {S : Type ℓ} (b : Bool) (x : Fault) (s : S) where
  pub guard-true : b ≡ true → guard b x s ≡ (s, ok tt)
  guard-true e = rw (e, guard) refl

  pub guard-false : b ≡ false → guard b x s ≡ (s, err x)
  guard-false e = rw (e, guard) refl
