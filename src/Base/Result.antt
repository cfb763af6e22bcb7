-- ===== src/Base/Result.antt =====
-- Code that raises: a value, or the error raised.
use mathlib.Core.Path.{◌≡◌, refl}
use mathlib.Core.Logic.{◌⊎◌, inl, inr}
use native.Mathlib.Omega.{arith}

pub data Fallible {ℓ} (E : Type 0) (A : Type ℓ) : Type ℓ where
  ok : A → Fallible E A
  err : E → Fallible E A

module _ {ℓ} {E : Type 0} {A : Type ℓ} where
  infixl 5 ◌>>=◌
  abbrev pub ◌>>=◌ {κ} : {B : Type κ} → Fallible E A → (A → Fallible E B) → Fallible E B
  ok a >>= f = f a
  err e >>= f = err e

  -- What follows a bind that succeeds.
  pub >>=-eq-ok {κ} :
      {B : Type κ} (first : Fallible E A) (next : A → Fallible E B) {res : B}
      → (first >>= next) ≡ ok res
      → (x : A) × (first ≡ ok x) × (next x ≡ ok res)
  >>=-eq-ok (err e) next raised = absurd (ground arith)
  >>=-eq-ok (ok x) next went = (x, refl, went)

  pub Fallible-cases : (m : Fallible E A) → ((a : A) × (m ≡ ok a)) ⊎ ((e : E) × (m ≡ err e))
  Fallible-cases (ok a) = inl (a, refl)
  Fallible-cases (err e) = inr (e, refl)
