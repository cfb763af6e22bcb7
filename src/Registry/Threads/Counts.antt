-- ===== src/Registry/Threads/Counts.antt =====
-- registry.py: sums over the acquires, when one of them moves to another phase.
use test_serv.Base.{
  ℕ, zero, suc, ◌+◌, ◌≤◌, ◌≡◌, ◌⊎◌, inl, inr, some, List, [], ◌∷◌, arith, ◌==◌, get_elem?, true,
  false,
}
use test_serv.Registry.Threads.{total, replace}

module _ {ℓ} {A : Type ℓ} where
  pub total-replace :
      (f : A → ℕ) (i : ℕ) (x y : A) (xs : List A)
      → get_elem? xs i ≡ some x
      → total f (replace i y xs) + f x ≡ total f xs + f y
  total-replace f i x y [] h = absurd (ground arith)
  total-replace f zero x y (z ∷ xs) h = let same : z ≡ x = ground arith in rw same (omega arith)
  total-replace f (suc i) x y (z ∷ xs) h = omega (arith, total-replace f i x y xs h)

  -- An entry of a replaced list is the new one, at its place, or an old one elsewhere.
  pub get_elem?-replace :
      (i j : ℕ) (x y z : A) (xs : List A)
      → get_elem? (replace i y xs) j ≡ some z
      → get_elem? xs i ≡ some x
      → ((i == j) ≡ true) × (z ≡ y) ⊎ (((i == j) ≡ false) × (get_elem? xs j ≡ some z))
  get_elem?-replace i j x y z [] h e = absurd (ground arith)
  get_elem?-replace zero zero x y z (v ∷ xs) h e = inl (ground arith, ground arith)
  get_elem?-replace zero (suc j) x y z (v ∷ xs) h e = inr (ground arith, h)
  get_elem?-replace (suc i) zero x y z (v ∷ xs) h e = inr (ground arith, h)
  get_elem?-replace (suc i) (suc j) x y z (v ∷ xs) h e = elim (get_elem?-replace i j x y z xs h e) [
    | inl (m, p) ↦ inl (ground arith, p)
    | inr (m, p) ↦ inr (ground arith, p)
  ]

  pub total-one :
      (f : A → ℕ) (i : ℕ) (x : A) (xs : List A) → get_elem? xs i ≡ some x → f x ≤ total f xs
  total-one f i x [] h = absurd (ground arith)
  total-one f zero x (z ∷ xs) h = let same : z ≡ x = ground arith in rw same (omega arith)
  total-one f (suc i) x (z ∷ xs) h = omega (arith, total-one f i x xs h)

  pub total-two :
      (f : A → ℕ) (i j : ℕ) (x y : A) (xs : List A)
      → (i == j) ≡ false
      → get_elem? xs i ≡ some x
      → get_elem? xs j ≡ some y
      → f x + f y ≤ total f xs
  total-two f i j x y [] n h e = absurd (ground arith)
  total-two f zero zero x y (z ∷ xs) n h e = absurd (ground arith)
  total-two f zero (suc j) x y (z ∷ xs) n h e =
      let same : z ≡ x = ground arith in rw same (omega (arith, total-one f j y xs e))
  total-two f (suc i) zero x y (z ∷ xs) n h e =
      let same : z ≡ y = ground arith in rw same (omega (arith, total-one f i x xs h))
  total-two f (suc i) (suc j) x y (z ∷ xs) n h e =
      let m : (i == j) ≡ false = ground arith in omega (arith, total-two f i j x y xs m h e)
