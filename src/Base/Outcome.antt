-- ===== src/Base/Outcome.antt =====
-- The source's `Result<A, E>`, with its `?` as the monad's bind.
use mathlib.Core.Path.{◌≡◌, refl}
use mathlib.Core.Logic.{◌⊎◌, inl, inr}

pub data Result {κ ℓ} (E : Type κ) (A : Type ℓ) : Type (κ ⊔ ℓ) where
  err : E → Result E A
  ok : A → Result E A

module _ {κ ℓ} {E : Type κ} {A : Type ℓ} where
  -- What a result can be.
  pub Result-cases : (r : Result E A) → ((x : A) × (r ≡ ok x)) ⊎ ((e : E) × (r ≡ err e))
  Result-cases (err e) = inr (e, refl)
  Result-cases (ok x) = inl (x, refl)

module _ {κ ℓ μ} {E : Type κ} {A : Type ℓ} {B : Type μ} where
  infixl 5 ◌>>=◌
  abbrev pub ◌>>=◌ : Result E A → (A → Result E B) → Result E B
  err e >>= step = err e
  ok x >>= step = step x

  -- Both halves of a chain that succeeded did.
  pub >>=-eq-ok :
      (r : Result E A) (step : A → Result E B) {out : B}
      → (r >>= step) ≡ ok out
      → (x : A) × (r ≡ ok x) × (step x ≡ ok out)
  >>=-eq-ok (err e) step chain = cc
  >>=-eq-ok (ok x) step chain = (x, refl, chain)

module _ {κ μ} {E : Type κ} {B : Type μ} where
  infixl 5 ◌>>◌
  abbrev pub ◌>>◌ : Result E (Unit {0}) → Result E B → Result E B
  check >> rest = check >>= λ _. rest

  pub >>-eq-ok :
      (check : Result E (Unit {0})) (rest : Result E B) {out : B}
      → (check >> rest) ≡ ok out
      → (check ≡ ok tt) × (rest ≡ ok out)
  >>-eq-ok check rest chain =
      let (x, passed, done) = >>=-eq-ok check (λ _. rest) chain in (passed, done)
