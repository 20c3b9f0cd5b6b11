-- ===== src/Prelude/Results.antt =====
-- What a Go function returns as `(value, error)`, its chaining, and how a chain succeeds.

use mathlib.Core.Path.{◌≡◌, refl}
use mathlib.Core.Bool.{Bool, true, false}
use mathlib.Core.Logic.{◌⊎◌, inl, inr}

pub data Result (Failure Value : Type 0) : Type 0 where
  err : Failure → Result Failure Value
  ok : Value → Result Failure Value

module _ {Failure : Type 0} where
  infixl 5 ◌>>=◌ ◌>>◌
  abbrev pub ◌>>=◌ : {V W : Type 0} → Result Failure V → (V → Result Failure W) → Result Failure W
  err problem >>= continue = err problem
  ok value >>= continue = continue value

  abbrev pub ◌>>◌ : {W : Type 0} → Result Failure (Unit {0}) → Result Failure W → Result Failure W
  check >> continue = check >>= λ _. continue

  -- `if !condition { return problem }`.
  abbrev pub guard : Bool → Failure → Result Failure (Unit {0})
  guard false problem = err problem
  guard true problem = ok tt

  abbrev pub is_ok : {V : Type 0} → Result Failure V → Bool
  is_ok (err problem) = false
  is_ok (ok value) = true

  pub >>=-eq-ok :
      {V W : Type 0} (first : Result Failure V) (continue : V → Result Failure W) {w : W}
      → (first >>= continue) ≡ ok w
      → (v : V) × (first ≡ ok v) × (continue v ≡ ok w)
  >>=-eq-ok (err problem) continue h = cc
  >>=-eq-ok (ok value) continue h = (value, refl, h)

  pub guard-eq-ok :
      (condition : Bool) (problem : Failure) {u : Unit {0}}
      → guard condition problem ≡ ok u
      → condition ≡ true
  guard-eq-ok false problem h = cc
  guard-eq-ok true problem h = refl

  pub Result-cases :
      {V : Type 0} (r : Result Failure V)
      → ((problem : Failure) × (r ≡ err problem)) ⊎ ((v : V) × (r ≡ ok v))
  Result-cases (err problem) = inl (problem, refl)
  Result-cases (ok value) = inr (value, refl)

  -- What follows a failure fails.
  pub >>=-refuses :
      {V W : Type 0} (first : Result Failure V) (continue : V → Result Failure W)
      → is_ok first ≡ false
      → is_ok (first >>= continue) ≡ false
  >>=-refuses (err problem) continue h = refl
  >>=-refuses (ok value) continue h = cc
