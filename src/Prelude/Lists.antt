-- ===== src/Prelude/Lists.antt =====
-- Lists measured by native numbers, and lists of texts as sets.
use Prim.Native.Nat.{ℕ, zero, suc, ◌+◌}
use mathlib.Core.Path.{◌≡◌, refl}
use mathlib.Core.Bool.{Bool, true, false, ◌&&◌, ◌||◌}
use mathlib.Core.List.{List, [], ◌∷◌, ◌++◌}
use mathlib.Core.Option.{Option, none, some}
use native.Mathlib.Omega.{arith}
use nox_yard.Prelude.Tests.{if◌then◌else◌, ◌==◌}

module _ {ℓ} {A : Type ℓ} where
  abbrev pub length : List A → ℕ
  length [] = 0
  length (x ∷ xs) = suc (length xs)

  abbrev pub get_elem? : List A → ℕ → Option A
  get_elem? [] i = none
  get_elem? (x ∷ xs) zero = some x
  get_elem? (x ∷ xs) (suc i) = get_elem? xs i

  abbrev pub take : ℕ → List A → List A
  take zero xs = []
  take (suc n) [] = []
  take (suc n) (x ∷ xs) = x ∷ take n xs

  pub length-append : (xs ys : List A) → length (xs ++ ys) ≡ length xs + length ys
  length-append [] ys = omega arith
  length-append (x ∷ xs) ys = omega (arith, length-append xs ys)

  -- The rows that pass a test, in their order.
  abbrev pub select : (A → Bool) → List A → List A
  select p [] = []
  select p (x ∷ xs) = let rest = select p xs in if p x then x ∷ rest else rest

  -- Whether some element passes a test.
  abbrev pub exists : (A → Bool) → List A → Bool
  exists p [] = false
  exists p (x ∷ xs) = p x || exists p xs

  -- Whether every element passes a test.
  abbrev pub every : (A → Bool) → List A → Bool
  every p [] = true
  every p (x ∷ xs) = p x && every p xs

-- Membership of a number in a list, as a test.
abbrev pub member : ℕ → List ℕ → Bool
member n [] = false
member n (m ∷ ms) = n == m || member n ms

abbrev pub filter_length {ℓ} : {A : Type ℓ} → (A → Bool) → List A → ℕ
filter_length p [] = 0
filter_length p (x ∷ xs) = (if p x then 1 else 0) + filter_length p xs

-- slices.Reverse
abbrev pub backwards {ℓ} : {A : Type ℓ} → List A → List A
backwards [] = []
backwards (x ∷ xs) = backwards xs ++ x ∷ []

module _ {ℓ} {A : Type ℓ} where
  pub filter_length-append :
      (p : A → Bool) (xs ys : List A)
      → filter_length p (xs ++ ys) ≡ filter_length p xs + filter_length p ys
  filter_length-append p [] ys = omega arith
  filter_length-append p (x ∷ xs) ys = omega (arith, filter_length-append p xs ys)

  pub every-append :
      (p : A → Bool) (xs ys : List A) → every p (xs ++ ys) ≡ (every p xs && every p ys)
  every-append p [] ys = refl
  every-append p (x ∷ xs) ys = ground (arith, every-append p xs ys)

  pub length-backwards : (xs : List A) → length (backwards xs) ≡ length xs
  length-backwards [] = refl
  length-backwards (x ∷ xs) =
      omega (arith, length-append (backwards xs) (x ∷ []), length-backwards xs)

  pub filter_length-backwards :
      (p : A → Bool) (xs : List A) → filter_length p (backwards xs) ≡ filter_length p xs
  filter_length-backwards p [] = refl
  filter_length-backwards p (x ∷ xs) =
      omega (arith, filter_length-append p (backwards xs) (x ∷ []), filter_length-backwards p xs)

  pub every-backwards : (p : A → Bool) (xs : List A) → every p (backwards xs) ≡ every p xs
  every-backwards p [] = refl
  every-backwards p (x ∷ xs) =
      ground (arith, every-append p (backwards xs) (x ∷ []), every-backwards p xs)
