-- ===== src/Store/Keys/Order.antt =====
-- Sorted keys without neighbours that repeat are all different.

use text.Mathlib.TextEquality.{Char-path}
use nox_yard.Prelude.{every, ℕ, String, ◌≡◌, refl, Bool, true, false, ◌&&◌, List, [], ◌∷◌, arith}
use nox_yard.Store.Keys.{codes, codes_le, text_le, insert_key, sort_strings}

codes_le_total : (xs ys : List ℕ) → codes_le xs ys ≡ false → codes_le ys xs ≡ true
unfolding codes_le
codes_le_total [] ys h = cc
codes_le_total (x ∷ xs) [] h = refl
codes_le_total (x ∷ xs) (y ∷ ys) h = ground (arith, codes_le_total xs ys)

codes_le_trans :
    (xs ys zs : List ℕ) → codes_le xs ys ≡ true → codes_le ys zs ≡ true → codes_le xs zs ≡ true
unfolding codes_le
codes_le_trans [] ys zs h k = refl
codes_le_trans (x ∷ xs) [] zs h k = cc
codes_le_trans (x ∷ xs) (y ∷ ys) [] h k = cc
codes_le_trans (x ∷ xs) (y ∷ ys) (z ∷ zs) h k = ground (arith, codes_le_trans xs ys zs)

codes_le_antisymm : (xs ys : List ℕ) → codes_le xs ys ≡ true → codes_le ys xs ≡ true → xs ≡ ys
unfolding codes_le
codes_le_antisymm [] [] h k = refl
codes_le_antisymm [] (y ∷ ys) h k = cc
codes_le_antisymm (x ∷ xs) [] h k = cc
codes_le_antisymm (x ∷ xs) (y ∷ ys) h k = ground (arith, codes_le_antisymm xs ys)

codes-injective : (s t : String) → codes s ≡ codes t → s ≡ t
codes-injective String.[] String.[] h = refl
codes-injective String.[] (String.◌∷◌ c t) h = cc
codes-injective (String.◌∷◌ c s) String.[] h = cc
codes-injective (String.◌∷◌ c s) (String.◌∷◌ d t) h =
    cc (Char-path c d (cc), codes-injective s t (cc))

pub text_le_total : (s t : String) → text_le s t ≡ false → text_le t s ≡ true
unfolding text_le
text_le_total s t h = codes_le_total (codes s) (codes t) h

pub text_le_trans : (s t u : String) → text_le s t ≡ true → text_le t u ≡ true → text_le s u ≡ true
unfolding text_le
text_le_trans s t u h k = codes_le_trans (codes s) (codes t) (codes u) h k

pub text_le_antisymm : (s t : String) → text_le s t ≡ true → text_le t s ≡ true → s ≡ t
unfolding text_le
text_le_antisymm s t h k = codes-injective s t (codes_le_antisymm (codes s) (codes t) h k)

-- Each key is below those behind it.
abbrev pub is_sorted : List String → Bool
is_sorted [] = true
is_sorted (x ∷ xs) = every (text_le x) xs && is_sorted xs

every-text_le :
    (s t : String) (xs : List String)
    → text_le s t ≡ true
    → every (text_le t) xs ≡ true
    → every (text_le s) xs ≡ true
every-text_le s t [] h k = refl
every-text_le s t (x ∷ xs) h k = ground (arith, every-text_le s t xs h, text_le_trans s t x h)

every-insert_key :
    (p : String → Bool) (k : String) (xs : List String)
    → every p (insert_key k xs) ≡ (p k && every p xs)
unfolding insert_key
every-insert_key p k [] = refl
every-insert_key p k (x ∷ xs) = ground (arith, every-insert_key p k xs)

insert_key_sorted :
    (k : String) (xs : List String) → is_sorted xs ≡ true → is_sorted (insert_key k xs) ≡ true
unfolding insert_key
insert_key_sorted k [] h = refl
insert_key_sorted k (x ∷ xs) h = ground (
  arith,
  insert_key_sorted k xs,
  text_le_total k x,
  every-text_le k x xs,
  every-insert_key (text_le x) k xs,
)

pub sort_strings_sorted : (xs : List String) → is_sorted (sort_strings xs) ≡ true
unfolding sort_strings
sort_strings_sorted [] = refl
sort_strings_sorted (x ∷ xs) = insert_key_sorted x (sort_strings xs) (sort_strings_sorted xs)

pub every-sort_strings :
    (p : String → Bool) (xs : List String) → every p (sort_strings xs) ≡ every p xs
unfolding sort_strings
every-sort_strings p [] = refl
every-sort_strings p (x ∷ xs) = rw (every-insert_key p x (sort_strings xs), every-sort_strings p xs)
