-- ===== src/Store/Keys/Sets.antt =====
-- Sorting and dropping repeats keep the set of non-empty keys.
use nox_yard.Prelude.{
  ◌=ₛ◌, Bool-cases, eq_of_test, mem, String, ◌≡◌, refl, ◌∙◌, inl, inr, Bool, false, ◌&&◌, ◌||◌, not,
  Option, none, some, List, [], ◌∷◌, arith, eq_iff,
}
use nox_yard.Store.Keys.{insert_key, sort_strings, drop_repeats, unique_keys}

mem-insert_key : (r k : String) (xs : List String) → mem r (insert_key k xs) ≡ (k =ₛ r || mem r xs)
unfolding insert_key
mem-insert_key r k [] = refl
mem-insert_key r k (x ∷ xs) = ground (arith, mem-insert_key r k xs)

mem-sort_strings : (r : String) (xs : List String) → mem r (sort_strings xs) ≡ mem r xs
unfolding sort_strings
mem-sort_strings r [] = refl
mem-sort_strings r (x ∷ xs) = rw (mem-insert_key r x (sort_strings xs), mem-sort_strings r xs)

abbrev is_last : Option String → String → Bool
is_last none r = false
is_last (some k) r = k =ₛ r

mem-drop_repeats :
    (r : String) (last : Option String) (xs : List String)
    → (r =ₛ "") ≡ false
    → (is_last last r || mem r (drop_repeats last xs)) ≡ (is_last last r || mem r xs)
unfolding drop_repeats
mem-drop_repeats r last [] h = refl
mem-drop_repeats r none (x ∷ xs) h = ground (
  arith,
  mem-drop_repeats r none xs h,
  mem-drop_repeats r (some x) xs h,
  eq_iff x "",
  eq_iff x r,
  eq_iff r "",
)
mem-drop_repeats r (some k) (x ∷ xs) h = ground (
  arith,
  mem-drop_repeats r (some k) xs h,
  mem-drop_repeats r (some x) xs h,
  eq_iff x "",
  eq_iff x r,
  eq_iff r "",
  eq_iff k x,
)

drop_repeats-empty :
    (last : Option String) (xs : List String) → mem "" (drop_repeats last xs) ≡ false
unfolding drop_repeats
drop_repeats-empty last [] = refl
drop_repeats-empty none (x ∷ xs) =
    ground (arith, drop_repeats-empty none xs, drop_repeats-empty (some x) xs)
drop_repeats-empty (some k) (x ∷ xs) =
    ground (arith, drop_repeats-empty (some k) xs, drop_repeats-empty (some x) xs)

-- A key is kept exactly when it is given and not empty.
pub mem-unique_keys :
    (r : String) (xs : List String) → mem r (unique_keys xs) ≡ (not (r =ₛ "") && mem r xs)
unfolding unique_keys
mem-unique_keys r xs = elim (Bool-cases (r =ₛ "")) [
  | inl e ↦ rw (eq_of_test r "" e) (drop_repeats-empty none (sort_strings xs))
  | inr n ↦ rw n (mem-drop_repeats r none (sort_strings xs) n ∙ mem-sort_strings r xs)
]
