-- ===== src/Store/Keys/Distinct.antt =====
-- `unique` in insertJob: every key once, so a job never meets its own lock.
use nox_yard.Prelude.{
  inr, inl, ◌∙◌, err, Option-cases, &&-true, false, is_some, ◌||◌, is_ok, ◌=ₛ◌, every, mem, String,
  ◌≡◌, refl, Bool, true, ◌&&◌, not, Option, none, some, List, [], ◌∷◌, arith, eq_iff,
}
use nox_yard.Store.Types.{operation_conflict, Lock}
use nox_yard.Store.Tables.{lock_holder}
use nox_yard.Store.Keys.{text_le, sort_strings, drop_repeats, unique_keys, claim_keys}
use nox_yard.Store.Keys.Order.{every-sort_strings, sort_strings_sorted, text_le_antisymm, is_sorted}

abbrev pub is_distinct : List String → Bool
is_distinct [] = true
is_distinct (x ∷ xs) = not (mem x xs) && is_distinct xs

abbrev is_after : Option String → List String → Bool
is_after none xs = true
is_after (some k) xs = every (text_le k) xs

abbrev is_missing : Option String → List String → Bool
is_missing none xs = true
is_missing (some k) xs = not (mem k xs)

every-mem :
    (p : String → Bool) (k : String) (xs : List String)
    → every p xs ≡ true
    → mem k xs ≡ true
    → p k ≡ true
every-mem p k [] h m = cc
every-mem p k (x ∷ xs) h m = ground (arith, every-mem p k xs, eq_iff x k)

mem_of_drop_repeats :
    (k : String) (last : Option String) (xs : List String)
    → mem k (drop_repeats last xs) ≡ true
    → mem k xs ≡ true
unfolding drop_repeats
mem_of_drop_repeats k last [] h = h
mem_of_drop_repeats k none (x ∷ xs) h =
    ground (arith, mem_of_drop_repeats k none xs, mem_of_drop_repeats k (some x) xs)
mem_of_drop_repeats k (some l) (x ∷ xs) h =
    ground (arith, mem_of_drop_repeats k (some l) xs, mem_of_drop_repeats k (some x) xs)

-- A smaller key does not come back later.
later :
    (k x : String) (xs : List String)
    → text_le k x ≡ true
    → every (text_le x) xs ≡ true
    → (k =ₛ x) ≡ false
    → mem k (drop_repeats (some x) xs) ≡ false
later k x xs below above ne = ground (
  arith,
  mem_of_drop_repeats k (some x) xs,
  every-mem (text_le x) k xs,
  text_le_antisymm k x,
  eq_iff k x,
)

-- What the loop keeps does not repeat the last key, nor itself.
drop_repeats-distinct :
    (last : Option String) (xs : List String)
    → is_sorted xs ≡ true
    → is_after last xs ≡ true
    → (is_distinct (drop_repeats last xs) && is_missing last (drop_repeats last xs)) ≡ true
unfolding drop_repeats
drop_repeats-distinct none [] s a = refl
drop_repeats-distinct (some k) [] s a = refl
drop_repeats-distinct none (x ∷ xs) s a =
    ground (arith, drop_repeats-distinct none xs, drop_repeats-distinct (some x) xs)
drop_repeats-distinct (some k) (x ∷ xs) s a = ground (
  arith,
  drop_repeats-distinct (some k) xs,
  drop_repeats-distinct (some x) xs,
  eq_iff k x,
  eq_iff x k,
  later k x xs,
)

pub unique_keys-distinct : (xs : List String) → is_distinct (unique_keys xs) ≡ true
unfolding unique_keys
unique_keys-distinct xs =
    (&&-true _ _ (drop_repeats-distinct none (sort_strings xs) (sort_strings_sorted xs) refl)).0

abbrev holds_at : Option String → (String → Bool) → Bool
holds_at none p = true
holds_at (some k) p = p k

every-drop_repeats :
    (p : String → Bool) (last : Option String) (xs : List String)
    → (holds_at last p && every p (drop_repeats last xs))
      ≡ (holds_at last p && every (λ k. k =ₛ "" || p k) xs)
unfolding drop_repeats
every-drop_repeats p last [] = refl
every-drop_repeats p none (x ∷ xs) =
    ground (arith, every-drop_repeats p none xs, every-drop_repeats p (some x) xs)
every-drop_repeats p (some k) (x ∷ xs) =
    ground (arith, every-drop_repeats p (some k) xs, every-drop_repeats p (some x) xs, eq_iff k x)

pub every-unique_keys :
    (p : String → Bool) (xs : List String)
    → every p (unique_keys xs) ≡ every (λ k. k =ₛ "" || p k) xs
unfolding unique_keys
every-unique_keys p xs =
    every-drop_repeats p none (sort_strings xs) ∙ every-sort_strings (λ k. k =ₛ "" || p k) xs

-- Whether no job holds the key.
abbrev pub is_free : List Lock → String → Bool
is_free locks k = not (is_some (lock_holder k locks))

every-is_free-cons :
    (l : Lock) (locks : List Lock) (keys : List String)
    → mem l.resource keys ≡ false
    → every (is_free (l ∷ locks)) keys ≡ every (is_free locks) keys
unfolding lock_holder
every-is_free-cons l locks [] h = refl
every-is_free-cons l locks (k ∷ ks) h =
    ground (arith, every-is_free-cons l locks ks, eq_iff l.resource k, eq_iff k l.resource)

-- Claiming different keys succeeds exactly when all of them are free.
pub claim_keys-decides :
    (keys : List String) (id : String) (locks : List Lock)
    → is_distinct keys ≡ true
    → is_ok (claim_keys keys id locks) ≡ every (is_free locks) keys
unfolding claim_keys
claim_keys-decides [] id locks d = refl
claim_keys-decides (k ∷ ks) id locks d = elim (Option-cases (lock_holder k locks)) [
  | inl e ↦
      let l : Lock = record { resource = k; holder = id } in
      rw (e, claim_keys)
        (ground (arith, claim_keys-decides ks id (l ∷ locks), every-is_free-cons l locks ks))
  | inr (o, e) ↦ rw (e, claim_keys) refl
]

pub claim_keys-refuses :
    (keys : List String) (id : String) (locks : List Lock)
    → is_ok (claim_keys keys id locks) ≡ false
    → claim_keys keys id locks ≡ err operation_conflict
unfolding claim_keys
claim_keys-refuses [] id locks h = cc
claim_keys-refuses (k ∷ ks) id locks h = elim (Option-cases (lock_holder k locks)) [
  | inl e ↦ rw (e, claim_keys) (claim_keys-refuses ks id _ (rw (e, claim_keys) at h))
  | inr (o, e) ↦ rw (e, claim_keys) refl
]
