-- ===== src/Store/Due.antt =====
-- store/schedules.go, DueSchedules: ORDER BY next_at, key LIMIT 4.
use nox_yard.Prelude.{
  subst, ◌∙◌, &&-true, inr, ◌⊎◌, inl, Bool-cases, length, take, select, every, ℕ, zero, suc, ◌≤◌,
  ◌≡◌, refl, Bool, true, false, ◌&&◌, List, [], ◌∷◌, arith,
}
use nox_yard.Store.Types.{Plans, ProjectSchedule}
use nox_yard.Store.Keys.Order.{text_le_total, text_le_trans}
use nox_yard.Store.Schedules.{is_due, due_schedules, due_before, insert_due, sort_due}

abbrev pub is_due_sorted : List ProjectSchedule → Bool
is_due_sorted [] = true
is_due_sorted (x ∷ xs) = every (due_before x) xs && is_due_sorted xs

due_before_total : (a b : ProjectSchedule) → due_before a b ≡ false → due_before b a ≡ true
unfolding due_before
due_before_total a b h = ground (arith, text_le_total a.key b.key)

due_before_trans :
    (a b c : ProjectSchedule)
    → due_before a b ≡ true
    → due_before b c ≡ true
    → due_before a c ≡ true
unfolding due_before
due_before_trans a b c h k = ground (arith, text_le_trans a.key b.key c.key)

every-due_before :
    (a b : ProjectSchedule) (xs : List ProjectSchedule)
    → due_before a b ≡ true
    → every (due_before b) xs ≡ true
    → every (due_before a) xs ≡ true
every-due_before a b [] h k = refl
every-due_before a b (x ∷ xs) h k =
    ground (arith, every-due_before a b xs h, due_before_trans a b x h)

every-insert_due :
    (p : ProjectSchedule → Bool) (a : ProjectSchedule) (xs : List ProjectSchedule)
    → every p (insert_due a xs) ≡ (p a && every p xs)
unfolding insert_due
every-insert_due p a [] = refl
every-insert_due p a (x ∷ xs) = ground (arith, every-insert_due p a xs)

every-sort_due :
    (p : ProjectSchedule → Bool) (xs : List ProjectSchedule) → every p (sort_due xs) ≡ every p xs
unfolding sort_due
every-sort_due p [] = refl
every-sort_due p (x ∷ xs) = rw (every-insert_due p x (sort_due xs), every-sort_due p xs)

insert_due_sorted :
    (a : ProjectSchedule) (xs : List ProjectSchedule)
    → is_due_sorted xs ≡ true
    → is_due_sorted (insert_due a xs) ≡ true
unfolding insert_due
insert_due_sorted a [] h = refl
insert_due_sorted a (x ∷ xs) h = ground (
  arith,
  insert_due_sorted a xs,
  due_before_total a x,
  every-due_before a x xs,
  every-insert_due (due_before x) a xs,
)

sort_due_sorted : (xs : List ProjectSchedule) → is_due_sorted (sort_due xs) ≡ true
unfolding sort_due
sort_due_sorted [] = refl
sort_due_sorted (x ∷ xs) = insert_due_sorted x (sort_due xs) (sort_due_sorted xs)

every-take {ℓ} :
    {A : Type ℓ} (p : A → Bool) (n : ℕ) (xs : List A)
    → every p xs ≡ true
    → every p (take n xs) ≡ true
every-take p zero xs h = refl
every-take p (suc n) [] h = refl
every-take p (suc n) (x ∷ xs) h = ground (arith, every-take p n xs)

take_sorted :
    (n : ℕ) (xs : List ProjectSchedule) → is_due_sorted xs ≡ true → is_due_sorted (take n xs) ≡ true
take_sorted zero xs h = refl
take_sorted (suc n) [] h = refl
take_sorted (suc n) (x ∷ xs) h = ground (arith, take_sorted n xs, every-take (due_before x) n xs)

every-select :
    (p : ProjectSchedule → Bool) (xs : List ProjectSchedule) → every p (select p xs) ≡ true
every-select p [] = refl
every-select p (x ∷ xs) = ground (arith, every-select p xs)

length-take_le {ℓ} : {A : Type ℓ} (n : ℕ) (xs : List A) → length (take n xs) ≤ n
length-take_le zero xs = omega arith
length-take_le (suc n) [] = omega arith
length-take_le (suc n) (x ∷ xs) = omega (arith, length-take_le n xs)

-- Membership, with the place of the schedule left open.
abbrev pub In : ProjectSchedule → List ProjectSchedule → Type 0
In s [] = ⊥
In s (x ∷ xs) = (x ≡ s) ⊎ In s xs

In-insert_due :
    (s a : ProjectSchedule) (xs : List ProjectSchedule) → In s (a ∷ xs) → In s (insert_due a xs)
unfolding insert_due
In-insert_due s a [] m = m
In-insert_due s a (x ∷ xs) m = elim (Bool-cases (due_before a x)) [
  | inl e ↦ rw e m
  | inr e ↦ rw e (elim m [
    | inl p ↦ inr (In-insert_due s a xs (inl p))
    | inr (inl p) ↦ inl p
    | inr (inr p) ↦ inr (In-insert_due s a xs (inr p))
  ])
]

In-sort_due : (s : ProjectSchedule) (xs : List ProjectSchedule) → In s xs → In s (sort_due xs)
unfolding sort_due
In-sort_due s [] m = m
In-sort_due s (x ∷ xs) (inl p) = In-insert_due s x (sort_due xs) (inl p)
In-sort_due s (x ∷ xs) (inr p) = In-insert_due s x (sort_due xs) (inr (In-sort_due s xs p))

In-select :
    (p : ProjectSchedule → Bool) (s : ProjectSchedule) (xs : List ProjectSchedule)
    → In s xs
    → p s ≡ true
    → In s (select p xs)
In-select p s [] m h = m
In-select p s (x ∷ xs) (inl e) h = rw (e, h) (inl refl)
In-select p s (x ∷ xs) (inr m) h = elim (Bool-cases (p x)) [
  | inl e ↦ rw e (inr (In-select p s xs m h))
  | inr e ↦ rw e (In-select p s xs m h)
]

every-In :
    (p : ProjectSchedule → Bool) (s : ProjectSchedule) (xs : List ProjectSchedule)
    → every p xs ≡ true
    → In s xs
    → p s ≡ true
every-In p s [] h m = absurd m
every-In p s (x ∷ xs) h (inl e) = rw (← e) (&&-true (p x) (every p xs) h).0
every-In p s (x ∷ xs) h (inr m) = every-In p s xs (&&-true (p x) (every p xs) h).1 m

-- What LIMIT leaves out comes after all that it keeps.
In-take :
    (n : ℕ) (s : ProjectSchedule) (xs : List ProjectSchedule)
    → is_due_sorted xs ≡ true
    → In s xs
    → In s (take n xs) ⊎ (every (λ k. due_before k s) (take n xs) ≡ true) × (length (take n xs) ≡ n)
In-take zero s xs h m = inr (refl, refl)
In-take (suc n) s [] h m = absurd m
In-take (suc n) s (x ∷ xs) h (inl e) = inl (inl e)
In-take (suc n) s (x ∷ xs) h (inr m) = elim (In-take n s xs (&&-true _ _ h).1 m) [
  | inl k ↦ inl (inr k)
  | inr (b, l) ↦
      inr (rw (every-In (due_before x) s xs (&&-true _ _ h).0 m, b) refl, omega (arith, l))
]

-- The orderings, the filter and the limit bring in no schedule of their own.
In-select_from :
    (p : ProjectSchedule → Bool) (s : ProjectSchedule) (xs : List ProjectSchedule)
    → In s (select p xs)
    → In s xs
In-select_from p s [] m = m
In-select_from p s (x ∷ xs) m = elim (Bool-cases (p x)) [
  | inl e ↦
      let same : select p (x ∷ xs) ≡ x ∷ select p xs = rw e refl in
      elim (subst (In s) same m) [ inl k ↦ inl k | inr k ↦ inr (In-select_from p s xs k) ]
  | inr e ↦
      let same : select p (x ∷ xs) ≡ select p xs = rw e refl in
      inr (In-select_from p s xs (subst (In s) same m))
]

In-insert_due_from :
    (s a : ProjectSchedule) (xs : List ProjectSchedule) → In s (insert_due a xs) → In s (a ∷ xs)
unfolding insert_due
In-insert_due_from s a [] m = m
In-insert_due_from s a (x ∷ xs) m = elim (Bool-cases (due_before a x)) [
  | inl e ↦ let same : insert_due a (x ∷ xs) ≡ a ∷ x ∷ xs = rw e refl in subst (In s) same m
  | inr e ↦
      let same : insert_due a (x ∷ xs) ≡ x ∷ insert_due a xs = rw e refl in
      elim (subst (In s) same m) [
        | inl k ↦ inr (inl k)
        | inr k ↦ elim (In-insert_due_from s a xs k) [ inl f ↦ inl f | inr l ↦ inr (inr l) ]
      ]
]

In-sort_due_from : (s : ProjectSchedule) (xs : List ProjectSchedule) → In s (sort_due xs) → In s xs
unfolding sort_due
In-sort_due_from s [] m = m
In-sort_due_from s (x ∷ xs) m = elim (In-insert_due_from s x (sort_due xs) m) [
  | inl k ↦ inl k
  | inr k ↦ inr (In-sort_due_from s xs k)
]

In-take_from :
    (n : ℕ) (s : ProjectSchedule) (xs : List ProjectSchedule) → In s (take n xs) → In s xs
In-take_from zero s xs m = absurd m
In-take_from (suc n) s [] m = m
In-take_from (suc n) s (x ∷ xs) (inl e) = inl e
In-take_from (suc n) s (x ∷ xs) (inr m) = inr (In-take_from n s xs m)

-- At most four schedules come back, all of the table, enabled and due, by their next time and then
-- their key; each due schedule of the table is among them, unless four come back and each of them
-- is ordered before it.
pub due_schedules_lem :
    (now : ℕ) (p : Plans)
    → let due = due_schedules now p in
      (length due ≤ 4)
      × (every (is_due now) due ≡ true)
      × (is_due_sorted due ≡ true)
      × ((s : ProjectSchedule) → In s due → In s p.schedules)
      × ((s : ProjectSchedule)
          → In s p.schedules
          → is_due now s ≡ true
          → In s due ⊎ (every (λ k. due_before k s) due ≡ true) × (length due ≡ 4))
unfolding due_schedules
due_schedules_lem now p =
    let rows : List ProjectSchedule = select (is_due now) p.schedules in
    (
      length-take_le 4 (sort_due rows),
      every-take (is_due now) 4 (sort_due rows)
          (every-sort_due (is_due now) rows ∙ every-select (is_due now) p.schedules),
      take_sorted 4 (sort_due rows) (sort_due_sorted rows),
      λ s m.
          In-select_from (is_due now) s p.schedules
            (In-sort_due_from s rows (In-take_from 4 s (sort_due rows) m)),
      λ s m h.
          In-take 4 s (sort_due rows) (sort_due_sorted rows)
            (In-sort_due s rows (In-select (is_due now) s p.schedules m h)),
    )
