-- ===== src/ComposeOrder/Depth.antt =====
-- composeorder/order.go: the recursion of `visit` never exceeds the number of containers.
use nox_yard.Prelude.{
  ltb, ◌=ₛ◌, if◌then◌else◌, Bool-cases, length, every, member, split, Labels, colon, Result, err,
  ok, ◌>>=◌, ℕ, zero, suc, ◌+◌, ◌≤◌, ◌<◌, String, ◌≡◌, refl, subst, ◌≢◌, inl, inr, Bool, true,
  false, Option, none, some, List, [], ◌∷◌, arith,
}
use nox_yard.ComposeOrder.{
  OrderError, cyclic, unsupported, out_of_fuel, service_of, service_positions, parsed,
  some_positions, named_positions, Visitor, visit_each, visit_values, depends_on, visit, positions,
  order_labels,
}

-- How many of the positions below `n` are not being visited.
unfoldable pub remaining : ℕ → List ℕ → ℕ
remaining zero visiting = 0
remaining (suc n) visiting = (if member n visiting then 0 else 1) + remaining n visiting

remaining-fewer : (n i : ℕ) (visiting : List ℕ) → remaining n (i ∷ visiting) ≤ remaining n visiting
unfolding remaining
remaining-fewer zero i visiting = omega arith
remaining-fewer (suc n) i visiting = ground (arith, remaining-fewer n i visiting)

-- A visit takes a position away.
remaining-less :
    (n i : ℕ) (visiting : List ℕ)
    → i < n
    → member i visiting ≡ false
    → remaining n (i ∷ visiting) < remaining n visiting
unfolding remaining
remaining-less zero i visiting l m = ground arith
remaining-less (suc n) i visiting l m =
    ground (arith, remaining-less n i visiting, remaining-fewer n i visiting)

remaining-none : (n : ℕ) → remaining n [] ≡ n
unfolding remaining
remaining-none zero = refl
remaining-none (suc n) = omega (arith, remaining-none n)

-- A result other than running out of fuel.
unfoldable pub has_fuel : {A : Type 0} → Result OrderError A → Bool
has_fuel (ok a) = true
has_fuel (err cyclic) = true
has_fuel (err unsupported) = true
has_fuel (err out_of_fuel) = false

has_fuel->>= :
    {A B : Type 0} (m : Result OrderError A) (f : A → Result OrderError B)
    → has_fuel m ≡ true
    → ((a : A) → has_fuel (f a) ≡ true)
    → has_fuel (m >>= f) ≡ true
unfolding has_fuel
has_fuel->>= (ok a) f h k = k a
has_fuel->>= (err cyclic) f h k = refl
has_fuel->>= (err unsupported) f h k = refl
has_fuel->>= (err out_of_fuel) f h k = cc

-- The positions that entries name are those of containers.
unfoldable pub all_below : ℕ → List ℕ → Bool
all_below n is = every (λ i. ltb i n) is

service_positions-below :
    (name : String) (n i : ℕ) (ls : List Labels)
    → i + length ls ≤ n
    → all_below n (service_positions name i ls) ≡ true
unfolding all_below service_positions
service_positions-below name n i [] h = refl
service_positions-below name n i (l ∷ ls) h = elim (Bool-cases (service_of l =ₛ name)) [
  | inl e ↦ rw (e, service_positions-below name n (suc i) ls (omega arith)) (ground arith)
  | inr e ↦ rw (e) (service_positions-below name n (suc i) ls (omega arith))
]

-- A visitor that has fuel for every position of a container.
Fuelled : ℕ → Visitor → Type 0
Fuelled n visitor = (i : ℕ) (order : List ℕ) → i < n → has_fuel (visitor i order) ≡ true

visit_each-has_fuel :
    (n : ℕ) (visitor : Visitor) (is order : List ℕ)
    → Fuelled n visitor
    → all_below n is ≡ true
    → has_fuel (visit_each visitor is order) ≡ true
unfolding visit_each all_below Fuelled has_fuel
visit_each-has_fuel n visitor [] order f h = refl
visit_each-has_fuel n visitor (i ∷ is) order f h =
    has_fuel->>= (visitor i order) (visit_each visitor is) (f i order (ground arith))
      (λ after. visit_each-has_fuel n visitor is after f (ground arith))

named_positions-has_fuel :
    (ls : List Labels) (o : Option String) → has_fuel (named_positions ls o) ≡ true
unfolding named_positions some_positions has_fuel
named_positions-has_fuel ls none = refl
named_positions-has_fuel ls (some name) = positions-has_fuel (service_positions name 0 ls)
  where
    positions-has_fuel : (is : List ℕ) → has_fuel (some_positions is) ≡ true
    positions-has_fuel [] = refl
    positions-has_fuel (i ∷ is) = refl

some_positions-ok : (is js : List ℕ) → some_positions is ≡ ok js → is ≡ js
unfolding some_positions
some_positions-ok [] js h = cc
some_positions-ok (i ∷ is) js h = ground arith

named_positions-below :
    (ls : List Labels) (o : Option String) (js : List ℕ)
    → named_positions ls o ≡ ok js
    → all_below (length ls) js ≡ true
unfolding named_positions
named_positions-below ls none js h = cc
named_positions-below ls (some name) js h =
    subst (λ is. all_below (length ls) is ≡ true)
      (some_positions-ok (service_positions name 0 ls) js h)
      (service_positions-below name (length ls) 0 ls (omega arith))

-- A bind whose first part has fuel, with what its success says.
bind-has_fuel :
    {A B : Type 0} (m : Result OrderError A) (f : A → Result OrderError B)
    → has_fuel m ≡ true
    → ((a : A) → m ≡ ok a → has_fuel (f a) ≡ true)
    → has_fuel (m >>= f) ≡ true
unfolding has_fuel
bind-has_fuel (ok a) f h k = k a refl
bind-has_fuel (err cyclic) f h k = refl
bind-has_fuel (err unsupported) f h k = refl
bind-has_fuel (err out_of_fuel) f h k = cc

visit_values-has_fuel :
    (visitor : Visitor) (ls : List Labels) (vs : List String) (order : List ℕ)
    → Fuelled (length ls) visitor
    → has_fuel (visit_values visitor ls vs order) ≡ true
unfolding visit_values has_fuel
visit_values-has_fuel visitor ls [] order f = refl
visit_values-has_fuel visitor ls (v ∷ vs) order f = elim (Bool-cases (v =ₛ "")) [
  | inl e ↦ rw (e) (visit_values-has_fuel visitor ls vs order f)
  | inr e ↦ rw (e) (
      bind-has_fuel (named_positions ls (parsed (split colon v))) _
        (named_positions-has_fuel ls (parsed (split colon v)))
        (λ ds named.
          has_fuel->>= (visit_each visitor ds order) (visit_values visitor ls vs)
            (visit_each-has_fuel (length ls) visitor ds order f
              (named_positions-below ls (parsed (split colon v)) ds named))
            (λ after. visit_values-has_fuel visitor ls vs after f)))
]

visit-has_fuel :
    (n : ℕ) (ls : List Labels) (visiting : List ℕ)
    → remaining (length ls) visiting < n
    → Fuelled (length ls) (visit n ls visiting)
unfolding visit Fuelled has_fuel
visit-has_fuel zero ls visiting l i order b = ground arith
visit-has_fuel (suc n) ls visiting l i order b = elim (Bool-cases (member i visiting)) [
  | inl m ↦ rw (m) refl
  | inr m ↦ elim (Bool-cases (member i order)) [
    | inl k ↦ rw (m, k) refl
    | inr k ↦
        rw (m, k)
          (has_fuel->>= (visit_values (visit n ls (i ∷ visiting)) ls (depends_on ls i) order) _
            (visit_values-has_fuel (visit n ls (i ∷ visiting)) ls (depends_on ls i) order (
              visit-has_fuel n ls (i ∷ visiting)
                (omega (arith, remaining-less (length ls) i visiting b m))))
            (λ after. refl))
  ]
]

positions-below : (n i m : ℕ) → i + m ≤ n → all_below n (positions i m) ≡ true
unfolding all_below positions
positions-below n i zero h = refl
positions-below n i (suc m) h = rw (positions-below n (suc i) m (omega arith)) (ground arith)

order_labels-has_fuel : (ls : List Labels) → has_fuel (order_labels ls) ≡ true
unfolding order_labels
order_labels-has_fuel ls =
    visit_each-has_fuel (length ls) (visit (suc (length ls)) ls []) (positions 0 (length ls)) []
      (visit-has_fuel (suc (length ls)) ls [] (omega (arith, remaining-none (length ls))))
      (positions-below (length ls) 0 (length ls) (omega arith))

-- Labels ends on every list of containers: the fuel, one more than the containers, is enough.
pub order_labels_ends : (ls : List Labels) → order_labels ls ≢ err out_of_fuel
unfolding has_fuel
order_labels_ends ls h = cc (order_labels-has_fuel ls)
