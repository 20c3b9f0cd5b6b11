-- ===== src/ComposeOrder/Topology.antt =====
-- composeorder/order.go: the order that Labels returns puts every dependency before its dependant.
use nox_yard.Prelude.{
  ◌=ₛ◌, if◌then◌else◌, Bool-cases, length, every, member, every-append, split, Labels, colon,
  Result, err, ok, >>=-eq-ok, ℕ, zero, suc, String, ◌≡◌, refl, ◌∙◌, subst, inl, inr, Bool, true,
  false, ◌&&◌, ◌||◌, not, List, [], ◌∷◌, ◌++◌, append-nil, append_assoc, arith,
}
use nox_yard.ComposeOrder.{
  OrderError, parsed, named_positions, Visitor, visit_each, visit_values, depends_on, visit,
  positions, order_labels,
}

-- The positions that a container's entries name.
unfoldable pub positions_or : Result OrderError (List ℕ) → List ℕ → List ℕ
positions_or (ok ds) rest = ds ++ rest
positions_or (err e) rest = rest

unfoldable pub entry_positions : List Labels → List String → List ℕ
unfolding positions_or named_positions parsed
entry_positions ls [] = []
entry_positions ls (v ∷ vs) =
    let rest = entry_positions ls vs in
    if v =ₛ "" then rest else positions_or (named_positions ls (parsed (split colon v))) rest

unfoldable pub dependencies : List Labels → ℕ → List ℕ
unfolding entry_positions depends_on
dependencies ls i = entry_positions ls (depends_on ls i)

unfoldable pub all_in : List ℕ → List ℕ → Bool
all_in order ds = every (λ d. member d order) ds

-- Reading an order from its start, with what came before: no position twice, and each after
-- everything that it depends on.
unfoldable pub is_ordered : List Labels → List ℕ → List ℕ → Bool
unfolding all_in dependencies
is_ordered ls before [] = true
is_ordered ls before (i ∷ is) =
    not (member i before)
    && all_in before (dependencies ls i)
    && is_ordered ls (before ++ i ∷ []) is

member-append : (n : ℕ) (xs ys : List ℕ) → member n (xs ++ ys) ≡ (member n xs || member n ys)
member-append n [] ys = refl
member-append n (x ∷ xs) ys = ground (arith, member-append n xs ys)

is_ordered-snoc :
    (ls : List Labels) (before is : List ℕ) (i : ℕ)
    → is_ordered ls before (is ++ i ∷ []) ≡ (
        is_ordered ls before is
        && (not (member i (before ++ is)) && all_in (before ++ is) (dependencies ls i)))
unfolding is_ordered
is_ordered-snoc ls before [] i = rw (append-nil before) (ground arith)
is_ordered-snoc ls before (j ∷ is) i =
    rw (is_ordered-snoc ls (before ++ j ∷ []) is i, append_assoc before (j ∷ []) is) (ground arith)

-- No position that is being visited stands in the order.
unfoldable pub is_apart : List ℕ → List ℕ → Bool
is_apart visiting order = every (λ k. not (member k order)) visiting

unfoldable pub is_sound : List Labels → List ℕ → List ℕ → Bool
unfolding is_apart is_ordered
is_sound ls visiting order = is_ordered ls [] order && is_apart visiting order

-- What a visit does to the order: it stays sound, and nothing leaves it.
pub record Grown (ls : List Labels) (visiting before after : List ℕ) : Type 0 where
  pub sound : is_sound ls visiting after ≡ true
  pub keeps : (k : ℕ) → member k before ≡ true → member k after ≡ true

Grown-same :
    (ls : List Labels) (visiting order : List ℕ)
    → is_sound ls visiting order ≡ true
    → Grown ls visiting order order
Grown-same ls visiting order h = record { sound = h; keeps = λ k m. m }

Grown-on :
    {ls : List Labels} {visiting a b c : List ℕ}
    → Grown ls visiting a b
    → Grown ls visiting b c
    → Grown ls visiting a c
Grown-on h k = record { sound = k.sound; keeps = λ n m. k.keeps n (h.keeps n m) }

-- A visitor that puts the position it is given into the order.
Orders : List Labels → List ℕ → Visitor → Type 0
Orders ls visiting visitor =
    (i : ℕ) (order after : List ℕ)
    → is_sound ls visiting order ≡ true
    → visitor i order ≡ ok after
    → Grown ls visiting order after × (member i after ≡ true)

all_in-more :
    (a b ds : List ℕ)
    → ((k : ℕ) → member k a ≡ true → member k b ≡ true)
    → all_in a ds ≡ true
    → all_in b ds ≡ true
unfolding all_in
all_in-more a b [] f h = refl
all_in-more a b (d ∷ ds) f h = ground (arith, f d, all_in-more a b ds f)

all_in-append :
    (order xs ys : List ℕ) → all_in order (xs ++ ys) ≡ (all_in order xs && all_in order ys)
unfolding all_in
all_in-append order xs ys = every-append (λ d. member d order) xs ys

SameResult : Result OrderError (List ℕ) → List ℕ → Type 0
SameResult r a = r ≡ ok a

ok-injective : (a b : List ℕ) → SameResult (ok a) b → a ≡ b
unfolding SameResult
ok-injective a b h = ground arith

visit_each-Grown :
    (ls : List Labels) (visiting : List ℕ) (visitor : Visitor) (ds order after : List ℕ)
    → Orders ls visiting visitor
    → is_sound ls visiting order ≡ true
    → visit_each visitor ds order ≡ ok after
    → Grown ls visiting order after × (all_in after ds ≡ true)
unfolding visit_each Orders all_in SameResult
visit_each-Grown ls visiting visitor [] order after f s h =
    subst (λ o. Grown ls visiting order o × (all_in o [] ≡ true)) (ok-injective order after h)
      (Grown-same ls visiting order s, refl)
visit_each-Grown ls visiting visitor (d ∷ ds) order after f s h =
    let (mid, first, rest) = >>=-eq-ok (visitor d order) (visit_each visitor ds) h in
    let (g, m) = f d order mid s first in
    let (k, all) = visit_each-Grown ls visiting visitor ds mid after f g.sound rest in
    (Grown-on g k, ground (arith, k.keeps d m, all))

entry_all :
    (ls : List Labels) (vs : List String) (ds : List ℕ) (named : Result OrderError (List ℕ))
    (order : List ℕ)
    → named ≡ ok ds
    → all_in order ds ≡ true
    → all_in order (entry_positions ls vs) ≡ true
    → all_in order (positions_or named (entry_positions ls vs)) ≡ true
unfolding positions_or
entry_all ls vs ds named order e h k =
    rw (e) (all_in-append order ds (entry_positions ls vs) ∙ rw (h, k) refl)

visit_values-Grown :
    (ls : List Labels) (visiting : List ℕ) (visitor : Visitor) (vs : List String)
    (order after : List ℕ)
    → Orders ls visiting visitor
    → is_sound ls visiting order ≡ true
    → visit_values visitor ls vs order ≡ ok after
    → Grown ls visiting order after × (all_in after (entry_positions ls vs) ≡ true)
unfolding visit_values entry_positions all_in SameResult
visit_values-Grown ls visiting visitor [] order after f s h =
    subst (λ o. Grown ls visiting order o × (all_in o [] ≡ true)) (ok-injective order after h)
      (Grown-same ls visiting order s, refl)
visit_values-Grown ls visiting visitor (v ∷ vs) order after f s h = elim (Bool-cases (v =ₛ "")) [
  | inl e ↦ rw (e) (visit_values-Grown ls visiting visitor vs order after f s (rw (e) at h))
  | inr e ↦
      let (ds, named, next_part) =
        >>=-eq-ok (named_positions ls (parsed (split colon v))) _ (rw (e) at h) in
      let (mid, each, rest) = >>=-eq-ok (visit_each visitor ds order) _ next_part in
      let (g, m) = visit_each-Grown ls visiting visitor ds order mid f s each in
      let (k, all) = visit_values-Grown ls visiting visitor vs mid after f g.sound rest in
      rw (e) (
        Grown-on g k,
        entry_all ls vs ds (named_positions ls (parsed (split colon v))) after named
            (all_in-more mid after ds k.keeps m) all,
      )
]

apart-snoc :
    (visiting order : List ℕ) (i : ℕ)
    → is_apart visiting order ≡ true
    → member i visiting ≡ false
    → is_apart visiting (order ++ i ∷ []) ≡ true
unfolding is_apart
apart-snoc [] order i h m = refl
apart-snoc (k ∷ ks) order i h m =
    ground (arith, apart-snoc ks order i, member-append k order (i ∷ []))

Grown-snoc :
    (ls : List Labels) (visiting order mid : List ℕ) (i : ℕ)
    → member i visiting ≡ false
    → Grown ls (i ∷ visiting) order mid
    → all_in mid (dependencies ls i) ≡ true
    → Grown ls visiting order (mid ++ i ∷ []) × (member i (mid ++ i ∷ []) ≡ true)
unfolding is_sound is_apart
Grown-snoc ls visiting order mid i m g all = (
  record {
    sound = snoc_sound g.sound;
    keeps = λ k n. ground (arith, member-append k mid (i ∷ []), g.keeps k n);
  },
  ground (arith, member-append i mid (i ∷ [])),
)
  where
    snoc_sound : is_sound ls (i ∷ visiting) mid ≡ true → is_sound ls visiting (mid ++ i ∷ []) ≡ true
    snoc_sound s = ground (arith, is_ordered-snoc ls [] mid i, apart-snoc visiting mid i, all)

visit-Orders :
    (n : ℕ) (ls : List Labels) (visiting : List ℕ) → Orders ls visiting (visit n ls visiting)
unfolding visit Orders is_sound is_apart dependencies SameResult
visit-Orders zero ls visiting i order after s h = cc
visit-Orders (suc n) ls visiting i order after s h = elim (Bool-cases (member i visiting)) [
  | inl m ↦ cc (rw (m) at h)
  | inr m ↦ elim (Bool-cases (member i order)) [
    | inl k ↦
        subst (λ o. Grown ls visiting order o × (member i o ≡ true))
          (ok-injective order after (rw (m, k) at h)) (Grown-same ls visiting order s, k)
    | inr k ↦
        let (mid, values, rest) =
          >>=-eq-ok (visit_values (visit n ls (i ∷ visiting)) ls (depends_on ls i) order) _
            (rw (m, k) at h) in
        let (g, all) =
          visit_values-Grown ls (i ∷ visiting) (visit n ls (i ∷ visiting)) (depends_on ls i) order
            mid (visit-Orders n ls (i ∷ visiting)) (ground arith) values in
        subst (λ o. Grown ls visiting order o × (member i o ≡ true))
          (ok-injective (mid ++ i ∷ []) after rest) (Grown-snoc ls visiting order mid i m g all)
  ]
]

-- When Labels returns an order, no position stands in it twice, every container's position stands
-- in it, and each position comes after the positions of everything that its entries name.
pub order_labels_lem :
    (ls : List Labels) (order : List ℕ)
    → order_labels ls ≡ ok order
    → (is_ordered ls [] order ≡ true) × (all_in order (positions 0 (length ls)) ≡ true)
unfolding order_labels is_sound is_apart is_ordered
order_labels_lem ls order h =
    let (g, all) =
      visit_each-Grown ls [] (visit (suc (length ls)) ls []) (positions 0 (length ls)) [] order
        (visit-Orders (suc (length ls)) ls []) refl h in
    (ground (arith, g.sound), all)
