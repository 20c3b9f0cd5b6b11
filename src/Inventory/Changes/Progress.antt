-- ===== src/Inventory/Changes/Progress.antt =====
-- inventory/changes.go: which operation of a target is shown.
use nox_yard.Prelude.{
  ltb, leb, ◌==◌, ◌=ₛ◌, if◌then◌else◌, Bool-cases, &&-true, select, every, ◌++ₛ◌, ℕ, suc, ◌≤◌,
  String, ◌≡◌, refl, ◌∙◌, inl, inr, Bool, true, false, ◌&&◌, not, List, [], ◌∷◌, map, arith, eq_iff,
  eq_refl,
}
use nox_yard.Inventory.Changes.{
  Operation, Notifier, notify, subscribe, unsubscribe, receive, operation_state, begin, end,
  earlier, first_operation, shown_state, ShownContainer, ShownProject, apply_container,
  apply_project, apply,
}
use nox_yard.Inventory.Changes.Delivery.{
  Event, notifies, subscribes, unsubscribes, receives, begins, ends, run,
}

-- The ids that have been given out are not above the sequence, and not 0.
unfoldable pub is_counted : ℕ → List Operation → Bool
is_counted n os = every (λ o. ltb 0 o.id && leb o.id n) os

counted_more : (n : ℕ) (os : List Operation) → is_counted n os ≡ true → is_counted (suc n) os ≡ true
unfolding is_counted
counted_more n [] h = refl
counted_more n (o ∷ os) h = ground (arith, counted_more n os)

first_operation-counted :
    (t : String) (n : ℕ) (os : List Operation)
    → is_counted n os ≡ true
    → (first_operation t os).0 ≤ n
unfolding is_counted first_operation earlier
first_operation-counted t n [] h = omega arith
first_operation-counted t n (o ∷ os) h = ground (arith, first_operation-counted t n os)

select-counted :
    (p : Operation → Bool) (n : ℕ) (os : List Operation)
    → is_counted n os ≡ true
    → is_counted n (select p os) ≡ true
unfolding is_counted
select-counted p n [] h = refl
select-counted p n (o ∷ os) h = ground (arith, select-counted p n os)

run-counted : (es : List Event) → is_counted (run es).sequence (run es).operations ≡ true
unfolding run notify begin end subscribe unsubscribe receive
run-counted [] = unfold is_counted in refl
run-counted (notifies c ∷ es) = run-counted es
run-counted (subscribes ∷ es) = run-counted es
run-counted (unsubscribes k ∷ es) = run-counted es
run-counted (receives k ∷ es) = run-counted es
run-counted (begins t o ∷ es) = begun (counted_more _ _ (run-counted es))
  where
    begun :
        is_counted (suc (run es).sequence) (run es).operations ≡ true
        → is_counted (suc (run es).sequence) (run (begins t o ∷ es)).operations ≡ true
    begun h = unfold is_counted in ground arith
run-counted (ends t i ∷ es) =
    select-counted (λ o. not (o.target =ₛ t && o.id == i)) _ _ (run-counted es)

-- Whether an operation on a target is in progress.
unfoldable pub is_live : String → Notifier → Bool
is_live t n = not ((first_operation t n.operations).0 == 0)

idle_shows_nothing :
    (t : String) (n : ℕ) (os : List Operation)
    → is_counted n os ≡ true
    → (first_operation t os).0 ≡ 0
    → (first_operation t os).1 ≡ ""
unfolding is_counted first_operation earlier
idle_shows_nothing t n [] h e = refl
idle_shows_nothing t n (o ∷ os) h e = ground (arith, idle_shows_nothing t n os)

select-unused :
    (t : String) (n : ℕ) (os : List Operation)
    → is_counted n os ≡ true
    → select (λ o. not (o.target =ₛ t && o.id == suc n)) os ≡ os
unfolding is_counted
select-unused t n [] h = refl
select-unused t n (o ∷ os) h = ground (arith, select-unused t n os)

begun_state :
    (t u operation : String) (n : Notifier)
    → is_counted n.sequence n.operations ≡ true
    → shown_state u (begin t operation n).1
      ≡ (if is_live u n then shown_state u n else if t =ₛ u then operation_state operation else "")
unfolding shown_state begin notify is_live first_operation earlier
begun_state t u operation n h = ground (
  arith,
  first_operation-counted u n.sequence n.operations h,
  idle_shows_nothing u n.sequence n.operations h,
)

-- The targets whose operations Apply reads for a project.
unfoldable pub names_of : ShownProject → List String
names_of p = p.id ∷ map (λ (c : ShownContainer). "container:" ++ₛ c.id) p.containers

-- Two notifiers that show the same of these targets give the same project.
module _ (n m : Notifier) (reads : String → Bool)
    (same : (u : String) → reads u ≡ true → shown_state u n ≡ shown_state u m) where
  containers_same :
      (operation : String) (cs : List ShownContainer)
      → every reads (map (λ (c : ShownContainer). "container:" ++ₛ c.id) cs) ≡ true
      → map (apply_container n operation) cs ≡ map (apply_container m operation) cs
  unfolding apply_container
  containers_same operation [] h = refl
  containers_same operation (c ∷ cs) h =
      let (first, rest) = &&-true _ _ h in
      rw (same ("container:" ++ₛ c.id) first, containers_same operation cs rest) refl

  project_same :
      (p : ShownProject) → every reads (names_of p) ≡ true → apply_project n p ≡ apply_project m p
  unfolding apply_project names_of
  project_same p h =
      let (first, rest) = &&-true _ _ h in
      rw (same p.id first, containers_same (shown_state p.id m) p.containers rest) refl

every_name : (us : List String) → every (λ _. true) us ≡ true
every_name [] = refl
every_name (u ∷ us) = every_name us

apply_same :
    (n m : Notifier) (ps : List ShownProject)
    → ((u : String) → shown_state u n ≡ shown_state u m)
    → apply n ps ≡ apply m ps
unfolding apply
apply_same n m [] same = refl
apply_same n m (p ∷ ps) same =
    rw
      (
        project_same n m (λ _. true) (λ u _. same u) p (every_name (names_of p)),
        apply_same n m ps same,
      )
      refl

-- A target without an operation shows nothing.
idle_state :
    (es : List Event) (u : String) → is_live u (run es) ≡ false → shown_state u (run es) ≡ ""
unfolding shown_state is_live
idle_state es u e =
    idle_shows_nothing u (run es).sequence (run es).operations (run-counted es) (ground arith)

ended_begun :
    (es : List Event) (t operation : String)
    → (end t (begin t operation (run es)).0 (begin t operation (run es)).1).operations
      ≡ (run es).operations
unfolding begin end notify
ended_begun es t operation =
    ground
      (arith, eq_refl t, select-unused t (run es).sequence (run es).operations (run-counted es))

-- After every history: what Apply writes is the same before Begin of an operation and after the
-- function that it returns, called next; Begin changes nothing that Apply writes if an operation on
-- its target is in progress, and nothing of a project whose id, like those of its containers, is
-- another target; and a project that is the target, with no operation in progress, shows the new
-- one if it has a state to show.
pub begin_shows_first :
    (es : List Event) (t operation : String)
    → let (id, begun) = begin t operation (run es) in
      ((ps : List ShownProject) → apply (end t id begun) ps ≡ apply (run es) ps)
      × (is_live t (run es) ≡ true → (ps : List ShownProject) → apply begun ps ≡ apply (run es) ps)
      × ((p : ShownProject)
          → every (λ u. not (t =ₛ u)) (names_of p) ≡ true
          → apply_project begun p ≡ apply_project (run es) p)
      × (is_live t (run es) ≡ false
          → (operation_state operation =ₛ "") ≡ false
          → (p : ShownProject) → p.id ≡ t
          → (apply_project begun p).operation ≡ operation_state operation)
unfolding apply_project
begin_shows_first es t operation = (
  λ ps. apply_same _ (run es) ps (λ u. ended_state u (ended_begun es t operation)),
  λ live ps. apply_same _ (run es) ps (λ u. busy_state u live),
  λ p h.
      project_same (begin t operation (run es)).1 (run es) (λ u. not (t =ₛ u))
        (λ u e. other_state u e) p h,
  λ idle shown p same.
      rw (same, begun_state t t operation (run es) (run-counted es), idle, eq_refl t, shown) refl,
)
  where
    ended_state :
        (u : String)
        → (end t (begin t operation (run es)).0 (begin t operation (run es)).1).operations
          ≡ (run es).operations
        → shown_state u (end t (begin t operation (run es)).0 (begin t operation (run es)).1)
          ≡ shown_state u (run es)
    ended_state u h = unfold shown_state in rw (h) refl

    busy_state :
        (u : String)
        → is_live t (run es) ≡ true
        → shown_state u (begin t operation (run es)).1 ≡ shown_state u (run es)
    busy_state u live =
        begun_state t u operation (run es) (run-counted es)
        ∙ elim (Bool-cases (is_live u (run es))) [
          | inl e ↦ rw (e) refl
          | inr e ↦ ground (arith, idle_state es u e, eq_iff t u)
        ]

    other_state :
        (u : String)
        → not (t =ₛ u) ≡ true
        → shown_state u (begin t operation (run es)).1 ≡ shown_state u (run es)
    other_state u h =
        begun_state t u operation (run es) (run-counted es)
        ∙ elim (Bool-cases (is_live u (run es))) [
          | inl e ↦ rw (e) refl
          | inr e ↦ ground (arith, idle_state es u e)
        ]
