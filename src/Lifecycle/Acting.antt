-- ===== src/Lifecycle/Acting.antt =====
-- lifecycle/lifecycle.go: the loop of a group action acts on no container of Yard.

use nox_yard.Prelude.{
  ◌=ₛ◌, Bool-cases, &&-true, exists, every, every-append, every-backwards, Result, err, ok, ℕ,
  String, ◌≡◌, refl, ◌∙◌, inl, inr, Bool, true, false, ◌&&◌, ◌||◌, not, Option, none, some, List,
  [], ◌∷◌, arith, eq_refl,
}
use nox_yard.Lifecycle.{
  Action, start, stop, restart, other, Summary, Call, acts, restarts_self, Engine, valid_action,
  should_run, is_self, is_helper, is_protected,
}
use nox_yard.Lifecycle.Actions.{
  Run, applied, apply, waited, run_action, leaves_out, leaves_for_later, visit_target,
  visit_targets, is_refused, in_order,
}

-- A container of the group that is neither Yard's nor a helper of Yard's has this id.
unfoldable pub is_ordinary : Engine → List Summary → String → Bool
is_ordinary e ts id = exists (λ t. t.id =ₛ id && not (is_protected e.hostname t.id t.labels)) ts

unfoldable pub is_same : Action → Action → Bool
is_same start a = elim a [ start ↦ true | stop ↦ false | restart ↦ false | other ↦ false ]
is_same stop a = elim a [ start ↦ false | stop ↦ true | restart ↦ false | other ↦ false ]
is_same restart a = elim a [ start ↦ false | stop ↦ false | restart ↦ true | other ↦ false ]
is_same other a = elim a [ start ↦ false | stop ↦ false | restart ↦ false | other ↦ true ]

is_same_refl : (a : Action) → is_same a a ≡ true
unfolding is_same
is_same_refl start = refl
is_same_refl stop = refl
is_same_refl restart = refl
is_same_refl other = refl

-- A container of the group is Yard's own and has this id.
unfoldable pub is_yards : Engine → List Summary → String → Bool
is_yards e ts id = exists (λ t. t.id =ₛ id && is_self e.hostname t.id t.labels) ts

-- The call is the group's action on an ordinary container.
unfoldable pub is_acted : Engine → Action → List Summary → Call → Bool
unfolding is_ordinary is_same
is_acted e action ts (acts a id) = is_same a action && is_ordinary e ts id
is_acted e action ts (restarts_self id failures) = false

-- One step keeps the calls allowed.
abbrev pub all_allowed : Engine → Action → List Summary → Run → Bool
all_allowed e action ts r = every (is_acted e action ts) r.calls

applied-allowed :
    (e : Engine) (action : Action) (ts : List Summary) (o : Option String) (shown id : String)
    (call : Call) (r : Run)
    → is_acted e action ts call ≡ true
    → all_allowed e action ts r ≡ true
    → all_allowed e action ts (applied o shown id call r) ≡ true
unfolding applied
applied-allowed e action ts none shown id call r c h =
    ground (arith, every-append (is_acted e action ts) r.calls (call ∷ []))
applied-allowed e action ts (some x) shown id call r c h =
    ground (arith, every-append (is_acted e action ts) r.calls (call ∷ []))

waited-allowed :
    (e : Engine) (action : Action) (ts : List Summary) (item : Summary) (o : Result String ℕ)
    (r : Run)
    → is_ordinary e ts item.id ≡ true
    → all_allowed e action ts r ≡ true
    → all_allowed e action ts (waited e action item o r) ≡ true
unfolding waited apply is_acted
waited-allowed e action ts item (ok n) r c h =
    applied-allowed e action ts _ _ _ (acts action item.id) r (rw (is_same_refl action) c) h
waited-allowed e action ts item (err x) r c h = h

run_action-allowed :
    (e : Engine) (action : Action) (ts group : List Summary) (item : Summary) (r : Run)
    → is_ordinary e ts item.id ≡ true
    → all_allowed e action ts r ≡ true
    → all_allowed e action ts (run_action e action group item r) ≡ true
unfolding run_action apply is_acted
run_action-allowed e start ts group item r c h = waited-allowed e start ts item _ r c h
run_action-allowed e restart ts group item r c h = waited-allowed e restart ts item _ r c h
run_action-allowed e stop ts group item r c h =
    applied-allowed e stop ts _ _ _ (acts stop item.id) r c h
run_action-allowed e other ts group item r c h =
    applied-allowed e other ts _ _ _ (acts other item.id) r c h

-- What passes the preflight and the two tests of the loop is ordinary.
passes-ordinary :
    (e : Engine) (action : Action) (item : Summary)
    → valid_action action ≡ true
    → is_refused e.hostname action item ≡ false
    → leaves_out action (is_self e.hostname item.id item.labels) (is_helper item.labels) ≡ false
    → leaves_for_later action (is_self e.hostname item.id item.labels) ≡ false
    → is_protected e.hostname item.id item.labels ≡ false
unfolding is_refused leaves_out leaves_for_later is_protected
passes-ordinary e start item v h a b = a
passes-ordinary e stop item v h a b = h
passes-ordinary e restart item v h a b = ground arith
passes-ordinary e other item v h a b = cc

visit_target-allowed :
    (e : Engine) (action : Action) (ts group : List Summary) (item : Summary) (r : Run)
    → valid_action action ≡ true
    → is_refused e.hostname action item ≡ false
    → (is_protected e.hostname item.id item.labels ≡ false → is_ordinary e ts item.id ≡ true)
    → all_allowed e action ts r ≡ true
    → all_allowed e action ts (visit_target e action group item r) ≡ true
unfolding visit_target
visit_target-allowed e action ts group item r v n o h =
    elim (Bool-cases
      (leaves_out action (is_self e.hostname item.id item.labels) (is_helper item.labels))) [
        | inl a ↦ rw (a) h
        | inr a ↦
            elim (Bool-cases (leaves_for_later action (is_self e.hostname item.id item.labels))) [
              | inl b ↦ rw (a, b) h
              | inr b ↦ elim (Bool-cases (should_run item.state action)) [
                | inl c ↦
                    rw (a, b, c)
                      (run_action-allowed e action ts group item r
                        (o (passes-ordinary e action item v n a b)) h)
                | inr c ↦ rw (a, b, c) h
              ]
            ]
      ]

-- The group against the list that the loop walks.
abbrev pub is_safe : Engine → Action → List Summary → Summary → Bool
is_safe e action ts t =
    not (is_refused e.hostname action t)
    && (is_protected e.hostname t.id t.labels || is_ordinary e ts t.id)
    && (not (is_self e.hostname t.id t.labels) || is_yards e ts t.id)

every_more :
    (p q : Summary → Bool)
    → ((t : Summary) → p t ≡ true → q t ≡ true)
    → (xs : List Summary) → every p xs ≡ true
    → every q xs ≡ true
every_more p q f [] h = refl
every_more p q f (x ∷ xs) h = ground (arith, every_more p q f xs, f x)

wider :
    (e : Engine) (action : Action) (x : Summary) (ts : List Summary) (t : Summary)
    → is_safe e action ts t ≡ true
    → is_safe e action (x ∷ ts) t ≡ true
unfolding is_ordinary is_yards
wider e action x ts t h = ground arith

pub group-safe :
    (e : Engine) (action : Action) (ts : List Summary)
    → exists (is_refused e.hostname action) ts ≡ false
    → every (is_safe e action ts) ts ≡ true
unfolding is_ordinary is_yards
group-safe e action [] h = refl
group-safe e action (x ∷ xs) h = ground (
  arith,
  eq_refl x.id,
  every_more (is_safe e action xs) (is_safe e action (x ∷ xs)) (wider e action x xs) xs,
  group-safe e action xs,
)

pub safe_in_order :
    (e : Engine) (action : Action) (p : Summary → Bool) (ts : List Summary)
    → every p ts ≡ true
    → every p (in_order action ts) ≡ true
unfolding in_order
safe_in_order e start p ts h = h
safe_in_order e restart p ts h = h
safe_in_order e other p ts h = h
safe_in_order e stop p ts h = every-backwards p ts ∙ h

pub visit_targets-allowed :
    (e : Engine) (action : Action) (ts group xs : List Summary) (r : Run)
    → valid_action action ≡ true
    → every (is_safe e action ts) xs ≡ true
    → all_allowed e action ts r ≡ true
    → all_allowed e action ts (visit_targets e action group xs r) ≡ true
unfolding visit_targets
visit_targets-allowed e action ts group [] r v s h = h
visit_targets-allowed e action ts group (x ∷ xs) r v s h =
    let (safe, rest) = &&-true (is_safe e action ts x) (every (is_safe e action ts) xs) s in
    visit_targets-allowed e action ts group xs (visit_target e action group x r) v rest
      (visit_target-allowed e action ts group x r v (safe-not_refused safe) (safe-ordinary safe) h)
  where
    safe-not_refused : is_safe e action ts x ≡ true → is_refused e.hostname action x ≡ false
    safe-not_refused safe = ground arith

    safe-ordinary :
        is_safe e action ts x ≡ true
        → is_protected e.hostname x.id x.labels ≡ false
        → is_ordinary e ts x.id ≡ true
    safe-ordinary safe p = ground arith
