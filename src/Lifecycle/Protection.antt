-- ===== src/Lifecycle/Protection.antt =====
-- lifecycle/lifecycle.go: what a group action never touches.
use nox_yard.Lifecycle.Counting.{run_action-IsSettled, run_project-ok}
use nox_yard.Prelude.{
  ◌=ₛ◌, Bool-cases, &&-true, exists, every, filter_length, ok, is_ok, ◌≤◌, String, ◌≡◌, refl, subst,
  inl, inr, Bool, true, false, ◌&&◌, ◌||◌, not, Option, none, some, List, [], ◌∷◌, ◌++◌, arith,
}
use nox_yard.Lifecycle.{
  Action, start, stop, restart, other, Summary, Failure, Call, acts, restarts_self, Engine,
  valid_action, should_run, is_self, is_helper,
}
use nox_yard.Lifecycle.Actions.{
  Run, leaves_out, leaves_for_later, visit_target, visit_targets, is_refused, queued, restart_yard,
  new_run, in_order, run_project, is_restart,
}
use nox_yard.Lifecycle.Acting.{
  is_ordinary, is_same, is_yards, is_acted, all_allowed, is_safe, group-safe, safe_in_order,
  visit_targets-allowed,
}

-- The same, or the queued restart of Yard's own container of the group.
unfoldable pub is_allowed : Engine → Action → List Summary → Call → Bool
unfolding is_ordinary is_same is_yards
is_allowed e action ts (acts a id) = is_same a action && is_ordinary e ts id
is_allowed e action ts (restarts_self id failures) = is_restart action && is_yards e ts id

abbrev pub is_queued : Call → Bool
is_queued (acts a id) = false
is_queued (restarts_self id failures) = true

-- Only a restart remembers a container, and only Yard's own.
later_restart :
    (action : Action) (self : Bool)
    → leaves_for_later action self ≡ true
    → (is_restart action ≡ true) × (self ≡ true)
unfolding leaves_for_later
later_restart start self h = cc
later_restart stop self h = cc
later_restart restart self h = (refl, h)
later_restart other self h = cc

abbrev knows_yard : Engine → Action → List Summary → Run → Bool
knows_yard e action ts r = r.self_id =ₛ "" || is_restart action && is_yards e ts r.self_id

visit_target-knows_yard :
    (e : Engine) (action : Action) (ts group : List Summary) (item : Summary) (r : Run)
    → (is_self e.hostname item.id item.labels ≡ true → is_yards e ts item.id ≡ true)
    → knows_yard e action ts r ≡ true
    → knows_yard e action ts (visit_target e action group item r) ≡ true
unfolding visit_target
visit_target-knows_yard e action ts group item r own h =
    elim (Bool-cases
      (leaves_out action (is_self e.hostname item.id item.labels) (is_helper item.labels))) [
        | inl a ↦ rw (a) h
        | inr a ↦
            elim (Bool-cases (leaves_for_later action (is_self e.hostname item.id item.labels))) [
              | inl b ↦
                  let (restarts, self) = later_restart action _ b in
                  rw (a, b, restarts, own self) (ground arith)
              | inr b ↦ elim (Bool-cases (should_run item.state action)) [
                | inl c ↦ rw (a, b, c, (run_action-IsSettled e action group item r).same) h
                | inr c ↦ rw (a, b, c) h
              ]
            ]
      ]

visit_targets-knows_yard :
    (e : Engine) (action : Action) (ts group xs : List Summary) (r : Run)
    → every (is_safe e action ts) xs ≡ true
    → knows_yard e action ts r ≡ true
    → knows_yard e action ts (visit_targets e action group xs r) ≡ true
unfolding visit_targets
visit_targets-knows_yard e action ts group [] r s h = h
visit_targets-knows_yard e action ts group (x ∷ xs) r s h =
    let (safe, rest) = &&-true (is_safe e action ts x) (every (is_safe e action ts) xs) s in
    visit_targets-knows_yard e action ts group xs (visit_target e action group x r) rest
      (visit_target-knows_yard e action ts group x r (λ self. ground (arith, safe, self)) h)

-- What the calls of a whole run satisfy.
abbrev IsSpared : Engine → Action → List Summary → List Call → Type 0
IsSpared e action ts calls =
    (every (is_allowed e action ts) calls ≡ true) × (filter_length is_queued calls ≤ 1)

acted-IsSpared :
    (e : Engine) (action : Action) (ts : List Summary) (calls : List Call)
    → every (is_acted e action ts) calls ≡ true
    → (every (is_allowed e action ts) calls ≡ true) × (filter_length is_queued calls ≡ 0)
unfolding is_acted is_allowed
acted-IsSpared e action ts [] h = (refl, refl)
acted-IsSpared e action ts (acts a id ∷ calls) h =
    let (first, rest) =
      &&-true (is_acted e action ts (acts a id)) (every (is_acted e action ts) calls) h in
    let (allowed, none_queued) = acted-IsSpared e action ts calls rest in
    (rw (first, allowed) refl, omega (arith, none_queued))
acted-IsSpared e action ts (restarts_self id failures ∷ calls) h = cc

queued_last-IsSpared :
    (e : Engine) (action : Action) (ts : List Summary) (calls : List Call) (id : String)
    (failures : List Failure)
    → (is_restart action && is_yards e ts id) ≡ true
    → every (is_acted e action ts) calls ≡ true
    → IsSpared e action ts (calls ++ restarts_self id failures ∷ [])
unfolding is_acted is_allowed
queued_last-IsSpared e action ts [] id failures y h = (rw (y) refl, omega arith)
queued_last-IsSpared e action ts (acts a i ∷ calls) id failures y h =
    let (first, rest) =
      &&-true (is_acted e action ts (acts a i)) (every (is_acted e action ts) calls) h in
    let (allowed, one_queued) = queued_last-IsSpared e action ts calls id failures y rest in
    (rw (first, allowed) refl, omega (arith, one_queued))
queued_last-IsSpared e action ts (restarts_self i old ∷ calls) id failures y h = cc

queued-IsSpared :
    (e : Engine) (action : Action) (ts : List Summary) (o : Option String) (prefix id : String)
    (r : Run)
    → (is_restart action && is_yards e ts id) ≡ true
    → all_allowed e action ts r ≡ true
    → IsSpared e action ts (queued o prefix id r).calls
unfolding queued
queued-IsSpared e action ts none prefix id r y h =
    queued_last-IsSpared e action ts r.calls id r.report.failures y h
queued-IsSpared e action ts (some x) prefix id r y h =
    queued_last-IsSpared e action ts r.calls id r.report.failures y h

restart_yard-IsSpared :
    (e : Engine) (action : Action) (ts : List Summary) (r : Run)
    → knows_yard e action ts r ≡ true
    → all_allowed e action ts r ≡ true
    → IsSpared e action ts (restart_yard e r).calls
unfolding restart_yard
restart_yard-IsSpared e action ts r k h = elim (Bool-cases (r.self_id =ₛ "")) [
  | inl b ↦
      let (allowed, none_queued) = acted-IsSpared e action ts r.calls h in
      rw (b) (allowed, omega (arith, none_queued))
  | inr b ↦ rw (b) (queued-IsSpared e action ts _ "Yard: " r.self_id r (ground arith) h)
]

-- A valid group action is refused exactly when the group has a container that its preflight rejects.
-- Otherwise each of its calls is the action on a container of the group that is neither Yard's own nor a
-- helper of Yard, or, in a restart, the queued restart of a container of the group that is Yard's own;
-- and there is at most one such queued restart.
pub project_spares_yard :
    (e : Engine) (action : Action) (targets : List Summary)
    → valid_action action ≡ true
    → (is_ok (run_project e action targets) ≡ not (exists (is_refused e.hostname action) targets))
      × ((r : Run)
          → run_project e action targets ≡ ok r
          → (every (is_allowed e action targets) r.calls ≡ true)
            × (filter_length is_queued r.calls ≤ 1))
unfolding run_project
project_spares_yard e action targets v =
    elim (Bool-cases (exists (is_refused e.hostname action) targets)) [
      | inl a ↦ (rw (a) refl, λ r h. ground arith)
      | inr a ↦ (
        rw (a) refl,
        λ r h.
            subst (λ s. IsSpared e action targets s.calls) (run_project-ok e action targets r h)
              (spared (
                safe_in_order e action (is_safe e action targets) targets
                  (group-safe e action targets a))),
      )
    ]
  where
    order : List Summary
    order = in_order action targets

    spared :
        every (is_safe e action targets) order ≡ true
        → IsSpared e action targets
            (restart_yard e (visit_targets e action order order (new_run action))).calls
    spared safe =
        restart_yard-IsSpared e action targets _
          (visit_targets-knows_yard e action targets order order (new_run action) safe refl)
          (visit_targets-allowed e action targets order order (new_run action) v safe refl)
