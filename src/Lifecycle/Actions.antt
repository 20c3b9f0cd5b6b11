-- ===== src/Lifecycle/Actions.antt =====
-- lifecycle/lifecycle.go: the actions on a container and on a project.
use nox_yard.Store.Keys.{text_le}
use nox_yard.Prelude.{
  ◌=ₛ◌, if◌then◌else◌, get_elem?, select, exists, backwards, ◌++ₛ◌, cut_prefix, label, Result, err,
  ok, ◌>>=◌, ◌>>◌, guard, ℕ, suc, String, Bool, true, false, ◌&&◌, ◌||◌, not, Option, none, some,
  List, [], ◌∷◌, ◌++◌, map,
}
use nox_yard.ComposeOrder.{OrderError, order_labels}
use nox_yard.Lifecycle.{
  Action, start, stop, restart, other, LifecycleError, not_found, protected, invalid_action,
  order_failed, engine_failed, Summary, Report, Call, acts, restarts_self, Engine, valid_action,
  should_run, is_self, is_helper, container_name, failing, skipping, wait_observed_dependencies,
}

abbrev pub new_report : Action → Report
new_report action = record {
  action = action;
  succeeded = 0;
  skipped = 0;
  failed = 0;
  queued = 0;
  errors = [];
  failures = [];
  warnings = [];
}

-- A run of the loop of Project: its result, Yard's own container, and the calls made so far.
pub record Run : Type 0 where
  pub report : Report
  pub self_id : String
  pub calls : List Call

-- `apply`, its answer and its place in the calls.
unfoldable pub applied : Option String → String → String → Call → Run → Run
unfolding failing
applied none shown id call r = record r {
  report = record r.report { succeeded = suc r.report.succeeded };
  calls = r.calls ++ call ∷ [];
}
applied (some e) shown id call r = record r {
  report = failing id (shown ++ₛ ": " ++ₛ e) e r.report;
  calls = r.calls ++ call ∷ [];
}

unfoldable pub apply : Engine → Action → Summary → Run → Run
unfolding applied container_name
apply e action item r =
    applied (e.answer r.calls (acts action item.id)) (container_name item) item.id
      (acts action item.id) r

-- The wait for what the container depends on.
unfoldable pub waited : Engine → Action → Summary → Result String ℕ → Run → Run
unfolding failing apply
waited e action item (ok left) r = apply e action item r
waited e action item (err reason) r = record r { report = failing item.id reason reason r.report }

unfoldable pub run_action : Engine → Action → List Summary → Summary → Run → Run
unfolding waited apply wait_observed_dependencies
run_action e stop targets item r = apply e stop item r
run_action e other targets item r = apply e other item r
run_action e start targets item r =
    waited e start item (wait_observed_dependencies e r.calls item.labels targets) r
run_action e restart targets item r =
    waited e restart item (wait_observed_dependencies e r.calls item.labels targets) r

-- Whether the loop leaves a container out, or for later.
unfoldable pub leaves_out : Action → Bool → Bool → Bool
leaves_out start self helper = self || helper
leaves_out stop self helper = false
leaves_out restart self helper = false
leaves_out other self helper = false

unfoldable pub leaves_for_later : Action → Bool → Bool
leaves_for_later restart self = self
leaves_for_later start self = false
leaves_for_later stop self = false
leaves_for_later other self = false

abbrev pub skip_item : Run → Run
skip_item r = record r { report = skipping r.report }

-- The body of the loop.
unfoldable pub visit_target : Engine → Action → List Summary → Summary → Run → Run
unfolding is_self is_helper leaves_out leaves_for_later should_run run_action
visit_target e action targets item r =
    let self = is_self e.hostname item.id item.labels in
    if leaves_out action self (is_helper item.labels)
    then skip_item r
    else if leaves_for_later action self
    then record r { self_id = item.id }
    else if should_run item.state action
    then run_action e action targets item r
    else skip_item r

unfoldable pub visit_targets : Engine → Action → List Summary → List Summary → Run → Run
unfolding visit_target
visit_targets e action targets [] r = r
visit_targets e action targets (x ∷ xs) r =
    visit_targets e action targets xs (visit_target e action targets x r)

-- The preflight of the whole group.
unfoldable pub is_refused : String → Action → Summary → Bool
unfolding is_self is_helper
is_refused hostname start item = false
is_refused hostname stop item = is_self hostname item.id item.labels || is_helper item.labels
is_refused hostname restart item = is_helper item.labels
is_refused hostname other item = false

-- launchSelfRestart, after the loop.
unfoldable pub queued : Option String → String → String → Run → Run
unfolding failing
queued none prefix id r = record r {
  report = record r.report { queued = suc r.report.queued };
  calls = r.calls ++ restarts_self id r.report.failures ∷ [];
}
queued (some e) prefix id r = record r {
  report = failing id (prefix ++ₛ e) e r.report;
  calls = r.calls ++ restarts_self id r.report.failures ∷ [];
}

unfoldable pub restart_yard : Engine → Run → Run
unfolding queued
restart_yard e r =
    let launched =
      queued (e.answer r.calls (restarts_self r.self_id r.report.failures)) "Yard: " r.self_id r in
    if r.self_id =ₛ "" then r else launched

abbrev pub source_warning : String
source_warning =
    "Compose source unavailable or protected; using observed container dependencies only."

abbrev pub new_run : Action → Run
new_run action = record {
  report = record (new_report action) { warnings = source_warning ∷ [] };
  self_id = "";
  calls = [];
}

unfoldable pub in_order : Action → List Summary → List Summary
in_order stop targets = backwards targets
in_order start targets = targets
in_order restart targets = targets
in_order other targets = targets

-- The group action, once projectTargets has found the group.
unfoldable pub run_project : Engine → Action → List Summary → Result LifecycleError Run
unfolding is_refused in_order visit_targets restart_yard
run_project e action targets =
    if exists (is_refused e.hostname action) targets
    then err protected
    else ok (
        restart_yard e (
          visit_targets e action (in_order action targets) (in_order action targets)
            (new_run action)))

-- projectTargets: the project's containers by id, then in the order of composeorder.Labels.
unfoldable pub insert_by_id : Summary → List Summary → List Summary
unfolding text_le
insert_by_id x [] = x ∷ []
insert_by_id x (y ∷ ys) =
    let rest = insert_by_id x ys in if text_le x.id y.id then x ∷ y ∷ ys else y ∷ rest

unfoldable pub sort_by_id : List Summary → List Summary
unfolding insert_by_id
sort_by_id [] = []
sort_by_id (x ∷ xs) = insert_by_id x (sort_by_id xs)

unfoldable pub picked : Option Summary → List Summary → List Summary
picked none xs = xs
picked (some x) xs = x ∷ xs

unfoldable pub pick : List Summary → List ℕ → List Summary
unfolding picked
pick targets [] = []
pick targets (i ∷ is) = picked (get_elem? targets i) (pick targets is)

unfoldable pub picked_order :
    List Summary → Result OrderError (List ℕ) → Result LifecycleError (List Summary)
unfolding pick
picked_order targets (err e) = err (order_failed e)
picked_order targets (ok order) = ok (pick targets order)

unfoldable pub ordered_targets : List Summary → Result LifecycleError (List Summary)
unfolding picked_order order_labels sort_by_id
ordered_targets [] = err not_found
ordered_targets (x ∷ xs) =
    let sorted = sort_by_id (x ∷ xs) in
    picked_order sorted (order_labels (map (λ t. t.labels) sorted))

unfoldable pub project_targets :
    Result String (List Summary) → String → Result LifecycleError (List Summary)
unfolding ordered_targets
project_targets (err e) name = err (engine_failed e)
project_targets (ok listed) name =
    ordered_targets (select (λ t. label "com.docker.compose.project" t.labels =ₛ name) listed)

-- The action on one inspected container, whose state is empty when Docker shows none.
unfoldable pub single_applied : Option String → String → Call → Run → Run
unfolding failing
single_applied none id call r = record r {
  report = record r.report { succeeded = 1 };
  calls = call ∷ [];
}
single_applied (some e) id call r = record r { report = failing id e e r.report; calls = call ∷ [] }

unfoldable pub single : Engine → Action → String → String → Run
unfolding single_applied should_run
single e action id state =
    let r = record (new_run action) { report = new_report action } in
    if should_run state action
    then single_applied (e.answer [] (acts action id)) id (acts action id) r
    else skip_item r

unfoldable pub single_restart : Engine → String → Run
unfolding queued
single_restart e id =
    queued (e.answer [] (restarts_self id [])) "" id
      (record (new_run restart) { report = new_report restart })

abbrev pub is_restart : Action → Bool
is_restart restart = true
is_restart start = false
is_restart stop = false
is_restart other = false

abbrev pub is_stop : Action → Bool
is_stop stop = true
is_stop start = false
is_stop restart = false
is_stop other = false

-- `container`, on what ContainerInspect answers: an error, or no such container, or its state.
unfoldable pub run_container :
    Engine → Action → String → Result LifecycleError Summary → Result LifecycleError Run
unfolding is_helper is_self single single_restart
run_container e action id (err reason) = err reason
run_container e action id (ok item) =
    let self = is_self e.hostname item.id item.labels in
    if not (item.id =ₛ id)
    then err not_found
    else if is_helper item.labels || is_stop action && self
    then err protected
    else if self && is_restart action
    then ok (single_restart e id)
    else ok (single e action id item.state)

-- Container and Project, between Lock and Unlock of the manager's mutex.
unfoldable pub container_action :
    Engine → Action → String → Result LifecycleError Summary → Result LifecycleError Run
unfolding run_container
container_action e action id inspected = do
  guard (valid_action action) invalid_action
  run_container e action id inspected

unfoldable pub named_project : Option String → Result LifecycleError String
named_project none = err not_found
named_project (some name) = if name =ₛ "" then err not_found else ok name

unfoldable pub project_group :
    Engine → Action → String → Result String (List Summary) → Result LifecycleError Run
unfolding named_project project_targets run_project
project_group e action id listed = do
  name ← named_project (cut_prefix id "compose:")
  targets ← project_targets listed name
  run_project e action targets

unfoldable pub routed_action :
    Engine
    → Action
    → Option String
    → String
    → (String → Result LifecycleError Summary)
    → Result String (List Summary)
    → Result LifecycleError Run
unfolding run_container project_group
routed_action e action (some container) id inspected listed =
    run_container e action container (inspected container)
routed_action e action none id inspected listed = project_group e action id listed

unfoldable pub project_action :
    Engine
    → Action
    → String
    → (String → Result LifecycleError Summary)
    → Result String (List Summary)
    → Result LifecycleError Run
unfolding routed_action
project_action e action id inspected listed = do
  guard (valid_action action) invalid_action
  routed_action e action (cut_prefix id "container:") id inspected listed
