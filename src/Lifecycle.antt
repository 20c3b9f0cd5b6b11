-- ===== src/Lifecycle.antt =====
-- lifecycle/lifecycle.go: starting, stopping and restarting a container or a project.
-- Docker's answers are an `Engine`: what it answers may depend on the calls made before.
mod Examples
pub mod Acting
pub mod Actions
pub mod Counting
pub mod Lock
pub mod Protection
use nox_yard.Prelude.{
  leb, ◌==◌, ◌=ₛ◌, if◌then◌else◌, ◌++ₛ◌, has_prefix, trim_prefix, split, take_text, Labels, label,
  comma, colon, Result, err, ok, ◌>>=◌, ℕ, zero, suc, ◌/◌, String, len, Bool, true, false, ◌&&◌,
  ◌||◌, not, Option, none, some, List, [], ◌∷◌, ◌++◌,
}
use nox_yard.ComposeOrder.{OrderError, service_of, depends_on}

pub data Action : Type 0 where
  start stop restart other : Action

pub data LifecycleError : Type 0 where
  not_found protected invalid_action : LifecycleError
  order_failed : OrderError → LifecycleError
  engine_failed : String → LifecycleError

-- A container as ContainerList shows it.
pub record Summary : Type 0 where
  pub id : String
  pub names : List String
  pub labels : Labels
  pub state : String

pub record Failure : Type 0 where
  pub target : String
  pub cause : String

pub record Report : Type 0 where
  pub action : Action
  pub succeeded : ℕ
  pub skipped : ℕ
  pub failed : ℕ
  pub queued : ℕ
  pub errors : List String
  pub failures : List Failure
  pub warnings : List String

-- A call that may change a container, or that queues Yard's own restart.
pub data Call : Type 0 where
  acts : Action → String → Call
  restarts_self : String → List Failure → Call

-- What ContainerInspect shows of a dependency.
pub record DependencyState : Type 0 where
  pub running : Bool
  pub dead : Bool
  pub oom_killed : Bool
  pub status : String
  pub exit_code : ℕ
  pub health : Option String

-- Docker and the host: `answer` gives a call's error, `inspect` the state at a poll (no state, or
-- a failed inspection), `polls` how many polls fit before the deadline of a wait.
pub record Engine : Type 0 where
  pub hostname : String
  pub answer : List Call → Call → Option String
  pub inspect : List Call → ℕ → String → Option (Option DependencyState)
  pub polls : ℕ

-- validAction
abbrev pub valid_action : Action → Bool
valid_action start = true
valid_action stop = true
valid_action restart = true
valid_action other = false

-- shouldRun
unfoldable pub should_run : String → Action → Bool
should_run state start =
    not (state =ₛ "running") && not (state =ₛ "paused") && not (state =ₛ "restarting")
should_run state restart = state =ₛ "running" || state =ₛ "exited" || state =ₛ "created"
should_run state stop = state =ₛ "running" || state =ₛ "paused" || state =ₛ "restarting"
should_run state other = state =ₛ "running" || state =ₛ "paused" || state =ₛ "restarting"

-- isSelf, for ids and host names of one-byte characters.
unfoldable pub is_self : String → String → Labels → Bool
is_self hostname id ls =
    leb 12 (len hostname) && has_prefix id hostname
    || label "com.docker.compose.project" ls =ₛ "nox-yard"
      && label "com.docker.compose.service" ls =ₛ "nox-yard"

-- isHelper
unfoldable pub is_helper : Labels → Bool
is_helper ls =
    let role = label "nox-yard.role" ls in
    role =ₛ "self-update-worker"
    || role =ₛ "self-restart-worker"
    || role =ₛ "managed-helper"
    || role =ₛ "operation-worker"

-- Protected
unfoldable pub is_protected : String → String → Labels → Bool
unfolding is_self is_helper
is_protected hostname id ls = is_self hostname id ls || is_helper ls

-- containerName
unfoldable pub container_name : Summary → String
container_name item = elim item.names [ [] ↦ take_text 12 item.id | n ∷ ns ↦ trim_prefix n "/" ]

-- A counted failure.
unfoldable pub failing : String → String → String → Report → Report
failing id shown cause r = record r {
  failed = suc r.failed;
  errors = r.errors ++ shown ∷ [];
  failures = r.failures ++ record { target = id; cause = cause } ∷ [];
}

abbrev pub skipping : Report → Report
skipping r = record r { skipped = suc r.skipped }

-- Whether a dependency is as far as its condition asks, or has failed.
unfoldable pub is_healthy : Option String → Bool
is_healthy none = false
is_healthy (some h) = h =ₛ "healthy"

unfoldable pub dependency_ready : String → DependencyState → Bool
unfolding is_healthy
dependency_ready condition d =
    if condition =ₛ "service_completed_successfully"
    then d.status =ₛ "exited" && d.exit_code == 0
    else if condition =ₛ "service_healthy"
    then d.running && is_healthy d.health
    else d.running

unfoldable pub dependency_failed : DependencyState → Bool
dependency_failed d = d.dead || d.oom_killed || d.status =ₛ "exited" && not (d.exit_code == 0)

-- The polls of one dependency, `n` of them left before the deadline after this one: the number of
-- the next poll and what is left, or an error's text.
unfoldable pub poll_state : String → String → DependencyState → Option (Result String (Unit {0}))
unfolding dependency_ready dependency_failed
poll_state name condition d =
    if dependency_ready condition d
    then some (ok tt)
    else if dependency_failed d
    then some (err ("observed dependency " ++ₛ name ++ₛ " failed"))
    else none

unfoldable pub poll_answer :
    String → String → Option (Option DependencyState) → Option (Result String (Unit {0}))
unfolding poll_state
poll_answer name condition none =
    some (err ("observed dependency " ++ₛ name ++ₛ " could not be inspected"))
poll_answer name condition (some none) = some (err "invalid lifecycle action")
poll_answer name condition (some (some d)) = poll_state name condition d

abbrev pub settled : ℕ → Result String (Unit {0}) → Result String ℕ
settled n (ok u) = ok n
settled n (err e) = err e

unfoldable pub wait_one : Engine → List Call → String → String → String → ℕ → Result String ℕ
unfolding poll_answer
wait_one e calls name condition id zero =
    elim (poll_answer name condition (e.inspect calls zero id)) [
      | none ↦ err ("observed dependency " ++ₛ name ++ₛ " did not become ready")
      | some r ↦ settled zero r
    ]
wait_one e calls name condition id (suc n) =
    elim (poll_answer name condition (e.inspect calls (suc n) id)) [
      | none ↦ wait_one e calls name condition id n
      | some r ↦ settled (suc n) r
    ]

-- waitObservedDependencies
unfoldable pub wait_service :
    Engine → List Call → String → String → List Summary → ℕ → Result String ℕ
unfolding wait_one
wait_service e calls name condition [] left = ok left
wait_service e calls name condition (t ∷ ts) left =
    if service_of t.labels =ₛ name
    then wait_one e calls name condition t.id left >>= wait_service e calls name condition ts
    else wait_service e calls name condition ts left

unfoldable pub wait_entry : Engine → List Call → List String → List Summary → ℕ → Result String ℕ
unfolding wait_service
wait_entry e calls (name ∷ condition ∷ required ∷ []) targets left =
    wait_service e calls name condition targets left
wait_entry e calls others targets left = err "invalid lifecycle action"

unfoldable pub wait_entries : Engine → List Call → List String → List Summary → ℕ → Result String ℕ
unfolding wait_entry
wait_entries e calls [] targets left = ok left
wait_entries e calls (v ∷ vs) targets left =
    let rest = wait_entries e calls vs targets in
    if v =ₛ "" then rest left else wait_entry e calls (split colon v) targets left >>= rest

unfoldable pub wait_observed_dependencies :
    Engine → List Call → Labels → List Summary → Result String ℕ
unfolding wait_entries
wait_observed_dependencies e calls ls targets =
    wait_entries e calls (split comma (label "com.docker.compose.depends_on" ls)) targets e.polls
