-- ===== src/YardUpdate/Reconciling.antt =====
-- selfupdate/manager.go: reconcileInterruptedJob, for an update whose worker has gone. What it logs is
-- left out.
use nox_yard.YardUpdate.{
  Failure, Config, State, Container, dial, read_latest, read_job, mirror, inspect, tag, asked,
  Engine, Site, Work, log_event, call, look, transact, on_db, ask_store,
}
use nox_yard.YardUpdate.Checks.{is_running, label_of, has_expected_healthcheck, required_mounts}
use nox_yard.YardUpdate.Worker.{finish_update, site_of}
use nox_yard.YardUpdate.Running.{read_operation}
use nox_yard.Store.Types.{Job}
use nox_yard.Store.Jobs.{finish_job}
use nox_yard.Store.SelfUpdate.{SelfUpdateJob, latest_self_update_job}
use nox_yard.Prelude.{
  ◌=ₛ◌, if◌then◌else◌, is_some, ◌++ₛ◌, has_prefix, Result, err, ok, ◌>>=◌, ◌>>◌, guard, is_ok,
  String, Bool, false, ◌&&◌, not, Option, none, some, List,
}

unfoldable pub health_is : String → Option State → Bool
health_is status none = false
health_is status (some s) = reported s.health
  where
    reported : Option String → Bool
    reported none = false
    reported (some h) = h =ₛ status

-- ownContainer, with the answer of os.Hostname.
unfoldable pub is_standard : String → Container → Bool
unfolding is_running label_of
is_standard hostname c =
    has_prefix c.id hostname
    && is_some c.config
    && is_some c.host
    && is_running c.state
    && label_of "com.docker.compose.service" c.config =ₛ "nox-yard"
    && not (label_of "com.docker.compose.project" c.config =ₛ "")

unfoldable pub health_test_of : Option Config → Option (List String)
health_test_of none = none
health_test_of (some c) = c.health_test

unfoldable pub accepted_self : String → Container → Result String Container
unfolding is_standard has_expected_healthcheck health_test_of required_mounts
accepted_self hostname c = do
  guard (is_standard hostname c) "self-update requires the standard running Yard Compose container"
  guard (has_expected_healthcheck (health_test_of c.config))
      "self-update requires the /healthz Docker healthcheck"
  required_mounts c.mounts >>= λ _. ok c

abbrev pub identified : String → Result String Container × Site → Result String Container × Site
identified hostname (err x, w) = (err ("identify this Docker container: " ++ₛ x), w)
identified hostname (ok c, w) = (accepted_self hostname c, w)

unfoldable pub own_container : Engine → Result String String → Work Container
unfolding accepted_self
own_container o (err x) w = (err x, w)
own_container o (ok hostname) w = identified hostname (look o hostname w)

-- A result of a worker from before the journal had it.
abbrev pub mirrored_outcome : String → String
mirrored_outcome status = if status =ₛ "failed" then "recovery_required" else "verified"

abbrev pub mirrored_message : String → String
mirrored_message status =
    if status =ₛ "failed"
    then "Previous self-update failed during upgrade. Inspect its dedicated status and retained resources, then acknowledge recovery before retrying."
    else ""

abbrev pub mirrored : Engine → SelfUpdateJob → Result String Job × Site → Site
mirrored o job (err x, w) = w
mirrored o job (ok operation, w) =
    if operation.status =ₛ "running"
    then site_of (
        transact o (mirror job.status)
          (on_db (
            finish_job (o.now w.trace) job.id operation.owner job.status
              (mirrored_outcome job.status) (mirrored_message job.status) ""))
          w)
    else w

-- Whether the worker may still be at work: it runs, or Docker does not say.
abbrev pub may_work : Result Failure Container → Bool
may_work (ok c) = is_running c.state
may_work (err f) = not f.absent

abbrev pub worker_name : SelfUpdateJob → String
worker_name job = "nox-yard-update-" ++ₛ job.id

abbrev pub exited_message : SelfUpdateJob → Container → String
exited_message job current =
    if current.image =ₛ job.old_image_id
    then "Update worker exited before reporting a result; Yard is still running the previous image."
    else "Update worker exited before reporting a result; inspect the running container and rollback resources on the host."

-- The tag is restored when the previous image runs; an error is added to the message.
abbrev pub with_tag_error : String → Result String (Unit {0}) × Site → String × Site
with_tag_error message (ok _, w) = (message, w)
with_tag_error message (err x, w) =
    (message ++ₛ " Restoring the previous latest tag failed: " ++ₛ x, w)

abbrev pub retagged : Engine → SelfUpdateJob → Container → Site → String × Site
retagged o job current w =
    if current.image =ₛ job.old_image_id
    then with_tag_error (exited_message job current) (call o (tag job.old_image_id) w)
    else (exited_message job current, w)

abbrev pub save_interrupted : Engine → SelfUpdateJob → Container → String × Site → Site
save_interrupted o job current (message, w) =
    site_of (finish_update o job.id "failed" message (not (current.image =ₛ job.old_image_id)) "" w)

abbrev pub is_target : SelfUpdateJob → String → Container → Bool
is_target job status current =
    current.image =ₛ job.target_image_id && health_is status current.state

abbrev pub concluded : Engine → SelfUpdateJob → Result String Container × Site → Site
concluded o job (err x, w) = w
concluded o job (ok current, w) =
    if is_target job "healthy" current
    then site_of (finish_update o job.id "succeeded" "" false "" w)
    else if is_target job "starting" current
    then w
    else save_interrupted o job current (retagged o job current w)

abbrev pub unless_working :
    Engine → Result String String → SelfUpdateJob → Site → Result Failure Container → Site
unless_working o hostname job w r =
    if may_work r
    then log_event (asked (inspect (worker_name job)) (is_ok r)) w
    else concluded o job
        (own_container o hostname (log_event (asked (inspect (worker_name job)) (is_ok r)) w))

abbrev pub inspected_worker :
    Engine → Result String String → SelfUpdateJob → Result String (Unit {0}) × Site → Site
inspected_worker o hostname job (err x, w) = w
inspected_worker o hostname job (ok _, w) =
    unless_working o hostname job w (o.inspects (worker_name job) w.trace)

unfoldable pub resolved : Engine → Result String String → SelfUpdateJob → Site → Site
unfolding health_is own_container read_operation
resolved o hostname job w =
    if job.status =ₛ "updating"
    then inspected_worker o hostname job (call o dial w)
    else mirrored o job (ask_store o read_job (read_operation job.id) w)

abbrev pub resolved_latest :
    Engine → Result String String → Result String (Option SelfUpdateJob) × Site → Site
resolved_latest o hostname (err x, w) = w
resolved_latest o hostname (ok none, w) = w
resolved_latest o hostname (ok (some job), w) = resolved o hostname job w

-- reconcileInterruptedJob
unfoldable pub reconcile_interrupted_job : Engine → Result String String → Site → Site
unfolding latest_self_update_job resolved
reconcile_interrupted_job o hostname w =
    resolved_latest o hostname
      (ask_store o read_latest (λ s. ok (latest_self_update_job s.updates)) w)
