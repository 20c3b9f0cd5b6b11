-- ===== src/Workers.antt =====
-- jobs/workers.go and jobs/observer.go: the workers of operations, and what happens to a job whose
-- worker has gone. Docker's answers are arguments; a text is an error of Docker or of the database.
mod Examples
pub mod Observing
use nox_yard.Prelude.{
  ltb, ◌==◌, ◌=ₛ◌, if◌then◌else◌, exists, ◌++ₛ◌, trim_prefix, Labels, label, Result, err, ok, ◌>>=◌,
  ◌>>◌, guard, ℕ, ◌+◌, ◌/◌, String, Bool, true, false, ◌&&◌, ◌||◌, not, Option, none, some, List,
  [],
}
use nox_yard.Store.Types.{job_changed, StoreError, Tx, Job, Row, Db}
use nox_yard.Store.Tables.{find_row}
use nox_yard.Store.Jobs.{finish_job, acknowledge_recovery}

-- A container that ContainerInspect shows; its labels are missing when it has no Config.
pub record WorkerContainer : Type 0 where
  pub id : String
  pub name : String
  pub config : Option Labels
  pub is_running : Bool
  pub is_restarting : Bool

-- What ContainerInspect answers: an error, no such container, or the container.
pub data Inspected : Type 0 where
  failed : Inspected
  missing : Inspected
  shown : WorkerContainer → Inspected

pub data WorkerError : Type 0 where
  docker_failed : WorkerError
  not_its_worker : WorkerError
  still_running : WorkerError
  store_failed : StoreError → WorkerError

pub record WorkerState : Type 0 where
  pub running : Bool
  pub exists_yet : Bool
  pub helpers_running : Bool

unfoldable pub carries_job : Job → String → Option Labels → Bool
carries_job j owner none = false
carries_job j owner (some ls) =
    label "nox-yard.job" ls =ₛ j.id && label "nox-yard.owner" ls =ₛ owner

-- ValidateWorker, with the container that runs it.
unfoldable pub is_own_worker : Job → String → WorkerContainer → Bool
unfolding carries_job
is_own_worker j owner c = c.id =ₛ j.worker_id && carries_job j owner c.config

unfoldable pub validated : Job → String → Inspected → Result WorkerError (Unit {0})
unfolding is_own_worker
validated j owner failed = err docker_failed
validated j owner missing = err docker_failed
validated j owner (shown c) = guard (is_own_worker j owner c) not_its_worker

unfoldable pub validate_worker : Job → String → Inspected → Result WorkerError (Unit {0})
unfolding validated
validate_worker j owner self = do
  guard (j.status =ₛ "running" && not (owner =ₛ "") && j.owner =ₛ owner && not (j.worker_id =ₛ ""))
      not_its_worker
  validated j owner self

-- A worker of Yard's own update from before jobs had owners.
unfoldable pub has_update_role : Option Labels → Bool
has_update_role none = false
has_update_role (some ls) = label "nox-yard.role" ls =ₛ "self-update-worker"

unfoldable pub is_legacy_update : Job → WorkerContainer → Bool
unfolding has_update_role
is_legacy_update j c =
    j.domain =ₛ "self-update"
    && j.owner =ₛ ""
    && has_update_role c.config
    && trim_prefix c.name "/" =ₛ ("nox-yard-update-" ++ₛ j.id)

-- State: the worker, then the helpers among the containers that carry the job's label, of which
-- the list has each one's id and whether it is running.
unfoldable pub inspected_worker : Job → Inspected → Result WorkerError (Bool × Bool)
unfolding is_legacy_update carries_job
inspected_worker j failed = err docker_failed
inspected_worker j missing = ok (false, false)
inspected_worker j (shown c) =
    if is_legacy_update j c || carries_job j j.owner c.config
    then ok (true, c.is_running || c.is_restarting)
    else err not_its_worker

unfoldable pub found_worker : Job → Inspected → Result WorkerError (Bool × Bool)
unfolding inspected_worker
found_worker j worker = if j.worker_id =ₛ "" then ok (false, false) else inspected_worker j worker

unfoldable pub has_running_helper : Job → List (String × Bool) → Bool
has_running_helper j listed = exists (λ h. not (h.0 =ₛ j.worker_id) && h.1) listed

unfoldable pub state_of :
    Job → Bool × Bool → Option (List (String × Bool)) → Result WorkerError WorkerState
unfolding has_running_helper
state_of j found none = err docker_failed
state_of j found (some listed) = ok (record {
  running = found.1;
  exists_yet = found.0;
  helpers_running = has_running_helper j listed;
})

unfoldable pub worker_state :
    Job → Inspected → Option (List (String × Bool)) → Result WorkerError WorkerState
unfolding found_worker state_of
worker_state j worker listed = do found ← found_worker j worker; state_of j found listed

abbrev pub is_busy : WorkerState → Bool
is_busy s = s.running || s.helpers_running

-- Cleanup, up to its removal: whether there is a worker to remove.
unfoldable pub cleanup : Job → Result WorkerError WorkerState → Result WorkerError Bool
cleanup j state =
    if j.worker_id =ₛ ""
    then ok false
    else state >>= λ s. guard (not (is_busy s)) still_running >> ok s.exists_yet

-- observeState's verification: whether it passed, and the database it leaves, since it may itself
-- retarget, commit or finish a job.
abbrev pub Verify : Type 0
Verify = Db → Bool × Db

unfoldable pub is_verifying : Job → Bool
is_verifying j = j.stage =ₛ "verifying" || j.stage =ₛ "committing"

abbrev pub exit_message : String
exit_message =
    "Worker exited before recording a verified result. Inspect the target, source files and retained resources on the host, then acknowledge recovery before retrying. No operation was replayed."

unfoldable pub reconcile_row : ℕ → Job → Option Row → Db → Tx Db
unfolding finish_job
reconcile_row now j none db = err job_changed
reconcile_row now j (some current) db =
    if current.job.status =ₛ "running"
    then finish_job now j.id j.owner "succeeded" "reconciled" "" "" db
    else ok db

-- A transaction's error and the database after it, which one that fails leaves as it was.
abbrev pub transacted : Db → Tx Db → Option StoreError × Db
transacted db (ok after) = (none, after)
transacted db (err e) = (some e, db)

unfoldable pub give_up : ℕ → Job → Db → Option StoreError × Db
unfolding finish_job
give_up now j db =
    transacted db
      (finish_job now j.id j.owner "failed" "recovery_required" exit_message j.rollback db)

-- What follows the verification.
unfoldable pub after_verify : ℕ → Job → Bool × Db → Option StoreError × Db
unfolding reconcile_row find_row give_up
after_verify now j (true, db) = transacted db (reconcile_row now j (find_row j.id db.jobs) db)
after_verify now j (false, db) = give_up now j db

unfoldable pub end_job : ℕ → Job → Option Verify → Db → Option StoreError × Db
unfolding is_verifying after_verify give_up
end_job now j none db = give_up now j db
end_job now j (some verify) db =
    if is_verifying j then after_verify now j (verify db) else give_up now j db

-- A job is left alone while it is busy, once it is over, and in its first half minute.
unfoldable pub is_left_alone : ℕ → WorkerState → Job → Bool
is_left_alone now s j =
    is_busy s || not (j.status =ₛ "running") || j.started_at == 0 && ltb now (j.created_at + 30)

-- observeState: its error, and the database after it.
unfoldable pub observe_state : ℕ → WorkerState → Option Verify → Job → Db → Option StoreError × Db
unfolding is_left_alone end_job
observe_state now s verify j db =
    if is_left_alone now s j then (none, db) else end_job now j verify db

-- A transaction's error, passed on.
abbrev pub lifted : Tx Db → Result WorkerError Db
lifted (ok db) = ok db
lifted (err e) = err (store_failed e)

-- Observer.Acknowledge, without the final clean-up, which only writes a text into the job.
unfoldable pub acknowledge_row :
    ℕ
    → ℕ
    → String
    → Option Row
    → (Job → Result WorkerError WorkerState)
    → Db
    → Result WorkerError Db
unfolding acknowledge_recovery
acknowledge_row now updated id none state db = err (store_failed job_changed)
acknowledge_row now updated id (some r) state db = do
  guard (r.job.outcome =ₛ "recovery_required") (store_failed job_changed)
  s ← state r.job
  guard (not (is_busy s)) still_running
  lifted (acknowledge_recovery now id updated db)

unfoldable pub acknowledge :
    ℕ → ℕ → String → (Job → Result WorkerError WorkerState) → Db → Result WorkerError Db
unfolding find_row acknowledge_row
acknowledge now updated id state db = acknowledge_row now updated id (find_row id db.jobs) state db

-- Which of the active jobs Reconcile observes.
unfoldable pub is_observed : Job → Bool
is_observed j = not (j.domain =ₛ "self-update") && not (j.domain =ₛ "engine" && j.worker_id =ₛ "")
