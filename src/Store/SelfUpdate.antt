-- ===== src/Store/SelfUpdate.antt =====
-- store/self_update.go: the settings, the jobs and the journal of Yard's own update.
mod Examples
pub mod Recovery
use nox_yard.Store.Schedules.{scheduled_job}
use nox_yard.Store.Outcomes.{finish_schedule}
use nox_yard.Prelude.{
  ◌==◌, ◌=ₛ◌, if◌then◌else◌, is_some, exists, ◌++ₛ◌, err, ok, ◌>>=◌, ◌>>◌, guard, ℕ, String, Bool,
  false, ◌&&◌, ◌||◌, not, Option, none, some, List, [], ◌∷◌, ◌++◌,
}
use nox_yard.Store.Types.{
  job_changed, invalid_status, constraint, no_rows, not_active, Tx, ImageIdentity, Job, Row,
  ScheduleOccurrence, Db,
}
use nox_yard.Store.Tables.{update_where, count_where, changed, release}
use nox_yard.Store.Jobs.{new_job, insert_job, update_jobs, on_job}

pub record SelfUpdateSettings : Type 0 where
  pub automatic : Bool
  pub check_interval_minutes : ℕ
  pub last_checked_at : ℕ
  pub last_check_error : String
  pub failed_digest : String

pub record SelfUpdateJob : Type 0 where
  pub id : String
  pub status : String
  pub old_image_id : String
  pub target_image_id : String
  pub target_digest : String
  pub error : String
  pub created_at : ℕ
  pub completed_at : ℕ
  pub project_name : String
  pub container_id : String

-- self_update_settings (one row), self_update_jobs in the order of insertion, and the other tables.
pub record SelfUpdate : Type 0 where
  pub settings : SelfUpdateSettings
  pub updates : List SelfUpdateJob
  pub db : Db

-- CHECK (check_interval_minutes IN (5, 15, 30, 60, 360))
unfoldable pub is_interval : ℕ → Bool
is_interval n = n == 5 || n == 15 || n == 30 || n == 60 || n == 360

-- SetSelfUpdateSettings: switching the automatic update on forgets the failed image.
unfoldable pub set_self_update_settings : Bool → ℕ → SelfUpdate → Tx SelfUpdate
unfolding is_interval
set_self_update_settings enabled minutes s = do
  guard (is_interval minutes) constraint
  ok (record s {
    settings = record s.settings {
      automatic = enabled;
      check_interval_minutes = minutes;
      failed_digest = if not s.settings.automatic && enabled then "" else s.settings.failed_digest;
    };
  })

-- ClearSelfUpdateFailure
unfoldable pub clear_self_update_failure : SelfUpdate → SelfUpdate
clear_self_update_failure s = record s { settings = record s.settings { failed_digest = "" } }

-- RecordSelfUpdateCheck
unfoldable pub record_self_update_check : ℕ → String → SelfUpdate → SelfUpdate
record_self_update_check now message s = record s {
  settings = record s.settings { last_checked_at = now; last_check_error = message };
}

unfoldable pub find_update : String → List SelfUpdateJob → Option SelfUpdateJob
find_update id [] = none
find_update id (x ∷ xs) = let rest = find_update id xs in if x.id =ₛ id then some x else rest

-- LatestSelfUpdateJob: the row that was inserted last.
unfoldable pub latest_self_update_job : List SelfUpdateJob → Option SelfUpdateJob
latest_self_update_job [] = none
latest_self_update_job (x ∷ []) = some x
latest_self_update_job (x ∷ y ∷ ys) = latest_self_update_job (y ∷ ys)

abbrev pub is_updating : SelfUpdateJob → Bool
is_updating x = x.status =ₛ "updating"

-- The operation that CreateSelfUpdateJob journals.
unfoldable pub self_update_target : SelfUpdateJob → String
self_update_target x =
    if x.project_name =ₛ "" then "compose:nox-yard" else "compose:" ++ₛ x.project_name

unfoldable pub self_image : String → String → ImageIdentity
self_image container image = record {
  service = "";
  container_id = container;
  image_id = image;
  platform = "";
  started_at = "";
  previous_container_id = "";
  outcome = "";
  state = "";
}

unfoldable pub self_resources : SelfUpdateJob → List String → List String
self_resources x rs =
    if x.container_id =ₛ "" then rs else rs ++ ("container:" ++ₛ x.container_id) ∷ []

unfoldable pub self_operation : ℕ → String → Option ScheduleOccurrence → SelfUpdateJob → Job
unfolding new_job scheduled_job self_update_target self_resources self_image
self_operation now owner occurrence x =
    let planned =
      scheduled_job occurrence
        (new_job now x.id owner (self_update_target x) "self-update" "update" ("yard:self" ∷ [])) in
    record planned {
      project_name = x.project_name;
      stage = "pulling";
      worker_id = "nox-yard-update-" ++ₛ x.id;
      source_images = self_image x.container_id x.old_image_id ∷ [];
      target_images = self_image "" x.target_image_id ∷ [];
      resources = self_resources x planned.resources;
    }

-- The columns of the INSERT into self_update_jobs.
unfoldable pub stored_update : ℕ → SelfUpdateJob → SelfUpdateJob
stored_update now x = record {
  id = x.id;
  status = "updating";
  old_image_id = x.old_image_id;
  target_image_id = x.target_image_id;
  target_digest = x.target_digest;
  error = "";
  created_at = now;
  completed_at = 0;
  project_name = "";
  container_id = "";
}

-- The primary key, and the unique index on the rows that are updating.
unfoldable pub accepts_update : String → List SelfUpdateJob → Bool
unfolding find_update
accepts_update id xs = not (is_some (find_update id xs)) && not (exists is_updating xs)

-- CreateSelfUpdateJobContext
unfoldable pub create_self_update_job :
    ℕ → String → Option ScheduleOccurrence → SelfUpdateJob → SelfUpdate → Tx SelfUpdate
unfolding self_operation insert_job accepts_update stored_update
create_self_update_job now owner occurrence x s = do
  db ← insert_job (self_operation now owner occurrence x) s.db
  guard (accepts_update x.id s.updates) constraint
  ok (record s { updates = s.updates ++ stored_update now x ∷ []; db = db })

-- SetSelfUpdateTarget
unfoldable pub awaits_target : String → String → SelfUpdateJob → Bool
awaits_target id expected x = x.id =ₛ id && is_updating x && x.target_image_id =ₛ expected

unfoldable pub pulls_image : String → Row → Bool
pulls_image id r =
    r.job.id =ₛ id
    && r.job.domain =ₛ "self-update"
    && r.job.status =ₛ "running"
    && r.job.stage =ₛ "pulling"

unfoldable pub set_self_update_target : ℕ → String → String → String → SelfUpdate → Tx SelfUpdate
unfolding update_where count_where changed update_jobs awaits_target pulls_image self_image
set_self_update_target now id expected actual s = do
  guard (not (actual =ₛ "")) job_changed
  changed (count_where (awaits_target id expected) s.updates)
  db ←
      update_jobs (pulls_image id)
        (on_job (λ j. record j { target_images = self_image "" actual ∷ []; updated_at = now }))
        s.db
  ok (record s {
    updates =
        update_where (awaits_target id expected) (λ x. record x { target_image_id = actual })
          s.updates;
    db = db;
  })

-- FinishSelfUpdateOutcome. The texts for the person are those of the source.
unfoldable pub self_outcome : String → Bool → String
self_outcome status recovery =
    if recovery then "recovery_required" else if status =ₛ "failed" then "failed" else "verified"

unfoldable pub self_message : String → Bool → String
self_message status recovery =
    if recovery
    then "Self-update completion or rollback is uncertain. Inspect the running container, SQLite snapshot and retained rollback resources on the host, then acknowledge recovery."
    else if status =ₛ "failed"
    then "Self-update failed. Inspect the dedicated self-update status and retained rollback resources on the host."
    else ""

unfoldable pub self_finished : ℕ → String → String → String → String → String → Job → Job
self_finished now status stage outcome message rollback j = record j {
  status = status;
  stage = stage;
  outcome = outcome;
  error = message;
  rollback = rollback;
  completed_at = now;
  updated_at = now;
}

unfoldable pub failed_digest_of : String → Option SelfUpdateJob → Tx String
failed_digest_of status none = if status =ₛ "failed" then err no_rows else ok ""
failed_digest_of status (some x) = ok (if status =ₛ "failed" then x.target_digest else "")

-- The journal's row, the schedule and the locks.
unfoldable pub finish_operation : ℕ → String → String → Bool → String → Db → Tx Db
unfolding update_where self_outcome self_message self_finished finish_schedule release
finish_operation now id status recovery rollback db =
    let outcome = self_outcome status recovery in
    let message = self_message status recovery in
    let stage = if recovery then "awaiting_recovery" else "completed" in
    let rows =
      update_where (λ r. r.job.id =ₛ id && r.job.domain =ₛ "self-update")
        (on_job (self_finished now status stage outcome message rollback)) db.jobs in
    do
      plans ← finish_schedule rows id status outcome message db.plans
      ok (record {
        jobs = rows;
        plans = plans;
        locks = if recovery then db.locks else release id db.locks;
      })

unfoldable pub is_active_update : String → SelfUpdateJob → Bool
is_active_update id x = x.id =ₛ id && is_updating x

unfoldable pub finish_self_update_outcome :
    ℕ → String → String → String → Bool → String → SelfUpdate → Tx SelfUpdate
unfolding update_where count_where find_update is_active_update failed_digest_of finish_operation
finish_self_update_outcome now id status message recovery rollback s = do
  guard (status =ₛ "succeeded" || status =ₛ "failed") invalid_status
  guard (count_where (is_active_update id) s.updates == 1) not_active
  digest ← failed_digest_of status (find_update id s.updates)
  db ← finish_operation now id status recovery rollback s.db
  ok (record {
    settings = record s.settings { failed_digest = digest; last_check_error = "" };
    updates =
        update_where (is_active_update id)
          (λ x. record x { status = status; error = message; completed_at = now }) s.updates;
    db = db;
  })

-- FinishSelfUpdateJob
abbrev pub finish_self_update_job : ℕ → String → String → String → SelfUpdate → Tx SelfUpdate
finish_self_update_job now id status message s =
    finish_self_update_outcome now id status message false "" s
