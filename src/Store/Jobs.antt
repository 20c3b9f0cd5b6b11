-- ===== src/Store/Jobs.antt =====
-- store/jobs.go: the operations on operation_jobs and operation_locks. `now` is the clock.
use nox_yard.Prelude.{
  ◌==◌, ◌=ₛ◌, if◌then◌else◌, is_some, select, ok, err, ◌>>=◌, ◌>>◌, guard, ℕ, ◌+◌, String, Bool,
  ◌&&◌, ◌||◌, not, Option, none, some, List, [], ◌∷◌, ◌++◌,
}
use nox_yard.Store.Types.{
  job_changed, invalid_status, constraint, no_rows, Tx, ImageIdentity, Job, Row, ProjectSchedule,
  ScheduleOccurrence, Plans, Db,
}
use nox_yard.Store.Tables.{update_where, count_where, changed, find_row, release}
use nox_yard.Store.Keys.{unique_keys, claim_keys, reserve_keys}
use nox_yard.Store.Schedules.{
  scheduled_job, find_schedule, by_key, retarget_schedules, claim_schedule,
}
use nox_yard.Store.Outcomes.{finish_schedule}

-- NewJob, with the two random identities as arguments.
unfoldable pub new_job : ℕ → String → String → String → String → String → List String → Job
new_job now id owner target domain operation resources = record {
  id = id;
  project_name = "";
  target_id = target;
  domain = domain;
  operation = operation;
  status = "running";
  stage = "queued";
  outcome = "";
  worker_id = "";
  source_images = [];
  target_images = [];
  rollback = "";
  error = "";
  cleanup_error = "";
  created_at = now;
  started_at = 0;
  updated_at = now;
  completed_at = 0;
  deadline_at = now + 600;
  scheduled_for = 0;
  schedule_key = "";
  candidate_fingerprint = "";
  schedule_date = "";
  schedule_next = 0;
  resources = resources;
  owner = owner;
  payload = "";
}

-- The columns that the INSERT of `insertJob` writes; the others take their defaults.
unfoldable pub stored_row : Job → Row
unfolding unique_keys
stored_row j = record {
  job = record j {
    rollback = "";
    cleanup_error = "";
    candidate_fingerprint = "";
    schedule_date = "";
    schedule_next = 0;
    resources = unique_keys (j.target_id ∷ j.resources);
  };
  worker_cleaned_at = 0;
}

-- The last parts of insertJob: the locks of a running job, the result of one that is born finished.
unfoldable pub take_locks : Job → Db → List Row → Plans → Tx Db
unfolding unique_keys claim_keys
take_locks j db rows plans = do
  locks ← claim_keys (unique_keys (j.target_id ∷ j.resources)) j.id db.locks
  ok (record { jobs = rows; locks = locks; plans = plans })

unfoldable pub settle_at_once : Job → Db → List Row → Plans → Tx Db
unfolding finish_schedule
settle_at_once j db rows plans = do
  settled ← finish_schedule rows j.id j.status j.outcome j.error plans
  ok (record { jobs = rows; locks = db.locks; plans = settled })

-- insertJob: a finished job (a skipped occurrence) takes no lock.
unfoldable pub insert_job : Job → Db → Tx Db
unfolding find_row stored_row claim_schedule take_locks settle_at_once
insert_job j db =
    let rows = db.jobs ++ stored_row j ∷ [] in
    do
      guard (not (is_some (find_row j.id db.jobs))) constraint
      plans ← claim_schedule rows j db.plans
      if j.status =ₛ "running" then take_locks j db rows plans else settle_at_once j db rows plans

-- CreateJob is insertJob in a transaction of its own.
abbrev pub create_job : Job → Db → Tx Db
create_job = insert_job

-- An UPDATE of operation_jobs followed by `changed`.
unfoldable pub update_jobs : (Row → Bool) → (Row → Row) → Db → Tx Db
unfolding update_where count_where changed
update_jobs hit f db = do
  changed (count_where hit db.jobs)
  ok (record db { jobs = update_where hit f db.jobs })

abbrev pub on_job : (Job → Job) → Row → Row
on_job f r = record r { job = f r.job }

-- WHERE id=? AND owner=? AND status='running'
unfoldable pub owned_running : String → String → Row → Bool
owned_running id owner r = r.job.id =ₛ id && (r.job.owner =ₛ owner && r.job.status =ₛ "running")

-- SetJobWorker
unfoldable pub set_job_worker : ℕ → String → String → String → Db → Tx Db
unfolding update_jobs owned_running
set_job_worker now id owner worker =
    update_jobs
      (λ r.
        owned_running id owner r
        && (r.job.started_at == 0
            || (r.job.domain =ₛ "engine" && (r.job.stage =ₛ "executing" && r.job.worker_id =ₛ ""))))
      (on_job (λ j. record j {
        worker_id = worker;
        stage = "launching";
        started_at = 0;
        updated_at = now;
      }))

-- JobPayload
unfoldable pub job_payload : ℕ → String → String → String → Db → Tx Db
unfolding update_jobs owned_running
job_payload now id owner payload =
    update_jobs (owned_running id owner)
      (on_job (λ j. record j { payload = payload; updated_at = now }))

-- ClaimJob
unfoldable pub claim_job : ℕ → String → String → Db → Tx Db
unfolding update_jobs owned_running
claim_job now id owner =
    update_jobs
      (λ r. owned_running id owner r && (r.job.started_at == 0 && r.job.stage =ₛ "launching"))
      (on_job (λ j. record j { started_at = now; stage = "preparing"; updated_at = now }))

abbrev pub or_keep {ℓ} : {A : Type ℓ} → Option A → A → A
or_keep none old = old
or_keep (some new) old = new

-- JobProgress; a nil slice of images leaves the column as it is.
unfoldable pub job_progress :
    ℕ
    → String
    → String
    → String
    → Option (List ImageIdentity)
    → Option (List ImageIdentity)
    → Db
    → Tx Db
unfolding update_jobs owned_running
job_progress now id owner stage source target = update_jobs (owned_running id owner) (
    on_job (λ j. record j {
      stage = stage;
      updated_at = now;
      started_at = if j.started_at == 0 && stage =ₛ "executing" then now else j.started_at;
      source_images = or_keep source j.source_images;
      target_images = or_keep target j.target_images;
    }))

-- finishJobTx. An empty owner stands for any.
abbrev pub final_stage : String → String
final_stage outcome = if outcome =ₛ "recovery_required" then "awaiting_recovery" else "completed"

unfoldable pub finishable : String → String → Row → Bool
finishable id owner r =
    r.job.id =ₛ id && (r.job.status =ₛ "running" && (owner =ₛ "" || r.job.owner =ₛ owner))

unfoldable pub finished : ℕ → String → String → String → String → Row → Row
finished now status outcome message rollback = on_job (λ j. record j {
  status = status;
  outcome = outcome;
  stage = final_stage outcome;
  error = message;
  rollback = rollback;
  updated_at = now;
  completed_at = now;
})

unfoldable pub finish_job_tx : ℕ → String → String → String → String → String → String → Db → Tx Db
unfolding update_jobs finishable finished finish_schedule release
finish_job_tx now id owner status outcome message rollback db = do
  marked ← update_jobs (finishable id owner) (finished now status outcome message rollback) db
  settled ← finish_schedule marked.jobs id status outcome message marked.plans
  ok (record marked {
    plans = settled;
    locks = if outcome =ₛ "recovery_required" then marked.locks else release id marked.locks;
  })

-- FinishJob
unfoldable pub finish_job : ℕ → String → String → String → String → String → String → Db → Tx Db
unfolding finish_job_tx
finish_job now id owner status outcome message rollback db = do
  guard (status =ₛ "succeeded" || status =ₛ "failed") invalid_status
  finish_job_tx now id owner status outcome message rollback db

-- JobCleanupError
unfoldable pub job_cleanup_error : String → String → Db → Db
unfolding update_where
job_cleanup_error id message db = record db {
  jobs =
      update_where (λ r. r.job.id =ₛ id) (on_job (λ j. record j { cleanup_error = message }))
        db.jobs;
}

-- WorkersForCleanup
unfoldable pub workers_for_cleanup : Db → List Row
workers_for_cleanup db =
    select
      (λ r.
        not (r.job.status =ₛ "running")
        && (not (r.job.worker_id =ₛ "")
            && (r.worker_cleaned_at == 0 && not (r.job.domain =ₛ "self-update"))))
      db.jobs

-- WorkerCleaned
unfoldable pub worker_cleaned : ℕ → String → Bool → Db → Db
unfolding update_where
worker_cleaned now id clear db = record db {
  jobs =
      update_where (λ r. r.job.id =ₛ id)
        (λ r. record {
          job = record r.job { cleanup_error = if clear then "" else r.job.cleanup_error };
          worker_cleaned_at = now;
        })
        db.jobs;
}

-- AcknowledgeRecovery
unfoldable pub acknowledgeable : String → ℕ → Row → Bool
acknowledgeable id updated_at r =
    r.job.id =ₛ id
    && (r.job.status =ₛ "failed"
        && (r.job.outcome =ₛ "recovery_required" && r.job.updated_at == updated_at))

unfoldable pub acknowledged : ℕ → Row → Row
acknowledged now r = record {
  job = record r.job { outcome = "recovery_acknowledged"; stage = "completed"; updated_at = now };
  worker_cleaned_at = 0;
}

unfoldable pub acknowledge_recovery : ℕ → String → ℕ → Db → Tx Db
unfolding update_jobs acknowledgeable acknowledged finish_schedule release
acknowledge_recovery now id updated_at db = do
  marked ← update_jobs (acknowledgeable id updated_at) (acknowledged now) db
  settled ←
      finish_schedule marked.jobs id "failed" "recovery_acknowledged"
        "Recovery was reviewed; a manual retry is available." marked.plans
  ok (record marked { plans = settled; locks = release id marked.locks })

-- RetargetJob. Go ranges over a map of the keys, in any order; here they are taken sorted.
unfoldable pub retarget_keys : Job → String → List String → List String
unfolding unique_keys
retarget_keys j target resources = unique_keys ((j.resources ++ resources) ++ target ∷ [])

abbrev pub retargeted : ℕ → String → List String → Row → Row
retargeted now target keys =
    on_job (λ j. record j { target_id = target; resources = keys; updated_at = now })

-- The part after the row has been read.
unfoldable pub retarget_row : ℕ → String → String → String → List String → Row → Db → Tx Db
unfolding update_jobs owned_running reserve_keys retarget_schedules
retarget_row now id owner target keys r db = do
  guard (owned_running id owner r) job_changed
  locks ← reserve_keys keys id db.locks
  marked ← update_jobs (owned_running id owner) (retargeted now target keys) db
  plans ←
      retarget_schedules (λ s. s.target_id =ₛ r.job.target_id)
        (λ s. record s { target_id = target }) db.plans
  ok (record marked { locks = locks; plans = plans })

unfoldable pub retarget_job : ℕ → String → String → String → List String → Db → Tx Db
unfolding find_row retarget_keys retarget_row
retarget_job now id owner target resources db = elim (find_row id db.jobs) [
  | none ↦ err job_changed
  | some r ↦ retarget_row now id owner target (retarget_keys r.job target resources) r db
]

abbrev pub disabled_reason : String
disabled_reason = "Automatic updates were disabled before replacement."

abbrev pub failed_reason : String
failed_reason =
    "The same image set previously failed. Waiting for new images or an explicit manual retry."

-- UpdateCandidate: records the images and says why an automatic update must not go on.
unfoldable pub suppression : Job → String → Plans → Tx String
unfolding find_schedule by_key
suppression j signature p =
    if j.schedule_key =ₛ ""
    then ok ""
    else elim (find_schedule (by_key j.schedule_key) p.schedules) [
      | none ↦ err no_rows
      | some s ↦ ok (
          if not s.enabled
          then disabled_reason
          else if not (signature =ₛ "") && signature =ₛ s.failed_fingerprint
          then failed_reason
          else "")
    ]

unfoldable pub update_candidate : Job → String → Db → Tx (Db × String)
unfolding update_jobs owned_running suppression
update_candidate j signature db = do
  marked ←
      update_jobs (owned_running j.id j.owner)
        (on_job (λ k. record k { candidate_fingerprint = signature })) db
  reason ← suppression j signature marked.plans
  ok (marked, reason)

-- SkipSchedule: the occurrence is consumed by a job that is born finished.
unfoldable pub skip_schedule :
    ℕ → String → String → ProjectSchedule → ScheduleOccurrence → String → Db → Tx Db
unfolding new_job scheduled_job insert_job
skip_schedule now id owner row occurrence reason db =
    create_job
      (record (scheduled_job (some occurrence)
        (new_job now id owner row.target_id "schedule" "update" [])) {
          status = "succeeded";
          stage = "completed";
          outcome = "skipped";
          error = reason;
          started_at = now;
          completed_at = now;
        })
      db
