-- ===== src/Store/Types.antt =====
-- internal/store: the rows of the SQLite database as Go reads them (jobs.go, schedules.go).
-- A transaction is a function into `Result`; an error leaves the caller's database as it was.
-- The Unix times are natural numbers, and `now` is an argument where the code reads the clock.
use nox_yard.Prelude.{ℕ, String, Bool, List, ◌||◌, ◌=ₛ◌, Result}

-- `constraint` is a PRIMARY KEY, UNIQUE or CHECK failure, `no_rows` is sql.ErrNoRows.
pub data StoreError : Type 0 where
  operation_conflict job_changed schedule_changed invalid_status constraint no_rows invalid_settings
        token_required no_admin admin_exists not_active :
      StoreError

abbrev pub Tx : Type 0 → Type 0
Tx A = Result StoreError A

pub record ImageIdentity : Type 0 where
  pub service : String
  pub container_id : String
  pub image_id : String
  pub platform : String
  pub started_at : String
  pub previous_container_id : String
  pub outcome : String
  pub state : String

pub record Job : Type 0 where
  pub id : String
  pub project_name : String
  pub target_id : String
  pub domain : String
  pub operation : String
  pub status : String
  pub stage : String
  pub outcome : String
  pub worker_id : String
  pub source_images : List ImageIdentity
  pub target_images : List ImageIdentity
  pub rollback : String
  pub error : String
  pub cleanup_error : String
  pub created_at : ℕ
  pub started_at : ℕ
  pub updated_at : ℕ
  pub completed_at : ℕ
  pub deadline_at : ℕ
  pub scheduled_for : ℕ
  pub schedule_key : String
  pub candidate_fingerprint : String
  pub schedule_date : String
  pub schedule_next : ℕ
  pub resources : List String
  pub owner : String
  pub payload : String

-- A row of operation_jobs: `worker_cleaned_at` is a column that no `Job` carries.
pub record Row : Type 0 where
  pub job : Job
  pub worker_cleaned_at : ℕ

-- A row of operation_locks; `resource` is the primary key.
pub record Lock : Type 0 where
  pub resource : String
  pub holder : String

-- A row of project_schedules; `key` is the primary key and `target_id` is unique.
pub record ProjectSchedule : Type 0 where
  pub key : String
  pub target_id : String
  pub enabled : Bool
  pub time : String
  pub next_at : ℕ
  pub last_at : ℕ
  pub last_outcome : String
  pub last_reason : String
  pub last_job_id : String
  pub failed_fingerprint : String

pub record ScheduleOccurrence : Type 0 where
  pub key : String
  pub due_at : ℕ
  pub date : String
  pub next_at : ℕ

-- A row of schedule_occurrences; (schedule_key, date) is the primary key and `job_id` is unique.
pub record Consumed : Type 0 where
  pub schedule_key : String
  pub date : String
  pub due_at : ℕ
  pub job_id : String

-- The two tables that the scheduling statements write.
pub record Plans : Type 0 where
  pub schedules : List ProjectSchedule
  pub occurrences : List Consumed

pub record Db : Type 0 where
  pub jobs : List Row
  pub locks : List Lock
  pub plans : Plans

-- The rows that Store.Jobs calls active: running, or waiting for a person.
abbrev pub is_active : Job → Bool
is_active j = j.status =ₛ "running" || j.outcome =ₛ "recovery_required"
