-- ===== src/Store/Admission.antt =====
-- store/jobs.go, CreateJob: which jobs are admitted.
use nox_yard.Prelude.{
  ◌=ₛ◌, every, err, is_ok, ◌≡◌, ◌⊎◌, true, false, ◌||◌, none, List, [], ◌∷◌, ◌++◌, arith, eq_iff,
}
use nox_yard.Store.Types.{operation_conflict, Job, Row, Plans, Db}
use nox_yard.Store.Tables.{find_row}
use nox_yard.Store.Keys.{unique_keys}
use nox_yard.Store.Keys.Distinct.{
  unique_keys-distinct, every-unique_keys, is_free, claim_keys-decides, claim_keys-refuses,
}
use nox_yard.Store.Schedules.{claim_schedule}
use nox_yard.Store.Jobs.{stored_row, take_locks, insert_job, create_job}

take_locks-decides :
    (j : Job) (db : Db) (rows : List Row) (plans : Plans)
    → is_ok (take_locks j db rows plans)
      ≡ every (λ k. k =ₛ "" || is_free db.locks k) (j.target_id ∷ j.resources)
unfolding take_locks
take_locks-decides j db rows plans = ground (
  arith,
  claim_keys-decides (unique_keys (j.target_id ∷ j.resources)) j.id db.locks
      (unique_keys-distinct (j.target_id ∷ j.resources)),
  every-unique_keys (is_free db.locks) (j.target_id ∷ j.resources),
)

take_locks-refuses :
    (j : Job) (db : Db) (rows : List Row) (plans : Plans)
    → is_ok (take_locks j db rows plans) ≡ false
    → take_locks j db rows plans ≡ err operation_conflict
unfolding take_locks
take_locks-refuses j db rows plans h =
    ground (arith, claim_keys-refuses (unique_keys (j.target_id ∷ j.resources)) j.id db.locks)

-- A job with a new id, running and not scheduled, is inserted exactly when none of its non-empty
-- keys (the target and the resources) is locked; otherwise the error is the operation conflict.
pub create_job_decides :
    (j : Job) (db : Db)
    → j.status ≡ "running"
    → j.schedule_key ≡ ""
    → find_row j.id db.jobs ≡ none
    → (is_ok (create_job j db) ≡ true)
        × (every (λ k. k =ₛ "" || is_free db.locks k) (j.target_id ∷ j.resources) ≡ true)
      ⊎ (create_job j db ≡ err operation_conflict)
        × (every (λ k. k =ₛ "" || is_free db.locks k) (j.target_id ∷ j.resources) ≡ false)
unfolding insert_job claim_schedule
create_job_decides j db running manual fresh = ground (
  arith,
  take_locks-decides j db (db.jobs ++ stored_row j ∷ []) db.plans,
  take_locks-refuses j db (db.jobs ++ stored_row j ∷ []) db.plans,
  eq_iff j.schedule_key "",
  eq_iff j.status "running",
)
