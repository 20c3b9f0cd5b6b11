-- ===== src/Store/Exclusion/Steps.antt =====
-- The transactions of the store in any order, as processes submit them: a step relation from the
-- empty database, and what holds of every database that it reaches.
use nox_yard.Store.Projects.{ManagedProject, Projects, commit_managed_job}
use nox_yard.Store.SelfUpdate.{
  SelfUpdateJob, SelfUpdate, create_self_update_job, set_self_update_target,
  finish_self_update_outcome,
}
use nox_yard.Store.Exclusion.Journal.{
  commit_managed_job-IsSound, create_self_update_job-IsSound, set_self_update_target-IsSound,
  IsRunningUpdate, finish_self_update_outcome-IsSound,
}
use nox_yard.Prelude.{
  Option-cases, mem, ok, ℕ, String, ◌≡◌, refl, sym, ◌∙◌, subst, inl, inr, Bool, true, Option, some,
  List, [], arith, eq_iff,
}
use nox_yard.Store.Types.{ImageIdentity, Job, Row, ScheduleOccurrence, Plans, Db, is_active}
use nox_yard.Store.Tables.{find_row, lock_holder}
use nox_yard.Store.Tables.Locks.{is_held_by}
use nox_yard.Store.Schedules.{set_project_schedule_at, defer_due_schedules, coalesce_occurrence}
use nox_yard.Store.Jobs.{
  create_job, set_job_worker, job_payload, claim_job, job_progress, finish_job, job_cleanup_error,
  worker_cleaned, acknowledge_recovery, retarget_job, update_candidate,
}
use nox_yard.Store.Exclusion.{IsSound}
use nox_yard.Store.Exclusion.Updates.{
  set_job_worker-IsSound, job_payload-IsSound, claim_job-IsSound, job_progress-IsSound,
  update_candidate-IsSound, job_cleanup_error-IsSound, worker_cleaned-IsSound,
}
use nox_yard.Store.Exclusion.Endings.{finish_job-IsSound, acknowledge_recovery-IsSound}
use nox_yard.Store.Exclusion.Admission.{IsAdmissible, create_job-IsSound}
use nox_yard.Store.Exclusion.Retarget.{retarget_job-IsSound}

-- One committed transaction; one that fails leaves the database as it was and is no step. A job is
-- admitted running or not in need of recovery, as all callers do, and FinishSelfUpdateOutcome ends an
-- operation that still runs: its statement on the jobs has no such test of its own.
pub data Step (db : Db) (after : Db) : Type 0 where
  creates : (j : Job) → IsAdmissible j → create_job j db ≡ ok after → Step db after
  sets_worker :
      (now : ℕ) (id owner worker : String)
      → set_job_worker now id owner worker db ≡ ok after
      → Step db after
  sets_payload :
      (now : ℕ) (id owner payload : String)
      → job_payload now id owner payload db ≡ ok after
      → Step db after
  claims_job : (now : ℕ) (id owner : String) → claim_job now id owner db ≡ ok after → Step db after
  progresses :
      (now : ℕ) (id owner stage : String) (source target : Option (List ImageIdentity))
      → job_progress now id owner stage source target db ≡ ok after
      → Step db after
  finishes :
      (now : ℕ) (id owner status outcome message rollback : String)
      → finish_job now id owner status outcome message rollback db ≡ ok after
      → Step db after
  acknowledges :
      (now : ℕ) (id : String) (seen : ℕ)
      → acknowledge_recovery now id seen db ≡ ok after
      → Step db after
  retargets :
      (now : ℕ) (id owner target : String) (resources : List String)
      → retarget_job now id owner target resources db ≡ ok after
      → Step db after
  updates_candidate :
      (j : Job) (signature reason : String)
      → update_candidate j signature db ≡ ok (after, reason)
      → Step db after
  reports_cleanup : (id message : String) → after ≡ job_cleanup_error id message db → Step db after
  cleans :
      (now : ℕ) (id : String) (clear : Bool)
      → after ≡ worker_cleaned now id clear db
      → Step db after
  sets_schedule :
      (valid_time : String → Bool) (key target : String) (enabled : Bool) (next : ℕ) (at : String)
      (p : Plans)
      → set_project_schedule_at valid_time key target enabled next at db.plans ≡ ok p
      → after ≡ record db { plans = p }
      → Step db after
  defers :
      (now : ℕ) → after ≡ record db { plans = defer_due_schedules now db.plans } → Step db after
  coalesces :
      (key date : String) (next : ℕ)
      → after ≡ record db { plans = coalesce_occurrence key date next db.plans }
      → Step db after
  commits_managed :
      (now : ℕ) (j : Job) (context outcome : String) (project : Option ManagedProject)
      (remove : Bool) (t t_after : Projects)
      → commit_managed_job now j context project remove outcome db t ≡ ok (after, t_after)
      → Step db after
  starts_update :
      (now : ℕ) (owner : String) (occurrence : Option ScheduleOccurrence) (x : SelfUpdateJob)
      (s s_after : SelfUpdate)
      → s.db ≡ db
      → s_after.db ≡ after
      → create_self_update_job now owner occurrence x s ≡ ok s_after
      → Step db after
  sets_target :
      (now : ℕ) (id expected actual : String) (s s_after : SelfUpdate)
      → s.db ≡ db
      → s_after.db ≡ after
      → set_self_update_target now id expected actual s ≡ ok s_after
      → Step db after
  finishes_update :
      (now : ℕ) (id status message : String) (recovery : Bool) (rollback : String)
      (s s_after : SelfUpdate)
      → s.db ≡ db
      → s_after.db ≡ after
      → IsRunningUpdate id s.db
      → finish_self_update_outcome now id status message recovery rollback s ≡ ok s_after
      → Step db after

pub data Reach (db : Db) : Db → Type 0 where
  here : Reach db db
  next : {mid after : Db} → Reach db mid → Step mid after → Reach db after

abbrev pub empty_db : Db
empty_db = record { jobs = []; locks = []; plans = record { schedules = []; occurrences = [] } }

-- Every transaction keeps the locks equal to what the active jobs name.
pub Step-IsSound : (db after : Db) → Step db after → IsSound db → IsSound after
Step-IsSound db after (creates j adm h) s = create_job-IsSound j db adm s h
Step-IsSound db after (sets_worker now id owner worker h) s =
    set_job_worker-IsSound db s now id owner worker h
Step-IsSound db after (sets_payload now id owner payload h) s =
    job_payload-IsSound db s now id owner payload h
Step-IsSound db after (claims_job now id owner h) s = claim_job-IsSound db s now id owner h
Step-IsSound db after (progresses now id owner stage source target h) s =
    job_progress-IsSound db s now id owner stage source target h
Step-IsSound db after (finishes now id owner status outcome message rollback h) s =
    finish_job-IsSound now id owner status outcome message rollback db s h
Step-IsSound db after (acknowledges now id seen h) s =
    acknowledge_recovery-IsSound now id seen db s h
Step-IsSound db after (retargets now id owner target resources h) s =
    retarget_job-IsSound now id owner target resources db s h
Step-IsSound db after (updates_candidate j signature reason h) s =
    update_candidate-IsSound db s j signature reason h
Step-IsSound db after (reports_cleanup id message e) s =
    rw e (job_cleanup_error-IsSound db id message s)
Step-IsSound db after (cleans now id clear e) s = rw e (worker_cleaned-IsSound db now id clear s)
Step-IsSound db after (sets_schedule valid_time key target enabled at_next at p h e) s = rw e s
Step-IsSound db after (defers now e) s = rw e s
Step-IsSound db after (coalesces key date at_next e) s = rw e s
Step-IsSound db after (commits_managed now j context outcome project remove t t_after h) s =
    commit_managed_job-IsSound now j context outcome project remove db after t t_after s h
Step-IsSound db after (starts_update now owner occurrence x s s_after e f h) sound =
    subst IsSound f (
      create_self_update_job-IsSound now owner occurrence x s s_after (subst IsSound (sym e) sound)
        h)
Step-IsSound db after (sets_target now id expected actual s s_after e f h) sound = subst IsSound f (
    set_self_update_target-IsSound now id expected actual s s_after (subst IsSound (sym e) sound) h)
Step-IsSound db after (finishes_update now id status message recovery rollback s s_after e f u h)
      sound =
    subst IsSound f (
      finish_self_update_outcome-IsSound now id status message recovery rollback s s_after
        (subst IsSound (sym e) sound) u h)

pub empty_db-IsSound : IsSound empty_db
unfolding lock_holder find_row
empty_db-IsSound = record { ids = tt; resources = tt; named = refl; agree = λ r id. refl }

pub Reach-IsSound : {db after : Db} → Reach db after → IsSound db → IsSound after
Reach-IsSound here s = s
Reach-IsSound (next {mid} {after} r st) s = Step-IsSound mid after st (Reach-IsSound r s)

-- In every database that the transactions of Step reach from the empty one (jobs are admitted running
-- or not in need of recovery, and the end of a self-update ends an operation that still runs), two
-- jobs that are active (running, or waiting for recovery) and name the same resource are one job.
pub active_jobs_exclusive :
    (db : Db)
    → Reach empty_db db
    → (x y : Row) (r : String) → find_row x.job.id db.jobs ≡ some x
    → find_row y.job.id db.jobs ≡ some y
    → is_active x.job ≡ true
    → is_active y.job ≡ true
    → mem r x.job.resources ≡ true
    → mem r y.job.resources ≡ true
    → x ≡ y
active_jobs_exclusive db reached x y r fx fy ax ay mx my =
    let s : IsSound db = Reach-IsSound reached empty_db-IsSound in
    let hx : is_held_by r x.job.id db.locks ≡ true = s.agree r x.job.id ∙ rw (fx, ax, mx) refl in
    let hy : is_held_by r y.job.id db.locks ≡ true = s.agree r y.job.id ∙ rw (fy, ay, my) refl in
    elim (Option-cases (lock_holder r db.locks)) [
      | inl e ↦ absurd (ground arith)
      | inr (o, e) ↦
          let same : x.job.id ≡ y.job.id = ground (arith, eq_iff o x.job.id, eq_iff o y.job.id) in
          ground (arith, same)
    ]
