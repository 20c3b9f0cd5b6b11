-- ===== src/Store/Consuming.antt =====
-- store/schedules.go: which transactions consume an occurrence of a schedule, and that none gives one
-- back.
use nox_yard.Store.Exclusion.Steps.{
  Step, creates, sets_worker, sets_payload, claims_job, progresses, finishes, acknowledges,
  retargets, updates_candidate, reports_cleanup, cleans, sets_schedule, defers, coalesces, Reach,
  here, next, commits_managed, starts_update, sets_target, finishes_update,
}
use nox_yard.Store.SelfUpdate.Recovery.{created-db}
use nox_yard.Store.Projects.Commit.{commit_managed_job-ok}
use nox_yard.Store.Projects.{ManagedProject, Projects, commit_managed_job}
use nox_yard.Store.SelfUpdate.{SelfUpdate, self_operation, finish_self_update_outcome}
use nox_yard.Store.Exclusion.Journal.{
  set_self_update_target-db, finish_operation-ok, finish_self_update_outcome-db,
}
use nox_yard.Store.Exclusion.Updates.{update_jobs-ok}
use nox_yard.Store.Finality.{finish_job_tx-ok}
use nox_yard.Store.Jobs.{
  stored_row, take_locks, settle_at_once, insert_job, create_job, update_jobs, set_job_worker,
  job_payload, claim_job, job_progress, finish_job, job_cleanup_error, worker_cleaned,
  acknowledgeable, acknowledged, acknowledge_recovery, retarget_row, retarget_job, update_candidate,
}
use nox_yard.Prelude.{
  ◌==◌, ◌=ₛ◌, Bool-cases, is_some, exists, ok, guard, >>=-eq-ok, guard-eq-ok, ℕ, String, ◌≡◌, refl,
  ap, subst₂, ◌⊎◌, inl, inr, Bool, true, false, ◌&&◌, ◌||◌, not, Option, List, [], ◌∷◌, ◌++◌, arith,
}
use nox_yard.Store.Types.{
  schedule_changed, operation_conflict, constraint, invalid_status, Job, Row, Plans, Db,
}
use nox_yard.Store.Tables.{update_where, count_where, find_row}
use nox_yard.Store.Schedules.{
  set_project_schedule_at, defer_due_schedules, is_consumed, coalesce_occurrence, is_claimable,
  claimed, consumed_by, cleanup_pending, claim_schedule,
}
use nox_yard.Store.Outcomes.{finish_schedule}

-- A claim consumes its occurrence, which was free, and nothing else does.
pub claim_schedule-ok :
    (rows : List Row) (j : Job) (p : Plans) {after : Plans}
    → claim_schedule rows j p ≡ ok after
    → ((j.schedule_key =ₛ "") ≡ true) × (after ≡ p)
      ⊎ ((j.schedule_key =ₛ "") ≡ false)
        × (is_consumed j.schedule_key j.schedule_date p.occurrences ≡ false)
        × (count_where (is_claimable j) p.schedules ≡ 1)
        × (after ≡ record {
          schedules = update_where (is_claimable j) (claimed j) p.schedules;
          occurrences = consumed_by j ∷ p.occurrences;
        })
unfolding claim_schedule
claim_schedule-ok rows j p {after} h = elim (Bool-cases (j.schedule_key =ₛ "")) [
  | inl manual ↦ inl (manual, ground arith)
  | inr named ↦
      let rest = rw named at h in
      let (_, _, h₁) =
        >>=-eq-ok
          (guard (not (j.status =ₛ "running" && cleanup_pending j.id rows)) operation_conflict) _
          rest in
      let (_, one, h₂) =
        >>=-eq-ok (guard (count_where (is_claimable j) p.schedules == 1) schedule_changed) _ h₁ in
      let (_, free, h₃) =
        >>=-eq-ok
          (guard (not (is_consumed j.schedule_key j.schedule_date p.occurrences)) schedule_changed)
          _ h₂ in
      let (_, _, same) =
        >>=-eq-ok (guard (not (exists (λ c. c.job_id =ₛ j.id) p.occurrences)) constraint) _ h₃ in
      inr (
        named,
        ground (arith, guard-eq-ok _ _ free),
        ground (arith, guard-eq-ok _ _ one),
        ground (arith, same),
      )
]

finish_schedule-occurrences :
    (rows : List Row) (id status outcome message : String) (p : Plans) {after : Plans}
    → finish_schedule rows id status outcome message p ≡ ok after
    → after.occurrences ≡ p.occurrences
unfolding finish_schedule
finish_schedule-occurrences rows id status outcome message p h = ground arith

-- Consumed occurrences only accumulate.
abbrev pub Grows : Plans → Plans → Type 0
Grows p q =
    (key date : String)
    → is_consumed key date p.occurrences ≡ true
    → is_consumed key date q.occurrences ≡ true

Grows-of_same : (p q : Plans) → q.occurrences ≡ p.occurrences → Grows p q
Grows-of_same p q e key date h = rw e h

claim_schedule-Grows :
    (rows : List Row) (j : Job) (p : Plans) {after : Plans}
    → claim_schedule rows j p ≡ ok after
    → Grows p after
unfolding is_consumed
claim_schedule-Grows rows j p {after} h key date c = elim (claim_schedule-ok rows j p h) [
  | inl (_, e) ↦ rw e c
  | inr (_, _, _, e) ↦ rw (e, c) (ground arith)
]

pub create_job-plans :
    (j : Job) (db : Db) {after : Db}
    → create_job j db ≡ ok after
    → (claimed : Plans) × (claim_schedule (db.jobs ++ stored_row j ∷ []) j db.plans ≡ ok claimed)
      × (after.plans.occurrences ≡ claimed.occurrences)
unfolding insert_job take_locks settle_at_once
create_job-plans j db {after} h =
    let rows = db.jobs ++ stored_row j ∷ [] in
    let (_, _, rest) = >>=-eq-ok (guard (not (is_some (find_row j.id db.jobs))) constraint) _ h in
    let (plans, c, last) = >>=-eq-ok (claim_schedule rows j db.plans) _ rest in
    (
      plans,
      c,
      elim (Bool-cases (j.status =ₛ "running")) [
        | inl running ↦ ground arith
        | inr ended ↦
            let (settled, f, same) =
              >>=-eq-ok (finish_schedule rows j.id j.status j.outcome j.error plans) _
                (rw ended at last) in
            ground (
              arith,
              same,
              finish_schedule-occurrences rows j.id j.status j.outcome j.error plans f,
            )
      ],
    )

finish_job-occurrences :
    (now : ℕ) (id owner status outcome message rollback : String) (db : Db) {after : Db}
    → finish_job now id owner status outcome message rollback db ≡ ok after
    → after.plans.occurrences ≡ db.plans.occurrences
unfolding finish_job
finish_job-occurrences now id owner status outcome message rollback db h =
    let (_, _, rest) =
      >>=-eq-ok (guard (status =ₛ "succeeded" || status =ₛ "failed") invalid_status) _ h in
    let (settled, f, _, e) =
      finish_job_tx-ok now id owner status outcome message rollback db rest in
    rw e (finish_schedule-occurrences _ id status outcome message db.plans f)

commit_managed_job-occurrences :
    (now : ℕ) (j : Job) (context outcome : String) (project : Option ManagedProject) (remove : Bool)
    (db after : Db) (t t_after : Projects)
    → commit_managed_job now j context project remove outcome db t ≡ ok (after, t_after)
    → after.plans.occurrences ≡ db.plans.occurrences
commit_managed_job-occurrences now j context outcome project remove db after t t_after h =
    let (_, finish, _) =
      commit_managed_job-ok now j context outcome project remove db after t t_after h in
    let (settled, f, _, e) =
      finish_job_tx-ok now j.id j.owner "succeeded" outcome "" "" db finish in
    rw e (finish_schedule-occurrences _ j.id "succeeded" outcome "" db.plans f)

finish_self_update_outcome-occurrences :
    (now : ℕ) (id status message : String) (recovery : Bool) (rollback : String)
    (s after : SelfUpdate)
    → finish_self_update_outcome now id status message recovery rollback s ≡ ok after
    → after.db.plans.occurrences ≡ s.db.plans.occurrences
finish_self_update_outcome-occurrences now id status message recovery rollback s after h =
    let (_, finish) =
      finish_self_update_outcome-db now id status message recovery rollback s after h in
    let (plans, f, e) = finish_operation-ok now id status recovery rollback s.db finish in
    rw e (finish_schedule-occurrences _ id status _ _ s.db.plans f)

set_schedule-occurrences :
    (valid_time : String → Bool) (key target : String) (enabled : Bool) (n : ℕ) (at : String)
    (p : Plans) {after : Plans}
    → set_project_schedule_at valid_time key target enabled n at p ≡ ok after
    → after.occurrences ≡ p.occurrences
unfolding set_project_schedule_at
set_schedule-occurrences valid_time key target enabled n at p h = ground arith

defer-occurrences : (now : ℕ) (p : Plans) → (defer_due_schedules now p).occurrences ≡ p.occurrences
unfolding defer_due_schedules
defer-occurrences now p = refl

coalesce-occurrences :
    (key date : String) (n : ℕ) (p : Plans)
    → (coalesce_occurrence key date n p).occurrences ≡ p.occurrences
unfolding coalesce_occurrence
coalesce-occurrences key date n p = refl

acknowledge_recovery-occurrences :
    (now : ℕ) (id : String) (seen : ℕ) (db : Db) {after : Db}
    → acknowledge_recovery now id seen db ≡ ok after
    → after.plans.occurrences ≡ db.plans.occurrences
unfolding acknowledge_recovery
acknowledge_recovery-occurrences now id seen db {after} h =
    let hit = acknowledgeable id seen in
    let (marked, e, rest) = >>=-eq-ok (update_jobs hit (acknowledged now) db) _ h in
    let (settled, f, same) =
      >>=-eq-ok
        (finish_schedule marked.jobs id "failed" "recovery_acknowledged"
          "Recovery was reviewed; a manual retry is available." marked.plans)
        _ rest in
    ground (
      arith,
      same,
      update_jobs-ok hit (acknowledged now) db e,
      finish_schedule-occurrences marked.jobs id "failed" "recovery_acknowledged"
          "Recovery was reviewed; a manual retry is available." marked.plans f,
    )

retarget_job-occurrences :
    (now : ℕ) (id owner target : String) (resources : List String) (db : Db) {after : Db}
    → retarget_job now id owner target resources db ≡ ok after
    → after.plans.occurrences ≡ db.plans.occurrences
unfolding retarget_job retarget_row update_jobs
retarget_job-occurrences now id owner target resources db h = ground arith

update_candidate-plans :
    (j : Job) (signature reason : String) (db : Db) {after : Db}
    → update_candidate j signature db ≡ ok (after, reason)
    → after.plans ≡ db.plans
unfolding update_candidate update_jobs
update_candidate-plans j signature reason db h = ground arith

create_job-Grows :
    (j : Job) (db : Db) {after : Db} → create_job j db ≡ ok after → Grows db.plans after.plans
create_job-Grows j db h key date c =
    let (mid, claim, e) = create_job-plans j db h in
    rw e (claim_schedule-Grows _ j db.plans claim key date c)

plans-update_jobs :
    (hit : Row → Bool) (f : Row → Row) (db : Db) {after : Db}
    → update_jobs hit f db ≡ ok after
    → Grows db.plans after.plans
plans-update_jobs hit f db {after} h =
    Grows-of_same db.plans after.plans (rw (update_jobs-ok hit f db h))

Step-Grows : (db after : Db) → Step db after → Grows db.plans after.plans
unfolding set_job_worker job_payload claim_job job_progress job_cleanup_error worker_cleaned
Step-Grows db after (creates j adm h) = create_job-Grows j db h
Step-Grows db after (sets_worker now id owner worker h) = plans-update_jobs _ _ db h
Step-Grows db after (sets_payload now id owner payload h) = plans-update_jobs _ _ db h
Step-Grows db after (claims_job now id owner h) = plans-update_jobs _ _ db h
Step-Grows db after (progresses now id owner stage source target h) = plans-update_jobs _ _ db h
Step-Grows db after (finishes now id owner status outcome message rollback h) =
    Grows-of_same db.plans after.plans
      (finish_job-occurrences now id owner status outcome message rollback db h)
Step-Grows db after (acknowledges now id seen h) =
    Grows-of_same db.plans after.plans (acknowledge_recovery-occurrences now id seen db h)
Step-Grows db after (retargets now id owner target resources h) =
    Grows-of_same db.plans after.plans (retarget_job-occurrences now id owner target resources db h)
Step-Grows db after (updates_candidate j signature reason h) =
    Grows-of_same db.plans after.plans
      (ap (λ (p : Plans). p.occurrences) (update_candidate-plans j signature reason db h))
Step-Grows db after (reports_cleanup id message e) = Grows-of_same db.plans after.plans (rw e refl)
Step-Grows db after (cleans now id clear e) = Grows-of_same db.plans after.plans (rw e refl)
Step-Grows db after (sets_schedule valid_time key target enabled at_next at p h e) =
    Grows-of_same db.plans after.plans
      (rw e (set_schedule-occurrences valid_time key target enabled at_next at db.plans h))
Step-Grows db after (defers now e) =
    Grows-of_same db.plans after.plans (rw e (defer-occurrences now db.plans))
Step-Grows db after (coalesces key date at_next e) =
    Grows-of_same db.plans after.plans (rw e (coalesce-occurrences key date at_next db.plans))
Step-Grows db after (commits_managed now j context outcome project remove t t_after h) =
    Grows-of_same db.plans after.plans
      (commit_managed_job-occurrences now j context outcome project remove db after t t_after h)
Step-Grows db after (starts_update now owner occurrence x s s_after e f h) =
    subst₂ (λ d k. Grows d.plans k.plans) e f
      (create_job-Grows (self_operation now owner occurrence x) s.db
        (created-db now owner occurrence x s s_after h))
Step-Grows db after (sets_target now id expected actual s s_after e f h) =
    subst₂ (λ d k. Grows d.plans k.plans) e f
      (plans-update_jobs _ _ s.db (set_self_update_target-db now id expected actual s s_after h))
Step-Grows db after (finishes_update now id status message recovery rollback s s_after e f u h) =
    subst₂ (λ d k. Grows d.plans k.plans) e f
      (Grows-of_same s.db.plans s_after.db.plans (
        finish_self_update_outcome-occurrences now id status message recovery rollback s s_after h))

pub Reach-Grows : {db after : Db} → Reach db after → Grows db.plans after.plans
Reach-Grows here key date c = c
Reach-Grows (next {mid} {after} r st) key date c =
    Step-Grows mid after st key date (Reach-Grows r key date c)
