-- ===== src/Store/Exclusion/Journal.antt =====
-- store/self_update.go and store/managed.go: the transactions that end or journal a job together
-- with the rows of a self-update or of a managed project keep the locks right.
use nox_yard.Store.SelfUpdate.Recovery.{created-db, self_operation-running}
use nox_yard.Prelude.{
  ◌==◌, ◌=ₛ◌, if◌then◌else◌, Bool-cases, eq_of_test, ne_of_test, other_text, ok, guard, >>=-eq-ok,
  guard-eq-ok, ℕ, String, ◌≡◌, refl, sym, ◌∙◌, subst, inl, inr, Bool, true, false, ◌&&◌, ◌||◌, not,
  Option, some, List, [], ◌∷◌, arith, eq_iff, eq_refl,
}
use nox_yard.Store.Types.{
  not_active, job_changed, invalid_status, Job, Row, Lock, ScheduleOccurrence, Plans, Db, is_active,
}
use nox_yard.Store.Tables.{update_where, count_where, changed, find_row, release}
use nox_yard.Store.Tables.Rows.{
  find_row-update_where, find_row_id, update_where-UniqueIds, count_where-find_row,
}
use nox_yard.Store.Jobs.{update_jobs, on_job}
use nox_yard.Store.Outcomes.{finish_schedule}
use nox_yard.Store.Projects.{ManagedProject, Projects, commit_managed_job}
use nox_yard.Store.Projects.Commit.{commit_managed_job-ok}
use nox_yard.Store.SelfUpdate.{
  SelfUpdateJob, SelfUpdate, find_update, self_image, self_operation, create_self_update_job,
  awaits_target, pulls_image, set_self_update_target, self_outcome, self_message, self_finished,
  failed_digest_of, finish_operation, is_active_update, finish_self_update_outcome,
}
use nox_yard.Store.Exclusion.{claims, Sound, IsSound}
use nox_yard.Store.Exclusion.Updates.{update_jobs-IsSound}
use nox_yard.Store.Exclusion.Endings.{claims-others, release-Sound, finish_job_tx-IsSound}
use nox_yard.Store.Exclusion.Admission.{create_job-IsSound}

pub commit_managed_job-IsSound :
    (now : ℕ) (j : Job) (context outcome : String) (project : Option ManagedProject) (remove : Bool)
    (db after : Db) (t t_after : Projects)
    → IsSound db
    → commit_managed_job now j context project remove outcome db t ≡ ok (after, t_after)
    → IsSound after
commit_managed_job-IsSound now j context outcome project remove db after t t_after s h =
    finish_job_tx-IsSound now j.id j.owner "succeeded" outcome "" "" db refl s
      (commit_managed_job-ok now j context outcome project remove db after t t_after h).1

pub create_self_update_job-IsSound :
    (now : ℕ) (owner : String) (occurrence : Option ScheduleOccurrence) (x : SelfUpdateJob)
    (s after : SelfUpdate)
    → IsSound s.db
    → create_self_update_job now owner occurrence x s ≡ ok after
    → IsSound after.db
create_self_update_job-IsSound now owner occurrence x s after sound h =
    create_job-IsSound (self_operation now owner occurrence x) s.db
      (inl (self_operation-running now owner occurrence x).0) sound
      (created-db now owner occurrence x s after h)

-- The image that the operation of an update is to have.
abbrev targeted : ℕ → String → Row → Row
targeted now actual =
    on_job (λ j. record j { target_images = self_image "" actual ∷ []; updated_at = now })

pub set_self_update_target-db :
    (now : ℕ) (id expected actual : String) (s after : SelfUpdate)
    → set_self_update_target now id expected actual s ≡ ok after
    → update_jobs (pulls_image id) (targeted now actual) s.db ≡ ok after.db
unfolding set_self_update_target
set_self_update_target-db now id expected actual s after h =
    let (_, _, h₁) = >>=-eq-ok (guard (not (actual =ₛ "")) job_changed) _ h in
    let (_, _, h₂) = >>=-eq-ok (changed (count_where (awaits_target id expected) s.updates)) _ h₁ in
    let (db, e, same) = >>=-eq-ok (update_jobs (pulls_image id) (targeted now actual) s.db) _ h₂ in
    e ∙ ground (arith, same)

pub set_self_update_target-IsSound :
    (now : ℕ) (id expected actual : String) (s after : SelfUpdate)
    → IsSound s.db
    → set_self_update_target now id expected actual s ≡ ok after
    → IsSound after.db
set_self_update_target-IsSound now id expected actual s after sound h =
    update_jobs-IsSound (pulls_image id) (targeted now actual)
      (record { id = λ x. refl; claim = λ x r _. refl }) s.db sound
      (set_self_update_target-db now id expected actual s after h)

-- The row of the operation that FinishSelfUpdateOutcome ends.
abbrev is_operation : String → Row → Bool
is_operation id r = r.job.id =ₛ id && r.job.domain =ₛ "self-update"

abbrev self_ended : ℕ → String → Bool → String → Row → Row
self_ended now status recovery rollback = on_job (
    self_finished now status (if recovery then "awaiting_recovery" else "completed")
      (self_outcome status recovery) (self_message status recovery) rollback)

pub finish_operation-ok :
    (now : ℕ) (id status : String) (recovery : Bool) (rollback : String) (db : Db) {after : Db}
    → finish_operation now id status recovery rollback db ≡ ok after
    → (plans : Plans) × (finish_schedule
          (update_where (is_operation id) (self_ended now status recovery rollback) db.jobs)
          id
          status
          (self_outcome status recovery)
          (self_message status recovery)
          db.plans
        ≡ ok plans)
      × (after ≡ record {
        jobs = update_where (is_operation id) (self_ended now status recovery rollback) db.jobs;
        locks = if recovery then db.locks else release id db.locks;
        plans = plans;
      })
unfolding finish_operation
finish_operation-ok now id status recovery rollback db h =
    let (plans, f, same) =
      >>=-eq-ok
        (finish_schedule
          (update_where (is_operation id) (self_ended now status recovery rollback) db.jobs) id
          status (self_outcome status recovery) (self_message status recovery) db.plans)
        _ h in
    (plans, f, ground (arith, same))

pub finish_self_update_outcome-db :
    (now : ℕ) (id status message : String) (recovery : Bool) (rollback : String)
    (s after : SelfUpdate)
    → finish_self_update_outcome now id status message recovery rollback s ≡ ok after
    → ((status =ₛ "running") ≡ false)
      × (finish_operation now id status recovery rollback s.db ≡ ok after.db)
unfolding finish_self_update_outcome
finish_self_update_outcome-db now id status message recovery rollback s after h =
    let (_, g, h₁) =
      >>=-eq-ok (guard (status =ₛ "succeeded" || status =ₛ "failed") invalid_status) _ h in
    let (_, _, h₂) =
      >>=-eq-ok (guard (count_where (is_active_update id) s.updates == 1) not_active) _ h₁ in
    let (_, _, h₃) = >>=-eq-ok (failed_digest_of status (find_update id s.updates)) _ h₂ in
    let (db, e, same) = >>=-eq-ok (finish_operation now id status recovery rollback s.db) _ h₃ in
    (
      ground (
        arith,
        guard-eq-ok _ _ g,
        other_text status "succeeded" "running" refl,
        other_text status "failed" "running" refl,
      ),
      e ∙ ground (arith, same),
    )

is_operation_id : (id : String) (x : Row) → is_operation id x ≡ true → x.job.id ≡ id
is_operation_id id x h = ground (arith, eq_iff x.job.id id)

certain-inactive :
    (now : ℕ) (status rollback : String) (y : Row)
    → (status =ₛ "running") ≡ false
    → is_active (self_ended now status false rollback y).job ≡ false
unfolding self_finished self_outcome
certain-inactive now status rollback y final = elim (Bool-cases (status =ₛ "failed")) [
  | inl e ↦ rw (e, final) refl
  | inr e ↦ rw (e, final) refl
]

-- A running operation that ends, with its locks or without.
module _ (now : ℕ) (id status rollback : String) (rows : List Row) (locks : List Lock) (x : Row)
    (found : find_row id rows ≡ some x) (hits : is_operation id x ≡ true)
    (running : (x.job.status =ₛ "running") ≡ true) (s : Sound rows locks) where
  same_id :
      (recovery : Bool) (y : Row) → (self_ended now status recovery rollback y).job.id ≡ y.job.id
  unfolding self_finished
  same_id recovery y = refl

  uncertain-claims :
      (h r : String)
      → claims (update_where (is_operation id) (self_ended now status true rollback) rows) h r
        ≡ claims rows h r
  unfolding self_finished self_outcome
  uncertain-claims h r = elim (Bool-cases (h =ₛ id)) [
    | inl e ↦
        rw
          (
            eq_of_test h id e,
            find_row-update_where (is_operation id) (self_ended now status true rollback)
                (same_id true) id rows,
            found,
            hits,
            running,
          )
          (ground arith)
    | inr e ↦
        claims-others id (is_operation id) (self_ended now status true rollback) (same_id true)
          (is_operation_id id) h r rows (ne_of_test h id e)
  ]

  uncertain-Sound :
      Sound (update_where (is_operation id) (self_ended now status true rollback) rows) locks
  uncertain-Sound = record {
    ids =
        update_where-UniqueIds (is_operation id) (self_ended now status true rollback)
          (same_id true) rows s.ids;
    resources = s.resources;
    named = s.named;
    agree = λ r h. s.agree r h ∙ sym (uncertain-claims h r);
  }

  certain-Sound :
      (status =ₛ "running") ≡ false
      → Sound
          (update_where (is_operation id) (self_ended now status false rollback) rows)
          (release id locks)
  certain-Sound final =
      release-Sound id (is_operation id) (self_ended now status false rollback) (same_id false)
        (is_operation_id id) (λ y h. certain-inactive now status rollback y final) rows locks
        (count_where-find_row id (is_operation id) rows (is_operation_id id) s.ids
          ∙ rw (found, hits) refl)
        s

  pub ended-Sound :
      (recovery : Bool)
      → (status =ₛ "running") ≡ false
      → Sound
          (update_where (is_operation id) (self_ended now status recovery rollback) rows)
          (if recovery then locks else release id locks)
  ended-Sound true final = uncertain-Sound
  ended-Sound false final = certain-Sound final

-- The operation of the update still runs.
pub record IsRunningUpdate (id : String) (db : Db) : Type 0 where
  pub row : Row
  pub found : find_row id db.jobs ≡ some row
  pub is_update : (row.job.domain =ₛ "self-update") ≡ true
  pub is_running : (row.job.status =ₛ "running") ≡ true

pub finish_self_update_outcome-IsSound :
    (now : ℕ) (id status message : String) (recovery : Bool) (rollback : String)
    (s after : SelfUpdate)
    → IsSound s.db
    → IsRunningUpdate id s.db
    → finish_self_update_outcome now id status message recovery rollback s ≡ ok after
    → IsSound after.db
finish_self_update_outcome-IsSound now id status message recovery rollback s after sound u h =
    let (final, e) =
      finish_self_update_outcome-db now id status message recovery rollback s after h in
    let (plans, _, same) = finish_operation-ok now id status recovery rollback s.db e in
    subst IsSound (sym same) (
      ended-Sound now id status rollback s.db.jobs s.db.locks u.row u.found
        (ground (arith, u.is_update, find_row_id id s.db.jobs u.row u.found, eq_refl id))
        u.is_running sound recovery final)
