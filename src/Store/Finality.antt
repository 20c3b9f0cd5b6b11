-- ===== src/Store/Finality.antt =====
-- store/jobs.go: a result is recorded once. Of what a worker writes, JobCleanupError alone does not
-- ask for a running job: it notes a text beside the result.
use nox_yard.Store.Exclusion.Retarget.{owned_running_id}
use nox_yard.Prelude.{
  guard-eq-ok, guard, other_text, sym, subst, &&-true, List, ◌||◌, if◌then◌else◌, Option, ◌=ₛ◌, ok,
  err, >>=-eq-ok, ℕ, String, ◌≡◌, refl, ◌≢◌, Bool, true, false, some, arith, eq_iff, eq_refl,
}
use nox_yard.Store.Types.{Job, invalid_status, ImageIdentity, Plans, job_changed, Row, Db}
use nox_yard.Store.Tables.{release, count_where, update_where, changed, find_row}
use nox_yard.Store.Tables.Rows.{
  find_row-update_where, UniqueIds, update_where-UniqueIds, count_where-find_row,
}
use nox_yard.Store.Tables.Locks.{is_held_by, is_held_by-release}
use nox_yard.Store.Outcomes.{finish_schedule}
use nox_yard.Store.Jobs.{
  retarget_row, on_job, retarget_job, update_candidate, job_payload, owned_running, set_job_worker,
  job_progress, finish_job, claim_job, update_jobs, finishable, finished, finish_job_tx,
}
use nox_yard.Store.Exclusion.{IsSound}
use nox_yard.Store.Exclusion.Updates.{update_jobs-ok}
use nox_yard.Store.Exclusion.Endings.{changed-found, update_jobs-count, finishable_id}

-- A statement whose only possible row does not pass its test changes nothing and fails.
pub update_jobs-refused :
    (id : String) (hit : Row → Bool) (f : Row → Row) (db : Db) (x : Row)
    → ((y : Row) → hit y ≡ true → y.job.id ≡ id)
    → UniqueIds db.jobs
    → find_row id db.jobs ≡ some x
    → hit x ≡ false
    → update_jobs hit f db ≡ err job_changed
unfolding update_jobs changed
update_jobs-refused id hit f db x only u e h =
    ground (arith, count_where-find_row id hit db.jobs only u)

-- What FinishJob leaves in the row of its job.
record Finished (id status : String) (before after : Db) : Type 0 where
  row : Row
  found : find_row id after.jobs ≡ some row
  final : (row.job.status =ₛ status) ≡ true
  ids : UniqueIds after.jobs
  locks_kept : (r h : String) → h ≢ id → is_held_by r h after.locks ≡ is_held_by r h before.locks

finished_status :
    (now : ℕ) (status outcome message rollback : String) (x : Row)
    → ((finished now status outcome message rollback x).job.status =ₛ status) ≡ true
unfolding finished
finished_status now status outcome message rollback x = eq_refl status

-- A committed finishJobTx, taken apart.
pub finish_job_tx-ok :
    (now : ℕ) (id owner status outcome message rollback : String) (db : Db) {after : Db}
    → finish_job_tx now id owner status outcome message rollback db ≡ ok after
    → let rows =
        update_where (finishable id owner) (finished now status outcome message rollback) db.jobs in
      (settled : Plans) × (finish_schedule rows id status outcome message db.plans ≡ ok settled)
      × (count_where (finishable id owner) db.jobs ≡ 1)
      × (after ≡ record {
        jobs = rows;
        locks = if outcome =ₛ "recovery_required" then db.locks else release id db.locks;
        plans = settled;
      })
unfolding finish_job_tx
finish_job_tx-ok now id owner status outcome message rollback db h =
    let hit = finishable id owner in
    let f = finished now status outcome message rollback in
    let (marked, e, rest) = >>=-eq-ok (update_jobs hit f db) _ h in
    let (settled, settles, same) =
      >>=-eq-ok (finish_schedule marked.jobs id status outcome message marked.plans) _ rest in
    (
      settled,
      ground (arith, settles, update_jobs-ok hit f db e),
      update_jobs-count hit f db e,
      ground (arith, same, update_jobs-ok hit f db e),
    )

finish_job_tx-Finished :
    (now : ℕ) (id owner status outcome message rollback : String) (db : Db) {after : Db}
    → IsSound db
    → finish_job_tx now id owner status outcome message rollback db ≡ ok after
    → Finished id status db after
finish_job_tx-Finished now id owner status outcome message rollback db {after} s h =
    let (settled, _, count, e) =
      finish_job_tx-ok now id owner status outcome message rollback db h in
    subst (Finished id status db) (sym e)
      (fields settled (changed-found id hit f same_id (finishable_id id owner) db.jobs s.ids count))
  where
    hit : Row → Bool
    hit = finishable id owner

    f : Row → Row
    f = finished now status outcome message rollback

    same_id : (x : Row) → (f x).job.id ≡ x.job.id
    same_id x = unfold finished in refl

    fields :
        (settled : Plans)
        → (x : Row) × (find_row id db.jobs ≡ some x) × (hit x ≡ true)
        → Finished id status db (record {
          jobs = update_where hit f db.jobs;
          locks = if outcome =ₛ "recovery_required" then db.locks else release id db.locks;
          plans = settled;
        })
    fields settled (x, found, hits) = record {
      row = f x;
      found = rw (find_row-update_where hit f same_id id db.jobs, found, hits) refl;
      final = finished_status now status outcome message rollback x;
      ids = update_where-UniqueIds hit f same_id db.jobs s.ids;
      locks_kept =
          λ r k ne. ground (arith, is_held_by-release id r k db.locks s.resources, eq_iff k id);
    }

final-not_running :
    (s status : String)
    → (s =ₛ status) ≡ true
    → (status =ₛ "succeeded" || status =ₛ "failed") ≡ true
    → (s =ₛ "running") ≡ false
final-not_running s status e v = ground (
  arith,
  eq_iff s status,
  other_text status "succeeded" "running" refl,
  other_text status "failed" "running" refl,
)

-- A row that is not running passes none of the workers' tests.
module _ (id : String) (db : Db) (x : Row) (u : UniqueIds db.jobs)
    (found : find_row id db.jobs ≡ some x) (ended : (x.job.status =ₛ "running") ≡ false) where
  owned_running-ended : (owner : String) → owned_running id owner x ≡ false
  unfolding owned_running
  owned_running-ended owner = ground arith

  pub finish_job-refused :
      (now : ℕ) (owner status outcome message rollback : String)
      → (status =ₛ "succeeded" || status =ₛ "failed") ≡ true
      → finish_job now id owner status outcome message rollback db ≡ err job_changed
  unfolding finish_job finish_job_tx
  finish_job-refused now owner status outcome message rollback v = rw (
    v,
    update_jobs-refused id (finishable id owner) (finished now status outcome message rollback) db x
        (finishable_id id owner) u found (unfold finishable in ground arith),
  )

  pub job_progress-refused :
      (now : ℕ) (owner stage : String) (source target : Option (List ImageIdentity))
      → job_progress now id owner stage source target db ≡ err job_changed
  unfolding job_progress
  job_progress-refused now owner stage source target =
      update_jobs-refused id _ _ db x (owned_running_id id owner) u found
        (owned_running-ended owner)

  pub set_job_worker-refused :
      (now : ℕ) (owner worker : String) → set_job_worker now id owner worker db ≡ err job_changed
  unfolding set_job_worker
  set_job_worker-refused now owner worker =
      update_jobs-refused id _ _ db x (λ y h. owned_running_id id owner y (&&-true _ _ h).0) u found
        (rw (owned_running-ended owner) refl)

  pub claim_job-refused : (now : ℕ) (owner : String) → claim_job now id owner db ≡ err job_changed
  unfolding claim_job
  claim_job-refused now owner =
      update_jobs-refused id _ _ db x (λ y h. owned_running_id id owner y (&&-true _ _ h).0) u found
        (rw (owned_running-ended owner) refl)

  pub job_payload-refused :
      (now : ℕ) (owner payload : String) → job_payload now id owner payload db ≡ err job_changed
  unfolding job_payload
  job_payload-refused now owner payload =
      update_jobs-refused id _ _ db x (owned_running_id id owner) u found
        (owned_running-ended owner)

  pub retarget_job-refused :
      (now : ℕ) (owner target : String) (resources : List String)
      → retarget_job now id owner target resources db ≡ err job_changed
  unfolding retarget_job retarget_row
  retarget_job-refused now owner target resources = ground (arith, found, owned_running-ended owner)

-- The candidate's images are recorded under the job's own id and owner.
update_candidate-refused :
    (k : Job) (signature : String) (db : Db) (x : Row)
    → UniqueIds db.jobs
    → find_row k.id db.jobs ≡ some x
    → (x.job.status =ₛ "running") ≡ false
    → update_candidate k signature db ≡ err job_changed
unfolding update_candidate
update_candidate-refused k signature db x u found ended =
    rw
      (update_jobs-refused k.id (owned_running k.id k.owner)
        (on_job (λ (j : Job). record j { candidate_fingerprint = signature })) db x
        (owned_running_id k.id k.owner) u found
        (owned_running-ended k.id db x u found ended k.owner))
      refl

-- When the database is sound (unique ids, one holder for each lock, locks that agree with the active
-- jobs), then after a committed FinishJob another result with a valid status, progress, a new
-- worker, a claim, a payload, a new target and a candidate for the same job, whoever sends them, are
-- refused with ErrJobChanged. The commit itself changes no lock of any other job.
pub finish_job_final :
    (now : ℕ) (id owner status outcome message rollback : String) (db after : Db)
    → IsSound db
    → finish_job now id owner status outcome message rollback db ≡ ok after
    → (later : ℕ) (sender result reason text images stage worker payload target r other : String)
    → (source shown : Option (List ImageIdentity)) (resources : List String) (k : Job)
    → (result =ₛ "succeeded" || result =ₛ "failed") ≡ true
    → k.id ≡ id
    → other ≢ id
    → (finish_job later id sender result reason text images after ≡ err job_changed)
      × (job_progress later id sender stage source shown after ≡ err job_changed)
      × (set_job_worker later id sender worker after ≡ err job_changed)
      × (claim_job later id sender after ≡ err job_changed)
      × (job_payload later id sender payload after ≡ err job_changed)
      × (retarget_job later id sender target resources after ≡ err job_changed)
      × (update_candidate k text after ≡ err job_changed)
      × (is_held_by r other after.locks ≡ is_held_by r other db.locks)
unfolding finish_job
finish_job_final now id owner status outcome message rollback db after s h later sender result
      reason text images stage worker payload target r other source shown resources k valid same
      ne =
    let (_, g, rest) =
      >>=-eq-ok (guard (status =ₛ "succeeded" || status =ₛ "failed") invalid_status) _ h in
    let f : Finished id status db after =
      finish_job_tx-Finished now id owner status outcome message rollback db s rest in
    let ended : (f.row.job.status =ₛ "running") ≡ false =
      final-not_running f.row.job.status status f.final (guard-eq-ok _ _ g) in
    (
      finish_job-refused id after f.row f.ids f.found ended later sender result reason text images
          valid,
      job_progress-refused id after f.row f.ids f.found ended later sender stage source shown,
      set_job_worker-refused id after f.row f.ids f.found ended later sender worker,
      claim_job-refused id after f.row f.ids f.found ended later sender,
      job_payload-refused id after f.row f.ids f.found ended later sender payload,
      retarget_job-refused id after f.row f.ids f.found ended later sender target resources,
      update_candidate-refused k text after f.row f.ids
          (subst (λ i. find_row i after.jobs ≡ some f.row) (sym same) f.found) ended,
      f.locks_kept r other ne,
    )
