-- ===== src/Store/Fence.antt =====
-- store/schedules.go: images that failed once are not tried again by the scheduler.
use nox_yard.Store.Consuming.{claim_schedule-ok}
use nox_yard.Store.Exclusion.Endings.{changed-found, finishable_id}
use nox_yard.Store.Finality.{finish_job_tx-ok}
use nox_yard.Store.Exclusion.Updates.{update_jobs-ok}
use nox_yard.Store.Tables.Rows.{find_row-update_where}
use nox_yard.Store.Exclusion.{IsSound}
use nox_yard.Prelude.{
  ◌=ₛ◌, if◌then◌else◌, Option-cases, ne_of_test, is_some, ok, guard, >>=-eq-ok, ℕ, String, ◌≡◌,
  refl, subst, ◌≢◌, inl, inr, Bool, true, false, ◌||◌, not, Option, none, some, List, [], ◌∷◌, ◌++◌,
  arith, eq_iff, eq_refl,
}
use nox_yard.Store.Types.{constraint, Job, Row, ProjectSchedule, Plans, Db}
use nox_yard.Store.Tables.{update_where, find_row}
use nox_yard.Store.Schedules.{find_schedule, by_key, is_claimable, claimed, claim_schedule}
use nox_yard.Store.Outcomes.{
  names_schedule, record_result, disable_removed, fence_images, finish_schedule,
}
use nox_yard.Store.Jobs.{
  stored_row, take_locks, insert_job, create_job, update_jobs, on_job, owned_running, finishable,
  finished, finish_job, disabled_reason, failed_reason, suppression, update_candidate,
}
use mathlib.Core.Option

find_schedule-update_where :
    (key : String) (hit : ProjectSchedule → Bool) (f : ProjectSchedule → ProjectSchedule)
    (rows : List ProjectSchedule)
    → ((s : ProjectSchedule) → (f s).key ≡ s.key)
    → find_schedule (by_key key) (update_where hit f rows)
      ≡ Option.map (λ s. if hit s then f s else s) (find_schedule (by_key key) rows)
unfolding find_schedule update_where by_key
find_schedule-update_where key hit f [] same = refl
find_schedule-update_where key hit f (x ∷ xs) same =
    ground (arith, find_schedule-update_where key hit f xs same, same x)

find_schedule_key :
    (key : String) (rows : List ProjectSchedule) (s : ProjectSchedule)
    → find_schedule (by_key key) rows ≡ some s
    → by_key key s ≡ true
unfolding find_schedule
find_schedule_key key [] s h = cc
find_schedule_key key (x ∷ xs) s h = ground (arith, find_schedule_key key xs s)

-- Whether the schedule, if there is one with this key, has these images on record as failed.
abbrev fences : Option ProjectSchedule → String → Bool
fences none images = true
fences (some s) images = s.failed_fingerprint =ₛ images

abbrev pub is_fenced : String → String → Plans → Bool
is_fenced key images p = fences (find_schedule (by_key key) p.schedules) images

fence_images-fenced :
    (j : Job) (outcome : String) (p : Plans)
    → (j.operation =ₛ "update") ≡ true
    → (j.candidate_fingerprint =ₛ "") ≡ false
    → is_fenced j.schedule_key j.candidate_fingerprint (fence_images j "failed" outcome p) ≡ true
unfolding fence_images
fence_images-fenced j outcome p up some_images =
    rw (up, some_images)
      (elim (Option-cases (find_schedule (by_key j.schedule_key) p.schedules)) [
        | inl e ↦
            rw (find_schedule-update_where j.schedule_key hit fence p.schedules (λ s. refl), e) refl
        | inr (s, e) ↦
            rw
              (
                find_schedule-update_where j.schedule_key hit fence p.schedules (λ s. refl),
                e,
                find_schedule_key j.schedule_key p.schedules s e,
              )
              (eq_refl j.candidate_fingerprint)
      ])
  where
    hit : ProjectSchedule → Bool
    hit s = by_key j.schedule_key s || names_schedule j s

    fence : ProjectSchedule → ProjectSchedule
    fence s = record s { failed_fingerprint = j.candidate_fingerprint }

-- Claiming an occurrence leaves the fence up.
claim_schedule-fenced :
    (rows : List Row) (j : Job) (p : Plans) (key images : String) {after : Plans}
    → claim_schedule rows j p ≡ ok after
    → is_fenced key images p ≡ true
    → is_fenced key images after ≡ true
claim_schedule-fenced rows j p key images h up = elim (claim_schedule-ok rows j p h) [
  | inl (_, e) ↦ rw e up
  | inr (_, _, _, e) ↦
      rw
        (
          e,
          find_schedule-update_where key (is_claimable j) (claimed j) p.schedules
              (unfold claimed in λ s. refl),
        )
        (elim (Option-cases (find_schedule (by_key key) p.schedules)) [
          | inl n ↦ rw n refl
          | inr (s, n) ↦ rw n (unfold claimed in ground (arith, rw n at up))
        ])
]

create_job-fenced :
    (j : Job) (db : Db) (key images : String) {after : Db}
    → j.status ≡ "running"
    → create_job j db ≡ ok after
    → is_fenced key images db.plans ≡ true
    → is_fenced key images after.plans ≡ true
unfolding insert_job take_locks
create_job-fenced j db key images {after} running h up =
    let rows = db.jobs ++ stored_row j ∷ [] in
    let (_, _, rest) = >>=-eq-ok (guard (not (is_some (find_row j.id db.jobs))) constraint) _ h in
    let (plans, c, last) = >>=-eq-ok (claim_schedule rows j db.plans) _ rest in
    let same : plans ≡ after.plans = ground (arith, eq_iff j.status "running") in
    subst (λ p. is_fenced key images p ≡ true) same
      (claim_schedule-fenced rows j db.plans key images c up)

suppression-fenced :
    (k : Job) (images : String) (p : Plans) {reason : String}
    → (images =ₛ "") ≡ false
    → (k.schedule_key =ₛ "") ≡ false
    → is_fenced k.schedule_key images p ≡ true
    → suppression k images p ≡ ok reason
    → (reason =ₛ "") ≡ false
unfolding suppression
suppression-fenced k images p {reason} some_images named up h =
    elim (Option-cases (find_schedule (by_key k.schedule_key) p.schedules)) [
      | inl e ↦ absurd (ground arith)
      | inr (s, e) ↦ ground (
        arith,
        eq_iff s.failed_fingerprint images,
        eq_iff images s.failed_fingerprint,
        eq_iff reason "",
        eq_iff disabled_reason "",
        eq_iff failed_reason "",
      )
    ]

update_candidate-reason :
    (k : Job) (signature : String) (db : Db) {later : Db} {reason : String}
    → update_candidate k signature db ≡ ok (later, reason)
    → suppression k signature db.plans ≡ ok reason
unfolding update_candidate
update_candidate-reason k signature db h =
    let (marked, e, rest) =
      >>=-eq-ok
        (update_jobs (owned_running k.id k.owner)
          (on_job (λ j. record j { candidate_fingerprint = signature })) db)
        _ h in
    let (said, g, same) = >>=-eq-ok (suppression k signature marked.plans) _ rest in
    ground (arith, g, same, update_jobs-ok _ _ db e)

-- finishSchedule of a failed job ends by putting the fence up.
finish_schedule-fences :
    (rows : List Row) (id outcome message : String) (x : Row) (p : Plans) {after : Plans}
    → find_row id rows ≡ some x
    → finish_schedule rows id "failed" outcome message p ≡ ok after
    → (q : Plans) × (after ≡ fence_images x.job "failed" outcome q)
unfolding finish_schedule
finish_schedule-fences rows id outcome message x p found h =
    let (recorded, _, same) =
      >>=-eq-ok (record_result x.job outcome message p) _ (rw (found, finish_schedule) at h) in
    (disable_removed x.job "failed" recorded, ground (arith, same))

-- When an update fails whose candidate images were recorded, the next job on the same schedule is
-- told so: after CreateJob, the check with the same images gives a reason not to replace anything.
pub failed_images_fenced :
    (now : ℕ) (id owner outcome message rollback : String) (db after : Db) (x : Row)
    → IsSound db
    → find_row id db.jobs ≡ some x
    → (x.job.operation =ₛ "update") ≡ true
    → (x.job.candidate_fingerprint =ₛ "") ≡ false
    → finish_job now id owner "failed" outcome message rollback db ≡ ok after
    → (k : Job) (created later : Db) (reason : String) → k.status ≡ "running"
    → (k.schedule_key =ₛ "") ≡ false
    → k.schedule_key ≡ x.job.schedule_key
    → create_job k after ≡ ok created
    → update_candidate k x.job.candidate_fingerprint created ≡ ok (later, reason)
    → reason ≢ ""
unfolding finish_job
failed_images_fenced now id owner outcome message rollback db after x s found up some_images h k
      created later reason running named same c u =
    let (settled, f, count, e) =
      finish_job_tx-ok now id owner "failed" outcome message rollback db h in
    let (y, found', hits) =
      changed-found id hit mark same_id (finishable_id id owner) db.jobs s.ids count in
    let one : y ≡ x = ground (arith, found, found') in
    let fenced =
      finish_schedule-fences _ id outcome message (mark x) db.plans
        (row_after (subst (λ z. hit z ≡ true) one hits)) f in
    let plans : after.plans ≡ settled = rw e refl in
    ne_of_test reason "" (
      suppression-fenced k x.job.candidate_fingerprint created.plans some_images named
        (create_job-fenced k after k.schedule_key x.job.candidate_fingerprint running c
          (raised settled fenced plans))
        (update_candidate-reason k x.job.candidate_fingerprint created u))
  where
    hit : Row → Bool
    hit = finishable id owner

    mark : Row → Row
    mark = finished now "failed" outcome message rollback

    same_id : (z : Row) → (mark z).job.id ≡ z.job.id
    same_id z = unfold finished in refl

    row_after : hit x ≡ true → find_row id (update_where hit mark db.jobs) ≡ some (mark x)
    row_after hits = rw (find_row-update_where hit mark same_id id db.jobs, found, hits) refl

    raised :
        (settled : Plans)
        → (q : Plans) × (settled ≡ fence_images (mark x).job "failed" outcome q)
        → after.plans ≡ settled
        → is_fenced k.schedule_key x.job.candidate_fingerprint after.plans ≡ true
    raised settled (q, fence) plans =
        rw (plans, fence, same)
          (unfold finished in fence_images-fenced (mark x).job outcome q up some_images)
