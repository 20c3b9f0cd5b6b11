-- ===== src/Store/Examples.antt =====
-- The theorems of the store at concrete databases.
use nox_yard.Store.Fence.{failed_images_fenced}
use nox_yard.Store.Tables.{lock_holder}
use nox_yard.Store.Keys.{text_le}
use nox_yard.Prelude.{
  ◌=ₛ◌, length, every, err, ok, is_ok, ◌≤◌, String, ◌≡◌, refl, ◌≢◌, ◌⊎◌, inl, true, false, ◌||◌,
  none, [], ◌∷◌, map, arith, eq_iff,
}
use nox_yard.Store.Types.{job_changed, operation_conflict, Tx, Job, Row, Lock, ProjectSchedule, Db}
use nox_yard.Store.Keys.Distinct.{is_free}
use nox_yard.Store.Schedules.{
  find_schedule, by_key, set_project_schedule_at, is_due, due_before, due_schedules,
}
use nox_yard.Store.Jobs.{
  new_job, stored_row, insert_job, create_job, finish_job, failed_reason, update_candidate,
}
use nox_yard.Store.Exclusion.{IsSound}
use nox_yard.Store.Exclusion.Steps.{
  Step, creates, finishes, updates_candidate, sets_schedule, Reach, here, next, empty_db,
  Step-IsSound, empty_db-IsSound, Reach-IsSound, active_jobs_exclusive,
}
use nox_yard.Store.Admission.{create_job_decides}
use nox_yard.Store.Finality.{finish_job_final}
use nox_yard.Store.Occurrences.{occurrence_consumed_once}
use nox_yard.Store.Due.{is_due_sorted, In, due_schedules_lem}

-- The database that a transaction leaves.
abbrev committed : Tx Db → Db
committed (ok db) = db
committed (err e) = empty_db

abbrev web_update : Job
web_update =
    record (new_job 100 "j1" "w1" "compose:web" "managed" "update"
      ("container:1" ∷ "" ∷ "container:1" ∷ [])) {
        schedule_key = "compose:web";
        scheduled_for = 90;
        schedule_date = "2026-01-02";
        schedule_next = 200;
      }

abbrev web_schedule : ProjectSchedule
web_schedule = record {
  key = "compose:web";
  target_id = "compose:web";
  enabled = true;
  time = "03:00";
  next_at = 80;
  last_at = 0;
  last_outcome = "";
  last_reason = "";
  last_job_id = "";
  failed_fingerprint = "";
}

abbrev planned : Db
planned = record empty_db { plans = record { schedules = web_schedule ∷ []; occurrences = [] } }

abbrev running : Db
running = committed (create_job web_update planned)

running_created : create_job web_update planned ≡ ok running
unfolding insert_job new_job text_le lock_holder
running_created = refl

-- The lock table after the insertion: the target and the resource once each.
running_locks : map (λ (l : Lock). l.resource) running.locks ≡ "container:1" ∷ "compose:web" ∷ []
unfolding insert_job new_job text_le lock_holder
running_locks = refl

abbrev manual : Job
manual = new_job 110 "j2" "w2" "compose:web" "lifecycle" "restart" []

create_job_decides_example :
    (is_ok (create_job manual running) ≡ true)
      × (every (λ k. k =ₛ "" || is_free running.locks k) (manual.target_id ∷ manual.resources)
          ≡ true)
    ⊎ (create_job manual running ≡ err operation_conflict)
      × (every (λ k. k =ₛ "" || is_free running.locks k) (manual.target_id ∷ manual.resources)
          ≡ false)
unfolding insert_job new_job text_le lock_holder
create_job_decides_example = create_job_decides manual running refl refl refl

manual_refused : create_job manual running ≡ err operation_conflict
unfolding insert_job new_job text_le lock_holder
manual_refused = refl

planned-Step : Step empty_db planned
unfolding set_project_schedule_at
planned-Step =
    sets_schedule (λ _. true) "compose:web" "compose:web" true 80 "03:00" planned.plans refl refl

reached : Reach empty_db running
unfolding new_job
reached = next (next here planned-Step) (creates web_update (inl refl) running_created)

abbrev the_row : Row
the_row = stored_row web_update

active_jobs_exclusive_example : the_row ≡ the_row
unfolding insert_job new_job text_le lock_holder
active_jobs_exclusive_example =
    active_jobs_exclusive running reached the_row the_row "compose:web" refl refl refl refl refl
      refl

running-IsSound : IsSound running
running-IsSound = Reach-IsSound reached empty_db-IsSound

finish_job_final_example :
    let after = committed (finish_job 150 "j1" "w1" "succeeded" "verified" "" "" running) in
    finish_job 160 "j1" "" "failed" "failed" "late" "" after ≡ err job_changed
unfolding finish_job insert_job new_job text_le lock_holder
finish_job_final_example =
    (finish_job_final 150 "j1" "w1" "succeeded" "verified" "" "" running _ running-IsSound refl 160
      "" "failed" "failed" "late" "" "executing" "w9" "p" "compose:db" "compose:web" "j7" none none
      [] web_update refl refl (λ e. ground (arith, eq_iff "j7" "j1"))).0

abbrev web_again : Job
web_again = record web_update { id = "j3"; resources = [] }

abbrev over : Db
over = committed (finish_job 150 "j1" "w1" "succeeded" "verified" "" "" running)

over-Step : Step running over
unfolding finish_job insert_job new_job text_le lock_holder
over-Step = finishes 150 "j1" "w1" "succeeded" "verified" "" "" refl

occurrence_consumed_once_example : is_ok (create_job web_again over) ≡ false
unfolding new_job
occurrence_consumed_once_example =
    occurrence_consumed_once web_update web_again planned running over refl running_created
      (next here over-Step) refl refl

due_schedules_lem_example :
    let due = due_schedules 85 planned.plans in
    (length due ≤ 4)
    × (every (is_due 85) due ≡ true)
    × (is_due_sorted due ≡ true)
    × ((s : ProjectSchedule) → In s due → In s planned.plans.schedules)
    × ((s : ProjectSchedule)
        → In s planned.plans.schedules
        → is_due 85 s ≡ true
        → In s due ⊎ (every (λ k. due_before k s) due ≡ true) × (length due ≡ 4))
due_schedules_lem_example = due_schedules_lem 85 planned.plans

-- The update fails after it has recorded its images; the next day's job asks again.
abbrev noted : Db
noted = noted_in (update_candidate web_update "fp" running)
  where
    noted_in : Tx (Db × String) → Db
    noted_in (ok (db, reason)) = db
    noted_in (err e) = running

abbrev noted_row : Row
noted_row = record (stored_row web_update) {
  job = record (stored_row web_update).job { candidate_fingerprint = "fp" };
}

abbrev failed : Db
failed = committed (finish_job 150 "j1" "w1" "failed" "failed" "unhealthy" "" noted)

abbrev next_day : Job
next_day = record web_update {
  id = "j3";
  scheduled_for = 210;
  schedule_date = "2026-01-03";
  schedule_next = 300;
}

abbrev next_db : Db
next_db = committed (create_job next_day failed)

noted-IsSound : IsSound noted
unfolding insert_job new_job update_candidate find_schedule by_key text_le lock_holder
noted-IsSound =
    Step-IsSound running noted (updates_candidate web_update "fp" "" refl) running-IsSound

failed_images_fenced_example : failed_reason ≢ ""
unfolding insert_job new_job update_candidate finish_job find_schedule by_key text_le lock_holder
failed_images_fenced_example =
    failed_images_fenced 150 "j1" "w1" "failed" "unhealthy" "" noted failed noted_row noted-IsSound
      refl refl refl refl next_day next_db _ failed_reason refl refl refl refl refl
