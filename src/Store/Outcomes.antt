-- ===== src/Store/Outcomes.antt =====
-- store/schedules.go: what a finished job writes into the schedules (finishSchedule), and the
-- checks of a worker before it replaces a container.
use nox_yard.Prelude.{
  ◌=ₛ◌, if◌then◌else◌, mem, ok, err, ◌>>=◌, String, Bool, true, false, ◌&&◌, ◌||◌, not, none, some,
  List,
}
use nox_yard.Store.Types.{no_rows, Tx, Job, Row, ProjectSchedule, Plans}
use nox_yard.Store.Tables.{find_row}
use nox_yard.Store.Schedules.{find_schedule, by_key, retarget_schedules, update_schedules}

-- The schedules that a job's target or its resource keys name.
unfoldable pub names_schedule : Job → ProjectSchedule → Bool
names_schedule j s = s.target_id =ₛ j.target_id || mem s.key j.resources

-- finishSchedule, first part: the schedule that started the job records its result.
unfoldable pub record_result : Job → String → String → Plans → Tx Plans
unfolding retarget_schedules by_key
record_result j outcome message p =
    if j.schedule_key =ₛ ""
    then ok p
    else retarget_schedules (λ s. by_key j.schedule_key s && s.last_job_id =ₛ j.id)
        (λ s. record s { last_outcome = outcome; last_reason = message; target_id = j.target_id }) p

-- Second part: a removed project is not updated any more.
unfoldable pub disable_removed : Job → String → Plans → Plans
unfolding update_schedules names_schedule
disable_removed j status p =
    if j.operation =ₛ "remove" && status =ₛ "succeeded"
    then update_schedules (names_schedule j) (λ s. record s { enabled = false; next_at = 0 }) p
    else p

-- Third part: a failed update fences its images, a successful one clears the fence.
unfoldable pub fence_images : Job → String → String → Plans → Plans
unfolding update_schedules names_schedule by_key
fence_images j status outcome p =
    let hit = λ (s : ProjectSchedule). by_key j.schedule_key s || names_schedule j s in
    if not (j.operation =ₛ "update") || j.candidate_fingerprint =ₛ ""
    then p
    else if status =ₛ "failed"
    then update_schedules hit (λ s. record s { failed_fingerprint = j.candidate_fingerprint }) p
    else if status =ₛ "succeeded"
        && (outcome =ₛ "verified" || (outcome =ₛ "reconciled" || outcome =ₛ "unchanged"))
    then update_schedules hit (λ s. record s { failed_fingerprint = "" }) p
    else p

-- finishSchedule, which reads the job's row again.
unfoldable pub finish_schedule : List Row → String → String → String → String → Plans → Tx Plans
unfolding find_row record_result disable_removed fence_images
finish_schedule rows id status outcome message p = elim (find_row id rows) [
  | none ↦ err no_rows
  | some r ↦ do
    recorded ← record_result r.job outcome message p
    ok (fence_images r.job status outcome (disable_removed r.job status recorded))
]

-- ScheduleEnabled
unfoldable pub schedule_enabled : Job → Plans → Tx Bool
unfolding find_schedule by_key
schedule_enabled j p =
    if j.schedule_key =ₛ ""
    then ok true
    else elim (find_schedule (by_key j.schedule_key) p.schedules) [
      | none ↦ err no_rows
      | some s ↦ ok s.enabled
    ]
