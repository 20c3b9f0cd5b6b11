-- ===== src/Store/Schedules.antt =====
-- store/schedules.go: daily schedules, their occurrences, and the fence of failed images.
use nox_yard.Prelude.{
  ltb, leb, ◌==◌, ◌=ₛ◌, if◌then◌else◌, is_some, take, select, exists, ok, err, ◌>>◌, guard, ℕ,
  String, Bool, true, false, ◌&&◌, ◌||◌, not, Option, none, some, List, [], ◌∷◌, ◌++◌,
}
use nox_yard.Store.Types.{
  operation_conflict, schedule_changed, constraint, Tx, Job, Row, ProjectSchedule,
  ScheduleOccurrence, Consumed, Plans, Db,
}
use nox_yard.Store.Tables.{update_where, count_where, lock_holder}
use nox_yard.Store.Keys.{text_le}

abbrev pub automatic_resource : String
automatic_resource = "scheduler:projects"

-- WithSchedule and ScheduledJob: the context carries the occurrence, if there is one.
unfoldable pub scheduled_job : Option ScheduleOccurrence → Job → Job
scheduled_job none j = j
scheduled_job (some o) j = record j {
  schedule_key = o.key;
  scheduled_for = o.due_at;
  schedule_date = o.date;
  schedule_next = o.next_at;
  resources = j.resources ++ automatic_resource ∷ [];
}

unfoldable pub find_schedule :
    (ProjectSchedule → Bool) → List ProjectSchedule → Option ProjectSchedule
find_schedule hit [] = none
find_schedule hit (x ∷ xs) = let rest = find_schedule hit xs in if hit x then some x else rest

unfoldable pub by_key : String → ProjectSchedule → Bool
by_key key s = s.key =ₛ key

-- The UNIQUE constraint on target_id.
unfoldable pub targets_distinct : List ProjectSchedule → Bool
targets_distinct [] = true
targets_distinct (x ∷ xs) = not (exists (λ s. s.target_id =ₛ x.target_id) xs) && targets_distinct xs

-- An UPDATE of project_schedules that may write target_id.
unfoldable pub retarget_schedules :
    (ProjectSchedule → Bool) → (ProjectSchedule → ProjectSchedule) → Plans → Tx Plans
unfolding update_where targets_distinct
retarget_schedules hit f p =
    let rows = update_where hit f p.schedules in
    if targets_distinct rows then ok (record p { schedules = rows }) else err constraint

-- One that does not.
unfoldable pub update_schedules :
    (ProjectSchedule → Bool) → (ProjectSchedule → ProjectSchedule) → Plans → Plans
unfolding update_where
update_schedules hit f p = record p { schedules = update_where hit f p.schedules }

-- ProjectSchedule: a target with no row reads as the default.
unfoldable pub project_schedule : String → Plans → ProjectSchedule × Bool
unfolding find_schedule
project_schedule target p =
    elim (find_schedule (λ s. s.key =ₛ target || s.target_id =ₛ target) p.schedules) [
      | some s ↦ (s, true)
      | none ↦ (
        record {
          key = target;
          target_id = target;
          enabled = false;
          time = "03:00";
          next_at = 0;
          last_at = 0;
          last_outcome = "";
          last_reason = "";
          last_job_id = "";
          failed_fingerprint = "";
        },
        false,
      )
    ]

abbrev pub same_switch : Bool → Bool → Bool
same_switch true b = b
same_switch false b = not b

-- An upsert. A change of the switch or of the time sets the next occurrence anew.
unfoldable pub upsert_schedule :
    String → String → Bool → ℕ → String → List ProjectSchedule → List ProjectSchedule
upsert_schedule key target enabled next at [] =
    record {
      key = key;
      target_id = target;
      enabled = enabled;
      time = at;
      next_at = next;
      last_at = 0;
      last_outcome = "";
      last_reason = "";
      last_job_id = "";
      failed_fingerprint = "";
    }
    ∷ []
upsert_schedule key target enabled next at (s ∷ rest) =
    let others = upsert_schedule key target enabled next at rest in
    if s.key =ₛ key
    then record s {
      target_id = target;
      enabled = enabled;
      time = at;
      next_at = if same_switch s.enabled enabled && s.time =ₛ at then s.next_at else next;
    }
      ∷ rest
    else s ∷ others

-- SetProjectScheduleAt. `valid_time` is the CHECK on daily_time.
unfoldable pub set_project_schedule_at :
    (String → Bool) → String → String → Bool → ℕ → String → Plans → Tx Plans
unfolding upsert_schedule targets_distinct
set_project_schedule_at valid_time key target enabled next at p =
    let rows = upsert_schedule key target enabled next at p.schedules in
    if valid_time at && targets_distinct rows
    then ok (record p { schedules = rows })
    else err constraint

unfoldable pub is_due : ℕ → ProjectSchedule → Bool
is_due now s = s.enabled && leb s.next_at now

-- ORDER BY next_at, key
unfoldable pub due_before : ProjectSchedule → ProjectSchedule → Bool
due_before a b = ltb a.next_at b.next_at || a.next_at == b.next_at && text_le a.key b.key

unfoldable pub insert_due : ProjectSchedule → List ProjectSchedule → List ProjectSchedule
insert_due s [] = s ∷ []
insert_due s (x ∷ xs) =
    let rest = insert_due s xs in if due_before s x then s ∷ x ∷ xs else x ∷ rest

unfoldable pub sort_due : List ProjectSchedule → List ProjectSchedule
unfolding insert_due
sort_due [] = []
sort_due (x ∷ xs) = insert_due x (sort_due xs)

-- DueSchedules
unfoldable pub due_schedules : ℕ → Plans → List ProjectSchedule
unfolding sort_due is_due
due_schedules now p = take 4 (sort_due (select (is_due now) p.schedules))

-- A scheduled job whose worker has not been removed yet.
unfoldable pub awaits_cleanup : Row → Bool
awaits_cleanup r =
    ltb 0 r.job.scheduled_for && (not (r.job.worker_id =ₛ "") && r.worker_cleaned_at == 0)

-- AutomaticBusy
unfoldable pub automatic_busy : Db → Bool
unfolding lock_holder awaits_cleanup
automatic_busy db =
    is_some (lock_holder automatic_resource db.locks) || exists awaits_cleanup db.jobs

-- DeferDueSchedules
unfoldable pub defer_due_schedules : ℕ → Plans → Plans
unfolding update_schedules is_due
defer_due_schedules now =
    update_schedules (λ s. is_due now s && not (s.last_outcome =ₛ "deferred"))
      (λ s. record s {
        last_at = now;
        last_job_id = "";
        last_outcome = "deferred";
        last_reason = "Another automatic update is running, pending cleanup or awaiting recovery.";
      })

-- A primary key (schedule_key, date) that is in use.
unfoldable pub is_consumed : String → String → List Consumed → Bool
is_consumed key date = exists (λ c. c.schedule_key =ₛ key && c.date =ₛ date)

-- CoalesceOccurrence
unfoldable pub coalesce_occurrence : String → String → ℕ → Plans → Plans
unfolding update_schedules is_consumed
coalesce_occurrence key date next p =
    update_schedules
      (λ s.
        by_key key s && (s.enabled && (ltb s.next_at next && is_consumed key date p.occurrences)))
      (λ s. record s { next_at = next }) p

-- The row that claimSchedule may take: enabled, still on the same target, and due.
unfoldable pub is_claimable : Job → ProjectSchedule → Bool
unfolding by_key
is_claimable j s =
    by_key j.schedule_key s
    && (s.target_id =ₛ j.target_id && (s.enabled && leb s.next_at j.scheduled_for))

unfoldable pub claimed : Job → ProjectSchedule → ProjectSchedule
claimed j s = record s {
  next_at = j.schedule_next;
  last_at = j.scheduled_for;
  last_outcome = "running";
  last_reason = j.error;
  last_job_id = j.id;
}

unfoldable pub consumed_by : Job → Consumed
consumed_by j = record {
  schedule_key = j.schedule_key;
  date = j.schedule_date;
  due_at = j.scheduled_for;
  job_id = j.id;
}

-- Another scheduled job whose worker still awaits its cleanup.
unfoldable pub cleanup_pending : String → List Row → Bool
unfolding awaits_cleanup
cleanup_pending id = exists (λ r. not (r.job.id =ₛ id) && awaits_cleanup r)

-- claimSchedule, over the rows of operation_jobs with the new job among them.
unfoldable pub claim_schedule : List Row → Job → Plans → Tx Plans
unfolding count_where update_schedules is_consumed cleanup_pending is_claimable claimed consumed_by
claim_schedule rows j p = if j.schedule_key =ₛ "" then ok p else do
  guard (not (j.status =ₛ "running" && cleanup_pending j.id rows)) operation_conflict
  guard (count_where (is_claimable j) p.schedules == 1) schedule_changed
  guard (not (is_consumed j.schedule_key j.schedule_date p.occurrences)) schedule_changed
  guard (not (exists (λ c. c.job_id =ₛ j.id) p.occurrences)) constraint
  ok (record p {
    schedules = update_where (is_claimable j) (claimed j) p.schedules;
    occurrences = consumed_by j ∷ p.occurrences;
  })
