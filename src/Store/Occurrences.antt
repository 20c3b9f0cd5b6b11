-- ===== src/Store/Occurrences.antt =====
-- store/schedules.go: an occurrence of a schedule is consumed by at most one job.

use nox_yard.Store.Exclusion.Steps.{Reach}
use nox_yard.Store.Jobs.{create_job}
use nox_yard.Prelude.{
  ◌=ₛ◌, Bool-cases, Result, err, ok, is_ok, ◌≡◌, refl, ◌⊎◌, inl, inr, true, false, ◌∷◌, arith,
  eq_refl,
}
use nox_yard.Store.Types.{Job, Plans, Db}
use nox_yard.Store.Tables.{update_where, count_where}
use nox_yard.Store.Schedules.{is_consumed, is_claimable, claimed, consumed_by}
use nox_yard.Store.Consuming.{claim_schedule-ok, create_job-plans, Reach-Grows}

consumed_after :
    (j : Job) (db : Db) {after : Db}
    → create_job j db ≡ ok after
    → (j.schedule_key =ₛ "") ≡ false
    → is_consumed j.schedule_key j.schedule_date after.plans.occurrences ≡ true
unfolding is_consumed consumed_by
consumed_after j db {after} h named =
    let (mid, claim, e) = create_job-plans j db h in
    rw e (elim (claim_schedule-ok _ j db.plans claim) [
      | inl (manual, _) ↦ absurd (ground arith)
      | inr (_, _, _, same) ↦
          rw same (ground (arith, eq_refl j.schedule_key, eq_refl j.schedule_date))
    ])

free_and_consumed :
    (j k : Job) (p : Plans) {after : Plans}
    → (j.schedule_key =ₛ "") ≡ false
    → k.schedule_key ≡ j.schedule_key
    → k.schedule_date ≡ j.schedule_date
    → is_consumed j.schedule_key j.schedule_date p.occurrences ≡ true
    → ((k.schedule_key =ₛ "") ≡ true) × (after ≡ p)
      ⊎ ((k.schedule_key =ₛ "") ≡ false)
        × (is_consumed k.schedule_key k.schedule_date p.occurrences ≡ false)
        × (count_where (is_claimable k) p.schedules ≡ 1)
        × (after ≡ record {
          schedules = update_where (is_claimable k) (claimed k) p.schedules;
          occurrences = consumed_by k ∷ p.occurrences;
        })
    → ⊥
free_and_consumed j k p named same_key same_date c (inl (manual, _)) =
    ground (arith, same_key, named, manual)
free_and_consumed j k p named same_key same_date c (inr (_, free, _, _)) =
    ground (arith, free, c, same_key, same_date)

is_ok-cases : {E A : Type 0} (m : Result E A) → is_ok m ≡ true → (a : A) × (m ≡ ok a)
is_ok-cases (ok a) h = (a, refl)
is_ok-cases (err e) h = cc

-- Once a scheduled job is created, no later transaction creates another job for the same schedule
-- and date: CreateJob fails, whatever transactions of Step come between (those of operation_jobs,
-- operation_locks and the schedules, the commit of a managed job and those of a self-update).
pub occurrence_consumed_once :
    (j k : Job) (db after later : Db)
    → (j.schedule_key =ₛ "") ≡ false
    → create_job j db ≡ ok after
    → Reach after later
    → k.schedule_key ≡ j.schedule_key
    → k.schedule_date ≡ j.schedule_date
    → is_ok (create_job k later) ≡ false
occurrence_consumed_once j k db after later named h reach same_key same_date =
    elim (Bool-cases (is_ok (create_job k later))) [
      | inr refused ↦ refused
      | inl created ↦ absurd (twice (is_ok-cases (create_job k later) created))
    ]
  where
    consumed : is_consumed j.schedule_key j.schedule_date later.plans.occurrences ≡ true
    consumed = Reach-Grows reach j.schedule_key j.schedule_date (consumed_after j db h named)

    twice : (x : Db) × (create_job k later ≡ ok x) → ⊥
    twice (x, e) =
        let (mid, claim, _) = create_job-plans k later e in
        free_and_consumed j k later.plans named same_key same_date consumed
          (claim_schedule-ok _ k later.plans claim)
