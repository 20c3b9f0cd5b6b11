-- ===== src/Workers/Observing.antt =====
-- jobs/workers.go: what an observation may do to a job.
use nox_yard.Workers.{
  WorkerState, is_busy, Verify, is_verifying, exit_message, reconcile_row, transacted, give_up,
  after_verify, end_job, is_left_alone, observe_state,
}
use nox_yard.Prelude.{
  ◌=ₛ◌, Bool-cases, eq_of_test, err, ok, ℕ, String, ◌≡◌, refl, ap, ◌⊎◌, inl, inr, Bool, true, false,
  Option, none, some, arith,
}
use nox_yard.Store.Types.{Tx, Job, Row, Db}
use nox_yard.Store.Tables.{find_row, release}
use nox_yard.Store.Jobs.{finish_job}
use nox_yard.Store.Finality.{finish_job_tx-ok}

recovery-keeps_locks :
    (now : ℕ) (id owner message rollback : String) (db after : Db)
    → finish_job now id owner "failed" "recovery_required" message rollback db ≡ ok after
    → after.locks ≡ db.locks
unfolding finish_job
recovery-keeps_locks now id owner message rollback db after h =
    let (_, _, _, e) =
      finish_job_tx-ok now id owner "failed" "recovery_required" message rollback db h in
    ap (λ d. d.locks) e

reconciled-releases :
    (now : ℕ) (id owner : String) (db after : Db)
    → finish_job now id owner "succeeded" "reconciled" "" "" db ≡ ok after
    → after.locks ≡ release id db.locks
unfolding finish_job
reconciled-releases now id owner db after h =
    let (_, _, _, e) = finish_job_tx-ok now id owner "succeeded" "reconciled" "" "" db h in
    ap (λ d. d.locks) e

-- A transaction that fails, or that does what is wanted when it commits.
transacted_by :
    (want : Db → Type 0) (db : Db) (m : Tx Db)
    → ((after : Db) → m ≡ ok after → want after)
    → want db
    → want (transacted db m).1
transacted_by want db (ok after) k h = k after refl
transacted_by want db (err e) k h = h

give_up-locks : (now : ℕ) (j : Job) (db : Db) → (give_up now j db).1.locks ≡ db.locks
unfolding give_up
give_up-locks now j db =
    transacted_by (λ d. d.locks ≡ db.locks) db
      (finish_job now j.id j.owner "failed" "recovery_required" exit_message j.rollback db)
      (λ after h. recovery-keeps_locks now j.id j.owner exit_message j.rollback db after h) refl

-- The job's locks, given back or kept.
abbrev IsFreedOrKept : Job → Db → Db → Type 0
IsFreedOrKept j db after = (after.locks ≡ db.locks) ⊎ (after.locks ≡ release j.id db.locks)

reconcile_row-locks :
    (now : ℕ) (j : Job) (o : Option Row) (db after : Db)
    → reconcile_row now j o db ≡ ok after
    → IsFreedOrKept j db after
unfolding reconcile_row
reconcile_row-locks now j none db after h = cc
reconcile_row-locks now j (some x) db after h = elim (Bool-cases (x.job.status =ₛ "running")) [
  | inl e ↦ inr (reconciled-releases now j.id j.owner db after (rw (e) at h))
  | inr e ↦ inl (ground arith)
]

after_verify-locks :
    (now : ℕ) (j : Job) (r : Bool × Db)
    → ((after_verify now j r).1.locks ≡ r.1.locks)
      ⊎ (r.0 ≡ true) × ((after_verify now j r).1.locks ≡ release j.id r.1.locks)
unfolding after_verify
after_verify-locks now j (false, db) = inl (give_up-locks now j db)
after_verify-locks now j (true, db) =
    elim (transacted_by (IsFreedOrKept j db) db (reconcile_row now j (find_row j.id db.jobs) db)
      (reconcile_row-locks now j (find_row j.id db.jobs) db) (inl refl)) [
        | inl same ↦ inl same
        | inr freed ↦ inr (refl, freed)
      ]

-- What an observation of an idle, running job may do to the locks.
abbrev pub IsObserved : Job → Option Verify → Db → Db → Type 0
IsObserved j verify db after =
    (after.locks ≡ db.locks)
    ⊎ (is_verifying j ≡ true)
      × (f : Verify) × (verify ≡ some f)
      × ((after.locks ≡ (f db).1.locks)
          ⊎ ((f db).0 ≡ true) × (after.locks ≡ release j.id (f db).1.locks))

end_job-IsObserved :
    (now : ℕ) (j : Job) (verify : Option Verify) (db : Db)
    → IsObserved j verify db (end_job now j verify db).1
unfolding end_job
end_job-IsObserved now j none db = inl (give_up-locks now j db)
end_job-IsObserved now j (some f) db = elim (Bool-cases (is_verifying j)) [
  | inl e ↦ rw (e) (inr (refl, f, refl, after_verify-locks now j (f db)))
  | inr e ↦ rw (e) (inl (give_up-locks now j db))
]

-- An observation, committed or not, leaves the locks as they were, unless the worker and its helpers
-- have stopped, the job runs in the stage verifying or committing, and there is a verification. Then
-- the locks are those that the verification leaves, and the job's own are released from them only if
-- the verification has passed.
pub observation_releases_verified :
    (now : ℕ) (s : WorkerState) (verify : Option Verify) (j : Job) (db : Db)
    → let after = (observe_state now s verify j db).1 in
      (after.locks ≡ db.locks)
      ⊎ (is_busy s ≡ false)
        × (j.status ≡ "running")
        × (is_verifying j ≡ true)
        × (f : Verify) × (verify ≡ some f)
        × ((after.locks ≡ (f db).1.locks)
            ⊎ ((f db).0 ≡ true) × (after.locks ≡ release j.id (f db).1.locks))
unfolding observe_state
observation_releases_verified now s verify j db = elim (Bool-cases (is_left_alone now s j)) [
  | inl a ↦ rw (a) (inl refl)
  | inr a ↦ rw (a) elim (end_job-IsObserved now j verify db) [
    | inl same ↦ inl same
    | inr (stage, f, e, rest) ↦ inr (observed_idle a, observed_running a, stage, f, e, rest)
  ]
]
  where
    observed_idle : is_left_alone now s j ≡ false → is_busy s ≡ false
    observed_idle a = unfold is_left_alone in ground arith

    observed_running : is_left_alone now s j ≡ false → j.status ≡ "running"
    observed_running a = unfold is_left_alone in eq_of_test j.status "running" (ground arith)
