-- ===== src/Workers/Examples.antt =====
-- The theorems of the observation on a job whose worker has gone.
use nox_yard.Prelude.{err, ok, ◌≡◌, refl, ◌⊎◌, Bool, true, false, some, []}
use nox_yard.Store.Types.{Tx, Job, Db}
use nox_yard.Store.Tables.{lock_holder, release}
use nox_yard.Store.Jobs.{new_job, insert_job, create_job}
use nox_yard.Store.Exclusion.Steps.{empty_db}
use nox_yard.Workers.{WorkerState, is_busy, Verify, is_verifying, observe_state}
use nox_yard.Workers.Observing.{observation_releases_verified}

abbrev deploy : Job
deploy = new_job 100 "j1" "w1" "compose:web" "managed" "deploy" []

abbrev or_empty : Tx Db → Db
or_empty (ok db) = db
or_empty (err e) = empty_db

abbrev deploying : Db
deploying = or_empty (create_job deploy empty_db)

-- A verification that passes and finishes nothing itself.
abbrev passes : Db → Bool × Db
passes db = (true, db)

abbrev gone : WorkerState
gone = record { running = false; exists_yet = false; helpers_running = false }

abbrev verifying : Job
verifying = record deploy { stage = "verifying" }

observation_releases_verified_example :
    let after = (observe_state 200 gone (some passes) verifying deploying).1 in
    (after.locks ≡ deploying.locks)
    ⊎ (is_busy gone ≡ false)
      × (verifying.status ≡ "running")
      × (is_verifying verifying ≡ true)
      × (f : Verify) × (some passes ≡ some f)
      × ((after.locks ≡ (f deploying).1.locks)
          ⊎ ((f deploying).0 ≡ true) × (after.locks ≡ release verifying.id (f deploying).1.locks))
observation_releases_verified_example =
    observation_releases_verified 200 gone (some passes) verifying deploying

-- The passed verification ends the job; without one it awaits recovery and keeps its lock.
reconciled_locks : (observe_state 200 gone (some passes) verifying deploying).1.locks ≡ []
unfolding observe_state insert_job new_job lock_holder
reconciled_locks = refl
