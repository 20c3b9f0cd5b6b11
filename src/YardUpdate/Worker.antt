-- ===== src/YardUpdate/Worker.antt =====
-- selfupdate/worker.go: RunWorker, its wait for a healthy container, and the rollback.
-- One look of waitHealthy.

use nox_yard.YardUpdate.{
  Failure, State, Replacement, back_up, open_store, close_store, progress, finish, cleanup_error,
  stop, start, remove, rename, create, drop_journal, swap_database, drop_backup, asked, created,
  Engine, Connection, opened, closed, nothing, Site, Work, and_then, ◌>=>◌, refuse, within,
  log_event, call, look, transact, on_db,
}
use nox_yard.Store.Types.{ImageIdentity}
use nox_yard.Store.Jobs.{job_progress, job_cleanup_error}
use nox_yard.Store.SelfUpdate.{SelfUpdateJob, SelfUpdate, self_image, finish_self_update_outcome}
use nox_yard.Prelude.{
  ◌=ₛ◌, if◌then◌else◌, ◌++ₛ◌, Result, err, ok, ℕ, zero, suc, String, Bool, true, false, Option,
  none, some, List, [], ◌∷◌, ◌++◌,
}

pub data Verdict : Type 0 where
  healthy undecided : Verdict
  ill : String → Verdict

abbrev pub verdict_of : Engine → State → Bool → Option String → Verdict
verdict_of o s false h =
    ill ("container exited with code " ++ₛ o.prints s.exit_code ++ₛ ": " ++ₛ s.error)
verdict_of o s true none = ill "container did not expose a Docker healthcheck"
verdict_of o s true (some h) =
    if h =ₛ "healthy"
    then healthy
    else if h =ₛ "unhealthy"
    then ill "/healthz reported unhealthy"
    else undecided

unfoldable pub verdict : Engine → Option State → Verdict
verdict o none = ill "container did not start"
verdict o (some s) = verdict_of o s s.running s.health

abbrev pub deadline_text : String
deadline_text = "context deadline exceeded"

abbrev pub unless_late :
    Bool → Site → Result String (Unit {0}) × Site → Result String (Unit {0}) × Site
unless_late true w rest = (err deadline_text, w)
unless_late false w rest = rest

abbrev pub judged : Engine → Work (Unit {0}) → Verdict → Work (Unit {0})
judged o again healthy w = (ok tt, w)
judged o again (ill text) w = (err text, w)
judged o again undecided w = unless_late (o.expires w.trace) w (again w)

-- waitHealthy, by the polls that fit before the deadline.
unfoldable pub wait_healthy : Engine → ℕ → String → Work (Unit {0})
unfolding verdict
wait_healthy o zero id = refuse deadline_text
wait_healthy o (suc n) id = look o id >=> λ c. judged o (wait_healthy o n id) (verdict o c.state)

-- The database after FinishSelfUpdateOutcome, which FinishSelfUpdateJob calls without recovery.
abbrev pub finish_update : Engine → String → String → String → Bool → String → Work (Unit {0})
finish_update o id status message recovery undone w =
    transact o (finish status recovery)
      (finish_self_update_outcome (o.now w.trace) id status message recovery undone) w

-- What the worker knows when it starts to replace: the variables of RunWorker.
pub record Plan : Type 0 where
  pub job : SelfUpdateJob
  pub owner : String
  pub old_id : String
  pub name : String
  pub options : Replacement

abbrev pub backup_name : Plan → String
backup_name p = p.name ++ₛ "-rollback-" ++ₛ p.job.id

abbrev pub save_progress : Engine → Plan → String → Option (List ImageIdentity) → Work (Unit {0})
save_progress o p stage target w =
    transact o (progress stage)
      (on_db (job_progress (o.now w.trace) p.job.id p.owner stage none target)) w

-- BackupForSelfUpdate; an error leaves no file.
abbrev pub take_backup : Engine → Work (Unit {0})
take_backup o = call o back_up >=> λ _ w. (ok tt, record w { backup = some w.database })

abbrev pub made_as : Plan → Site → Result Failure String → Result String String × Site
made_as p w (err f) =
    (err ("create replacement: " ++ₛ f.text), log_event (asked (create p.name p.options) false) w)
made_as p w (ok id) = (
  ok id,
  record (log_event (created id) (log_event (asked (create p.name p.options) true) w)) {
    new_id = id;
  },
)

abbrev pub create_replacement : Engine → Plan → Work String
create_replacement o p w = made_as p w (o.creates w.trace)

abbrev pub image_of : String → SelfUpdateJob → List ImageIdentity
image_of id job = self_image id job.target_image_id ∷ []

-- The part of RunWorker between the deferred recovery and `committed = true`.
unfoldable pub stepped_aside : Engine → Plan → Work (Unit {0})
stepped_aside o p =
    save_progress o p "replacing" none
    >=> (λ _ w. within "reserve original container" (call o (rename p.old_id (backup_name p)) w))
    >=> (λ _ w. within "stop original container" (call o (stop p.old_id) w))
    >=> (λ _. take_backup o)

abbrev pub started_replacement : Engine → Plan → Work String
started_replacement o p = stepped_aside o p >=> λ _. create_replacement o p

unfoldable pub proved_replacement : Engine → Plan → String → Work (Unit {0})
unfolding wait_healthy
proved_replacement o p id =
    (λ w. within "start replacement" (call o (start id) w))
    >=> (λ _. save_progress o p "verifying" (some (image_of id p.job)))
    >=> (λ _ w. within "replacement healthcheck" (wait_healthy o o.polls id w))

abbrev pub commit : Engine → Plan → Work (Unit {0})
commit o p w =
    within "replacement is healthy but saving the result failed"
      (finish_update o p.job.id "succeeded" "" false "" w)

unfoldable pub replaced : Engine → Plan → Work (Unit {0})
unfolding stepped_aside proved_replacement
replaced o p = started_replacement o p >=> λ id. proved_replacement o p id >=> λ _. commit o p

-- After the commit: what cannot be removed is a cleanup error of the job.
abbrev pub site_of : {A : Type 0} → Result String A × Site → Site
site_of (r, w) = w

abbrev pub cleaned : Engine → Plan → String → Result String (Unit {0}) × Site → Site
cleaned o p message (ok _, w) = w
cleaned o p message (err x, w) =
    site_of (transact o cleanup_error (on_db (λ db. ok (job_cleanup_error p.job.id message db))) w)

abbrev pub old_left : String
old_left = "Self-update succeeded, but the original rollback container could not be removed."

abbrev pub snapshot_left : String
snapshot_left = "Self-update succeeded, but its SQLite rollback snapshot could not be removed."

abbrev pub drop_snapshot : Engine → Plan → Site → Site
drop_snapshot o p w = cleaned o p snapshot_left (call o drop_backup w)

unfoldable pub tidied : Engine → Plan → Site → Site
tidied o p w = drop_snapshot o p (cleaned o p old_left (call o (remove p.old_id) w))

-- A step of the rollback, with the failures that it adds.
abbrev pub Undo : Type 0
Undo = Site → List String × Site

abbrev pub onto : List String → List String × Site → List String × Site
onto xs (ys, v) = (xs ++ ys, v)

abbrev pub going_on : Undo → List String × Site → List String × Site
going_on g (xs, v) = onto xs (g v)

abbrev pub also : Undo → Undo → Undo
also f g w = going_on g (f w)

abbrev pub noting : String → Result String (Unit {0}) × Site → List String × Site
noting prefix (ok _, w) = ([], w)
noting prefix (err x, w) = ((prefix ++ₛ ": " ++ₛ x) ∷ [], w)

-- restoreDatabase: an absent journal file is no error.
abbrev pub gone_file : String → Site → Option Failure → Result String (Unit {0}) × Site
gone_file suffix w none = (ok tt, log_event (asked (drop_journal suffix) true) w)
gone_file suffix w (some f) =
    if f.absent
    then (ok tt, log_event (asked (drop_journal suffix) false) w)
    else (err f.text, log_event (asked (drop_journal suffix) false) w)

abbrev pub drop_file : Engine → String → Work (Unit {0})
drop_file o suffix w = gone_file suffix w (o.answers (drop_journal suffix) w.trace)

abbrev pub swapped : SelfUpdate → Result String (Unit {0}) × Site → Result String (Unit {0}) × Site
swapped snapshot (ok _, w) = (ok tt, record w { database = snapshot })
swapped snapshot (err x, w) = (err ("replace SQLite database with rollback snapshot: " ++ₛ x), w)

unfoldable pub restore_database : Engine → SelfUpdate → Work (Unit {0})
restore_database o snapshot =
    drop_file o "-wal"
    >=> (λ _. drop_file o "-shm")
    >=> (λ _ w. swapped snapshot (call o swap_database w))

-- The closure `restore`: Close leaves the store closed whatever it answers, and Open nil on an error.
abbrev pub with_connection :
    Connection → Result String (Unit {0}) × Site → Result String (Unit {0}) × Site
with_connection c (r, w) = (r, record w { connection = c })

abbrev pub reopened : Result String (Unit {0}) × Site → Result String (Unit {0}) × Site
reopened (ok _, w) = (ok tt, record w { connection = opened })
reopened (err x, w) = (err x, record w { connection = nothing })

abbrev pub restored_from : Engine → Option SelfUpdate → Work (Unit {0})
restored_from o none w = (ok tt, w)
restored_from o (some snapshot) w =
    and_then (λ _. restore_database o snapshot >=> λ _ v. reopened (call o open_store v))
      (with_connection closed (call o close_store w))

unfoldable pub restore : Engine → Work (Unit {0})
unfolding restore_database
restore o w = restored_from o w.backup w
