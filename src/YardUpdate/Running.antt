-- ===== src/YardUpdate/Running.antt =====
-- selfupdate/worker.go: the rollback, and RunWorker as a whole.
-- A replacement whose creation was not answered stands under the original's name.
use nox_yard.Workers.{WorkerError, validate_worker}
use nox_yard.YardUpdate.{
  Container, Replacement, dial, read_update, read_job, claim, start, force_remove, tag, rename,
  Engine, Connection, opened, closed, nothing, Site, Work, ◌>=>◌, give, check, call, look, transact,
  on_db, ask_store,
}
use nox_yard.YardUpdate.Checks.{is_running, validate_worker_container, replacement_config}
use nox_yard.YardUpdate.Worker.{
  wait_healthy, finish_update, Plan, replaced, site_of, tidied, Undo, also, noting, restore,
}
use nox_yard.Store.Types.{no_rows, job_changed, Tx, Job, Row}
use nox_yard.Store.Tables.{find_row}
use nox_yard.Store.Jobs.{claim_job}
use nox_yard.Store.SelfUpdate.{SelfUpdateJob, SelfUpdate, find_update}
use nox_yard.Prelude.{
  ◌==◌, ◌=ₛ◌, if◌then◌else◌, ◌++ₛ◌, trim_prefix, is_hex, Result, err, ok, ◌>>◌, String, len, Bool,
  true, false, ◌&&◌, not, Option, none, some, List, [], ◌∷◌,
}

abbrev pub adopted : String → Result String Container × Site → List String × Site
adopted old (err x, v) = ([], v)
adopted old (ok c, v) = ([], record v { new_id = if c.id =ₛ old then v.new_id else c.id })

unfoldable pub find_replacement : Engine → String → String → Undo
find_replacement o old name w = if w.new_id =ₛ "" then adopted old (look o name w) else ([], w)

unfoldable pub drop_replacement : Engine → Undo
drop_replacement o w =
    if w.new_id =ₛ ""
    then ([], w)
    else noting "remove replacement" (call o (force_remove w.new_id) w)

unfoldable pub restore_name : Engine → String → String → Container → Undo
restore_name o old name c w =
    if trim_prefix c.name "/" =ₛ name
    then ([], w)
    else noting "restore original name" (call o (rename old name) w)

abbrev pub restarted : Engine → String → Result String (Unit {0}) × Site → List String × Site
restarted o old (err x, w) = (("restart original: " ++ₛ x) ∷ [], w)
restarted o old (ok _, w) = noting "original healthcheck" (wait_healthy o o.polls old w)

unfoldable pub restart : Engine → String → Container → Undo
unfolding is_running wait_healthy
restart o old c w = if is_running c.state then ([], w) else restarted o old (call o (start old) w)

abbrev pub tag_again : Engine → Container → Undo
tag_again o c w = noting "restore previous latest tag" (call o (tag c.image) w)

unfoldable pub put_back : Engine → String → String → Container → Undo
unfolding restore_name restart
put_back o old name c = also (restore_name o old name c) (also (tag_again o c) (restart o old c))

abbrev pub put_back_shown :
    Engine → String → String → Result String Container × Site → List String × Site
put_back_shown o old name (err x, v) = (("inspect original: " ++ₛ x) ∷ [], v)
put_back_shown o old name (ok c, v) = put_back o old name c v

unfoldable pub restore_original : Engine → String → String → Undo
unfolding put_back
restore_original o old name w = put_back_shown o old name (look o old w)

abbrev pub restore_data : Engine → Undo
restore_data o w = noting "restore database" (restore o w)

-- rollback: the failures, none of which stops the next step.
unfoldable pub rollback : Engine → String → String → Undo
unfolding find_replacement drop_replacement restore restore_original
rollback o old name =
    also (find_replacement o old name)
      (also (drop_replacement o) (also (restore_data o) (restore_original o old name)))

-- strings.Join(failures, "; ")
abbrev pub join_failures : List String → String
join_failures [] = ""
join_failures (x ∷ []) = x
join_failures (x ∷ y ∷ ys) = x ++ₛ "; " ++ₛ join_failures (y ∷ ys)

abbrev pub is_clean : List String → Bool
is_clean [] = true
is_clean (x ∷ xs) = false

-- The deferred function after an error: the result names the failures of the rollback, and the
-- update is saved as failed unless there is no store.
abbrev pub with_failures : String → List String → String
with_failures cause [] = cause
with_failures cause (x ∷ xs) = cause ++ₛ "; rollback failed: " ++ₛ join_failures (x ∷ xs)

abbrev pub saved_failure :
    String → Result String (Unit {0}) × Site → Result String (Unit {0}) × Site
saved_failure cause (ok _, w) = (err cause, w)
saved_failure cause (err x, w) = (err (cause ++ₛ "; save update failure: " ++ₛ x), w)

abbrev pub is_nothing : Connection → Bool
is_nothing opened = false
is_nothing closed = false
is_nothing nothing = true

abbrev pub record_failure :
    Engine → Plan → String → List String × Site → Result String (Unit {0}) × Site
record_failure o p cause (failures, w) =
    if is_nothing w.connection
    then (err (with_failures cause failures), w)
    else saved_failure (with_failures cause failures) (
        finish_update o p.job.id "failed" (with_failures cause failures) (not (is_clean failures))
          (if is_clean failures then "restored" else "failed") w)

-- RunWorker from the deferred function on.
abbrev pub settled :
    Engine → Plan → Result String (Unit {0}) × Site → Result String (Unit {0}) × Site
settled o p (ok _, w) = (ok tt, tidied o p w)
settled o p (err cause, w) = record_failure o p cause (rollback o p.old_id p.name w)

unfoldable pub run_replacement : Engine → Plan → Work (Unit {0})
unfolding replaced rollback tidied
run_replacement o p w = settled o p (replaced o p w)

-- failBeforeReplacement
abbrev pub retold : String → Result String (Unit {0}) × Site → String × Site
retold cause (ok _, v) = (cause, v)
retold cause (err x, v) = (cause ++ₛ "; restore previous latest tag: " ++ₛ x, v)

abbrev pub refused_with :
    {A : Type 0} → String → Result String (Unit {0}) × Site → Result String A × Site
refused_with text (ok _, v) = (err text, v)
refused_with text (err x, v) = (err (text ++ₛ "; save update failure: " ++ₛ x), v)

abbrev pub save_refusal : {A : Type 0} → Engine → String → String × Site → Result String A × Site
save_refusal o id (text, v) = refused_with text (finish_update o id "failed" text false "" v)

unfoldable pub fail_before_replacement : {A : Type 0} → Engine → SelfUpdateJob → String → Work A
fail_before_replacement o job cause w =
    save_refusal o job.id (retold cause (call o (tag job.old_image_id) w))

-- The checks up to ClaimJob; their errors leave the job as it is, but for one of the client's.
unfoldable pub read_update_job : String → SelfUpdate → Tx SelfUpdateJob
unfolding find_update
read_update_job id s = found (find_update id s.updates)
  where
    found : Option SelfUpdateJob → Tx SelfUpdateJob
    found none = err no_rows
    found (some x) = ok x

unfoldable pub read_operation : String → SelfUpdate → Tx Job
unfolding find_row
read_operation id s = found (find_row id s.db.jobs)
  where
    found : Option Row → Tx Job
    found none = err job_changed
    found (some r) = ok r.job

abbrev pub dialled :
    Engine → String → Result String (Unit {0}) × Site → Result String (Unit {0}) × Site
dialled o id (ok _, w) = (ok tt, w)
dialled o id (err x, w) = (err x, site_of (finish_update o id "failed" x false "" w))

abbrev pub valid_worker : Engine → Result WorkerError (Unit {0}) → Work (Unit {0})
valid_worker o (ok _) w = (ok tt, w)
valid_worker o (err e) w = (err (o.complains e), w)

unfoldable pub claimed : Engine → String → SelfUpdateJob → Job → Work (SelfUpdateJob × String)
unfolding validate_worker claim_job
claimed o id job operation =
    (λ w. valid_worker o (validate_worker operation operation.owner (o.this_container w.trace)) w)
    >=> (λ _ w. transact o claim (on_db (claim_job (o.now w.trace) id operation.owner)) w)
    >=> λ _. give (job, operation.owner)

abbrev pub named_update : Engine → String → Work SelfUpdateJob
named_update o id = check (len id == 24 && is_hex id) "invalid self-update job ID" >=> λ _.
    ask_store o read_update (read_update_job id)

abbrev pub its_operation : Engine → String → SelfUpdateJob → Work Job
its_operation o id job =
    check (job.status =ₛ "updating") "self-update job is no longer active"
    >=> (λ _ w. dialled o id (call o dial w))
    >=> λ _. ask_store o read_job (read_operation id)

unfoldable pub admitted : Engine → String → Work (SelfUpdateJob × String)
unfolding read_update_job read_operation claimed
admitted o id = named_update o id >=> λ job. its_operation o id job >=> claimed o id job

-- The checks after ClaimJob, whose errors take the way of failBeforeReplacement.
abbrev pub planned :
    Engine → String → SelfUpdateJob × String → Container → Result String Replacement → Work Plan
planned o old_id (job, owner) c (err x) = fail_before_replacement o job x
planned o old_id (job, owner) c (ok options) = give (record {
  job = job;
  owner = owner;
  old_id = old_id;
  name = trim_prefix c.name "/";
  options = options;
})

abbrev pub checked :
    Engine
    → String
    → SelfUpdateJob × String
    → Result String Container × Site
    → Result String Plan × Site
checked o old_id (job, owner) (err x, w) = fail_before_replacement o job x w
checked o old_id (job, owner) (ok c, w) =
    planned o old_id (job, owner) c
      (validate_worker_container job old_id c >> replacement_config c job.target_image_id) w

unfoldable pub prepared : Engine → String → SelfUpdateJob × String → Work Plan
unfolding validate_worker_container replacement_config fail_before_replacement
prepared o old_id known w = checked o old_id known (look o old_id w)

-- RunWorker
unfoldable pub run_worker : Engine → String → String → Work (Unit {0})
unfolding admitted prepared run_replacement
run_worker o id old_id = admitted o id >=> prepared o old_id >=> run_replacement o
