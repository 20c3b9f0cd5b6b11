-- ===== src/Recreate/Steps.antt =====
-- recreate/worker.go: the steps of the worker and of its rollback.
use nox_yard.Prelude.{
  ◌==◌, ◌=ₛ◌, if◌then◌else◌, exists, backwards, ◌++ₛ◌, trim_prefix, Result, err, ok, ℕ, zero, suc,
  String, Bool, true, false, ◌&&◌, ◌||◌, not, Option, none, some, List, [], ◌∷◌,
}
use nox_yard.Recreate.{
  Entry, Failure, not_found, timed_out, refused, Call, retarget, inspect, create, stop, start,
  remove, rename, disconnect, connect, asked, created, Inspection, Engine, World, Stop, failing,
  Work, ◌>=>◌, done, stopped, when, log_event, is_uncertain, request, must, query, entry_at, update,
  save_stage, each,
}

-- What one poll of `ready` finds.
pub data Readiness : Type 0 where
  ready_now broken wait_more : Readiness

unfoldable pub readiness : Entry → Inspection → Readiness
readiness e i =
    if not i.has_state || i.unstable
    then broken
    else if e.one_shot
    then (if i.exited then (if i.exit_code == 0 then ready_now else broken) else wait_more)
    else if not e.running
    then (if i.running then broken else ready_now)
    else if not i.running || i.health =ₛ "unhealthy"
    then broken
    else if (i.health =ₛ "" || i.health =ₛ "healthy") && i.steady
    then ready_now
    else wait_more

abbrev pub is_text_in : String → List String → Bool
is_text_in s xs = exists (λ x. x =ₛ s) xs

module _ (o : Engine) where
  -- ContainerInspect in ready, verify and rollback. The first two end the worker by fail without a
  -- cause, so it rolls back after a time-out too; of a failed rollback only the failure is read.
  abbrev pub look : String → Work Inspection
  look id = query (λ f. failing false) (inspect id) (o.inspects id)

  abbrev pub judged : Work (Unit {0}) → Readiness → Work (Unit {0})
  judged again ready_now = done
  judged again broken = stopped (failing false)
  judged again wait_more = again

  -- ready, with fuel for the polls that fit before its deadline.
  unfoldable pub ready : ℕ → Entry → String → Work (Unit {0})
  unfolding readiness
  ready zero e id = stopped (failing false)
  ready (suc polls) e id =
      let again = ready polls e id in look id >=> λ i. judged again (readiness e i)

  -- The body of the loop that stops and keeps the originals.
  unfoldable pub retain : ℕ → Work (Unit {0})
  retain i = entry_at i >=> λ e. update i (λ x. record x { touched = true }) >=> λ _.
      save_stage o "replacing" >=> λ _. when e.running (must o (stop e.id)) >=> λ _.
      must o (rename e.id e.backup) >=> λ _.
      each (λ name. when (not (name =ₛ "none")) (must o (disconnect name e.id))) e.networks

  abbrev pub entered : Call → World → Result Failure String → Result Stop String × World
  entered c w (err f) = (err (failing (is_uncertain f)), log_event (asked c false) w)
  entered c w (ok id) = (ok id, log_event (created id) w)

  abbrev pub new_container : String → Entry → Work String
  new_container root e w = entered (create e.id root) w (o.creates w.trace)

  abbrev pub reserve : String → Work (Unit {0})
  reserve id w = must o (retarget w.journal.target_id (("container:" ++ₛ id) ∷ [])) w

  -- The body of the loop that creates and starts the replacements.
  unfoldable pub replace : String → ℕ → Work (Unit {0})
  unfolding ready
  replace root i = entry_at i >=> λ e. new_container root e >=> λ id.
      update i (λ x. record x { new_id = id }) >=> λ _. save_stage o "replacing" >=> λ _.
      reserve id >=> λ _.
      when (e.running || e.one_shot) (must o (start id)) >=> λ _. ready o.polls e id

  -- The comparisons of verify.
  abbrev pub is_same_original : Entry → Inspection → Bool
  is_same_original e old =
      old.name =ₛ ("/" ++ₛ e.backup)
      && (old.has_state
          && not old.running
          && (old.image =ₛ e.image && o.is_retained old.settings e.settings))

  abbrev pub is_same_replacement : String → Entry → Inspection → Bool
  is_same_replacement root e new =
      new.image =ₛ e.target_image
      && (new.name =ₛ e.name && o.is_created new.settings (o.creation e root))

  -- The body of verify's loop.
  unfoldable pub verify_entry : String → ℕ → Work (Unit {0})
  unfolding ready
  verify_entry root i = entry_at i >=> λ e. when (e.new_id =ₛ "") (stopped (failing false)) >=> λ _.
      look e.id >=> λ old. when (not (is_same_original e old)) (stopped (failing false)) >=> λ _.
      look e.new_id >=> λ new.
      when (not (is_same_replacement root e new)) (stopped (failing false)) >=> λ _.
      ready o.polls e e.new_id

  -- The two loops of rollback.
  abbrev pub forgiven : Option Failure × World → Result Stop (Unit {0}) × World
  forgiven (none, w) = (ok tt, w)
  forgiven (some not_found, w) = (ok tt, w)
  forgiven (some timed_out, w) = (err (failing true), w)
  forgiven (some refused, w) = (err (failing false), w)

  unfoldable pub remove_candidate : ℕ → Work (Unit {0})
  remove_candidate i = entry_at i >=> λ e.
      when (not (e.new_id =ₛ "")) (λ w. forgiven (request (remove e.new_id) o w))

  unfoldable pub restore_name : Entry → Inspection → Work (Unit {0})
  restore_name e i = when (not (i.name =ₛ e.name)) (
      when (not (i.name =ₛ ("/" ++ₛ e.backup))) (stopped (failing false)) >=> λ _.
      must o (rename e.id (trim_prefix e.name "/")))

  unfoldable pub restore_touched : Entry → Work (Unit {0})
  unfolding restore_name ready
  restore_touched e = look e.id >=> λ i. restore_name e i >=> λ _.
      each (λ name. when (not (is_text_in name i.networks)) (must o (connect name e.id))) e.networks
      >=> λ _. when (e.running && not i.running) (must o (start e.id)) >=> λ _.
          when (not e.running && i.running) (stopped (failing false)) >=> λ _.
          ready o.polls e e.id >=> λ _. look e.id >=> λ a.
          when (not (a.image =ₛ e.image && o.is_restored a.settings e.settings))
            (stopped (failing false))

  unfoldable pub restore : ℕ → Work (Unit {0})
  unfolding restore_touched
  restore i = entry_at i >=> λ e. when e.touched (restore_touched e)

  unfoldable pub rollback : Work (Unit {0})
  unfolding remove_candidate restore
  rollback w =
      (each remove_candidate (backwards w.journal.order) >=> λ _.
      each restore w.journal.order >=> λ _. must o (retarget w.journal.request_id []))
        w
