-- ===== src/Recreate/Worker.antt =====
-- recreate/worker.go, automatic.go: execute, its rollback on a failure, Reconcile and Cleanup.

use nox_yard.Prelude.{
  ◌=ₛ◌, if◌then◌else◌, exists, every, backwards, ◌++ₛ◌, has_prefix, label, Result, err, ok, ℕ, suc,
  String, Bool, true, false, ◌&&◌, ◌||◌, not, List, [], ◌∷◌,
}
use nox_yard.Recreate.{
  Entry, Journal, Failure, retarget, finish, pull, inspect_image, save_candidate, schedule_enabled,
  take_snapshot, Image, Engine, World, Stop, failing, leaving, ended, Work, ◌>=>◌, give, stopped,
  when, is_uncertain, must, store_must, query, entry_at, update, save_stage, each,
}
use nox_yard.Recreate.Steps.{is_text_in, retain, replace, verify_entry, rollback}
use nox_yard.Lifecycle.{is_protected}

-- automaticRuntime
unfoldable pub is_untouchable : String → Entry → Bool
unfolding is_protected
is_untouchable hostname e =
    is_protected hostname e.id e.labels || label "com.docker.compose.service" e.labels =ₛ "nox-yard"

unfoldable pub automatic_runtime : String → List Entry → Bool
unfolding is_untouchable
automatic_runtime hostname es =
    every (λ e. not (is_untouchable hostname e) && (e.running || e.one_shot)) es
    && exists (λ e. e.running) es

-- The positions of a list.
abbrev pub positions : {A : Type 0} → ℕ → List A → List ℕ
positions n [] = []
positions n (a ∷ rest) = n ∷ positions (suc n) rest

-- root of execute: the request, or the label of a single container.
unfoldable pub root_of : Journal → String
root_of j = single j.entries
  where
    single : List Entry → String
    single [] = j.request_id
    single (e ∷ []) =
        let target = label "nox-yard.target" e.labels in
        if target =ₛ "" then j.request_id else target
    single (e ∷ d ∷ es) = j.request_id

module _ (o : Engine) where
  abbrev pub leave : Failure → Stop
  leave f = leaving

  abbrev pub fails : Failure → Stop
  fails f = failing (is_uncertain f)

  -- A fresh snapshot must have the fingerprint that the request confirmed.
  unfoldable pub check_fingerprint : Work (Unit {0})
  check_fingerprint w =
      (query fails take_snapshot o.fingerprints >=> λ fresh.
      when (not (fresh =ₛ w.journal.fingerprint)) (stopped (failing false)))
        w

  -- One entry of the pulls of an update, or of the local images of a recreation: the images pulled so
  -- far, and whether an image declares volumes that the container does not have.
  abbrev pub Prepared : Type 0
  Prepared = List String × Bool

  abbrev pub pull_once : Bool → Entry → List String → Work (Unit {0})
  pull_once is_update e pulled =
      when (is_update && not (is_text_in (e.reference ++ₛ "|" ++ₛ e.platform) pulled))
        (must o (pull e.reference e.platform))

  abbrev pub declares_more : Entry → Image → Bool
  declares_more e image = exists (λ v. not (is_text_in v e.volumes)) image.volumes

  abbrev pub prepared : List String → Bool → Entry → Image → Prepared
  prepared pulled more e image =
      ((e.reference ++ₛ "|" ++ₛ e.platform) ∷ pulled, more || declares_more e image)

  unfoldable pub prepare : Bool → Prepared → ℕ → Work Prepared
  prepare is_update (pulled, more) i = entry_at i >=> λ e. pull_once is_update e pulled >=> λ _.
      query fails (inspect_image e.reference) (o.images e.reference) >=> λ image.
      when (not (image.platform =ₛ e.platform)) (stopped (failing false)) >=> λ _.
      update i (λ x. record x { target_image = image.id }) >=> λ _.
      give (prepared pulled more e image)

  unfoldable pub prepare_all : Bool → Prepared → List ℕ → Work Prepared
  unfolding prepare
  prepare_all is_update p [] = give p
  prepare_all is_update p (i ∷ is) = prepare is_update p i >=> λ q. prepare_all is_update q is

  -- A return with FinishJob, whatever it answers.
  unfoldable pub finish_with : String → String → String → Work (Unit {0})
  finish_with status outcome rolled =
      store_must o (finish status outcome rolled) >=> λ _. stopped ended

  unfoldable pub skip_unless : Bool → Work (Unit {0})
  unfolding finish_with
  skip_unless enabled w =
      when (not (enabled && automatic_runtime o.hostname w.journal.entries))
        (finish_with "succeeded" "skipped" "") w

  -- The candidate images are recorded; a reason not to use them ends the job.
  abbrev pub reason_for : Work String
  reason_for = query leave (save_candidate) o.candidates

  unfoldable pub end_for_reason : Bool → String → Work (Unit {0})
  unfolding finish_with
  end_for_reason is_saved reason =
      when (not (reason =ₛ ""))
        (when is_saved (save_stage o "committing") >=> λ _. finish_with "succeeded" "skipped" "")

  abbrev pub is_unchanged : List Entry → Bool
  is_unchanged es = every (λ e. e.target_image =ₛ e.image) es

  unfoldable pub end_if_unchanged : Bool → Work (Unit {0})
  unfolding finish_with
  end_if_unchanged is_update w =
      when (is_update && is_unchanged w.journal.entries)
        (save_stage o "committing" >=> λ _. finish_with "succeeded" "unchanged" "") w

  abbrev pub mark_mutated : Work (Unit {0})
  mark_mutated w = (ok tt, record w { journal = record w.journal { mutated = true } })

  -- What execute does before it touches a container.
  unfoldable pub assess : Work (Unit {0})
  unfolding check_fingerprint prepare_all skip_unless end_for_reason end_if_unchanged
  assess w =
      let j = w.journal in
      let is_update = j.operation =ₛ "update" in
      (save_stage o "preparing" >=> λ _. check_fingerprint >=> λ _.
      when j.scheduled (query leave schedule_enabled o.enables >=> λ enabled. skip_unless enabled)
      >=> λ _. when is_update (save_stage o "pulling") >=> λ _.
          prepare_all is_update ([], false) (positions 0 j.entries) >=> λ p.
          check_fingerprint >=> λ _. reason_for >=> λ reason. end_for_reason true reason >=> λ _.
          when p.1 (stopped (failing false)) >=> λ _. end_if_unchanged is_update >=> λ _.
          when j.scheduled (reason_for >=> λ again. end_for_reason false again))
        w

  -- complete
  abbrev pub final_target : Journal → String
  final_target j = chosen (has_prefix j.request_id "container:") j.entries
    where
      chosen : Bool → List Entry → String
      chosen false es = j.request_id
      chosen true [] = j.request_id
      chosen true (e ∷ es) = "container:" ++ₛ e.new_id

  unfoldable pub complete : String → Work (Unit {0})
  unfolding finish_with
  complete outcome w =
      (store_must o (retarget (final_target w.journal) []) >=> λ _.
      save_stage o "committing" >=> λ _. finish_with "succeeded" outcome "")
        w

  -- The replacement itself.
  unfoldable pub mutate : Work (Unit {0})
  unfolding retain replace verify_entry root_of complete
  mutate w =
      (mark_mutated >=> λ _. save_stage o "replacing" >=> λ _.
      each (retain o) (backwards w.journal.order) >=> λ _.
      each (replace o (root_of w.journal)) w.journal.order >=> λ _.
      save_stage o "verifying" >=> λ _.
      each (verify_entry o (root_of w.journal)) (positions 0 w.journal.entries) >=> λ _.
      complete "verified")
        w

  -- The function `fail` of execute: the outcome, with a rollback if a container may be touched.
  abbrev pub outcome_of : Result Stop (Unit {0}) × World → Result Stop (String × String) × World
  outcome_of (ok u, w) = (ok ("rolled_back", "restored"), w)
  outcome_of (err (failing u), w) = (ok ("recovery_required", "failed"), w)
  outcome_of (err leaving, w) = (err leaving, w)
  outcome_of (err ended, w) = (err ended, w)

  unfoldable pub settle : Bool → Work (String × String)
  unfolding rollback
  settle is_unsure w =
      if o.expires w.trace || is_unsure
      then (ok ("recovery_required", "not_performed"), w)
      else if w.journal.mutated
      then outcome_of (rollback o (save_stage o "rolling_back" w).1)
      else (ok ("failed", "not_needed"), w)

  unfoldable pub conclude : String × String → Work (Unit {0})
  unfolding finish_with
  conclude (outcome, rolled) =
      save_stage o "committing" >=> λ _. finish_with "failed" outcome rolled

  unfoldable pub handle : Result Stop (Unit {0}) × World → World
  unfolding settle conclude
  handle (ok u, w) = w
  handle (err leaving, w) = w
  handle (err ended, w) = w
  handle (err (failing is_unsure), w) = ((settle is_unsure >=> conclude) w).1

  -- execute; a journal without entries is refused before anything is saved.
  unfoldable pub execute_entries : List Entry → World → World
  unfolding assess mutate handle
  execute_entries [] w = w
  execute_entries (e ∷ es) w = handle ((assess >=> λ _. mutate) w)

  unfoldable pub execute : World → World
  unfolding execute_entries
  execute w = execute_entries w.journal.entries w
