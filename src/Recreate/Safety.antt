-- ===== src/Recreate/Safety.antt =====
-- recreate/worker.go: what a run of the worker never asks.
use nox_yard.Prelude.{
  ◌=ₛ◌, if◌then◌else◌, is_some, every, Result, err, ok, String, ◌≡◌, refl, ap, ◌∙◌, Bool, true,
  false, ◌&&◌, ◌||◌, not, Option, none, some, List, [], ◌∷◌, arith,
}
use nox_yard.Recreate.{
  Entry, Journal, Failure, save, asked, Engine, World, Stop, failing, leaving, ended, and_then,
  log_event, ruled, save_stage,
}
use nox_yard.Recreate.Steps.{rollback}
use nox_yard.Recreate.Worker.{
  execute_entries, finish_with, assess, mutate, outcome_of, settle, conclude, handle, execute,
}
use nox_yard.Recreate.Trace.{is_safe, is_known, IsSound, log-Grew}
use nox_yard.Recreate.Keeping.{Meets, Always, Meets-then, plain-Fits, asked-IsSound}
use nox_yard.Recreate.Restoring.{Meets-rollback}
use nox_yard.Recreate.Assessing.{Honest, finish_with-Meets}
use nox_yard.Recreate.Executing.{assess-Meets, mutate-Meets}

module _ (o : Engine) where
  -- A save whose error is ignored.
  saved-IsSound : (stage : String) (w : World) → IsSound w → IsSound (save_stage o stage w).1
  saved-IsSound stage w h = answered (o.answers (save stage w.journal) w.trace)
    where
      answered :
          (a : Option Failure)
          → IsSound
              (ruled
                (λ f. leaving)
                (a, log_event (asked (save stage w.journal) (not (is_some a))) w)).1
      answered none = asked-IsSound (save stage w.journal) true w (plain-Fits _ w refl refl refl) h
      answered (some f) =
          asked-IsSound (save stage w.journal) false w (plain-Fits _ w refl refl refl) h

  pub save_journal : (stage : String) (w : World) → (save_stage o stage w).1.journal ≡ w.journal
  save_journal stage w = answered (o.answers (save stage w.journal) w.trace)
    where
      answered :
          (a : Option Failure)
          → (ruled
              (λ f. leaving)
              (a, log_event (asked (save stage w.journal) (not (is_some a))) w)).1.journal
            ≡ w.journal
      answered none = refl
      answered (some f) = refl

  -- How `fail` settles: in a sound state, whose trace bears out the report.
  abbrev Settled : Result Stop (String × String) × World → Type 0
  Settled (ok r, w) = IsSound w × Honest r.1 w
  Settled (err (failing u), w) = IsSound w
  Settled (err leaving, w) = is_safe w.trace ≡ true
  Settled (err ended, w) = is_safe w.trace ≡ true

  Settled-outcome_of :
      (v : World) (r : Result Stop (Unit {0}) × World) → Meets v Always r → Settled (outcome_of o r)
  Settled-outcome_of v (ok u, w) (h, g, q) = (h, refl)
  Settled-outcome_of v (err (failing u), w) h = (h, refl)
  Settled-outcome_of v (err leaving, w) h = h
  Settled-outcome_of v (err ended, w) h = h

  Settled-if :
      (a m : Bool) (x y z : Result Stop (String × String) × World)
      → Settled x
      → (m ≡ true → Settled y)
      → (m ≡ false → Settled z)
      → Settled (if a then x else if m then y else z)
  Settled-if true m x y z h k l = h
  Settled-if false true x y z h k l = k refl
  Settled-if false false x y z h k l = l refl

  Settled-settle : (u : Bool) (w : World) → IsSound w → Settled (settle o u w)
  unfolding settle
  Settled-settle u w h =
      let v = (save_stage o "rolling_back" w).1 in
      Settled-if (o.expires w.trace || u) w.journal.mutated _ _ _ (h, refl)
        (λ m. Settled-outcome_of v (rollback o v) (
          Meets-rollback o v (saved-IsSound "rolling_back" w h)
            (ap (λ j. j.mutated) (save_journal "rolling_back" w) ∙ m)))
        (λ m. (h, untouched m h.clean))
    where
      untouched : {b c : Bool} → b ≡ false → (b || c) ≡ true → c ≡ true
      untouched q k = ground arith

  abbrev Safe : World → Type 0
  Safe w = is_safe w.trace ≡ true

  Safe-Meets : (v : World) (r : Result Stop (Unit {0}) × World) → Meets v Always r → Safe r.1
  Safe-Meets v (ok u, w) (h, g, q) = h.safe
  Safe-Meets v (err (failing u), w) h = h.safe
  Safe-Meets v (err leaving, w) h = h
  Safe-Meets v (err ended, w) h = h

  saved_Honest :
      (rolled stage : String) (w : World)
      → IsSound w
      → Honest rolled w
      → Meets w (λ u. Honest rolled) (save_stage o stage w)
  saved_Honest rolled stage w h p = answered (o.answers (save stage w.journal) w.trace)
    where
      answered :
          (a : Option Failure)
          → Meets w
              (λ u. Honest rolled)
              (ruled
                (λ f. leaving)
                (a, log_event (asked (save stage w.journal) (not (is_some a))) w))
      answered none = (
        asked-IsSound (save stage w.journal) true w (plain-Fits _ w refl refl refl) h,
        log-Grew (asked (save stage w.journal) true) w,
        p,
      )
      answered (some f) =
          (asked-IsSound (save stage w.journal) false w (plain-Fits _ w refl refl refl) h).safe

  Safe-conclude :
      (r : Result Stop (String × String) × World) → Settled r → Safe (and_then (conclude o) r).1
  unfolding conclude
  Safe-conclude (ok (outcome, rolled), w) (h, p) = Safe-Meets w _ (
      Meets-then w (λ u. Honest rolled) Always (save_stage o "committing" w)
        (λ _. finish_with o "failed" outcome rolled) (saved_Honest rolled "committing" w h p)
        (λ _ v j _ q. finish_with-Meets o "failed" outcome rolled v j q))
  Safe-conclude (err (failing u), w) h = h.safe
  Safe-conclude (err leaving, w) h = h
  Safe-conclude (err ended, w) h = h

  handled-Safe :
      (v : World) (r : Result Stop (Unit {0}) × World) → Meets v Always r → Safe (handle o r)
  unfolding handle
  handled-Safe v (ok u, w) (h, g, q) = h.safe
  handled-Safe v (err leaving, w) h = h
  handled-Safe v (err ended, w) h = h
  handled-Safe v (err (failing u), w) h = Safe-conclude (settle o u w) (Settled-settle u w h)

-- The journal of Submit: nothing touched, nothing created.
abbrev pub is_fresh : Journal → Bool
is_fresh j = every (λ e. not e.touched && e.new_id =ₛ "") j.entries

fresh_known :
    (es : List Entry)
    → every (λ e. not e.touched && e.new_id =ₛ "") es ≡ true
    → every (is_known []) es ≡ true
fresh_known [] h = refl
fresh_known (e ∷ es) h = ground (arith, fresh_known es)

-- Whatever Docker, the store and the clock answer, the worker on a fresh journal asks for a change of
-- an original (its stop, start, name or networks) only after a save was accepted that records it as
-- touched, removes only containers that it created itself, reports a rollback as not needed only if it
-- has asked for no change of a container, and asks nothing after FinishJob.
pub worker_asks_safely :
    (o : Engine) (j : Journal)
    → is_fresh j ≡ true
    → is_safe (execute o (record { trace = []; journal = j })).trace ≡ true
unfolding execute
worker_asks_safely o j f = ran_safe j.entries
  where
    start : World
    start = record { trace = []; journal = j }

    sound : IsSound start
    sound = record {
      safe = unfold is_safe in refl;
      unfinished = refl;
      known = fresh_known j.entries f;
      clean = ground arith;
    }

    ran_safe : (es : List Entry) → is_safe (execute_entries o es start).trace ≡ true
    ran_safe [] = unfold execute_entries is_safe in refl
    ran_safe (e ∷ es) =
        unfold execute_entries in
        handled-Safe o start _ (
          Meets-then start Always Always (assess o start) (λ _. mutate o)
            (assess-Meets o start sound) (λ _ v k _ _. mutate-Meets o v k))
