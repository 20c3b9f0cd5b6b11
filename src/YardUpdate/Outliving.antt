-- ===== src/YardUpdate/Outliving.antt =====
-- selfupdate/worker.go: RunWorker as a whole and its original container.

use nox_yard.YardUpdate.{Event, Engine, Site}
use nox_yard.YardUpdate.Worker.{Plan, replaced, site_of, tidied}
use nox_yard.YardUpdate.Running.{
  rollback, is_clean, with_failures, saved_failure, is_nothing, record_failure, settled,
  run_replacement, run_worker,
}
use nox_yard.YardUpdate.Trace.{is_committed, is_guarded}
use nox_yard.YardUpdate.Guarding.{IsGuarded, anything, anything-Stays, Nothing, Keeps-then}
use nox_yard.YardUpdate.Undoing.{Safe, Goes, finish_update-Safe, Undoes, rollback-Undoes}
use nox_yard.YardUpdate.Guarded.{with_kept, Fresh, Committed, replaced-Keeps, tidied-Kept}
use nox_yard.YardUpdate.Preparing.{Keeping, Aims, prepared-Keeps, admitted-Keeps}
use nox_yard.Prelude.{
  ◌=ₛ◌, if◌then◌else◌, Bool-cases, Result, err, ok, is_ok, String, ◌≡◌, refl, sym, subst, inl, inr,
  true, false, not, List, [], arith,
}

module _ (o : Engine) (old : String) where
  saved_failure-Keeps :
      (cause : String) (r : Result String (Unit {0}) × Site)
      → Goes o old r
      → Keeping o old (Committed o old) (saved_failure cause r)
  saved_failure-Keeps cause (ok _, v) (g, _) = g
  saved_failure-Keeps cause (err x, v) g = g

  record_failure-Keeps :
      (p : Plan) (cause : String) (r : List String × Site)
      → Undoes o old r
      → Keeping o old (Committed o old) (record_failure o p cause r)
  record_failure-Keeps p cause (failures, v) g = elim (Bool-cases (is_nothing v.connection)) [
    | inl q ↦ rw (q) g
    | inr q ↦ rw (q) (
        saved_failure-Keeps (with_failures cause failures) _ (
          finish_update-Safe o old p.job.id (with_failures cause failures)
            (if is_clean failures then "restored" else "failed") (not (is_clean failures)) v g))
  ]

  settled-Keeps :
      (p : Plan) (r : Result String (Unit {0}) × Site)
      → p.old_id ≡ old
      → Keeping o old (Committed o old) r
      → Keeping o old (Committed o old) (settled o p r)
  settled-Keeps p (ok _, v) e (g, c) =
      let k =
        subst (λ x. IsGuarded o x is_committed (tidied o p v)) e
          (tidied-Kept o p.old_id p v (
            subst (λ x. IsGuarded o x is_committed v) (sym e)
              (with_kept o old is_committed v g c))) in
      (record { guarded = k.guarded; other = k.other; kept = refl }, k.kept)
  settled-Keeps p (err cause, v) e g =
      record_failure-Keeps p cause (rollback o p.old_id p.name v)
        (rw (e) (rollback-Undoes o old p.name v g))

  run_replacement-Keeps :
      (p : Plan) (w : Site)
      → p.old_id ≡ old
      → Fresh o old
      → Safe o old w
      → Keeping o old (Committed o old) (run_replacement o p w)
  unfolding run_replacement
  run_replacement-Keeps p w e fresh h =
      settled-Keeps p (replaced o p w) e (replaced-Keeps o old p w fresh h)

  run_worker-Keeps :
      (id : String) (w : Site)
      → Fresh o old
      → Safe o old w
      → Keeping o old (Committed o old) (run_worker o id old w)
  unfolding run_worker
  run_worker-Keeps id w fresh h =
      Keeps-then o old anything anything-Stays (Aims o old) _ _ _
        (Keeps-then o old anything anything-Stays Nothing _ _ _ (admitted-Keeps o old id w h)
          (λ known v g _. prepared-Keeps o old known v g))
        (λ p v g e. run_replacement-Keeps p v e fresh g)

  outcome :
      (r : Result String (Unit {0}) × Site)
      → Keeping o old (Committed o old) r
      → (is_guarded o old (site_of r).trace ≡ true)
        × (is_ok r.0 ≡ true → is_committed (site_of r).trace ≡ true)
  outcome (ok _, v) (g, c) = (g.guarded, λ _. c)
  outcome (err x, v) g = (g.guarded, λ k. ground arith)

-- Whatever Docker, SQLite and the files answer, if no created container has the id of the original:
-- RunWorker, started with an empty trace and no replacement, asks for the removal of the original only
-- after the transaction that ends the update as succeeded was accepted; it asks for that transaction
-- only after a container that it created itself was seen running and healthy; and it returns without an
-- error only if that transaction was accepted.
pub original_outlives_update :
    (o : Engine) (id old : String) (w : Site)
    → w.trace ≡ []
    → w.new_id ≡ ""
    → ("" =ₛ old) ≡ false
    → ((t : List Event) (x : String) → o.creates t ≡ ok x → (x =ₛ old) ≡ false)
    → (is_guarded o old (site_of (run_worker o id old w)).trace ≡ true)
      × (is_ok (run_worker o id old w).0 ≡ true
          → is_committed (site_of (run_worker o id old w)).trace ≡ true)
unfolding is_guarded
original_outlives_update o id old w t n named fresh = outcome o old (run_worker o id old w) (
    run_worker-Keeps o old id w fresh
      (record { guarded = rw (t) refl; other = rw (n) named; kept = refl }))
