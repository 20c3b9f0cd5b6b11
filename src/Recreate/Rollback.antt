-- ===== src/Recreate/Rollback.antt =====
-- recreate/worker.go: what a rollback has done when `fail` reports it as complete.
use nox_yard.Prelude.{
  ◌=ₛ◌, if◌then◌else◌, &&-true, every, backwards, Result, err, ok, ℕ, String, ◌≡◌, refl, subst,
  Bool, true, false, ◌&&◌, ◌||◌, List, [], ◌∷◌,
}
use nox_yard.Recreate.{
  Journal, retarget, Event, Engine, World, Stop, failing, leaving, ended, must, save_stage, each,
}
use nox_yard.Recreate.Steps.{remove_candidate, restore, rollback}
use nox_yard.Recreate.Worker.{outcome_of, settle}
use nox_yard.Recreate.Seeing.{Extends, Yields, Nothing, Yields-then, Yields-must}
use nox_yard.Recreate.Shown.{Yields-each}
use nox_yard.Recreate.Restored.{
  original_restored, candidate_removed, restored_Extends, gone_Extends, Yields-restore,
  Yields-remove_candidate,
}
use nox_yard.Recreate.Safety.{save_journal}

module _ (o : Engine) where
  -- The two loops of a rollback that went well.
  abbrev pub is_rolled_back : Journal → List Event → Bool
  is_rolled_back j t =
      every (candidate_removed o j.entries t) (backwards j.order)
      && every (original_restored o j.entries t) j.order

  Yields-rollback :
      (w : World) → Yields w (λ _ v. is_rolled_back w.journal v.trace ≡ true) (rollback o w)
  unfolding rollback
  Yields-rollback w =
      let j = w.journal in
      Yields-then w
        (λ _ v. every (λ i. candidate_removed o j.entries v.trace i) (backwards j.order) ≡ true) _
        (each (remove_candidate o) (backwards j.order) w) _
        (Yields-each o (remove_candidate o) j (λ i v. candidate_removed o j.entries v.trace i)
          (backwards j.order) w (gone_Extends o j.entries) (Yields-remove_candidate o j) refl)
        (λ _ v g p.
          Yields-then v (λ _ u. is_rolled_back j u.trace ≡ true) _ (each (restore o) j.order v) _
            (both_loops v p (each (restore o) j.order v) (
              Yields-each o (restore o) j (λ i u. original_restored o j.entries u.trace i) j.order v
                (restored_Extends o j.entries) (Yields-restore o j) g.same_journal))
            (λ _ u h q. last_call u q))
    where
      gone_later :
          (is : List ℕ) (v u : World)
          → Extends v u
          → every (candidate_removed o w.journal.entries v.trace) is ≡ true
          → every (candidate_removed o w.journal.entries u.trace) is ≡ true
      gone_later [] v u g h = refl
      gone_later (i ∷ is) v u g h =
          let (a, b) =
            &&-true (candidate_removed o w.journal.entries v.trace i)
              (every (candidate_removed o w.journal.entries v.trace) is) h in
          rw (gone_Extends o w.journal.entries i v u g a, gone_later is v u g b) refl

      restored_later :
          (is : List ℕ) (v u : World)
          → Extends v u
          → every (original_restored o w.journal.entries v.trace) is ≡ true
          → every (original_restored o w.journal.entries u.trace) is ≡ true
      restored_later [] v u g h = refl
      restored_later (i ∷ is) v u g h =
          let (a, b) =
            &&-true (original_restored o w.journal.entries v.trace i)
              (every (original_restored o w.journal.entries v.trace) is) h in
          rw (restored_Extends o w.journal.entries i v u g a, restored_later is v u g b) refl

      both_loops :
          (v : World)
          → every (candidate_removed o w.journal.entries v.trace) (backwards w.journal.order) ≡ true
          → (r : Result Stop (Unit {0}) × World)
          → Yields v
              (λ _ u.
                every (λ i. original_restored o w.journal.entries u.trace i) w.journal.order ≡ true)
              r
          → Yields v (λ _ u. is_rolled_back w.journal u.trace ≡ true) r
      both_loops v p (ok x, u) (g, q) =
          (g, rw (gone_later (backwards w.journal.order) v u g p, q) refl)
      both_loops v p (err x, u) h = tt

      last_call :
          (u : World)
          → is_rolled_back w.journal u.trace ≡ true
          → Yields u
              (λ _ x. is_rolled_back w.journal x.trace ≡ true)
              (must o (retarget w.journal.request_id []) u)
      last_call u q = after_call _ (Yields-must o (retarget w.journal.request_id []) u)
        where
          after_call :
              (r : Result Stop (Unit {0}) × World)
              → Yields u Nothing r
              → Yields u (λ _ x. is_rolled_back w.journal x.trace ≡ true) r
          after_call (ok y, x) (g, k) =
              let (a, b) =
                &&-true
                  (every (candidate_removed o w.journal.entries u.trace)
                    (backwards w.journal.order))
                  (every (original_restored o w.journal.entries u.trace) w.journal.order) q in
              (
                g,
                rw
                    (
                      gone_later (backwards w.journal.order) u x g a,
                      restored_later w.journal.order u x g b,
                    )
                    refl,
              )
          after_call (err y, x) k = tt

  abbrev pub reports_rollback : Result Stop (String × String) → Bool
  reports_rollback (ok (outcome, rolled)) = outcome =ₛ "rolled_back"
  reports_rollback (err x) = false

-- When `fail` reports the outcome rolled_back, then for every entry in the order of the journal its
-- replacement, if the journal names one, has been removed or Docker answered that it does not exist;
-- and if the journal records its original as touched, Docker has shown of that a state that `ready`
-- accepts, and the image and settings from before.
pub rolled_back_restores :
    (o : Engine) (is_unsure : Bool) (w : World)
    → reports_rollback o (settle o is_unsure w).0 ≡ true
    → is_rolled_back o w.journal (settle o is_unsure w).1.trace ≡ true
unfolding settle
rolled_back_restores o is_unsure w h =
    chosen (o.expires w.trace || is_unsure) w.journal.mutated (outcome_of o (rollback o saved)) h
      (reported saved _ (save_journal o "rolling_back" w) (Yields-rollback o saved))
  where
    saved : World
    saved = (save_stage o "rolling_back" w).1

    reported :
        (v : World) (r : Result Stop (Unit {0}) × World)
        → v.journal ≡ w.journal
        → Yields v (λ _ u. is_rolled_back o v.journal u.trace ≡ true) r
        → reports_rollback o (outcome_of o r).0 ≡ true
        → is_rolled_back o w.journal (outcome_of o r).1.trace ≡ true
    reported v (ok x, u) q (g, k) e = subst (λ j. is_rolled_back o j u.trace ≡ true) q k
    reported v (err (failing b), u) q k e = cc
    reported v (err leaving, u) q k e = cc
    reported v (err ended, u) q k e = cc

    chosen :
        (a m : Bool) (y : Result Stop (String × String) × World)
        → reports_rollback o
            (if a
              then (ok ("recovery_required", "not_performed"), w)
              else if m
              then y
              else (ok ("failed", "not_needed"), w)).0
          ≡ true
        → (reports_rollback o y.0 ≡ true → is_rolled_back o w.journal y.1.trace ≡ true)
        → is_rolled_back o w.journal
            (if a
              then (ok ("recovery_required", "not_performed"), w)
              else if m
              then y
              else (ok ("failed", "not_needed"), w)).1.trace
          ≡ true
    chosen true m y e k = cc
    chosen false true y e k = k e
    chosen false false y e k = cc
