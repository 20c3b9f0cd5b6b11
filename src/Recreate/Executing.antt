-- ===== src/Recreate/Executing.antt =====
-- recreate/worker.go: the main path of execute keeps the state sound.
use nox_yard.Prelude.{◌=ₛ◌, backwards, String, refl, Bool, true, false, []}
use nox_yard.Recreate.{
  retarget, schedule_enabled, Engine, World, failing, ◌>=>◌, stopped, when, store_must, query,
  save_stage, each,
}
use nox_yard.Recreate.Steps.{retain, replace, verify_entry}
use nox_yard.Recreate.Worker.{
  positions, root_of, leave, check_fingerprint, Prepared, prepare_all, skip_unless, reason_for,
  end_for_reason, end_if_unchanged, mark_mutated, assess, final_target, complete, mutate,
}
use nox_yard.Recreate.Trace.{IsSound}
use nox_yard.Recreate.Keeping.{
  Meets, Always, Meets-then, Meets-when, plain-Fits, Meets-store_must, Meets-query, Meets-each,
}
use nox_yard.Recreate.Replacing.{Meets-save_stage, Meets-retain}
use nox_yard.Recreate.Starting.{Meets-replace, Meets-verify_entry}
use nox_yard.Recreate.Restoring.{Meets-guard, IsMutated}
use nox_yard.Recreate.Assessing.{
  finish_with-Meets, fails_leave, check_fingerprint-Meets, Meets-prepare_all, skip_unless-Meets,
  reason_for-Meets, end_for_reason-Meets, end_if_unchanged-Meets,
}

module _ (o : Engine) where
  enabled-Meets :
      (w : World)
      → IsSound w
      → Meets w Always
          ((query (leave o) schedule_enabled o.enables >=> λ enabled. skip_unless o enabled) w)
  enabled-Meets w h =
      Meets-then w Always Always (query (leave o) schedule_enabled o.enables w) _
        (Meets-query (leave o) schedule_enabled o.enables w (fails_leave o)
          (plain-Fits schedule_enabled w refl refl refl) h)
        (λ b v j _ _. skip_unless-Meets o b v j)

  again-Meets :
      (w : World)
      → IsSound w
      → Meets w Always ((reason_for o >=> λ again. end_for_reason o false again) w)
  again-Meets w h =
      Meets-then w Always Always (reason_for o w) _ (reason_for-Meets o w h)
        (λ r v j _ _. end_for_reason-Meets o false r v j)

  pub assess-Meets : (w : World) → IsSound w → Meets w Always (assess o w)
  unfolding assess
  assess-Meets w h =
      let is_update = w.journal.operation =ₛ "update" in
      Meets-then w Always Always (save_stage o "preparing" w) _ (Meets-save_stage o "preparing" w h)
        (λ _ v j _ _.
          Meets-then v Always Always (check_fingerprint o v) _ (check_fingerprint-Meets o v j)
            (λ _ u j _ _.
              Meets-then u Always Always (when w.journal.scheduled _ u) _
                (Meets-when w.journal.scheduled _ u j (λ _. enabled-Meets u j))
                (λ _ x j _ _.
                  Meets-then x Always Always (when is_update (save_stage o "pulling") x) _
                    (Meets-when is_update (save_stage o "pulling") x j
                      (λ _. Meets-save_stage o "pulling" x j))
                    (λ _ y j _ _.
                      Meets-then y Always Always
                        (prepare_all o is_update ([], false) (positions 0 w.journal.entries) y) _
                        (Meets-prepare_all o is_update ([], false) (positions 0 w.journal.entries) y
                          j)
                        (λ p z j _ _. chosen p is_update z j)))))
    where
      chosen :
          (p : Prepared o) (is_update : Bool) (z : World)
          → IsSound z
          → Meets z Always (
              (check_fingerprint o >=> λ _. reason_for o >=> λ reason.
              end_for_reason o true reason >=> λ _. when p.1 (stopped (failing false)) >=> λ _.
              end_if_unchanged o is_update >=> λ _.
              when w.journal.scheduled (reason_for o >=> λ again. end_for_reason o false again))
                z)
      chosen p is_update z j =
          Meets-then z Always Always (check_fingerprint o z) _ (check_fingerprint-Meets o z j)
            (λ _ w1 j _ _.
              Meets-then w1 Always Always (reason_for o w1) _ (reason_for-Meets o w1 j)
                (λ reason w2 j _ _.
                  Meets-then w2 Always Always (end_for_reason o true reason w2) _
                    (end_for_reason-Meets o true reason w2 j)
                    (λ _ w3 j _ _.
                      Meets-then w3 Always Always (when p.1 (stopped (failing false)) w3) _
                        (Meets-guard p.1 w3 j)
                        (λ _ w4 j _ _.
                          Meets-then w4 Always Always (end_if_unchanged o is_update w4) _
                            (end_if_unchanged-Meets o is_update w4 j)
                            (λ _ w5 j _ _.
                              Meets-when w.journal.scheduled _ w5 j (λ _. again-Meets w5 j))))))

  complete-Meets :
      (outcome : String) (w : World) → IsSound w → Meets w Always (complete o outcome w)
  unfolding complete
  complete-Meets outcome w h =
      Meets-then w Always Always (store_must o (retarget (final_target o w.journal) []) w) _
        (Meets-store_must o (retarget (final_target o w.journal) []) w
          (plain-Fits (retarget (final_target o w.journal) []) w refl refl refl) h)
        (λ _ v j _ _.
          Meets-then v Always Always (save_stage o "committing" v) _
            (Meets-save_stage o "committing" v j)
            (λ _ u j _ _. finish_with-Meets o "succeeded" outcome "" u j refl))

  pub mutate-Meets : (w : World) → IsSound w → Meets w Always (mutate o w)
  unfolding mutate
  mutate-Meets w h =
      Meets-then w (λ _. IsMutated) Always (mark_mutated o w) _ marked
        (λ _ v j _ m.
          Meets-then v Always Always (save_stage o "replacing" v) _
            (Meets-save_stage o "replacing" v j)
            (λ _ u j g _.
              let m = g.still_mutated m in
              Meets-then u Always Always (each (retain o) (backwards w.journal.order) u) _
                (Meets-each IsMutated (retain o) (backwards w.journal.order) u
                  (λ a b g. g.still_mutated) (Meets-retain o) j m)
                (λ _ x j g _.
                  let m = g.still_mutated m in
                  Meets-then x Always Always
                    (each (replace o (root_of w.journal)) w.journal.order x) _
                    (Meets-each IsMutated (replace o (root_of w.journal)) w.journal.order x
                      (λ a b g. g.still_mutated) (Meets-replace o (root_of w.journal)) j m)
                    (λ _ y j _ _.
                      Meets-then y Always Always (save_stage o "verifying" y) _
                        (Meets-save_stage o "verifying" y j)
                        (λ _ z j _ _.
                          Meets-then z Always Always
                            (each (verify_entry o (root_of w.journal))
                              (positions 0 w.journal.entries) z)
                            _
                            (Meets-each (λ a. Unit {0}) (verify_entry o (root_of w.journal))
                              (positions 0 w.journal.entries) z (λ a b g p. tt)
                              (λ i a k _. Meets-verify_entry o (root_of w.journal) i a k) j tt)
                            (λ _ w1 j _ _. complete-Meets "verified" w1 j))))))
    where
      marked : Meets w (λ _. IsMutated) (mark_mutated o w)
      marked = (
        record { safe = h.safe; unfinished = h.unfinished; known = h.known; clean = refl },
        record { still_new = λ y k. k; still_journaled = λ y k. k; still_mutated = λ k. refl },
        refl,
      )
