-- ===== src/Recreate/Assessing.antt =====
-- recreate/worker.go: what execute does before it touches a container keeps the state sound.
use nox_yard.Prelude.{
  ◌=ₛ◌, is_some, every, ◌++ₛ◌, ℕ, String, ◌≡◌, refl, ◌⊎◌, inl, inr, Bool, true, false, ◌&&◌, ◌||◌,
  not, Option, none, some, List, [], ◌∷◌,
}
use nox_yard.Recreate.{
  Entry, Failure, finish, pull, inspect_image, save_candidate, take_snapshot, asked, Engine, World,
  failing, leaving, ended, and_then, ◌>=>◌, give, stopped, when, log_event, is_uncertain, ruled,
  must, query, entry_at, update, save_stage,
}
use nox_yard.Recreate.Steps.{is_text_in}
use nox_yard.Recreate.Worker.{
  automatic_runtime, leave, fails, check_fingerprint, Prepared, pull_once, prepared, prepare,
  prepare_all, finish_with, skip_unless, reason_for, end_for_reason, is_unchanged, end_if_unchanged,
}
use nox_yard.Recreate.Trace.{is_harmless, is_known, IsSound, Grew-same, log-safe}
use nox_yard.Recreate.Keeping.{
  Meets, Always, Meets-then, Meets-return, Meets-when, plain-Fits, Meets-must, Meets-query, Found,
  Meets-entry_at,
}
use nox_yard.Recreate.Replacing.{every-set_at, Meets-save_stage}
use nox_yard.Recreate.Restoring.{Meets-guard}

-- The worker's own report of a rollback holds in a trace.
abbrev pub Honest : String → World → Type 0
Honest rolled w = (not (rolled =ₛ "not_needed") || every is_harmless w.trace) ≡ true

module _ (o : Engine) where
  pub finish_with-Meets :
      (s x r : String) (w : World) → IsSound w → Honest r w → Meets w Always (finish_with o s x r w)
  unfolding finish_with
  finish_with-Meets s x r w h p = finished (o.answers (finish s x r) w.trace)
    where
      finished :
          (a : Option Failure)
          → Meets w Always (
              and_then
                (λ _. stopped {A = Unit {0}} ended)
                (ruled (λ f. leaving) (a, log_event (asked (finish s x r) (not (is_some a))) w)))
      finished none = log-safe (asked (finish s x r) true) w h p
      finished (some f) = log-safe (asked (finish s x r) false) w h p

  pub fails_leave : (f : Failure) → ((u : Bool) × (leave o f ≡ failing u)) ⊎ (leave o f ≡ leaving)
  fails_leave f = inr refl

  fails_fail : (f : Failure) → ((u : Bool) × (fails o f ≡ failing u)) ⊎ (fails o f ≡ leaving)
  fails_fail f = inl (is_uncertain f, refl)

  pub check_fingerprint-Meets : (w : World) → IsSound w → Meets w Always (check_fingerprint o w)
  unfolding check_fingerprint
  check_fingerprint-Meets w h =
      Meets-then w Always Always (query (fails o) take_snapshot o.fingerprints w) _
        (Meets-query (fails o) take_snapshot o.fingerprints w fails_fail
          (plain-Fits take_snapshot w refl refl refl) h)
        (λ fresh v j _ _. Meets-guard (not (fresh =ₛ w.journal.fingerprint)) v j)

  Meets-update_target :
      (i : ℕ) (image : String) (w : World)
      → IsSound w
      → Meets w Always (update i (λ x. record x { target_image = image }) w)
  Meets-update_target i image w h = (
    record {
      safe = h.safe;
      unfinished = h.unfinished;
      known =
          every-set_at (is_known w.trace) i (λ x. record x { target_image = image })
            w.journal.entries h.known (λ x k l. l);
      clean = h.clean;
    },
    record { still_new = λ y k. k; still_journaled = λ y k. k; still_mutated = λ k. k },
    tt,
  )

  Meets-prepare :
      (is_update : Bool) (p : Prepared o) (i : ℕ) (w : World)
      → IsSound w
      → Meets w Always (prepare o is_update p i w)
  unfolding prepare
  Meets-prepare is_update (pulled, more) i w h =
      Meets-then w (Found i) Always (entry_at i w) _ (Meets-entry_at i w h) (λ e v j _ _.
        Meets-then v Always Always (pull_once o is_update e pulled v) _ (pull_once-Meets e v j)
          (λ _ u j _ _.
            Meets-then u Always Always
              (query (fails o) (inspect_image e.reference) (o.images e.reference) u) _
              (Meets-query (fails o) (inspect_image e.reference) (o.images e.reference) u fails_fail
                (plain-Fits (inspect_image e.reference) u refl refl refl) j)
              (λ image x j _ _.
                Meets-then x Always Always
                  (when (not (image.platform =ₛ e.platform)) (stopped (failing false)) x) _
                  (Meets-guard (not (image.platform =ₛ e.platform)) x j)
                  (λ _ y j _ _.
                    Meets-then y Always Always
                      (update i (λ x. record x { target_image = image.id }) y)
                      (λ _. give (prepared o pulled more e image))
                      (Meets-update_target i image.id y j)
                      (λ _ z j _ _. Meets-return (prepared o pulled more e image) z j)))))
    where
      pull_once-Meets :
          (e : Entry) (v : World) → IsSound v → Meets v Always (pull_once o is_update e pulled v)
      pull_once-Meets e v j =
          Meets-when (is_update && not (is_text_in (e.reference ++ₛ "|" ++ₛ e.platform) pulled))
            (must o (pull e.reference e.platform)) v j
            (λ _.
              Meets-must o (pull e.reference e.platform) v
                (plain-Fits (pull e.reference e.platform) v refl refl refl) j)

  pub Meets-prepare_all :
      (is_update : Bool) (p : Prepared o) (is : List ℕ) (w : World)
      → IsSound w
      → Meets w Always (prepare_all o is_update p is w)
  unfolding prepare_all
  Meets-prepare_all is_update p [] w h = (h, Grew-same w, tt)
  Meets-prepare_all is_update p (i ∷ is) w h =
      Meets-then w Always Always (prepare o is_update p i w) _ (Meets-prepare is_update p i w h)
        (λ q v j _ _. Meets-prepare_all is_update q is v j)

  pub skip_unless-Meets : (b : Bool) (w : World) → IsSound w → Meets w Always (skip_unless o b w)
  unfolding skip_unless
  skip_unless-Meets b w h =
      Meets-when (not (b && automatic_runtime o.hostname w.journal.entries))
        (finish_with o "succeeded" "skipped" "") w h
        (λ _. finish_with-Meets "succeeded" "skipped" "" w h refl)

  pub reason_for-Meets : (w : World) → IsSound w → Meets w Always (reason_for o w)
  reason_for-Meets w h =
      Meets-query (leave o) save_candidate o.candidates w fails_leave
        (plain-Fits save_candidate w refl refl refl) h

  saved_end-Meets :
      (b : Bool) (outcome : String) (w : World)
      → IsSound w
      → Meets w Always
          ((when b (save_stage o "committing") >=> λ _. finish_with o "succeeded" outcome "") w)
  saved_end-Meets b outcome w h =
      Meets-then w Always Always (when b (save_stage o "committing") w) _
        (Meets-when b (save_stage o "committing") w h (λ _. Meets-save_stage o "committing" w h))
        (λ _ v j _ _. finish_with-Meets "succeeded" outcome "" v j refl)

  pub end_for_reason-Meets :
      (b : Bool) (reason : String) (w : World)
      → IsSound w
      → Meets w Always (end_for_reason o b reason w)
  unfolding end_for_reason
  end_for_reason-Meets b reason w h =
      Meets-when (not (reason =ₛ "")) _ w h (λ _. saved_end-Meets b "skipped" w h)

  pub end_if_unchanged-Meets :
      (b : Bool) (w : World) → IsSound w → Meets w Always (end_if_unchanged o b w)
  unfolding end_if_unchanged
  end_if_unchanged-Meets b w h =
      Meets-when (b && is_unchanged o w.journal.entries) _ w h
        (λ _. saved_end-Meets true "unchanged" w h)
