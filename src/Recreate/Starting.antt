-- ===== src/Recreate/Starting.antt =====
-- recreate/worker.go: starting a replacement, waiting for it and verifying it keep the state sound.
use nox_yard.Prelude.{
  ◌=ₛ◌, Result, err, ok, ℕ, zero, suc, String, ◌≡◌, refl, ◌⊎◌, inl, Bool, true, false, ◌||◌, not,
  arith, eq_refl,
}
use nox_yard.Recreate.{
  Entry, Failure, inspect, create, start, created, Engine, World, failing, leaving, Work, ◌>=>◌,
  stopped, when, must, entry_at, update, save_stage,
}
use nox_yard.Recreate.Steps.{
  Readiness, ready_now, broken, wait_more, readiness, look, judged, ready, entered, new_container,
  reserve, replace, is_same_original, is_same_replacement, verify_entry,
}
use nox_yard.Recreate.Trace.{is_new, is_known, IsSound, log-Grew, log-IsSound}
use nox_yard.Recreate.Keeping.{
  Meets, Always, Meets-then, Meets-done, Meets-when, plain-Fits, mutating-Fits, asked-IsSound,
  Meets-must, Meets-query, Found, Meets-entry_at,
}
use nox_yard.Recreate.Replacing.{every-set_at, Meets-save_stage}

module _ (o : Engine) where
  fails_away :
      (f : Failure) → ((u : Bool) × (failing false ≡ failing u)) ⊎ (failing false ≡ leaving)
  fails_away f = inl (false, refl)

  pub Meets-look : (id : String) (w : World) → IsSound w → Meets w Always (look o id w)
  Meets-look id w h =
      Meets-query (λ f. failing false) (inspect id) (o.inspects id) w fails_away
        (plain-Fits (inspect id) w refl refl refl) h

  judged-Meets :
      (again : Work (Unit {0})) (r : Readiness) (v : World)
      → IsSound v
      → Meets v Always (again v)
      → Meets v Always (judged o again r v)
  judged-Meets again ready_now v j k = Meets-done v j
  judged-Meets again broken v j k = j
  judged-Meets again wait_more v j k = k

  pub Meets-ready :
      (n : ℕ) (e : Entry) (id : String) (w : World) → IsSound w → Meets w Always (ready o n e id w)
  unfolding ready
  Meets-ready zero e id w h = h
  Meets-ready (suc n) e id w h =
      Meets-then w Always Always (look o id w) _ (Meets-look id w h)
        (λ i v j g _. judged-Meets (ready o n e id) (readiness e i) v j (Meets-ready n e id v j))

  -- A created container is known by its event.
  entered-Meets :
      (root : String) (e : Entry) (w : World) (r : Result Failure String)
      → IsSound w
      → w.journal.mutated ≡ true
      → Meets w (λ id v. is_new id v.trace ≡ true) (entered o (create e.id root) w r)
  unfolding is_new
  entered-Meets root e w (ok id) h m = (
    log-IsSound (created id) w h refl refl (rw (m) refl),
    log-Grew (created id) w,
    rw (eq_refl id) refl,
  )
  entered-Meets root e w (err f) h m =
      asked-IsSound (create e.id root) false w (mutating-Fits (create e.id root) w refl refl m) h

  pub Meets-update_new :
      (i : ℕ) (id : String) (w : World)
      → IsSound w
      → is_new id w.trace ≡ true
      → Meets w Always (update i (λ x. record x { new_id = id }) w)
  Meets-update_new i id w h n = (
    record {
      safe = h.safe;
      unfinished = h.unfinished;
      known =
          every-set_at (is_known w.trace) i (λ x. record x { new_id = id }) w.journal.entries
            h.known (λ x k l. ground arith);
      clean = h.clean;
    },
    record { still_new = λ y k. k; still_journaled = λ y k. k; still_mutated = λ k. k },
    tt,
  )

  pub Meets-replace :
      (root : String) (i : ℕ) (w : World)
      → IsSound w
      → w.journal.mutated ≡ true
      → Meets w Always (replace o root i w)
  unfolding replace
  Meets-replace root i w h m =
      Meets-then w (Found i) Always (entry_at i w) _ (Meets-entry_at i w h) (λ e v j g f.
        Meets-then v (λ id u. is_new id u.trace ≡ true) Always (new_container o root e v) _
          (entered-Meets root e v (o.creates v.trace) j (g.still_mutated m))
          (λ id u k l n. started e id u k n (l.still_mutated (g.still_mutated m))))
    where
      started :
          (e : Entry) (id : String) (u : World)
          → IsSound u
          → is_new id u.trace ≡ true
          → u.journal.mutated ≡ true
          → Meets u Always (
              (update i (λ x. record x { new_id = id }) >=> λ _. save_stage o "replacing" >=> λ _.
              reserve o id >=> λ _.
              when (e.running || e.one_shot) (must o (start id)) >=> λ _. ready o o.polls e id)
                u)
      started e id u k n m =
          Meets-then u Always Always (update i (λ x. record x { new_id = id }) u) _
            (Meets-update_new i id u k n)
            (λ _ v j g _.
              Meets-then v Always Always (save_stage o "replacing" v) _
                (Meets-save_stage o "replacing" v j)
                (λ _ x j2 g2 _.
                  Meets-then x Always Always (reserve o id x) _
                    (Meets-must o _ x (plain-Fits _ x refl refl refl) j2)
                    (λ _ y j3 g3 _.
                      Meets-then y Always Always
                        (when (e.running || e.one_shot) (must o (start id)) y) _
                        (Meets-when (e.running || e.one_shot) (must o (start id)) y j3 (λ _.
                          Meets-must o (start id) y
                            (mutating-Fits (start id) y
                              (rw (g3.still_new id (g2.still_new id (g.still_new id n))) refl) refl
                              (g3.still_mutated (g2.still_mutated (g.still_mutated m))))
                            j3))
                        (λ _ z j4 g4 _. Meets-ready o.polls e id z j4))))

  pub Meets-verify_entry :
      (root : String) (i : ℕ) (w : World) → IsSound w → Meets w Always (verify_entry o root i w)
  unfolding verify_entry
  Meets-verify_entry root i w h =
      Meets-then w (Found i) Always (entry_at i w) _ (Meets-entry_at i w h) (λ e v j g f.
        Meets-then v Always Always (when (e.new_id =ₛ "") (stopped (failing false)) v) _
          (Meets-when (e.new_id =ₛ "") (stopped (failing false)) v j (λ _. j))
          (λ _ u k l _.
            Meets-then u Always Always (look o e.id u) _ (Meets-look e.id u k) (λ old x j2 g2 _.
              Meets-then x Always Always
                (when (not (is_same_original o e old)) (stopped (failing false)) x) _
                (Meets-when (not (is_same_original o e old)) (stopped (failing false)) x j2
                  (λ _. j2))
                (λ _ y j3 g3 _.
                  Meets-then y Always Always (look o e.new_id y) _ (Meets-look e.new_id y j3)
                    (λ new z j4 g4 _.
                      Meets-then z Always Always
                        (when (not (is_same_replacement o root e new)) (stopped (failing false)) z)
                        _
                        (Meets-when (not (is_same_replacement o root e new))
                          (stopped (failing false)) z j4 (λ _. j4))
                        (λ _ x2 j5 g5 _. Meets-ready o.polls e e.new_id x2 j5))))))
