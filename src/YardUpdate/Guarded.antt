-- ===== src/YardUpdate/Guarded.antt =====
-- selfupdate/worker.go: RunWorker keeps the original until the replacement has proved itself.
use nox_yard.YardUpdate.{
  Failure, Call, back_up, progress, finish, cleanup_error, stop, start, remove, rename, create,
  drop_backup, Event, asked, created, Engine, Site, within, log_event, call, is_open, attempted,
  on_db,
}
use nox_yard.YardUpdate.Worker.{
  Plan, backup_name, made_as, create_replacement, image_of, stepped_aside, started_replacement,
  proved_replacement, commit, replaced, site_of, cleaned, old_left, snapshot_left, tidied,
}
use nox_yard.YardUpdate.Trace.{
  is_committed, seen_healthy, is_made, shows_healthy, is_allowed, shows_healthy_lem,
}
use nox_yard.YardUpdate.Guarding.{
  IsGuarded, Stays, anything, anything-Stays, is_made-Stays, is_committed-Stays, Nothing, Keeps,
  log-IsGuarded, Keeps-then, Keeps-within, Keeps-call, Keeps-transact, Keeps-wait_healthy, OnOk,
  Keeps-OnOk, same-IsGuarded,
}
use nox_yard.YardUpdate.Undoing.{Safe, Goes, Then, call-Safe}
use nox_yard.Store.Types.{Tx}
use nox_yard.Store.Jobs.{job_progress, job_cleanup_error}
use nox_yard.Store.SelfUpdate.{SelfUpdate, finish_self_update_outcome}
use nox_yard.Prelude.{
  ◌=ₛ◌, Result, err, ok, String, ◌≡◌, refl, Bool, true, false, Option, none, some, List, arith,
  eq_refl,
}

module _ (o : Engine) (old : String) where
  -- A result reached with more known of its trace, which is then a fact about the result.
  forgotten :
      {A : Type 0} (keep : List Event → Bool) (stays : Stays keep) (Q : A → Site → Type 0)
      (r : Result String A × Site)
      → Keeps o old keep stays Q r
      → Keeps o old anything anything-Stays (λ a v. (keep v.trace ≡ true) × Q a v) r
  forgotten keep stays Q (ok a, v) (g, q) =
      (record { guarded = g.guarded; other = g.other; kept = refl }, (g.kept, q))
  forgotten keep stays Q (err x, v) g = record { guarded = g.guarded; other = g.other; kept = refl }

  pub with_kept :
      (keep : List Event → Bool) (w : Site)
      → IsGuarded o old anything w
      → keep w.trace ≡ true
      → IsGuarded o old keep w
  with_kept keep w g k = record { guarded = g.guarded; other = g.other; kept = k }

  abbrev pub Fresh : Type 0
  Fresh = (t : List Event) (x : String) → o.creates t ≡ ok x → (x =ₛ old) ≡ false

  -- The creation: the replacement is made here, and is not the original.
  made_as-Keeps :
      (p : Plan) (w : Site)
      → Fresh
      → Safe o old w
      → Keeps o old anything anything-Stays
          (λ id v. is_made id v.trace ≡ true)
          (create_replacement o p w)
  unfolding is_made
  made_as-Keeps p w fresh h = made (o.creates w.trace) refl
    where
      logged : (b : Bool) → Safe o old (log_event (asked (create p.name p.options) b) w)
      logged b =
          log-IsGuarded o old anything anything-Stays (asked (create p.name p.options) b) w h refl

      made :
          (r : Result Failure String)
          → o.creates w.trace ≡ r
          → Keeps o old anything anything-Stays (λ id v. is_made id v.trace ≡ true) (made_as p w r)
      made (err f) q = logged false
      made (ok id) q =
          let g =
            log-IsGuarded o old anything anything-Stays (created id)
              (log_event (asked (create p.name p.options) true) w) (logged true) refl in
          (
            record { guarded = g.guarded; other = fresh w.trace id q; kept = refl },
            rw (eq_refl id) refl,
          )

  -- A part of the main path that asks one allowed call.
  one_call :
      (text : String) (c : Call) (w : Site)
      → Safe o old w
      → is_allowed o old c w.trace ≡ true
      → Goes o old (within text (call o c w))
  one_call text c w h p =
      Keeps-within o old anything anything-Stays Nothing text (call o c w) (call-Safe o old c w h p)

  stepped_aside-Goes : (p : Plan) (w : Site) → Safe o old w → Goes o old (stepped_aside o p w)
  unfolding stepped_aside
  stepped_aside-Goes p w h =
      Then o old _ _
        (Then o old _ _
          (Then o old _ _
            (Keeps-transact o old anything anything-Stays (progress "replacing")
              (on_db (job_progress (o.now w.trace) p.job.id p.owner "replacing" none none)) w h
              refl)
            (λ v g.
              one_call "reserve original container" (rename p.old_id (backup_name p)) v g refl))
          (λ v g. one_call "stop original container" (stop p.old_id) v g refl))
        (λ v g.
          Then o old _ _ (call-Safe o old back_up v g refl)
            (λ u k. (same-IsGuarded o old anything anything-Stays u _ refl refl k, tt)))

  started-Keeps :
      (p : Plan) (w : Site)
      → Fresh
      → Safe o old w
      → Keeps o old anything anything-Stays
          (λ id v. is_made id v.trace ≡ true)
          (started_replacement o p w)
  started-Keeps p w fresh h =
      Keeps-then o old anything anything-Stays Nothing _ _ _ (stepped_aside-Goes p w h)
        (λ _ v g _. made_as-Keeps p v fresh g)

  -- From the creation on, one knows that the container was made here; the commit needs that it is
  -- healthy.
  commit-Keeps :
      (p : Plan) (w : Site)
      → Safe o old w
      → shows_healthy o w.trace w.trace ≡ true
      → Keeps o old anything anything-Stays (λ _ v. is_committed v.trace ≡ true) (commit o p w)
  unfolding is_committed
  commit-Keeps p w h s = Keeps-within o old anything anything-Stays _ _ _ (
      Keeps-OnOk o old anything anything-Stays _ _
        (Keeps-transact o old anything anything-Stays (finish "succeeded" false)
          (finish_self_update_outcome (o.now w.trace) p.job.id "succeeded" "" false "") w h
          (rw (s) refl))
        (marked (is_open w.connection) (o.answers (finish "succeeded" false) w.trace) _))
    where
      marked :
          (b : Bool) (a : Option Failure) (t : Tx SelfUpdate)
          → OnOk o old anything anything-Stays
              (λ _ v. is_committed v.trace ≡ true)
              (attempted o (finish "succeeded" false) w b a t)
      marked false a t = tt
      marked true (some f) t = tt
      marked true none (err e) = tt
      marked true none (ok s) = refl

  proved-Keeps :
      (p : Plan) (id : String) (w : Site)
      → IsGuarded o old (is_made id) w
      → Keeps o old
          (is_made id)
          (is_made-Stays id)
          (λ _ v. seen_healthy o id v.trace ≡ true)
          (proved_replacement o p id w)
  unfolding proved_replacement
  proved-Keeps p id w h =
      Keeps-then o old (is_made id) (is_made-Stays id) Nothing _ _ _
        (Keeps-then o old (is_made id) (is_made-Stays id) Nothing _ _ _
          (Keeps-within o old (is_made id) (is_made-Stays id) _ _ _
            (Keeps-call o old (is_made id) (is_made-Stays id) (start id) w h refl))
          (λ _ v g _.
            Keeps-transact o old (is_made id) (is_made-Stays id) (progress "verifying")
              (on_db (
                job_progress (o.now v.trace) p.job.id p.owner "verifying" none
                  (some (image_of id p.job))))
              v g refl))
        (λ _ v g _.
          Keeps-within o old (is_made id) (is_made-Stays id) _ _ _
            (Keeps-wait_healthy o old (is_made id) (is_made-Stays id) o.polls id v g))

  abbrev pub Committed : Unit {0} → Site → Type 0
  Committed a v = is_committed v.trace ≡ true

  pub replaced-Keeps :
      (p : Plan) (w : Site)
      → Fresh
      → Safe o old w
      → Keeps o old anything anything-Stays Committed (replaced o p w)
  unfolding replaced
  replaced-Keeps p w fresh h =
      Keeps-then o old anything anything-Stays _ _ _ _ (started-Keeps p w fresh h) (λ id v g m.
        Keeps-then o old anything anything-Stays _ _ _ _
          (forgotten (is_made id) (is_made-Stays id) _ _
            (proved-Keeps p id v (with_kept (is_made id) v g m)))
          (λ _ u k (made, s). commit-Keeps p u k (shows_healthy_lem o id u.trace u.trace made s)))

  -- After the commit the original may be removed.
  cleaned-Kept :
      (p : Plan) (text : String) (r : Result String (Unit {0}) × Site)
      → Keeps o old is_committed is_committed-Stays Nothing r
      → IsGuarded o old is_committed (cleaned o p text r)
  cleaned-Kept p text (ok _, v) (g, _) = g
  cleaned-Kept p text (err x, v) g = site_kept _ (
      Keeps-transact o old is_committed is_committed-Stays cleanup_error
        (on_db (λ db. ok (job_cleanup_error p.job.id text db))) v g refl)
    where
      site_kept :
          (r : Result String (Unit {0}) × Site)
          → Keeps o old is_committed is_committed-Stays Nothing r
          → IsGuarded o old is_committed (site_of r)
      site_kept (ok _, u) (k, _) = k
      site_kept (err x, u) k = k

  pub tidied-Kept :
      (p : Plan) (w : Site)
      → IsGuarded o old is_committed w
      → IsGuarded o old is_committed (tidied o p w)
  unfolding tidied
  tidied-Kept p w h =
      let first = cleaned-Kept p old_left _ (
        Keeps-call o old is_committed is_committed-Stays (remove p.old_id) w h
          (rw (h.kept) (ground arith))) in
      cleaned-Kept p snapshot_left _
        (Keeps-call o old is_committed is_committed-Stays drop_backup _ first refl)
