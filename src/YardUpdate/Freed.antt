-- ===== src/YardUpdate/Freed.antt =====
-- selfupdate/worker.go: when the worker gives Yard free again.
use nox_yard.Store.SelfUpdate.Recovery.{yard_self, finished-locks}
use nox_yard.YardUpdate.{
  Failure, finish, Event, asked, Engine, Site, Work, and_then, ◌>=>◌, within, log_event, is_open,
  attempted,
}
use nox_yard.YardUpdate.Worker.{
  finish_update, Plan, create_replacement, stepped_aside, started_replacement, proved_replacement,
  commit, replaced, site_of,
}
use nox_yard.YardUpdate.Running.{
  rollback, is_clean, with_failures, saved_failure, is_nothing, record_failure, settled,
  run_replacement,
}
use nox_yard.YardUpdate.Guarding.{anything, anything-Stays}
use nox_yard.YardUpdate.Locked.{
  IsLocked, log-IsLocked, then-IsLocked, stepped_aside-IsLocked, created-IsLocked, proved-IsLocked,
}
use nox_yard.YardUpdate.Undone.{shows, runs, is_named}
use nox_yard.YardUpdate.Back.{is_back, is_back-Stays, Ends}
use nox_yard.YardUpdate.Returned.{rollback-Ends}
use nox_yard.Store.Types.{Tx, Lock}
use nox_yard.Store.Tables.{lock_holder, release}
use nox_yard.Store.SelfUpdate.{SelfUpdate, finish_self_update_outcome}
use nox_yard.Prelude.{
  if◌then◌else◌, Bool-cases, Result, err, ok, is_ok, String, ◌≡◌, refl, ap, ◌∙◌, ◌⊎◌, inl, inr,
  Bool, true, false, ◌&&◌, not, Option, none, some, List, [],
}

module _ (o : Engine) (locks : List Lock) where
  -- The locks after a result of the main path, unless it went well.
  abbrev LockedOnErr : Result String (Unit {0}) × Site → Type 0
  LockedOnErr (ok _, v) = Unit {0}
  LockedOnErr (err x, v) = IsLocked locks anything v

  then-LockedOnErr :
      {A : Type 0} (r : Result String A × Site) (next : A → Work (Unit {0}))
      → IsLocked locks anything (site_of r)
      → ((a : A) (v : Site) → IsLocked locks anything v → LockedOnErr (next a v))
      → LockedOnErr (and_then next r)
  then-LockedOnErr (ok a, v) next h k = k a v h
  then-LockedOnErr (err x, v) next h k = h

  commit-LockedOnErr :
      (p : Plan) (w : Site) → IsLocked locks anything w → LockedOnErr (commit o p w)
  commit-LockedOnErr p w h =
      answered (is_open w.connection) (o.answers (finish "succeeded" false) w.trace) _
    where
      logged : IsLocked locks anything (log_event (asked (finish "succeeded" false) false) w)
      logged =
          log-IsLocked o locks anything anything-Stays (asked (finish "succeeded" false) false) w h

      answered :
          (b : Bool) (a : Option Failure) (t : Tx SelfUpdate)
          → LockedOnErr (
              within "replacement is healthy but saving the result failed"
                (attempted o (finish "succeeded" false) w b a t))
      answered false a t = logged
      answered true (some f) t = logged
      answered true none (err e) = logged
      answered true none (ok s) = tt

  replaced-LockedOnErr :
      (p : Plan) (w : Site) → IsLocked locks anything w → LockedOnErr (replaced o p w)
  unfolding replaced
  replaced-LockedOnErr p w h =
      then-LockedOnErr (started_replacement o p w)
        (λ id. proved_replacement o p id >=> λ _. commit o p)
        (then-IsLocked o locks anything anything-Stays (stepped_aside o p w)
          (λ _. create_replacement o p)
          (stepped_aside-IsLocked o locks anything anything-Stays p w h)
          (λ _ v g. created-IsLocked o locks anything anything-Stays p v g))
        (λ id v g.
          then-LockedOnErr (proved_replacement o p id v) (λ _. commit o p)
            (proved-IsLocked o locks anything anything-Stays p id v g)
            (λ _ u k. commit-LockedOnErr p u k))

  module _ (old name : String) (holder : String)
      (held : lock_holder yard_self locks ≡ some holder) where
    abbrev back_again : List Event → Bool
    back_again = is_back o locks old name

    -- The end after an error: Yard is free only if the rollback reported no failure.
    abbrev FreedBack : Result String (Unit {0}) × Site → Type 0
    FreedBack r =
        lock_holder yard_self (site_of r).database.db.locks ≡ none
        → back_again (site_of r).trace ≡ true

    still_held :
        (b : Bool) (w : Site)
        → w.database.db.locks ≡ locks
        → lock_holder yard_self w.database.db.locks ≡ none
        → b ≡ true
    still_held b w h k = cc (h, held, k)

    saved_failure-FreedBack :
        (cause : String) (r : Result String (Unit {0}) × Site)
        → FreedBack r
        → FreedBack (saved_failure cause r)
    saved_failure-FreedBack cause (ok _, v) h = h
    saved_failure-FreedBack cause (err x, v) h = h

    finish_update-FreedBack :
        (id message undone : String) (clean : Bool) (w : Site)
        → w.database.db.locks ≡ locks
        → (clean ≡ true → back_again w.trace ≡ true)
        → FreedBack (finish_update o id "failed" message (not clean) undone w)
    finish_update-FreedBack id message undone clean w h k =
        answered (is_open w.connection) (o.answers (finish "failed" (not clean)) w.trace)
          (finish_self_update_outcome (o.now w.trace) id "failed" message (not clean) undone
            w.database)
          refl
      where
        answered :
            (b : Bool) (a : Option Failure) (t : Tx SelfUpdate)
            → finish_self_update_outcome
                (o.now w.trace)
                id
                "failed"
                message
                (not clean)
                undone
                w.database
              ≡ t
            → FreedBack (attempted o (finish "failed" (not clean)) w b a t)
        answered false a t q n = still_held _ w h n
        answered true (some f) t q n = still_held _ w h n
        answered true none (err e) q n = still_held _ w h n
        answered true none (ok s) q n =
            let same =
              finished-locks (o.now w.trace) id "failed" message (not clean) undone w.database s
                q in
            elim (Bool-cases clean) [
              | inl c ↦
                  is_back-Stays o locks old name (asked (finish "failed" (not clean)) true) w.trace
                    (k c)
              | inr c ↦
                  still_held _ (record w { database = s })
                    ((same
                        ∙ ap
                            (λ b.
                              if not b then w.database.db.locks else release id w.database.db.locks)
                            c)
                      ∙ h)
                    n
            ]

    record_failure-FreedBack :
        (p : Plan) (cause : String) (r : List String × Site)
        → Ends o locks old name back_again r
        → FreedBack (record_failure o p cause r)
    record_failure-FreedBack p cause (failures, v) (h, k) =
        elim (Bool-cases (is_nothing v.connection)) [
          | inl q ↦ rw (q) (λ n. still_held _ v h.current n)
          | inr q ↦ rw (q) (
              saved_failure-FreedBack (with_failures cause failures) _ (
                finish_update-FreedBack p.job.id (with_failures cause failures)
                  (if is_clean failures then "restored" else "failed") (is_clean failures) v
                  h.current k))
        ]

  settled-Freed :
      (p : Plan) (holder : String) (r : Result String (Unit {0}) × Site)
      → lock_holder yard_self locks ≡ some holder
      → LockedOnErr r
      → lock_holder yard_self (site_of (settled o p r)).database.db.locks ≡ none
      → (is_ok (settled o p r).0 ≡ true)
        ⊎ (is_back o locks p.old_id p.name (site_of (settled o p r)).trace ≡ true)
  settled-Freed p holder (ok _, v) held h n = inl refl
  settled-Freed p holder (err cause, v) held h n = inr (
      record_failure-FreedBack p.old_id p.name holder held p cause (rollback o p.old_id p.name v)
        (rollback-Ends o locks p.old_id p.name v h) n)

-- Whatever Docker, SQLite and the files answer: when the resource yard:self is locked and there is
-- no snapshot before the replacement, and yard:self is free after it (rollback and all), then the
-- replacement went well, or Docker has in this run shown the original running, and
-- has shown it under its name or accepted its renaming to that.
pub yard_freed_soundly :
    (o : Engine) (p : Plan) (holder : String) (w : Site)
    → w.trace ≡ []
    → w.backup ≡ none
    → lock_holder yard_self w.database.db.locks ≡ some holder
    → lock_holder yard_self (site_of (run_replacement o p w)).database.db.locks ≡ none
    → (is_ok (run_replacement o p w).0 ≡ true)
      ⊎ ((is_named o p.old_id p.name (site_of (run_replacement o p w)).trace
            && shows o runs p.old_id (site_of (run_replacement o p w)).trace)
          ≡ true)
unfolding run_replacement
yard_freed_soundly o p holder w t b held free =
    settled-Freed o w.database.db.locks p holder (replaced o p w) held
      (replaced-LockedOnErr o w.database.db.locks p w
        (record { current = refl; saved = rw (b) tt; kept = refl }))
      free
