-- ===== src/YardUpdate/Locked.antt =====
-- selfupdate/worker.go: until the update is finished the worker changes no lock of the store.
-- The locks of the database, and of its snapshot, with what else is known of the trace.
use nox_yard.YardUpdate.{
  Failure, Container, Call, back_up, progress, inspect, stop, start, rename, create, Event, asked,
  created, Engine, Site, Work, and_then, within, log_event, told, call, shown_as, look, is_open,
  attempted, transact, on_db,
}
use nox_yard.YardUpdate.Worker.{
  Verdict, healthy, undecided, ill, verdict, unless_late, judged, wait_healthy, Plan, backup_name,
  save_progress, take_backup, made_as, create_replacement, image_of, stepped_aside,
  proved_replacement, site_of,
}
use nox_yard.YardUpdate.Guarding.{Stays}
use nox_yard.Store.Types.{Tx, ImageIdentity, Lock}
use nox_yard.Store.Tables.{changed}
use nox_yard.Store.Jobs.{update_jobs, job_progress}
use nox_yard.Store.SelfUpdate.{SelfUpdate}
use nox_yard.Prelude.{
  Result, err, ok, ℕ, zero, suc, String, ◌≡◌, refl, ◌∙◌, Bool, true, false, Option, none, some,
  List, arith,
}

abbrev pub SavedLocks : List Lock → Option SelfUpdate → Type 0
SavedLocks locks none = Unit {0}
SavedLocks locks (some s) = s.db.locks ≡ locks

pub record IsLocked (locks : List Lock) (keep : List Event → Bool) (w : Site) : Type 0 where
  pub current : w.database.db.locks ≡ locks
  pub saved : SavedLocks locks w.backup
  pub kept : keep w.trace ≡ true

-- A change of the database that leaves the locks as they are.
abbrev pub SparesLocks : (SelfUpdate → Tx SelfUpdate) → Type 0
SparesLocks change = (s t : SelfUpdate) → change s ≡ ok t → t.db.locks ≡ s.db.locks

pub job_progress-SparesLocks :
    (now : ℕ) (id owner stage : String) (source target : Option (List ImageIdentity))
    → SparesLocks (on_db (job_progress now id owner stage source target))
unfolding job_progress update_jobs changed
job_progress-SparesLocks now id owner stage source target s t h = ground arith

module _ (o : Engine) (locks : List Lock) (keep : List Event → Bool) (stays : Stays keep) where
  abbrev pub Locks : Site → Type 0
  Locks = IsLocked locks keep

  pub log-IsLocked : (e : Event) (w : Site) → Locks w → Locks (log_event e w)
  log-IsLocked e w h = record {
    current = h.current;
    saved = h.saved;
    kept = stays e w.trace h.kept;
  }

  -- A site that differs from another in the connection or the variable `newID` at most.
  pub same-IsLocked :
      (w v : Site)
      → v.trace ≡ w.trace
      → v.database ≡ w.database
      → v.backup ≡ w.backup
      → Locks w
      → Locks v
  same-IsLocked w v t d b h = record {
    current = rw (d) h.current;
    saved = rw (b) h.saved;
    kept = rw (t) h.kept;
  }

  pub then-IsLocked :
      {A B : Type 0} (r : Result String A × Site) (next : A → Work B)
      → Locks (site_of r)
      → ((a : A) (v : Site) → Locks v → Locks (site_of (next a v)))
      → Locks (site_of (and_then next r))
  then-IsLocked (ok a, v) next h k = k a v h
  then-IsLocked (err x, v) next h k = h

  pub within-IsLocked :
      {A : Type 0} (text : String) (r : Result String A × Site)
      → Locks (site_of r)
      → Locks (site_of (within text r))
  within-IsLocked text (ok a, v) h = h
  within-IsLocked text (err x, v) h = h

  pub call-IsLocked : (c : Call) (w : Site) → Locks w → Locks (site_of (call o c w))
  call-IsLocked c w h = answered (o.answers c w.trace)
    where
      answered : (a : Option Failure) → Locks (site_of (told c w a))
      answered none = log-IsLocked (asked c true) w h
      answered (some f) = log-IsLocked (asked c false) w h

  pub look-IsLocked : (id : String) (w : Site) → Locks w → Locks (site_of (look o id w))
  look-IsLocked id w h = answered (o.inspects id w.trace)
    where
      answered : (r : Result Failure Container) → Locks (site_of (shown_as id w r))
      answered (ok c) = log-IsLocked (asked (inspect id) true) w h
      answered (err f) = log-IsLocked (asked (inspect id) false) w h

  pub transact-IsLocked :
      (c : Call) (change : SelfUpdate → Tx SelfUpdate) (w : Site)
      → SparesLocks change
      → Locks w
      → Locks (site_of (transact o c change w))
  transact-IsLocked c change w spares h =
      answered (is_open w.connection) (o.answers c w.trace) (change w.database) refl
    where
      answered :
          (b : Bool) (a : Option Failure) (t : Tx SelfUpdate)
          → change w.database ≡ t
          → Locks (site_of (attempted o c w b a t))
      answered false a t q = log-IsLocked (asked c false) w h
      answered true (some f) t q = log-IsLocked (asked c false) w h
      answered true none (err e) q = log-IsLocked (asked c false) w h
      answered true none (ok s) q =
          log-IsLocked (asked c true) (record w { database = s })
            (record { current = spares w.database s q ∙ h.current; saved = h.saved; kept = h.kept })

  pub wait_healthy-IsLocked :
      (n : ℕ) (id : String) (w : Site) → Locks w → Locks (site_of (wait_healthy o n id w))
  unfolding wait_healthy
  wait_healthy-IsLocked zero id w h = h
  wait_healthy-IsLocked (suc n) id w h =
      then-IsLocked (look o id w) (λ c. judged o (wait_healthy o n id) (verdict o c.state))
        (look-IsLocked id w h)
        (λ c v g. judging v (verdict o c.state) g (wait_healthy-IsLocked n id v g))
    where
      late :
          (b : Bool) (v : Site) (r : Result String (Unit {0}) × Site)
          → Locks v
          → Locks (site_of r)
          → Locks (site_of (unless_late b v r))
      late true v r g k = g
      late false v r g k = k

      judging :
          (v : Site) (x : Verdict)
          → Locks v
          → Locks (site_of (wait_healthy o n id v))
          → Locks (site_of (judged o (wait_healthy o n id) x v))
      judging v healthy g k = g
      judging v (ill text) g k = g
      judging v undecided g k = late (o.expires v.trace) v _ g k

  -- The main path up to the commit.
  pub stepped_aside-IsLocked :
      (p : Plan) (w : Site) → Locks w → Locks (site_of (stepped_aside o p w))
  unfolding stepped_aside
  stepped_aside-IsLocked p w h =
      then-IsLocked (and_then stopping (and_then reserving (save_progress o p "replacing" none w)))
        (λ _. take_backup o)
        (then-IsLocked (and_then reserving (save_progress o p "replacing" none w)) stopping
          (then-IsLocked (save_progress o p "replacing" none w) reserving
            (transact-IsLocked (progress "replacing") _ w
              (job_progress-SparesLocks (o.now w.trace) p.job.id p.owner "replacing" none none) h)
            (λ _ v g. within-IsLocked _ _ (call-IsLocked (rename p.old_id (backup_name p)) v g)))
          (λ _ v g. within-IsLocked _ _ (call-IsLocked (stop p.old_id) v g)))
        (λ _ v g.
          then-IsLocked (call o back_up v) _ (call-IsLocked back_up v g)
            (λ _ u k. record { current = k.current; saved = k.current; kept = k.kept }))
    where
      reserving : Unit {0} → Work (Unit {0})
      reserving x w =
          within "reserve original container" (call o (rename p.old_id (backup_name p)) w)

      stopping : Unit {0} → Work (Unit {0})
      stopping x w = within "stop original container" (call o (stop p.old_id) w)

  pub created-IsLocked :
      (p : Plan) (w : Site) → Locks w → Locks (site_of (create_replacement o p w))
  created-IsLocked p w h = made (o.creates w.trace)
    where
      logged : (b : Bool) → Locks (log_event (asked (create p.name p.options) b) w)
      logged b = log-IsLocked (asked (create p.name p.options) b) w h

      made : (r : Result Failure String) → Locks (site_of (made_as p w r))
      made (err f) = logged false
      made (ok id) = same-IsLocked _ _ refl refl refl (log-IsLocked (created id) _ (logged true))

  pub proved-IsLocked :
      (p : Plan) (id : String) (w : Site) → Locks w → Locks (site_of (proved_replacement o p id w))
  unfolding proved_replacement
  proved-IsLocked p id w h =
      then-IsLocked (and_then verifying (starting w)) _
        (then-IsLocked (starting w) verifying (within-IsLocked _ _ (call-IsLocked (start id) w h))
          (λ _ v g.
            transact-IsLocked (progress "verifying") _ v
              (job_progress-SparesLocks (o.now v.trace) p.job.id p.owner "verifying" none _) g))
        (λ _ v g. within-IsLocked _ _ (wait_healthy-IsLocked o.polls id v g))
    where
      starting : Work (Unit {0})
      starting w = within "start replacement" (call o (start id) w)

      verifying : Unit {0} → Work (Unit {0})
      verifying x = save_progress o p "verifying" (some (image_of id p.job))
