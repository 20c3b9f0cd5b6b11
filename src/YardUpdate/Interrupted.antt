-- ===== src/YardUpdate/Interrupted.antt =====
-- selfupdate/manager.go: when the reconciliation of an interrupted update gives Yard free.
-- Docker has shown in a trace that a worker is not at work.
use nox_yard.Store.SelfUpdate.Recovery.{yard_self, finished-locks}
use nox_yard.YardUpdate.{
  Failure, Container, dial, read_latest, finish, inspect, tag, Event, asked, Engine, Site,
  log_event, told, call, shown_as, is_open, attempted, queried,
}
use nox_yard.YardUpdate.Checks.{is_running}
use nox_yard.YardUpdate.Worker.{finish_update, site_of}
use nox_yard.YardUpdate.Trace.{inspects}
use nox_yard.YardUpdate.Guarding.{Stays, anything, anything-Stays}
use nox_yard.YardUpdate.Locked.{IsLocked, log-IsLocked, call-IsLocked}
use nox_yard.YardUpdate.Undone.{shows}
use nox_yard.YardUpdate.Reconciling.{
  health_is, accepted_self, identified, own_container, may_work, worker_name, exited_message,
  with_tag_error, retagged, save_interrupted, is_target, concluded, unless_working,
  inspected_worker, resolved, resolved_latest, reconcile_interrupted_job,
}
use nox_yard.Store.Types.{Tx, Lock}
use nox_yard.Store.Tables.{lock_holder, release}
use nox_yard.Store.SelfUpdate.{
  SelfUpdateJob, SelfUpdate, latest_self_update_job, finish_self_update_outcome,
}
use nox_yard.Prelude.{
  ◌=ₛ◌, if◌then◌else◌, Bool-cases, Result, err, ok, is_ok, String, ◌≡◌, refl, sym, ap, ◌∙◌, subst,
  inl, inr, Bool, true, false, ◌&&◌, ◌||◌, not, Option, none, some, List, [], ◌∷◌, arith, eq_refl,
}

abbrev pub is_gone : Result Failure Container → Bool
is_gone (ok c) = not (is_running c.state)
is_gone (err f) = f.absent

unfoldable pub has_left : Engine → String → List Event → Bool
has_left o id [] = false
has_left o id (e ∷ t) = (inspects id e && is_gone (o.inspects id t)) || has_left o id t

-- The container that stands for a decided update: the previous image, or the healthy target.
abbrev pub settles : SelfUpdateJob → Container → Bool
settles job c =
    c.image =ₛ job.old_image_id || (c.image =ₛ job.target_image_id && health_is "healthy" c.state)

may_work-is_gone : (r : Result Failure Container) → may_work r ≡ false → is_gone r ≡ true
may_work-is_gone (ok c) h = rw (h) refl
may_work-is_gone (err f) h = ground arith

accepted_self-same : (hostname : String) (c d : Container) → accepted_self hostname c ≡ ok d → d ≡ c
unfolding accepted_self
accepted_self-same hostname c d h = ground arith

module _ (o : Engine) (hostname : String) (job : SelfUpdateJob) (locks : List Lock)
    (holder : String) (held : lock_holder yard_self locks ≡ some holder) where
  -- What the end has to show, and what is known once a container `c` was looked at.
  abbrev shown_both : List Event → Bool
  shown_both t = has_left o (worker_name job) t && shows o (settles job) hostname t

  abbrev shown_if : Bool → List Event → Bool
  shown_if b t = has_left o (worker_name job) t && (not b || shows o (settles job) hostname t)

  shown_if-Stays : (b : Bool) → Stays (shown_if b)
  unfolding has_left shows
  shown_if-Stays b e t h = ground arith

  abbrev Frees : Site → Type 0
  Frees v = lock_holder yard_self v.database.db.locks ≡ none → shown_both v.trace ≡ true

  still_held : (v : Site) → v.database.db.locks ≡ locks → Frees v
  still_held v h k = cc (h, held, k)

  -- The two transactions that may end the update.
  finished-Frees :
      (status message : String) (recovery : Bool) (v : Site)
      → v.database.db.locks ≡ locks
      → (recovery ≡ false → shown_if true v.trace ≡ true)
      → Frees (site_of (finish_update o job.id status message recovery "" v))
  finished-Frees status message recovery v h k =
      answered (is_open v.connection) (o.answers (finish status recovery) v.trace)
        (finish_self_update_outcome (o.now v.trace) job.id status message recovery "" v.database)
        refl
    where
      answered :
          (b : Bool) (a : Option Failure) (t : Tx SelfUpdate)
          → finish_self_update_outcome (o.now v.trace) job.id status message recovery "" v.database
            ≡ t
          → Frees (site_of (attempted o (finish status recovery) v b a t))
      answered false a t q = still_held (log_event (asked (finish status recovery) false) v) h
      answered true (some f) t q = still_held (log_event (asked (finish status recovery) false) v) h
      answered true none (err e) q =
          still_held (log_event (asked (finish status recovery) false) v) h
      answered true none (ok s) q =
          let same =
            finished-locks (o.now v.trace) job.id status message recovery "" v.database s q in
          elim (Bool-cases recovery) [
            | inl c ↦
                still_held
                  (log_event (asked (finish status recovery) true) (record v { database = s }))
                  (same
                    ∙ ap
                        (λ b. if b then v.database.db.locks else release job.id v.database.db.locks)
                        c
                    ∙ h)
            | inr c ↦ λ n. shown_if-Stays true (asked (finish status recovery) true) v.trace (k c)
          ]

  abbrev Looked : Container → Site → Type 0
  Looked c v = IsLocked locks (shown_if (settles job c)) v

  decided :
      (c : Container) (v : Site) → settles job c ≡ true → Looked c v → shown_if true v.trace ≡ true
  decided c v s h = ap (λ b. shown_if b v.trace) (sym s) ∙ h.kept

  save_interrupted-Frees :
      (c : Container) (r : String × Site) → Looked c r.1 → Frees (save_interrupted o job c r)
  save_interrupted-Frees c (message, v) h =
      finished-Frees "failed" message (not (c.image =ₛ job.old_image_id)) v h.current
        (λ q. decided c v (ground (arith, q)) h)

  retagged-Looked : (c : Container) (v : Site) → Looked c v → Looked c (retagged o job c v).1
  retagged-Looked c v h =
      if_looked (c.image =ₛ job.old_image_id) _ (exited_message job c, v)
        (told_again (call o (tag job.old_image_id) v) (
          call-IsLocked o locks (shown_if (settles job c)) (shown_if-Stays (settles job c))
            (tag job.old_image_id) v h))
        h
    where
      told_again :
          (r : Result String (Unit {0}) × Site)
          → Looked c (site_of r)
          → Looked c (with_tag_error (exited_message job c) r).1
      told_again (ok _, u) k = k
      told_again (err x, u) k = k

      if_looked :
          (b : Bool) (r s : String × Site)
          → Looked c r.1
          → Looked c s.1
          → Looked c (if b then r else s).1
      if_looked true r s h k = h
      if_looked false r s h k = k

  concluded-Frees : (c : Container) (v : Site) → Looked c v → Frees (concluded o job (ok c, v))
  concluded-Frees c v h = elim (Bool-cases (is_target job "healthy" c)) [
    | inl q ↦
        rw (q)
          (finished-Frees "succeeded" "" false v h.current (λ _. decided c v (ground (arith, q)) h))
    | inr q ↦ elim (Bool-cases (is_target job "starting" c)) [
      | inl k ↦ rw (q, k) (still_held v h.current)
      | inr k ↦ rw (q, k) (save_interrupted-Frees c (retagged o job c v) (retagged-Looked c v h))
    ]
  ]

  -- From the look at Yard's own container on.
  looked-Frees :
      (w : Site)
      → IsLocked locks (has_left o (worker_name job)) w
      → Frees (concluded o job (own_container o (ok hostname) w))
  unfolding own_container has_left shows
  looked-Frees w h = shown_self (o.inspects hostname w.trace) refl
    where
      accepting :
          (c : Container) (v : Site) (r : Result String Container)
          → accepted_self hostname c ≡ r
          → Looked c v
          → Frees (concluded o job (r, v))
      accepting c v (err x) q k = still_held v k.current
      accepting c v (ok d) q k =
          subst (λ z. Frees (concluded o job (ok z, v))) (sym (accepted_self-same hostname c d q))
            (concluded-Frees c v k)

      shown_self :
          (r : Result Failure Container)
          → o.inspects hostname w.trace ≡ r
          → Frees (concluded o job (identified hostname (shown_as hostname w r)))
      shown_self (err f) q = still_held (log_event (asked (inspect hostname) false) w) h.current
      shown_self (ok c) q =
          accepting c (log_event (asked (inspect hostname) true) w) (accepted_self hostname c) refl
            (record {
              current = h.current;
              saved = h.saved;
              kept = rw (eq_refl hostname, q, h.kept) (ground arith);
            })

  -- From the look at the worker on.
  unless_working-Frees :
      (w : Site)
      → IsLocked locks anything w
      → Frees (unless_working o (ok hostname) job w (o.inspects (worker_name job) w.trace))
  unfolding has_left
  unless_working-Frees w h = elim (Bool-cases (may_work (o.inspects (worker_name job) w.trace))) [
    | inl q ↦ rw (q) (
        still_held
          (log_event
            (asked (inspect (worker_name job)) (is_ok (o.inspects (worker_name job) w.trace))) w)
          h.current)
    | inr q ↦ rw (q) (
        looked-Frees _ (record {
          current = h.current;
          saved = h.saved;
          kept =
              rw
                (
                  eq_refl (worker_name job),
                  may_work-is_gone (o.inspects (worker_name job) w.trace) q,
                )
                refl;
        }))
  ]

  resolved-Frees :
      (w : Site)
      → IsLocked locks anything w
      → (job.status =ₛ "updating") ≡ true
      → Frees (resolved o (ok hostname) job w)
  unfolding resolved
  resolved-Frees w h u = rw (u) (dialling (o.answers dial w.trace))
    where
      dialling : (a : Option Failure) → Frees (inspected_worker o (ok hostname) job (told dial w a))
      dialling none =
          unless_working-Frees (log_event (asked dial true) w)
            (log-IsLocked o locks anything anything-Stays (asked dial true) w h)
      dialling (some f) = still_held (log_event (asked dial false) w) h.current

  pub latest-Frees :
      (w : Site)
      → IsLocked locks anything w
      → latest_self_update_job w.database.updates ≡ some job
      → (job.status =ₛ "updating") ≡ true
      → Frees (reconcile_interrupted_job o (ok hostname) w)
  unfolding reconcile_interrupted_job
  latest-Frees w h l u = rw (l) (asking_latest (o.answers read_latest w.trace))
    where
      asking_latest :
          (a : Option Failure)
          → Frees (resolved_latest o (ok hostname) (queried o read_latest w a (ok (some job))))
      asking_latest none =
          resolved-Frees (log_event (asked read_latest true) w)
            (log-IsLocked o locks anything anything-Stays (asked read_latest true) w h) u
      asking_latest (some f) = still_held (log_event (asked read_latest false) w) h.current

-- When the latest update is still `updating`, yard:self is locked and there is no snapshot: if
-- reconcileInterruptedJob, started with an empty trace, leaves yard:self free, then Docker has
-- answered that there is no container of the worker, or shown that it does not run, and has shown Yard's own
-- container with the image from before the update, or with the target image and healthy. Whatever
-- Docker, SQLite and the files answer.
pub reconciliation_frees_soundly :
    (o : Engine) (hostname holder : String) (job : SelfUpdateJob) (w : Site)
    → w.trace ≡ []
    → w.backup ≡ none
    → latest_self_update_job w.database.updates ≡ some job
    → (job.status =ₛ "updating") ≡ true
    → lock_holder yard_self w.database.db.locks ≡ some holder
    → lock_holder yard_self (reconcile_interrupted_job o (ok hostname) w).database.db.locks ≡ none
    → (has_left o (worker_name job) (reconcile_interrupted_job o (ok hostname) w).trace
        && shows o (settles job) hostname (reconcile_interrupted_job o (ok hostname) w).trace)
      ≡ true
reconciliation_frees_soundly o hostname holder job w t b l u held free =
    latest-Frees o hostname job w.database.db.locks holder held w
      (record { current = refl; saved = rw (b) tt; kept = refl }) l u free
