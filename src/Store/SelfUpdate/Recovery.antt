-- ===== src/Store/SelfUpdate/Recovery.antt =====
-- store/self_update.go: how long Yard's own update keeps Yard to itself.
use nox_yard.Store.Machine.{MachineSettings, Machine, save_row, save_machine_settings}
use nox_yard.Store.Schedules.{scheduled_job}
use nox_yard.Prelude.{
  ◌=ₛ◌, if◌then◌else◌, other_text, mem, mem-append, ◌++ₛ◌, err, ok, guard, is_ok, >>=-eq-ok,
  guard-eq-ok, Result-cases, >>=-refuses, ℕ, String, ◌≡◌, refl, ◌∙◌, inl, inr, Bool, true, false,
  ◌||◌, Option, none, some, List, [], ◌∷◌, arith, eq_iff, eq_refl,
}
use nox_yard.Store.Types.{invalid_status, not_active, Job, Lock, ScheduleOccurrence, Db}
use nox_yard.Store.Tables.{update_where, count_where, lock_holder, release}
use nox_yard.Store.Tables.Locks.{UniqueLocks, lock_holder-release, release-UniqueLocks}
use nox_yard.Store.Keys.{unique_keys, claim_keys}
use nox_yard.Store.Keys.Claiming.{claim_keys-Claimed}
use nox_yard.Store.Keys.Sets.{mem-unique_keys}
use nox_yard.Store.Jobs.{new_job, take_locks, insert_job}
use nox_yard.Store.SelfUpdate.{
  SelfUpdateJob, SelfUpdate, find_update, self_resources, self_operation, create_self_update_job,
  failed_digest_of, finish_operation, is_active_update, finish_self_update_outcome,
}

abbrev pub yard_self : String
yard_self = "yard:self"

-- The journalled operation runs, and names Yard.
pub self_operation-running :
    (now : ℕ) (owner : String) (occurrence : Option ScheduleOccurrence) (x : SelfUpdateJob)
    → ((self_operation now owner occurrence x).status ≡ "running")
      × ((self_operation now owner occurrence x).id ≡ x.id)
unfolding self_operation scheduled_job new_job
self_operation-running now owner none x = (refl, refl)
self_operation-running now owner (some o) x = (refl, refl)

self_resources-names :
    (x : SelfUpdateJob) (rs : List String)
    → mem yard_self rs ≡ true
    → mem yard_self (self_resources x rs) ≡ true
unfolding self_resources
self_resources-names x rs h =
    ground (arith, mem-append yard_self rs (("container:" ++ₛ x.container_id) ∷ []))

self_operation-names :
    (now : ℕ) (owner : String) (occurrence : Option ScheduleOccurrence) (x : SelfUpdateJob)
    → mem yard_self (self_operation now owner occurrence x).resources ≡ true
unfolding self_operation scheduled_job new_job
self_operation-names now owner none x = self_resources-names x _ refl
self_operation-names now owner (some o) x = self_resources-names x _ refl

-- A committed insertion of a running job, taken apart.
insert_job-locks :
    (j : Job) (db after : Db)
    → j.status ≡ "running"
    → insert_job j db ≡ ok after
    → claim_keys (unique_keys (j.target_id ∷ j.resources)) j.id db.locks ≡ ok after.locks
unfolding insert_job take_locks
insert_job-locks j db after running h = ground (arith, eq_iff j.status "running")

-- A job that names a locked resource cannot be inserted.
insert_job-blocked :
    (j : Job) (db : Db) (r holder : String)
    → j.status ≡ "running"
    → (r =ₛ "") ≡ false
    → mem r j.resources ≡ true
    → UniqueLocks db.locks
    → lock_holder r db.locks ≡ some holder
    → is_ok (insert_job j db) ≡ false
insert_job-blocked j db r holder running named m u held = elim (Result-cases (insert_job j db)) [
  | inl (e, f) ↦ rw (f) refl
  | inr (after, f) ↦ cc (
    (claim_keys-Claimed (unique_keys (j.target_id ∷ j.resources)) j.id db.locks u
          (insert_job-locks j db after running f)).free
        r (ground (arith, mem-unique_keys r (j.target_id ∷ j.resources))),
    held,
  )
]

pub created-db :
    (now : ℕ) (owner : String) (occurrence : Option ScheduleOccurrence) (x : SelfUpdateJob)
    (s after : SelfUpdate)
    → create_self_update_job now owner occurrence x s ≡ ok after
    → insert_job (self_operation now owner occurrence x) s.db ≡ ok after.db
unfolding create_self_update_job
created-db now owner occurrence x s after h =
    let (db, e, rest) = >>=-eq-ok (insert_job (self_operation now owner occurrence x) s.db) _ h in
    e ∙ ground arith

created-claimed :
    (now : ℕ) (owner : String) (occurrence : Option ScheduleOccurrence) (x : SelfUpdateJob)
    (s after : SelfUpdate)
    → UniqueLocks s.db.locks
    → create_self_update_job now owner occurrence x s ≡ ok after
    → (UniqueLocks after.db.locks) × (lock_holder yard_self after.db.locks ≡ some x.id)
created-claimed now owner occurrence x s after u h =
    let j = self_operation now owner occurrence x in
    let (running, same) = self_operation-running now owner occurrence x in
    let c =
      claim_keys-Claimed (unique_keys (j.target_id ∷ j.resources)) j.id s.db.locks u
        (insert_job-locks j s.db after.db running (created-db now owner occurrence x s after h)) in
    (
      c.unique,
      c.given yard_self
          ∙ rw (mem-unique_keys yard_self (j.target_id ∷ j.resources), same)
              (ground (arith, self_operation-names now owner occurrence x)),
    )

pub finished-locks :
    (now : ℕ) (id status message : String) (recovery : Bool) (rollback : String)
    (s after : SelfUpdate)
    → finish_self_update_outcome now id status message recovery rollback s ≡ ok after
    → after.db.locks ≡ (if recovery then s.db.locks else release id s.db.locks)
unfolding finish_self_update_outcome finish_operation
finished-locks now id status message recovery rollback s after h = ground arith

held_while :
    (id : String) (recovery : Bool) (locks : List Lock)
    → UniqueLocks locks
    → lock_holder yard_self locks ≡ some id
    → (lock_holder yard_self (if recovery then locks else release id locks)
        ≡ (if recovery then some id else none))
      × UniqueLocks (if recovery then locks else release id locks)
held_while id true locks u e = (e, u)
held_while id false locks u e = (
  rw (lock_holder-release id yard_self locks u, e, eq_refl id) refl,
  release-UniqueLocks id locks u,
)

create-blocked :
    (now : ℕ) (owner : String) (occurrence : Option ScheduleOccurrence) (y : SelfUpdateJob)
    (s : SelfUpdate) (holder : String)
    → UniqueLocks s.db.locks
    → lock_holder yard_self s.db.locks ≡ some holder
    → is_ok (create_self_update_job now owner occurrence y s) ≡ false
unfolding create_self_update_job
create-blocked now owner occurrence y s holder u held =
    >>=-refuses (insert_job (self_operation now owner occurrence y) s.db) _ (
      insert_job-blocked (self_operation now owner occurrence y) s.db yard_self holder
        (self_operation-running now owner occurrence y).0 refl
        (self_operation-names now owner occurrence y) u held)

save-blocked :
    (v : MachineSettings) (locks : List Lock) (m : Machine) (holder : String)
    → lock_holder yard_self locks ≡ some holder
    → is_ok (save_machine_settings v locks m) ≡ false
unfolding save_machine_settings save_row
save-blocked v locks m holder held = ground arith

-- When the locks of the database have one holder each: after a committed CreateSelfUpdateJob whose
-- update FinishSelfUpdateOutcome has ended, the resource yard:self is free, unless the update needs
-- recovery. Then its job holds yard:self still, and no further self-update can be created, by
-- whatever owner, at whatever time, scheduled or not, and no machine settings can be saved.
pub recovery_keeps_yard :
    (now later : ℕ) (owner : String) (occurrence : Option ScheduleOccurrence) (x : SelfUpdateJob)
    → (status message rollback : String) (recovery : Bool) (s mid after : SelfUpdate)
    → UniqueLocks s.db.locks
    → create_self_update_job now owner occurrence x s ≡ ok mid
    → finish_self_update_outcome later x.id status message recovery rollback mid ≡ ok after
    → (lock_holder yard_self after.db.locks ≡ (if recovery then some x.id else none))
      × (recovery ≡ true
          → (time : ℕ) (sender : String) (plan : Option ScheduleOccurrence) (y : SelfUpdateJob)
          → is_ok (create_self_update_job time sender plan y after) ≡ false)
      × (recovery ≡ true
          → (v : MachineSettings) (m : Machine)
          → is_ok (save_machine_settings v after.db.locks m) ≡ false)
recovery_keeps_yard now later owner occurrence x status message rollback recovery s mid after u c
      f =
    let (unique, held) = created-claimed now owner occurrence x s mid u c in
    let same = finished-locks later x.id status message recovery rollback mid after f in
    let (kept, unique_after) = held_while x.id recovery mid.db.locks unique held in
    (
      rw (same) kept,
      λ r time sender plan y.
          create-blocked time sender plan y after x.id (rw (same) unique_after)
            (rw (same, kept, r) refl),
      λ r v m. save-blocked v after.db.locks m x.id (rw (same, kept, r) refl),
    )

-- Nothing matches an active update any more once one has ended.
ended_update :
    (now : ℕ) (id status message : String) (xs : List SelfUpdateJob)
    → (status =ₛ "updating") ≡ false
    → count_where (is_active_update id) (
        update_where
          (is_active_update id)
          (λ x. record x { status = status; error = message; completed_at = now })
          xs)
      ≡ 0
unfolding update_where count_where is_active_update
ended_update now id status message [] n = refl
ended_update now id status message (x ∷ xs) n =
    ground (arith, ended_update now id status message xs n)

not_updating :
    (status : String)
    → (status =ₛ "succeeded" || status =ₛ "failed") ≡ true
    → (status =ₛ "updating") ≡ false
not_updating status h = ground (
  arith,
  other_text status "succeeded" "updating" refl,
  other_text status "failed" "updating" refl,
)

-- After a committed FinishSelfUpdateOutcome, a second one on the same job is refused as not active,
-- and the failed image is the target of the job if it failed, none otherwise.
pub finish_self_update_once :
    (now later : ℕ) (id status message rollback result reason undo : String)
    (recovery uncertain : Bool) (s after : SelfUpdate) (x : SelfUpdateJob)
    → find_update id s.updates ≡ some x
    → finish_self_update_outcome now id status message recovery rollback s ≡ ok after
    → (result =ₛ "succeeded" || result =ₛ "failed") ≡ true
    → (finish_self_update_outcome later id result reason uncertain undo after ≡ err not_active)
      × (after.settings.failed_digest ≡ (if status =ₛ "failed" then x.target_digest else ""))
      × (after.settings.automatic ≡ s.settings.automatic)
unfolding finish_self_update_outcome failed_digest_of
finish_self_update_once now later id status message rollback result reason undo recovery uncertain s
      after x e h valid =
    let (_, g, _) =
      >>=-eq-ok (guard (status =ₛ "succeeded" || status =ₛ "failed") invalid_status) _ h in
    (
      ground (
        arith,
        ended_update now id status message s.updates (not_updating status (guard-eq-ok _ _ g)),
      ),
      ground arith,
      ground arith,
    )
