-- ===== src/Store/Exclusion/Admission.antt =====
-- A new job takes its locks or is refused; a retargeted one takes the further keys.
use nox_yard.Store.Keys.Sets.{mem-unique_keys}
use nox_yard.Prelude.{
  mem, ◌=ₛ◌, if◌then◌else◌, Bool-cases, Option-cases, is_some, ok, guard, >>=-eq-ok, guard-eq-ok,
  String, ◌≡◌, subst₂, ◌⊎◌, inl, inr, true, false, not, none, List, [], ◌∷◌, ◌++◌, arith, eq_iff,
}
use nox_yard.Store.Types.{constraint, Job, Row, Lock, Db, is_active}
use nox_yard.Store.Tables.{find_row}
use nox_yard.Store.Tables.Rows.{find_row-append, append-UniqueIds}
use nox_yard.Store.Keys.{unique_keys, claim_keys}
use nox_yard.Store.Keys.Claiming.{Claimed, claim_keys-Claimed}
use nox_yard.Store.Schedules.{claim_schedule}
use nox_yard.Store.Outcomes.{finish_schedule}
use nox_yard.Store.Jobs.{stored_row, take_locks, settle_at_once, insert_job, create_job}
use nox_yard.Store.Exclusion.{row_claims, claims, Sound, IsSound}

-- The table after an INSERT: the new row's claims, and those of the old rows.
claims-append :
    (rows : List Row) (x : Row) (h r : String)
    → find_row x.job.id rows ≡ none
    → claims (rows ++ x ∷ []) h r ≡ (if x.job.id =ₛ h then row_claims x r else claims rows h r)
claims-append rows x h r fresh = elim (Option-cases (find_row h rows)) [
  | inl e ↦ rw (find_row-append h rows x, e) (ground arith)
  | inr (y, e) ↦ rw (find_row-append h rows x, e) (ground (arith, eq_iff x.job.id h))
]

insert_running-Sound :
    (rows : List Row) (locks after : List Lock) (x : Row)
    → find_row x.job.id rows ≡ none
    → is_active x.job ≡ true
    → mem "" x.job.resources ≡ false
    → Claimed x.job.resources x.job.id locks after
    → Sound rows locks
    → Sound (rows ++ x ∷ []) after
insert_running-Sound rows locks after x fresh active filled c s = record {
  ids = append-UniqueIds rows x s.ids fresh;
  resources = c.unique;
  named = rw (c.given "", filled, s.named);
  agree = λ r h.
      rw (claims-append rows x h r fresh, c.given r)
        (ground (arith, s.agree r h, s.agree r x.job.id, c.free r, eq_iff x.job.id h));
}

insert_finished-Sound :
    (rows : List Row) (locks : List Lock) (x : Row)
    → find_row x.job.id rows ≡ none
    → is_active x.job ≡ false
    → Sound rows locks
    → Sound (rows ++ x ∷ []) locks
insert_finished-Sound rows locks x fresh ended s = record {
  ids = append-UniqueIds rows x s.ids fresh;
  resources = s.resources;
  named = s.named;
  agree =
      λ r h. rw (claims-append rows x h r fresh) (ground (arith, s.agree r h, eq_iff x.job.id h));
}

-- The callers never insert a job that is at once finished and waiting for recovery.
abbrev pub IsAdmissible : Job → Type 0
IsAdmissible j = (j.status ≡ "running") ⊎ ((j.outcome =ₛ "recovery_required") ≡ false)

pub create_job-IsSound :
    (j : Job) (db : Db) {after : Db}
    → IsAdmissible j
    → IsSound db
    → create_job j db ≡ ok after
    → IsSound after
unfolding insert_job take_locks settle_at_once stored_row
create_job-IsSound j db {after} adm s h =
    let rows = db.jobs ++ stored_row j ∷ [] in
    let (_, g, rest) = >>=-eq-ok (guard (not (is_some (find_row j.id db.jobs))) constraint) _ h in
    let (plans, _, last) = >>=-eq-ok (claim_schedule rows j db.plans) _ rest in
    let fresh : find_row j.id db.jobs ≡ none = ground (arith, guard-eq-ok _ _ g) in
    elim (Bool-cases (j.status =ₛ "running")) [
      | inl running ↦
          let (locks, c, same) =
            >>=-eq-ok (claim_keys (unique_keys (j.target_id ∷ j.resources)) j.id db.locks) _
              (rw running at last) in
          subst₂ Sound (ground (arith, same)) (ground (arith, same)) (
            insert_running-Sound db.jobs db.locks locks (stored_row j) fresh (ground arith)
              (mem-unique_keys "" (j.target_id ∷ j.resources))
              (claim_keys-Claimed _ j.id db.locks s.resources c) s)
      | inr ended ↦
          let (settled, _, same) =
            >>=-eq-ok (finish_schedule rows j.id j.status j.outcome j.error plans) _
              (rw ended at last) in
          subst₂ Sound (ground (arith, same)) (ground (arith, same)) (
            insert_finished-Sound db.jobs db.locks (stored_row j) fresh
              (ground (arith, eq_iff j.status "running")) s)
    ]
