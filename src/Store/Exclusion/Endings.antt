-- ===== src/Store/Exclusion/Endings.antt =====
-- The end of a job: a verified result and an acknowledged recovery free its resources, a result
-- that needs recovery keeps them.
use nox_yard.Store.Outcomes.{finish_schedule}
use nox_yard.Store.Exclusion.Updates.{update_jobs-ok, update_jobs-IsSound, IsQuiet}
use nox_yard.Store.Jobs.{
  acknowledged, finishable, update_jobs, finished, finish_job_tx, acknowledge_recovery,
  acknowledgeable, finish_job,
}
use nox_yard.Prelude.{
  other_text, subst₂, guard-eq-ok, refl, guard, >>=-eq-ok, ◌||◌, ok, ℕ, eq_iff, ◌≢◌, ne_of_test,
  sym, ◌=ₛ◌, Bool-cases, Option-cases, eq_of_test, String, ◌≡◌, inl, inr, Bool, true, false, some,
  List, arith,
}
use nox_yard.Store.Types.{invalid_status, Row, Lock, is_active}
use nox_yard.Store.Tables.{changed, update_where, count_where, find_row, release}
use nox_yard.Store.Tables.Rows.{
  find_row-update_where, find_row_id, UniqueIds, update_where-UniqueIds, count_where-find_row,
}
use nox_yard.Store.Tables.Locks.{lock_holder-release, is_held_by-release, release-UniqueLocks}
use nox_yard.Store.Exclusion.{IsSound, Db, claims, is_held_by, Sound}

module _ (id : String) (hit : Row → Bool) (f : Row → Row)
    (same_id : (x : Row) → (f x).job.id ≡ x.job.id)
    (only : (x : Row) → hit x ≡ true → x.job.id ≡ id) where
  -- The one row that `changed` has seen is the row of the id.
  pub changed-found :
      (rows : List Row)
      → UniqueIds rows
      → count_where hit rows ≡ 1
      → (x : Row) × (find_row id rows ≡ some x) × (hit x ≡ true)
  changed-found rows u c = elim (Option-cases (find_row id rows)) [
    | inl e ↦ absurd (ground (arith, count_where-find_row id hit rows only u))
    | inr (x, e) ↦ (x, e, ground (arith, count_where-find_row id hit rows only u))
  ]

  -- No other job's claims change.
  pub claims-others :
      (h r : String) (rows : List Row)
      → h ≢ id
      → claims (update_where hit f rows) h r ≡ claims rows h r
  claims-others h r rows ne = elim (Option-cases (find_row h rows)) [
    | inl e ↦ rw (find_row-update_where hit f same_id h rows, e)
    | inr (y, e) ↦
        rw (find_row-update_where hit f same_id h rows, e)
          (ground (arith, only y, find_row_id h rows y e))
  ]

  module _ (ends : (x : Row) → hit x ≡ true → is_active (f x).job ≡ false) where
    pub release-Sound :
        (rows : List Row) (locks : List Lock)
        → count_where hit rows ≡ 1
        → Sound rows locks
        → Sound (update_where hit f rows) (release id locks)
    release-Sound rows locks c s = record {
      ids = update_where-UniqueIds hit f same_id rows s.ids;
      resources = release-UniqueLocks id locks s.resources;
      named = rw (lock_holder-release id "" locks s.resources, s.named);
      agree = agree;
    }
      where
        agree :
            (r h : String)
            → is_held_by r h (release id locks) ≡ claims (update_where hit f rows) h r
        agree r h =
            let (x, e, hx) = changed-found rows s.ids c in
            elim (Bool-cases (h =ₛ id)) [
              | inl same ↦
                  rw
                    (
                      is_held_by-release id r h locks s.resources,
                      same,
                      eq_of_test h id same,
                      find_row-update_where hit f same_id id rows,
                      e,
                    )
                    (ground (arith, ends x hx))
              | inr other ↦
                  rw (is_held_by-release id r h locks s.resources, other, s.agree r h)
                    (sym (claims-others h r rows (ne_of_test h id other)))
            ]

pub update_jobs-count :
    (hit : Row → Bool) (f : Row → Row) (db : Db) {after : Db}
    → update_jobs hit f db ≡ ok after
    → count_where hit db.jobs ≡ 1
unfolding update_jobs changed
update_jobs-count hit f db h = ground arith

pub finishable_id : (id owner : String) (x : Row) → finishable id owner x ≡ true → x.job.id ≡ id
unfolding finishable
finishable_id id owner x h = ground (arith, eq_iff x.job.id id)

finished-inactive :
    (now : ℕ) (status outcome message rollback : String) (x : Row)
    → (status =ₛ "running") ≡ false
    → (outcome =ₛ "recovery_required") ≡ false
    → is_active (finished now status outcome message rollback x).job ≡ false
unfolding finished
finished-inactive now status outcome message rollback x h k = ground arith

finished-IsQuiet :
    (now : ℕ) (id owner status outcome message rollback : String)
    → (outcome =ₛ "recovery_required") ≡ true
    → IsQuiet (finishable id owner) (finished now status outcome message rollback)
unfolding finishable finished
finished-IsQuiet now id owner status outcome message rollback k = record {
  id = λ x. refl;
  claim = λ x r h. ground arith;
}

pub finish_job_tx-IsSound :
    (now : ℕ) (id owner status outcome message rollback : String) (db : Db) {after : Db}
    → (status =ₛ "running") ≡ false
    → IsSound db
    → finish_job_tx now id owner status outcome message rollback db ≡ ok after
    → IsSound after
unfolding finish_job_tx
finish_job_tx-IsSound now id owner status outcome message rollback db {after} final s h =
    let hit = finishable id owner in
    let f = finished now status outcome message rollback in
    let (marked, e, rest) = >>=-eq-ok (update_jobs hit f db) _ h in
    let (settled, _, same) =
      >>=-eq-ok (finish_schedule marked.jobs id status outcome message marked.plans) _ rest in
    elim (Bool-cases (outcome =ₛ "recovery_required")) [
      | inl keep ↦
          let kept : IsSound marked =
            update_jobs-IsSound hit f
              (finished-IsQuiet now id owner status outcome message rollback keep) db s e in
          let jobs : marked.jobs ≡ after.jobs = ground (arith, same) in
          let locks : marked.locks ≡ after.locks = ground (arith, same) in
          subst₂ Sound jobs locks kept
      | inr free ↦
          let freed : Sound (update_where hit f db.jobs) (release id db.locks) =
            release-Sound id hit f (unfold finished in λ x. refl) (finishable_id id owner)
              (λ x _. finished-inactive now status outcome message rollback x final free) db.jobs
              db.locks (update_jobs-count hit f db e) s in
          let jobs : update_where hit f db.jobs ≡ after.jobs =
            ground (arith, same, update_jobs-ok hit f db e) in
          let locks : release id db.locks ≡ after.locks =
            ground (arith, same, update_jobs-ok hit f db e) in
          subst₂ Sound jobs locks freed
    ]

pub finish_job-IsSound :
    (now : ℕ) (id owner status outcome message rollback : String) (db : Db) {after : Db}
    → IsSound db
    → finish_job now id owner status outcome message rollback db ≡ ok after
    → IsSound after
unfolding finish_job
finish_job-IsSound now id owner status outcome message rollback db s h =
    let (_, valid, rest) =
      >>=-eq-ok (guard (status =ₛ "succeeded" || status =ₛ "failed") invalid_status) _ h in
    finish_job_tx-IsSound now id owner status outcome message rollback db
      (not_running status (guard-eq-ok _ _ valid)) s rest
  where
    not_running :
        (status : String)
        → (status =ₛ "succeeded" || status =ₛ "failed") ≡ true
        → (status =ₛ "running") ≡ false
    not_running status v = ground (
      arith,
      other_text status "succeeded" "running" refl,
      other_text status "failed" "running" refl,
    )

acknowledgeable_id :
    (id : String) (updated_at : ℕ) (x : Row)
    → acknowledgeable id updated_at x ≡ true
    → x.job.id ≡ id
unfolding acknowledgeable
acknowledgeable_id id updated_at x h = ground (arith, eq_iff x.job.id id)

acknowledged-inactive :
    (now : ℕ) (id : String) (updated_at : ℕ) (x : Row)
    → acknowledgeable id updated_at x ≡ true
    → is_active (acknowledged now x).job ≡ false
unfolding acknowledgeable acknowledged
acknowledged-inactive now id updated_at x h =
    ground (arith, other_text x.job.status "failed" "running" refl)

pub acknowledge_recovery-IsSound :
    (now : ℕ) (id : String) (updated_at : ℕ) (db : Db) {after : Db}
    → IsSound db
    → acknowledge_recovery now id updated_at db ≡ ok after
    → IsSound after
unfolding acknowledge_recovery
acknowledge_recovery-IsSound now id updated_at db {after} s h =
    let hit = acknowledgeable id updated_at in
    let (marked, e, rest) = >>=-eq-ok (update_jobs hit (acknowledged now) db) _ h in
    let (settled, _, same) =
      >>=-eq-ok
        (finish_schedule marked.jobs id "failed" "recovery_acknowledged"
          "Recovery was reviewed; a manual retry is available." marked.plans)
        _ rest in
    let freed : Sound (update_where hit (acknowledged now) db.jobs) (release id db.locks) =
      release-Sound id hit (acknowledged now) (unfold acknowledged in λ x. refl)
        (acknowledgeable_id id updated_at) (acknowledged-inactive now id updated_at) db.jobs
        db.locks (update_jobs-count hit (acknowledged now) db e) s in
    let jobs : update_where hit (acknowledged now) db.jobs ≡ after.jobs =
      ground (arith, same, update_jobs-ok hit (acknowledged now) db e) in
    let locks : release id db.locks ≡ after.locks =
      ground (arith, same, update_jobs-ok hit (acknowledged now) db e) in
    subst₂ Sound jobs locks freed
