-- ===== src/Store/Exclusion/Retarget.antt =====
-- RetargetJob: the job keeps its keys and takes further ones, unless another job holds them.
use nox_yard.Store.Exclusion.Updates.{update_jobs-ok}
use nox_yard.Store.Schedules.{retarget_schedules}
use nox_yard.Store.Keys.{reserve_keys}
use nox_yard.Prelude.{
  refl, subst₂, guard-eq-ok, >>=-eq-ok, guard, ok, ℕ, Option-cases, ◌=ₛ◌, Bool-cases, eq_of_test,
  ne_of_test, mem, mem-append, String, ◌≡◌, ◌≢◌, inl, inr, Bool, true, false, ◌&&◌, ◌||◌, not, some,
  List, [], ◌∷◌, ◌++◌, arith, eq_iff, eq_refl,
}
use nox_yard.Store.Types.{job_changed, Job, Row, Lock}
use nox_yard.Store.Tables.{update_where, find_row}
use nox_yard.Store.Tables.Rows.{find_row-update_where, update_where-UniqueIds}
use nox_yard.Store.Tables.Locks.{is_held_by}
use nox_yard.Store.Keys.Sets.{mem-unique_keys}
use nox_yard.Store.Keys.Claiming.{reserve_keys-Reserved, Reserved}
use nox_yard.Store.Jobs.{
  retargeted, retarget_row, update_jobs, owned_running, retarget_job, retarget_keys,
}
use nox_yard.Store.Exclusion.{IsSound, Db, lock_holder, claims, Sound}
use nox_yard.Store.Exclusion.Endings.{claims-others}

mem-retarget_keys :
    (r target : String) (resources : List String) (j : Job)
    → mem r (retarget_keys j target resources)
      ≡ (not (r =ₛ "") && ((mem r j.resources || mem r resources) || (target =ₛ r || false)))
unfolding retarget_keys
mem-retarget_keys r target resources j = rw (
  mem-unique_keys r ((j.resources ++ resources) ++ target ∷ []),
  mem-append r (j.resources ++ resources) (target ∷ []),
  mem-append r j.resources resources,
)

module _ (rows : List Row) (locks after : List Lock) (id : String) (hit : Row → Bool)
    (f : Row → Row) (x : Row) (found : find_row id rows ≡ some x) (hits : hit x ≡ true)
    (running : (x.job.status =ₛ "running") ≡ true) (same_id : (y : Row) → (f y).job.id ≡ y.job.id)
    (same_status : (y : Row) → (f y).job.status ≡ y.job.status)
    (only : (y : Row) → hit y ≡ true → y.job.id ≡ id)
    (keeps : (r : String)
      → mem r x.job.resources ≡ true
      → (r =ₛ "") ≡ false
      → mem r (f x).job.resources ≡ true)
    (filled : mem "" (f x).job.resources ≡ false) (c : Reserved (f x).job.resources id locks after)
    (s : Sound rows locks) where
  -- The job's own keys.
  own : (r : String) → is_held_by r id after ≡ claims (update_where hit f rows) id r
  own r =
      rw
        (
          find_row-update_where hit f same_id id rows,
          found,
          hits,
          c.given r,
          same_status x,
          running,
        )
        (ground (arith, s.agree r id, keeps r, s.named, eq_iff r "", eq_refl id))

  others : (r h : String) → h ≢ id → is_held_by r h after ≡ claims (update_where hit f rows) h r
  others r h ne =
      rw (claims-others id hit f same_id only h r rows ne, c.given r, ← s.agree r h)
        elim (Option-cases (lock_holder r locks)) [
          | inl e ↦ rw e (ground (arith, eq_iff id h))
          | inr (o, e) ↦ rw e (ground (arith, c.free r o, eq_iff id h, eq_iff o h))
        ]

  pub reserve-Sound : Sound (update_where hit f rows) after
  reserve-Sound = record {
    ids = update_where-UniqueIds hit f same_id rows s.ids;
    resources = c.unique;
    named = rw (c.given "", filled, s.named);
    agree = λ r h. elim (Bool-cases (h =ₛ id)) [
      | inl same ↦ rw (eq_of_test h id same) (own r)
      | inr ne ↦ others r h (ne_of_test h id ne)
    ];
  }

pub owned_running_id :
    (id owner : String) (y : Row) → owned_running id owner y ≡ true → y.job.id ≡ id
unfolding owned_running
owned_running_id id owner y h = ground (arith, eq_iff y.job.id id)

owned_running_status :
    (id owner : String) (y : Row)
    → owned_running id owner y ≡ true
    → (y.job.status =ₛ "running") ≡ true
unfolding owned_running
owned_running_status id owner y h = ground arith

retarget_row-IsSound :
    (now : ℕ) (id owner target : String) (resources : List String) (x : Row) (db : Db) {after : Db}
    → find_row id db.jobs ≡ some x
    → IsSound db
    → retarget_row now id owner target (retarget_keys x.job target resources) x db ≡ ok after
    → IsSound after
unfolding retarget_row
retarget_row-IsSound now id owner target resources x db {after} found s h =
    let keys : List String = retarget_keys x.job target resources in
    let hit = owned_running id owner in
    let (_, g, h₁) = >>=-eq-ok (guard (hit x) job_changed) _ h in
    let (locks, c, h₂) = >>=-eq-ok (reserve_keys keys id db.locks) _ h₁ in
    let (marked, e, h₃) = >>=-eq-ok (update_jobs hit (retargeted now target keys) db) _ h₂ in
    let (plans, _, same) =
      >>=-eq-ok
        (retarget_schedules (λ s. s.target_id =ₛ x.job.target_id)
          (λ s. record s { target_id = target }) db.plans)
        _ h₃ in
    let hits : hit x ≡ true = guard-eq-ok _ _ g in
    let jobs : update_where hit (retargeted now target keys) db.jobs ≡ after.jobs =
      ground (arith, same, update_jobs-ok hit (retargeted now target keys) db e) in
    let taken : locks ≡ after.locks = ground (arith, same) in
    subst₂ Sound jobs taken (
      reserve-Sound db.jobs db.locks locks id hit (retargeted now target keys) x found hits
        (owned_running_status id owner x hits) (λ y. refl) (λ y. refl) (owned_running_id id owner)
        (λ r m ne. rw (mem-retarget_keys r target resources x.job, m, ne) refl)
        (mem-retarget_keys "" target resources x.job)
        (reserve_keys-Reserved keys id db.locks s.resources c) s)

pub retarget_job-IsSound :
    (now : ℕ) (id owner target : String) (resources : List String) (db : Db) {after : Db}
    → IsSound db
    → retarget_job now id owner target resources db ≡ ok after
    → IsSound after
unfolding retarget_job
retarget_job-IsSound now id owner target resources db {after} s h =
    elim (Option-cases (find_row id db.jobs)) [
      | inl e ↦ absurd (ground arith)
      | inr (x, e) ↦
          retarget_row-IsSound now id owner target resources x db {after = after} e s (ground arith)
    ]
