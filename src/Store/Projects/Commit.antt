-- ===== src/Store/Projects/Commit.antt =====
-- store/managed.go: what CommitManagedJob settles.
use nox_yard.Store.Tables.Locks.{is_held_by, UniqueLocks, is_held_by-release}
use nox_yard.Store.Finality.{finish_job_tx-ok}
use nox_yard.Store.Jobs.{finish_job_tx}
use nox_yard.Store.Types.{Job, Db}
use nox_yard.Prelude.{
  ◌=ₛ◌, if◌then◌else◌, Bool-cases, ok, guard, >>=-eq-ok, guard-eq-ok, ℕ, String, ◌≡◌, refl, ◌∙◌,
  inl, inr, Bool, true, false, Option, none, some, arith, eq_iff, eq_refl,
}
use nox_yard.Store.Projects.{
  job_changed, ManagedProject, Projects, managed_project, file_configuration, files_rule,
  without_sources, with_env_default, save_managed_project, delete_managed_project, commit_project,
  apply_commit, names_job, commit_managed_job,
}
use nox_yard.Store.Projects.Rows.{
  find_project-upsert, find_project-deleted_other, find_project-deleted, find_configuration-deleted,
}

-- A committed CommitManagedJob, taken apart.
pub commit_managed_job-ok :
    (now : ℕ) (j : Job) (context outcome : String) (project : Option ManagedProject) (remove : Bool)
    (db db_after : Db) (t t_after : Projects)
    → commit_managed_job now j context project remove outcome db t ≡ ok (db_after, t_after)
    → (names_job j project ≡ true)
      × (finish_job_tx now j.id j.owner "succeeded" outcome "" "" db ≡ ok db_after)
      × (t_after ≡ apply_commit context j.project_name remove project t)
unfolding commit_managed_job
commit_managed_job-ok now j context outcome project remove db db_after t t_after h =
    let (_, g, rest) = >>=-eq-ok (guard (names_job j project) job_changed) _ h in
    let (mid, f, same) =
      >>=-eq-ok (finish_job_tx now j.id j.owner "succeeded" outcome "" "" db) _ rest in
    (guard-eq-ok _ _ g, f ∙ ground (arith, same), ground (arith, same))

saved-others :
    (other : String) (p : ManagedProject) (t : Projects)
    → (p.name =ₛ other) ≡ false
    → managed_project other (save_managed_project p t) ≡ managed_project other t
unfolding save_managed_project without_sources with_env_default
saved-others other p t n = ground (
  arith,
  find_project-upsert other
      (with_env_default (if files_rule p.name t then without_sources p else p)) t.projects,
)

committed-others :
    (context other : String) (p : ManagedProject) (t : Projects)
    → (p.name =ₛ other) ≡ false
    → managed_project other (commit_project context p t) ≡ managed_project other t
unfolding commit_project without_sources
committed-others context other p t n = elim (Bool-cases (p.project_dir =ₛ "")) [
  | inl e ↦ rw (e) (saved-others other p t n)
  | inr e ↦ rw (e) (saved-others other (without_sources p) _ n)
]

named_other :
    (j : Job) (p : ManagedProject) (other : String)
    → names_job j (some p) ≡ true
    → (j.project_name =ₛ other) ≡ false
    → (p.name =ₛ other) ≡ false
unfolding names_job
named_other j p other h n =
    ground (arith, eq_iff p.name j.project_name, eq_iff j.project_name other, eq_iff p.name other)

applied-others :
    (context other : String) (remove : Bool) (project : Option ManagedProject) (j : Job)
    (t : Projects)
    → names_job j project ≡ true
    → (j.project_name =ₛ other) ≡ false
    → managed_project other (apply_commit context j.project_name remove project t)
      ≡ managed_project other t
unfolding apply_commit delete_managed_project
applied-others context other true project j t h n =
    find_project-deleted_other other j.project_name t.projects n
applied-others context other false none j t h n = refl
applied-others context other false (some p) j t h n =
    committed-others context other p t (named_other j p other h n)

-- When the locks of the database have one holder each: after a committed CommitManagedJob whose
-- outcome is not that recovery is required, its job holds no resource any more; the rows of the
-- other projects are as before; and with `remove` neither the project nor its files have a row.
pub commit_settles_project :
    (now : ℕ) (j : Job) (context outcome : String) (project : Option ManagedProject) (remove : Bool)
    (db db_after : Db) (t t_after : Projects)
    → UniqueLocks db.locks
    → (outcome =ₛ "recovery_required") ≡ false
    → commit_managed_job now j context project remove outcome db t ≡ ok (db_after, t_after)
    → ((r : String) → is_held_by r j.id db_after.locks ≡ false)
      × ((other : String)
          → (j.project_name =ₛ other) ≡ false
          → managed_project other t_after ≡ managed_project other t)
      × (remove ≡ true
          → (managed_project j.project_name t_after ≡ none)
            × (file_configuration j.project_name t_after ≡ none))
unfolding apply_commit delete_managed_project
commit_settles_project now j context outcome project remove db db_after t t_after u free h =
    let (names, f, same) =
      commit_managed_job-ok now j context outcome project remove db db_after t t_after h in
    let (_, _, _, e) = finish_job_tx-ok now j.id j.owner "succeeded" outcome "" "" db f in
    (
      λ r. rw (e, free, is_held_by-release j.id r j.id db.locks u, eq_refl j.id) refl,
      λ other n. rw (same) (applied-others context other remove project j t names n),
      λ all. (
        rw (same, all) (find_project-deleted j.project_name t.projects),
        rw (same, all) (find_configuration-deleted j.project_name t.configurations),
      ),
    )
