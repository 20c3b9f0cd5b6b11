-- ===== src/Store/Projects/Examples.antt =====
-- The theorems of the managed projects at a concrete state.
use nox_yard.Store.Projects.Commit.{commit_settles_project}
use nox_yard.Store.Tables.Locks.{is_held_by}
use nox_yard.Store.Tables.{lock_holder}
use nox_yard.Store.Keys.{text_le}
use nox_yard.Prelude.{◌=ₛ◌, err, ok, String, ◌≡◌, refl, true, false, none, some, List, [], ◌∷◌}
use nox_yard.Store.Types.{Tx, Job, Db}
use nox_yard.Store.Jobs.{new_job}
use nox_yard.Store.Exclusion.Steps.{empty_db}
use nox_yard.Store.Projects.{
  ManagedProject, Projects, managed_project, file_configuration, commit_managed_job,
  create_managed_job,
}
use nox_yard.Store.Projects.Files.{Write, saves, deletes}

abbrev web : ManagedProject
web = record {
  name = "web";
  source_kind = "inline";
  source_url = "";
  filename = "compose.yml";
  yaml = "services: {}";
  variables_json = "{}";
  env_files_json = "{}";
  project_dir = "/srv/web";
}

abbrev deploy : Job
deploy = record (new_job 100 "j1" "w1" "compose:web" "managed" "deploy" []) { project_name = "web" }

abbrev or_empty_db : Tx Db → Db
or_empty_db (ok db) = db
or_empty_db (err e) = empty_db

abbrev deploying : Db
deploying = or_empty_db (create_managed_job 100 deploy empty_db)

abbrev no_projects : Projects
no_projects = record { projects = []; configurations = [] }

abbrev both_or : Tx (Db × Projects) → Db × Projects
both_or (ok r) = r
both_or (err e) = (empty_db, no_projects)

abbrev deployed : Db × Projects
deployed =
    both_or (commit_managed_job 200 deploy "{}" (some web) false "verified" deploying no_projects)

abbrev later : List Write
later = saves web ∷ deletes "db" ∷ saves web ∷ []

abbrev removed : Db × Projects
removed =
    both_or (commit_managed_job 200 deploy "{}" (some web) true "removed" deploying no_projects)

commit_settles_project_example :
    ((r : String) → is_held_by r "j1" removed.0.locks ≡ false)
    × ((other : String)
        → ("web" =ₛ other) ≡ false
        → managed_project other removed.1 ≡ managed_project other no_projects)
    × (true ≡ true
        → (managed_project "web" removed.1 ≡ none) × (file_configuration "web" removed.1 ≡ none))
unfolding commit_managed_job create_managed_job new_job text_le lock_holder
commit_settles_project_example =
    commit_settles_project 200 deploy "{}" "removed" (some web) true deploying removed.0 no_projects
      removed.1 (refl, tt) refl refl
