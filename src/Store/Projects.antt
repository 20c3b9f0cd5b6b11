-- ===== src/Store/Projects.antt =====
-- store/managed.go and store/configuration.go: managed projects and the place of their files.
-- The job's payload is read by encoding/json, so the context in it is an argument.
mod Examples
pub mod Rows
pub mod Files
pub mod Commit
use nox_yard.Prelude.{
  ◌==◌, ◌=ₛ◌, if◌then◌else◌, select, ◌++ₛ◌, ok, ◌>>=◌, ◌>>◌, guard, ℕ, String, Bool, true, false,
  ◌&&◌, ◌||◌, not, Option, none, some, List, [], ◌∷◌,
}
use nox_yard.Store.Types.{job_changed, Tx, Job, Db}
use nox_yard.Store.Jobs.{insert_job, create_job, finished, finish_job_tx, finish_job}

pub record ManagedProject : Type 0 where
  pub name : String
  pub source_kind : String
  pub source_url : String
  pub filename : String
  pub yaml : String
  pub variables_json : String
  pub env_files_json : String
  pub project_dir : String

pub record FileConfiguration : Type 0 where
  pub name : String
  pub directory : String
  pub compose_files : String
  pub state : String
  pub error : String
  pub context : String

-- managed_projects and file_configurations, each with the primary key `name`.
pub record Projects : Type 0 where
  pub projects : List ManagedProject
  pub configurations : List FileConfiguration

unfoldable pub find_project : String → List ManagedProject → Option ManagedProject
find_project name [] = none
find_project name (p ∷ ps) =
    let rest = find_project name ps in if p.name =ₛ name then some p else rest

unfoldable pub find_configuration : String → List FileConfiguration → Option FileConfiguration
find_configuration name [] = none
find_configuration name (c ∷ cs) =
    let rest = find_configuration name cs in if c.name =ₛ name then some c else rest

-- ManagedProject and FileConfiguration read one row.
abbrev pub managed_project : String → Projects → Option ManagedProject
managed_project name t = find_project name t.projects

abbrev pub file_configuration : String → Projects → Option FileConfiguration
file_configuration name t = find_configuration name t.configurations

-- INSERT ... ON CONFLICT(name) DO UPDATE on managed_projects.
unfoldable pub upsert_project : ManagedProject → List ManagedProject → List ManagedProject
upsert_project p [] = p ∷ []
upsert_project p (q ∷ qs) =
    let rest = upsert_project p qs in if q.name =ₛ p.name then p ∷ qs else q ∷ rest

-- The same on file_configurations, where the empty context `{}` keeps the stored one.
unfoldable pub merged : FileConfiguration → FileConfiguration → FileConfiguration
merged c old = record c { context = if c.context =ₛ "{}" then old.context else c.context }

unfoldable pub upsert_configuration :
    FileConfiguration → List FileConfiguration → List FileConfiguration
unfolding merged
upsert_configuration c [] = c ∷ []
upsert_configuration c (d ∷ ds) =
    let rest = upsert_configuration c ds in if d.name =ₛ c.name then merged c d ∷ ds else d ∷ rest

-- SetFileConfiguration
unfoldable pub set_file_configuration : FileConfiguration → Projects → Projects
unfolding upsert_configuration
set_file_configuration c t = record t {
  configurations =
      upsert_configuration (record c { context = if c.context =ₛ "" then "{}" else c.context })
        t.configurations;
}

-- Whether the project's stored YAML is empty and its files are ready.
unfoldable pub has_no_yaml : Option ManagedProject → Bool
has_no_yaml none = false
has_no_yaml (some p) = p.yaml =ₛ ""

unfoldable pub is_ready : Option FileConfiguration → Bool
is_ready none = false
is_ready (some c) = c.state =ₛ "ready"

unfoldable pub files_rule : String → Projects → Bool
unfolding find_project find_configuration has_no_yaml is_ready
files_rule name t = is_ready (file_configuration name t) && has_no_yaml (managed_project name t)

-- The metadata without its sources, and the default of an empty JSON text.
unfoldable pub without_sources : ManagedProject → ManagedProject
without_sources p = record p { yaml = ""; variables_json = "{}"; env_files_json = "{}" }

unfoldable pub with_env_default : ManagedProject → ManagedProject
with_env_default p = record p {
  env_files_json = if p.env_files_json =ₛ "" then "{}" else p.env_files_json;
}

-- saveManagedProject
unfoldable pub save_managed_project : ManagedProject → Projects → Projects
unfolding files_rule without_sources with_env_default upsert_project
save_managed_project p t = record t {
  projects =
      upsert_project (with_env_default (if files_rule p.name t then without_sources p else p))
        t.projects;
}

-- DeleteManagedProject
unfoldable pub delete_managed_project : String → Projects → Projects
delete_managed_project name t = record {
  projects = select (λ p. not (p.name =ₛ name)) t.projects;
  configurations = select (λ c. not (c.name =ₛ name)) t.configurations;
}

-- The configuration that CommitManagedJob records for verified files.
unfoldable pub verified_files : String → ManagedProject → FileConfiguration
verified_files context p = record {
  name = p.name;
  directory = p.project_dir;
  compose_files = "[\"compose.yml\"]";
  state = "ready";
  error = "";
  context = if context =ₛ "" || context =ₛ "null" then "{}" else context;
}

unfoldable pub commit_project : String → ManagedProject → Projects → Projects
unfolding verified_files upsert_configuration save_managed_project without_sources
commit_project context p t =
    if p.project_dir =ₛ ""
    then save_managed_project p t
    else save_managed_project (without_sources p) (record t {
      configurations = upsert_configuration (verified_files context p) t.configurations;
    })

-- What the transaction does to the project once the job has been finished.
unfoldable pub apply_commit : String → String → Bool → Option ManagedProject → Projects → Projects
unfolding delete_managed_project commit_project
apply_commit context name true project t = delete_managed_project name t
apply_commit context name false none t = t
apply_commit context name false (some p) t = commit_project context p t

unfoldable pub names_job : Job → Option ManagedProject → Bool
names_job j none = j.domain =ₛ "managed"
names_job j (some p) = j.domain =ₛ "managed" && p.name =ₛ j.project_name

-- CommitManagedJob
unfoldable pub commit_managed_job :
    ℕ → Job → String → Option ManagedProject → Bool → String → Db → Projects → Tx (Db × Projects)
unfolding names_job finish_job_tx apply_commit
commit_managed_job now j context project remove outcome db t = do
  guard (names_job j project) job_changed
  after ← finish_job_tx now j.id j.owner "succeeded" outcome "" "" db
  ok (after, apply_commit context j.project_name remove project t)

-- CreateManagedJob
unfoldable pub managed_job : ℕ → Job → Job
managed_job now j =
    let created = if j.created_at == 0 then now else j.created_at in
    record j {
      target_id = if j.target_id =ₛ "" then "compose:" ++ₛ j.project_name else j.target_id;
      domain = if j.domain =ₛ "" then "managed" else j.domain;
      stage = if j.stage =ₛ "" then "queued" else j.stage;
      created_at = created;
      updated_at = if j.updated_at == 0 then created else j.updated_at;
    }

unfoldable pub create_managed_job : ℕ → Job → Db → Tx Db
unfolding managed_job insert_job
create_managed_job now j db = create_job (managed_job now j) db

-- FinishManagedJob
unfoldable pub finish_managed_job : ℕ → String → String → String → Db → Tx Db
unfolding finish_job
finish_managed_job now id status message db =
    finish_job now id "" status (if status =ₛ "failed" then "failed" else "verified") message "" db
