-- ===== src/YardUpdate/Examples.antt =====
-- The theorems of Yard's replacement on a run that goes well, and on one whose replacement is ill.
use nox_yard.YardUpdate.{Failure, Mount, Config, Container, Engine, opened, Site, on_db}
use nox_yard.YardUpdate.Worker.{Plan, site_of}
use nox_yard.YardUpdate.Running.{run_replacement, run_worker}
use nox_yard.YardUpdate.Trace.{is_committed, is_guarded}
use nox_yard.YardUpdate.Outliving.{original_outlives_update}
use nox_yard.YardUpdate.Undone.{shows, runs, is_named}
use nox_yard.YardUpdate.Freed.{yard_freed_soundly}
use nox_yard.YardUpdate.Reconciling.{worker_name, reconcile_interrupted_job}
use nox_yard.YardUpdate.Interrupted.{has_left, settles, reconciliation_frees_soundly}
use nox_yard.Workers.{Inspected, shown}
use nox_yard.Store.Exclusion.Steps.{empty_db}
use nox_yard.Store.Keys.{text_le}
use nox_yard.Store.Types.{Tx}
use nox_yard.Store.Tables.{lock_holder}
use nox_yard.Store.Jobs.{set_job_worker, job_progress}
use nox_yard.Store.SelfUpdate.{
  SelfUpdateJob, SelfUpdate, stored_update, create_self_update_job, finish_self_update_outcome,
}
use nox_yard.Prelude.{
  ◌=ₛ◌, if◌then◌else◌, Result, err, ok, ◌>>=◌, is_ok, String, ◌≡◌, refl, ap, subst, ◌⊎◌, true,
  false, ◌&&◌, Option, none, some, [], ◌∷◌,
}

abbrev nothing_yet : SelfUpdate
nothing_yet = record {
  settings = record {
    automatic = true;
    check_interval_minutes = 15;
    last_checked_at = 0;
    last_check_error = "";
    failed_digest = "";
  };
  updates = [];
  db = empty_db;
}

abbrev job_id : String
job_id = "0123456789abcdef01234567"

abbrev new_image : String
new_image = "sha256:0123456789abcdef0123456789abcdef0123456789abcdef0123456789abcdef"

abbrev wanted : SelfUpdateJob
wanted = record {
  id = job_id;
  status = "";
  old_image_id = "i0";
  target_image_id = new_image;
  target_digest = "sha256:1";
  error = "";
  created_at = 0;
  completed_at = 0;
  project_name = "";
  container_id = "c0";
}

abbrev or_nothing : Tx SelfUpdate → SelfUpdate
or_nothing (ok s) = s
or_nothing (err e) = nothing_yet

-- The update is created and its worker registered.
abbrev launched : SelfUpdate
launched = or_nothing (
    create_self_update_job 100 "w" none wanted nothing_yet
    >>= on_db (set_job_worker 101 job_id "w" "worker"))

abbrev mount : String → Mount
mount path = record { destination = path; source = path; writable = true; is_bind = true }

abbrev yard : String → Container
yard health = record {
  id = "c0";
  name = "/nox-yard";
  image = "i0";
  state = some (record { running = true; exit_code = 0; error = ""; health = some health });
  config = some (record {
    image = "i0";
    hostname = "c0";
    labels = ("com.docker.compose.service", "nox-yard") ∷ [];
    health_test = some ("CMD-SHELL" ∷ "wget http://127.0.0.1:8080/healthz" ∷ []);
    rest = "";
  });
  host = some (record { auto_remove = false; rest = "" });
  mounts = mount "/data" ∷ mount "/var/run/docker.sock" ∷ [];
  networks = some (
      (
        "web",
        some (record {
          ipam = "";
          links = [];
          aliases = [];
          driver_opts = [];
          gw_priority = 0;
          assigned = "10.0.0.2";
        }),
      )
      ∷ []);
}

abbrev own_worker : Inspected
own_worker = shown (record {
  id = "worker";
  name = "/nox-yard-update";
  config = some (("nox-yard.job", job_id) ∷ ("nox-yard.owner", "w") ∷ []);
  is_running = true;
  is_restarting = false;
})

-- A host that accepts everything and shows the replacement in a given health.
abbrev host_with : String → Engine
host_with health = record {
  answers = λ c t. none;
  inspects = λ id t. ok (if id =ₛ "c1" then yard health else yard "healthy");
  creates = λ t. ok "c1";
  this_container = λ t. own_worker;
  expires = λ t. false;
  now = λ t. 200;
  describes = λ e. "store";
  complains = λ e. "worker";
  prints = λ n. "0";
  polls = 3;
}

abbrev started : Site
started = record {
  trace = [];
  connection = opened;
  database = launched;
  backup = none;
  new_id = "";
}

abbrev well_done : Site
well_done = site_of (run_worker (host_with "healthy") job_id "c0" started)

abbrev made_id : Result Failure String → String
made_id (ok id) = id
made_id (err f) = ""

original_outlives_update_example :
    (is_guarded (host_with "healthy") "c0" well_done.trace ≡ true)
    × (is_ok (run_worker (host_with "healthy") job_id "c0" started).0 ≡ true
        → is_committed well_done.trace ≡ true)
original_outlives_update_example =
    original_outlives_update (host_with "healthy") job_id "c0" started refl refl refl
      (λ t x h. subst (λ y. (y =ₛ "c0") ≡ false) (ap made_id h) refl)

run_succeeds : is_ok (run_worker (host_with "healthy") job_id "c0" started).0 ≡ true
unfolding run_worker create_self_update_job set_job_worker text_le lock_holder job_progress
    finish_self_update_outcome
run_succeeds = refl

-- A replacement that is ill: the original is started again and Yard is free.
abbrev plan : Plan
plan = record {
  job = stored_update 100 wanted;
  owner = "w";
  old_id = "c0";
  name = "nox-yard";
  options = record {
    config = record {
      image = new_image;
      hostname = "";
      labels = [];
      health_test = none;
      rest = "";
    };
    host = record { auto_remove = false; rest = "" };
    networking = [];
  };
}

abbrev undone : Site
undone = site_of (run_replacement (host_with "unhealthy") plan started)

yard_freed_soundly_example :
    (is_ok (run_replacement (host_with "unhealthy") plan started).0 ≡ true)
    ⊎ ((is_named (host_with "unhealthy") "c0" "nox-yard" undone.trace
          && shows (host_with "unhealthy") runs "c0" undone.trace)
        ≡ true)
unfolding lock_holder create_self_update_job text_le set_job_worker run_replacement job_progress
    finish_self_update_outcome
yard_freed_soundly_example =
    yard_freed_soundly (host_with "unhealthy") plan "0123456789abcdef01234567" started refl refl
      refl refl

-- The worker is gone and the previous image runs: the update failed and Yard is free.
abbrev own_labels : Config → Config
own_labels c = record c { labels = ("com.docker.compose.project", "yard") ∷ c.labels }

abbrev with_config : (Config → Config) → Option Config → Option Config
with_config f none = none
with_config f (some c) = some (f c)

abbrev own_yard : Container
own_yard = record (yard "healthy") { config = with_config own_labels (yard "healthy").config }

abbrev alone : Engine
alone = record (host_with "healthy") {
  inspects = λ id t.
      if id =ₛ "c0"
      then ok own_yard
      else err (record { text = "no such container"; absent = true });
}

abbrev interrupted_job : SelfUpdateJob
interrupted_job = stored_update 100 wanted

reconciliation_frees_soundly_example :
    (has_left alone
        (worker_name interrupted_job)
        (reconcile_interrupted_job alone (ok "c0") started).trace
      && shows alone
          (settles interrupted_job)
          "c0"
          (reconcile_interrupted_job alone (ok "c0") started).trace)
    ≡ true
unfolding lock_holder create_self_update_job text_le set_job_worker reconcile_interrupted_job
    finish_self_update_outcome
reconciliation_frees_soundly_example =
    reconciliation_frees_soundly alone "c0" "0123456789abcdef01234567" interrupted_job started refl
      refl refl refl refl refl
