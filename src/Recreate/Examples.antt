-- ===== src/Recreate/Examples.antt =====
-- The theorems of the worker on one container.
use nox_yard.Recreate.Verified.{verified_was_shown, shown_verified}
use nox_yard.Recreate.Restored.{for_entry}
use nox_yard.Prelude.{
  get_elem?, every, ◌=ₛ◌, if◌then◌else◌, ok, String, ◌≡◌, refl, Bool, true, false, Option, none,
  some, List, [], ◌∷◌,
}
use nox_yard.Recreate.{Entry, Journal, finish, Event, asked, Inspection, Engine, World}
use nox_yard.Recreate.Steps.{
  readiness, ready, retain, replace, verify_entry, remove_candidate, restore_name, restore_touched,
  restore, rollback,
}
use nox_yard.Recreate.Worker.{
  positions, execute_entries, root_of, check_fingerprint, prepare, prepare_all, finish_with,
  skip_unless, end_for_reason, end_if_unchanged, assess, complete, mutate, settle, conclude, handle,
  execute,
}
use nox_yard.Recreate.Trace.{is_safe}
use nox_yard.Recreate.Safety.{worker_asks_safely}
use nox_yard.Recreate.Rollback.{is_rolled_back, rolled_back_restores}
use nox_yard.Recreate.Cleanup.{is_replaced, cleanup, is_cleaning, cleanup_removes_retained}

abbrev web : Entry
web = record {
  id = "old";
  name = "/web";
  image = "i1";
  running = true;
  networks = "edge" ∷ [];
  volumes = [];
  settings = "s";
  labels = [];
  reference = "web:1";
  platform = "linux/amd64";
  one_shot = false;
  backup = "keep";
  target_image = "";
  new_id = "";
  touched = false;
}

abbrev update_web : Journal
update_web = record {
  request_id = "container:old";
  operation = "update";
  fingerprint = "f";
  scheduled = false;
  target_id = "container:old";
  entries = web ∷ [];
  order = 0 ∷ [];
  mutated = false;
}

abbrev running_as : String → String → Bool → Inspection
running_as name image running = record {
  name = name;
  image = image;
  settings = "s";
  networks = [];
  has_state = true;
  running = running;
  unstable = false;
  exited = false;
  exit_code = 0;
  health = "healthy";
  steady = true;
}

-- Docker accepts everything; what it shows of the original is the second argument.
abbrev docker : Inspection → Engine
docker shown = record {
  hostname = "yard";
  answers = λ c t. none;
  creates = λ t. ok "new";
  inspects = λ id t. ok (if id =ₛ "old" then shown else running_as "/web" "i2" true);
  images = λ r t. ok (record { id = "i2"; platform = "linux/amd64"; volumes = [] });
  fingerprints = λ t. ok "f";
  enables = λ t. ok true;
  candidates = λ t. ok "";
  expires = λ t. false;
  creation = λ e root. "s";
  is_retained = λ a b. a =ₛ b;
  is_created = λ a b. a =ₛ b;
  is_restored = λ a b. a =ₛ b;
  polls = 2;
}

abbrev agreeing : Engine
agreeing = docker (running_as "/keep" "i1" false)

worker_asks_safely_example :
    is_safe (execute agreeing (record { trace = []; journal = update_web })).trace ≡ true
worker_asks_safely_example = worker_asks_safely agreeing update_web refl

-- A job whose replacement was created and did not start.
abbrev half_done : World
half_done = record {
  trace = [];
  journal = record update_web {
    entries = record web { touched = true; new_id = "new" } ∷ [];
    mutated = true;
  };
}

abbrev keeping : Engine
keeping = docker (running_as "/web" "i1" true)

rolled_back_restores_example :
    is_rolled_back keeping half_done.journal (settle keeping false half_done).1.trace ≡ true
unfolding settle rollback remove_candidate restore restore_touched restore_name ready readiness
rolled_back_restores_example = rolled_back_restores keeping false half_done refl

-- The whole run, by its last call.
abbrev last_call : List Event → Option Event
last_call [] = none
last_call (e ∷ t) = some e

verified_run :
    last_call (execute agreeing (record { trace = []; journal = update_web })).trace
    ≡ some (asked (finish "succeeded" "verified" "") true)
unfolding execute execute_entries assess check_fingerprint prepare_all prepare skip_unless
    end_for_reason end_if_unchanged finish_with mutate root_of retain replace verify_entry complete
    ready readiness handle settle conclude
verified_run = refl

cleanup_removes_retained_example :
    let t =
      (cleanup agreeing "succeeded" "verified"
        (record { trace = []; journal = record update_web { entries = web ∷ [] } })).1.trace in
    (is_cleaning agreeing (web ∷ []) t ≡ true)
    × (is_replaced agreeing "succeeded" "verified" ≡ false → t ≡ [])
cleanup_removes_retained_example =
    cleanup_removes_retained agreeing "succeeded" "verified"
      (record update_web { entries = web ∷ [] })

abbrev assessed : World
assessed = record {
  trace = [];
  journal = record update_web { entries = record web { target_image = "i2" } ∷ [] };
}

verified_was_shown_example :
    every
      (λ i.
        for_entry agreeing
          (shown_verified agreeing (root_of assessed.journal) (mutate agreeing assessed).1.trace)
          (get_elem? (mutate agreeing assessed).1.journal.entries i))
      (positions 0 assessed.journal.entries)
    ≡ true
unfolding mutate root_of retain replace verify_entry complete finish_with ready readiness
verified_was_shown_example = verified_was_shown agreeing assessed refl
