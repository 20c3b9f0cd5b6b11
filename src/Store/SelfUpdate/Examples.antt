-- ===== src/Store/SelfUpdate/Examples.antt =====
-- The theorems of Yard's own update at a concrete state.
use nox_yard.Store.Keys.{text_le}
use nox_yard.Prelude.{
  Option, String, ℕ, ◌=ₛ◌, if◌then◌else◌, err, ok, is_ok, ◌≡◌, refl, true, false, none, some, [],
}
use nox_yard.Store.Types.{ScheduleOccurrence, not_active, Tx}
use nox_yard.Store.Tables.{lock_holder}
use nox_yard.Store.Exclusion.Steps.{empty_db}
use nox_yard.Store.Machine.{MachineSettings, Machine, save_machine_settings}
use nox_yard.Store.SelfUpdate.{
  SelfUpdateJob, SelfUpdate, find_update, stored_update, create_self_update_job,
  finish_self_update_outcome,
}
use nox_yard.Store.SelfUpdate.Recovery.{recovery_keeps_yard, finish_self_update_once}

abbrev idle : SelfUpdate
idle = record {
  settings = record {
    automatic = true;
    check_interval_minutes = 15;
    last_checked_at = 0;
    last_check_error = "";
    failed_digest = "";
  };
  updates = [];
  db = empty_db;
}

abbrev update_one : SelfUpdateJob
update_one = record {
  id = "u1";
  status = "";
  old_image_id = "i0";
  target_image_id = "i1";
  target_digest = "sha256:1";
  error = "";
  created_at = 0;
  completed_at = 0;
  project_name = "";
  container_id = "c0";
}

abbrev or_idle : Tx SelfUpdate → SelfUpdate
or_idle (ok s) = s
or_idle (err e) = idle

abbrev updating : SelfUpdate
updating = or_idle (create_self_update_job 100 "w" none update_one idle)

abbrev uncertain : SelfUpdate
uncertain = or_idle (finish_self_update_outcome 200 "u1" "failed" "no answer" true "" updating)

recovery_keeps_yard_example :
    (lock_holder "yard:self" uncertain.db.locks ≡ (if true then some "u1" else none))
    × (true ≡ true
        → (time : ℕ) (sender : String) (plan : Option ScheduleOccurrence) (y : SelfUpdateJob)
        → is_ok (create_self_update_job time sender plan y uncertain) ≡ false)
    × (true ≡ true
        → (v : MachineSettings) (m : Machine)
        → is_ok (save_machine_settings v uncertain.db.locks m) ≡ false)
unfolding create_self_update_job finish_self_update_outcome text_le lock_holder
recovery_keeps_yard_example =
    recovery_keeps_yard 100 200 "w" none update_one "failed" "no answer" "" true idle updating
      uncertain tt refl refl

finish_self_update_once_example :
    (finish_self_update_outcome 300 "u1" "succeeded" "" false "" uncertain ≡ err not_active)
    × (uncertain.settings.failed_digest ≡ (if "failed" =ₛ "failed" then "sha256:1" else ""))
    × (uncertain.settings.automatic ≡ updating.settings.automatic)
unfolding create_self_update_job finish_self_update_outcome text_le lock_holder find_update
    stored_update
finish_self_update_once_example =
    finish_self_update_once 200 300 "u1" "failed" "no answer" "" "succeeded" "" "" true false
      updating uncertain (stored_update 100 update_one) refl refl refl
