-- ===== src/Store/Machine/Examples.antt =====
-- The theorems of the machine settings at a concrete state.
use nox_yard.Prelude.{
  ◌==◌, ◌=ₛ◌, is_some, length, ◌++ₛ◌, err, ok, is_ok, suc, ◌≤◌, String, ◌≡◌, refl, ◌≢◌, true, false,
  ◌&&◌, not, [], arith, eq_iff,
}
use nox_yard.Store.Types.{Tx}
use nox_yard.Store.Tables.{lock_holder}
use nox_yard.Store.Machine.{
  job_changed, MachineNetwork, MachineSettings, MachineRow, Machine, initial_settings, initial_row,
  initialize_machine, machine_settings, is_valid_settings, needs_token, save_machine_settings,
  validate_machine_token, rotate_machine_token,
}
use nox_yard.Store.Machine.Tokens.{
  initializes, rotates, Later, now_same, and_then, is_descending, empty_machine,
  token_history_bounded, rotation_replaces_token,
}
use nox_yard.Store.Machine.Saving.{lost_update_refused, save_machine_settings_decides}

-- A digest that tells the tokens of these examples apart.
abbrev digest : String → String
digest token = "sha256:" ++ₛ token

abbrev home_network : MachineNetwork
home_network = record {
  yard = record { bind = "127.0.0.1"; port = 8080 };
  mcp = record { bind = "127.0.0.1"; port = 8081 };
}

abbrev or_empty : Tx Machine → Machine
or_empty (ok m) = m
or_empty (err e) = empty_machine

abbrev fresh : Machine
fresh = initialize_machine digest 100 home_network true "legacy" empty_machine

abbrev replaced : Machine
replaced = or_empty (rotate_machine_token digest 200 "yard_1" "admin" false fresh)

replaced-Later : Later digest empty_machine replaced
unfolding initialize_machine rotate_machine_token
replaced-Later =
    and_then empty_machine fresh replaced
      (and_then empty_machine empty_machine fresh (now_same empty_machine)
        (initializes 100 home_network true "legacy" empty_machine))
      (rotates 200 "yard_1" "admin" false fresh replaced refl)

token_history_bounded_example :
    (length replaced.events ≤ 10) × (is_descending replaced.events ≡ true)
token_history_bounded_example = token_history_bounded digest replaced replaced-Later

not_empty : digest "yard_1" ≢ ""
not_empty = ground (arith, eq_iff (digest "yard_1") "")

rotation_replaces_token_example :
    (is_ok (rotate_machine_token digest 200 "yard_1" "admin" false fresh) ≡ is_some fresh.row)
    × ((after : Machine)
        → rotate_machine_token digest 200 "yard_1" "admin" false fresh ≡ ok after
        → validate_machine_token digest "legacy" after
          ≡ ok (not false && digest "yard_1" =ₛ digest "legacy"))
rotation_replaces_token_example =
    rotation_replaces_token digest 200 "yard_1" "admin" "legacy" false fresh not_empty

abbrev wanted : MachineSettings
wanted = record (initial_settings home_network true true) { mcp_enabled = true }

abbrev saved_once : Machine
saved_once = or_empty (save_machine_settings wanted [] fresh)

lost_update_refused_example : save_machine_settings wanted [] saved_once ≡ err job_changed
unfolding save_machine_settings initialize_machine initial_settings is_valid_settings
lost_update_refused_example =
    lost_update_refused digest wanted wanted [] [] fresh saved_once saved_once refl
      (now_same saved_once) refl (omega arith)

abbrev fresh_row : MachineRow
fresh_row = initial_row digest 100 home_network true "legacy"

save_machine_settings_decides_example :
    (is_ok (save_machine_settings wanted [] fresh) ≡ (
      is_valid_settings wanted
      && (fresh_row.settings.revision == wanted.revision)
      && not (is_some (lock_holder "yard:self" []))
      && not (fresh_row.token_digest =ₛ "" && needs_token wanted)))
    × ((after : Machine)
        → save_machine_settings wanted [] fresh ≡ ok after
        → (machine_settings after
            ≡ ok (record wanted {
              revision = suc wanted.revision;
              has_token = not (fresh_row.token_digest =ₛ "");
              token_created_at = fresh_row.token_created_at;
            }))
          × (after.events ≡ fresh.events)
          × ((token : String)
              → validate_machine_token digest token after
                ≡ validate_machine_token digest token fresh))
unfolding initialize_machine
save_machine_settings_decides_example =
    save_machine_settings_decides digest wanted [] fresh fresh_row refl
