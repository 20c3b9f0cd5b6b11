-- ===== src/Store/Machine.antt =====
-- store/machine.go: the settings of the machine API and its token. The SHA-256 of a token and
-- the random token are arguments, the row's JSON is the record that it encodes.

mod Examples
pub mod Saving
pub mod Tokens
use nox_yard.Store.Tables.{lock_holder}
use nox_yard.Prelude.{
  ltb, leb, ◌==◌, ◌=ₛ◌, if◌then◌else◌, is_some, take, err, ok, ◌>>=◌, ◌>>◌, guard, ℕ, suc, max,
  String, Bool, false, ◌&&◌, ◌||◌, not, Option, none, some, List, [], ◌∷◌,
}
use nox_yard.Store.Types.{
  operation_conflict, job_changed, no_rows, invalid_settings, token_required, Tx, Lock,
}

pub record NetworkEndpoint : Type 0 where
  pub bind : String
  pub port : ℕ

pub record MachineNetwork : Type 0 where
  pub yard : NetworkEndpoint
  pub mcp : NetworkEndpoint

pub record MachineSettings : Type 0 where
  pub revision : ℕ
  pub mcp_enabled : Bool
  pub api_enabled : Bool
  pub auth_mode : String
  pub write : Bool
  pub secrets : Bool
  pub auto_apply : Bool
  pub network : MachineNetwork
  pub token_created_at : ℕ
  pub has_token : Bool

pub record TokenEvent : Type 0 where
  pub id : ℕ
  pub action : String
  pub actor : String
  pub created_at : ℕ

-- The row of machine_settings, whose id can only be 1.
pub record MachineRow : Type 0 where
  pub settings : MachineSettings
  pub token_digest : String
  pub token_created_at : ℕ

-- machine_settings and machine_token_events, the latter listed from the newest row.
pub record Machine : Type 0 where
  pub row : Option MachineRow
  pub events : List TokenEvent

-- An INTEGER PRIMARY KEY that the INSERT leaves out is one more than the greatest.
unfoldable pub next_id : List TokenEvent → ℕ
next_id [] = 1
next_id (e ∷ es) = max (suc e.id) (next_id es)

unfoldable pub insert_event : String → String → ℕ → List TokenEvent → List TokenEvent
unfolding next_id
insert_event action actor now es =
    record { id = next_id es; action = action; actor = actor; created_at = now } ∷ es

unfoldable pub initial_settings : MachineNetwork → Bool → Bool → MachineSettings
initial_settings network api_enabled imported = record {
  revision = 1;
  mcp_enabled = false;
  api_enabled = api_enabled;
  auth_mode = "token";
  write = imported;
  secrets = imported;
  auto_apply = false;
  network = network;
  token_created_at = 0;
  has_token = false;
}

-- The row that InitializeMachine inserts, with the legacy key's digest if it is imported.
unfoldable pub initial_row : (String → String) → ℕ → MachineNetwork → Bool → String → MachineRow
unfolding initial_settings
initial_row machine_digest now network api_enabled legacy_key =
    let imported = api_enabled && not (legacy_key =ₛ "") in
    record {
      settings = initial_settings network api_enabled imported;
      token_digest = if imported then machine_digest legacy_key else "";
      token_created_at = if imported then now else 0;
    }

-- The event of an import, when the INSERT did something and a key was imported.
unfoldable pub import_event : MachineRow → List TokenEvent → List TokenEvent
unfolding insert_event
import_event row es =
    if row.token_digest =ₛ ""
    then es
    else insert_event "imported" "Legacy configuration" row.token_created_at es

-- The row of id 1, ON CONFLICT DO NOTHING.
unfoldable pub initialize_row : MachineRow → Machine → Option MachineRow → Machine
unfolding import_event
initialize_row row m none = record { row = some row; events = import_event row m.events }
initialize_row row m (some old) = m

-- InitializeMachine
unfoldable pub initialize_machine :
    (String → String) → ℕ → MachineNetwork → Bool → String → Machine → Machine
unfolding initialize_row initial_row
initialize_machine machine_digest now network api_enabled legacy_key m =
    initialize_row (initial_row machine_digest now network api_enabled legacy_key) m m.row

unfoldable pub machine_row : Option MachineRow → Tx MachineRow
machine_row none = err no_rows
machine_row (some row) = ok row

-- MachineSettings
unfoldable pub shown_settings : MachineRow → MachineSettings
shown_settings row = record row.settings {
  has_token = not (row.token_digest =ₛ "");
  token_created_at = row.token_created_at;
}

unfoldable pub machine_settings : Machine → Tx MachineSettings
unfolding machine_row shown_settings
machine_settings m = do row ← machine_row m.row; ok (shown_settings row)

-- validMachineSettings
unfoldable pub is_valid_endpoint : NetworkEndpoint → Bool
is_valid_endpoint e =
    (e.bind =ₛ "127.0.0.1" || e.bind =ₛ "0.0.0.0") && ltb 0 e.port && leb e.port 65535

unfoldable pub is_valid_settings : MachineSettings → Bool
unfolding is_valid_endpoint
is_valid_settings v =
    (v.auth_mode =ₛ "token" || v.auth_mode =ₛ "anonymous")
    && is_valid_endpoint v.network.yard
    && is_valid_endpoint v.network.mcp
    && not (v.network.yard.port == v.network.mcp.port)

-- The settings that ask for a token.
unfoldable pub needs_token : MachineSettings → Bool
needs_token v = v.mcp_enabled && v.auth_mode =ₛ "token" || v.api_enabled

unfoldable pub saved_row : MachineSettings → MachineRow → MachineRow
saved_row v row = record row {
  settings = record v { revision = suc v.revision; has_token = false; token_created_at = 0 };
}

-- SaveMachineSettings, from the row on.
unfoldable pub save_row : MachineSettings → List Lock → MachineRow → Machine → Tx Machine
unfolding needs_token saved_row lock_holder
save_row v locks row m = do
  guard (row.settings.revision == v.revision) job_changed
  guard (not (is_some (lock_holder "yard:self" locks))) operation_conflict
  guard (not (row.token_digest =ₛ "" && needs_token v)) token_required
  ok (record m { row = some (saved_row v row) })

unfoldable pub save_machine_settings : MachineSettings → List Lock → Machine → Tx Machine
unfolding is_valid_settings machine_row save_row
save_machine_settings v locks m = do
  guard (is_valid_settings v) invalid_settings
  row ← machine_row m.row
  save_row v locks row m

-- ValidateMachineToken
unfoldable pub validate_machine_token : (String → String) → String → Machine → Tx Bool
unfolding machine_row
validate_machine_token machine_digest token m = do
  row ← machine_row m.row
  ok (not (row.token_digest =ₛ "") && row.token_digest =ₛ machine_digest token)

-- The three actions of RotateMachineToken; a revocation keeps token_created_at.
unfoldable pub rotation_action : Bool → String → String
rotation_action revoke previous =
    if revoke then "revoked" else if previous =ₛ "" then "generated" else "replaced"

unfoldable pub rotated_row : String → Bool → ℕ → MachineRow → MachineRow
rotated_row digest revoke now row = record row {
  token_digest = if revoke then "" else digest;
  token_created_at = if revoke then row.token_created_at else now;
}

-- RotateMachineToken: the new token's digest replaces the old, ten events are kept.
unfoldable pub rotate_machine_token :
    (String → String) → ℕ → String → String → Bool → Machine → Tx Machine
unfolding machine_row rotation_action rotated_row insert_event
rotate_machine_token machine_digest now token actor revoke m = do
  row ← machine_row m.row
  ok (record {
    row = some (rotated_row (machine_digest token) revoke now row);
    events = take 10 (insert_event (rotation_action revoke row.token_digest) actor now m.events);
  })

-- MachineTokenHistory
unfoldable pub machine_token_history : Machine → List TokenEvent
machine_token_history m = take 10 m.events
