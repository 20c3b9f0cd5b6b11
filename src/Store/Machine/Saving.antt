-- ===== src/Store/Machine/Saving.antt =====
-- store/machine.go: the revision of the settings guards them against lost updates.
use nox_yard.Store.Machine.Tokens.{
  MachineStep, initializes, saves, rotates, Later, now_same, and_then, rotated, saved,
}
use nox_yard.Store.Tables.{lock_holder}
use nox_yard.Prelude.{
  ◌==◌, ◌=ₛ◌, is_some, err, ok, is_ok, ℕ, suc, ◌≤◌, String, ◌≡◌, refl, true, ◌&&◌, not, Option,
  none, some, List, arith,
}
use nox_yard.Store.Types.{Lock}
use nox_yard.Store.Machine.{
  job_changed, MachineSettings, MachineRow, Machine, initial_row, initialize_row,
  initialize_machine, machine_row, shown_settings, machine_settings, is_valid_settings, needs_token,
  saved_row, save_row, save_machine_settings, validate_machine_token, rotated_row,
}

-- A row stands whose revision has reached `n`.
IsAtLeast : ℕ → Machine → Type 0
IsAtLeast n m = (row : MachineRow) × (m.row ≡ some row) × (n ≤ row.settings.revision)

initialize-IsAtLeast :
    (n : ℕ) (row : MachineRow) (m : Machine) (old : Option MachineRow)
    → m.row ≡ old
    → IsAtLeast n m
    → IsAtLeast n (initialize_row row m old)
unfolding IsAtLeast initialize_row
initialize-IsAtLeast n row m none e (r, f, l) = cc
initialize-IsAtLeast n row m (some old) e h = h

saves-IsAtLeast :
    (n : ℕ) (v : MachineSettings) (locks : List Lock) (m after : Machine)
    → save_machine_settings v locks m ≡ ok after
    → IsAtLeast n m
    → IsAtLeast n after
unfolding IsAtLeast saved_row
saves-IsAtLeast n v locks m after e (row, f, l) =
    let s = saved v locks m after e in
    (saved_row v s.before, rw (s.stored) refl, ground (arith, s.stood, s.current))

step-IsAtLeast :
    {machine_digest : String → String} {m after : Machine} (n : ℕ)
    → MachineStep machine_digest m after
    → IsAtLeast n m
    → IsAtLeast n after
unfolding IsAtLeast initialize_machine rotated_row
step-IsAtLeast {machine_digest} n (initializes now network api_enabled legacy_key m) h =
    initialize-IsAtLeast n (initial_row machine_digest now network api_enabled legacy_key) m m.row
      refl h
step-IsAtLeast n (saves v locks m after e) h = saves-IsAtLeast n v locks m after e h
step-IsAtLeast {machine_digest} n (rotates now token actor revoke m after e) (old, f, l) =
    let (row, g, stored) = rotated machine_digest now token actor revoke m after e in
    (rotated_row (machine_digest token) revoke now row, rw (stored) refl, ground arith)

Later-IsAtLeast :
    {machine_digest : String → String} {m after : Machine} (n : ℕ)
    → Later machine_digest m after
    → IsAtLeast n m
    → IsAtLeast n after
Later-IsAtLeast n (now_same m) h = h
Later-IsAtLeast n (and_then m mid after l s) h = step-IsAtLeast n s (Later-IsAtLeast n l h)

save_stale :
    (w : MachineSettings) (locks : List Lock) (m : Machine)
    → is_valid_settings w ≡ true
    → IsAtLeast (suc w.revision) m
    → save_machine_settings w locks m ≡ err job_changed
unfolding IsAtLeast save_machine_settings machine_row save_row
save_stale w locks m valid (row, e, l) = rw (valid, e) (ground arith)

-- Once SaveMachineSettings has committed settings of some revision, it refuses for ever after, with
-- ErrJobChanged, every valid settings of that or an earlier revision, whatever initialisations,
-- saves and rotations come between.
pub lost_update_refused :
    (machine_digest : String → String) (v w : MachineSettings) (locks later_locks : List Lock)
    (m saved_at after : Machine)
    → save_machine_settings v locks m ≡ ok saved_at
    → Later machine_digest saved_at after
    → is_valid_settings w ≡ true
    → w.revision ≤ v.revision
    → save_machine_settings w later_locks after ≡ err job_changed
unfolding IsAtLeast saved_row
lost_update_refused machine_digest v w locks later_locks m saved_at after e l valid le =
    let s = saved v locks m saved_at e in
    save_stale w later_locks after valid
      (Later-IsAtLeast (suc w.revision) l (saved_row v s.before, rw (s.stored) refl, ground arith))

-- SaveMachineSettings commits exactly valid settings of the stored revision, when Yard itself is not
-- locked, and when a token stands or none is needed. What it commits is read back by MachineSettings:
-- the given settings with the next revision and the facts of the token that stood before; it
-- changes neither the history of the tokens nor which token is valid.
pub save_machine_settings_decides :
    (machine_digest : String → String) (v : MachineSettings) (locks : List Lock) (m : Machine)
    (row : MachineRow)
    → m.row ≡ some row
    → (is_ok (save_machine_settings v locks m) ≡ (
        is_valid_settings v
        && (row.settings.revision == v.revision)
        && not (is_some (lock_holder "yard:self" locks))
        && not (row.token_digest =ₛ "" && needs_token v)))
      × ((after : Machine)
          → save_machine_settings v locks m ≡ ok after
          → (machine_settings after
              ≡ ok (record v {
                revision = suc v.revision;
                has_token = not (row.token_digest =ₛ "");
                token_created_at = row.token_created_at;
              }))
            × (after.events ≡ m.events)
            × ((token : String)
                → validate_machine_token machine_digest token after
                  ≡ validate_machine_token machine_digest token m))
unfolding save_machine_settings machine_row save_row machine_settings shown_settings saved_row
    validate_machine_token
save_machine_settings_decides machine_digest v locks m row e = (
  rw (e) (ground arith),
  λ after h.
      let s = saved v locks m after h in
      let same : s.before ≡ row = ground (arith, s.stood, e) in
      (rw (s.stored, same) refl, rw (s.stored) refl, λ token. rw (s.stored, same, e) refl),
)
