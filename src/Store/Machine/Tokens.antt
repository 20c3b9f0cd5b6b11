-- ===== src/Store/Machine/Tokens.antt =====
-- store/machine.go: what a rotation leaves behind, and the history of the token.
use nox_yard.Store.Tables.{lock_holder}
use nox_yard.Prelude.{
  test_of_ne, ap, ltb, ◌=ₛ◌, Bool-cases, Option-cases, is_some, length, take, every, ok, is_ok, ℕ,
  zero, suc, ◌≤◌, max, String, ◌≡◌, refl, ◌≢◌, inl, inr, Bool, true, false, ◌&&◌, not, Option, none,
  some, List, [], ◌∷◌, arith,
}
use nox_yard.Store.Types.{Lock}
use nox_yard.Store.Machine.{
  MachineNetwork, MachineSettings, TokenEvent, MachineRow, Machine, next_id, insert_event,
  initial_row, import_event, initialize_row, initialize_machine, machine_row, is_valid_settings,
  needs_token, saved_row, save_row, save_machine_settings, validate_machine_token, rotation_action,
  rotated_row, rotate_machine_token,
}

-- Every transaction on the machine settings.
pub data MachineStep (machine_digest : String → String) : Machine → Machine → Type 0 where
  initializes :
      (now : ℕ) (network : MachineNetwork) (api_enabled : Bool) (legacy_key : String) (m : Machine)
      → MachineStep machine_digest m
          (initialize_machine machine_digest now network api_enabled legacy_key m)
  saves :
      (v : MachineSettings) (locks : List Lock) (m after : Machine)
      → save_machine_settings v locks m ≡ ok after
      → MachineStep machine_digest m after
  rotates :
      (now : ℕ) (token actor : String) (revoke : Bool) (m after : Machine)
      → rotate_machine_token machine_digest now token actor revoke m ≡ ok after
      → MachineStep machine_digest m after

pub data Later (machine_digest : String → String) : Machine → Machine → Type 0 where
  now_same : (m : Machine) → Later machine_digest m m
  and_then :
      (m mid after : Machine)
      → Later machine_digest m mid
      → MachineStep machine_digest mid after
      → Later machine_digest m after

-- Each event has a greater id than those behind it.
unfoldable pub is_descending : List TokenEvent → Bool
is_descending [] = true
is_descending (e ∷ es) = every (λ x. ltb x.id e.id) es && is_descending es

every_below :
    (b c : ℕ) (es : List TokenEvent)
    → b ≤ c
    → every (λ x. ltb x.id b) es ≡ true
    → every (λ x. ltb x.id c) es ≡ true
every_below b c [] l h = refl
every_below b c (e ∷ es) l h = ground (arith, every_below b c es l)

next_id_above : (es : List TokenEvent) → every (λ x. ltb x.id (next_id es)) es ≡ true
unfolding next_id
next_id_above [] = refl
next_id_above (e ∷ es) =
    ground (arith, every_below (next_id es) (max (suc e.id) (next_id es)) es, next_id_above es)

every-take :
    (p : TokenEvent → Bool) (n : ℕ) (es : List TokenEvent)
    → every p es ≡ true
    → every p (take n es) ≡ true
every-take p zero es h = refl
every-take p (suc n) [] h = refl
every-take p (suc n) (e ∷ es) h = ground (arith, every-take p n es)

take-descending :
    (n : ℕ) (es : List TokenEvent) → is_descending es ≡ true → is_descending (take n es) ≡ true
unfolding is_descending
take-descending zero es h = refl
take-descending (suc n) [] h = refl
take-descending (suc n) (e ∷ es) h =
    ground (arith, take-descending n es, every-take (λ x. ltb x.id e.id) n es)

length-take_le : (n : ℕ) (es : List TokenEvent) → length (take n es) ≤ n
length-take_le zero es = omega arith
length-take_le (suc n) [] = omega arith
length-take_le (suc n) (e ∷ es) = omega (arith, length-take_le n es)

insert_event-descending :
    (action actor : String) (now : ℕ) (es : List TokenEvent)
    → is_descending es ≡ true
    → is_descending (insert_event action actor now es) ≡ true
unfolding is_descending insert_event
insert_event-descending action actor now es h = rw (next_id_above es) h

-- The invariant of the history. Without a row nothing has been recorded.
pub record IsHistory (m : Machine) : Type 0 where
  pub descending : is_descending m.events ≡ true
  pub bounded : length m.events ≤ 10
  pub started : m.row ≡ none → m.events ≡ []

initialize-IsHistory :
    (row : MachineRow) (m : Machine) (old : Option MachineRow)
    → m.row ≡ old
    → IsHistory m
    → IsHistory (initialize_row row m old)
unfolding initialize_row import_event insert_event is_descending
initialize-IsHistory row m none e h = record {
  descending = elim (Bool-cases (row.token_digest =ₛ "")) [
    | inl t ↦ rw (t, h.started e) refl
    | inr t ↦ rw (t, h.started e) refl
  ];
  bounded = elim (Bool-cases (row.token_digest =ₛ "")) [
    | inl t ↦ rw (t, h.started e) (omega arith)
    | inr t ↦ rw (t, h.started e) (omega arith)
  ];
  started = λ n. ground arith;
}
initialize-IsHistory row m (some old) e h = h

-- What a committed rotation leaves.
pub rotated :
    (machine_digest : String → String) (now : ℕ) (token actor : String) (revoke : Bool)
    (m after : Machine)
    → rotate_machine_token machine_digest now token actor revoke m ≡ ok after
    → (row : MachineRow) × (m.row ≡ some row)
      × (after ≡ record {
        row = some (rotated_row (machine_digest token) revoke now row);
        events =
            take 10 (insert_event (rotation_action revoke row.token_digest) actor now m.events);
      })
unfolding rotate_machine_token machine_row
rotated machine_digest now token actor revoke m after h = elim (Option-cases m.row) [
  | inl e ↦ ground arith
  | inr (row, e) ↦ (row, e, ground arith)
]

rotate-IsHistory :
    (row : MachineRow) (action actor : String) (now : ℕ) (m after : Machine)
    → after ≡ record { row = some row; events = take 10 (insert_event action actor now m.events) }
    → IsHistory m
    → IsHistory after
rotate-IsHistory row action actor now m after e h = rw (e) record {
  descending =
      take-descending 10 _ (insert_event-descending action actor now m.events h.descending);
  bounded = length-take_le 10 (insert_event action actor now m.events);
  started = λ n. ground arith;
}

-- What a committed save was given and what it leaves.
pub record Saved (v : MachineSettings) (locks : List Lock) (m after : Machine) : Type 0 where
  pub valid : is_valid_settings v ≡ true
  pub before : MachineRow
  pub stood : m.row ≡ some before
  pub current : before.settings.revision ≡ v.revision
  pub unlocked : lock_holder "yard:self" locks ≡ none
  pub tokened : (before.token_digest =ₛ "" && needs_token v) ≡ false
  pub stored : after ≡ record m { row = some (saved_row v before) }

pub saved :
    (v : MachineSettings) (locks : List Lock) (m after : Machine)
    → save_machine_settings v locks m ≡ ok after
    → Saved v locks m after
unfolding save_machine_settings save_row machine_row
saved v locks m after h = elim (Option-cases m.row) [
  | inl e ↦ ground arith
  | inr (row, e) ↦ record {
    valid = ground arith;
    before = row;
    stood = e;
    current = ground arith;
    unlocked = ground arith;
    tokened = ground arith;
    stored = ground arith;
  }
]

step-IsHistory :
    {machine_digest : String → String} {m after : Machine}
    → MachineStep machine_digest m after
    → IsHistory m
    → IsHistory after
unfolding initialize_machine
step-IsHistory {machine_digest} (initializes now network api_enabled legacy_key m) h =
    initialize-IsHistory (initial_row machine_digest now network api_enabled legacy_key) m m.row
      refl h
step-IsHistory {machine_digest} (saves v locks m after e) h =
    let s = saved v locks m after e in
    rw (s.stored)
      record { descending = h.descending; bounded = h.bounded; started = λ n. ground arith }
step-IsHistory {machine_digest} (rotates now token actor revoke m after e) h =
    let (row, f, g) = rotated machine_digest now token actor revoke m after e in
    rotate-IsHistory (rotated_row (machine_digest token) revoke now row)
      (rotation_action revoke row.token_digest) actor now m after g h

abbrev pub empty_machine : Machine
empty_machine = record { row = none; events = [] }

empty_machine-IsHistory : IsHistory empty_machine
unfolding is_descending
empty_machine-IsHistory = record { descending = refl; bounded = omega arith; started = λ n. refl }

Later-IsHistory :
    {machine_digest : String → String} {m after : Machine}
    → Later machine_digest m after
    → IsHistory m
    → IsHistory after
Later-IsHistory (now_same m) h = h
Later-IsHistory (and_then m mid after l s) h = step-IsHistory s (Later-IsHistory l h)

-- In every state that the transactions reach from empty tables, the history has ten events at
-- most, the newest (the one with the greatest id) first.
pub token_history_bounded :
    (machine_digest : String → String) (m : Machine)
    → Later machine_digest empty_machine m
    → (length m.events ≤ 10) × (is_descending m.events ≡ true)
token_history_bounded machine_digest m l =
    let h = Later-IsHistory l empty_machine-IsHistory in (h.bounded, h.descending)

rotated_row-accepts :
    (digest other : String) (revoke : Bool) (now : ℕ) (row : MachineRow)
    → digest ≢ ""
    → (not ((rotated_row digest revoke now row).token_digest =ₛ "")
        && (rotated_row digest revoke now row).token_digest =ₛ other)
      ≡ (not revoke && digest =ₛ other)
unfolding rotated_row
rotated_row-accepts digest other true now row n = refl
rotated_row-accepts digest other false now row n = rw (test_of_ne digest "" n) refl

validate_rotated :
    (machine_digest : String → String) (now : ℕ) (token actor other : String) (revoke : Bool)
    (m after : Machine)
    → machine_digest token ≢ ""
    → rotate_machine_token machine_digest now token actor revoke m ≡ ok after
    → validate_machine_token machine_digest other after
      ≡ ok (not revoke && machine_digest token =ₛ machine_digest other)
unfolding validate_machine_token machine_row
validate_rotated machine_digest now token actor other revoke m after n h =
    let (row, e, stored) = rotated machine_digest now token actor revoke m after h in
    rw (stored)
      (ap ok (rotated_row-accepts (machine_digest token) (machine_digest other) revoke now row n))

-- RotateMachineToken succeeds exactly when the row stands. After it, if the new token's digest is
-- not empty, ValidateMachineToken accepts the tokens with the new token's digest and no other,
-- and after a revocation none at all.
pub rotation_replaces_token :
    (machine_digest : String → String) (now : ℕ) (token actor other : String) (revoke : Bool)
    (m : Machine)
    → machine_digest token ≢ ""
    → (is_ok (rotate_machine_token machine_digest now token actor revoke m) ≡ is_some m.row)
      × ((after : Machine)
          → rotate_machine_token machine_digest now token actor revoke m ≡ ok after
          → validate_machine_token machine_digest other after
            ≡ ok (not revoke && machine_digest token =ₛ machine_digest other))
unfolding rotate_machine_token machine_row
rotation_replaces_token machine_digest now token actor other revoke m n = (
  elim (Option-cases m.row) [ inl e ↦ rw (e) refl | inr (row, e) ↦ rw (e) refl ],
  λ after h. validate_rotated machine_digest now token actor other revoke m after n h,
)
