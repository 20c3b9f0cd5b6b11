-- ===== src/Recreate.antt =====
-- recreate/worker.go: what the worker that replaces containers works on, and how it asks Docker and the store.
-- What they answer is an argument and may depend on all that was asked before. The settings of a
-- container are a text; the options that `creation` builds of them and the comparisons of verify and
-- rollback are arguments. The texts of messages are left out.
pub mod Steps
pub mod Worker
pub mod Trace
pub mod Keeping
pub mod Replacing
pub mod Starting
pub mod Restoring
pub mod Assessing
pub mod Executing
pub mod Safety
pub mod Seeing
pub mod Shown
pub mod Restored
pub mod Rollback
pub mod Returning
pub mod Verified
pub mod Cleanup
mod Examples
use nox_yard.Prelude.{
  is_some, get_elem?, Labels, Result, err, ok, is_ok, ℕ, zero, suc, String, Bool, true, false, not,
  Option, none, some, List, [], ◌∷◌,
}

-- entry: what the code reads of Old, and the fields that the worker changes.
pub record Entry : Type 0 where
  pub id : String
  pub name : String
  pub image : String
  pub running : Bool
  pub networks : List String
  pub volumes : List String
  pub settings : String
  pub labels : Labels
  pub reference : String
  pub platform : String
  pub one_shot : Bool
  pub backup : String
  pub target_image : String
  pub new_id : String
  pub touched : Bool

pub record Journal : Type 0 where
  pub request_id : String
  pub operation : String
  pub fingerprint : String
  pub scheduled : Bool
  pub target_id : String
  pub entries : List Entry
  pub order : List ℕ
  pub mutated : Bool

pub data Failure : Type 0 where
  not_found timed_out refused : Failure

-- What the worker asks; `save` is JobPayload with JobProgress, `finish` is FinishJob.
pub data Call : Type 0 where
  save : String → Journal → Call
  retarget : String → List String → Call
  finish : String → String → String → Call
  pull : String → String → Call
  inspect_image inspect : String → Call
  create : String → String → Call
  save_candidate schedule_enabled take_snapshot : Call
  stop start remove : String → Call
  rename disconnect connect : String → String → Call

-- A call with whether it was accepted, or a created container.
pub data Event : Type 0 where
  asked : Call → Bool → Event
  created : String → Event

pub record Image : Type 0 where
  pub id : String
  pub platform : String
  pub volumes : List String

pub record Inspection : Type 0 where
  pub name : String
  pub image : String
  pub settings : String
  pub networks : List String
  pub has_state : Bool
  pub running : Bool
  pub unstable : Bool
  pub exited : Bool
  pub exit_code : ℕ
  pub health : String
  pub steady : Bool

-- Docker, the store and the clock, by what was asked before.
pub record Engine : Type 0 where
  pub hostname : String
  pub answers : Call → List Event → Option Failure
  pub creates : List Event → Result Failure String
  pub inspects : String → List Event → Result Failure Inspection
  pub images : String → List Event → Result Failure Image
  pub fingerprints : List Event → Result Failure String
  pub enables : List Event → Result Failure Bool
  pub candidates : List Event → Result Failure String
  pub expires : List Event → Bool
  pub creation : Entry → String → String
  pub is_retained : String → String → Bool
  pub is_created : String → String → Bool
  pub is_restored : String → String → Bool
  pub polls : ℕ

pub record World : Type 0 where
  pub trace : List Event
  pub journal : Journal

-- How the worker leaves its main path: by `fail`, whose cause may be uncertain; by returning an error
-- (or by a panic on an index), which leaves the job as it is; or by returning after FinishJob.
pub data Stop : Type 0 where
  failing : Bool → Stop
  leaving ended : Stop

-- A part of the worker.
abbrev pub Work : Type 0 → Type 0
Work A = World → Result Stop A × World

abbrev pub and_then : {A B : Type 0} → (A → Work B) → Result Stop A × World → Result Stop B × World
and_then next (err x, w) = (err x, w)
and_then next (ok a, w) = next a w

infixl 4 ◌>=>◌
abbrev pub ◌>=>◌ : {A B : Type 0} → Work A → (A → Work B) → Work B
(first >=> next) w = and_then next (first w)

abbrev pub done : Work (Unit {0})
done w = (ok tt, w)

abbrev pub give : {A : Type 0} → A → Work A
give a w = (ok a, w)

abbrev pub stopped : {A : Type 0} → Stop → Work A
stopped x w = (err x, w)

abbrev pub when : Bool → Work (Unit {0}) → Work (Unit {0})
when true work = work
when false work = done

abbrev pub log_event : Event → World → World
log_event e w = record w { trace = e ∷ w.trace }

abbrev pub is_uncertain : Failure → Bool
is_uncertain not_found = false
is_uncertain timed_out = true
is_uncertain refused = false

abbrev pub request : Call → Engine → World → Option Failure × World
request c o w =
    let answer = o.answers c w.trace in (answer, log_event (asked c (not (is_some answer))) w)

abbrev pub ruled : (Failure → Stop) → Option Failure × World → Result Stop (Unit {0}) × World
ruled rule (none, w) = (ok tt, w)
ruled rule (some f, w) = (err (rule f), w)

-- A call whose error goes to `fail`, and one of the store whose error is returned.
abbrev pub must : Engine → Call → Work (Unit {0})
must o c w = ruled (λ f. failing (is_uncertain f)) (request c o w)

abbrev pub store_must : Engine → Call → Work (Unit {0})
store_must o c w = ruled (λ f. leaving) (request c o w)

-- A call that answers a value.
abbrev pub valued : {A : Type 0} → (Failure → Stop) → Result Failure A → Result Stop A
valued rule (ok a) = ok a
valued rule (err f) = err (rule f)

abbrev pub query : {A : Type 0} → (Failure → Stop) → Call → (List Event → Result Failure A) → Work A
query rule c answer w =
    let found = answer w.trace in (valued rule found, log_event (asked c (is_ok found)) w)

-- An index into Entries; Go panics where there is none.
abbrev pub entry_at : ℕ → Work Entry
entry_at i w = found (get_elem? w.journal.entries i)
  where
    found : Option Entry → Result Stop Entry × World
    found none = (err leaving, w)
    found (some e) = (ok e, w)

abbrev pub set_at : ℕ → (Entry → Entry) → List Entry → List Entry
set_at i f [] = []
set_at zero f (e ∷ es) = f e ∷ es
set_at (suc i) f (e ∷ es) = e ∷ set_at i f es

abbrev pub update : ℕ → (Entry → Entry) → Work (Unit {0})
update i f w =
    (ok tt, record w { journal = record w.journal { entries = set_at i f w.journal.entries } })

abbrev pub save_stage : Engine → String → Work (Unit {0})
save_stage o stage w = store_must o (save stage w.journal) w

abbrev pub each : {A : Type 0} → (A → Work (Unit {0})) → List A → Work (Unit {0})
each f [] = done
each f (a ∷ rest) = f a >=> λ _. each f rest
