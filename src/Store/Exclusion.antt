-- ===== src/Store/Exclusion.antt =====
-- The locks against the jobs: a resource is locked by a job exactly when the job is active
-- (running, or waiting for recovery) and names it.
pub mod Updates
pub mod Endings
pub mod Admission
pub mod Retarget
pub mod Journal
pub mod Steps
use nox_yard.Prelude.{◌=ₛ◌, mem, String, ◌≡◌, Bool, false, ◌&&◌, Option, none, some, List, []}
use nox_yard.Store.Types.{Row, Lock, Db, is_active}
use nox_yard.Store.Tables.{find_row, lock_holder}
use nox_yard.Store.Tables.Rows.{UniqueIds}
use nox_yard.Store.Tables.Locks.{is_held_by, UniqueLocks}

-- Whether the job with this id is active and names the resource.
abbrev pub row_claims : Row → String → Bool
row_claims x r = is_active x.job && mem r x.job.resources

abbrev pub found_claims : Option Row → String → Bool
found_claims none r = false
found_claims (some x) r = row_claims x r

abbrev pub claims : List Row → String → String → Bool
claims rows id r = found_claims (find_row id rows) r

pub record Sound (jobs : List Row) (locks : List Lock) : Type 0 where
  pub ids : UniqueIds jobs
  pub resources : UniqueLocks locks
  pub named : lock_holder "" locks ≡ none
  pub agree : (r id : String) → is_held_by r id locks ≡ claims jobs id r

abbrev pub IsSound : Db → Type 0
IsSound db = Sound db.jobs db.locks
