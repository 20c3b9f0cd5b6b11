-- ===== src/Store.antt =====
-- internal/store: jobs, resource locks and schedules.
pub mod Types
pub mod Tables
pub mod Keys
pub mod Schedules
pub mod Outcomes
pub mod Jobs
pub mod Exclusion
pub mod Admission
pub mod Finality
pub mod Consuming
pub mod Occurrences
pub mod Due
pub mod Fence
pub mod Machine
pub mod Projects
pub mod SelfUpdate
pub mod Accounts
mod Examples
