-- ===== src/Inventory.antt =====
-- internal/inventory: notifications of changes, and the logs of containers.
pub mod Changes
pub mod Logs
pub mod History
