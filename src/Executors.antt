-- ===== src/Executors.antt =====
-- The executors of ticketbot/executors.
pub mod Paths
pub mod Edits
pub mod Tools
pub mod Snapshots
pub mod Api
