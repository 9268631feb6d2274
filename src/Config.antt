-- ===== src/Config.antt =====
-- The configuration, ticketbot/config: credential files, profile files and references to the
-- environment.
pub mod Dotenv
pub mod Merge
pub mod Extends
pub mod EnvRef
pub mod Schema
pub mod Redact
