-- ===== src/Adapters.antt =====
-- The adapters of ticketbot/adapters.
pub mod Adf
pub mod Files
pub mod Markdown
