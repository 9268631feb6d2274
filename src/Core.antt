-- ===== src/Core.antt =====
-- The core data, ticketbot/core: runs and work items.
pub mod Run
pub mod Json
pub mod Store
pub mod Banner
pub mod WorkItem
pub mod Templating
pub mod Slug
pub mod FrontMatter
