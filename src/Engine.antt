-- ===== src/Engine.antt =====
-- The engine, ticketbot/engine: budget, gates, the escalation protocol, the pipeline and the run loop.
pub mod Budget
pub mod Gates
pub mod Protocol
pub mod Context
pub mod Pipeline
pub mod Env
pub mod Selector
pub mod World
pub mod Step
pub mod Loop
pub mod Lock
pub mod Entry
