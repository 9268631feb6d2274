-- ===== src/Tests.antt =====
-- Concrete inputs, and the theorems at them.
mod Samples
mod Predicates
mod Runs
mod Limits
mod Configs
mod Locks
mod Cores
mod Tools
mod Apis
mod Polls
mod Prompts
mod Adfs
mod Banners
mod Files
mod Markdowns
