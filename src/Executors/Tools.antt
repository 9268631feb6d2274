-- ===== src/Executors/Tools.antt =====
-- ticketbot/executors/tools.py: the tools that the model of an `api` executor may call.
pub mod Names
pub mod Os
pub mod Args
pub mod Files
pub mod Commands
pub mod Dispatch
pub mod Frame
pub mod Allowed
pub mod Edited
