-- ===== src/Autonomy.antt =====
-- novapanda/autonomy: a goal is split into sub-tasks, the sub-tasks are auctioned, and their exchanges
-- run in the order of their dependencies.
pub mod Types
pub mod Dispatcher
pub mod Orchestrator
pub mod Run
pub mod Schedule
pub mod Passes
pub mod Watched
pub mod Erased
pub mod Ends
pub mod Progress
