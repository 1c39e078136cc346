-- ===== src/Mathproof.antt =====
-- mathproof/: the planner's identifiers, scheduler and checks.
pub mod Ids
pub mod Scheduler
pub mod Soundness
pub mod Dispatch
