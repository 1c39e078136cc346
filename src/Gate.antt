-- ===== src/Gate.antt =====
-- commit_gate/: the operation algebra, committed state, and the validators.
pub mod Transitions
pub mod Reasons
pub mod Ops
pub mod Proposal
pub mod State
pub mod Apply
pub mod Validate
pub mod Soundness
