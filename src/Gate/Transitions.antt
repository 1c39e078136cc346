-- ===== src/Gate/Transitions.antt =====
-- commit_gate/transitions.py.
mod Tables
pub use Tables.*
