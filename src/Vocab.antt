-- ===== src/Vocab.antt =====
-- shared/vocab.py, and commit_gate/vocab.py, which passes its names on.
mod Words
pub mod Labels
pub use Words.*
