-- ===== src/Mathproof/Scheduler.antt =====
-- mathproof/scheduler.py: the numbers it computes with, the outcome counters, the scores, the
-- frontier, the ranking, and the lease of the best candidate.
pub mod Numbers
pub mod Statistics
pub mod Scoring
pub mod Frontier
pub mod Ranking
pub mod LeaseNext
