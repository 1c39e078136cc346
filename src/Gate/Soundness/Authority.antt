-- ===== src/Gate/Soundness/Authority.antt =====
-- commit_gate/validate.py: what a proposal has to show before its ops are looked at in state.
use persistent_atp.Gate.Proposal.{Proposal}
