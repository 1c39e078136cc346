-- ===== src/Gate/Soundness/Verified.antt =====
-- commit_gate/transitions.py and validate.py: where a claim may become lean-verified from.
use persistent_atp.Prelude.{String, List, Bool, not, ◌||◌, str_eq}
use persistent_atp.Vocab.Labels.{contains}
use persistent_atp.Gate.Proposal.{Proposal}

abbrev only_from : String → String → String × List String → Bool
only_from from to e = not (contains e.1 to) || str_eq e.0 from
