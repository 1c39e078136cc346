-- ===== src/Gate/Validate/Tables.antt =====
-- commit_gate/validate.py: the tables that the validators read.
use persistent_atp.Prelude.{String, List, [], ◌∷◌}
use persistent_atp.Vocab

abbrev pub enum_fields : List ((String × String) × List String)
enum_fields =
    (("Claim", "status"), Vocab.claim_status)
    ∷ (("FormalState", "status"), Vocab.formal_state_status)
    ∷ (("FormalDeclaration", "status"), Vocab.declaration_status)
    ∷ (("Certificate", "status"), Vocab.certificate_status)
    ∷ (("Alignment", "lifecycle"), Vocab.alignment_lifecycle)
    ∷ (("Alignment", "verdict"), Vocab.alignment_verdict)
    ∷ (("FormalRun", "status"), Vocab.run_disposition)
    ∷ (("TacticApplication", "status"), Vocab.tactic_status)
    ∷ (("TacticApplication", "executor_result"), Vocab.executor_result)
    ∷ (("LeanReplay", "status"), Vocab.replay_status)
    ∷ (("Obstruction", "kind"), Vocab.obstruction_kind)
    ∷ (("Attempt", "status"), Vocab.attempt_status)
    ∷ (("Attempt", "worker_class"), Vocab.worker_class)
    ∷ []

abbrev pub edge_endpoints : List (String × (String × String))
edge_endpoints =
    ("HAS_TACTIC", ("FormalState", "TacticApplication"))
    ∷ ("FORMAL_REQUIRES", ("TacticApplication", "FormalState"))
    ∷ ("CLOSES_STATE", ("TacticApplication", "FormalState"))
    ∷ ("HAS_ROOT", ("FormalRun", "FormalState"))
    ∷ ("HAS_CHECKPOINT", ("FormalRun", "FormalCheckpoint"))
    ∷ ("CHECKPOINT_FRONTIER", ("FormalCheckpoint", "FormalState"))
    ∷ ("RAN_UNDER", ("FormalRun", "Environment"))
    ∷ ("SEARCHES", ("FormalRun", "FormalDeclaration"))
    ∷ ("PRODUCED_CERTIFICATE", ("FormalRun", "Certificate"))
    ∷ ("CERTIFIES", ("Certificate", "FormalDeclaration"))
    ∷ ("CERTIFICATE_ENVIRONMENT", ("Certificate", "Environment"))
    ∷ ("REPLAYED_BY", ("Certificate", "LeanReplay"))
    ∷ ("REPLAY_ENVIRONMENT", ("LeanReplay", "Environment"))
    ∷ ("PINNED_ENVIRONMENT", ("FormalDeclaration", "Environment"))
    ∷ ("ALIGNS_CLAIM", ("Alignment", "Claim"))
    ∷ ("ALIGNS_DECLARATION", ("Alignment", "FormalDeclaration"))
    ∷ ("PROVED_BY", ("Claim", "Certificate"))
    ∷ ("DEPENDS_ON", ("Claim", "Claim"))
    ∷ ("PROMOTED_TO", ("SpeculativeHypothesis", "Claim"))
    ∷ ("RAISED_OBSTRUCTION", ("FormalRun", "Obstruction"))
    ∷ ("AT_STATE", ("Obstruction", "FormalState"))
    ∷ ("RESOLVES", ("Claim", "Obstruction"))
    ∷ ("HAS_TARGET", ("Proof", "Claim"))
    ∷ []

abbrev pub closed_state_values : List String
closed_state_values = "formally-closed" ∷ "lean-verified" ∷ []

abbrev pub unscoped_labels : List String
unscoped_labels = "Artifact" ∷ []
