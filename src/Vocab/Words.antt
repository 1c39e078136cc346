-- ===== src/Vocab/Words.antt =====
-- shared/vocab.py: the constants. A StrEnum is the list of its literals, a frozenset the list of its
-- members, a dict an association list.
use persistent_atp.Prelude.{String, List, [], ◌∷◌, ◌++◌}

abbrev pub claim_status : List String
claim_status =
    "conjectural" ∷ "empirical" ∷ "provisional" ∷ "critic-accepted" ∷ "formally-closed"
    ∷ "lean-verified" ∷ "tainted" ∷ "refuted" ∷ "retracted" ∷ "stale" ∷ []

abbrev pub formal_state_status : List String
formal_state_status =
    "open" ∷ "expanded" ∷ "formally-closed" ∷ "lean-verified" ∷ "tainted" ∷ "reopened" ∷ "failed"
    ∷ "pruned" ∷ "stale" ∷ []

abbrev pub state_kind : List String
state_kind = "or" ∷ "and" ∷ "goal" ∷ []

abbrev pub research_state_status : List String
research_state_status = "open" ∷ "superseded" ∷ "refuted" ∷ "stale" ∷ []

abbrev pub research_move_status : List String
research_move_status =
    "queued" ∷ "open" ∷ "leased" ∷ "closed" ∷ "refuted" ∷ "dominated" ∷ "exhausted" ∷ "stale" ∷ []

abbrev pub tactic_status : List String
tactic_status =
    "pending" ∷ "queued" ∷ "open" ∷ "leased" ∷ "closed" ∷ "reopened" ∷ "refuted" ∷ "dominated"
    ∷ "exhausted" ∷ "dead" ∷ []

abbrev pub attempt_status : List String
attempt_status = "pending" ∷ "supported" ∷ "critic-accepted" ∷ "refuted" ∷ "retracted" ∷ []

abbrev pub declaration_status : List String
declaration_status =
    "draft" ∷ "aligned" ∷ "searching" ∷ "certificate-produced" ∷ "replay-pending"
    ∷ "replay-accepted" ∷ "replay-rejected" ∷ "stale" ∷ []

abbrev pub certificate_status : List String
certificate_status =
    "candidate" ∷ "replay-pending" ∷ "replay-accepted" ∷ "replay-rejected" ∷ "stale" ∷ []

abbrev pub alignment_lifecycle : List String
alignment_lifecycle = "draft" ∷ "review-needed" ∷ "reviewed" ∷ "superseded" ∷ "stale" ∷ []

abbrev pub alignment_verdict : List String
alignment_verdict = "aligned" ∷ "weaker" ∷ "stronger" ∷ "mismatch" ∷ "ambiguous" ∷ []

abbrev pub run_disposition : List String
run_disposition =
    "searching" ∷ "proved-pending-replay" ∷ "budget-exhausted" ∷ "stagnated" ∷ "counterexample"
    ∷ "invalid-request" ∷ "environment-error" ∷ "internal-error" ∷ "cancelled" ∷ []

abbrev pub executor_result : List String
executor_result =
    "lean-accepted" ∷ "lean-rejected" ∷ "timeout" ∷ "backend-missing" ∷ "parse-failure" ∷ "crash"
    ∷ "empty-output" ∷ []

abbrev pub replay_status : List String
replay_status = "verified" ∷ "rejected" ∷ []

abbrev pub obstruction_kind : List String
obstruction_kind =
    "missing-lemma" ∷ "missing-premise" ∷ "representation-mismatch" ∷ "statement-too-strong"
    ∷ "statement-too-weak" ∷ "library-gap" ∷ "elaboration" ∷ "typeclass" ∷ "coercion" ∷ "resource"
    ∷ "search-policy" ∷ "likely-false" ∷ "unknown" ∷ []

abbrev pub evidence_kind : List String
evidence_kind =
    "lean-replay" ∷ "random-sampling" ∷ "exhaustive-finite-search" ∷ "exact-symbolic"
    ∷ "interval-arithmetic" ∷ "checkable-certificate" ∷ "heuristic-optimizer" ∷ "model-score"
    ∷ "critic-review" ∷ "human-guidance" ∷ []

abbrev pub worker_class : List String
worker_class =
    "coordinator" ∷ "llm-research" ∷ "hyperon" ∷ "formal-atp" ∷ "replayer" ∷ "critic" ∷ "experiment"
    ∷ "alignment-reviewer" ∷ "human" ∷ "maintenance" ∷ []

abbrev pub terminal_executor_failures : List String
terminal_executor_failures =
    "timeout" ∷ "backend-missing" ∷ "parse-failure" ∷ "crash" ∷ "empty-output" ∷ []

abbrev pub non_kernel_tactics : List String
non_kernel_tactics = "PLN_fallback" ∷ []

abbrev pub standard_lean_axioms : List String
standard_lean_axioms = "propext" ∷ "Classical.choice" ∷ "Quot.sound" ∷ []

abbrev pub annotation_fields : List String
annotation_fields =
    "gnn_tactic_prior" ∷ "argument_probability" ∷ "premise_relevance" ∷ "pln_strength"
    ∷ "pln_confidence" ∷ "proof_number" ∷ "disproof_number" ∷ "depth" ∷ "estimated_execution_cost"
    ∷ "state_novelty" ∷ "transposition_count" ∷ "failure_family" ∷ "dependency_centrality"
    ∷ "expected_information_gain" ∷ "verification_value" ∷ "repeated_failure_risk"
    ∷ "expected_theorem_impact" ∷ "novelty_and_mechanism_diversity" ∷ "formalization_readiness"
    ∷ "estimated_cost" ∷ "human_priority" ∷ "availability_of_suitable_worker_or_model_or_tool"
    ∷ "derived_priority" ∷ []

abbrev pub graph_only_labels : List String
graph_only_labels =
    "Route" ∷ "Context" ∷ "Concept" ∷ "Critique" ∷ "Experiment" ∷ "Verification" ∷ []

abbrev pub graph_to_gate_label : List (String × String)
graph_to_gate_label =
    ("Proof", "Proof")
    ∷ ("State", "FormalState")
    ∷ ("Move", "TacticApplication")
    ∷ ("Claim", "Claim")
    ∷ ("Attempt", "Attempt")
    ∷ ("Artifact", "Artifact")
    ∷ ("Hypothesis", "SpeculativeHypothesis")
    ∷ ("Route", "Route")
    ∷ ("Context", "Context")
    ∷ ("Concept", "Concept")
    ∷ ("Critique", "Critique")
    ∷ ("Experiment", "Experiment")
    ∷ ("Verification", "Verification")
    ∷ []

abbrev pub legacy_status_aliases : List (String × String)
legacy_status_aliases =
    ("critic_accepted", "critic-accepted")
    ∷ ("lean_verified", "lean-verified")
    ∷ ("closed", "formally-closed")
    ∷ []

abbrev pub gate_labels : List String
gate_labels =
    ("Proof" ∷ "FormalState" ∷ "TacticApplication" ∷ "FormalDeclaration" ∷ "FormalRun"
      ∷ "FormalCheckpoint" ∷ "Certificate" ∷ "LeanReplay" ∷ "Environment" ∷ "Alignment" ∷ "Claim"
      ∷ "SpeculativeHypothesis" ∷ "Obstruction" ∷ "Attempt" ∷ "Artifact" ∷ "ResearchState"
      ∷ "ResearchMove" ∷ [])
    ++ graph_only_labels
