-- ===== src/Gate/Transitions/Tables.antt =====
-- commit_gate/transitions.py: the tables, keys and members in the source's order.
use persistent_atp.Prelude.{String, List, [], ◌∷◌}

abbrev pub formal_state_status : List (String × List String)
formal_state_status =
    ("open", "expanded" ∷ "formally-closed" ∷ "failed" ∷ "pruned" ∷ "tainted" ∷ "stale" ∷ [])
    ∷ ("expanded", "formally-closed" ∷ "failed" ∷ "pruned" ∷ "tainted" ∷ "stale" ∷ [])
    ∷ ("formally-closed", "lean-verified" ∷ "tainted" ∷ "stale" ∷ [])
    ∷ ("lean-verified", "tainted" ∷ "stale" ∷ [])
    ∷ ("tainted", "reopened" ∷ "pruned" ∷ "stale" ∷ [])
    ∷ ("reopened", "expanded" ∷ "formally-closed" ∷ "failed" ∷ "pruned" ∷ "tainted" ∷ "stale" ∷ [])
    ∷ ("failed", "stale" ∷ [])
    ∷ ("pruned", "stale" ∷ [])
    ∷ ("stale", [])
    ∷ []

abbrev pub claim_status : List (String × List String)
claim_status =
    (
      "conjectural",
      "empirical" ∷ "provisional" ∷ "tainted" ∷ "refuted" ∷ "retracted" ∷ "stale" ∷ [],
    )
    ∷ ("empirical", "provisional" ∷ "tainted" ∷ "refuted" ∷ "retracted" ∷ "stale" ∷ [])
    ∷ (
      "provisional",
      "critic-accepted" ∷ "formally-closed" ∷ "tainted" ∷ "refuted" ∷ "retracted" ∷ "stale" ∷ [],
    )
    ∷ ("critic-accepted", "formally-closed" ∷ "tainted" ∷ "refuted" ∷ "retracted" ∷ "stale" ∷ [])
    ∷ ("formally-closed", "lean-verified" ∷ "tainted" ∷ "refuted" ∷ "retracted" ∷ "stale" ∷ [])
    ∷ ("lean-verified", "tainted" ∷ "stale" ∷ [])
    ∷ ("tainted", "refuted" ∷ "retracted" ∷ "stale" ∷ [])
    ∷ ("refuted", "stale" ∷ [])
    ∷ ("retracted", "stale" ∷ [])
    ∷ ("stale", [])
    ∷ []

abbrev pub formal_declaration_status : List (String × List String)
formal_declaration_status =
    ("draft", "aligned" ∷ "searching" ∷ "stale" ∷ [])
    ∷ ("aligned", "searching" ∷ "stale" ∷ [])
    ∷ ("searching", "certificate-produced" ∷ "stale" ∷ [])
    ∷ ("certificate-produced", "replay-pending" ∷ "stale" ∷ [])
    ∷ ("replay-pending", "replay-accepted" ∷ "replay-rejected" ∷ "stale" ∷ [])
    ∷ ("replay-accepted", "stale" ∷ [])
    ∷ ("replay-rejected", "stale" ∷ [])
    ∷ ("stale", [])
    ∷ []

abbrev pub certificate_status : List (String × List String)
certificate_status =
    ("candidate", "replay-pending" ∷ "stale" ∷ [])
    ∷ ("replay-pending", "replay-accepted" ∷ "replay-rejected" ∷ "stale" ∷ [])
    ∷ ("replay-accepted", "stale" ∷ [])
    ∷ ("replay-rejected", "stale" ∷ [])
    ∷ ("stale", [])
    ∷ []

abbrev pub alignment_lifecycle : List (String × List String)
alignment_lifecycle =
    ("draft", "review-needed" ∷ "superseded" ∷ "stale" ∷ [])
    ∷ ("review-needed", "reviewed" ∷ "superseded" ∷ "stale" ∷ [])
    ∷ ("reviewed", "superseded" ∷ "stale" ∷ [])
    ∷ ("superseded", "stale" ∷ [])
    ∷ ("stale", [])
    ∷ []

abbrev pub formal_run_status : List (String × List String)
formal_run_status =
    (
      "searching",
      "proved-pending-replay" ∷ "budget-exhausted" ∷ "stagnated" ∷ "counterexample"
          ∷ "invalid-request" ∷ "environment-error" ∷ "internal-error" ∷ "cancelled" ∷ [],
    )
    ∷ ("proved-pending-replay", [])
    ∷ ("budget-exhausted", [])
    ∷ ("stagnated", [])
    ∷ ("counterexample", [])
    ∷ ("invalid-request", [])
    ∷ ("environment-error", [])
    ∷ ("internal-error", [])
    ∷ ("cancelled", [])
    ∷ []

abbrev pub tactic_application_status : List (String × List String)
tactic_application_status =
    ("pending", "queued" ∷ "open" ∷ "closed" ∷ "dead" ∷ [])
    ∷ ("queued", "leased" ∷ "open" ∷ "dominated" ∷ "dead" ∷ [])
    ∷ ("leased", "open" ∷ "closed" ∷ "refuted" ∷ "exhausted" ∷ "dead" ∷ [])
    ∷ ("open", "leased" ∷ "closed" ∷ "refuted" ∷ "dominated" ∷ "exhausted" ∷ "dead" ∷ [])
    ∷ ("closed", "reopened" ∷ [])
    ∷ ("reopened", "leased" ∷ "closed" ∷ "refuted" ∷ "dominated" ∷ "exhausted" ∷ "dead" ∷ [])
    ∷ ("refuted", [])
    ∷ ("dominated", [])
    ∷ ("exhausted", [])
    ∷ ("dead", [])
    ∷ []

abbrev pub research_state_status : List (String × List String)
research_state_status =
    ("open", "superseded" ∷ "refuted" ∷ "stale" ∷ [])
    ∷ ("superseded", "stale" ∷ [])
    ∷ ("refuted", "stale" ∷ [])
    ∷ ("stale", [])
    ∷ []

abbrev pub research_move_status : List (String × List String)
research_move_status =
    ("queued", "leased" ∷ "open" ∷ "dominated" ∷ "exhausted" ∷ "stale" ∷ [])
    ∷ ("open", "leased" ∷ "closed" ∷ "refuted" ∷ "dominated" ∷ "exhausted" ∷ "stale" ∷ [])
    ∷ ("leased", "open" ∷ "closed" ∷ "refuted" ∷ "dominated" ∷ "exhausted" ∷ "stale" ∷ [])
    ∷ ("closed", "stale" ∷ [])
    ∷ ("refuted", [])
    ∷ ("dominated", [])
    ∷ ("exhausted", [])
    ∷ ("stale", [])
    ∷ []

abbrev pub status_transitions : List ((String × String) × List (String × List String))
status_transitions =
    (("FormalState", "status"), formal_state_status)
    ∷ (("Claim", "status"), claim_status)
    ∷ (("FormalDeclaration", "status"), formal_declaration_status)
    ∷ (("Certificate", "status"), certificate_status)
    ∷ (("Alignment", "lifecycle"), alignment_lifecycle)
    ∷ (("FormalRun", "status"), formal_run_status)
    ∷ (("TacticApplication", "status"), tactic_application_status)
    ∷ (("ResearchState", "status"), research_state_status)
    ∷ (("ResearchMove", "status"), research_move_status)
    ∷ []

abbrev pub immutable_fields : List (String × List String)
immutable_fields =
    ("FormalState", "goal_text" ∷ "exact_hash" ∷ "is_theorem" ∷ [])
    ∷ (
      "TacticApplication",
      "tactic_label" ∷ "tactic_family" ∷ "subgoal_count" ∷ "executor_result" ∷ "diagnostic_artifact"
          ∷ [],
    )
    ∷ ("Claim", "claim_text" ∷ "tag" ∷ [])
    ∷ (
      "FormalDeclaration",
      "lean_name" ∷ "lean_type" ∷ "lean_value" ∷ "module_path" ∷ "universe_level" ∷ [],
    )
    ∷ ("FormalRun", "actor" ∷ "start_time" ∷ [])
    ∷ ("Certificate", "actor" ∷ "producer_run_id" ∷ "artifact_hash" ∷ [])
    ∷ (
      "LeanReplay",
      "actor" ∷ "replayed_at" ∷ "status" ∷ "sorry_detected" ∷ "rejection_reason" ∷ [],
    )
    ∷ ("Obstruction", "kind" ∷ "description" ∷ "actor" ∷ [])
    ∷ ("Proof", "actor" ∷ [])
    ∷ ("Alignment", "actor" ∷ [])
    ∷ ("Attempt", "actor" ∷ "worker_class" ∷ [])
    ∷ ("Environment", "toolchain" ∷ "lake_manifest_hash" ∷ "mathlib_commit" ∷ [])
    ∷ ("FormalCheckpoint", "epoch_ms" ∷ "actor" ∷ [])
    ∷ []
