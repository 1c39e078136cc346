-- ===== src/Gate/Reasons.antt =====
-- commit_gate/reasons.py. The prose of a rejection's `detail` is not modelled.
use persistent_atp.Prelude.{ℕ, Option}

pub data Reason : Type 0 where
  unknown_status_value namespace_mismatch missing_required_field missing_prior_value : Reason
  subgoal_count_mismatch subgoal_duplicated subgoal_index_invalid orphan_subgoal_edge
        formal_requires_removal :
      Reason
  executor_failure_as_success closure_without_lean_accepted closure_without_zero_goals
        dead_edge_missing_diagnostic failure_with_mathematical_diagnostic orphan_closure_edge :
      Reason
  heuristic_closure_attempt non_kernel_closure : Reason
  unknown_node unknown_edge node_already_exists_with_label upsert_field_conflict
        edge_endpoint_type_invalid :
      Reason
  prior_value_mismatch illegal_status_transition immutable_field_overwrite : Reason
  stagnation_without_obstruction self_certification promotion_without_replay
        promotion_without_alignment environment_drift critic_verdict_required
        worker_class_out_of_authority :
      Reason
  stale_base_revision lease_not_held fencing_token_superseded journal_busy : Reason
  missing_concurrency_token : Reason

pub record Rejection : Type 0 where
  pub reason : Reason
  pub op_index : Option ℕ
