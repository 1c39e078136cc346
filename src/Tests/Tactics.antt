-- ===== src/Tests/Tactics.antt =====
-- A tactic with two subgoals, and one that closes its state.
use persistent_atp.Prelude.{
  ℕ, zero, suc, Option, none, String, ◌∙◌, sym, str_eq, eq_iff, false, ◌≡◌, ◌≢◌, refl, some, [],
  ◌∷◌, lookup, insert, get_elem?, true,
}
use persistent_atp.Json.{Value, null, str, int, or_null, value_eq}
use persistent_atp.Gate.Ops.{Fields, op_class, upsert_node, add_edge}
use persistent_atp.Gate.Proposal.{Proposal}
use persistent_atp.Gate.State.{MemoryView, NodeRecord, empty_view}
use persistent_atp.Gate.Apply.{apply_op, apply_ops}
use persistent_atp.Gate.Validate.{validate_proposal, against}
use persistent_atp.Gate.Validate.Local.{
  check_concurrency_tokens, check_vocabulary, check_namespace, check_annotation_separation,
}
use persistent_atp.Gate.Validate.Tactics.{
  check_subgoal_conservation, check_executor_result, covers, push,
}
use persistent_atp.Gate.Validate.Committed.{
  check_references, check_prior_values, check_status_transitions, check_immutability,
  check_stagnation_obstruction, get_label, references_from,
}
use persistent_atp.Gate.Validate.Evidence.{
  check_replay_evidence, check_self_certification, check_alignment_gate,
}
use persistent_atp.Gate.Soundness.Created.{applied-Accepted, Accepted, Unset}
use persistent_atp.Tests.{first_claim, nothing_committed}

abbrev tactic_step : Proposal
tactic_step = record first_claim {
  ops =
      upsert_node "TacticApplication" "p/t"
        (("executor_result", str "lean-accepted") ∷ ("subgoal_count", int 2) ∷ [])
      ∷ upsert_node "FormalState" "p/s1" []
      ∷ upsert_node "FormalState" "p/s2" []
      ∷ add_edge "FORMAL_REQUIRES" "p/t" "p/s1" "p/e1" (("child_index", int 1) ∷ [])
      ∷ add_edge "FORMAL_REQUIRES" "p/t" "p/s2" "p/e2" (("child_index", int 0) ∷ [])
      ∷ [];
}

abbrev closing_step : Proposal
closing_step = record first_claim {
  ops =
      upsert_node "TacticApplication" "p/t"
        (("executor_result", str "lean-accepted") ∷ ("subgoal_count", int 0) ∷ [])
      ∷ upsert_node "FormalState" "p/s" []
      ∷ add_edge "CLOSES_STATE" "p/t" "p/s" "p/e" []
      ∷ [];
}

sound_closing : validate_proposal closing_step (some nothing_committed) ≡ some []
unfolding validate_proposal against check_subgoal_conservation check_concurrency_tokens op_class
    check_vocabulary check_namespace check_executor_result check_annotation_separation
    check_references check_prior_values check_status_transitions check_immutability
    check_stagnation_obstruction check_replay_evidence check_self_certification check_alignment_gate
    lookup insert covers push get_label references_from value_eq
sound_closing = refl

closing-Unset : Unset "p/t" closing_step.ops
closing-Unset zero op e label name v prior q = absurd (cc)
closing-Unset (suc zero) op e label name v prior q = absurd (cc)
closing-Unset (suc (suc zero)) op e label name v prior q = absurd (cc)
closing-Unset (suc (suc (suc k))) op e label name v prior q = absurd (cc)

other_id : (s : String) → str_eq s "p/t" ≡ false → s ≢ "p/t"
other_id s apart q = let same : str_eq s "p/t" ≡ true = (eq_iff s "p/t").1 q in absurd (cc)

first_alone :
    (i : ℕ) (label : String) (f : Fields)
    → get_elem? closing_step.ops i ≡ some (upsert_node label "p/t" f)
    → i ≡ 0
first_alone zero label f e = refl
first_alone (suc zero) label f e = absurd (other_id "p/s" refl (cc))
first_alone (suc (suc zero)) label f e = absurd (cc)
first_alone (suc (suc (suc k))) label f e = absurd (cc)

abbrev closed_view : Option MemoryView
closed_view = apply_ops empty_view closing_step.ops

abbrev or_empty : Option MemoryView → MemoryView
or_empty none = empty_view
or_empty (some m) = m

closing_applied : apply_ops empty_view closing_step.ops ≡ some (or_empty closed_view)
unfolding apply_ops apply_op
closing_applied = refl

applied-Accepted_example : Accepted "p/t" (or_empty closed_view)
applied-Accepted_example =
    applied-Accepted closing_step nothing_committed empty_view (or_empty closed_view) 2 "p/t" "p/s"
      "p/e" [] sound_closing refl refl
      (λ i j label label' f g a b. first_alone i label f a ∙ sym (first_alone j label' g b))
      closing-Unset closing_applied

abbrev step_view : Option MemoryView
step_view = apply_ops empty_view tactic_step.ops

-- A tactic that timed out, and a second upsert of it for the validators: they find nothing, and the
-- replay keeps the first.
abbrev shadowed_step : Proposal
shadowed_step = record first_claim {
  ops =
      upsert_node "TacticApplication" "p/t"
        (("executor_result", str "timeout") ∷ ("subgoal_count", int 5) ∷ [])
      ∷ upsert_node "TacticApplication" "p/t"
          (("executor_result", str "lean-accepted") ∷ ("subgoal_count", int 0) ∷ [])
      ∷ upsert_node "FormalState" "p/s" []
      ∷ add_edge "CLOSES_STATE" "p/t" "p/s" "p/e" []
      ∷ [];
}

shadow_unseen : validate_proposal shadowed_step (some nothing_committed) ≡ some []
unfolding validate_proposal against check_subgoal_conservation check_concurrency_tokens op_class
    check_vocabulary check_namespace check_executor_result check_annotation_separation
    check_references check_prior_values check_status_transitions check_immutability
    check_stagnation_obstruction check_replay_evidence check_self_certification check_alignment_gate
    lookup insert covers push get_label references_from value_eq
shadow_unseen = refl

executor_result : Option NodeRecord → Value
executor_result none = null
executor_result (some r) = or_null (lookup "executor_result" r.fields)

result_of : Option MemoryView → String → Value
unfolding executor_result
result_of none t = null
result_of (some m) t = executor_result (m.nodes t)

timeout_committed : result_of (apply_ops empty_view shadowed_step.ops) "p/t" ≡ str "timeout"
unfolding result_of executor_result apply_ops apply_op lookup
timeout_committed = refl
