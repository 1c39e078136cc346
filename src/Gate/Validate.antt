-- ===== src/Gate/Validate.antt =====
-- commit_gate/validate.py: the validators, each in a child module, and the order they run in.
mod Tables
pub mod Scan
pub mod Local
pub mod Tactics
pub mod Committed
pub mod Evidence
use persistent_atp.Prelude.{Option, none, some, List, [], ◌++◌}
use persistent_atp.Gate.Proposal.{Proposal}
use persistent_atp.Gate.Reasons.{Rejection}
use persistent_atp.Gate.State.{ReadView}
use Local.{check_concurrency_tokens, check_vocabulary, check_namespace, check_annotation_separation}
use Tactics.{both, check_subgoal_conservation, check_executor_result}
use Committed.{
  check_references, check_prior_values, check_status_transitions, check_immutability,
  check_stagnation_obstruction,
}
use Evidence.{check_replay_evidence, check_self_certification, check_alignment_gate}

-- The validators that need a view.
unfoldable pub against : Proposal → Option ReadView → List Rejection
against p none = []
against p (some view) =
    check_references p view
    ++ (check_prior_values p view
        ++ (check_status_transitions p view
            ++ (check_immutability p view
                ++ (check_stagnation_obstruction p view
                    ++ (check_replay_evidence p view
                        ++ (check_self_certification p view ++ check_alignment_gate p view))))))

-- `none` is the TypeError of a sort, in check_subgoal_conservation.
unfoldable pub validate_proposal : Proposal → Option ReadView → Option (List Rejection)
unfolding against
validate_proposal p view =
    both (some (check_concurrency_tokens p ++ (check_vocabulary p ++ check_namespace p))) (
      both (check_subgoal_conservation p)
        (some (check_executor_result p ++ (check_annotation_separation p ++ against p view))))
