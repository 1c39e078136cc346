-- ===== src/Tests/Gate.antt =====
-- Proposals and the gate.
use Prim.Native.String
use persistent_atp.Prelude.{
  ℕ, ◌+◌, String, ◌≡◌, refl, none, some, [], ◌∷◌, ◌++◌, map, lookup, insert,
}
use persistent_atp.Vocab.{claim_status}
use persistent_atp.Vocab.Labels.{canonical_status}
use persistent_atp.Json.{str, int}
use persistent_atp.Gate.Ops.{op_class, upsert_node, add_edge}
use persistent_atp.Gate.Proposal.{Proposal, to_dict, from_dict}
use persistent_atp.Gate.Proposal.RoundTrip.{from_dict-to_dict}
use persistent_atp.Gate.Reasons.{Rejection, namespace_mismatch}
use persistent_atp.Gate.Validate.{validate_proposal, against}
use persistent_atp.Gate.Validate.Local.{
  check_concurrency_tokens, check_vocabulary, check_namespace, check_annotation_separation,
}
use persistent_atp.Gate.Validate.Tactics.{
  check_subgoal_conservation, check_executor_result, covers, push,
}
use persistent_atp.Gate.Validate.Committed.{
  check_references, check_prior_values, check_status_transitions, check_immutability,
  check_stagnation_obstruction,
}
use persistent_atp.Gate.Validate.Evidence.{
  check_replay_evidence, check_self_certification, check_alignment_gate,
}
use persistent_atp.Store.{Store, empty_store, granted, busy_begin, ok, write}
use persistent_atp.Store.Head.{head, genesis_hash}
use persistent_atp.Store.Journal.{append, append_body, after_append, verify_chain, verify_from}
use persistent_atp.Store.Journal.Append.{Extended}
use persistent_atp.Commit.{commit, decide, settle, acceptance, refusal}
use persistent_atp.Commit.Accepts.{accepted-verify_chain, commit-IsQuiet, IsQuiet}
use persistent_atp.Commit.Audit.{refused-audit, logged}
use persistent_atp.Tests.{toy_hash, nothing_committed, first_claim, new_claim}

abbrev committed : Store
committed =
    (commit toy_hash (λ _. granted) granted granted first_claim nothing_committed 0 0 empty_store).1

first_commit :
    commit toy_hash (λ _. granted) granted granted first_claim nothing_committed 0 0 empty_store
    ≡ (ok (acceptance (1, String.◌++◌ genesis_hash "x")), committed)
unfolding commit decide validate_proposal against check_subgoal_conservation
    check_concurrency_tokens op_class check_vocabulary check_namespace check_executor_result
    check_annotation_separation check_references check_prior_values check_status_transitions
    check_immutability check_stagnation_obstruction check_replay_evidence check_self_certification
    check_alignment_gate settle append append_body after_append write
first_commit = refl

unwritten : verify_chain toy_hash "p" empty_store ≡ ok 0
unfolding verify_chain verify_from
unwritten = refl

accepted-verify_chain_example :
    (validate_proposal first_claim (some nothing_committed) ≡ some [])
    × ((base : ℕ) → first_claim.base_revision ≡ some base → base ≡ 0)
    × ((hash : String) × (acceptance (1, String.◌++◌ genesis_hash "x") ≡ acceptance (0 + 1, hash))
        × Extended first_claim (0 + 1) hash empty_store committed
        × (head "p" committed ≡ (0 + 1, hash)))
    × (verify_chain toy_hash "p" committed ≡ ok (0 + 1))
accepted-verify_chain_example =
    accepted-verify_chain toy_hash (λ _. granted) granted granted first_claim nothing_committed 0 0
      empty_store committed 0 (acceptance (1, String.◌++◌ genesis_hash "x")) unwritten first_commit
      refl

commit-IsQuiet_example : IsQuiet empty_store.journal (
    commit toy_hash (λ _. granted) busy_begin granted first_claim nothing_committed 0 0 empty_store)
commit-IsQuiet_example =
    commit-IsQuiet toy_hash (λ _. granted) busy_begin granted first_claim nothing_committed 0 0
      empty_store

-- An id of another proof.
abbrev strayed : Proposal
strayed = new_claim "q/c1" 0 none none

abbrev stray : Rejection
stray = record { reason = namespace_mismatch; op_index = some 0 }

strays : validate_proposal strayed (some nothing_committed) ≡ some (stray ∷ [])
unfolding validate_proposal against check_subgoal_conservation check_concurrency_tokens op_class
    check_vocabulary check_namespace check_executor_result check_annotation_separation
    check_references check_prior_values check_status_transitions check_immutability
    check_stagnation_obstruction check_replay_evidence check_self_certification check_alignment_gate
strays = refl

refused-audit_example :
    commit toy_hash (λ _. granted) granted granted strayed nothing_committed 0 0 empty_store ≡ (
      ok (refusal (stray ∷ [])),
      record empty_store { rejections = [] ++ map (logged strayed) (stray ∷ []) },
    )
refused-audit_example =
    refused-audit toy_hash (λ _. granted) granted granted strayed nothing_committed 0 0 empty_store
      stray [] strays

from_dict-to_dict_example : from_dict (to_dict first_claim) ≡ some first_claim
from_dict-to_dict_example = from_dict-to_dict first_claim

accepted_status : canonical_status "critic_accepted" claim_status ≡ some "critic-accepted"
unfolding canonical_status
accepted_status = refl

-- A claim that its proposal creates as lean-verified, with no evidence at all.
abbrev born_verified : Proposal
born_verified = record first_claim {
  ops = upsert_node "Claim" "p/c1" (("status", str "lean-verified") ∷ []) ∷ [];
}

unproved : validate_proposal born_verified (some nothing_committed) ≡ some []
unfolding validate_proposal against check_subgoal_conservation check_concurrency_tokens op_class
    check_vocabulary check_namespace check_executor_result check_annotation_separation
    check_references check_prior_values check_status_transitions check_immutability
    check_stagnation_obstruction check_replay_evidence check_self_certification check_alignment_gate
unproved = refl

-- A text among numbers as positions, and the sort's exception.
abbrev mixed_positions : Proposal
mixed_positions = record first_claim {
  ops =
      upsert_node "TacticApplication" "p/t" (("subgoal_count", int 2) ∷ [])
      ∷ add_edge "FORMAL_REQUIRES" "p/t" "p/s1" "p/e1" (("child_index", int 0) ∷ [])
      ∷ add_edge "FORMAL_REQUIRES" "p/t" "p/s2" "p/e2" (("child_index", str "1") ∷ [])
      ∷ [];
}

unsorted : check_subgoal_conservation mixed_positions ≡ none
unfolding check_subgoal_conservation lookup covers push insert
unsorted = refl
