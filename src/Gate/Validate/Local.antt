-- ===== src/Gate/Validate/Local.antt =====
-- commit_gate/validate.py: the validators that read the proposal alone, but those of tactics.
use Prim.Native.String
use text.Mathlib.Text.{starts_with}
use persistent_atp.Prelude.{
  ℕ, suc, String, Bool, true, false, not, ◌&&◌, ◌||◌, Option, none, some, List, [], ◌∷◌, ◌++◌, any,
  str_eq, if◌then◌else◌, is_none, is_some,
}
use persistent_atp.Json.{Value}
use persistent_atp.Vocab.{annotation_fields}
use persistent_atp.Vocab.Labels.{contains}
use persistent_atp.Gate.Ops.{
  Op, OpClass, structural, status, annotation, Fields, op_class, upsert_node, set_field, add_edge,
  remove_edge,
}
use persistent_atp.Gate.Proposal.{Proposal}
use persistent_atp.Gate.Reasons.{
  Rejection, missing_concurrency_token, unknown_status_value, namespace_mismatch,
  missing_prior_value, heuristic_closure_attempt,
}
use persistent_atp.Gate.Validate.Scan.{scan, at, lookup₂, text_in}
use persistent_atp.Gate.Validate.Tables.{enum_fields, closed_state_values, unscoped_labels}

abbrev pub is_status : OpClass → Bool
is_status structural = false
is_status status = true
is_status annotation = false

abbrev pub is_annotation_class : OpClass → Bool
is_annotation_class structural = false
is_annotation_class status = false
is_annotation_class annotation = true

-- The loop that stops at the first status-class op.
unfoldable pub first_status : ℕ → List Op → List Rejection
first_status i [] = []
first_status i (op ∷ ops) =
    let rest = first_status (suc i) ops in
    if is_status (op_class op) then at missing_concurrency_token i else rest

unfoldable pub check_concurrency_tokens : Proposal → List Rejection
unfolding first_status
check_concurrency_tokens p =
    (if is_none p.base_revision
      then record { reason = missing_concurrency_token; op_index = none } ∷ []
      else [])
    ++ (if is_some p.lease_id && is_some p.fencing_token then [] else first_status 0 p.ops)

abbrev illegal : Option (List String) → Value → Bool
illegal none value = false
illegal (some vocabulary) value = not (text_in vocabulary value)

unfoldable pub check_literal : ℕ → String → String → Value → List Rejection
check_literal index label name value =
    if illegal (lookup₂ label name enum_fields) value then at unknown_status_value index else []

abbrev check_literals : ℕ → String → Fields → List Rejection
check_literals index label [] = []
check_literals index label ((name, value) ∷ fields) =
    check_literal index label name value ++ check_literals index label fields

abbrev vocabulary_of : ℕ → Op → List Rejection
vocabulary_of index (upsert_node label node_id fields) = check_literals index label fields
vocabulary_of index (set_field label node_id field value prior) =
    check_literal index label field value
vocabulary_of index (add_edge rel src dst edge_id fields) = []
vocabulary_of index (remove_edge rel edge_id) = []

unfoldable pub check_vocabulary : Proposal → List Rejection
unfolding scan check_literal
check_vocabulary p = scan vocabulary_of 0 p.ops

-- `_identities`, without the roles, which only the prose names.
unfoldable pub identities : Op → List String
identities (upsert_node label node_id fields) =
    if contains unscoped_labels label then [] else node_id ∷ []
identities (set_field label node_id field value prior) =
    if contains unscoped_labels label then [] else node_id ∷ []
identities (add_edge rel src dst edge_id fields) = src ∷ dst ∷ edge_id ∷ []
identities (remove_edge rel edge_id) = edge_id ∷ []

abbrev pub is_content_addressed : String → Bool
is_content_addressed identity = starts_with identity "sha256:"

abbrev pub is_scoped : String → String → Bool
is_scoped pid identity = is_content_addressed identity || starts_with identity (String.◌++◌ pid "/")

abbrev pub check_scopes : String → ℕ → List String → List Rejection
check_scopes pid index [] = []
check_scopes pid index (identity ∷ rest) =
    (if is_scoped pid identity then [] else at namespace_mismatch index)
    ++ check_scopes pid index rest

abbrev pub namespace_of : String → ℕ → Op → List Rejection
namespace_of pid index op = check_scopes pid index (identities op)

unfoldable pub check_namespace : Proposal → List Rejection
unfolding scan identities
check_namespace p = scan (namespace_of p.proof_id) 0 p.ops

-- The first loop: a non-annotation write that states no prior value.
abbrev missing_prior : ℕ → Op → List Rejection
missing_prior index (set_field label node_id field value prior) =
    if is_none prior
      && not (is_annotation_class (op_class (set_field label node_id field value prior)))
    then at missing_prior_value index
    else []
missing_prior index (upsert_node label node_id fields) = []
missing_prior index (add_edge rel src dst edge_id fields) = []
missing_prior index (remove_edge rel edge_id) = []

-- node in annotated
abbrev annotates : String → Op → Bool
annotates n (set_field label node_id field value prior) =
    str_eq node_id n && is_annotation_class (op_class (set_field label node_id field value prior))
annotates n (upsert_node label node_id fields) =
    str_eq node_id n
    && (str_eq label "FormalState" && any (λ f. contains annotation_fields f.0) fields)
annotates n (add_edge rel src dst edge_id fields) = false
annotates n (remove_edge rel edge_id) = false

-- node in evidence
abbrev evidences : String → Op → Bool
evidences n (add_edge rel src dst edge_id fields) = str_eq rel "CLOSES_STATE" && str_eq dst n
evidences n (upsert_node label node_id fields) = false
evidences n (set_field label node_id field value prior) = false
evidences n (remove_edge rel edge_id) = false

abbrev closes : Op → Option String
closes (set_field label node_id field value prior) =
    if not (is_annotation_class (op_class (set_field label node_id field value prior)))
      && (str_eq label "FormalState"
          && (str_eq field "status" && text_in closed_state_values value))
    then some node_id
    else none
closes (upsert_node label node_id fields) = none
closes (add_edge rel src dst edge_id fields) = none
closes (remove_edge rel edge_id) = none

-- closed_targets.setdefault(node_id, index)
abbrev note : Option String → ℕ → List (String × ℕ) → List (String × ℕ)
note none index closed = closed
note (some n) index closed =
    if any (λ e. str_eq e.0 n) closed then closed else closed ++ (n, index) ∷ []

abbrev closed_targets : ℕ → List (String × ℕ) → List Op → List (String × ℕ)
closed_targets index closed [] = closed
closed_targets index closed (op ∷ ops) =
    closed_targets (suc index) (note (closes op) index closed) ops

abbrev heuristic : List Op → List (String × ℕ) → List Rejection
heuristic ops [] = []
heuristic ops ((n, index) ∷ closed) =
    (if any (annotates n) ops && not (any (evidences n) ops)
      then at heuristic_closure_attempt index
      else [])
    ++ heuristic ops closed

unfoldable pub check_annotation_separation : Proposal → List Rejection
unfolding scan op_class
check_annotation_separation p =
    scan missing_prior 0 p.ops ++ heuristic p.ops (closed_targets 0 [] p.ops)
