-- ===== src/Gate/Validate/Committed.antt =====
-- commit_gate/validate.py: the validators that read committed state, but those of evidence.
use persistent_atp.Prelude.{
  ℕ, suc, String, Bool, true, false, not, ◌&&◌, Option, none, some, List, [], ◌∷◌, ◌++◌, any,
  str_eq, if◌then◌else◌, is_none, is_some, lookup, insert,
}
use persistent_atp.Json.{Value, null, bool, num, str, value_eq, or_null, is_null, is_text}
use persistent_atp.Vocab.Labels.{contains}
use persistent_atp.Gate.Ops.{Op, Fields, upsert_node, set_field, add_edge, remove_edge}
use persistent_atp.Gate.Proposal.{Proposal}
use persistent_atp.Gate.Reasons.{
  Rejection, unknown_node, unknown_edge, node_already_exists_with_label, upsert_field_conflict,
  edge_endpoint_type_invalid, prior_value_mismatch, illegal_status_transition,
  immutable_field_overwrite, stagnation_without_obstruction,
}
use persistent_atp.Gate.State.{ReadView, NodeRecord, EdgeRecord}
use persistent_atp.Gate.Transitions.{status_transitions, immutable_fields}
use persistent_atp.Gate.Validate.Scan.{scan, at, when, lookup₂, text_in}
use persistent_atp.Gate.Validate.Local.{is_content_addressed}
use persistent_atp.Gate.Validate.Tables.{edge_endpoints}

-- {op.node_id: op.label for …}, and {op.edge_id: op.rel_type for …}
abbrev created_nodes : List (String × String) → List Op → List (String × String)
created_nodes d [] = d
created_nodes d (upsert_node label node_id fields ∷ ops) =
    created_nodes (insert node_id label d) ops
created_nodes d (set_field label node_id field value prior ∷ ops) = created_nodes d ops
created_nodes d (add_edge rel src dst edge_id fields ∷ ops) = created_nodes d ops
created_nodes d (remove_edge rel edge_id ∷ ops) = created_nodes d ops

abbrev added_edges : List (String × String) → List Op → List (String × String)
added_edges d [] = d
added_edges d (upsert_node label node_id fields ∷ ops) = added_edges d ops
added_edges d (set_field label node_id field value prior ∷ ops) = added_edges d ops
added_edges d (add_edge rel src dst edge_id fields ∷ ops) = added_edges (insert edge_id rel d) ops
added_edges d (remove_edge rel edge_id ∷ ops) = added_edges d ops

abbrev label_of : Option NodeRecord → Option String
label_of none = none
label_of (some r) = some r.label

abbrev rel_of : Option EdgeRecord → Option String
rel_of none = none
rel_of (some r) = some r.rel_type

abbrev or_else : Option String → Option String → Option String
or_else none b = b
or_else (some a) b = some a

unfoldable pub get_label : List Op → ReadView → String → Option String
get_label ops view n = or_else (lookup n (created_nodes [] ops)) (label_of (view.node n))

unfoldable pub get_rel : List Op → ReadView → String → Option String
get_rel ops view e = or_else (lookup e (added_edges [] ops)) (rel_of (view.edge e))

abbrev differs : Option String → String → Bool
differs none want = false
differs (some l) want = not (str_eq l want)

abbrev check_label : ℕ → Option String → String → List Rejection
check_label index none label = at unknown_node index
check_label index (some l) label =
    if str_eq l label then [] else at node_already_exists_with_label index

abbrev check_endpoints :
    ℕ → Option (String × String) → Option String → Option String → List Rejection
check_endpoints index none src dst = []
check_endpoints index (some (exp_src, exp_dst)) src dst =
    when (differs src exp_src) (at edge_endpoint_type_invalid index)
    ++ when (differs dst exp_dst) (at edge_endpoint_type_invalid index)

abbrev conflicts : Option Value → Value → Bool
conflicts none proposed = true
conflicts (some committed) proposed = not (value_eq committed proposed)

abbrev check_fields : ℕ → Fields → Fields → List Rejection
check_fields index committed [] = []
check_fields index committed ((field, proposed) ∷ fields) =
    when (conflicts (lookup field committed) proposed) (at upsert_field_conflict index)
    ++ check_fields index committed fields

abbrev check_upsert : ℕ → Option NodeRecord → Fields → List Rejection
check_upsert index none fields = []
check_upsert index (some r) fields = check_fields index r.fields fields

abbrev check_rel : ℕ → Option String → String → List Rejection
check_rel index none rel = at unknown_edge index
check_rel index (some actual) rel = if str_eq actual rel then [] else at unknown_edge index

-- The loop, over the ops left and the edges that have been removed.
unfoldable pub references_from :
    (String → Option String)
    → (String → Option String)
    → ReadView
    → ℕ
    → List String
    → List Op
    → List Rejection
references_from label_at rel_at view i removed [] = []
references_from label_at rel_at view i removed (set_field label n field value prior ∷ ops) =
    check_label i (label_at n) label ++ references_from label_at rel_at view (suc i) removed ops
references_from label_at rel_at view i removed (add_edge rel src dst e fields ∷ ops) =
    (when (is_none (label_at src)) (at unknown_node i)
      ++ (when (is_none (label_at dst) && not (is_content_addressed dst)) (at unknown_node i)
          ++ check_endpoints i (lookup rel edge_endpoints) (label_at src) (label_at dst)))
    ++ references_from label_at rel_at view (suc i) removed ops
references_from label_at rel_at view i removed (upsert_node label n fields ∷ ops) =
    check_upsert i (view.node n) fields ++ references_from label_at rel_at view (suc i) removed ops
references_from label_at rel_at view i removed (remove_edge rel e ∷ ops) =
    (if contains removed e then at unknown_edge i else check_rel i (rel_at e) rel)
    ++ references_from label_at rel_at view (suc i)
        (if contains removed e then removed else e ∷ removed) ops

unfoldable pub check_references : Proposal → ReadView → List Rejection
unfolding references_from get_label get_rel
check_references p view =
    references_from (get_label p.ops view) (get_rel p.ops view) view 0 [] p.ops

abbrev pub prior_differs : Option NodeRecord → String → Option Value → Bool
prior_differs r field none = false
prior_differs none field (some prior) = false
prior_differs (some r) field (some prior) = not (value_eq (or_null (lookup field r.fields)) prior)

abbrev pub prior_of : ReadView → ℕ → Op → List Rejection
prior_of view index (set_field label n field value prior) =
    when (prior_differs (view.node n) field prior) (at prior_value_mismatch index)
prior_of view index (upsert_node label n fields) = []
prior_of view index (add_edge rel src dst e fields) = []
prior_of view index (remove_edge rel e) = []

unfoldable pub check_prior_values : Proposal → ReadView → List Rejection
unfolding scan
check_prior_values p view = scan (prior_of view) 0 p.ops

-- table.get(current, frozenset())
abbrev pub allowed_from : List (String × List String) → Value → List String
allowed_from table (str s) = elim (lookup s table) [ none ↦ [] | some tos ↦ tos ]
allowed_from table null = []
allowed_from table (bool b) = []
allowed_from table (num z k) = []

abbrev pub bad_step :
    Option (List (String × List String)) → Option NodeRecord → String → Value → Bool
bad_step none r field value = false
bad_step (some table) none field value = false
bad_step (some table) (some r) field value =
    let current = or_null (lookup field r.fields) in
    not (is_null current) && not (text_in (allowed_from table current) value)

abbrev pub transition_of : ReadView → ℕ → Op → List Rejection
transition_of view index (set_field label n field value prior) =
    when (bad_step (lookup₂ label field status_transitions) (view.node n) field value)
      (at illegal_status_transition index)
transition_of view index (upsert_node label n fields) = []
transition_of view index (add_edge rel src dst e fields) = []
transition_of view index (remove_edge rel e) = []

unfoldable pub check_status_transitions : Proposal → ReadView → List Rejection
unfolding scan
check_status_transitions p view = scan (transition_of view) 0 p.ops

abbrev pub is_immutable : String → String → Bool
is_immutable label field = elim (lookup label immutable_fields) [
  | none ↦ false
  | some fields ↦ contains fields field
]

abbrev pub immutability_of : ℕ → Op → List Rejection
immutability_of index (set_field label n field value prior) =
    when (is_immutable label field) (at immutable_field_overwrite index)
immutability_of index (upsert_node label n fields) = []
immutability_of index (add_edge rel src dst e fields) = []
immutability_of index (remove_edge rel e) = []

unfoldable pub check_immutability : Proposal → ReadView → List Rejection
unfolding scan
check_immutability p view = scan immutability_of 0 p.ops

abbrev pub raises_obstruction : String → Op → Bool
raises_obstruction n (add_edge rel src dst e fields) =
    str_eq rel "RAISED_OBSTRUCTION" && str_eq src n
raises_obstruction n (upsert_node label m fields) = false
raises_obstruction n (set_field label m field value prior) = false
raises_obstruction n (remove_edge rel e) = false

abbrev is_empty : List EdgeRecord → Bool
is_empty [] = true
is_empty (e ∷ es) = false

abbrev pub stagnation_of : List Op → ReadView → ℕ → Op → List Rejection
stagnation_of ops view index (set_field label n field value prior) =
    when
      ((str_eq label "FormalRun" && (str_eq field "status" && is_text "stagnated" value))
        && (not (any (raises_obstruction n) ops)
            && not
                (is_some (view.node n) && not (is_empty (view.edges_from n "RAISED_OBSTRUCTION")))))
      (at stagnation_without_obstruction index)
stagnation_of ops view index (upsert_node label n fields) = []
stagnation_of ops view index (add_edge rel src dst e fields) = []
stagnation_of ops view index (remove_edge rel e) = []

unfoldable pub check_stagnation_obstruction : Proposal → ReadView → List Rejection
unfolding scan
check_stagnation_obstruction p view = scan (stagnation_of p.ops view) 0 p.ops
