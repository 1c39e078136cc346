-- ===== src/Gate/Validate/Evidence.antt =====
-- commit_gate/validate.py: the proof soundness gates.
use persistent_atp.Prelude.{
  ℕ, String, Bool, false, not, ◌&&◌, none, some, List, [], ◌∷◌, ◌++◌, map, any, str_eq,
  if◌then◌else◌, lookup,
}
use persistent_atp.Json.{Value, value_eq, or_null, is_null, is_false, is_text}
use persistent_atp.Gate.Ops.{Op, Fields, upsert_node, set_field, add_edge, remove_edge}
use persistent_atp.Gate.Proposal.{Proposal}
use persistent_atp.Gate.Reasons.{
  Rejection, promotion_without_replay, promotion_without_alignment, self_certification,
}
use persistent_atp.Gate.State.{ReadView}
use persistent_atp.Gate.Validate.Scan.{scan, at, when}

-- The first UpsertNode of the node, or nothing.
abbrev proposed_fields : String → List Op → Fields
proposed_fields n [] = []
proposed_fields n (upsert_node label m fields ∷ ops) =
    if str_eq m n then fields else proposed_fields n ops
proposed_fields n (set_field label m field value prior ∷ ops) = proposed_fields n ops
proposed_fields n (add_edge rel src dst e fields ∷ ops) = proposed_fields n ops
proposed_fields n (remove_edge rel e ∷ ops) = proposed_fields n ops

unfoldable pub node_fields : String → List Op → ReadView → Fields
node_fields n ops view = elim (view.node n) [ none ↦ proposed_fields n ops | some r ↦ r.fields ]

-- fields.get(name), for the fields of a node
abbrev pub field_at : String → String → List Op → ReadView → Value
field_at n name ops view = or_null (lookup name (node_fields n ops view))

abbrev proposed_targets : String → String → List Op → List String
proposed_targets n rel [] = []
proposed_targets n rel (add_edge r src dst e fields ∷ ops) =
    if str_eq r rel && str_eq src n
    then dst ∷ proposed_targets n rel ops
    else proposed_targets n rel ops
proposed_targets n rel (upsert_node label m fields ∷ ops) = proposed_targets n rel ops
proposed_targets n rel (set_field label m field value prior ∷ ops) = proposed_targets n rel ops
proposed_targets n rel (remove_edge r e ∷ ops) = proposed_targets n rel ops

abbrev proposed_sources : String → String → List Op → List String
proposed_sources n rel [] = []
proposed_sources n rel (add_edge r src dst e fields ∷ ops) =
    if str_eq r rel && str_eq dst n
    then src ∷ proposed_sources n rel ops
    else proposed_sources n rel ops
proposed_sources n rel (upsert_node label m fields ∷ ops) = proposed_sources n rel ops
proposed_sources n rel (set_field label m field value prior ∷ ops) = proposed_sources n rel ops
proposed_sources n rel (remove_edge r e ∷ ops) = proposed_sources n rel ops

unfoldable pub edge_targets : String → String → List Op → ReadView → List String
edge_targets n rel ops view =
    proposed_targets n rel ops ++ map (λ e. e.dst_id) (view.edges_from n rel)

unfoldable pub edge_sources : String → String → List Op → ReadView → List String
edge_sources n rel ops view =
    proposed_sources n rel ops ++ map (λ e. e.src_id) (view.edges_to n rel)

-- The test inside the two loops: an independent, verified, sorry-free replay.
abbrev pub replay_holds : Value → String → List Op → ReadView → Bool
replay_holds certificate_actor replay ops view =
    let actor = field_at replay "actor" ops view in
    is_text "verified" (field_at replay "status" ops view)
    && (is_false (field_at replay "sorry_detected" ops view)
        && (not (is_null actor)
            && (not (is_null certificate_actor) && not (value_eq actor certificate_actor))))

abbrev pub certificate_holds : List Op → ReadView → String → Bool
certificate_holds ops view certificate =
    any (λ replay. replay_holds (field_at certificate "actor" ops view) replay ops view)
      (edge_targets certificate "REPLAYED_BY" ops view)

unfoldable pub has_verified_sorry_free_replay : String → List Op → ReadView → Bool
has_verified_sorry_free_replay claim ops view =
    any (certificate_holds ops view) (edge_targets claim "PROVED_BY" ops view)

abbrev pub alignment_holds : List Op → ReadView → String → Bool
alignment_holds ops view alignment =
    is_text "reviewed" (field_at alignment "lifecycle" ops view)
    && is_text "aligned" (field_at alignment "verdict" ops view)

unfoldable pub has_reviewed_aligned_alignment : String → List Op → ReadView → Bool
has_reviewed_aligned_alignment claim ops view =
    any (alignment_holds ops view) (edge_sources claim "ALIGNS_CLAIM" ops view)

-- A SetField that makes a claim lean-verified.
abbrev pub promotes : Op → Bool
promotes (set_field label n field value prior) =
    str_eq label "Claim" && (str_eq field "status" && is_text "lean-verified" value)
promotes (upsert_node label n fields) = false
promotes (add_edge rel src dst e fields) = false
promotes (remove_edge rel e) = false

abbrev pub target : Op → String
target (set_field label n field value prior) = n
target (upsert_node label n fields) = n
target (add_edge rel src dst e fields) = e
target (remove_edge rel e) = e

abbrev pub replay_of : List Op → ReadView → ℕ → Op → List Rejection
replay_of ops view index op =
    when (promotes op && not (has_verified_sorry_free_replay (target op) ops view))
      (at promotion_without_replay index)

unfoldable pub check_replay_evidence : Proposal → ReadView → List Rejection
unfolding scan has_verified_sorry_free_replay
check_replay_evidence p view = scan (replay_of p.ops view) 0 p.ops

abbrev pub alignment_of : List Op → ReadView → ℕ → Op → List Rejection
alignment_of ops view index op =
    when (promotes op && not (has_reviewed_aligned_alignment (target op) ops view))
      (at promotion_without_alignment index)

unfoldable pub check_alignment_gate : Proposal → ReadView → List Rejection
unfolding scan has_reviewed_aligned_alignment
check_alignment_gate p view = scan (alignment_of p.ops view) 0 p.ops

abbrev pub same_actor : Value → Value → Bool
same_actor a b = not (is_null a) && (not (is_null b) && value_eq a b)

abbrev pub certification_of : List Op → ReadView → ℕ → Op → List Rejection
certification_of ops view index (add_edge rel src dst e fields) =
    when
      (str_eq rel "REPLAYED_BY"
        && same_actor (field_at dst "actor" ops view) (field_at src "actor" ops view))
      (at self_certification index)
certification_of ops view index (upsert_node label n fields) = []
certification_of ops view index (set_field label n field value prior) = []
certification_of ops view index (remove_edge rel e) = []

unfoldable pub check_self_certification : Proposal → ReadView → List Rejection
unfolding scan
check_self_certification p view = scan (certification_of p.ops view) 0 p.ops
