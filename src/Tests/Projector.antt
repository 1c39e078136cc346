-- ===== src/Tests/Projector.antt =====
-- Journals that are projected.
use persistent_atp.Prelude.{
  String, Option, none, some, List, [], ◌∷◌, ◌≡◌, refl, ◌↔◌, In, lookup, insert,
}
use persistent_atp.Json.{str}
use persistent_atp.Gate.Ops.{Op, upsert_node, set_field, add_edge, remove_edge}
use persistent_atp.Gate.State.{MemoryView, EdgeRecord, empty_view, remove}
use persistent_atp.Gate.State
use persistent_atp.Gate.Apply.{apply_ops, apply_op}
use persistent_atp.Projector.{
  Event, Atom, empty_projector, collect, collect_operation, live_edges, process_event_journal,
  sorted_events, infer_state_references, node_to_atoms, edge_to_atoms, extract_proof_id,
  extract_local_id,
}
use persistent_atp.Projector.Agrees.{as_record, is_fresh}
use persistent_atp.Projector.Refines.{collect-refines}

abbrev ops : List Op
ops =
    upsert_node "ResearchState" "p/rs-1" (("status", str "open") ∷ [])
    ∷ upsert_node "ResearchMove" "p/rm-1" []
    ∷ add_edge "PROPOSES" "p/rs-1" "p/rm-1" "p/e-1" []
    ∷ add_edge "REQUIRES" "p/rm-1" "p/rs-1" "p/e-2" []
    ∷ set_field "ResearchMove" "p/rm-1" "status" (str "queued") none
    ∷ remove_edge "REQUIRES" "p/e-2"
    ∷ []

abbrev view_of : Option MemoryView → MemoryView
view_of none = empty_view
view_of (some m) = m

abbrev committed : MemoryView
committed = view_of (apply_ops empty_view ops)

ops_apply : apply_ops empty_view ops ≡ some committed
unfolding apply_ops apply_op State.remove_edge State.add_edge State.set_field State.add_node remove
    insert
ops_apply = refl

collect-refines_example :
    ((id : String)
      → as_record id (lookup id (collect empty_projector ops).nodes) ≡ committed.nodes id)
    × ((r : EdgeRecord)
        → In r (live_edges (collect empty_projector ops)) ↔ (committed.edges r.edge_id ≡ some r))
unfolding is_fresh collect_operation lookup insert
collect-refines_example = collect-refines ops committed refl ops_apply

-- The events are taken by revision. The move's state comes from an edge that is removed.
abbrev journal : List Event
journal =
    record { revision = 2; ops = remove_edge "PROPOSES" "p/e-1" ∷ [] }
    ∷ record {
      revision = 1;
      ops =
          upsert_node "ResearchMove" "p/rm-1" []
          ∷ add_edge "PROPOSES" "p/rs-1" "p/rm-1" "p/e-1" []
          ∷ [];
    }
    ∷ []

retracted_state :
    process_event_journal journal
    ≡ Atom.node "p" "rm-1" "ResearchMove"
      ∷ Atom.layer "p" "rm-1"
      ∷ Atom.field "p" "rm-1" "state_id" (str "rs-1")
      ∷ []
unfolding process_event_journal sorted_events collect collect_operation infer_state_references
    node_to_atoms edge_to_atoms extract_proof_id extract_local_id lookup insert
retracted_state = refl

-- An edge that is removed and added again is an edge of the committed state, and not projected.
abbrev readded : List Op
readded =
    add_edge "REQUIRES" "p/rm-1" "p/rs-1" "p/e-2" []
    ∷ remove_edge "REQUIRES" "p/e-2"
    ∷ add_edge "REQUIRES" "p/rm-1" "p/rs-1" "p/e-2" []
    ∷ []

edge_lost : live_edges (collect empty_projector readded) ≡ []
unfolding collect collect_operation
edge_lost = refl

edge_kept :
    (view_of (apply_ops empty_view readded)).edges "p/e-2"
    ≡ some (record {
      edge_id = "p/e-2";
      rel_type = "REQUIRES";
      src_id = "p/rm-1";
      dst_id = "p/rs-1";
      fields = [];
    })
unfolding apply_ops apply_op State.remove_edge State.add_edge remove
edge_kept = refl

-- A second creation of a node replaces the first in the projection, and changes no committed state.
abbrev recreated : List Op
recreated =
    upsert_node "Claim" "p/c-1" (("status", str "refuted") ∷ [])
    ∷ upsert_node "Claim" "p/c-1" (("status", str "conjectural") ∷ [])
    ∷ []

later_projected :
    lookup "p/c-1" (collect empty_projector recreated).nodes
    ≡ some (record { label = "Claim"; fields = ("status", str "conjectural") ∷ [] })
unfolding lookup collect collect_operation insert
later_projected = refl

earlier_committed :
    (view_of (apply_ops empty_view recreated)).nodes "p/c-1"
    ≡ some (record { node_id = "p/c-1"; label = "Claim"; fields = ("status", str "refuted") ∷ [] })
unfolding apply_ops apply_op State.add_node
earlier_committed = refl
