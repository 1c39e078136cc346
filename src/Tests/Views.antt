-- ===== src/Tests/Views.antt =====
-- Committed state, and a proposal that makes a claim lean-verified.
use persistent_atp.Prelude.{
  String, ◌≡◌, refl, none, some, List, [], ◌∷◌, lookup, true, false, is_some, ◌↔◌, In, str_eq,
  if◌then◌else◌,
}
use persistent_atp.Json.{str, bool}
use persistent_atp.Gate.Ops.{Op, Fields, upsert_node, set_field, add_edge}
use persistent_atp.Gate.Proposal.{Proposal}
use persistent_atp.Gate.State.{
  ReadView, MemoryView, NodeRecord, EdgeRecord, empty_view, edges_from, edges_to,
}
use persistent_atp.Gate.State.Queries.{edges_from-edges_to}
use persistent_atp.Gate.State.Index.{IsIndexed}
use persistent_atp.Gate.Apply.{apply_op, apply_ops}
use persistent_atp.Gate.Apply.Integrity.{
  apply_op-total, apply_ops-IsIndexed, empty-IsIndexed, Targets, Removed,
}
use persistent_atp.Gate.Apply.Idempotence.{apply_op_twice}

abbrev entity : String → String → Fields → String × NodeRecord
entity n label fields = (n, record { node_id = n; label = label; fields = fields })

abbrev claim : NodeRecord
claim = record { node_id = "p/c"; label = "Claim"; fields = ("status", str "formally-closed") ∷ [] }

abbrev entities : List (String × NodeRecord)
entities =
    ("p/c", claim)
    ∷ entity "p/cert" "Certificate" (("actor", str "prover") ∷ [])
    ∷ entity "p/rep" "LeanReplay" (
        ("actor", str "checker") ∷ ("status", str "verified") ∷ ("sorry_detected", bool false) ∷ [])
    ∷ entity "p/al" "Alignment" (("lifecycle", str "reviewed") ∷ ("verdict", str "aligned") ∷ [])
    ∷ []

abbrev link : String → String → String → EdgeRecord
link rel src dst = record {
  edge_id = "p/e";
  rel_type = rel;
  src_id = src;
  dst_id = dst;
  fields = [];
}

abbrev out_of : String → String → List EdgeRecord
out_of n rel =
    if str_eq n "p/c"
    then (if str_eq rel "PROVED_BY" then link rel n "p/cert" ∷ [] else [])
    else if str_eq n "p/cert"
    then (if str_eq rel "REPLAYED_BY" then link rel n "p/rep" ∷ [] else [])
    else []

abbrev into_of : String → String → List EdgeRecord
into_of n rel =
    if str_eq n "p/c"
    then (if str_eq rel "ALIGNS_CLAIM" then link rel "p/al" n ∷ [] else [])
    else []

abbrev proved : ReadView
proved = record {
  node = λ n. lookup n entities;
  edge = λ e. none;
  edges_from = out_of;
  edges_to = into_of;
}

abbrev promotion : Op
promotion = set_field "Claim" "p/c" "status" (str "lean-verified") (some (str "formally-closed"))

abbrev promoting : Proposal
promoting = record {
  proof_id = "p";
  actor = "gatekeeper";
  worker_class = "verifier";
  ops = promotion ∷ [];
  base_revision = some 4;
  lease_id = some "l1";
  fencing_token = some 1;
}

abbrev creation : List Op
creation =
    upsert_node "Claim" "p/c" (("status", str "conjectural") ∷ [])
    ∷ set_field "Claim" "p/c" "status" (str "empirical") none
    ∷ add_edge "DEPENDS_ON" "p/c" "p/c" "p/e" []
    ∷ []

abbrev created : MemoryView
created = record {
  nodes = λ n.
      if str_eq "p/c" n
      then some
          (record { node_id = "p/c"; label = "Claim"; fields = ("status", str "conjectural") ∷ [] })
      else none;
  edges = λ e. none;
  out = λ n rel. [];
  into = λ n rel. [];
}

creates :
    apply_ops empty_view (upsert_node "Claim" "p/c" (("status", str "conjectural") ∷ []) ∷ [])
    ≡ some created
unfolding apply_ops apply_op
creates = refl

apply_ops-IsIndexed_example : IsIndexed created
apply_ops-IsIndexed_example =
    apply_ops-IsIndexed (upsert_node "Claim" "p/c" (("status", str "conjectural") ∷ []) ∷ [])
      empty_view created empty-IsIndexed creates

apply_op-total_example :
    ((op : Op) → (is_some (apply_op empty_view op) ≡ true) ↔ Targets empty_view op)
    × ((rel e : String) → Removed empty_view rel e)
apply_op-total_example = apply_op-total empty_view empty-IsIndexed

creates_op :
    apply_op empty_view (upsert_node "Claim" "p/c" (("status", str "conjectural") ∷ []))
    ≡ some created
unfolding apply_op
creates_op = refl

apply_op_twice_example :
    apply_op created (upsert_node "Claim" "p/c" (("status", str "conjectural") ∷ [])) ≡ some created
apply_op_twice_example =
    apply_op_twice empty_view created
      (upsert_node "Claim" "p/c" (("status", str "conjectural") ∷ [])) creates_op

edges_from-edges_to_example :
    ((rs : List EdgeRecord) × (edges_from empty_view "p/c" "DEPENDS_ON" ≡ some rs)
      × ((r : EdgeRecord)
          → In r rs ↔ (
              (e : String) × (empty_view.edges e ≡ some r)
              × (r.src_id ≡ "p/c")
              × (r.rel_type ≡ "DEPENDS_ON"))))
    × ((rs : List EdgeRecord) × (edges_to empty_view "p/c" "DEPENDS_ON" ≡ some rs)
        × ((r : EdgeRecord)
            → In r rs ↔ (
                (e : String) × (empty_view.edges e ≡ some r)
                × (r.dst_id ≡ "p/c")
                × (r.rel_type ≡ "DEPENDS_ON"))))
edges_from-edges_to_example = edges_from-edges_to empty_view "p/c" "DEPENDS_ON" empty-IsIndexed
