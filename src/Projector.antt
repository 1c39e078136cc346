-- ===== src/Projector.antt =====
-- mork/projector/core.py. The journal holds the gate's own operations, so that the defaults for
-- missing keys are not met. An atom stands for the command that adds it.
pub mod Agrees
pub mod Refines
use Prim.Native.Char.{code}
use Prim.Native.String
use persistent_atp.Prelude.{
  ℕ, String, Bool, true, false, not, ◌&&◌, Option, none, some, is_none, List, [], ◌∷◌, ◌++◌, map,
  str_eq, leb, ◌==◌, if◌then◌else◌, lookup, insert, keep, any, flat_map,
}
use persistent_atp.Json.{Value, str}
use persistent_atp.Vocab.Labels.{contains}
use persistent_atp.Gate.Ops.{Op, Fields}
use persistent_atp.Gate.State.{EdgeRecord}

-- node_id.split("/"): what stands before the first slash, and what behind it.
abbrev pub before_slash : String → String
before_slash String.[] = ""
before_slash (String.◌∷◌ c s) = if code c == b'/' then "" else String.◌∷◌ c (before_slash s)

abbrev pub after_slash : String → Option String
after_slash String.[] = none
after_slash (String.◌∷◌ c s) = if code c == b'/' then some s else after_slash s

unfoldable pub extract_proof_id : String → String
extract_proof_id id = before_slash id

abbrev pub or_whole : String → Option String → String
or_whole id none = id
or_whole id (some s) = s

unfoldable pub extract_local_id : String → String
extract_local_id id = or_whole id (after_slash id)

pub record NodeData : Type 0 where
  pub label : String
  pub fields : Fields

pub record Projector : Type 0 where
  pub nodes : List (String × NodeData)
  pub edges : List EdgeRecord
  pub node_state_map : List (String × String)
  pub removed_edge_ids : List String

abbrev pub empty_projector : Projector
empty_projector = record { nodes = []; edges = []; node_state_map = []; removed_edge_ids = [] }

abbrev pub with_field : String → String → Value → Option NodeData → Projector → Projector
with_field node_id field value none p = p
with_field node_id field value (some d) p = record p {
  nodes = insert node_id (record d { fields = insert field value d.fields }) p.nodes;
}

unfoldable pub collect_operation : Projector → Op → Projector
collect_operation p (Op.upsert_node label node_id fields) = record p {
  nodes = insert node_id (record { label = label; fields = fields }) p.nodes;
}
collect_operation p (Op.set_field label node_id field value prior) =
    with_field node_id field value (lookup node_id p.nodes) p
collect_operation p (Op.add_edge rel src dst edge_id fields) = record p {
  edges =
      p.edges
      ++ record { edge_id = edge_id; rel_type = rel; src_id = src; dst_id = dst; fields = fields }
        ∷ [];
}
collect_operation p (Op.remove_edge rel edge_id) = record p {
  removed_edge_ids = edge_id ∷ p.removed_edge_ids;
}

unfoldable pub collect : Projector → List Op → Projector
unfolding collect_operation
collect p [] = p
collect p (op ∷ ops) = collect (collect_operation p op) ops

pub record Event : Type 0 where
  pub revision : ℕ
  pub ops : List Op

-- sorted(events, key=revision), which keeps the order of those with one revision
abbrev pub place_event : Event → List Event → List Event
place_event e [] = e ∷ []
place_event e (x ∷ xs) =
    let rest = place_event e xs in if leb e.revision x.revision then e ∷ x ∷ xs else x ∷ rest

unfoldable pub sorted_events : List Event → List Event
sorted_events [] = []
sorted_events (e ∷ es) = place_event e (sorted_events es)

abbrev pub journal_ops : List Event → List Op
journal_ops events = flat_map (λ (e : Event). e.ops) (sorted_events events)

-- The end of an edge that is a move or an attempt, and the state at the other.
abbrev pub infer : EdgeRecord → List (String × String) → List (String × String)
infer e states =
    if str_eq e.rel_type "PROPOSES"
    then insert e.dst_id (extract_local_id e.src_id) states
    else if str_eq e.rel_type "ON_STATE"
    then insert e.src_id (extract_local_id e.dst_id) states
    else states

abbrev pub infer_all : List EdgeRecord → List (String × String) → List (String × String)
infer_all [] states = states
infer_all (e ∷ es) states = infer_all es (infer e states)

unfoldable pub infer_state_references : Projector → Projector
unfolding extract_local_id
infer_state_references p = record p { node_state_map = infer_all p.edges p.node_state_map }

pub data Atom : Type 0 where
  node : String → String → String → Atom
  layer : String → String → Atom
  field : String → String → String → Value → Atom
  edge : String → String → String → String → String → Atom
  rev_edge : String → String → String → String → String → Atom
  efield : String → String → String → Value → Atom

abbrev pub state_atoms : String → String → Option String → List Atom
state_atoms pid id none = []
state_atoms pid id (some s) = field pid id "state_id" (str s) ∷ []

unfoldable pub node_to_atoms : Projector → String × NodeData → List Atom
unfolding extract_proof_id extract_local_id
node_to_atoms p (node_id, d) =
    let pid = extract_proof_id node_id in
    let id = extract_local_id node_id in
    node pid id d.label
    ∷ layer pid id
    ∷ (state_atoms pid id (lookup node_id p.node_state_map)
        ++ map (λ (f : String × Value). field pid id f.0 f.1) d.fields)

unfoldable pub edge_to_atoms : EdgeRecord → List Atom
unfolding extract_proof_id extract_local_id
edge_to_atoms e =
    let pid = extract_proof_id e.edge_id in
    let id = extract_local_id e.edge_id in
    let src = extract_local_id e.src_id in
    let dst = extract_local_id e.dst_id in
    edge pid id e.rel_type src dst
    ∷ rev_edge pid dst e.rel_type src id
    ∷ layer pid (String.◌++◌ "edge:" id)
    ∷ map (λ (f : String × Value). efield pid id f.0 f.1) e.fields

abbrev pub is_removed : Projector → EdgeRecord → Bool
is_removed p e = contains p.removed_edge_ids e.edge_id

-- The edges that are projected.
abbrev pub live_edges : Projector → List EdgeRecord
live_edges p = keep (λ e. not (is_removed p e)) p.edges

abbrev pub atoms_of : Projector → List Atom
atoms_of p = flat_map (node_to_atoms p) p.nodes ++ flat_map edge_to_atoms (live_edges p)

unfoldable pub process_event_journal : List Event → List Atom
unfolding collect sorted_events infer_state_references node_to_atoms edge_to_atoms
process_event_journal events =
    atoms_of (infer_state_references (collect empty_projector (journal_ops events)))
