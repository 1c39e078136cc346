-- ===== src/Gate/State.antt =====
-- commit_gate/state.py. The dicts of `MemoryView` are functions: the program only looks keys up in
-- them, and a key that is not there reads as `none`, in the default dicts as the empty list.
pub mod Remove
pub mod Index
pub mod Queries
use persistent_atp.Prelude.{
  String, Bool, Option, none, some, List, [], ◌∷◌, ◌++◌, ◌&&◌, str_eq, if◌then◌else◌, insert,
}
use persistent_atp.Json.{Value}
use persistent_atp.Gate.Ops.{Fields, ◌>>=◌}

pub record NodeRecord : Type 0 where
  pub node_id : String
  pub label : String
  pub fields : Fields

pub record EdgeRecord : Type 0 where
  pub edge_id : String
  pub rel_type : String
  pub src_id : String
  pub dst_id : String
  pub fields : Fields

-- The read contract: the four questions.
pub record ReadView : Type 0 where
  pub node : String → Option NodeRecord
  pub edge : String → Option EdgeRecord
  pub edges_from : String → String → List EdgeRecord
  pub edges_to : String → String → List EdgeRecord

pub record MemoryView : Type 0 where
  pub nodes : String → Option NodeRecord
  pub edges : String → Option EdgeRecord
  pub out : String → String → List String
  pub into : String → String → List String

abbrev pub empty_view : MemoryView
empty_view = record { nodes = λ _. none; edges = λ _. none; out = λ _ _. []; into = λ _ _. [] }

-- d[k] = v, and d.pop(k, None) at `none`
abbrev pub update {ℓ} : {A : Type ℓ} → (String → A) → String → A → String → A
update d k v j = if str_eq k j then v else d j

-- d[(k, r)] = v
abbrev pub update₂ {ℓ} :
    {A : Type ℓ} → (String → String → A) → String → String → A → String → String → A
update₂ d k r v j s = if str_eq k j && str_eq r s then v else d j s

-- l.remove(x): `none` is the ValueError.
unfoldable pub remove : String → List String → Option (List String)
remove x [] = none
remove x (y ∷ ys) =
    let rest = remove x ys in if str_eq y x then some ys else (do r ← rest; some (y ∷ r))

unfoldable pub add_node : String → String → Fields → MemoryView → MemoryView
add_node node_id label fields m = record m {
  nodes =
      update m.nodes node_id (some (record { node_id = node_id; label = label; fields = fields }));
}

-- `none` is the KeyError of an unknown node.
unfoldable pub set_field : String → String → Value → MemoryView → Option MemoryView
set_field node_id name value m = do
  current ← m.nodes node_id
  some (record m {
    nodes = update m.nodes node_id (
        some (record {
          node_id = node_id;
          label = current.label;
          fields = insert name value current.fields;
        }));
  })

unfoldable pub add_edge : String → String → String → String → Fields → MemoryView → MemoryView
add_edge rel src dst edge_id fields m = record m {
  edges = update m.edges edge_id (
      some (record {
        edge_id = edge_id;
        rel_type = rel;
        src_id = src;
        dst_id = dst;
        fields = fields;
      }));
  out = update₂ m.out src rel (m.out src rel ++ edge_id ∷ []);
  into = update₂ m.into dst rel (m.into dst rel ++ edge_id ∷ []);
}

abbrev drop_edge : EdgeRecord → String → MemoryView → Option MemoryView
drop_edge r edge_id m = do
  o ← remove edge_id (m.out r.src_id r.rel_type)
  i ← remove edge_id (m.into r.dst_id r.rel_type)
  some (record m {
    edges = update m.edges edge_id none;
    out = update₂ m.out r.src_id r.rel_type o;
    into = update₂ m.into r.dst_id r.rel_type i;
  })

abbrev remove_found : Option EdgeRecord → String → MemoryView → Option MemoryView
remove_found none edge_id m = some m
remove_found (some r) edge_id m = drop_edge r edge_id m

-- `none` is the ValueError of an index that does not list the edge.
unfoldable pub remove_edge : String → MemoryView → Option MemoryView
unfolding remove
remove_edge edge_id m = remove_found (m.edges edge_id) edge_id m

-- self.edges[e] for each listed e: `none` is the KeyError.
unfoldable pub records : (String → Option EdgeRecord) → List String → Option (List EdgeRecord)
records edges [] = some []
records edges (e ∷ es) = do r ← edges e; rs ← records edges es; some (r ∷ rs)

pub edges_from : MemoryView → String → String → Option (List EdgeRecord)
unfolding records
edges_from m node_id rel = records m.edges (m.out node_id rel)

pub edges_to : MemoryView → String → String → Option (List EdgeRecord)
unfolding records
edges_to m node_id rel = records m.edges (m.into node_id rel)
