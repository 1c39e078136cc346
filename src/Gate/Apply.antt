-- ===== src/Gate/Apply.antt =====
-- commit_gate/apply.py.
pub mod Integrity
pub mod Idempotence
use persistent_atp.Prelude.{String, Option, none, some, List, [], ◌∷◌, if◌then◌else◌, is_some}
use persistent_atp.Gate.Ops.{Op, ◌>>=◌}
use persistent_atp.Gate.State.{MemoryView, add_node, set_field, add_edge, remove_edge}

-- `none` is an exception: a SetField on an unknown node, or a fault of the view.
unfoldable pub apply_op : MemoryView → Op → Option MemoryView
unfolding add_node set_field add_edge remove_edge
apply_op m (Op.upsert_node label node_id fields) =
    if is_some (m.nodes node_id) then some m else some (add_node node_id label fields m)
apply_op m (Op.set_field label node_id field value prior) = set_field node_id field value m
apply_op m (Op.add_edge rel src dst edge_id fields) =
    if is_some (m.edges edge_id) then some m else some (add_edge rel src dst edge_id fields m)
apply_op m (Op.remove_edge rel edge_id) = remove_edge edge_id m

unfoldable pub apply_ops : MemoryView → List Op → Option MemoryView
unfolding apply_op
apply_ops m [] = some m
apply_ops m (op ∷ ops) = do m' ← apply_op m op; apply_ops m' ops
