-- ===== src/Projector/Refines.antt =====
-- The projector's collection against the committed state that the gate's operations make.
use persistent_atp.Prelude.{
  String, true, not, Option, none, some, is_none, List, [], ◌∷◌, lookup, keep-In, In-keep, ◌≡◌,
  refl, subst, inl, inr, ◌↔◌, arith, Option-cases, and_true, In, eq_of_some,
}
use persistent_atp.Gate.Ops.{Op}
use persistent_atp.Gate.State.{MemoryView, EdgeRecord, empty_view}
use persistent_atp.Gate.Apply.{apply_op, apply_ops}
use persistent_atp.Projector.{
  NodeData, Projector, empty_projector, collect_operation, collect, is_removed, live_edges,
}
use persistent_atp.Projector.Agrees.{
  as_record, is_fresh_op, is_fresh, Agrees, empty-Agrees, upsert-Agrees, set_field-Agrees,
  add_edge-Agrees, remove_edge-Agrees,
}

collect_operation-Agrees :
    (p : Projector) (m m' : MemoryView) (op : Op)
    → Agrees p m
    → is_fresh_op p op ≡ true
    → apply_op m op ≡ some m'
    → Agrees (collect_operation p op) m'
collect_operation-Agrees p m m' (Op.upsert_node label id fields) a fresh h =
    upsert-Agrees p m m' a label id fields (is_none-none (lookup id p.nodes) fresh) h
  where
    is_none-none : (o : Option NodeData) → is_none o ≡ true → o ≡ none
    is_none-none none q = refl
    is_none-none (some d) q = absurd (cc)
collect_operation-Agrees p m m' (Op.set_field label id field value prior) a fresh h =
    set_field-Agrees p m m' a label id field value prior h
collect_operation-Agrees p m m' (Op.add_edge rel src dst e fields) a fresh h =
    add_edge-Agrees p m m' a rel src dst e fields fresh h
collect_operation-Agrees p m m' (Op.remove_edge rel e) a fresh h =
    remove_edge-Agrees p m m' a rel e h

collect-Agrees :
    (p : Projector) (m m' : MemoryView) (ops : List Op)
    → Agrees p m
    → is_fresh p ops ≡ true
    → apply_ops m ops ≡ some m'
    → Agrees (collect p ops) m'
unfolding collect is_fresh apply_ops
collect-Agrees p m m' [] a fresh h = subst (Agrees p) (eq_of_some h) a
collect-Agrees p m m' (op ∷ ops) a fresh h =
    let (one, rest) = and_true (is_fresh_op p op) _ fresh in
    elim (Option-cases (apply_op m op)) [
      | inl q ↦ absurd (ground (arith, q))
      | inr (n, q) ↦
          collect-Agrees (collect_operation p op) n m' ops
            (collect_operation-Agrees p m n op a one q) rest (rw q at h)
    ]

-- From a journal whose operations the gate applies, and of which none creates a node or adds an edge
-- under an id that was used before, the projector collects the nodes of the committed state, with
-- its labels and fields, and what it projects of the edges are the edges of the committed state.
pub collect-refines :
    (ops : List Op) (m : MemoryView)
    → is_fresh empty_projector ops ≡ true
    → apply_ops empty_view ops ≡ some m
    → ((id : String) → as_record id (lookup id (collect empty_projector ops).nodes) ≡ m.nodes id)
      × ((r : EdgeRecord)
          → In r (live_edges (collect empty_projector ops)) ↔ (m.edges r.edge_id ≡ some r))
collect-refines ops m fresh h = (
  fine.nodes,
  λ r. (
    λ i.
        let (j, live) = keep-In (λ e. not (is_removed final e)) r final.edges i in
        (fine.edges r.edge_id r).1 (j, ground (arith, live), refl),
    λ q.
        let (j, live, k) = (fine.edges r.edge_id r).0 q in
        In-keep (λ e. not (is_removed final e)) r final.edges j (ground (arith, live)),
  ),
)
  where
    final : Projector
    final = collect empty_projector ops

    fine : Agrees final m
    fine = collect-Agrees empty_projector empty_view m ops empty-Agrees fresh h
