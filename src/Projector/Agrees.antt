-- ===== src/Projector/Agrees.antt =====
-- The projector and a view that agree, and each operation that keeps them so.
use persistent_atp.Prelude.{
  String, Bool, true, false, not, ◌&&◌, Option, none, some, is_none, List, [], ◌∷◌, ◌++◌, str_eq,
  eq_iff, lookup, insert, lookup-insert, any, In-any, ◌≡◌, refl, sym, ap, subst, ◌∙◌, inl, inr, ◌↔◌,
  arith, Bool-cases, Option-cases, and_true, In, In-append, In-append_left, In-append_right,
  eq_of_some,
}
use persistent_atp.Json.{Value}
use persistent_atp.Vocab.Labels.{contains}
use persistent_atp.Gate.Ops.{Op, Fields}
use persistent_atp.Gate.State.{
  MemoryView, NodeRecord, EdgeRecord, empty_view, update, add_node, set_field, add_edge,
}
use persistent_atp.Gate.State.Remove.{remove_edge-edges}
use persistent_atp.Gate.Apply.{apply_op}
use persistent_atp.Projector.{NodeData, Projector, empty_projector, with_field, collect_operation}

abbrev pub as_record : String → Option NodeData → Option NodeRecord
as_record id none = none
as_record id (some d) = some (record { node_id = id; label = d.label; fields = d.fields })

-- The op adds nothing under an id that was used before.
abbrev pub is_fresh_op : Projector → Op → Bool
is_fresh_op p (Op.upsert_node label node_id fields) = is_none (lookup node_id p.nodes)
is_fresh_op p (Op.set_field label node_id field value prior) = true
is_fresh_op p (Op.add_edge rel src dst edge_id fields) =
    not (any (λ (e : EdgeRecord). str_eq e.edge_id edge_id) p.edges)
    && not (contains p.removed_edge_ids edge_id)
is_fresh_op p (Op.remove_edge rel edge_id) = true

unfoldable pub is_fresh : Projector → List Op → Bool
unfolding collect_operation
is_fresh p [] = true
is_fresh p (op ∷ ops) = is_fresh_op p op && is_fresh (collect_operation p op) ops

-- The nodes are those of the view, and the edges that are not removed are those of the view.
pub record Agrees (p : Projector) (m : MemoryView) : Type 0 where
  pub nodes : (id : String) → as_record id (lookup id p.nodes) ≡ m.nodes id
  pub edges :
      (e : String) (r : EdgeRecord)
      → (m.edges e ≡ some r)
        ↔ (In r p.edges × (contains p.removed_edge_ids e ≡ false) × (r.edge_id ≡ e))

pub empty-Agrees : Agrees empty_projector empty_view
unfolding lookup
empty-Agrees = record {
  nodes = λ id. refl;
  edges = λ e r. (λ h. absurd (cc), λ (m, h, k). absurd m);
}

-- A new entry under a key, in the dict and in the view.
entry-Agrees :
    (id j : String) (d : NodeData) (nodes : List (String × NodeData))
    (view : String → Option NodeRecord)
    → as_record j (lookup j nodes) ≡ view j
    → as_record j (lookup j (insert id d nodes)) ≡ update view id (as_record id (some d)) j
entry-Agrees id j d nodes view h = elim (Bool-cases (str_eq id j)) [
  | inl q ↦
      let same : id ≡ j = (eq_iff id j).0 q in
      ap (as_record j) (lookup-insert id j d nodes)
      ∙ rw (update, q) (ap (λ k. as_record k (some d)) (sym same))
  | inr q ↦ ap (as_record j) (lookup-insert id j d nodes) ∙ rw (update, q) h
]

as_record-some :
    (id : String) (o : Option NodeData) (r : NodeRecord)
    → as_record id o ≡ some r
    → (d : NodeData) × (o ≡ some d)
      × (r ≡ record { node_id = id; label = d.label; fields = d.fields })
as_record-some id none r h = absurd (cc)
as_record-some id (some d) r h = (d, refl, sym (eq_of_some h))

abbrev put : String → NodeRecord → MemoryView → MemoryView
put id r m = record m {
  nodes = update m.nodes id (some (record { node_id = id; label = r.label; fields = r.fields }));
}

module _ (p : Projector) (m m' : MemoryView) (a : Agrees p m) where
  pub upsert-Agrees :
      (label id : String) (fields : Fields) (prior : lookup id p.nodes ≡ none)
      → apply_op m (Op.upsert_node label id fields) ≡ some m'
      → Agrees (collect_operation p (Op.upsert_node label id fields)) m'
  unfolding apply_op collect_operation add_node
  upsert-Agrees label id fields prior h =
      let absent : m.nodes id ≡ none = sym (a.nodes id) ∙ ap (as_record id) prior in
      let made : add_node id label fields m ≡ m' = eq_of_some (rw absent at h) in
      subst (Agrees (collect_operation p (Op.upsert_node label id fields))) made (record {
        nodes = λ j.
            entry-Agrees id j (record { label = label; fields = fields }) p.nodes m.nodes
              (a.nodes j);
        edges = a.edges;
      })

  pub set_field-Agrees :
      (label id field : String) (value : Value) (prior : Option Value)
      → apply_op m (Op.set_field label id field value prior) ≡ some m'
      → Agrees (collect_operation p (Op.set_field label id field value prior)) m'
  unfolding apply_op collect_operation set_field
  set_field-Agrees label id field value prior h = elim (Option-cases (m.nodes id)) [
    | inl q ↦ absurd (ground (arith, q))
    | inr (r, q) ↦
        let (d, here, same) = as_record-some id (lookup id p.nodes) r (a.nodes id ∙ q) in
        let d' : NodeData = record d { fields = insert field value d.fields } in
        let made : put id (record r { fields = insert field value r.fields }) m ≡ m' =
          eq_of_some (rw q at h) in
        subst (λ z. Agrees z m') (ap (λ o. with_field id field value o p) (sym here))
          (subst (Agrees (with_field id field value (some d) p))
            (ap (λ (z : NodeRecord). put id (record z { fields = insert field value z.fields }) m)
                (sym same)
              ∙ made)
            (record {
              nodes = λ j. entry-Agrees id j d' p.nodes m.nodes (a.nodes j);
              edges = a.edges;
            }))
  ]

  added :
      (new : EdgeRecord) (x : String) (r : EdgeRecord)
      → (new.edge_id ≡ x → In r p.edges → r.edge_id ≡ x → ⊥)
      → contains p.removed_edge_ids new.edge_id ≡ false
      → (update m.edges new.edge_id (some new) x ≡ some r)
        ↔ (In r (p.edges ++ new ∷ []) × (contains p.removed_edge_ids x ≡ false) × (r.edge_id ≡ x))
  added new x r clash n = elim (Bool-cases (str_eq new.edge_id x)) [
    | inl t ↦
        let same : new.edge_id ≡ x = (eq_iff new.edge_id x).0 t in
        (
          λ q.
              let here : new ≡ r = eq_of_some (rw (update, t) at q) in
              (
                In-append_right r p.edges (new ∷ []) (inl here),
                subst (λ z. contains p.removed_edge_ids z ≡ false) same n,
                ap (λ (z : EdgeRecord). z.edge_id) (sym here) ∙ same,
              ),
          λ (i, f, k). elim (In-append r p.edges (new ∷ []) i) [
            | inl l ↦ absurd (clash same l k)
            | inr l ↦ rw (update, t) (ap some (only new r l))
          ],
        )
    | inr t ↦ (
      λ q.
          let (i, f, k) = (a.edges x r).0 (rw (update, t) at q) in
          (In-append_left r p.edges (new ∷ []) i, f, k),
      λ (i, f, k). elim (In-append r p.edges (new ∷ []) i) [
        | inl l ↦ rw (update, t) ((a.edges x r).1 (l, f, k))
        | inr l ↦
            let same : new.edge_id ≡ x = ap (λ (z : EdgeRecord). z.edge_id) (only new r l) ∙ k in
            absurd (ground (arith, t, (eq_iff new.edge_id x).1 same))
      ],
    )
  ]
    where
      only : (y z : EdgeRecord) → In z (y ∷ []) → y ≡ z
      only y z (inl e) = e
      only y z (inr e) = absurd e

  pub add_edge-Agrees :
      (rel src dst e : String) (fields : Fields)
      → is_fresh_op p (Op.add_edge rel src dst e fields) ≡ true
      → apply_op m (Op.add_edge rel src dst e fields) ≡ some m'
      → Agrees (collect_operation p (Op.add_edge rel src dst e fields)) m'
  unfolding apply_op collect_operation add_edge
  add_edge-Agrees rel src dst e fields fresh h =
      let (unlisted, unremoved) =
        and_true (not (any (λ (r : EdgeRecord). str_eq r.edge_id e) p.edges)) _ fresh in
      elim (Option-cases (m.edges e)) [
        | inr (r, q) ↦ let (i, n, k) = (a.edges e r).0 q in absurd (listed r unlisted i k)
        | inl q ↦
            subst (Agrees (collect_operation p (Op.add_edge rel src dst e fields)))
              (eq_of_some (rw q at h))
              (record {
                nodes = a.nodes;
                edges = λ x r.
                    added
                      (record {
                        edge_id = e;
                        rel_type = rel;
                        src_id = src;
                        dst_id = dst;
                        fields = fields;
                      })
                      x r (λ t i k. listed r unlisted i (k ∙ sym t))
                      (not_false (contains p.removed_edge_ids e) unremoved);
              })
      ]
    where
      not_false : (b : Bool) → not b ≡ true → b ≡ false
      not_false b h = ground (arith, h)

      listed :
          (r : EdgeRecord)
          → not (any (λ (x : EdgeRecord). str_eq x.edge_id e) p.edges) ≡ true
          → In r p.edges
          → r.edge_id ≡ e
          → ⊥
      listed r un i k =
          let there =
            In-any (λ (x : EdgeRecord). str_eq x.edge_id e) r p.edges i
              ((eq_iff r.edge_id e).1 k) in
          absurd (ground (arith, there, un))

  pub remove_edge-Agrees :
      (rel e : String)
      → apply_op m (Op.remove_edge rel e) ≡ some m'
      → Agrees (collect_operation p (Op.remove_edge rel e)) m'
  unfolding apply_op collect_operation
  remove_edge-Agrees rel e h =
      let (nodes, edges) = remove_edge-edges e m m' h in
      record {
        nodes = λ id. a.nodes id ∙ ap (λ f. f id) (sym nodes);
        edges = λ x r. elim (Bool-cases (str_eq e x)) [
          | inl t ↦ (
            λ q.
                let gone : m'.edges x ≡ none = edges x ∙ rw t refl in
                absurd (ground (arith, gone, q)),
            λ (i, n, k). absurd (ground (arith, t, n)),
          )
          | inr t ↦
              let kept : m'.edges x ≡ m.edges x = edges x ∙ rw t refl in
              (
                λ q. let (i, n, k) = (a.edges x r).0 (sym kept ∙ q) in (i, ground (arith, t, n), k),
                λ (i, n, k). kept ∙ (a.edges x r).1 (i, ground (arith, t, n), k),
              )
        ];
      }
