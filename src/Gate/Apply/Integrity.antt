-- ===== src/Gate/Apply/Integrity.antt =====
-- Applying ops keeps the indexes of the view true, and fails on a missing node only.
use persistent_atp.Prelude.{
  String, none, some, List, [], ◌∷◌, ◌≡◌, sym, subst, ◌∙◌, inl, inr, ◌↔◌, str_eq, eq_iff, arith,
  Bool-cases, true, is_some, Option-cases, eq_of_some, if◌then◌else◌,
}
use persistent_atp.Json.{Value}
use persistent_atp.Gate.Ops.{Op, Fields}
use persistent_atp.Gate.State.{
  MemoryView, EdgeRecord, update, update₂, remove_edge, add_edge, set_field, empty_view,
}
use persistent_atp.Gate.State.Remove.{remove-Removes, remove_edge-edges}
use persistent_atp.Gate.State.Index.{IsIndexed, Indexes-insert, Indexes-remove}
use persistent_atp.Gate.Apply.{apply_op, apply_ops}

pub empty-IsIndexed : IsIndexed empty_view
empty-IsIndexed = record {
  keyed = λ e r p. cc;
  out = record { sound = λ n rel e m. absurd m; complete = λ e r p. cc; distinct = λ n rel. tt };
  into = record { sound = λ n rel e m. absurd m; complete = λ e r p. cc; distinct = λ n rel. tt };
}

add_edge-IsIndexed :
    (rel src dst e : String) (fields : Fields) (m : MemoryView)
    → m.edges e ≡ none
    → IsIndexed m
    → IsIndexed (add_edge rel src dst e fields m)
unfolding add_edge
add_edge-IsIndexed rel src dst e fields m new ix = record {
  keyed = λ e' r p. elim (Bool-cases (str_eq e e')) [
    | inl q ↦ ground (arith, q, eq_iff e e')
    | inr q ↦ ix.keyed e' r (ground (arith, q))
  ];
  out = Indexes-insert (λ r. r.src_id) m.edges m.out ix.out e made new;
  into = Indexes-insert (λ r. r.dst_id) m.edges m.into ix.into e made new;
}
  where
    made : EdgeRecord
    made = record { edge_id = e; rel_type = rel; src_id = src; dst_id = dst; fields = fields }

remove_edge-missing : (e : String) (m : MemoryView) → m.edges e ≡ none → remove_edge e m ≡ some m
unfolding remove_edge
remove_edge-missing e m h = rw h

-- Removing a known edge succeeds.
remove_edge-found :
    (e : String) (r : EdgeRecord) (m : MemoryView)
    → m.edges e ≡ some r
    → IsIndexed m
    → (m' : MemoryView) × (remove_edge e m ≡ some m') × IsIndexed m'
unfolding remove_edge
remove_edge-found e r m there ix =
    let (o, p, ro) =
      remove-Removes e (m.out r.src_id r.rel_type) (ix.out.complete e r there)
        (ix.out.distinct r.src_id r.rel_type) in
    let (i, q, ri) =
      remove-Removes e (m.into r.dst_id r.rel_type) (ix.into.complete e r there)
        (ix.into.distinct r.dst_id r.rel_type) in
    (
      record m {
        edges = update m.edges e none;
        out = update₂ m.out r.src_id r.rel_type o;
        into = update₂ m.into r.dst_id r.rel_type i;
      },
      rw (there, p, q),
      record {
        keyed = λ e' r' h. ix.keyed e' r' (ground (arith, h));
        out = Indexes-remove (λ x. x.src_id) m.edges m.out ix.out e r o ro there;
        into = Indexes-remove (λ x. x.dst_id) m.edges m.into ix.into e r i ri there;
      },
    )

-- What an op needs of the view: a SetField, that its node is there; the others nothing.
abbrev pub Targets : MemoryView → Op → Type 0
Targets m (Op.set_field label n f v prior) = is_some (m.nodes n) ≡ true
Targets m (Op.upsert_node label n fields) = Unit
Targets m (Op.add_edge rel src dst e fields) = Unit
Targets m (Op.remove_edge rel e) = Unit

upsert-IsIndexed :
    (m : MemoryView) (label n : String) (fields : Fields) (m' : MemoryView)
    → IsIndexed m
    → apply_op m (Op.upsert_node label n fields) ≡ some m'
    → IsIndexed m'
unfolding apply_op
upsert-IsIndexed m label n fields m' ix h = elim (Bool-cases (is_some (m.nodes n))) [
  | inl e ↦ subst IsIndexed (eq_of_some (rw e at h)) ix
  | inr e ↦
      subst IsIndexed (eq_of_some (rw e at h))
        (record { keyed = ix.keyed; out = ix.out; into = ix.into })
]

set_field-IsIndexed :
    (n f : String) (v : Value) (m m' : MemoryView)
    → IsIndexed m
    → set_field n f v m ≡ some m'
    → IsIndexed m'
unfolding set_field
set_field-IsIndexed n f v m m' ix h = elim (Option-cases (m.nodes n)) [
  | inl e ↦ absurd (ground (arith, e))
  | inr (c, e) ↦
      let h' : set_field n f v m ≡ some m' = h in
      subst IsIndexed (eq_of_some (rw (e, set_field) at h'))
        (record { keyed = ix.keyed; out = ix.out; into = ix.into })
]

add-IsIndexed :
    (rel src dst e : String) (fields : Fields) (m m' : MemoryView)
    → IsIndexed m
    → apply_op m (Op.add_edge rel src dst e fields) ≡ some m'
    → IsIndexed m'
unfolding apply_op
add-IsIndexed rel src dst e fields m m' ix h = elim (Option-cases (m.edges e)) [
  | inl q ↦
      subst IsIndexed (eq_of_some (rw q at h)) (add_edge-IsIndexed rel src dst e fields m q ix)
  | inr (r, q) ↦ subst IsIndexed (eq_of_some (rw q at h)) ix
]

remove-IsIndexed :
    (e : String) (m m' : MemoryView) → IsIndexed m → remove_edge e m ≡ some m' → IsIndexed m'
remove-IsIndexed e m m' ix h = elim (Option-cases (m.edges e)) [
  | inl q ↦ subst IsIndexed (eq_of_some (sym (remove_edge-missing e m q) ∙ h)) ix
  | inr (r, q) ↦
      let (m'', p, ix') = remove_edge-found e r m q ix in
      subst IsIndexed (eq_of_some (sym p ∙ h)) ix'
]

-- An applied op keeps the indexes true.
pub apply_op-IsIndexed :
    (m m' : MemoryView) (op : Op) → IsIndexed m → apply_op m op ≡ some m' → IsIndexed m'
unfolding apply_op
apply_op-IsIndexed m m' (Op.upsert_node label n fields) ix h =
    upsert-IsIndexed m label n fields m' ix h
apply_op-IsIndexed m m' (Op.set_field label n f v prior) ix h = set_field-IsIndexed n f v m m' ix h
apply_op-IsIndexed m m' (Op.add_edge rel src dst e fields) ix h =
    add-IsIndexed rel src dst e fields m m' ix h
apply_op-IsIndexed m m' (Op.remove_edge rel e) ix h = remove-IsIndexed e m m' ix h

applied : (m : MemoryView) (op : Op) → IsIndexed m → (is_some (apply_op m op) ≡ true) ↔ Targets m op
unfolding apply_op
applied m (Op.upsert_node label n fields) ix = (λ _. tt, λ _. ground arith)
applied m (Op.set_field label n f v prior) ix = (λ h. ground arith, λ h. ground arith)
applied m (Op.add_edge rel src dst e fields) ix = (λ _. tt, λ _. ground arith)
applied m (Op.remove_edge rel e) ix = (
  λ _. tt,
  λ _. elim (Option-cases (m.edges e)) [
    | inl q ↦ rw (remove_edge-missing e m q)
    | inr (r, q) ↦ rw (remove_edge-found e r m q ix).1
  ],
)

-- Whatever a removal finds, its edge is gone after it, the other edges and the nodes are as they were.
abbrev pub Removed : MemoryView → String → String → Type 0
Removed m rel e =
    (m' : MemoryView) × (apply_op m (Op.remove_edge rel e) ≡ some m')
    × (m'.nodes ≡ m.nodes)
    × ((x : String) → m'.edges x ≡ (if str_eq e x then none else m.edges x))

-- From a view with true indexes an op fails exactly when it is a SetField of a node that is not
-- there. A RemoveEdge never fails: the edge is gone after it, whether it was there or not, and the
-- other edges and the nodes are as they were.
pub apply_op-total :
    (m : MemoryView)
    → IsIndexed m
    → ((op : Op) → (is_some (apply_op m op) ≡ true) ↔ Targets m op)
      × ((rel e : String) → Removed m rel e)
unfolding apply_op
apply_op-total m ix = (
  λ op. applied m op ix,
  λ rel e. elim (Option-cases (remove_edge e m)) [
    | inl q ↦
        let there = (applied m (Op.remove_edge rel e) ix).1 tt in absurd (ground (arith, q, there))
    | inr (m', q) ↦ let (nodes, edges) = remove_edge-edges e m m' q in (m', q, nodes, edges)
  ],
)

-- Replaying ops keeps the indexes true.
pub apply_ops-IsIndexed :
    (ops : List Op) (m m' : MemoryView) → IsIndexed m → apply_ops m ops ≡ some m' → IsIndexed m'
unfolding apply_ops
apply_ops-IsIndexed [] m m' ix h = subst IsIndexed (eq_of_some h) ix
apply_ops-IsIndexed (op ∷ ops) m m' ix h = elim (Option-cases (apply_op m op)) [
  | inl e ↦ absurd (ground (arith, e))
  | inr (m₁, e) ↦ apply_ops-IsIndexed ops m₁ m' (apply_op-IsIndexed m m₁ op ix e) (rw e at h)
]
