-- ===== src/Gate/Soundness/Created.antt =====
-- commit_gate/validate.py and apply.py: the tactic that a clean proposal leaves in committed state.
use persistent_atp.Prelude.{
  ℕ, zero, suc, String, Option, none, some, List, [], ◌∷◌, ◌≡◌, ◌≢◌, refl, sym, ◌∙◌, ap, subst,
  arith, true, false, get_elem?, lookup, is_some, str_eq, eq_iff, eq_refl, eq_of_some, Bool-cases,
  Option-cases, inl, inr,
}
use persistent_atp.Json.{Value, str, int, or_null, value_eq}
use persistent_atp.Gate.Ops.{Op, Fields}
use persistent_atp.Gate.Proposal.{Proposal}
use persistent_atp.Gate.State.{ReadView, MemoryView, NodeRecord, add_node, set_field, add_edge}
use persistent_atp.Gate.State.Remove.{remove_edge-edges}
use persistent_atp.Gate.Apply.{apply_op, apply_ops}
use persistent_atp.Gate.Validate.{validate_proposal}
use persistent_atp.Gate.Soundness.Closures.{closed-IsAccepted}

-- The op is no SetField of the node.
abbrev pub Spares : String → Op → Type 0
Spares t op =
    (label name : String) (v : Value) (prior : Option Value)
    → op ≢ Op.set_field label t name v prior

-- An op that spares a node, and does not create it, leaves it as it was.
nodes-kept :
    (m m' : MemoryView) (t : String) (op : Op)
    → Spares t op
    → ((label : String) (g : Fields) → op ≡ Op.upsert_node label t g → is_some (m.nodes t) ≡ true)
    → apply_op m op ≡ some m'
    → m'.nodes t ≡ m.nodes t
unfolding apply_op add_node set_field add_edge
nodes-kept m m' t (Op.upsert_node label n g) spares known h =
    elim (Bool-cases (is_some (m.nodes n))) [
      | inl e ↦ ap (λ (x : MemoryView). x.nodes t) (sym (eq_of_some (rw e at h)))
      | inr e ↦
          let made = ap (λ (x : MemoryView). x.nodes t) (sym (eq_of_some (rw e at h))) in
          elim (Bool-cases (str_eq n t)) [
            | inr q ↦ ground (arith, made, q)
            | inl q ↦
                let same = (eq_iff n t).0 q in
                let there = known label g (ap (λ x. Op.upsert_node label x g) same) in
                let missing : is_some (m.nodes t) ≡ false =
                  subst (λ x. is_some (m.nodes x) ≡ false) same e in
                absurd (ground (arith, there, missing))
          ]
    ]
nodes-kept m m' t (Op.set_field label n name v prior) spares known h =
    elim (Option-cases (m.nodes n)) [
      | inl e ↦ absurd (ground (arith, e))
      | inr (c, e) ↦
          let made = ap (λ (x : MemoryView). x.nodes t) (sym (eq_of_some (rw e at h))) in
          elim (Bool-cases (str_eq n t)) [
            | inr q ↦ ground (arith, made, q)
            | inl q ↦ absurd (
                spares label name v prior
                  (ap (λ x. Op.set_field label x name v prior) ((eq_iff n t).0 q)))
          ]
    ]
nodes-kept m m' t (Op.add_edge rel src dst e fields) spares known h =
    elim (Option-cases (m.edges e)) [
      | inl q ↦ ap (λ (x : MemoryView). x.nodes t) (sym (eq_of_some (rw q at h)))
      | inr (r, q) ↦ ap (λ (x : MemoryView). x.nodes t) (sym (eq_of_some (rw q at h)))
    ]
nodes-kept m m' t (Op.remove_edge rel e) spares known h =
    ap (λ d. d t) (remove_edge-edges e m m' h).0

-- No op sets a field of the node.
abbrev pub Unset : String → List Op → Type 0
Unset t ops = (k : ℕ) (op : Op) → get_elem? ops k ≡ some op → Spares t op

nodes-stay :
    (ops : List Op) (m m' : MemoryView) (t : String) (r : NodeRecord)
    → Unset t ops
    → m.nodes t ≡ some r
    → apply_ops m ops ≡ some m'
    → m'.nodes t ≡ some r
unfolding apply_ops
nodes-stay [] m m' t r unset there h = ap (λ x. x.nodes t) (sym (eq_of_some h)) ∙ there
nodes-stay (op ∷ ops) m m' t r unset there h = elim (Option-cases (apply_op m op)) [
  | inl e ↦ absurd (ground (arith, e))
  | inr (m₁, e) ↦
      nodes-stay ops m₁ m' t r (λ k. unset (suc k))
        (nodes-kept m m₁ t op (unset 0 op refl) (λ label g q. ap is_some there) e ∙ there)
        (rw e at h)
]

-- Each op that creates the node is the one at the index.
abbrev pub IsOnly : List Op → ℕ → String → Type 0
IsOnly ops j t =
    (k : ℕ) (label : String) (g : Fields)
    → get_elem? ops k ≡ some (Op.upsert_node label t g)
    → k ≡ j

upserted :
    (m m' : MemoryView) (label t : String) (f : Fields)
    → m.nodes t ≡ none
    → apply_op m (Op.upsert_node label t f) ≡ some m'
    → m'.nodes t ≡ some (record { node_id = t; label = label; fields = f })
unfolding apply_op add_node
upserted m m' label t f fresh h =
    ap (λ (x : MemoryView). x.nodes t) (sym (eq_of_some (rw fresh at h))) ∙ rw (eq_refl t) refl

created :
    (ops : List Op) (j : ℕ) (label t : String) (f : Fields) (m m' : MemoryView)
    → get_elem? ops j ≡ some (Op.upsert_node label t f)
    → IsOnly ops j t
    → Unset t ops
    → m.nodes t ≡ none
    → apply_ops m ops ≡ some m'
    → m'.nodes t ≡ some (record { node_id = t; label = label; fields = f })
unfolding apply_ops
created [] j label t f m m' at only unset fresh h = absurd (cc)
created (op ∷ ops) zero label t f m m' at only unset fresh h = elim (Option-cases (apply_op m op)) [
  | inl e ↦ absurd (ground (arith, e))
  | inr (m₁, e) ↦
      nodes-stay ops m₁ m' t _ (λ k. unset (suc k))
        (upserted m m₁ label t f fresh (subst (λ x. apply_op m x ≡ some m₁) (eq_of_some at) e))
        (rw e at h)
]
created (op ∷ ops) (suc j) label t f m m' at only unset fresh h =
    elim (Option-cases (apply_op m op)) [
      | inl e ↦ absurd (ground (arith, e))
      | inr (m₁, e) ↦
          created ops j label t f m₁ m' at (λ k l g q. omega (arith, only (suc k) l g q))
            (λ k. unset (suc k))
            (nodes-kept m m₁ t op (unset 0 op refl)
                (λ l g q. absurd (omega (arith, only 0 l g (ap some q)))) e
              ∙ fresh)
            (rw e at h)
    ]

-- The proposal creates the node once, under whatever label.
abbrev pub Once : String → List Op → Type 0
Once t ops =
    (i j : ℕ) (label label' : String) (f g : Fields)
    → get_elem? ops i ≡ some (Op.upsert_node label t f)
    → get_elem? ops j ≡ some (Op.upsert_node label' t g)
    → i ≡ j

-- What committed state has of a tactic that closes a state.
pub record Accepted (t : String) (m : MemoryView) : Type 0 where
  pub node : NodeRecord
  pub committed : m.nodes t ≡ some node
  pub is_tactic : node.label ≡ "TacticApplication"
  pub by_lean : or_null (lookup "executor_result" node.fields) ≡ str "lean-accepted"
  pub without_goals : value_eq (or_null (lookup "subgoal_count" node.fields)) (int 0) ≡ true

-- If the validators find nothing against a proposal that adds a CLOSES_STATE edge from a tactic that is
-- not in the view m, the proposal upserts its id once and sets no field of it, and its ops are applied
-- to m, then the tactic is in the view that comes of it, as a TacticApplication that Lean accepted
-- and that left no subgoals.
pub applied-Accepted :
    (p : Proposal) (view : ReadView) (m m' : MemoryView) (k : ℕ) (t dst e : String)
    (fields : Fields)
    → validate_proposal p (some view) ≡ some []
    → get_elem? p.ops k ≡ some (Op.add_edge "CLOSES_STATE" t dst e fields)
    → m.nodes t ≡ none
    → Once t p.ops
    → Unset t p.ops
    → apply_ops m p.ops ≡ some m'
    → Accepted t m'
applied-Accepted p view m m' k t dst e fields clean closes fresh once unset h =
    let (j, f, op, last, accepted, zeroed) =
      closed-IsAccepted p view k t dst e fields clean closes in
    record {
      node = record { node_id = t; label = "TacticApplication"; fields = f };
      committed =
          created p.ops j "TacticApplication" t f m m' op (λ i l g q. once i j l _ g f q op) unset
            fresh h;
      is_tactic = refl;
      by_lean = accepted;
      without_goals = zeroed;
    }

-- What committed state has of a tactic with n required subgoals.
pub record Counted (t : String) (n : ℕ) (m : MemoryView) : Type 0 where
  pub node : NodeRecord
  pub committed : m.nodes t ≡ some node
  pub is_tactic : node.label ≡ "TacticApplication"
  pub declares : value_eq (or_null (lookup "subgoal_count" node.fields)) (int n) ≡ true
