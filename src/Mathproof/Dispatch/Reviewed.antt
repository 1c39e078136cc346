-- ===== src/Mathproof/Dispatch/Reviewed.antt =====
-- What the scheduler makes of a claim that a critic has accepted.
use Prim.Native.String
use persistent_atp.Prelude.{
  String, true, Option, some, List, [], ◌∷◌, str_eq, eq_iff, eq_refl, lookup, insert, lookup-insert,
  ◌≡◌, ◌≢◌, refl, sym, ap, ◌∙◌, inl, inr, arith, Bool-cases, Option-cases, In, In-any, eq_of_some,
}
use persistent_atp.Json.{Value, str}
use persistent_atp.Vocab.Labels.{contains}
use persistent_atp.Gate.Ops.{Op, Fields, upsert_node, set_field, add_edge}
use persistent_atp.Gate.State.{MemoryView, NodeRecord, ReadView, update, add_node}
use persistent_atp.Gate.State
use persistent_atp.Gate.Apply.{apply_op, apply_ops}
use persistent_atp.Mathproof.Dispatch.{
  CriticResult, critic_result_to_ops, review, promotion, or_text,
}
use persistent_atp.Mathproof.Scheduler.Frontier.Eligible.{
  Eligible, proposes, formalizes, resumes, reviews,
}

apply_ops-cons :
    (m m' : MemoryView) (op : Op) (ops : List Op)
    → apply_ops m (op ∷ ops) ≡ some m'
    → (n : MemoryView) × (apply_op m op ≡ some n) × (apply_ops n ops ≡ some m')
unfolding apply_ops
apply_ops-cons m m' op ops h = elim (Option-cases (apply_op m op)) [
  | inl q ↦ absurd (ground (arith, q))
  | inr (n, q) ↦ (n, q, rw (apply_ops, q) at h)
]

upsert-other :
    (m m' : MemoryView) (label n : String) (fields : Fields) (k : String)
    → n ≢ k
    → apply_op m (upsert_node label n fields) ≡ some m'
    → m'.nodes k ≡ m.nodes k
unfolding apply_op State.add_node
upsert-other m m' label n fields k ne h = elim (Option-cases (m.nodes n)) [
  | inl q ↦
      let same : add_node n label fields m ≡ m' = eq_of_some (rw (apply_op, q) at h) in
      ap (λ (x : MemoryView). x.nodes k) (sym same) ∙ elim (Bool-cases (str_eq n k)) [
        | inl e ↦ absurd (ne ((eq_iff n k).0 e))
        | inr e ↦ rw (update, e) refl
      ]
  | inr (r, q) ↦
      let same : m ≡ m' = eq_of_some (rw (apply_op, q) at h) in
      ap (λ (x : MemoryView). x.nodes k) (sym same)
]

add_edge-nodes :
    (m m' : MemoryView) (rel src dst e : String) (fields : Fields)
    → apply_op m (add_edge rel src dst e fields) ≡ some m'
    → m'.nodes ≡ m.nodes
unfolding apply_op State.add_edge
add_edge-nodes m m' rel src dst e fields h = elim (Option-cases (m.edges e)) [
  | inl q ↦ ap (λ (x : MemoryView). x.nodes) (sym (eq_of_some (rw (apply_op, q) at h)))
  | inr (r, q) ↦ ap (λ (x : MemoryView). x.nodes) (sym (eq_of_some (rw (apply_op, q) at h)))
]

-- The label stays, and the field reads as it was set.
set_field-node :
    (m m' : MemoryView) (label n field : String) (value : Value) (prior : Option Value)
    (c : NodeRecord)
    → m.nodes n ≡ some c
    → apply_op m (set_field label n field value prior) ≡ some m'
    → (d : NodeRecord) × (m'.nodes n ≡ some d)
      × (d.label ≡ c.label)
      × (lookup field d.fields ≡ some value)
unfolding apply_op State.set_field
set_field-node m m' label n field value prior c here h =
    let d : NodeRecord = record {
      node_id = n;
      label = c.label;
      fields = insert field value c.fields;
    } in
    let made : (record m { nodes = update m.nodes n (some d) }) ≡ m' = eq_of_some (rw here at h) in
    let self : update m.nodes n (some d) n ≡ some d = rw (update, eq_refl n) refl in
    (
      d,
      ap (λ (x : MemoryView). x.nodes n) (sym made) ∙ self,
      refl,
      lookup-insert field field value c.fields ∙ rw (eq_refl field) refl,
    )

-- A claim whose status is not provisional is nothing that may be dispatched.
accepted-done :
    (v : ReadView) (pid : String) (ids : List String) (claim : String) (d : NodeRecord)
    → v.node claim ≡ some d
    → d.label ≡ "Claim"
    → lookup "status" d.fields ≡ some (str "critic-accepted")
    → ¬ Eligible v pid ids claim
accepted-done v pid ids claim d n l s (proposes id state e r known lab dead i at node lr sr) =
    let same : d ≡ r = eq_of_some (sym n ∙ node) in
    let clash : str_eq "Claim" "ResearchMove" ≡ true =
      (eq_iff "Claim" "ResearchMove").1 (sym l ∙ ap (λ (x : NodeRecord). x.label) same ∙ lr) in
    absurd (cc)
accepted-done v pid ids claim d n l s (formalizes r known lr sr) =
    let same : d ≡ r = eq_of_some (sym n ∙ known.2) in
    let clash : str_eq "Claim" "FormalDeclaration" ≡ true =
      (eq_iff "Claim" "FormalDeclaration").1 (sym l ∙ ap (λ (x : NodeRecord). x.label) same ∙ lr) in
    absurd (cc)
accepted-done v pid ids claim d n l s (resumes r e c g st known lr sr i k j k' w) =
    let same : d ≡ r = eq_of_some (sym n ∙ known.2) in
    let clash : str_eq "Claim" "FormalRun" ≡ true =
      (eq_iff "Claim" "FormalRun").1 (sym l ∙ ap (λ (x : NodeRecord). x.label) same ∙ lr) in
    absurd (cc)
accepted-done v pid ids claim d n l s (reviews r known lr (w, e, i) free) =
    let same : d ≡ r = eq_of_some (sym n ∙ known.2) in
    let text : str "critic-accepted" ≡ str w =
      eq_of_some (sym s ∙ ap (λ (x : NodeRecord). lookup "status" x.fields) same ∙ e) in
    absurd (provisional w (ap text_of text) i)
  where
    text_of : Value → String
    text_of (str x) = x
    text_of _ = ""

    provisional : (w : String) → "critic-accepted" ≡ w → In w ("provisional" ∷ []) → ⊥
    provisional w q (inl t) =
        let clash : str_eq "critic-accepted" "provisional" ≡ true =
          (eq_iff "critic-accepted" "provisional").1 (q ∙ sym t) in
        absurd (cc)
    provisional w q (inr t) = t

-- Once the operations of a critic's favourable verdict are applied, the scheduler's frontier has no
-- place for the claim: whatever else a view shows, if it shows the claim as it then is, the claim is
-- nothing that may be dispatched. The claim's node is labelled so, and the attempt has another id.
pub critic_result_to_ops-Eligible :
    (r : CriticResult) (claim attempt verdict : String) (ops : List Op) (m m' : MemoryView)
    (c : NodeRecord) (v : ReadView) (pid : String) (ids : List String)
    → r.verdict ≡ some verdict
    → In verdict ("supported" ∷ "critic-accepted" ∷ [])
    → critic_result_to_ops r claim attempt ≡ some ops
    → attempt ≢ claim
    → m.nodes claim ≡ some c
    → c.label ≡ "Claim"
    → apply_ops m ops ≡ some m'
    → v.node claim ≡ m'.nodes claim
    → ¬ Eligible v pid ids claim
unfolding critic_result_to_ops apply_ops
critic_result_to_ops-Eligible r claim attempt verdict ops m m' c v pid ids q i o ne here l h shown =
    let favors : contains ("supported" ∷ "critic-accepted" ∷ []) verdict ≡ true =
      In-any (λ y. str_eq y verdict) verdict ("supported" ∷ "critic-accepted" ∷ []) i
        (eq_refl verdict) in
    let promotes : promotion claim verdict ≡ promote ∷ [] = rw (promotion, favors) refl in
    let same = eq_of_some (ap (review r claim attempt) (sym q) ∙ o) in
    let whole : apply_ops m (ops_before verdict promote) ≡ some m' =
      ap (λ rest. apply_ops m (attempted verdict ∷ (reviewed ∷ rest))) (sym promotes)
      ∙ ap (apply_ops m) same
      ∙ h in
    let (m₁, a₁, rest₁) =
      apply_ops-cons m m' (attempted verdict) (reviewed ∷ (promote ∷ [])) whole in
    let (m₂, a₂, rest₂) = apply_ops-cons m₁ m' reviewed (promote ∷ []) rest₁ in
    let (m₃, a₃, rest₃) = apply_ops-cons m₂ m' promote [] rest₂ in
    let node : m₂.nodes claim ≡ some c =
      ap (λ f. f claim) (add_edge-nodes m₁ m₂ _ _ _ _ _ a₂)
      ∙ upsert-other m m₁ _ attempt _ claim ne a₁
      ∙ here in
    let (d, at, lab, s) =
      set_field-node m₂ m₃ "Claim" claim "status" (str "critic-accepted") (some (str "provisional"))
        c node a₃ in
    let final : m₃ ≡ m' = eq_of_some rest₃ in
    accepted-done v pid ids claim d
      (shown ∙ ap (λ (x : MemoryView). x.nodes claim) (sym final) ∙ at) (lab ∙ l) s
  where
    promote : Op
    promote = set_field "Claim" claim "status" (str "critic-accepted") (some (str "provisional"))

    attempted : String → Op
    attempted w = upsert_node "Attempt" attempt (
        ("actor", str (or_text "critic" r.actor))
        ∷ ("worker_class", str "critic")
        ∷ ("status", str w)
        ∷ [])

    reviewed : Op
    reviewed =
        add_edge "REVIEWS_CLAIM" attempt claim
          (or_text (String.◌++◌ attempt "-reviews") r.review_edge_id) []

    ops_before : String → Op → List Op
    ops_before w last = attempted w ∷ (reviewed ∷ (last ∷ []))
