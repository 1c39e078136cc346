-- ===== src/Gate/Soundness/Subgoals.antt =====
-- commit_gate/validate.py: what subgoal conservation keeps.
use persistent_atp.Prelude.{
  ℕ, ◌≤◌, String, some, List, [], ◌∷◌, ◌≡◌, arith, not, true, false, get_elem?, lookup, length,
  Option-cases, Bool-cases, inl, inr, ap₂, sym, subst, ◌∙◌, str_eq, eq_iff, eq_of_some, is_none,
}
use persistent_atp.Json.{Value, int, or_null, is_null, value_eq}
use persistent_atp.Gate.Ops.{Op, Fields, upsert_node}
use persistent_atp.Gate.Proposal.{Proposal}
use persistent_atp.Gate.Reasons.{orphan_subgoal_edge, subgoal_count_mismatch}
use persistent_atp.Gate.Validate.Scan.{eq-nil_left, eq-nil_right}
use persistent_atp.Gate.Validate.Tactics.{
  tactics_of, Child, children_of, orphans, entries_of, covers, positions_of, arity_of, arities,
  count_of,
}
use persistent_atp.Gate.Soundness.{when-nil, both-nil}
use persistent_atp.Gate.Soundness.Tally.{
  count_edges, children_of-length, tactics_of-op, IsLast, tactics_of-last,
}

orphans-nil :
    (tactics : List (String × (ℕ × Fields))) (children : List (String × List Child)) (t : String)
    (entries : List Child)
    → orphans tactics children ≡ []
    → lookup t children ≡ some entries
    → is_none (lookup t tactics) ≡ false
unfolding lookup
orphans-nil tactics [] t entries h e = absurd (cc)
orphans-nil tactics ((j, xs) ∷ children) t entries h e = elim (Bool-cases (str_eq j t)) [
  | inl q ↦
      subst (λ x. is_none (lookup x tactics) ≡ false) ((eq_iff j t).0 q)
        (when-nil _ orphan_subgoal_edge _ (eq-nil_left _ _ h))
  | inr q ↦ orphans-nil tactics children t entries (eq-nil_right _ _ h) (rw q at e)
]

arities-nil :
    (children : List (String × List Child)) (tactics : List (String × (ℕ × Fields))) (t : String)
    (i : ℕ) (f : Fields)
    → arities children tactics ≡ some []
    → lookup t tactics ≡ some (i, f)
    → arity_of i f (entries_of t children) ≡ some []
unfolding lookup
arities-nil children [] t i f h e = absurd (cc)
arities-nil children ((j, (k, g)) ∷ tactics) t i f h e = elim (Bool-cases (str_eq j t)) [
  | inl q ↦
      let mine : arity_of k g (entries_of j children) ≡ some [] = (both-nil _ _ h).0 in
      let same = eq_of_some (rw q at e) in
      ap₂ (λ (y : ℕ × Fields) x. arity_of y.0 y.1 (entries_of x children)) (sym same)
        (sym ((eq_iff j t).0 q))
      ∙ mine
  | inr q ↦ arities-nil children tactics t i f (both-nil _ _ h).1 (rw q at e)
]

pub counted :
    (i : ℕ) (declared : Value) (n : ℕ)
    → count_of i declared n ≡ []
    → value_eq declared (int n) ≡ true
counted i declared n h = elim (Bool-cases (is_null declared)) [
  | inl e ↦ absurd (ground (arith, e))
  | inr e ↦
      let q : not (value_eq declared (int n)) ≡ false =
        when-nil _ subgoal_count_mismatch i (rw e at h) in
      ground (arith, q)
]

arity-counted :
    (i : ℕ) (f : Fields) (entries : List Child)
    → arity_of i f entries ≡ some []
    → value_eq (or_null (lookup "subgoal_count" f)) (int (length entries)) ≡ true
arity-counted i f entries h = elim (Option-cases (covers (length entries) (positions_of entries))) [
  | inl q ↦ absurd (ground (arith, q))
  | inr (good, q) ↦
      counted i _ _ (eq-nil_left _ _ (eq-nil_left _ _ (eq_of_some (rw (q, arity_of) at h))))
]

-- A node with an edge has an entry.
pub entry :
    (t : String) (children : List (String × List Child))
    → 1 ≤ length (entries_of t children)
    → (entries : List Child) × (lookup t children ≡ some entries)
entry t children h = elim (Option-cases (lookup t children)) [
  | inl q ↦ absurd (ground (arith, q))
  | inr found ↦ found
]

-- A tactic that all checks pass is an op, and declares its count.
declared :
    (t : String) (ops : List Op)
    → let tactics = tactics_of 0 [] ops in
      let children = children_of "FORMAL_REQUIRES" 0 [] ops in
      orphans tactics children ≡ []
      → arities children tactics ≡ some []
      → 1 ≤ count_edges "FORMAL_REQUIRES" t ops
      → (j : ℕ) × (f : Fields) × (get_elem? ops j ≡ some (upsert_node "TacticApplication" t f))
        × IsLast ops j t
        × (value_eq (or_null (lookup "subgoal_count" f)) (int (count_edges "FORMAL_REQUIRES" t ops))
            ≡ true)
unfolding lookup
declared t ops whole counts some_edge =
    let tactics = tactics_of 0 [] ops in
    let children = children_of "FORMAL_REQUIRES" 0 [] ops in
    let size = children_of-length "FORMAL_REQUIRES" t 0 [] ops in
    let (entries, at_t) = entry t children (omega (arith, size, some_edge)) in
    let there = orphans-nil tactics children t entries whole at_t in
    elim (Option-cases (lookup t tactics)) [
      | inl q ↦ absurd (ground (arith, q, there))
      | inr ((j, f), q) ↦
          let good = arity-counted j f _ (arities-nil children tactics t j f counts q) in
          elim (tactics_of-op t 0 j f [] ops q) [
            | inl none_yet ↦ absurd (cc)
            | inr (k, e, op) ↦ (
              k,
              f,
              op,
              λ l g found.
                  let late = tactics_of-last t 0 j f [] ops q l g found in omega (arith, e, late),
              subst (λ n. value_eq (or_null (lookup "subgoal_count" f)) (int n) ≡ true)
                  (size ∙ omega arith) good,
            )
          ]
    ]
