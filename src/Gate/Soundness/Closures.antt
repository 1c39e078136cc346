-- ===== src/Gate/Soundness/Closures.antt =====
-- commit_gate/validate.py: what closes a formal state.
use persistent_atp.Prelude.{
  ℕ, ◌≤◌, String, some, List, [], ◌∷◌, ◌≡◌, arith, Bool, not, true, false, get_elem?, lookup,
  length, Option-cases, Bool-cases, inl, inr, ap, subst, str_eq, eq_of_some, eq_iff, eq_refl,
}
use persistent_atp.Json.{str, int, or_null, value_eq}
use persistent_atp.Gate.Ops.{Fields, upsert_node, add_edge}
use persistent_atp.Gate.Proposal.{Proposal}
use persistent_atp.Gate.Reasons.{closure_without_lean_accepted, closure_without_zero_goals}
use persistent_atp.Gate.State.{ReadView}
use persistent_atp.Gate.Validate.{validate_proposal}
use persistent_atp.Gate.Validate.Scan.{eq-nil_left, eq-nil_right}
use persistent_atp.Gate.Validate.Tactics.{
  tactics_of, Child, children_of, entries_of, or_empty, results, closure_of, closure_by, closures,
  check_executor_result,
}
use persistent_atp.Gate.Soundness.{validate_proposal-Passes, when-nil}
use persistent_atp.Gate.Soundness.Tally.{
  count_edges-pos, children_of-length, tactics_of-op, IsLast, tactics_of-last,
}
use persistent_atp.Gate.Soundness.Subgoals.{entry}
use persistent_atp.Gate.Soundness.Promotion.{is_text-eq}

closures-nil :
    (tactics : List (String × (ℕ × Fields))) (children : List (String × List Child)) (t : String)
    (entries : List Child)
    → closures tactics children ≡ []
    → lookup t children ≡ some entries
    → closure_by (lookup t tactics) entries ≡ []
unfolding lookup
closures-nil tactics [] t entries h e = absurd (cc)
closures-nil tactics ((j, xs) ∷ children) t entries h e = elim (Bool-cases (str_eq j t)) [
  | inl q ↦
      subst (λ x. closure_by (lookup t tactics) x ≡ []) (eq_of_some (rw q at e))
        (subst (λ x. closure_by (lookup x tactics) xs ≡ []) ((eq_iff j t).0 q)
          (eq-nil_left (closure_by (lookup j tactics) xs) (closures tactics children) h))
  | inr q ↦
      closures-nil tactics children t entries
        (eq-nil_right (closure_by (lookup j tactics) xs) (closures tactics children) h) (rw q at e)
]

of_not : (b : Bool) → not b ≡ false → b ≡ true
of_not b h = ground arith

closure_of-nil :
    (f : Fields) (entries : List Child)
    → 1 ≤ length entries
    → closure_of f entries ≡ []
    → (or_null (lookup "executor_result" f) ≡ str "lean-accepted")
      × (value_eq (or_null (lookup "subgoal_count" f)) (int 0) ≡ true)
closure_of-nil f [] n h = absurd (omega (arith, n))
closure_of-nil f (c ∷ cs) n h =
    let both = eq-nil_left _ (closure_of f cs) h in
    (
      is_text-eq "lean-accepted" _
          (of_not _ (when-nil _ closure_without_lean_accepted c.index (eq-nil_left _ _ both))),
      of_not _ (when-nil _ closure_without_zero_goals c.index (eq-nil_right _ _ both)),
    )

pub closed-IsAccepted :
    (p : Proposal) (view : ReadView) (k : ℕ) (t dst e : String) (fields : Fields)
    → validate_proposal p (some view) ≡ some []
    → get_elem? p.ops k ≡ some (add_edge "CLOSES_STATE" t dst e fields)
    → (j : ℕ) × (declared : Fields) × (get_elem? p.ops j
        ≡ some (upsert_node "TacticApplication" t declared))
      × IsLast p.ops j t
      × (or_null (lookup "executor_result" declared) ≡ str "lean-accepted")
      × (value_eq (or_null (lookup "subgoal_count" declared)) (int 0) ≡ true)
unfolding check_executor_result lookup
closed-IsAccepted p view k t dst e fields h q =
    let tactics = tactics_of 0 [] p.ops in
    let children = children_of "CLOSES_STATE" 0 [] p.ops in
    let clean =
      eq-nil_right (results tactics) (closures tactics children)
        (validate_proposal-Passes p view h).executor in
    let size = children_of-length "CLOSES_STATE" t 0 [] p.ops in
    let one = count_edges-pos "CLOSES_STATE" t k p.ops _ q (eq_refl t) in
    let (entries, at_t) = entry t children (omega (arith, size, one)) in
    let same : length (entries_of t children) ≡ length entries =
      ap (λ o. length (or_empty o)) at_t in
    let held = closures-nil tactics children t entries clean at_t in
    elim (Option-cases (lookup t tactics)) [
      | inl none_there ↦ absurd (ground (arith, none_there, held))
      | inr ((j, f), there) ↦
          let (accepted, closed) =
            closure_of-nil f entries (omega (arith, size, one, same))
              (subst (λ x. closure_by x entries ≡ []) there held) in
          elim (tactics_of-op t 0 j f [] p.ops there) [
            | inl not_yet ↦ absurd (cc)
            | inr (i, e, op) ↦ (
              i,
              f,
              op,
              λ l g found.
                  let late = tactics_of-last t 0 j f [] p.ops there l g found in
                  omega (arith, e, late),
              accepted,
              closed,
            )
          ]
    ]
