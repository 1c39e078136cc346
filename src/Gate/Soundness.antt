-- ===== src/Gate/Soundness.antt =====
-- commit_gate/validate.py: what a proposal that the validators find nothing against has.
pub mod Promotion
pub mod Writes
pub mod Verified
pub mod Tally
pub mod Subgoals
pub mod Closures
pub mod Created
pub mod Authority
use persistent_atp.Prelude.{
  ℕ, ap, Option, none, some, List, [], ◌∷◌, ◌++◌, ◌≡◌, refl, arith, eq_of_some, Bool, not, true,
  false, if◌then◌else◌,
}
use persistent_atp.Gate.Proposal.{Proposal}
use persistent_atp.Gate.Reasons.{Reason, Rejection}
use persistent_atp.Gate.State.{ReadView}
use persistent_atp.Gate.Validate.{validate_proposal, against}
use persistent_atp.Gate.Validate.Scan.{eq-nil_left, eq-nil_right, at, when}
use persistent_atp.Gate.Validate.Local.{
  check_concurrency_tokens, check_vocabulary, check_namespace, check_annotation_separation,
}
use persistent_atp.Gate.Validate.Tactics.{both, check_subgoal_conservation, check_executor_result}
use persistent_atp.Gate.Validate.Committed.{
  check_references, check_prior_values, check_status_transitions, check_immutability,
  check_stagnation_obstruction,
}
use persistent_atp.Gate.Validate.Evidence.{
  check_replay_evidence, check_self_certification, check_alignment_gate,
}

-- Each validator finds nothing.
pub record Passes (p : Proposal) (view : ReadView) : Type 0 where
  pub tokens : check_concurrency_tokens p ≡ []
  pub vocabulary : check_vocabulary p ≡ []
  pub namespace : check_namespace p ≡ []
  pub subgoals : check_subgoal_conservation p ≡ some []
  pub executor : check_executor_result p ≡ []
  pub annotations : check_annotation_separation p ≡ []
  pub references : check_references p view ≡ []
  pub priors : check_prior_values p view ≡ []
  pub transitions : check_status_transitions p view ≡ []
  pub immutability : check_immutability p view ≡ []
  pub stagnation : check_stagnation_obstruction p view ≡ []
  pub replay : check_replay_evidence p view ≡ []
  pub certification : check_self_certification p view ≡ []
  pub alignment : check_alignment_gate p view ≡ []

nil_left : (xs ys : List Rejection) → some (xs ++ ys) ≡ some [] → some xs ≡ some []
nil_left xs ys h = ap some (eq-nil_left xs ys (eq_of_some h))

pub both-nil : (a b : Option (List Rejection)) → both a b ≡ some [] → (a ≡ some []) × (b ≡ some [])
both-nil none b h = absurd (cc)
both-nil (some a) none h = absurd (cc)
both-nil (some a) (some b) h =
    (ap some (eq-nil_left a b (eq_of_some h)), ap some (eq-nil_right a b (eq_of_some h)))

-- The run of all validators finds nothing only if each of them does.
pub validate_proposal-Passes :
    (p : Proposal) (view : ReadView) → validate_proposal p (some view) ≡ some [] → Passes p view
unfolding validate_proposal against
validate_proposal-Passes p view h =
    let (own, rest) = both-nil _ _ h in
    let (goals, rest₁) = both-nil _ _ rest in
    let own₁ = eq_of_some own in
    let own₂ = eq-nil_right _ _ own₁ in
    let r₁ = eq_of_some rest₁ in
    let r₂ = eq-nil_right _ _ r₁ in
    let r₃ = eq-nil_right _ _ r₂ in
    let r₄ = eq-nil_right _ _ r₃ in
    let r₅ = eq-nil_right _ _ r₄ in
    let r₆ = eq-nil_right _ _ r₅ in
    let r₇ = eq-nil_right _ _ r₆ in
    let r₈ = eq-nil_right _ _ r₇ in
    let r₉ = eq-nil_right _ _ r₈ in
    record {
      tokens = eq-nil_left _ _ own₁;
      vocabulary = eq-nil_left _ _ own₂;
      namespace = eq-nil_right _ _ own₂;
      subgoals = goals;
      executor = eq-nil_left _ _ r₁;
      annotations = eq-nil_left _ _ r₂;
      references = eq-nil_left _ _ r₃;
      priors = eq-nil_left _ _ r₄;
      transitions = eq-nil_left _ _ r₅;
      immutability = eq-nil_left _ _ r₆;
      stagnation = eq-nil_left _ _ r₇;
      replay = eq-nil_left _ _ r₈;
      certification = eq-nil_left _ _ r₉;
      alignment = eq-nil_right _ _ r₉;
    }

-- A guarded rejection that is not there had a false guard.
pub when-nil : (b : Bool) (r : Reason) (i : ℕ) → when b (at r i) ≡ [] → b ≡ false
when-nil true r i h = absurd (cc)
when-nil false r i h = refl
