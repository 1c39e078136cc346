-- ===== src/Mathproof/Scheduler/Scoring.antt =====
-- The feature vector of a candidate, and the policy's score of it.
use persistent_atp.Prelude.{
  String, Option, none, some, List, [], ◌∷◌, str_eq, if◌then◌else◌, lookup, insert,
}
use persistent_atp.Mathproof.Scheduler.Numbers.{Float}
use persistent_atp.Mathproof.Scheduler.Statistics.{Outcomes, failure_risk}

-- A dict from feature names to numbers.
abbrev pub Features : Type 0 → Type 0
Features W = List (String × W)

abbrev pub features : List String
features =
    "dependency_centrality" ∷ "expected_theorem_impact" ∷ "expected_information_gain"
    ∷ "novelty_and_mechanism_diversity" ∷ "verification_value" ∷ "formalization_readiness"
    ∷ "estimated_cost" ∷ "repeated_failure_risk" ∷ "human_priority"
    ∷ "availability_of_suitable_worker_or_model_or_tool" ∷ []

module _ {W : Type 0} ⦃f : Float W⦄ where
  abbrev pub neutral_defaults : Features W
  neutral_defaults =
      ("dependency_centrality", f.decimal 5 1)
      ∷ ("expected_theorem_impact", f.decimal 5 1)
      ∷ ("expected_information_gain", f.decimal 5 1)
      ∷ ("novelty_and_mechanism_diversity", f.decimal 5 1)
      ∷ ("verification_value", f.decimal 5 1)
      ∷ ("formalization_readiness", f.decimal 5 1)
      ∷ ("estimated_cost", f.decimal 10 1)
      ∷ ("repeated_failure_risk", f.decimal 5 1)
      ∷ ("human_priority", f.decimal 5 1)
      ∷ ("availability_of_suitable_worker_or_model_or_tool", f.decimal 10 1)
      ∷ []

  abbrev pub default_weights : Features W
  default_weights =
      ("expected_theorem_impact", f.decimal 12 1)
      ∷ ("expected_information_gain", f.decimal 10 1)
      ∷ ("verification_value", f.decimal 10 1)
      ∷ ("dependency_centrality", f.decimal 8 1)
      ∷ ("novelty_and_mechanism_diversity", f.decimal 6 1)
      ∷ ("formalization_readiness", f.decimal 6 1)
      ∷ ("human_priority", f.decimal 8 1)
      ∷ ("availability_of_suitable_worker_or_model_or_tool", f.decimal 7 1)
      ∷ ("estimated_cost", f.negative (f.decimal 4 1))
      ∷ ("repeated_failure_risk", f.negative (f.decimal 6 1))
      ∷ []

abbrev pub category_worker_class : List (String × String)
category_worker_class =
    ("research-move", "llm-research")
    ∷ ("formal-run", "formal-atp")
    ∷ ("critic-task", "critic")
    ∷ []

-- features.update(other)
abbrev pub overlay : {W : Type 0} → Features W → Features W → Features W
overlay base [] = base
overlay base ((name, x) ∷ rest) = overlay (insert name x base) rest

-- A frontier entry.
pub record Candidate (W : Type 0) : Type 0 where
  pub move_id : String
  pub category : String
  pub detail : String
  pub features : Features W

-- The class of worker that suits the category; any, for a category that is not listed.
abbrev pub natural : String → String → String
natural category requested = elim (lookup category category_worker_class) [
  | none ↦ requested
  | some class ↦ class
]

unfoldable pub feature_vector :
    {W : Type 0} ⦃f : Float W⦄ → Outcomes → Candidate W → String → Features W
unfolding failure_risk
feature_vector ⦃f⦄ d c requested =
    insert "availability_of_suitable_worker_or_model_or_tool"
      (if str_eq requested (natural c.category requested) then f.decimal 10 1 else f.decimal 3 1)
      (insert "repeated_failure_risk" (failure_risk c.category d)
        (overlay neutral_defaults c.features))

pub record SchedulerPolicy (W : Type 0) : Type 0 where
  pub name : String
  pub weights : Features W

module _ {W : Type 0} ⦃f : Float W⦄ where
  abbrev pub given : W → Option W → W
  given default none = default
  given default (some x) = x

  -- features.get(name, NEUTRAL_DEFAULTS[name]): `none` is a KeyError.
  abbrev pub entered : String → Option W → Option W → Option (Features W) → Option (Features W)
  entered name own none rest = none
  entered name own (some default) none = none
  entered name own (some default) (some rest) = some ((name, given default own) ∷ rest)

  abbrev pub snapshot_of : Features W → List String → Option (Features W)
  snapshot_of fs [] = some []
  snapshot_of fs (name ∷ names) =
      entered name (lookup name fs) (lookup name neutral_defaults) (snapshot_of fs names)

  abbrev pub times : Option W → W → Option (List W) → Option (List W)
  times none x products = none
  times (some w) x none = none
  times (some w) x (some products) = some (f.mul w x ∷ products)

  -- self.weights[name] * snapshot[name] for each name: `none` is a KeyError.
  abbrev pub weighted : Features W → Features W → Option (List W)
  weighted weights [] = some []
  weighted weights ((name, x) ∷ rest) = times (lookup name weights) x (weighted weights rest)

  abbrev pub summed : Option (List W) → Option W
  summed none = none
  summed (some products) = some (f.sum products)

  abbrev pub with_priority : Features W → Option W → Option (W × Features W)
  with_priority snapshot none = none
  with_priority snapshot (some priority) = some (priority, snapshot)

  abbrev pub priced : Features W → Option (Features W) → Option (W × Features W)
  priced weights none = none
  priced weights (some snapshot) = with_priority snapshot (summed (weighted weights snapshot))

  -- The priority and the snapshot.
  unfoldable pub score : SchedulerPolicy W → Features W → Option (W × Features W)
  score policy fs = priced policy.weights (snapshot_of fs features)
