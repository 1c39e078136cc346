-- ===== src/Mathproof/Scheduler/Ranking.antt =====
-- The scored candidates, and their order: `scored.sort(key=…, reverse=True)` keeps the order of those
-- with one priority.
pub mod Order
pub mod Scores
use persistent_atp.Prelude.{
  String, Bool, true, false, Option, none, some, List, [], ◌∷◌, any, if◌then◌else◌,
}
use persistent_atp.Store.{LeaseRow}
use persistent_atp.Store.Rows.{covers}
use persistent_atp.Mathproof.Scheduler.Numbers.{Float}
use persistent_atp.Mathproof.Scheduler.Statistics.{Outcomes}
use persistent_atp.Mathproof.Scheduler.Scoring.{
  Features, Candidate, SchedulerPolicy, score, feature_vector,
}

pub record Scored (W : Type 0) : Type 0 where
  pub priority : W
  pub move_id : String
  pub snapshot : Features W

-- candidate.move_id in active_moves
abbrev pub is_active_move : List LeaseRow → String → Bool
is_active_move rows move = any (covers move) rows

module _ {W : Type 0} ⦃f : Float W⦄ where
  abbrev pub scored : Candidate W → Option (W × Features W) → Option (Scored W)
  scored c none = none
  scored c (some (priority, snapshot)) =
      some (record { priority = priority; move_id = c.move_id; snapshot = snapshot })

  unfoldable pub score_one : Outcomes → SchedulerPolicy W → String → Candidate W → Option (Scored W)
  unfolding feature_vector score
  score_one d policy worker_class c = scored c (score policy (feature_vector d c worker_class))

  abbrev pub add_scored : Option (Scored W) → Option (List (Scored W)) → Option (List (Scored W))
  add_scored none rest = none
  add_scored (some x) none = none
  add_scored (some x) (some xs) = some (x ∷ xs)

  -- The loop over the frontier: `none` is the KeyError of a weight that is not there.
  unfoldable pub score_all :
      Outcomes
      → SchedulerPolicy W
      → String
      → List LeaseRow
      → List (Candidate W)
      → Option (List (Scored W))
  unfolding score_one
  score_all d policy worker_class rows [] = some []
  score_all d policy worker_class rows (c ∷ cs) =
      let rest = score_all d policy worker_class rows cs in
      if is_active_move rows c.move_id
      then rest
      else add_scored (score_one d policy worker_class c) rest

  abbrev pub place : Scored W → List (Scored W) → List (Scored W)
  place x [] = x ∷ []
  place x (y ∷ ys) =
      let rest = place x ys in if f.lt x.priority y.priority then y ∷ rest else x ∷ y ∷ ys

  unfoldable pub rank : List (Scored W) → List (Scored W)
  rank [] = []
  rank (x ∷ xs) = place x (rank xs)
