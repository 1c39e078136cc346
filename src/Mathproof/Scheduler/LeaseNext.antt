-- ===== src/Mathproof/Scheduler/LeaseNext.antt =====
-- GlobalScheduler.lease_next, and Lease.from_row. `due₁` and `due₂` are the two readings of the
-- store's clock by which leases lapse.
pub mod Outcome
pub mod Choice
pub mod Picks
pub mod Progress
use persistent_atp.Prelude.{
  ℕ, String, Bool, true, false, Option, none, some, List, [], ◌∷◌, str_eq, if◌then◌else◌, map,
}
use persistent_atp.Json.{Json, obj, scalar, Members, member, end}
use persistent_atp.Store.{Store, LeaseRow, Failure, Result, ok, raises, Lock}
use persistent_atp.Store.Leases.{Order, active_leases, dispatch_lease, release_lease}
use persistent_atp.Mathproof.Scheduler.Numbers.{Float}
use persistent_atp.Mathproof.Scheduler.Statistics.{Outcomes}
use persistent_atp.Mathproof.Scheduler.Scoring.{Features, Candidate, SchedulerPolicy}
use persistent_atp.Mathproof.Scheduler.Frontier.{PlannerView, build_frontier}
use persistent_atp.Mathproof.Scheduler.Ranking.{Scored, score_all, rank}

pub record Lease (W : Type 0) : Type 0 where
  pub lease_id : String
  pub proof_id : String
  pub worker_class : String
  pub fencing_token : ℕ
  pub base_revision : ℕ
  pub selected_move_id : String
  pub ttl_seconds : ℕ
  pub issued_at : ℕ
  pub expires_at : Option ℕ
  pub score_snapshot : Features W
  pub policy_name : String

abbrev pub or_empty : Option String → String
or_empty none = ""
or_empty (some s) = s

unfoldable pub from_row : {W : Type 0} → LeaseRow → Features W → String → Lease W
from_row row snapshot policy_name = record {
  lease_id = row.lease_id;
  proof_id = row.proof_id;
  worker_class = row.worker_class;
  fencing_token = row.fencing_token;
  base_revision = row.base_revision;
  selected_move_id = or_empty row.selected_move_id;
  ttl_seconds = row.ttl_seconds;
  issued_at = row.issued_at;
  expires_at = row.expires_at;
  score_snapshot = snapshot;
  policy_name = policy_name;
}

-- What a call ends in: the store's exceptions pass through; a view without nodes is a TypeError, a
-- missing weight a KeyError, and a granted move that is not ranked a StopIteration.
pub data Answer {ℓ} (A : Type ℓ) : Type ℓ where
  answers : A → Answer A
  store_raises : Failure → Answer A
  view_type_error weight_key_error no_snapshot : Answer A

abbrev pub is_move : String → Option String → Bool
is_move m none = false
is_move m (some k) = str_eq m k

module _ {W : Type 0} ⦃f : Float W⦄ where
  abbrev pub members : Features W → Members
  members [] = end
  members ((name, x) ∷ rest) = member name (scalar (f.to_value x)) (members rest)

  -- What the store is given: the move, and the snapshot for the event.
  abbrev pub encoded : Scored W → String × Option Json
  encoded x = (x.move_id, some (obj (members x.snapshot)))

  -- next(snapshot for move_id, snapshot in ranked if …)
  abbrev pub snapshot_for : Option String → List (Scored W) → Option (Features W)
  snapshot_for m [] = none
  snapshot_for m (x ∷ xs) = if is_move x.move_id m then some x.snapshot else snapshot_for m xs

  abbrev pub handed : String → LeaseRow → Option (Features W) → Answer (Option (Lease W))
  handed name row none = no_snapshot
  handed name row (some snapshot) = answers (some (from_row row snapshot name))

  abbrev pub leased :
      String
      → List (Scored W)
      → Result (Option LeaseRow) × Store
      → Answer (Option (Lease W)) × Store
  leased name xs (raises e, s) = (store_raises e, s)
  leased name xs (ok none, s) = (answers none, s)
  leased name xs (ok (some row), s) = (handed name row (snapshot_for row.selected_move_id xs), s)

  abbrev pub dispatched :
      Lock
      → String
      → String
      → Order
      → ℕ
      → ℕ
      → Store
      → Option (List (Scored W))
      → Answer (Option (Lease W)) × Store
  dispatched lock name pid o due now s none = (weight_key_error, s)
  dispatched lock name pid o due now s (some xs) =
      leased name (rank xs) (dispatch_lease lock pid (map encoded (rank xs)) o due now s)

-- What the scheduler is set up with.
pub record Setup (W : Type 0) : Type 0 where
  pub view : PlannerView
  pub policy : SchedulerPolicy W
  pub statistics : Outcomes

module _ {W : Type 0} ⦃f : Float W⦄ where
  abbrev pub scheduled :
      Lock
      → Setup W
      → String
      → Order
      → ℕ
      → ℕ
      → List LeaseRow
      → Store
      → Option (List (Candidate W))
      → Answer (Option (Lease W)) × Store
  scheduled lock u pid o due now rows s none = (view_type_error, s)
  scheduled lock u pid o due now rows s (some cs) =
      dispatched lock u.policy.name pid o due now s
        (score_all u.statistics u.policy o.worker_class rows cs)

  abbrev pub planned :
      Lock
      → Setup W
      → String
      → Order
      → ℕ
      → ℕ
      → Result (List LeaseRow) × Store
      → Answer (Option (Lease W)) × Store
  planned lock u pid o due now (raises e, s) = (store_raises e, s)
  planned lock u pid o due now (ok rows, s) =
      scheduled lock u pid o due now rows s (build_frontier u.view pid)

  unfoldable pub lease_next :
      Lock → Lock → Setup W → String → Order → ℕ → ℕ → ℕ → Store → Answer (Option (Lease W)) × Store
  unfolding active_leases dispatch_lease build_frontier score_all rank from_row
  lease_next lock₁ lock₂ u pid o due₁ due₂ now s =
      planned lock₂ u pid o due₂ now (active_leases lock₁ pid due₁ s)

-- `release`
unfoldable pub release : Lock → String → String → Store → Result Bool × Store
unfolding release_lease
release lock pid lid = release_lease lock pid lid
