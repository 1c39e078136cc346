-- ===== src/Store/Calls.antt =====
-- Histories of the store: any sequence of calls, each with the answers of its lock and its clock.
pub mod Exclusive
pub mod Grows
pub mod Quiet
pub mod AppendOnly
pub mod Chained
pub mod Fresh
use persistent_atp.Prelude.{ℕ, String, Option, List, [], ◌∷◌}
use persistent_atp.Json.{Json}
use persistent_atp.Gate.Proposal.{Proposal}
use persistent_atp.Gate.Reasons.{Reason}
use persistent_atp.Store.{Store, Lock}
use persistent_atp.Store.Leases.{
  Order, acquire_lease, issue_lease, dispatch_lease, release_lease, active_leases,
}
use persistent_atp.Store.Journal.{append, record_rejection}

pub data Call : Type 0 where
  acquires : Lock → String → String → ℕ → ℕ → ℕ → Call
  issues :
      Lock → String → Option String → Option String → Option ℕ → Order → Option Json → ℕ → ℕ → Call
  dispatches : Lock → String → List (String × Option Json) → Order → ℕ → ℕ → Call
  releases : Lock → String → String → Call
  lists : Lock → String → ℕ → Call
  appends : Lock → Lock → Proposal → ℕ → ℕ → Call
  records : Lock → String → Reason → Option Json → Call

module _ (content_hash : Json → String) where
  unfoldable pub step : Store → Call → Store
  step s (acquires lock pid lid ttl due now) = (acquire_lease lock pid lid ttl due now s).1
  step s (issues lock pid lid move base o score due now) =
      (issue_lease lock pid lid move base o score due now s).1
  step s (dispatches lock pid moves o due now) = (dispatch_lease lock pid moves o due now s).1
  step s (releases lock pid lid) = (release_lease lock pid lid s).1
  step s (lists lock pid now) = (active_leases lock pid now s).1
  step s (appends lock lock' p due due') = (append content_hash lock lock' p due due' s).1
  step s (records lock pid reason payload) = (record_rejection lock pid reason payload s).1

  unfoldable pub run : Store → List Call → Store
  unfolding step
  run s [] = s
  run s (c ∷ cs) = run (step s c) cs
