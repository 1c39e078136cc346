-- ===== src/Tests/Scheduler.antt =====
-- A proof with a proposed move and an unreviewed claim, scheduled in thousandths.
use persistent_atp.Prelude.{
  String, true, false, Option, none, some, List, [], ◌∷◌, ◌≡◌, refl, lookup, insert, str_eq,
  if◌then◌else◌, arith, inl, inr, ◌↔◌, ◌≤◌, In, map,
}
use persistent_atp.Json.{str}
use persistent_atp.Gate.State.{ReadView, NodeRecord, EdgeRecord}
use persistent_atp.Store.{Store, empty_store, granted}
use persistent_atp.Store.Leases.{Order, dispatch_lease, walk, active_leases}
use persistent_atp.Store.Rows.{expire_due_leases, next_lease_id}
use persistent_atp.Mathproof.Scheduler.Numbers.{Thousandths, thousandths_float, thousandths_ordered}
use persistent_atp.Mathproof.Scheduler.Statistics.{outcomes, attempts, update_statistics}
use persistent_atp.Mathproof.Scheduler.Statistics.Counts.{told, told-counts_empty}
use persistent_atp.Mathproof.Scheduler.Scoring.{Candidate, default_weights}
use persistent_atp.Mathproof.Scheduler.Frontier.{
  PlannerView, build_frontier, move_candidate, claim_candidate, has_favorable_verdict,
  run_has_open_checkpoint,
}
use persistent_atp.Mathproof.Scheduler.Frontier.Eligible.{Eligible}
use persistent_atp.Mathproof.Scheduler.Frontier.Exact.{build_frontier-Eligible}
use persistent_atp.Mathproof.Scheduler.LeaseNext.{Lease, Setup, Answer, answers, lease_next}
use persistent_atp.Mathproof.Scheduler.LeaseNext.Choice.{Picks}
use persistent_atp.Mathproof.Scheduler.LeaseNext.Picks.{lease_next-Picks}
use persistent_atp.Mathproof.Scheduler.LeaseNext.Progress.{lease_next-leases}

abbrev node : String → String → String → NodeRecord
node id label status = record { node_id = id; label = label; fields = ("status", str status) ∷ [] }

abbrev nodes : List (String × NodeRecord)
nodes =
    ("p/rs-1", node "p/rs-1" "ResearchState" "open")
    ∷ ("p/rm-1", node "p/rm-1" "ResearchMove" "queued")
    ∷ ("p/c-1", node "p/c-1" "Claim" "provisional")
    ∷ []

abbrev proposal : EdgeRecord
proposal = record {
  edge_id = "p/e-1";
  rel_type = "PROPOSES";
  src_id = "p/rs-1";
  dst_id = "p/rm-1";
  fields = [];
}

abbrev view : ReadView
view = record {
  node = λ id. lookup id nodes;
  edge = λ id. none;
  edges_from = λ id rel.
      if str_eq id "p/rs-1" then (if str_eq rel "PROPOSES" then proposal ∷ [] else []) else [];
  edges_to = λ id rel. [];
}

abbrev planner : PlannerView
planner = record { view = view; nodes = some (map (λ e. e.0) nodes) }

abbrev frontier : List (Candidate Thousandths)
frontier = move_candidate "p/rs-1" "p/rm-1" ∷ claim_candidate "p/c-1" 0 ∷ []

frontier_of_view : build_frontier planner "p" ≡ some frontier
unfolding build_frontier lookup has_favorable_verdict run_has_open_checkpoint
frontier_of_view = refl

build_frontier-Eligible_example :
    (ids : List String) × (planner.nodes ≡ some ids)
    × ((m : String)
        → Eligible view "p" ids m ↔ ((c : Candidate Thousandths) × In c frontier × (c.move_id ≡ m)))
build_frontier-Eligible_example = build_frontier-Eligible planner "p" frontier frontier_of_view

abbrev setup : Setup Thousandths
setup = record {
  view = planner;
  policy = record { name = "global-best-first-v1"; weights = default_weights };
  statistics = told ((false, "critic-task") ∷ []) [];
}

abbrev order : Order
order = record { worker_class = "critic"; ttl_seconds = 5 }

lease_next-leases_example :
    (lease : Lease Thousandths) × (s : Store) × (lease_next granted granted setup "p" order 0 0 0
        empty_store
      ≡ (answers (some lease), s))
unfolding lookup expire_due_leases next_lease_id
lease_next-leases_example =
    lease_next-leases setup "p" order 0 0 0 empty_store frontier (claim_candidate "p/c-1" 0)
      frontier_of_view
      (refl, (refl, (refl, (refl, (refl, (refl, (refl, (refl, (refl, (refl, tt))))))))))
      (omega arith) refl (inr (inl refl)) (refl, refl)

told-counts_empty_example :
    (attempts "critic-task" (told ((false, "critic-task") ∷ (true, "formal-run") ∷ []) []) ≡ 1)
    × (outcomes "critic-task" "failed"
          (told ((false, "critic-task") ∷ (true, "formal-run") ∷ []) [])
        ≡ 1)
    × (outcomes "critic-task" "failed"
          (told ((false, "critic-task") ∷ (true, "formal-run") ∷ []) [])
        ≤ attempts "critic-task" (told ((false, "critic-task") ∷ (true, "formal-run") ∷ []) []))
told-counts_empty_example =
    told-counts_empty ((false, "critic-task") ∷ (true, "formal-run") ∷ []) "critic-task"

-- The critic's task is worth more to a critic than the move.
abbrev ended : Answer (Option (Lease Thousandths)) × Store
ended = lease_next granted granted setup "p" order 0 0 0 empty_store

abbrev answer : Answer (Option (Lease Thousandths)) → Option (Lease Thousandths)
answer (answers a) = a
answer _ = none

chosen : Option (Lease Thousandths) → String
chosen none = ""
chosen (some lease) = lease.selected_move_id

critic_first : chosen (answer ended.0) ≡ "p/c-1"
unfolding chosen lease_next active_leases dispatch_lease walk lookup insert expire_due_leases
    next_lease_id update_statistics
critic_first = refl

lease_next-Picks_example :
    Picks setup.statistics setup.policy order "p" frontier
      (expire_due_leases "p" 0 empty_store)
      (expire_due_leases "p" 0 (expire_due_leases "p" 0 empty_store))
      ended.1
      (answer ended.0)
unfolding lease_next active_leases dispatch_lease walk lookup insert expire_due_leases next_lease_id
    update_statistics
lease_next-Picks_example =
    lease_next-Picks thousandths_ordered granted granted setup "p" order 0 0 0 empty_store ended.1
      frontier (answer ended.0) frontier_of_view (λ c x i h. refl) refl
