-- ===== src/Tests.antt =====
-- Concrete inputs, on which the theorems are applied and the definitions run.
mod Journal
mod Leases
mod Gate
mod Views
mod Tactics
mod Histories
mod Ids
mod Scheduler
mod Soundness
mod Projector
mod Dispatch
mod GraphRules
use Prim.Native.String
use persistent_atp.Prelude.{ℕ, String, Option, none, some, List, [], ◌∷◌}
use persistent_atp.Json.{Json, Value, str, int, bool, obj, arr, member, scalar, num, null}
use persistent_atp.Gate.Ops.{Op, upsert_node, set_field, add_edge, Fields}
use persistent_atp.Gate.Proposal.{Proposal}
use persistent_atp.Gate.State.{ReadView}
use persistent_atp.Store.{Lock, granted, Store, empty_store}
use persistent_atp.Store.Leases.{Order}
use persistent_atp.Store.Calls.{Call, acquires, appends, releases, dispatches}

-- In place of a digest: the text before, with a mark.
abbrev pub toy_hash : Json → String
toy_hash (obj (member key (scalar (str prev)) rest)) = String.◌++◌ prev "x"
toy_hash _ = ""

-- A new claim, submitted at a base revision, under no lease or the one given.
abbrev pub new_claim : String → ℕ → Option String → Option ℕ → Proposal
new_claim claim base lease token = record {
  proof_id = "p";
  actor = "worker";
  worker_class = "prover";
  ops = upsert_node "Claim" claim (("status", str "conjectural") ∷ []) ∷ [];
  base_revision = some base;
  lease_id = lease;
  fencing_token = token;
}

abbrev pub first_claim : Proposal
first_claim = new_claim "p/c1" 0 none none

-- A lease, an append under it, a second lease that shuts it out, and a dispatch.
abbrev pub history : List Call
history =
    acquires granted "p" "l1" 60 0 0
    ∷ appends granted granted (new_claim "p/c1" 0 (some "l1") (some 1)) 1 1
    ∷ acquires granted "p" "l2" 60 2 2
    ∷ dispatches granted "p" (("p/m1", none) ∷ [])
        (record { worker_class = "prover"; ttl_seconds = 5 }) 3 3
    ∷ []

-- Before any commit.
abbrev pub nothing_committed : ReadView
nothing_committed = record {
  node = λ n. none;
  edge = λ e. none;
  edges_from = λ n rel. [];
  edges_to = λ n rel. [];
}
