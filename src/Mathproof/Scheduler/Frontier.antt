-- ===== src/Mathproof/Scheduler/Frontier.antt =====
-- build_frontier. `nodes` stands for the ids that the view knows, in their order; a view that has no
-- such attribute has `none`, and the TypeError is `none` too.
pub mod Eligible
pub mod Queries
pub mod Exact
use Prim.Native.String
use text.Mathlib.Text.{starts_with}
use persistent_atp.Prelude.{
  ℕ, ◌+◌, String, Bool, true, false, not, ◌&&◌, ◌||◌, Option, none, some, List, [], ◌∷◌, ◌++◌,
  str_eq, if◌then◌else◌, lookup, length, any, flat_map, is_some,
}
use persistent_atp.Json.{Value}
use persistent_atp.Gate.State.{ReadView, NodeRecord, EdgeRecord}
use persistent_atp.Gate.Validate.Scan.{text_in}
use persistent_atp.Mathproof.Scheduler.Numbers.{Float, least}
use persistent_atp.Mathproof.Scheduler.Scoring.{Candidate}

pub record PlannerView : Type 0 where
  pub view : ReadView
  pub nodes : Option (List String)

-- record.fields.get("status") in (…)
abbrev pub value_in : List String → Option Value → Bool
value_in texts none = false
value_in texts (some v) = text_in texts v

abbrev pub has_status : List String → NodeRecord → Bool
has_status statuses r = value_in statuses (lookup "status" r.fields)

abbrev pub has_label : String → NodeRecord → Bool
has_label label r = str_eq r.label label

abbrev pub entry : String → Option NodeRecord → List (String × NodeRecord)
entry node_id none = []
entry node_id (some r) = (node_id, r) ∷ []

abbrev pub listed : ReadView → String → String → List (String × NodeRecord)
listed view pid node_id =
    if starts_with node_id (String.◌++◌ pid "/") then entry node_id (view.node node_id) else []

-- The dict of the proof's nodes.
abbrev pub nodes_of : ReadView → String → List String → List (String × NodeRecord)
nodes_of view pid ids = flat_map (listed view pid) ids

abbrev pub or_else : Option NodeRecord → Option NodeRecord → Option NodeRecord
or_else none other = other
or_else (some r) other = some r

-- nodes.get(id) or self._view.node(id)
abbrev pub found : ReadView → List (String × NodeRecord) → String → Option NodeRecord
found view nodes node_id = or_else (lookup node_id nodes) (view.node node_id)

abbrev pub is_open_move : Option NodeRecord → Bool
is_open_move none = false
is_open_move (some r) = has_label "ResearchMove" r && has_status ("queued" ∷ "open" ∷ []) r

abbrev pub is_favorable : Option NodeRecord → Bool
is_favorable none = false
is_favorable (some r) =
    has_label "Attempt" r
    && value_in ("critic" ∷ []) (lookup "worker_class" r.fields)
    && has_status ("supported" ∷ "critic-accepted" ∷ []) r

unfoldable pub has_favorable_verdict : ReadView → String → Bool
has_favorable_verdict view claim =
    any (λ (e : EdgeRecord). is_favorable (view.node e.src_id))
      (view.edges_to claim "REVIEWS_CLAIM")

abbrev pub is_open_state : Option NodeRecord → Bool
is_open_state none = false
is_open_state (some r) = has_status ("open" ∷ "expanded" ∷ []) r

abbrev pub is_open_checkpoint : ReadView → EdgeRecord → Bool
is_open_checkpoint view e =
    is_some (view.node e.dst_id)
    && any (λ (s : EdgeRecord). is_open_state (view.node s.dst_id))
        (view.edges_from e.dst_id "CHECKPOINT_FRONTIER")

unfoldable pub run_has_open_checkpoint : ReadView → String → Bool
run_has_open_checkpoint view run =
    any (is_open_checkpoint view) (view.edges_from run "HAS_CHECKPOINT")

-- A state that is neither superseded nor refuted nor stale.
abbrev pub is_live_state : NodeRecord → Bool
is_live_state r =
    has_label "ResearchState" r && not (has_status ("superseded" ∷ "refuted" ∷ "stale" ∷ []) r)

abbrev pub is_ready : NodeRecord → Bool
is_ready r = has_label "FormalDeclaration" r && has_status ("aligned" ∷ "searching" ∷ []) r

abbrev pub is_resumable : ReadView → String → NodeRecord → Bool
is_resumable view node_id r =
    has_status ("searching" ∷ []) r && run_has_open_checkpoint view node_id

abbrev pub is_unreviewed : ReadView → String → NodeRecord → Bool
is_unreviewed view node_id r =
    has_status ("provisional" ∷ []) r && not (has_favorable_verdict view node_id)

module _ {W : Type 0} ⦃f : Float W⦄ where
  abbrev pub move_candidate : String → String → Candidate W
  move_candidate state_id move_id = record {
    move_id = move_id;
    category = "research-move";
    detail = String.◌++◌ "proposed by " state_id;
    features =
        ("expected_information_gain", f.decimal 6 1)
        ∷ ("formalization_readiness", f.decimal 3 1)
        ∷ ("estimated_cost", f.decimal 10 1)
        ∷ [];
  }

  abbrev pub proposed :
      ReadView → List (String × NodeRecord) → String → EdgeRecord → List (Candidate W)
  proposed view nodes state_id e =
      if is_open_move (found view nodes e.dst_id) then move_candidate state_id e.dst_id ∷ [] else []

  abbrev pub moves_of :
      ReadView → List (String × NodeRecord) → String × NodeRecord → List (Candidate W)
  moves_of view nodes (state_id, state) =
      if is_live_state state
      then flat_map (proposed view nodes state_id) (view.edges_from state_id "PROPOSES")
      else []

  abbrev pub declaration_candidate : String → Candidate W
  declaration_candidate node_id = record {
    move_id = node_id;
    category = "formal-run";
    detail = "declaration ready for formal search";
    features =
        ("formalization_readiness", f.decimal 10 1)
        ∷ ("expected_theorem_impact", f.decimal 8 1)
        ∷ ("verification_value", f.decimal 7 1)
        ∷ ("estimated_cost", f.decimal 30 1)
        ∷ [];
  }

  abbrev pub run_candidate : String → Candidate W
  run_candidate node_id = record {
    move_id = node_id;
    category = "formal-run";
    detail = "searching run with an outstanding checkpoint";
    features =
        ("formalization_readiness", f.decimal 9 1)
        ∷ ("expected_theorem_impact", f.decimal 8 1)
        ∷ ("verification_value", f.decimal 7 1)
        ∷ ("estimated_cost", f.decimal 20 1)
        ∷ [];
  }

  abbrev pub claim_candidate : String → ℕ → Candidate W
  claim_candidate node_id dependencies = record {
    move_id = node_id;
    category = "critic-task";
    detail = "provisional claim awaiting a critic verdict";
    features =
        ("verification_value", f.decimal 9 1)
        ∷ (
          "dependency_centrality",
          least (f.decimal 10 1) (f.mul (f.decimal 25 2) (f.of_nat (dependencies + 1))),
        )
        ∷ ("estimated_cost", f.decimal 15 1)
        ∷ [];
  }

  -- The formal target or the critic task that a node is.
  abbrev pub task_of : ReadView → String × NodeRecord → List (Candidate W)
  task_of view (node_id, r) =
      if is_ready r
      then declaration_candidate node_id ∷ []
      else if has_label "FormalRun" r
      then (if is_resumable view node_id r then run_candidate node_id ∷ [] else [])
      else if has_label "Claim" r
      then (if is_unreviewed view node_id r
          then claim_candidate node_id (length (view.edges_from node_id "DEPENDS_ON")) ∷ []
          else [])
      else []

  abbrev pub frontier_of : ReadView → List (String × NodeRecord) → List (Candidate W)
  frontier_of view nodes = flat_map (moves_of view nodes) nodes ++ flat_map (task_of view) nodes

  abbrev pub from_ids : ReadView → String → Option (List String) → Option (List (Candidate W))
  from_ids view pid none = none
  from_ids view pid (some ids) = some (frontier_of view (nodes_of view pid ids))

  unfoldable pub build_frontier : PlannerView → String → Option (List (Candidate W))
  unfolding has_favorable_verdict run_has_open_checkpoint
  build_frontier v pid = from_ids v.view pid v.nodes
