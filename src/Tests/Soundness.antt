-- ===== src/Tests/Soundness.antt =====
-- Search results.
use persistent_atp.Prelude.{
  String, In, ◌↔◌, true, is_some, Option, none, some, List, [], ◌∷◌, ◌≡◌, refl,
}
use persistent_atp.Json.{str, int, value_eq}
use persistent_atp.Decimal.{decimal}
use persistent_atp.Mathproof.Soundness.{
  SearchResult, TacticEdge, FormalState, Certificate, executor_failure_as_success,
  environment_stale, violation, promotion_without_replay, is_sha256, validate_formal_search_result,
  check_environment, check_tactic_edges, check_closure_and_scores, check_certificate_replay_binding,
  check_environment_staleness,
}
use persistent_atp.Mathproof.Soundness.Checks.{IsSound}
use persistent_atp.Mathproof.Soundness.Stale.{check_environment_staleness-IsAgainst, IsAgainst}
use persistent_atp.Mathproof.Soundness.Sound.{validate_formal_search_result-IsSound}

abbrev address : String
address = "sha256:0123456789abcdef0123456789abcdef0123456789abcdef0123456789abcdef"

-- A split into two goals, one of which is closed.
abbrev split : TacticEdge
split = record {
  source_state_id = some "p/fs-1";
  tactic_label = some "constructor";
  executor_result = some "lean-accepted";
  subgoal_count = int 2;
  produced_goal_ids = "p/fs-2" ∷ "p/fs-3" ∷ [];
}

abbrev closing : TacticEdge
closing = record {
  source_state_id = some "p/fs-2";
  tactic_label = some "rfl";
  executor_result = some "lean-accepted";
  subgoal_count = int 0;
  produced_goal_ids = [];
}

abbrev state : Option String → String → FormalState
state id status = record { state_id = id; status = some status; annotations = "depth" ∷ [] }

abbrev states : List FormalState
states =
    state (some "p/fs-1") "expanded"
    ∷ state (some "p/fs-2") "formally-closed"
    ∷ state (some "p/fs-3") "open"
    ∷ []

abbrev search : List TacticEdge → List FormalState → SearchResult
search edges states = record {
  environment_hash = str address;
  disposition = some "searching";
  obstructions = record { environment_hash = str address } ∷ [];
  states = states;
  tactic_edges = edges;
  certificate = none;
}

nothing_found : validate_formal_search_result (search (split ∷ closing ∷ []) states) ≡ some []
unfolding validate_formal_search_result check_environment check_tactic_edges
    check_closure_and_scores check_certificate_replay_binding is_sha256 value_eq
nothing_found = refl

-- The same search with a replayed certificate.
abbrev certified : String → SearchResult
certified status = record (search (split ∷ closing ∷ []) states) {
  certificate = some (record {
    declaration_id = none;
    environment_hash = str address;
    status = some "replay-accepted";
    replay_result = some (record { status = some status; environment_hash = str address });
  });
}

replayed : validate_formal_search_result (certified "replay-accepted") ≡ some []
unfolding validate_formal_search_result check_environment check_tactic_edges
    check_closure_and_scores check_certificate_replay_binding is_sha256 value_eq
replayed = refl

-- The status that the schema gives an accepted replay is refused.
refused_as_verified :
    validate_formal_search_result (certified "verified")
    ≡ some (violation promotion_without_replay "certificate.replay_result")
unfolding validate_formal_search_result check_environment check_tactic_edges
    check_closure_and_scores check_certificate_replay_binding is_sha256 value_eq
refused_as_verified = refl

validate_formal_search_result-IsSound_example : IsSound (certified "replay-accepted")
validate_formal_search_result-IsSound_example =
    validate_formal_search_result-IsSound (certified "replay-accepted") replayed

-- Another attempt at the state that Lean closed has timed out: a violation.
abbrev timed_out : TacticEdge
timed_out = record {
  source_state_id = some "p/fs-2";
  tactic_label = some "omega";
  executor_result = some "timeout";
  subgoal_count = int 0;
  produced_goal_ids = [];
}

refused_for_another_attempt :
    validate_formal_search_result (search (split ∷ closing ∷ timed_out ∷ []) states)
    ≡ some (record { reason = executor_failure_as_success; pointer = "tactic_edges[2]" } ∷ [])
unfolding validate_formal_search_result check_environment check_tactic_edges
    check_closure_and_scores check_certificate_replay_binding is_sha256 value_eq decimal
refused_for_another_attempt = refl

-- A closed state without an id is a KeyError.
key_error :
    validate_formal_search_result
      (search (split ∷ closing ∷ []) (state none "lean-verified" ∷ states))
    ≡ none
unfolding validate_formal_search_result check_environment check_tactic_edges
    check_closure_and_scores check_certificate_replay_binding is_sha256 value_eq
key_error = refl

abbrev made_under : String → Certificate
made_under environment = record {
  declaration_id = some "p/fd-1";
  environment_hash = str environment;
  status = some "candidate";
  replay_result = none;
}

drift :
    check_environment_staleness (made_under "a" ∷ made_under "b" ∷ []) (made_under "a")
    ≡ some (record { reason = environment_stale; pointer = "environment_hash" })
unfolding check_environment_staleness value_eq
drift = refl

check_environment_staleness-IsAgainst_example :
    (is_some (check_environment_staleness (made_under "a" ∷ made_under "b" ∷ []) (made_under "a"))
      ≡ true)
    ↔ ((prior : Certificate) × In prior (made_under "a" ∷ made_under "b" ∷ [])
        × IsAgainst (made_under "a") prior)
check_environment_staleness-IsAgainst_example =
    check_environment_staleness-IsAgainst (made_under "a" ∷ made_under "b" ∷ []) (made_under "a")
