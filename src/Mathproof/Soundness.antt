-- ===== src/Mathproof/Soundness.antt =====
-- mathproof/soundness.py. Of a payload, what is read: ids, labels and statuses are texts, or `none`
-- where a key is missing; a missing list is empty, an empty dict is missing, and a null is `null`.
mod Payload
unfoldable pub use Payload.*
pub mod Accepts
pub mod Checks
pub mod Sound
pub mod Stale
use Prim.Native.Char.{Char, code}
use Prim.Native.String
use Prim.Native.String.{len, slice}
use text.Mathlib.Text.{starts_with}
use persistent_atp.Prelude.{
  ℕ, zero, suc, String, Bool, true, false, not, ◌&&◌, ◌||◌, Option, none, some, List, [], ◌∷◌, ◌++◌,
  str_eq, leb, ltb, any, length, if◌then◌else◌,
}
use persistent_atp.Json.{Value, null, str, bool, num, int, value_eq, is_null}
use persistent_atp.Vocab.{non_kernel_tactics, terminal_executor_failures}
use persistent_atp.Vocab.Labels.{contains}
use persistent_atp.Decimal.{decimal, at_end}

abbrev pub check_hash : Value → List SoundnessViolation
check_hash h =
    if is_null h
    then violation missing_environment_hash "environment_hash"
    else when (not (is_address h)) (violation malformed_environment_hash "environment_hash")

-- A malformed hash counts as none in what follows.
abbrev pub usable_hash : Value → Value
usable_hash h = if is_address h then h else null

abbrev pub check_obstruction : Value → ℕ → Obstruction → List SoundnessViolation
check_obstruction h index o =
    if is_null o.environment_hash
    then violation missing_environment_hash (indexed "obstructions" index)
    else when (not (value_eq o.environment_hash h)) (
        violation obstruction_environment_mismatch
          (below (indexed "obstructions" index) ".environment_hash"))

unfoldable pub check_environment : SearchResult → List SoundnessViolation
unfolding is_sha256
check_environment r =
    check_hash r.environment_hash
    ++ each (check_obstruction (usable_hash r.environment_hash)) 0 r.obstructions

-- isinstance(x, int), which a bool is
abbrev pub is_int : Value → Bool
is_int null = false
is_int (str s) = false
is_int (bool b) = true
is_int (num z zero) = true
is_int (num z (suc k)) = false

abbrev pub count : List String → String → ℕ
count [] c = 0
count (x ∷ xs) c = let rest = count xs c in if str_eq x c then suc rest else rest

abbrev pub is_reported : List FormalState → String → Bool
is_reported states c = any (λ (s : FormalState). text_eq s.state_id (some c)) states

-- str(label) in NON_KERNEL_TACTICS
abbrev pub is_non_kernel : TacticEdge → Bool
is_non_kernel e = is_one_of non_kernel_tactics e.tactic_label

abbrev pub is_accepted : TacticEdge → Bool
is_accepted e = text_eq e.executor_result (some "lean-accepted")

abbrev pub check_tactic_edge : List FormalState → ℕ → TacticEdge → List SoundnessViolation
check_tactic_edge states index e =
    let pointer = indexed "tactic_edges" index in
    if not (is_int e.subgoal_count)
    then violation subgoal_count_mismatch pointer
    else if not (value_eq (int (length e.produced_goal_ids)) e.subgoal_count)
    then violation omitted_subgoal pointer
    else if any (λ c. ltb 1 (count e.produced_goal_ids c)) e.produced_goal_ids
    then violation duplicated_subgoal pointer
    else if any (λ c. not (is_reported states c)) e.produced_goal_ids
    then violation unknown_child_state pointer
    else when (is_non_kernel e && is_accepted e) (violation non_kernel_closure pointer)

unfoldable pub check_tactic_edges : SearchResult → List SoundnessViolation
check_tactic_edges r = each (check_tactic_edge r.states) 0 r.tactic_edges

abbrev pub no_goals : TacticEdge → Bool
no_goals e = value_eq e.subgoal_count (int 0)

-- next((s.get("status") …), None)
abbrev pub status_of : List FormalState → Option String → Option String
status_of [] id = none
status_of (s ∷ states) id = if text_eq s.state_id id then s.status else status_of states id

abbrev pub check_failure : List FormalState → ℕ → TacticEdge → List SoundnessViolation
check_failure states index e =
    when
      (is_one_of terminal_executor_failures e.executor_result
        && no_goals e
        && text_eq (status_of states e.source_state_id) (some "formally-closed"))
      (violation executor_failure_as_success (indexed "tactic_edges" index))

-- state_id in closing
abbrev pub is_closing : List TacticEdge → String → Bool
is_closing edges id =
    any (λ (e : TacticEdge). is_accepted e && no_goals e && text_eq e.source_state_id (some id))
      edges

abbrev pub is_marked : FormalState → Bool
is_marked s = is_one_of ("formally-closed" ∷ "lean-verified" ∷ []) s.status

abbrev pub check_mark : List TacticEdge → ℕ → Option String → Option (List SoundnessViolation)
check_mark edges index none = none
check_mark edges index (some id) = some (
    when (not (is_closing edges id))
      (violation heuristic_closure_attempt (below (indexed "states" index) ".status")))

abbrev pub check_truth : ℕ → FormalState → List SoundnessViolation
check_truth index s =
    when (any (contains truth_like_annotations) s.annotations)
      (violation score_as_truth (below (indexed "states" index) ".annotations"))

-- `none` is the KeyError of a closed state without an id.
abbrev pub closure_of : List TacticEdge → ℕ → FormalState → Option (List SoundnessViolation)
closure_of edges index s = if is_marked s then check_mark edges index s.state_id else some []

abbrev pub joined :
    List SoundnessViolation → Option (List SoundnessViolation) → Option (List SoundnessViolation)
joined vs none = none
joined vs (some ws) = some (vs ++ ws)

abbrev pub both :
    Option (List SoundnessViolation)
    → Option (List SoundnessViolation)
    → Option (List SoundnessViolation)
both none other = none
both (some vs) other = joined vs other

abbrev pub check_states : List TacticEdge → ℕ → List FormalState → Option (List SoundnessViolation)
check_states edges index [] = some []
check_states edges index (s ∷ states) =
    both (joined (check_truth index s) (closure_of edges index s))
      (check_states edges (suc index) states)

unfoldable pub check_closure_and_scores : SearchResult → Option (List SoundnessViolation)
check_closure_and_scores r =
    joined (each (check_failure r.states) 0 r.tactic_edges) (check_states r.tactic_edges 0 r.states)

abbrev pub replayed_status : Option String → String
replayed_status status =
    if text_eq status (some "replay-accepted") then "replay-accepted" else "rejected"

abbrev pub check_replay : Value → Option String → Option ReplayResult → List SoundnessViolation
check_replay h status none = violation promotion_without_replay "certificate.status"
check_replay h status (some p) =
    if not (text_eq p.status (some (replayed_status status)))
    then violation promotion_without_replay "certificate.replay_result"
    else when (not (is_null p.environment_hash) && not (value_eq p.environment_hash h))
        (violation replay_environment_mismatch "certificate.replay_result.environment_hash")

abbrev pub check_certificate : Value → Option String → Option Certificate → List SoundnessViolation
check_certificate h disposition none =
    when (text_eq disposition (some "proved-pending-replay"))
      (violation certificate_required "certificate")
check_certificate h disposition (some c) =
    if is_one_of ("replay-accepted" ∷ "replay-rejected" ∷ []) c.status
    then check_replay h c.status c.replay_result
    else []

unfoldable pub check_certificate_replay_binding : SearchResult → List SoundnessViolation
check_certificate_replay_binding r =
    check_certificate r.environment_hash r.disposition r.certificate

unfoldable pub validate_formal_search_result : SearchResult → Option (List SoundnessViolation)
unfolding check_environment check_tactic_edges check_closure_and_scores
    check_certificate_replay_binding
validate_formal_search_result r =
    joined (check_environment r ++ check_tactic_edges r)
      (both (check_closure_and_scores r) (some (check_certificate_replay_binding r)))

-- Whether a certificate of the declaration was made under another environment.
abbrev pub drifts : Certificate → Certificate → Bool
drifts candidate prior =
    (text_eq candidate.declaration_id none || text_eq prior.declaration_id candidate.declaration_id)
    && not (is_null prior.environment_hash)
    && not (value_eq prior.environment_hash candidate.environment_hash)

unfoldable pub check_environment_staleness :
    List Certificate → Certificate → Option SoundnessViolation
check_environment_staleness [] candidate = none
check_environment_staleness (prior ∷ rest) candidate =
    if drifts candidate prior
    then some (record { reason = environment_stale; pointer = "environment_hash" })
    else check_environment_staleness rest candidate
