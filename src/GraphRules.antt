-- ===== src/GraphRules.antt =====
-- neo4j_adapter/rules.py: the closure of moves and states. A graph is what the queries see of one proof,
-- the ids and statuses of its states and moves, and the pairs of ids that REQUIRES and PROPOSES join;
-- a query is read as the Cypher that it is, every status being there.
pub mod Fixpoint
use persistent_atp.Prelude.{
  ℕ, zero, suc, ◌+◌, String, Bool, true, false, not, ◌&&◌, ◌||◌, List, [], ◌∷◌, map, any, str_eq,
  ◌==◌, if◌then◌else◌,
}

pub record Graph : Type 0 where
  pub states : List (String × String)
  pub moves : List (String × String)
  pub requires : List (String × String)
  pub proposes : List (String × String)

abbrev pub is_closed : String → Bool
is_closed status = str_eq status "closed"

-- A move that is closed, and a state that the rules leave alone, and that blocks no move.
abbrev pub is_settled : String → Bool
is_settled status = str_eq status "formally-closed" || str_eq status "reopened"

-- exists { (m)-[:REQUIRES]->(sg) WHERE sg is not settled }
abbrev pub is_blocked : Graph → String → Bool
is_blocked g move =
    any
      (λ (r : String × String).
        str_eq r.0 move
        && any (λ (s : String × String). str_eq s.0 r.1 && not (is_settled s.1)) g.states)
      g.requires

abbrev pub is_complete : Graph → String × String → Bool
is_complete g m = not (is_closed m.1) && not (is_blocked g m.0)

-- exists { (st)-[:PROPOSES]->(m) WHERE m is closed }
abbrev pub is_reached : Graph → String → Bool
is_reached g state =
    any
      (λ (p : String × String).
        str_eq p.0 state && any (λ (m : String × String). str_eq m.0 p.1 && is_closed m.1) g.moves)
      g.proposes

abbrev pub is_solved : Graph → String × String → Bool
is_solved g s = not (is_settled s.1) && is_reached g s.0

-- SET status = … WHERE the test holds, and RETURN count
abbrev pub set_status :
    String → (String × String → Bool) → List (String × String) → List (String × String)
set_status status test [] = []
set_status status test (x ∷ xs) = (if test x then (x.0, status) else x) ∷ set_status status test xs

abbrev pub count_of : (String × String → Bool) → List (String × String) → ℕ
count_of test [] = 0
count_of test (x ∷ xs) = (if test x then 1 else 0) + count_of test xs

unfoldable pub close_moves : Graph → Graph
close_moves g = record g { moves = set_status "closed" (is_complete g) g.moves }

unfoldable pub close_states : Graph → Graph
close_states g = record g { states = set_status "formally-closed" (is_solved g) g.states }

-- r1 == 0 and r2 == 0
abbrev pub is_quiet : Graph → Bool
is_quiet g =
    (count_of (is_complete g) g.moves == 0) && (count_of (is_solved (close_moves g)) g.states == 0)

-- `_propagate_closures_tx`, of at most `max_iter` rounds
unfoldable pub propagate_closures : ℕ → Graph → Graph
unfolding close_moves close_states
propagate_closures zero g = g
propagate_closures (suc max_iter) g =
    let next = close_states (close_moves g) in
    let rest = propagate_closures max_iter next in if is_quiet g then next else rest
