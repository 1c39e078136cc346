-- ===== src/Tests/GraphRules.antt =====
-- Small graphs of states and moves.
use persistent_atp.Prelude.{[], ◌∷◌, ◌≡◌, refl, arith}
use persistent_atp.GraphRules.{Graph, propagate_closures, close_moves, close_states}
use persistent_atp.GraphRules.Fixpoint.{IsFixpoint, propagate_closures-IsFixpoint}

-- s1 is to be solved by m1, which requires s2, which is solved by m2, which requires the closed s3.
abbrev chain : Graph
chain = record {
  states = ("s1", "open") ∷ ("s2", "open") ∷ ("s3", "formally-closed") ∷ [];
  moves = ("m1", "open") ∷ ("m2", "open") ∷ [];
  requires = ("m1", "s2") ∷ ("m2", "s3") ∷ [];
  proposes = ("s1", "m1") ∷ ("s2", "m2") ∷ [];
}

solved :
    (propagate_closures 64 chain).states
    ≡ ("s1", "formally-closed") ∷ ("s2", "formally-closed") ∷ ("s3", "formally-closed") ∷ []
unfolding propagate_closures close_moves close_states
solved = refl

-- One level closes in each round: a bound below the number of levels leaves the rest open.
cut_short :
    (propagate_closures 1 chain).states
    ≡ ("s1", "open") ∷ ("s2", "formally-closed") ∷ ("s3", "formally-closed") ∷ []
unfolding propagate_closures close_moves close_states
cut_short = refl

propagate_closures-IsFixpoint_example : IsFixpoint (propagate_closures 64 chain)
propagate_closures-IsFixpoint_example = propagate_closures-IsFixpoint 64 chain (omega arith)

-- A refuted move without subgoals is closed, and closes its state.
abbrev vacuous : Graph
vacuous = record {
  states = ("s1", "open") ∷ [];
  moves = ("m1", "refuted") ∷ [];
  requires = [];
  proposes = ("s1", "m1") ∷ [];
}

refuted_move_closes : (propagate_closures 64 vacuous).states ≡ ("s1", "formally-closed") ∷ []
unfolding propagate_closures close_moves close_states
refuted_move_closes = refl
