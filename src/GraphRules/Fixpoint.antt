-- ===== src/GraphRules/Fixpoint.antt =====
-- The rounds of the closure come to an end.
use persistent_atp.Prelude.{
  ℕ, zero, suc, ◌+◌, ◌<◌, String, Bool, true, false, not, List, [], ◌∷◌, ◌==◌, ==_iff, ◌≡◌, refl,
  sym, ap, subst, ◌∙◌, inl, inr, arith, Bool-cases, and_true,
}
use persistent_atp.GraphRules.{
  Graph, is_closed, is_settled, is_complete, is_solved, set_status, count_of, close_moves,
  close_states, is_quiet, propagate_closures,
}

abbrev pub is_open_move : String × String → Bool
is_open_move m = not (is_closed m.1)

abbrev pub is_open_state : String × String → Bool
is_open_state s = not (is_settled s.1)

-- The moves and states that are still to close.
abbrev pub pending : Graph → ℕ
pending g = count_of is_open_move g.moves + count_of is_open_state g.states

set_status-none :
    (status : String) (test : String × String → Bool) (xs : List (String × String))
    → count_of test xs ≡ 0
    → set_status status test xs ≡ xs
set_status-none status test [] h = refl
set_status-none status test (x ∷ xs) h = elim (Bool-cases (test x)) [
  | inl e ↦ absurd (ground (arith, e, h))
  | inr e ↦
      let none_left : count_of test xs ≡ 0 = ground (arith, e, h) in
      rw (set_status, e) (ap (◌∷◌ x) (set_status-none status test xs none_left))
]

-- What is closed is no longer open, where only open entries are closed.
count_of-set_status :
    (status : String) (test pends : String × String → Bool) (xs : List (String × String))
    → ((x : String × String) → test x ≡ true → pends x ≡ true)
    → ((id : String) → pends (id, status) ≡ false)
    → count_of pends (set_status status test xs) + count_of test xs ≡ count_of pends xs
count_of-set_status status test pends [] h k = omega arith
count_of-set_status status test pends (x ∷ xs) h k = elim (Bool-cases (test x)) [
  | inl e ↦ ground (arith, e, h x e, k x.0, count_of-set_status status test pends xs h k)
  | inr e ↦ ground (arith, e, count_of-set_status status test pends xs h k)
]

move_pends : (g : Graph) (x : String × String) → is_complete g x ≡ true → is_open_move x ≡ true
move_pends g x h = (and_true (is_open_move x) _ h).0

state_pends : (g : Graph) (x : String × String) → is_solved g x ≡ true → is_open_state x ≡ true
state_pends g x h = (and_true (is_open_state x) _ h).0

-- A round closes what it counts.
pending-round :
    (g : Graph)
    → pending (close_states (close_moves g))
        + count_of (is_complete g) g.moves
        + count_of (is_solved (close_moves g)) g.states
      ≡ pending g
unfolding close_moves close_states
pending-round g = omega (
  arith,
  count_of-set_status "closed" (is_complete g) is_open_move g.moves (move_pends g) (λ id. refl),
  count_of-set_status "formally-closed" (is_solved (close_moves g)) is_open_state g.states
      (state_pends (close_moves g)) (λ id. refl),
)

-- No rule closes anything more.
abbrev pub IsFixpoint : Graph → Type 0
IsFixpoint g = (count_of (is_complete g) g.moves ≡ 0) × (count_of (is_solved g) g.states ≡ 0)

quiet-same : (g : Graph) → is_quiet g ≡ true → (close_states (close_moves g) ≡ g) × IsFixpoint g
unfolding close_moves close_states
quiet-same g h =
    let (a, b) = and_true (count_of (is_complete g) g.moves == 0) _ h in
    let no_move = (==_iff (count_of (is_complete g) g.moves) 0).0 a in
    let no_state = (==_iff (count_of (is_solved (close_moves g)) g.states) 0).0 b in
    let moved : close_moves g ≡ g =
      ap (λ xs. record g { moves = xs })
        (set_status-none "closed" (is_complete g) g.moves no_move) in
    let no_state' : count_of (is_solved g) g.states ≡ 0 =
      subst (λ k. count_of (is_solved k) g.states ≡ 0) moved no_state in
    (
      ap close_states moved
          ∙ ap (λ xs. record g { states = xs })
              (set_status-none "formally-closed" (is_solved g) g.states no_state'),
      (no_move, no_state'),
    )

stops :
    (n : ℕ) (g : Graph)
    → is_quiet g ≡ true
    → propagate_closures (suc n) g ≡ close_states (close_moves g)
unfolding propagate_closures
stops n g e = rw (propagate_closures, e) refl

goes_on :
    (n : ℕ) (g : Graph)
    → is_quiet g ≡ false
    → propagate_closures (suc n) g ≡ propagate_closures n (close_states (close_moves g))
unfolding propagate_closures
goes_on n g e = rw (propagate_closures, e) refl

-- With more rounds than there are moves and states still to close, the closure ends in a graph in which
-- no rule closes anything more.
pub propagate_closures-IsFixpoint :
    (max_iter : ℕ) (g : Graph) → pending g < max_iter → IsFixpoint (propagate_closures max_iter g)
unfolding propagate_closures
propagate_closures-IsFixpoint zero g h = absurd (omega (arith, h))
propagate_closures-IsFixpoint (suc n) g h = elim (Bool-cases (is_quiet g)) [
  | inl e ↦ let (same, fixed) = quiet-same g e in subst IsFixpoint (sym (stops n g e ∙ same)) fixed
  | inr e ↦ subst IsFixpoint (sym (goes_on n g e)) (
      propagate_closures-IsFixpoint n (close_states (close_moves g))
        (ground (arith, e, pending-round g, h)))
]
