-- ===== src/Mathproof/Soundness/Checks.antt =====
-- What a result without violations has, check by check.
use persistent_atp.Prelude.{
  and_three, ℕ, suc, String, true, false, not, ◌&&◌, Option, none, some, List, [], ◌∷◌, ltb, any,
  any-false, any-In, length, ◌≡◌, ◌≢◌, refl, subst, inl, inr, arith, In, In-All, Distinct,
}
use persistent_atp.Json.{Value, null, str, bool, num, int, value_eq, is_null}
use persistent_atp.Vocab.{non_kernel_tactics}
use persistent_atp.Mathproof.Soundness.{
  SearchResult, Obstruction, TacticEdge, FormalState, Certificate, ReplayResult, is_sha256,
  is_address, text_eq, check_hash, is_int, count, is_reported, is_non_kernel, is_accepted,
  check_tactic_edge, check_tactic_edges, no_goals, is_closing, check_truth, closure_of,
  check_states, truth_like_annotations, replayed_status,
}
use persistent_atp.Mathproof.Soundness.Accepts.{
  when-nil, stop-nil, each-nil, joined-nil, both-nil, not-false, text_eq-eq, eq-text_eq,
  In-is_one_of, count-Distinct, no_goals-length, length-zero,
}

-- Each goal that the tactic produced is a state of the result.
abbrev pub Reported : SearchResult → String → Type 0
Reported r c = (s : FormalState) × In s r.states × (s.state_id ≡ some c)

abbrev pub accepted : Option String
accepted = some "lean-accepted"

-- The state is the source of a tactic of the kernel's that Lean accepted and that left no goal.
abbrev pub Closes : SearchResult → String → Type 0
Closes r id =
    (e : TacticEdge) × In e r.tactic_edges
    × (e.source_state_id ≡ some id)
    × (e.executor_result ≡ accepted)
    × (e.produced_goal_ids ≡ [])
    × ((l : String) → e.tactic_label ≡ some l → ¬ In l non_kernel_tactics)

pub record IsSound (r : SearchResult) : Type 0 where
  pub address : (h : String) × (r.environment_hash ≡ str h) × (is_sha256 h ≡ true)
  pub same_environment :
      (o : Obstruction)
      → In o r.obstructions
      → value_eq o.environment_hash r.environment_hash ≡ true
  pub declared :
      (e : TacticEdge)
      → In e r.tactic_edges
      → (is_int e.subgoal_count ≡ true)
        × (value_eq (int (length e.produced_goal_ids)) e.subgoal_count ≡ true)
  pub complete :
      (e : TacticEdge)
      → In e r.tactic_edges
      → Distinct e.produced_goal_ids × ((c : String) → In c e.produced_goal_ids → Reported r c)
  pub kernel :
      (e : TacticEdge)
      → In e r.tactic_edges
      → e.executor_result ≡ accepted
      → (l : String) → e.tactic_label ≡ some l
      → ¬ In l non_kernel_tactics
  pub truthless :
      (s : FormalState) (a : String)
      → In s r.states
      → In a s.annotations
      → ¬ In a truth_like_annotations
  pub closed :
      (s : FormalState) (w : String)
      → In s r.states
      → s.status ≡ some w
      → In w ("formally-closed" ∷ "lean-verified" ∷ [])
      → (id : String) × (s.state_id ≡ some id) × Closes r id
  pub replayed :
      (c : Certificate) (w : String)
      → r.certificate ≡ some c
      → c.status ≡ some w
      → In w ("replay-accepted" ∷ "replay-rejected" ∷ [])
      → (p : ReplayResult) × (c.replay_result ≡ some p)
        × (p.status ≡ some (replayed_status (some w)))
        × (is_null p.environment_hash ≡ false
            → value_eq p.environment_hash r.environment_hash ≡ true)
  pub certified : r.disposition ≡ some "proved-pending-replay" → r.certificate ≢ none

pub is_address-str :
    (v : Value) → is_address v ≡ true → (h : String) × (v ≡ str h) × (is_sha256 h ≡ true)
is_address-str null h = absurd (cc)
is_address-str (bool b) h = absurd (cc)
is_address-str (num z k) h = absurd (cc)
is_address-str (str s) h = (s, refl, h)

pub check_hash-nil : (v : Value) → check_hash v ≡ [] → is_address v ≡ true
check_hash-nil v h =
    let (known, k) = stop-nil (is_null v) _ _ _ h in not-false (is_address v) (when-nil _ _ _ k)

module _ (states : List FormalState) where
  -- The five tests of an edge.
  pub edge-nil :
      (k : ℕ) (e : TacticEdge)
      → check_tactic_edge states k e ≡ []
      → (is_int e.subgoal_count ≡ true)
        × (value_eq (int (length e.produced_goal_ids)) e.subgoal_count ≡ true)
        × (any (λ c. ltb 1 (count e.produced_goal_ids c)) e.produced_goal_ids ≡ false)
        × (any (λ c. not (is_reported states c)) e.produced_goal_ids ≡ false)
        × ((is_non_kernel e && is_accepted e) ≡ false)
  edge-nil k e h =
      let (a, h₁) = stop-nil _ _ _ _ h in
      let (b, h₂) = stop-nil _ _ _ _ h₁ in
      let (c, h₃) = stop-nil _ _ _ _ h₂ in
      let (d, h₄) = stop-nil _ _ _ _ h₃ in (not-false _ a, not-false _ b, c, d, when-nil _ _ _ h₄)

pub check_states-nil :
    (edges : List TacticEdge) (i : ℕ) (s : FormalState) (states : List FormalState)
    → check_states edges i states ≡ some []
    → In s states
    → (k : ℕ) × (check_truth k s ≡ []) × (closure_of edges k s ≡ some [])
check_states-nil edges i s [] h m = absurd m
check_states-nil edges i s (t ∷ states) h (inl e) =
    let (a, b) = joined-nil _ _ (both-nil _ (check_states edges (suc i) states) h).0 in
    (i, subst (λ z. check_truth i z ≡ []) e a, subst (λ z. closure_of edges i z ≡ some []) e b)
check_states-nil edges i s (t ∷ states) h (inr m) =
    check_states-nil edges (suc i) s states (both-nil _ (check_states edges (suc i) states) h).1 m

module _ (r : SearchResult) (edges_fine : check_tactic_edges r ≡ []) where
  pub fine_edge :
      (e : TacticEdge) → In e r.tactic_edges → (k : ℕ) × (check_tactic_edge r.states k e ≡ [])
  unfolding check_tactic_edges
  fine_edge e m = each-nil (check_tactic_edge r.states) 0 e r.tactic_edges edges_fine m

  pub reported :
      (e : TacticEdge) (c : String) → In e r.tactic_edges → In c e.produced_goal_ids → Reported r c
  reported e c m i =
      let (k, h) = fine_edge e m in
      let (a, b, d, unknown, g) = edge-nil r.states k e h in
      let known : is_reported r.states c ≡ true = not-false _ (
        In-All (λ x. not (is_reported r.states x) ≡ false) c e.produced_goal_ids
          (any-false (λ x. not (is_reported r.states x)) e.produced_goal_ids unknown) i) in
      let (s, j, q) = any-In (λ (s : FormalState). text_eq s.state_id (some c)) r.states known in
      (s, j, text_eq-eq s.state_id c q)

  pub distinct : (e : TacticEdge) → In e r.tactic_edges → Distinct e.produced_goal_ids
  distinct e m =
      let (k, h) = fine_edge e m in
      let (a, b, once, u, g) = edge-nil r.states k e h in
      count-Distinct e.produced_goal_ids (λ c i.
        let low : ltb 1 (count e.produced_goal_ids c) ≡ false =
          In-All (λ x. ltb 1 (count e.produced_goal_ids x) ≡ false) c e.produced_goal_ids
            (any-false (λ x. ltb 1 (count e.produced_goal_ids x)) e.produced_goal_ids once) i in
        ground (arith, low))

  pub by_kernel :
      (e : TacticEdge)
      → In e r.tactic_edges
      → e.executor_result ≡ accepted
      → (l : String) → e.tactic_label ≡ some l
      → ¬ In l non_kernel_tactics
  by_kernel e m q l at i =
      let (k, h) = fine_edge e m in
      let (a, b, d, u, g) = edge-nil r.states k e h in
      let foreign : is_non_kernel e ≡ true =
        In-is_one_of non_kernel_tactics e.tactic_label l at i in
      let taken : is_accepted e ≡ true = eq-text_eq e.executor_result "lean-accepted" q in
      absurd (ground (arith, foreign, taken, g))

  pub closes : (id : String) → is_closing r.tactic_edges id ≡ true → Closes r id
  closes id h =
      let (e, m, q) =
        any-In
          (λ (x : TacticEdge). is_accepted x && no_goals x && text_eq x.source_state_id (some id))
          r.tactic_edges h in
      let (k, g) = fine_edge e m in
      let (a, b, d, u, w) = edge-nil r.states k e g in
      let (won, zeroed, source) = (and_three (is_accepted e) (no_goals e) _).0 q in
      let result = text_eq-eq e.executor_result "lean-accepted" won in
      (
        e,
        m,
        text_eq-eq e.source_state_id id source,
        result,
        length-zero e.produced_goal_ids
            (no_goals-length (length e.produced_goal_ids) e.subgoal_count b zeroed),
        by_kernel e m result,
      )
