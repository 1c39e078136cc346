-- ===== src/Mathproof/Scheduler/Frontier/Exact.antt =====
-- The frontier holds what may be dispatched, and nothing else.
use persistent_atp.Prelude.{
  String, Bool, true, false, ◌&&◌, some, List, [], ◌∷◌, str_eq, if◌then◌else◌, length, flat_map,
  flat_map-In, In-flat_map, In, In-append, In-append_left, In-append_right, ◌≡◌, refl, sym, ap,
  subst, ◌∙◌, ◌↔◌, ◌⊎◌, inl, inr, arith, Option-cases, and_true, true_and, eq_of_some,
}
use persistent_atp.Gate.State.{ReadView, NodeRecord}
use persistent_atp.Mathproof.Scheduler.Numbers.{Float}
use persistent_atp.Mathproof.Scheduler.Scoring.{Candidate}
use persistent_atp.Mathproof.Scheduler.Frontier.{
  PlannerView, has_status, has_label, nodes_of, found, is_open_move, move_candidate, proposed,
  is_live_state, moves_of, is_ready, is_resumable, is_unreviewed, task_of, frontier_of,
  build_frontier, from_ids, declaration_candidate, run_candidate, claim_candidate,
}
use persistent_atp.Mathproof.Scheduler.Frontier.Eligible.{
  Known, Eligible, proposes, formalizes, resumes, reviews, has_status_iff, if-In, In-if, Known-iff,
  found-node,
}
use persistent_atp.Mathproof.Scheduler.Frontier.Queries.{
  has_label_iff, not-true, not_of, is_open_move-some, some-is_open_move, no_verdict,
  open_checkpoint, checkpoint_open,
}

only_one : {A : Type 0} (a x : A) → In x (a ∷ []) → a ≡ x
only_one a x (inl e) = e
only_one a x (inr m) = absurd m

branch :
    {A : Type 0} (b : Bool) (x : A) (xs ys : List A)
    → In x (if b then xs else ys)
    → ((b ≡ true) × In x xs) ⊎ ((b ≡ false) × In x ys)
branch true x xs ys m = inl (refl, m)
branch false x xs ys m = inr (refl, m)

In-then :
    {A : Type 0} (b : Bool) (x : A) (xs ys : List A)
    → b ≡ true
    → In x xs
    → In x (if b then xs else ys)
In-then b x xs ys h m = subst (λ c. In x (if c then xs else ys)) (sym h) m

In-else :
    {A : Type 0} (b : Bool) (x : A) (xs ys : List A)
    → b ≡ false
    → In x ys
    → In x (if b then xs else ys)
In-else b x xs ys h m = subst (λ c. In x (if c then xs else ys)) (sym h) m

not_ready :
    (r : NodeRecord) (label : String)
    → r.label ≡ label
    → str_eq label "FormalDeclaration" ≡ false
    → is_ready r ≡ false
not_ready r label l h =
    let ready = has_status ("aligned" ∷ "searching" ∷ []) r in
    ap (λ x. str_eq x "FormalDeclaration" && ready) l ∙ ap (λ b. b && ready) h

module _ {W : Type 0} ⦃f : Float W⦄ (view : ReadView) (pid : String) (ids : List String) where
  moves_of-Eligible :
      (c : Candidate W) (id : String) (state : NodeRecord)
      → In (id, state) (nodes_of view pid ids)
      → In c (moves_of view (nodes_of view pid ids) (id, state))
      → Eligible view pid ids c.move_id
  moves_of-Eligible c id state i m =
      let nodes = nodes_of view pid ids in
      let edges = view.edges_from id "PROPOSES" in
      let (live, k) =
        if-In (is_live_state state) c (flat_map (proposed {W = W} view nodes id) edges) m in
      let (l, s) = and_true (has_label "ResearchState" state) _ live in
      let (e, j, p) = flat_map-In (proposed view nodes id) c edges k in
      let target = found view nodes e.dst_id in
      let (o, q) = if-In (is_open_move target) c (move_candidate id e.dst_id ∷ []) p in
      let (r, n, lr, sr) = is_open_move-some target o in
      let at : e.dst_id ≡ c.move_id = ap (λ (x : Candidate W). x.move_id) (only_one _ c q) in
      let node : view.node c.move_id ≡ some r =
        subst (λ x. view.node x ≡ some r) at (sym (found-node view pid ids e.dst_id) ∙ n) in
      proposes id state e r ((Known-iff view pid ids id state).0 i)
        ((has_label_iff "ResearchState" state).0 l)
        (λ w. not-true _ s ((has_status_iff ("superseded" ∷ "refuted" ∷ "stale" ∷ []) state).1 w)) j
        at node lr sr

  task_of-Eligible :
      (c : Candidate W) (id : String) (r : NodeRecord)
      → Known view pid ids id r
      → In c (task_of view (id, r))
      → Eligible view pid ids c.move_id
  task_of-Eligible c id r known m =
      elim (branch (is_ready r) c (declaration_candidate id ∷ []) _ m) [
        | inl (h, q) ↦
            let (l, s) = and_true (has_label "FormalDeclaration" r) _ h in
            subst (Eligible view pid ids) (ap (λ (x : Candidate W). x.move_id) (only_one _ c q)) (
              formalizes r known ((has_label_iff "FormalDeclaration" r).0 l)
                ((has_status_iff ("aligned" ∷ "searching" ∷ []) r).0 s))
        | inr (h, m') ↦ elim (branch (has_label "FormalRun" r) c _ _ m') [
          | inl (l, q) ↦
              let (t, q') = if-In (is_resumable view id r) c (run_candidate id ∷ []) q in
              let (s, o) = and_true (has_status ("searching" ∷ []) r) _ t in
              let (e, n, g, st, i, k, j, k', w) = open_checkpoint view id o in
              subst (Eligible view pid ids) (ap (λ (x : Candidate W). x.move_id) (only_one _ c q'))
                (resumes r e n g st known ((has_label_iff "FormalRun" r).0 l)
                  ((has_status_iff ("searching" ∷ []) r).0 s) i k j k' w)
          | inr (l, m'') ↦
              let (l', q) = if-In (has_label "Claim" r) c _ m'' in
              let (t, q') = if-In (is_unreviewed view id r) c _ q in
              let (s, o) = and_true (has_status ("provisional" ∷ []) r) _ t in
              subst (Eligible view pid ids) (ap (λ (x : Candidate W). x.move_id) (only_one _ c q'))
                (reviews r known ((has_label_iff "Claim" r).0 l')
                  ((has_status_iff ("provisional" ∷ []) r).0 s)
                  ((no_verdict view id).0 (not-true _ o)))
        ]
      ]

  frontier_of-Eligible :
      (c : Candidate W)
      → In c (frontier_of view (nodes_of view pid ids))
      → Eligible view pid ids c.move_id
  frontier_of-Eligible c m =
      let nodes = nodes_of view pid ids in
      elim (In-append c (flat_map (moves_of view nodes) nodes) (flat_map (task_of view) nodes) m) [
        | inl l ↦
            let ((id, state), i, j) = flat_map-In (moves_of view nodes) c nodes l in
            moves_of-Eligible c id state i j
        | inr l ↦
            let ((id, r), i, j) = flat_map-In (task_of view) c nodes l in
            task_of-Eligible c id r ((Known-iff view pid ids id r).0 i) j
      ]

  task_of-frontier :
      (c : Candidate W) (id : String) (r : NodeRecord)
      → Known view pid ids id r
      → In c (task_of view (id, r))
      → In c (frontier_of view (nodes_of view pid ids))
  task_of-frontier c id r known m =
      let nodes = nodes_of view pid ids in
      In-append_right c (flat_map (moves_of view nodes) nodes) (flat_map (task_of view) nodes)
        (In-flat_map (task_of view) c (id, r) nodes ((Known-iff view pid ids id r).1 known) m)

  moves_of-frontier :
      (c : Candidate W) (id : String) (state : NodeRecord)
      → Known view pid ids id state
      → In c (moves_of view (nodes_of view pid ids) (id, state))
      → In c (frontier_of view (nodes_of view pid ids))
  moves_of-frontier c id state known m =
      let nodes = nodes_of view pid ids in
      In-append_left c (flat_map (moves_of view nodes) nodes) (flat_map (task_of view) nodes) (
        In-flat_map (moves_of view nodes) c (id, state) nodes
          ((Known-iff view pid ids id state).1 known) m)

  Eligible-frontier_of :
      (m : String)
      → Eligible view pid ids m
      → (c : Candidate W) × In c (frontier_of view (nodes_of view pid ids)) × (c.move_id ≡ m)
  Eligible-frontier_of m (proposes id state e r known l dead i at n lr sr) =
      let nodes = nodes_of view pid ids in
      let edges = view.edges_from id "PROPOSES" in
      let c : Candidate W = move_candidate id e.dst_id in
      let node : found view nodes e.dst_id ≡ some r =
        found-node view pid ids e.dst_id ∙ ap view.node at ∙ n in
      let one : In c (proposed view nodes id e) =
        In-if (is_open_move (found view nodes e.dst_id)) c (c ∷ [])
          (some-is_open_move (found view nodes e.dst_id) r node lr sr) (inl refl) in
      let live : is_live_state state ≡ true =
        true_and (has_label "ResearchState" state) _ ((has_label_iff "ResearchState" state).1 l) (
          not_of _
            (λ t. dead ((has_status_iff ("superseded" ∷ "refuted" ∷ "stale" ∷ []) state).0 t))) in
      (
        c,
        moves_of-frontier c id state known (
            In-if (is_live_state state) c _ live
              (In-flat_map (proposed view nodes id) c e edges i one)),
        at,
      )
  Eligible-frontier_of m (formalizes r known l s) =
      let c : Candidate W = declaration_candidate m in
      let ready : is_ready r ≡ true =
        true_and (has_label "FormalDeclaration" r) _ ((has_label_iff "FormalDeclaration" r).1 l)
          ((has_status_iff ("aligned" ∷ "searching" ∷ []) r).1 s) in
      (c, task_of-frontier c m r known (In-then (is_ready r) c (c ∷ []) _ ready (inl refl)), refl)
  Eligible-frontier_of m (resumes r e n g st known l s i k j k' w) =
      let c : Candidate W = run_candidate m in
      let resumable : is_resumable view m r ≡ true =
        true_and (has_status ("searching" ∷ []) r) _ ((has_status_iff ("searching" ∷ []) r).1 s)
          (checkpoint_open view m e n g st i k j k' w) in
      let here : In c (if is_resumable view m r then c ∷ [] else []) =
        In-if (is_resumable view m r) c (c ∷ []) resumable (inl refl) in
      (
        c,
        task_of-frontier c m r known (
            In-else (is_ready r) c _ _ (not_ready r "FormalRun" l refl)
              (In-then (has_label "FormalRun" r) c _ _ ((has_label_iff "FormalRun" r).1 l) here)),
        refl,
      )
  Eligible-frontier_of m (reviews r known l s free) =
      let c : Candidate W = claim_candidate m (length (view.edges_from m "DEPENDS_ON")) in
      let unreviewed : is_unreviewed view m r ≡ true =
        true_and (has_status ("provisional" ∷ []) r) _ ((has_status_iff ("provisional" ∷ []) r).1 s)
          (not_of _ ((no_verdict view m).1 free)) in
      let here : In c (if is_unreviewed view m r then c ∷ [] else []) =
        In-if (is_unreviewed view m r) c (c ∷ []) unreviewed (inl refl) in
      (
        c,
        task_of-frontier c m r known (
            In-else (is_ready r) c _ _ (not_ready r "Claim" l refl) (
              In-else (has_label "FormalRun" r) c _ _ (ap (λ x. str_eq x "FormalRun") l)
                (In-if (has_label "Claim" r) c _ ((has_label_iff "Claim" r).1 l) here))),
        refl,
      )

-- The frontier is built exactly from a view that lists its nodes. Each of its candidates may be
-- dispatched, and everything that may be dispatched is the move of one of its candidates.
pub build_frontier-Eligible :
    {W : Type 0} ⦃f : Float W⦄ (v : PlannerView) (pid : String) (cs : List (Candidate W))
    → build_frontier v pid ≡ some cs
    → (ids : List String) × (v.nodes ≡ some ids)
      × ((m : String) → Eligible v.view pid ids m ↔ ((c : Candidate W) × In c cs × (c.move_id ≡ m)))
unfolding build_frontier
build_frontier-Eligible v pid cs h = elim (Option-cases v.nodes) [
  | inl e ↦ absurd (ground (arith, e))
  | inr (ids, e) ↦
      let same : frontier_of v.view (nodes_of v.view pid ids) ≡ cs =
        eq_of_some (ap (from_ids v.view pid) (sym e) ∙ h) in
      (
        ids,
        e,
        λ m. (
          λ x.
              let (c, i, at) = Eligible-frontier_of v.view pid ids m x in
              (c, subst (In c) same i, at),
          λ (c, i, at).
              subst (Eligible v.view pid ids) at
                (frontier_of-Eligible v.view pid ids c (subst (In c) (sym same) i)),
        ),
      )
]
