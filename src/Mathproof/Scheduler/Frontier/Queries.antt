-- ===== src/Mathproof/Scheduler/Frontier/Queries.antt =====
-- What the frontier's tests ask of the view.
use persistent_atp.Prelude.{
  String, Bool, true, false, not, Option, none, some, is_some, [], ◌∷◌, eq_iff, lookup, any-In,
  In-any, In, ◌≡◌, ◌≢◌, refl, sym, ap, ◌∙◌, ◌↔◌, inl, inr, arith, and_true, true_and, and_three,
  is_some-some,
}
use persistent_atp.Json.{Value, str}
use persistent_atp.Gate.State.{ReadView, NodeRecord, EdgeRecord}
use persistent_atp.Mathproof.Scheduler.Frontier.{
  has_status, has_label, value_in, is_open_move, is_favorable, has_favorable_verdict, is_open_state,
  is_open_checkpoint, run_has_open_checkpoint,
}
use persistent_atp.Mathproof.Scheduler.Frontier.Eligible.{
  StatusIn, Verdict, Favors, has_status_iff, value_in-some, some-value_in,
}

pub has_label_iff :
    (label : String) (r : NodeRecord) → (has_label label r ≡ true) ↔ (r.label ≡ label)
has_label_iff label r = eq_iff r.label label

pub not-true : (b : Bool) → not b ≡ true → b ≢ true
not-true b h e = absurd (ground arith)

pub not_of : (b : Bool) → b ≢ true → not b ≡ true
not_of true h = absurd (h refl)
not_of false h = refl

pub is_open_move-some :
    (o : Option NodeRecord)
    → is_open_move o ≡ true
    → (r : NodeRecord) × (o ≡ some r)
      × (r.label ≡ "ResearchMove")
      × StatusIn ("queued" ∷ "open" ∷ []) r
is_open_move-some none h = absurd (cc)
is_open_move-some (some r) h =
    let (l, s) = and_true (has_label "ResearchMove" r) (has_status ("queued" ∷ "open" ∷ []) r) h in
    (r, refl, (has_label_iff "ResearchMove" r).0 l, (has_status_iff ("queued" ∷ "open" ∷ []) r).0 s)

pub some-is_open_move :
    (o : Option NodeRecord) (r : NodeRecord)
    → o ≡ some r
    → r.label ≡ "ResearchMove"
    → StatusIn ("queued" ∷ "open" ∷ []) r
    → is_open_move o ≡ true
some-is_open_move o r e l s =
    ap is_open_move e
    ∙ true_and (has_label "ResearchMove" r) (has_status ("queued" ∷ "open" ∷ []) r)
        ((has_label_iff "ResearchMove" r).1 l) ((has_status_iff ("queued" ∷ "open" ∷ []) r).1 s)

is_open_state-some :
    (o : Option NodeRecord)
    → is_open_state o ≡ true
    → (r : NodeRecord) × (o ≡ some r) × StatusIn ("open" ∷ "expanded" ∷ []) r
is_open_state-some none h = absurd (cc)
is_open_state-some (some r) h = (r, refl, (has_status_iff ("open" ∷ "expanded" ∷ []) r).0 h)

critic : (o : Option Value) → (value_in ("critic" ∷ []) o ≡ true) ↔ (o ≡ some (str "critic"))
critic o = (only, λ e. some-value_in ("critic" ∷ []) o "critic" e (inl refl))
  where
    only : value_in ("critic" ∷ []) o ≡ true → o ≡ some (str "critic")
    only h =
        let (s, e, i) = value_in-some ("critic" ∷ []) o h in
        elim i [ inl q ↦ e ∙ ap (λ x. some (str x)) (sym q) | inr q ↦ absurd q ]

verdict : (r : NodeRecord) → (is_favorable (some r) ≡ true) ↔ Verdict r
verdict r = (
  λ h.
      let (l, w, s) = parts.0 h in
      (
        (has_label_iff "Attempt" r).0 l,
        (critic (lookup "worker_class" r.fields)).0 w,
        (has_status_iff ("supported" ∷ "critic-accepted" ∷ []) r).0 s,
      ),
  λ (l, w, s). parts.1 (
    (has_label_iff "Attempt" r).1 l,
    (critic (lookup "worker_class" r.fields)).1 w,
    (has_status_iff ("supported" ∷ "critic-accepted" ∷ []) r).1 s,
  ),
)
  where
    parts : (is_favorable (some r) ≡ true) ↔ (
        (has_label "Attempt" r ≡ true)
        × (value_in ("critic" ∷ []) (lookup "worker_class" r.fields) ≡ true)
        × (has_status ("supported" ∷ "critic-accepted" ∷ []) r ≡ true))
    parts =
        and_three (has_label "Attempt" r)
          (value_in ("critic" ∷ []) (lookup "worker_class" r.fields))
          (has_status ("supported" ∷ "critic-accepted" ∷ []) r)

is_favorable-some :
    (o : Option NodeRecord) → is_favorable o ≡ true → (r : NodeRecord) × (o ≡ some r) × Verdict r
is_favorable-some none h = absurd (cc)
is_favorable-some (some r) h = (r, refl, (verdict r).0 h)

some-is_favorable :
    (o : Option NodeRecord) (r : NodeRecord) → o ≡ some r → Verdict r → is_favorable o ≡ true
some-is_favorable o r e v = ap is_favorable e ∙ (verdict r).1 v

module _ (view : ReadView) where
  pub no_verdict :
      (claim : String)
      → (has_favorable_verdict view claim ≢ true)
        ↔ ((e : EdgeRecord) → In e (view.edges_to claim "REVIEWS_CLAIM") → ¬ Favors view e)
  unfolding has_favorable_verdict
  no_verdict claim = (
    λ h e i (r, n, v). h (
        In-any (λ (x : EdgeRecord). is_favorable (view.node x.src_id)) e
          (view.edges_to claim "REVIEWS_CLAIM") i (some-is_favorable (view.node e.src_id) r n v)),
    λ h t.
        let (e, i, p) =
          any-In (λ (x : EdgeRecord). is_favorable (view.node x.src_id))
            (view.edges_to claim "REVIEWS_CLAIM") t in
        h e i (is_favorable-some (view.node e.src_id) p),
  )

  pub open_checkpoint :
      (run : String)
      → run_has_open_checkpoint view run ≡ true
      → (e : EdgeRecord) × (c : NodeRecord) × (g : EdgeRecord) × (s : NodeRecord) × In e
          (view.edges_from run "HAS_CHECKPOINT")
        × (view.node e.dst_id ≡ some c)
        × In g (view.edges_from e.dst_id "CHECKPOINT_FRONTIER")
        × (view.node g.dst_id ≡ some s)
        × StatusIn ("open" ∷ "expanded" ∷ []) s
  unfolding run_has_open_checkpoint
  open_checkpoint run h =
      let (e, i, p) = any-In (is_open_checkpoint view) (view.edges_from run "HAS_CHECKPOINT") h in
      let (known, q) = and_true (is_some (view.node e.dst_id)) _ p in
      let (c, n) = is_some-some (view.node e.dst_id) known in
      let (g, j, t) =
        any-In (λ (x : EdgeRecord). is_open_state (view.node x.dst_id))
          (view.edges_from e.dst_id "CHECKPOINT_FRONTIER") q in
      let (s, m, w) = is_open_state-some (view.node g.dst_id) t in (e, c, g, s, i, n, j, m, w)

  pub checkpoint_open :
      (run : String) (e : EdgeRecord) (c : NodeRecord) (g : EdgeRecord) (s : NodeRecord)
      → In e (view.edges_from run "HAS_CHECKPOINT")
      → view.node e.dst_id ≡ some c
      → In g (view.edges_from e.dst_id "CHECKPOINT_FRONTIER")
      → view.node g.dst_id ≡ some s
      → StatusIn ("open" ∷ "expanded" ∷ []) s
      → run_has_open_checkpoint view run ≡ true
  unfolding run_has_open_checkpoint
  checkpoint_open run e c g s i n j m w =
      In-any (is_open_checkpoint view) e (view.edges_from run "HAS_CHECKPOINT") i (
        true_and (is_some (view.node e.dst_id)) _ (ap is_some n) (
          In-any (λ (x : EdgeRecord). is_open_state (view.node x.dst_id)) g
            (view.edges_from e.dst_id "CHECKPOINT_FRONTIER") j
            (ap is_open_state m ∙ (has_status_iff ("open" ∷ "expanded" ∷ []) s).1 w)))
