-- ===== src/Mathproof/Scheduler/Frontier/Eligible.antt =====
-- The frontier against a description of what may be dispatched.
use Prim.Native.String
use text.Mathlib.Text.{starts_with}
use persistent_atp.Prelude.{
  String, Bool, true, false, Option, none, some, List, [], ◌∷◌, str_eq, eq_iff, eq_refl,
  if◌then◌else◌, lookup, any-In, In-any, flat_map-In, In-flat_map, In, ◌≡◌, refl, sym, ap, ap₂,
  subst, ◌∙◌, ◌↔◌, inl, inr, Bool-cases, Option-cases, eq_of_some,
}
use persistent_atp.Json.{Value, str, num, null, bool}
use persistent_atp.Vocab.Labels.{contains}
use persistent_atp.Gate.State.{ReadView, NodeRecord, EdgeRecord}
use persistent_atp.Gate.Validate.Scan.{text_in}
use persistent_atp.Mathproof.Scheduler.Frontier.{
  has_status, listed, nodes_of, found, or_else, entry, value_in,
}

abbrev pub StatusIn : List String → NodeRecord → Type 0
StatusIn statuses r = (s : String) × (lookup "status" r.fields ≡ some (str s)) × In s statuses

-- A critic's verdict in a claim's favour.
abbrev pub Verdict : NodeRecord → Type 0
Verdict r =
    (r.label ≡ "Attempt")
    × (lookup "worker_class" r.fields ≡ some (str "critic"))
    × StatusIn ("supported" ∷ "critic-accepted" ∷ []) r

abbrev pub Favors : ReadView → EdgeRecord → Type 0
Favors view e = (r : NodeRecord) × (view.node e.src_id ≡ some r) × Verdict r

-- A node of the proof.
abbrev pub Known : ReadView → String → List String → String → NodeRecord → Type 0
Known view pid ids id r =
    In id ids × (starts_with id (String.◌++◌ pid "/") ≡ true) × (view.node id ≡ some r)

-- What may be dispatched: a queued or open move that a live state of the proof proposes, a
-- declaration ready for search, a searching run with an open state at a checkpoint, a provisional
-- claim that no critic favours.
pub data Eligible (view : ReadView) (pid : String) (ids : List String) (m : String) : Type 0 where
  proposes :
      (id : String) (state : NodeRecord) (e : EdgeRecord) (r : NodeRecord)
      → Known view pid ids id state
      → state.label ≡ "ResearchState"
      → ¬ StatusIn ("superseded" ∷ "refuted" ∷ "stale" ∷ []) state
      → In e (view.edges_from id "PROPOSES")
      → e.dst_id ≡ m
      → view.node m ≡ some r
      → r.label ≡ "ResearchMove"
      → StatusIn ("queued" ∷ "open" ∷ []) r
      → Eligible view pid ids m
  formalizes :
      (r : NodeRecord)
      → Known view pid ids m r
      → r.label ≡ "FormalDeclaration"
      → StatusIn ("aligned" ∷ "searching" ∷ []) r
      → Eligible view pid ids m
  resumes :
      (r : NodeRecord) (e : EdgeRecord) (checkpoint : NodeRecord) (g : EdgeRecord) (s : NodeRecord)
      → Known view pid ids m r
      → r.label ≡ "FormalRun"
      → StatusIn ("searching" ∷ []) r
      → In e (view.edges_from m "HAS_CHECKPOINT")
      → view.node e.dst_id ≡ some checkpoint
      → In g (view.edges_from e.dst_id "CHECKPOINT_FRONTIER")
      → view.node g.dst_id ≡ some s
      → StatusIn ("open" ∷ "expanded" ∷ []) s
      → Eligible view pid ids m
  reviews :
      (r : NodeRecord)
      → Known view pid ids m r
      → r.label ≡ "Claim"
      → StatusIn ("provisional" ∷ []) r
      → ((e : EdgeRecord) → In e (view.edges_to m "REVIEWS_CLAIM") → ¬ Favors view e)
      → Eligible view pid ids m

contains-In : (xs : List String) (s : String) → contains xs s ≡ true → In s xs
contains-In xs s h =
    let (x, i, e) = any-In (λ y. str_eq y s) xs h in subst (λ y. In y xs) ((eq_iff x s).0 e) i

In-contains : (xs : List String) (s : String) → In s xs → contains xs s ≡ true
In-contains xs s i = In-any (λ y. str_eq y s) s xs i (eq_refl s)

text_in-some :
    (xs : List String) (v : Value) → text_in xs v ≡ true → (s : String) × (v ≡ str s) × In s xs
text_in-some xs (str s) h = (s, refl, contains-In xs s h)
text_in-some xs null h = absurd (cc)
text_in-some xs (bool b) h = absurd (cc)
text_in-some xs (num z k) h = absurd (cc)

pub value_in-some :
    (xs : List String) (o : Option Value)
    → value_in xs o ≡ true
    → (s : String) × (o ≡ some (str s)) × In s xs
value_in-some xs none h = absurd (cc)
value_in-some xs (some v) h = let (s, e, i) = text_in-some xs v h in (s, ap some e, i)

pub some-value_in :
    (xs : List String) (o : Option Value) (s : String)
    → o ≡ some (str s)
    → In s xs
    → value_in xs o ≡ true
some-value_in xs o s e i = ap (value_in xs) e ∙ In-contains xs s i

pub has_status_iff : (xs : List String) (r : NodeRecord) → (has_status xs r ≡ true) ↔ StatusIn xs r
has_status_iff xs r = (
  value_in-some xs (lookup "status" r.fields),
  λ w. some-value_in xs (lookup "status" r.fields) w.0 w.1 w.2,
)

entry-In :
    (j id : String) (o : Option NodeRecord) (r : NodeRecord)
    → In (id, r) (entry j o)
    → (j ≡ id) × (o ≡ some r)
entry-In j id none r m = absurd m
entry-In j id (some q) r (inl e) = (ap (λ p. p.0) e, ap (λ p. some p.1) e)
entry-In j id (some q) r (inr m) = absurd m

pub if-In :
    {A : Type 0} (b : Bool) (x : A) (xs : List A)
    → In x (if b then xs else [])
    → (b ≡ true) × In x xs
if-In true x xs m = (refl, m)
if-In false x xs m = absurd m

pub In-if :
    {A : Type 0} (b : Bool) (x : A) (xs : List A) → b ≡ true → In x xs → In x (if b then xs else [])
In-if b x xs h m = subst (λ c. In x (if c then xs else [])) (sym h) m

module _ (view : ReadView) (pid : String) (ids : List String) where
  pub Known-iff :
      (id : String) (r : NodeRecord) → In (id, r) (nodes_of view pid ids) ↔ Known view pid ids id r
  Known-iff id r = (
    knows,
    λ (i, p, n).
        In-flat_map (listed view pid) (id, r) id ids i
          (In-if (starts_with id (String.◌++◌ pid "/")) (id, r) (entry id (view.node id)) p
            (subst (λ o. In (id, r) (entry id o)) (sym n) (inl refl))),
  )
    where
      knows : In (id, r) (nodes_of view pid ids) → Known view pid ids id r
      knows m =
          let (j, i, l) = flat_map-In (listed view pid) (id, r) ids m in
          let (p, k) =
            if-In (starts_with j (String.◌++◌ pid "/")) (id, r) (entry j (view.node j)) l in
          let (e, n) = entry-In j id (view.node j) r k in
          (
            subst (λ x. In x ids) e i,
            subst (λ x. starts_with x (String.◌++◌ pid "/") ≡ true) e p,
            subst (λ x. view.node x ≡ some r) e n,
          )

  lookup-In :
      (id : String) (r : NodeRecord) (nodes : List (String × NodeRecord))
      → lookup id nodes ≡ some r
      → In (id, r) nodes
  unfolding lookup
  lookup-In id r [] h = absurd (cc)
  lookup-In id r ((j, q) ∷ nodes) h = elim (Bool-cases (str_eq j id)) [
    | inl e ↦ inl (ap₂ (λ x y. (x, y)) ((eq_iff j id).0 e) (eq_of_some (rw e at h)))
    | inr e ↦ inr (lookup-In id r nodes (rw e at h))
  ]

  pub found-node : (id : String) → found view (nodes_of view pid ids) id ≡ view.node id
  found-node id = elim (Option-cases (lookup id (nodes_of view pid ids))) [
    | inl e ↦ ap (λ o. or_else o (view.node id)) e
    | inr (r, e) ↦
        ap (λ o. or_else o (view.node id)) e
        ∙ sym ((Known-iff id r).0 (lookup-In id r (nodes_of view pid ids) e)).2
  ]
