-- ===== src/Mathproof/Soundness/Sound.antt =====
-- What the validator's silence means.
use persistent_atp.Prelude.{
  ℕ, String, true, false, not, Option, none, some, [], ◌∷◌, ◌++◌, any-false, ◌≡◌, refl, sym, ap,
  subst, ◌∙◌, arith, In-All, eq_of_some,
}
use persistent_atp.Json.{Value, value_eq, is_null}
use persistent_atp.Vocab.Labels.{contains}
use persistent_atp.Mathproof.Soundness.{
  SearchResult, ReplayResult, is_address, usable_hash, each, text_eq, is_one_of, check_hash,
  check_obstruction, check_environment, check_tactic_edges, is_closing, is_marked, check_mark,
  closure_of, check_states, check_closure_and_scores, check_replay, check_certificate,
  check_certificate_replay_binding, validate_formal_search_result, truth_like_annotations,
  replayed_status, replay_environment_mismatch,
}
use persistent_atp.Mathproof.Soundness.Accepts.{
  append-eq-nil, when-nil, stop-nil, each-nil, joined-nil, both-nil, not-false, text_eq-eq,
  eq-text_eq, In-contains, In-is_one_of,
}
use persistent_atp.Mathproof.Soundness.Checks.{
  IsSound, is_address-str, check_hash-nil, check_states-nil, reported, distinct, by_kernel, closes,
  edge-nil, fine_edge,
}

pub record Passes (r : SearchResult) : Type 0 where
  pub hash : check_hash r.environment_hash ≡ []
  pub obstructions : each (check_obstruction (usable_hash r.environment_hash)) 0 r.obstructions ≡ []
  pub edges : check_tactic_edges r ≡ []
  pub states : check_states r.tactic_edges 0 r.states ≡ some []
  pub certificate : check_certificate r.environment_hash r.disposition r.certificate ≡ []

validate-Passes : (r : SearchResult) → validate_formal_search_result r ≡ some [] → Passes r
unfolding validate_formal_search_result check_environment check_closure_and_scores
    check_certificate_replay_binding
validate-Passes r h =
    let (front, back) = joined-nil (check_environment r ++ check_tactic_edges r) _ h in
    let (env, edges) = append-eq-nil (check_environment r) (check_tactic_edges r) front in
    let (hash, obstructions) = append-eq-nil (check_hash r.environment_hash) _ env in
    let (closure, certificate) = both-nil (check_closure_and_scores r) _ back in
    let (failures, states) = joined-nil _ (check_states r.tactic_edges 0 r.states) closure in
    record {
      hash = hash;
      obstructions = obstructions;
      edges = edges;
      states = states;
      certificate = eq_of_some certificate;
    }

usable_hash-eq : (h : Value) → is_address h ≡ true → usable_hash h ≡ h
usable_hash-eq h a = rw (usable_hash, a) refl

check_mark-nil :
    (r : SearchResult) (k : ℕ) (id : Option String)
    → check_mark r.tactic_edges k id ≡ some []
    → (t : String) × (id ≡ some t) × (is_closing r.tactic_edges t ≡ true)
check_mark-nil r k none h = absurd (cc)
check_mark-nil r k (some t) h =
    (t, refl, not-false _ (when-nil (not (is_closing r.tactic_edges t)) _ _ (eq_of_some h)))

check_replay-nil :
    (h : Value) (status : Option String) (o : Option ReplayResult)
    → check_replay h status o ≡ []
    → (p : ReplayResult) × (o ≡ some p)
      × (p.status ≡ some (replayed_status status))
      × (is_null p.environment_hash ≡ false → value_eq p.environment_hash h ≡ true)
check_replay-nil h status none e = absurd (cc)
check_replay-nil h status (some p) e =
    let (same, rest) = stop-nil (not (text_eq p.status (some (replayed_status status)))) _ _ _ e in
    let apart = when-nil _ replay_environment_mismatch _ rest in
    (
      p,
      refl,
      text_eq-eq p.status (replayed_status status) (not-false _ same),
      λ named. ground (arith, named, apart),
    )

-- A result in which the validator finds nothing is sound. Its environment has a content address, and
-- every obstruction names it; each tactic declares as many goals as it lists, and these are distinct
-- and each a state of the result; a tactic that Lean accepted is not outside the kernel; no
-- annotation asserts truth; a state marked formally-closed or lean-verified has an id, and is the
-- source of a tactic of the kernel's that Lean accepted and that produced no goal; a certificate
-- marked replay-accepted or replay-rejected has a replay result, whose status is then
-- "replay-accepted" or "rejected", and whose environment, if it names one, is the result's; and a
-- result that awaits replay has a certificate.
pub validate_formal_search_result-IsSound :
    (r : SearchResult) → validate_formal_search_result r ≡ some [] → IsSound r
validate_formal_search_result-IsSound r h = record {
  address = is_address-str r.environment_hash addressed;
  same_environment = λ o m.
      let (k, e) =
        each-nil (check_obstruction (usable_hash r.environment_hash)) 0 o r.obstructions
          fine.obstructions m in
      let (known, e') = stop-nil (is_null o.environment_hash) _ _ _ e in
      let same =
        not-false (value_eq o.environment_hash (usable_hash r.environment_hash))
          (when-nil _ _ _ e') in
      subst (λ x. value_eq o.environment_hash x ≡ true)
        (usable_hash-eq r.environment_hash addressed) same;
  declared = λ e m.
      let (k, q) = fine_edge r fine.edges e m in
      let (a, b, c, d, g) = edge-nil r.states k e q in (a, b);
  complete = λ e m. (distinct r fine.edges e m, λ c i. reported r fine.edges e c m i);
  kernel = by_kernel r fine.edges;
  truthless = λ s a m i j.
      let (k, t, q) = check_states-nil r.tactic_edges 0 s r.states fine.states m in
      let none_true =
        any-false (contains truth_like_annotations) s.annotations (when-nil _ _ _ t) in
      let no =
        In-All (λ x. contains truth_like_annotations x ≡ false) a s.annotations none_true i in
      let yes = In-contains truth_like_annotations a j in absurd (ground (arith, no, yes));
  closed = λ s w m e i.
      let (k, t, q) = check_states-nil r.tactic_edges 0 s r.states fine.states m in
      let marked : is_marked s ≡ true =
        In-is_one_of ("formally-closed" ∷ "lean-verified" ∷ []) s.status w e i in
      let (id, at, closing) = check_mark-nil r k s.state_id (rw (closure_of, marked) at q) in
      (id, at, closes r fine.edges id closing);
  replayed = λ c w e q i.
      let claimed : is_one_of ("replay-accepted" ∷ "replay-rejected" ∷ []) c.status ≡ true =
        In-is_one_of ("replay-accepted" ∷ "replay-rejected" ∷ []) c.status w q i in
      let h' : check_certificate r.environment_hash r.disposition (some c) ≡ [] =
        ap (check_certificate r.environment_hash r.disposition) (sym e) ∙ fine.certificate in
      let (p, at, same, bound) =
        check_replay-nil r.environment_hash c.status c.replay_result
          (rw (check_certificate, claimed) at h') in
      (p, at, same ∙ ap (λ x. some (replayed_status x)) q, bound);
  certified = λ e q.
      let h' : check_certificate r.environment_hash r.disposition none ≡ [] =
        ap (check_certificate r.environment_hash r.disposition) (sym q) ∙ fine.certificate in
      let awaits = eq-text_eq r.disposition "proved-pending-replay" e in
      let no = when-nil (text_eq r.disposition (some "proved-pending-replay")) _ _ h' in
      absurd (ground (arith, awaits, no));
}
  where
    fine : Passes r
    fine = validate-Passes r h

    addressed : is_address r.environment_hash ≡ true
    addressed = check_hash-nil r.environment_hash fine.hash
