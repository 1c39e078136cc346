-- ===== src/Mathproof/Scheduler/Ranking/Scores.antt =====
-- The entries of the loop over the frontier are those of the candidates whose move is not active.
use persistent_atp.Prelude.{
  String, true, false, ◌≡◌, refl, sym, subst, ap, ◌∙◌, ◌⊎◌, inl, inr, Option, none, some, List, [],
  ◌∷◌, arith, Bool-cases, In, eq_of_some,
}
use persistent_atp.Store.{LeaseRow}
use persistent_atp.Mathproof.Scheduler.Numbers.{Float}
use persistent_atp.Mathproof.Scheduler.Statistics.{Outcomes}
use persistent_atp.Mathproof.Scheduler.Scoring.{
  Features, Candidate, SchedulerPolicy, score, feature_vector,
}
use persistent_atp.Mathproof.Scheduler.Ranking.{
  Scored, is_active_move, scored, score_one, add_scored, score_all,
}

module _ {W : Type 0} ⦃f : Float W⦄ (d : Outcomes) (policy : SchedulerPolicy W)
    (worker_class : String) (rows : List LeaseRow) where
  scored-move :
      (c : Candidate W) (p : Option (W × Features W)) (x : Scored W)
      → scored c p ≡ some x
      → x.move_id ≡ c.move_id
  scored-move c none x h = absurd (cc)
  scored-move c (some (w, s)) x h = ap (λ (y : Scored W). y.move_id) (sym (eq_of_some h))

  pub score_one-move :
      (c : Candidate W) (x : Scored W)
      → score_one d policy worker_class c ≡ some x
      → x.move_id ≡ c.move_id
  unfolding score_one
  score_one-move c x h = scored-move c (score policy (feature_vector d c worker_class)) x h

  add_scored-some :
      (o : Option (Scored W)) (rest : Option (List (Scored W))) (xs : List (Scored W))
      → add_scored o rest ≡ some xs
      → (y : Scored W) × (ys : List (Scored W)) × (o ≡ some y) × (rest ≡ some ys) × (y ∷ ys ≡ xs)
  add_scored-some none rest xs h = absurd (cc)
  add_scored-some (some y) none xs h = absurd (cc)
  add_scored-some (some y) (some ys) xs h = (y, ys, refl, refl, eq_of_some h)

  score_all-cons :
      (c : Candidate W) (cs : List (Candidate W)) (xs : List (Scored W))
      → score_all d policy worker_class rows (c ∷ cs) ≡ some xs
      → ((is_active_move rows c.move_id ≡ true)
          × (score_all d policy worker_class rows cs ≡ some xs))
        ⊎ ((is_active_move rows c.move_id ≡ false)
            × ((y : Scored W) × (ys : List (Scored W)) × (score_one d policy worker_class c
                  ≡ some y)
                × (score_all d policy worker_class rows cs ≡ some ys)
                × (y ∷ ys ≡ xs)))
  unfolding score_all
  score_all-cons c cs xs h = elim (Bool-cases (is_active_move rows c.move_id)) [
    | inl e ↦ inl (e, rw (score_all, e) at h)
    | inr e ↦ inr (e, add_scored-some _ _ xs (rw (score_all, e) at h))
  ]

  pub score_all-scored :
      (x : Scored W) (cs : List (Candidate W)) (xs : List (Scored W))
      → score_all d policy worker_class rows cs ≡ some xs
      → In x xs
      → (c : Candidate W) × In c cs
        × (is_active_move rows c.move_id ≡ false)
        × (score_one d policy worker_class c ≡ some x)
  unfolding score_all
  score_all-scored x [] xs h m = absurd (subst (In x) (sym (eq_of_some h)) m)
  score_all-scored x (c ∷ cs) xs h m = elim (score_all-cons c cs xs h) [
    | inl (e, k) ↦ let (c', i, free, at) = score_all-scored x cs xs k m in (c', inr i, free, at)
    | inr (e, (y, ys, at, k, same)) ↦
        pick e y ys at (subst (In x) (sym same) m) (λ n. score_all-scored x cs ys k n)
  ]
    where
      pick :
          is_active_move rows c.move_id ≡ false
          → (y : Scored W) (ys : List (Scored W)) → score_one d policy worker_class c ≡ some y
          → In x (y ∷ ys)
          → (In x ys
              → (c' : Candidate W) × In c' cs
                × (is_active_move rows c'.move_id ≡ false)
                × (score_one d policy worker_class c' ≡ some x))
          → (c' : Candidate W) × In c' (c ∷ cs)
            × (is_active_move rows c'.move_id ≡ false)
            × (score_one d policy worker_class c' ≡ some x)
      pick e y ys at (inl q) ih = (c, inl refl, e, at ∙ ap some q)
      pick e y ys at (inr n) ih = let (c', i, free, at') = ih n in (c', inr i, free, at')

  abbrev pub EntryIn : List (Scored W) → Candidate W → Type 0
  EntryIn zs c = (x : Scored W) × In x zs × (score_one d policy worker_class c ≡ some x)

  pub scored-score_all :
      (c : Candidate W) (cs : List (Candidate W)) (xs : List (Scored W))
      → score_all d policy worker_class rows cs ≡ some xs
      → In c cs
      → is_active_move rows c.move_id ≡ false
      → EntryIn xs c
  scored-score_all c [] xs h m free = absurd m
  scored-score_all c (b ∷ cs) xs h m free = elim (score_all-cons b cs xs h) [
    | inl (e, k) ↦ skipped e m (λ n. scored-score_all c cs xs k n free)
    | inr (e, (y, ys, at, k, same)) ↦ taken y ys at same m (λ n. scored-score_all c cs ys k n free)
  ]
    where
      skipped :
          is_active_move rows b.move_id ≡ true
          → In c (b ∷ cs)
          → (In c cs → EntryIn xs c)
          → EntryIn xs c
      skipped e (inl q) ih =
          let held : is_active_move rows c.move_id ≡ true =
            subst (λ (z : Candidate W). is_active_move rows z.move_id ≡ true) q e in
          absurd (ground (arith, held))
      skipped e (inr n) ih = ih n

      taken :
          (y : Scored W) (ys : List (Scored W))
          → score_one d policy worker_class b ≡ some y
          → y ∷ ys ≡ xs
          → In c (b ∷ cs)
          → (In c cs → EntryIn ys c)
          → EntryIn xs c
      taken y ys at same (inl q) ih =
          (y, subst (In y) same (inl refl), ap (score_one d policy worker_class) (sym q) ∙ at)
      taken y ys at same (inr n) ih = let (x, i, at') = ih n in (x, subst (In x) same (inr i), at')
