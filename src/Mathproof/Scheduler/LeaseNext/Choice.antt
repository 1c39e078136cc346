-- ===== src/Mathproof/Scheduler/LeaseNext/Choice.antt =====
-- What a dispatch of the ranking picks.
use persistent_atp.Prelude.{
  ℕ, String, true, false, ◌≡◌, refl, sym, subst, ap, ◌∙◌, inl, inr, Option, none, some, List, ◌∷◌,
  ◌++◌, map, keep, arith, Bool-cases, In, All, In-All, All-In, In-append, In-append_right,
  In-mapped, eq_of_some,
}
use persistent_atp.Json.{Json}
use persistent_atp.Store.{Store, LeaseRow, Lock}
use persistent_atp.Store.Rows.{held_by, expire_due_leases}
use persistent_atp.Store.Leases.{Order, taken, dispatch_lease}
use persistent_atp.Store.Leases.Dispatch.{dispatch_lease-Grants}
use persistent_atp.Mathproof.Scheduler.Numbers.{Float, IsOrdered}
use persistent_atp.Mathproof.Scheduler.Statistics.{Outcomes}
use persistent_atp.Mathproof.Scheduler.Scoring.{Features, Candidate, SchedulerPolicy}
use persistent_atp.Mathproof.Scheduler.Ranking.{Scored, score_one, score_all, rank}
use persistent_atp.Mathproof.Scheduler.Ranking.Scores.{
  score_all-scored, scored-score_all, score_one-move,
}
use persistent_atp.Mathproof.Scheduler.Ranking.Order.{rank-In, NotBelow, Descends, rank-Descends}
use persistent_atp.Mathproof.Scheduler.LeaseNext.Outcome.{
  is_active_move-taken, Granted, Grants-none, Grants-some, Pairwise-after, leased-answers,
  Granted-split,
}
use persistent_atp.Mathproof.Scheduler.LeaseNext.{
  Lease, from_row, answers, encoded, snapshot_for, leased,
}

-- A candidate that no active lease covers, when the scheduler looks and when the store dispatches.
abbrev pub Free : String → Store → Store → String → Type 0
Free pid t u m = (taken pid t.leases m ≡ false) × (taken pid u.leases m ≡ false)

module _ {W : Type 0} ⦃f : Float W⦄ (d : Outcomes) (policy : SchedulerPolicy W) (o : Order) where
  -- The candidate's priority and snapshot.
  abbrev pub Scores : Candidate W → Scored W → Type 0
  Scores c x = score_one d policy o.worker_class c ≡ some x

  -- What a call answers with, from the frontier `cs`, the store `t` that it looks at and the store `u`
  -- that it dispatches from: None with no candidate free and nothing written, or a lease on a free
  -- candidate, none being better, with the score that it has.
  pub data Picks (pid : String) (cs : List (Candidate W)) (t u s' : Store)
      : Option (Lease W) → Type 0 where
    none_free :
        ((c : Candidate W) → In c cs → ¬ Free pid t u c.move_id) → s' ≡ u → Picks pid cs t u s' none
    best :
        (c : Candidate W) (x : Scored W) (row : LeaseRow)
        → In c cs
        → Free pid t u c.move_id
        → Scores c x
        → ((b : Candidate W) (y : Scored W)
            → In b cs
            → Free pid t u b.move_id
            → Scores b y
            → f.lt x.priority y.priority ≡ false)
        → row.selected_move_id ≡ some c.move_id
        → In row (keep (held_by pid) s'.leases)
        → Picks pid cs t u s' (some (from_row row x.snapshot policy.name))

  module _ (pid : String) (due : ℕ) (cs : List (Candidate W)) (t : Store) where
    abbrev u : Store
    u = expire_due_leases pid due t

    -- A free candidate's entry is in the ranking.
    ranked :
        (xs : List (Scored W)) (c : Candidate W)
        → score_all d policy o.worker_class (keep (held_by pid) t.leases) cs ≡ some xs
        → In c cs
        → taken pid t.leases c.move_id ≡ false
        → (x : Scored W) × In x (rank xs) × Scores c x
    ranked xs c h i free =
        let (x, m, at) =
          scored-score_all d policy o.worker_class (keep (held_by pid) t.leases) c cs xs h i
            (is_active_move-taken pid c.move_id t.leases ∙ free) in
        (x, (rank-In x xs).1 m, at)

    pub busy :
        (xs : List (Scored W))
        → score_all d policy o.worker_class (keep (held_by pid) t.leases) cs ≡ some xs
        → All (λ (e : String × Option Json). taken pid u.leases e.0 ≡ true) (map encoded (rank xs))
        → (c : Candidate W) → In c cs
        → ¬ Free pid t u c.move_id
    busy xs h all c i (free, free') =
        let (x, m, at) = ranked xs c h i free in
        let held : taken pid u.leases x.move_id ≡ true =
          In-All (λ (e : String × Option Json). taken pid u.leases e.0 ≡ true) (encoded x)
            (map encoded (rank xs)) all (In-mapped encoded x (rank xs) m) in
        let same : x.move_id ≡ c.move_id =
          score_one-move d policy o.worker_class (keep (held_by pid) t.leases) c x at in
        let c_held : taken pid u.leases c.move_id ≡ true =
          subst (λ z. taken pid u.leases z ≡ true) same held in
        absurd (ground (arith, c_held))

    module _ (laws : IsOrdered W) (lock : Lock) (now : ℕ)
        (numbers : (c : Candidate W) (x : Scored W)
          → In c cs
          → Scores c x
          → laws.is_number x.priority ≡ true) where
      descends :
          (xs : List (Scored W))
          → score_all d policy o.worker_class (keep (held_by pid) t.leases) cs ≡ some xs
          → Descends (rank xs)
      descends xs h = rank-Descends laws xs (
          All-In (λ (y : Scored W). laws.is_number y.priority ≡ true) xs
            (λ y i.
              let (c, j, free, s) =
                score_all-scored d policy o.worker_class (keep (held_by pid) t.leases) y cs xs h
                  i in
              numbers c y j s))

      beaten :
          (xs b : List (Scored W)) (x : Scored W) (a : List (Scored W)) (move : String)
          → score_all d policy o.worker_class (keep (held_by pid) t.leases) cs ≡ some xs
          → rank xs ≡ b ++ x ∷ a
          → x.move_id ≡ move
          → taken pid u.leases move ≡ false
          → ((y : Scored W) → In y b → taken pid u.leases y.move_id ≡ true)
          → (c : Candidate W) (y : Scored W) → In c cs
          → Free pid t u c.move_id
          → Scores c y
          → f.lt x.priority y.priority ≡ false
      beaten xs b x a move h split at free before c y i (free₁, free₂) s =
          let (z, m, s') = ranked xs c h i free₁ in
          let same : z ≡ y = eq_of_some (sym s' ∙ s) in
          let y_move : y.move_id ≡ c.move_id =
            score_one-move d policy o.worker_class (keep (held_by pid) t.leases) c y s in
          elim (In-append y b (x ∷ a)
            (subst (λ w. In w (b ++ x ∷ a)) same (subst (In z) split m))) [
              | inl j ↦
                  let held : taken pid u.leases c.move_id ≡ true =
                    subst (λ w. taken pid u.leases w ≡ true) y_move (before y j) in
                  absurd (ground (arith, held, free₂))
              | inr j ↦
                  behind y x a j
                    (Pairwise-after NotBelow b x a (subst Descends split (descends xs h)))
            ]
        where
          behind :
              (y x : Scored W) (a : List (Scored W))
              → In y (x ∷ a)
              → All (NotBelow x) a
              → NotBelow x y
          behind y x a (inl e) w = elim (Bool-cases (f.lt x.priority y.priority)) [
            | inr h ↦ h
            | inl h ↦
                let lt : f.lt x.priority x.priority ≡ true =
                  subst (λ (v : Scored W). f.lt x.priority v.priority ≡ true) (sym e) h in
                let ge = laws.lt-asym x.priority x.priority lt in absurd (ground (arith, lt, ge))
          ]
          behind y x a (inr m) w = In-All (NotBelow x) y a w m

      picked :
          (xs : List (Scored W)) (s' : Store) (row : LeaseRow) (snapshot : Features W)
          → score_all d policy o.worker_class (keep (held_by pid) t.leases) cs ≡ some xs
          → snapshot_for row.selected_move_id (rank xs) ≡ some snapshot
          → Granted pid (map encoded (rank xs)) u s' row
          → Picks pid cs t u s' (some (from_row row snapshot policy.name))
      picked xs s' row snapshot h found g =
          let (b, x, a, split, before, free, m, i, snap) = Granted-split pid u s' row (rank xs) g in
          let here : In x (rank xs) =
            subst (In x) (sym split) (In-append_right x b (x ∷ a) (inl refl)) in
          let (c, j, free', s) =
            score_all-scored d policy o.worker_class (keep (held_by pid) t.leases) x cs xs h
              ((rank-In x xs).0 here) in
          let move : x.move_id ≡ c.move_id =
            score_one-move d policy o.worker_class (keep (held_by pid) t.leases) c x s in
          let c_free : Free pid t u c.move_id = (
            sym (is_active_move-taken pid c.move_id t.leases) ∙ free',
            subst (λ z. taken pid u.leases z ≡ false) move free,
          ) in
          subst (λ z. Picks pid cs t u s' (some (from_row row z policy.name)))
            (eq_of_some (sym snap ∙ found))
            (best c x row j c_free s (beaten xs b x a x.move_id h split refl free before)
              (m ∙ ap some move) i)

      pub dispatched-Picks :
          (xs : List (Scored W)) (s' : Store) (a : Option (Lease W))
          → score_all d policy o.worker_class (keep (held_by pid) t.leases) cs ≡ some xs
          → leased policy.name
              (rank xs)
              (dispatch_lease lock pid (map encoded (rank xs)) o due now t)
            ≡ (answers a, s')
          → Picks pid cs t (expire_due_leases pid due t) s' a
      dispatched-Picks xs s' a h k =
          elim (leased-answers policy.name (rank xs)
            (dispatch_lease lock pid (map encoded (rank xs)) o due now t) a s' k) [
              | inl (r, e) ↦
                  let (all, same) =
                    Grants-none pid o now (map encoded (rank xs)) u s' none
                      (dispatch_lease-Grants lock pid (map encoded (rank xs)) o due now t s' none r)
                      refl in
                  subst (Picks pid cs t u s') (sym e) (none_free (busy xs h all) same)
              | inr (row, snapshot, r, found, e) ↦ subst (Picks pid cs t u s') (sym e) (
                  picked xs s' row snapshot h found (
                    Grants-some pid o now (map encoded (rank xs)) u s' (some row) row
                      (dispatch_lease-Grants lock pid (map encoded (rank xs)) o due now t s'
                        (some row) r)
                      refl))
            ]
