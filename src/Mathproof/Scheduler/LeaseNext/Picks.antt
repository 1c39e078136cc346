-- ===== src/Mathproof/Scheduler/LeaseNext/Picks.antt =====
-- What lease_next picks.
use persistent_atp.Prelude.{
  ℕ, String, true, ◌≡◌, refl, sym, ap, ap₂, ◌∙◌, Option, none, some, List, keep, In,
}
use persistent_atp.Store.{Store, LeaseRow, Result, ok, raises, Lock}
use persistent_atp.Store.Write.{write-ok, ok_parts}
use persistent_atp.Store.Rows.{held_by, expire_due_leases}
use persistent_atp.Store.Leases.{Order, active_leases, active_body}
use persistent_atp.Mathproof.Scheduler.Numbers.{Float, IsOrdered}
use persistent_atp.Mathproof.Scheduler.Scoring.{Candidate}
use persistent_atp.Mathproof.Scheduler.Frontier.{build_frontier}
use persistent_atp.Mathproof.Scheduler.Ranking.{Scored, score_all}
use persistent_atp.Mathproof.Scheduler.LeaseNext.{
  Lease, answers, dispatched, Setup, scheduled, planned, lease_next,
}
use persistent_atp.Mathproof.Scheduler.LeaseNext.Choice.{Scores, Picks, dispatched-Picks}

-- The priorities of the frontier's candidates are numbers.
abbrev pub Numeric :
    {W : Type 0} ⦃f : Float W⦄ → IsOrdered W → Setup W → Order → List (Candidate W) → Type 0
Numeric laws u o cs =
    (c : Candidate _) (x : Scored _)
    → In c cs
    → Scores u.statistics u.policy o c x
    → laws.is_number x.priority ≡ true

-- Where no priority is NaN, a call that answers returns None with nothing written but the lapses, and
-- then an active lease covers the move of every candidate of the frontier as the scheduler looks or
-- as the store dispatches; or it returns a lease, with an active row of the proof in the table, on the
-- move of a candidate that none covers, and with its score, and no such candidate has a higher
-- priority.
pub lease_next-Picks :
    {W : Type 0} ⦃f : Float W⦄ (laws : IsOrdered W) (lock₁ lock₂ : Lock) (u : Setup W)
    (pid : String) (o : Order) (due₁ due₂ now : ℕ) (s s' : Store) (cs : List (Candidate W))
    (a : Option (Lease W))
    → build_frontier u.view pid ≡ some cs
    → Numeric laws u o cs
    → lease_next lock₁ lock₂ u pid o due₁ due₂ now s ≡ (answers a, s')
    → Picks u.statistics u.policy o pid cs
        (expire_due_leases pid due₁ s)
        (expire_due_leases pid due₂ (expire_due_leases pid due₁ s))
        s'
        a
unfolding lease_next active_leases
lease_next-Picks laws lock₁ lock₂ u pid o due₁ due₂ now s s' cs a e numbers h =
    looked (active_leases lock₁ pid due₁ s)
      (λ rows t r. ok_parts (write-ok lock₁ (active_body pid due₁) s t rows r)) h
  where
    dispatch :
        (t : Store) (xs : Option (List (Scored _)))
        → xs ≡ score_all u.statistics u.policy o.worker_class (keep (held_by pid) t.leases) cs
        → dispatched lock₂ u.policy.name pid o due₂ now t xs ≡ (answers a, s')
        → Picks u.statistics u.policy o pid cs t (expire_due_leases pid due₂ t) s' a
    dispatch t none q k = absurd (cc)
    dispatch t (some xs) q k =
        dispatched-Picks u.statistics u.policy o pid due₂ cs t laws lock₂ now numbers xs s' a
          (sym q) k

    looked :
        (r : Result (List LeaseRow) × Store)
        → ((rows : List LeaseRow) (t : Store)
            → r ≡ (ok rows, t)
            → (keep (held_by pid) (expire_due_leases pid due₁ s).leases ≡ rows)
              × (expire_due_leases pid due₁ s ≡ t))
        → planned lock₂ u pid o due₂ now r ≡ (answers a, s')
        → Picks u.statistics u.policy o pid cs
            (expire_due_leases pid due₁ s)
            (expire_due_leases pid due₂ (expire_due_leases pid due₁ s))
            s'
            a
    looked (raises x, t) p k = absurd (cc)
    looked (ok rows, t) p k =
        let lapsed = expire_due_leases pid due₁ s in
        let held = keep (held_by pid) lapsed.leases in
        dispatch lapsed (score_all u.statistics u.policy o.worker_class held cs) refl (
          ap (scheduled lock₂ u pid o due₂ now held lapsed) (sym e)
          ∙ ap₂ (λ r z. scheduled lock₂ u pid o due₂ now r z (build_frontier u.view pid))
              (p rows t refl).0 (p rows t refl).1
          ∙ k)
