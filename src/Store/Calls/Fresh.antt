-- ===== src/Store/Calls/Fresh.antt =====
-- Whatever the calls, a fencing token that was given is never given again.
use persistent_atp.Prelude.{ℕ, String, Option, List, [], ◌∷◌, ◌<◌, ◌≡◌, sym, subst, arith}
use persistent_atp.Json.{Json}
use persistent_atp.Gate.Proposal.{Proposal}
use persistent_atp.Gate.Reasons.{Reason}
use persistent_atp.Store.{Store, Lock, ok}
use persistent_atp.Store.Write.{write-cases, ok_parts}
use persistent_atp.Store.Leases.{acquire_lease}
use persistent_atp.Store.Leases.Tokens.{
  Rises, Rises-refl, Rises-trans, expire-Rises, acquire_lease-token, acquire_lease-Rises,
  issue_lease-Rises, dispatch_lease-Rises, release_lease-Rises, active_leases-Rises,
}
use persistent_atp.Store.Journal.{append, record_rejection, rejection_body}
use persistent_atp.Store.Journal.Cases.{append-cases}
use persistent_atp.Store.Journal.Inversion.{append-Appended}
use persistent_atp.Store.Journal.Append.{leased-cases, insert_row-ok}
use persistent_atp.Store.Calls.{
  Call, acquires, issues, dispatches, releases, lists, appends, records, step, run,
}

record_rejection-Rises :
    (lock : Lock) (pid : String) (reason : Reason) (payload : Option Json) (s : Store)
    → Rises s (record_rejection lock pid reason payload s).1
unfolding record_rejection
record_rejection-Rises lock pid reason payload s =
    write-cases (Rises s) lock (rejection_body pid reason payload) s (Rises-refl s)
      (λ a s' e. subst (Rises s) (ok_parts e).1 (record { at = λ q. omega arith }))

module _ (content_hash : Json → String) where
  append-Rises :
      (lock lock' : Lock) (p : Proposal) (due due' : ℕ) (s : Store)
      → Rises s (append content_hash lock lock' p due due' s).1
  append-Rises lock lock' p due due' s =
      append-cases content_hash (Rises s) lock lock' p due due' s (Rises-refl s)
        (expire-Rises p.proof_id due' s)
        (λ a s' h.
          let f = append-Appended content_hash lock lock' p due due' s s' a.0 a.1 h in
          let w =
            leased-cases (Rises s) p due s f.between (Rises-refl s) (expire-Rises p.proof_id due s)
              f.lease in
          subst (Rises s) (sym (insert_row-ok _ f.between s' f.inserted))
            (record { at = λ q. w.at q }))

  step-Rises : (s : Store) (c : Call) → Rises s (step content_hash s c)
  unfolding step
  step-Rises s (acquires lock pid lid ttl due now) = acquire_lease-Rises lock pid lid ttl due now s
  step-Rises s (issues lock pid lid move base o score due now) =
      issue_lease-Rises lock pid lid move base o score due now s
  step-Rises s (dispatches lock pid moves o due now) =
      dispatch_lease-Rises lock pid moves o due now s
  step-Rises s (releases lock pid lid) = release_lease-Rises lock pid lid s
  step-Rises s (lists lock pid now) = active_leases-Rises lock pid now s
  step-Rises s (appends lock lock' p due due') = append-Rises lock lock' p due due' s
  step-Rises s (records lock pid reason payload) = record_rejection-Rises lock pid reason payload s

  pub run-Rises : (cs : List Call) (s : Store) → Rises s (run content_hash s cs)
  unfolding run
  run-Rises [] s = Rises-refl s
  run-Rises (c ∷ cs) s =
      Rises-trans s (step content_hash s c) _ (step-Rises s c)
        (run-Rises cs (step content_hash s c))

-- Two exclusive leases acquired on one proof, with any calls in between: the later has the greater
-- fencing token.
pub acquired_tokens_rise :
    (content_hash : Json → String) (lock lock' : Lock) (pid lid lid' : String)
    (ttl ttl' due now due' now' : ℕ) (s s₁ s₂ : Store) (cs : List Call) (token token' : ℕ)
    → acquire_lease lock pid lid ttl due now s ≡ (ok token, s₁)
    → acquire_lease lock' pid lid' ttl' due' now' (run content_hash s₁ cs) ≡ (ok token', s₂)
    → token < token'
acquired_tokens_rise ch lock lock' pid lid lid' ttl ttl' due now due' now' s s₁ s₂ cs token token' h
      k =
    omega (
      arith,
      (acquire_lease-token lock pid lid ttl due now s s₁ token h).1,
      (acquire_lease-token lock' pid lid' ttl' due' now' (run ch s₁ cs) s₂ token' k).0,
      (run-Rises ch cs s₁).at pid,
    )
