-- ===== src/Store/Calls/AppendOnly.antt =====
-- Every call only adds to the journal, the lease events and the rejections.
use mathlib.Core.List.{append-nil}
use persistent_atp.Prelude.{ℕ, String, List, [], ◌∷◌, refl, sym, subst}
use persistent_atp.Json.{Json}
use persistent_atp.Gate.Proposal.{Proposal}
use persistent_atp.Store.{Store, Lock}
use persistent_atp.Store.Journal.{append}
use persistent_atp.Store.Journal.Cases.{append-cases}
use persistent_atp.Store.Journal.Inversion.{append-Appended}
use persistent_atp.Store.Journal.Append.{leased-cases, insert_row-ok}
use persistent_atp.Store.Calls.{
  Call, acquires, issues, dispatches, releases, lists, appends, records, step, run,
}
use persistent_atp.Store.Calls.Grows.{
  Extends, Extends-refl, Extends-trans, Quiet, Quiet-Extends, expire-Quiet,
}
use persistent_atp.Store.Calls.Quiet.{
  acquire_lease-Quiet, issue_lease-Quiet, dispatch_lease-Quiet, release_lease-Quiet,
  active_leases-Quiet, record_rejection-Quiet,
}

module _ (content_hash : Json → String) where
  append-Extends :
      (lock lock' : Lock) (p : Proposal) (due due' : ℕ) (s : Store)
      → Extends s (append content_hash lock lock' p due due' s).1
  append-Extends lock lock' p due due' s =
      append-cases content_hash (Extends s) lock lock' p due due' s (Extends-refl s)
        (Quiet-Extends s _ (expire-Quiet p.proof_id due' s))
        (λ a s' h.
          let f = append-Appended content_hash lock lock' p due due' s s' a.0 a.1 h in
          let b = f.between in
          let e =
            leased-cases (Extends s) p due s b (Extends-refl s)
              (Quiet-Extends s _ (expire-Quiet p.proof_id due s)) f.lease in
          subst (Extends s) (sym (insert_row-ok _ b s' f.inserted)) (
            Extends-trans s b _ e (record {
              journal = (_, refl);
              events = ([], sym (append-nil b.lease_events));
              rejections = ([], sym (append-nil b.rejections));
            })))

  -- A call that is not an append is quiet.
  pub step-cases :
      (P : Store → Type 0) (s : Store) (c : Call)
      → ((t : Store) → Quiet s t → P t)
      → ((lock lock' : Lock) (p : Proposal) (due due' : ℕ)
          → P (append content_hash lock lock' p due due' s).1)
      → P (step content_hash s c)
  unfolding step
  step-cases P s (acquires lock pid lid ttl due now) q f =
      q _ (acquire_lease-Quiet lock pid lid ttl due now s)
  step-cases P s (issues lock pid lid move base o score due now) q f =
      q _ (issue_lease-Quiet lock pid lid move base o score due now s)
  step-cases P s (dispatches lock pid moves o due now) q f =
      q _ (dispatch_lease-Quiet lock pid moves o due now s)
  step-cases P s (releases lock pid lid) q f = q _ (release_lease-Quiet lock pid lid s)
  step-cases P s (lists lock pid now) q f = q _ (active_leases-Quiet lock pid now s)
  step-cases P s (appends lock lock' p due due') q f = f lock lock' p due due'
  step-cases P s (records lock pid reason payload) q f =
      q _ (record_rejection-Quiet lock pid reason payload s)

  step-Extends : (s : Store) (c : Call) → Extends s (step content_hash s c)
  step-Extends s c =
      step-cases (Extends s) s c (Quiet-Extends s)
        (λ lock lock' p due due'. append-Extends lock lock' p due due' s)

-- Whatever the calls, the journal, the lease events and the rejections of the store afterwards are
-- those of before with rows added behind: no row is changed, moved or lost.
pub run-Extends :
    (content_hash : Json → String) (cs : List Call) (s : Store) → Extends s (run content_hash s cs)
unfolding run
run-Extends ch [] s = Extends-refl s
run-Extends ch (c ∷ cs) s =
    Extends-trans s (step ch s c) _ (step-Extends ch s c) (run-Extends ch cs (step ch s c))
