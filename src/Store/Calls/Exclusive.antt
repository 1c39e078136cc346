-- ===== src/Store/Calls/Exclusive.antt =====
-- Whatever the calls, no move is held twice and no lease id or token is given twice.
use persistent_atp.Prelude.{ℕ, String, Option, List, [], ◌∷◌, sym, subst}
use persistent_atp.Json.{Json}
use persistent_atp.Gate.Proposal.{Proposal}
use persistent_atp.Gate.Reasons.{Reason}
use persistent_atp.Store.{Store, Lock}
use persistent_atp.Store.Write.{write-cases, ok_parts}
use persistent_atp.Store.Leases.Exclusive.{
  IsExclusive, acquire_lease-IsExclusive, issue_lease-IsExclusive, dispatch_lease-IsExclusive,
  release_lease-IsExclusive, active_leases-IsExclusive, expire-IsExclusive,
}
use persistent_atp.Store.Journal.{append, record_rejection, rejection_body}
use persistent_atp.Store.Journal.Cases.{append-cases}
use persistent_atp.Store.Journal.Inversion.{append-Appended}
use persistent_atp.Store.Journal.Append.{leased-cases, insert_row-ok}
use persistent_atp.Store.Calls.{
  Call, acquires, issues, dispatches, releases, lists, appends, records, step, run,
}

record_rejection-IsExclusive :
    (lock : Lock) (pid : String) (reason : Reason) (payload : Option Json) (s : Store)
    → IsExclusive s
    → IsExclusive (record_rejection lock pid reason payload s).1
unfolding record_rejection
record_rejection-IsExclusive lock pid reason payload s w =
    write-cases IsExclusive lock (rejection_body pid reason payload) s w
      (λ a s' e. subst IsExclusive (ok_parts e).1 w)

module _ (content_hash : Json → String) where
  append-IsExclusive :
      (lock lock' : Lock) (p : Proposal) (due due' : ℕ) (s : Store)
      → IsExclusive s
      → IsExclusive (append content_hash lock lock' p due due' s).1
  append-IsExclusive lock lock' p due due' s w =
      append-cases content_hash IsExclusive lock lock' p due due' s w
        (expire-IsExclusive p.proof_id due' s w)
        (λ a s' h.
          let f = append-Appended content_hash lock lock' p due due' s s' a.0 a.1 h in
          let w' =
            leased-cases IsExclusive p due s f.between w (expire-IsExclusive p.proof_id due s w)
              f.lease in
          subst IsExclusive (sym (insert_row-ok _ f.between s' f.inserted)) w')

  step-IsExclusive : (s : Store) (c : Call) → IsExclusive s → IsExclusive (step content_hash s c)
  unfolding step
  step-IsExclusive s (acquires lock pid lid ttl due now) w =
      acquire_lease-IsExclusive lock pid lid ttl due now s w
  step-IsExclusive s (issues lock pid lid move base o score due now) w =
      issue_lease-IsExclusive lock pid lid move base o score due now s w
  step-IsExclusive s (dispatches lock pid moves o due now) w =
      dispatch_lease-IsExclusive lock pid moves o due now s w
  step-IsExclusive s (releases lock pid lid) w = release_lease-IsExclusive lock pid lid s w
  step-IsExclusive s (lists lock pid now) w = active_leases-IsExclusive lock pid now s w
  step-IsExclusive s (appends lock lock' p due due') w =
      append-IsExclusive lock lock' p due due' s w
  step-IsExclusive s (records lock pid reason payload) w =
      record_rejection-IsExclusive lock pid reason payload s w

-- Whatever the calls, in whatever order and with whatever answers of locks and clocks: from a store
-- in which they are so, two leases of a proof always have different ids and different tokens, and
-- are never both active on one move.
pub run-IsExclusive :
    (content_hash : Json → String) (cs : List Call) (s : Store)
    → IsExclusive s
    → IsExclusive (run content_hash s cs)
unfolding run
run-IsExclusive ch [] s w = w
run-IsExclusive ch (c ∷ cs) s w = run-IsExclusive ch cs (step ch s c) (step-IsExclusive ch s c w)
