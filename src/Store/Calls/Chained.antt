-- ===== src/Store/Calls/Chained.antt =====
-- Whatever the calls, every proof's chain verifies.
use persistent_atp.Prelude.{
  ℕ, String, List, [], ◌∷◌, ◌+◌, ◌≡◌, refl, sym, ◌∙◌, ap, Bool-cases, str_eq, eq_iff, inl, inr,
  true, false, if◌then◌else◌, length,
}
use persistent_atp.Json.{Json}
use persistent_atp.Gate.Proposal.{Proposal}
use persistent_atp.Store.{Store, JournalRow, Lock, ok, raises, hash_chain_error, empty_store}
use persistent_atp.Store.Head.{rows_of, genesis_hash}
use persistent_atp.Store.Journal.{append, verify_chain, verify_from}
use persistent_atp.Store.Journal.Cases.{append-cases}
use persistent_atp.Store.Journal.Append.{append-verify_chain}
use persistent_atp.Store.Calls.{Call, step, run}
use persistent_atp.Store.Calls.Grows.{Quiet, expire-Quiet}
use persistent_atp.Store.Calls.AppendOnly.{step-cases}

-- Every proof's chain verifies, with some number of events.
abbrev pub IsChained : (Json → String) → Store → Type 0
IsChained content_hash s = (pid : String) → (n : ℕ) × (verify_chain content_hash pid s ≡ ok n)

module _ (content_hash : Json → String) where
  pub empty-IsChained : IsChained content_hash empty_store
  unfolding verify_chain verify_from
  empty-IsChained pid = (0, refl)

  pub verify_chain-journal :
      (pid : String) (s t : Store)
      → t.journal ≡ s.journal
      → verify_chain content_hash pid t ≡ verify_chain content_hash pid s
  unfolding verify_chain
  verify_chain-journal pid s t e =
      ap
        (λ (j : List JournalRow).
          if verify_from content_hash 1 genesis_hash (rows_of pid j)
          then ok (length (rows_of pid j))
          else raises hash_chain_error)
        e

  Quiet-IsChained : (s t : Store) → IsChained content_hash s → Quiet s t → IsChained content_hash t
  Quiet-IsChained s t w q pid = ((w pid).0, verify_chain-journal pid s t q.journal ∙ (w pid).1)

  pub append-IsChained :
      (lock lock' : Lock) (p : Proposal) (due due' : ℕ) (s : Store)
      → IsChained content_hash s
      → IsChained content_hash (append content_hash lock lock' p due due' s).1
  append-IsChained lock lock' p due due' s w =
      append-cases content_hash (IsChained content_hash) lock lock' p due due' s w
        (Quiet-IsChained s _ w (expire-Quiet p.proof_id due' s))
        (λ a s' h pid.
          let n = (w p.proof_id).0 in
          let (_, _, _, _, own, others) =
            append-verify_chain content_hash lock lock' p due due' s s' n a.0 a.1 (w p.proof_id).1
              h in
          elim (Bool-cases (str_eq pid p.proof_id)) [
            | inl e ↦ (
              n + 1,
              ap (λ k. verify_chain content_hash k s') ((eq_iff pid p.proof_id).0 e) ∙ own,
            )
            | inr e ↦ (
              (w pid).0,
              others pid (λ q. let c : false ≡ true = sym e ∙ (eq_iff pid p.proof_id).1 q in cc)
                  ∙ (w pid).1,
            )
          ])

-- Whatever the calls, in whatever order and with whatever answers of locks and clocks: if every
-- proof's chain verifies before, every proof's chain verifies afterwards.
pub run-IsChained :
    (content_hash : Json → String) (cs : List Call) (s : Store)
    → IsChained content_hash s
    → IsChained content_hash (run content_hash s cs)
unfolding run
run-IsChained ch [] s w = w
run-IsChained ch (c ∷ cs) s w = run-IsChained ch cs (step ch s c) (
    step-cases ch (IsChained ch) s c (λ t. Quiet-IsChained ch s t w)
      (λ lock lock' p due due'. append-IsChained ch lock lock' p due due' s w))
