-- ===== src/Commit/Audit.antt =====
-- commit_gate/gate.py: `_audit`, and what a refused proposal leaves behind.
use mathlib.Core.List.{append-nil, append_assoc}
use persistent_atp.Prelude.{
  ℕ, suc, String, Option, some, List, [], ◌∷◌, ◌++◌, map, ◌≡◌, refl, sym, ap, ◌∙◌, subst, ◌⊎◌, inl,
  inr,
}
use persistent_atp.Json.{Json}
use persistent_atp.Gate.Proposal.{Proposal, to_dict}
use persistent_atp.Gate.Reasons.{Reason, Rejection}
use persistent_atp.Gate.State.{ReadView}
use persistent_atp.Gate.Validate.{validate_proposal}
use persistent_atp.Store.{
  Store, RejectionRow, Lock, granted, busy_begin, busy_commit, concurrency, hash_chain_error,
  integrity_error, value_error, type_error, Result, ok, raises, write,
}
use persistent_atp.Store.Write.{write-cases, ok_parts}
use persistent_atp.Store.Journal.{record_rejection, rejection_body}
use persistent_atp.Commit.{audited, audit, answer, commit, decide, refusal}

record_rejection-journal :
    (lock : Lock) (pid : String) (r : Reason) (payload : Option Json) (s : Store)
    → (record_rejection lock pid r payload s).1.journal ≡ s.journal
unfolding record_rejection
record_rejection-journal lock pid r payload s =
    write-cases (λ t. t.journal ≡ s.journal) lock (rejection_body pid r payload) s refl
      (λ a t h. subst (λ u. u.journal ≡ s.journal) (ok_parts h).1 refl)

audited-journal :
    (x : Result ℕ × Store) (next : Store → Result (Unit {0}) × Store)
    → ((t : Store) → (next t).1.journal ≡ t.journal)
    → (audited x next).1.journal ≡ x.1.journal
audited-journal (ok row, s) next h = h s
audited-journal (raises (concurrency reason), s) next h = refl
audited-journal (raises hash_chain_error, s) next h = refl
audited-journal (raises integrity_error, s) next h = refl
audited-journal (raises value_error, s) next h = refl
audited-journal (raises type_error, s) next h = refl

-- The audit leaves the journal as it was.
pub audit-journal :
    (locks : ℕ → Lock) (i : ℕ) (pid : String) (payload : Json) (rs : List Rejection) (s : Store)
    → (audit locks i pid payload rs s).1.journal ≡ s.journal
unfolding audit
audit-journal locks i pid payload [] s = refl
audit-journal locks i pid payload (r ∷ rs) s =
    audited-journal (record_rejection (locks i) pid r.reason (some payload) s) _
      (audit-journal locks (suc i) pid payload rs)
    ∙ record_rejection-journal (locks i) pid r.reason (some payload) s

-- The log's row of a rejection.
abbrev pub logged : Proposal → Rejection → RejectionRow
logged p r = record { proof_id = p.proof_id; reason = r.reason; payload = some (to_dict p) }

Lock-cases : (l : Lock) → (l ≡ granted) ⊎ ((l ≡ busy_begin) ⊎ (l ≡ busy_commit))
Lock-cases granted = inl refl
Lock-cases busy_begin = inr (inl refl)
Lock-cases busy_commit = inr (inr refl)

append_log : Store → List RejectionRow → Store
append_log s rows = record s { rejections = s.rejections ++ rows }

-- The findings that are logged before the first transaction, counted from i, that is not granted.
abbrev pub until_busy : (ℕ → Lock) → ℕ → List Rejection → List Rejection
until_busy locks i [] = []
until_busy locks i (r ∷ rs) = elim (locks i) [
  | granted ↦ r ∷ until_busy locks (suc i) rs
  | busy_begin ↦ []
  | busy_commit ↦ []
]

audit-until_busy :
    (p : Proposal) (locks : ℕ → Lock) (i : ℕ) (rs : List Rejection) (s : Store)
    → audit locks i p.proof_id (to_dict p) rs s
      ≡ (ok tt, append_log s (map (logged p) (until_busy locks i rs)))
unfolding audit append_log record_rejection write
audit-until_busy p locks i [] s =
    ap (λ l. (ok tt, record s { rejections = l })) (sym (append-nil s.rejections))
audit-until_busy p locks i (r ∷ rs) s = elim (Lock-cases (locks i)) [
  | inl e ↦
      rw (e, until_busy)
        (audit-until_busy p locks (suc i) rs (append_log s (logged p r ∷ []))
          ∙ ap (λ l. (ok tt, record s { rejections = l }))
              (append_assoc s.rejections (logged p r ∷ [])
                (map (logged p) (until_busy locks (suc i) rs))))
  | inr (inl e) ↦
      rw (e, until_busy)
        (ap (λ l. (ok tt, record s { rejections = l })) (sym (append-nil s.rejections)))
  | inr (inr e) ↦
      rw (e, until_busy)
        (ap (λ l. (ok tt, record s { rejections = l })) (sym (append-nil s.rejections)))
]

-- However SQLite answers the transactions of the log, a proposal that the validators find something
-- against is answered with all they found; and the log gains one row that holds the proposal for each
-- of them, in their order, up to the first whose transaction is not granted. The store is otherwise
-- as it was.
pub refused-audit :
    (content_hash : Json → String) (locks : ℕ → Lock) (lock lock' : Lock) (p : Proposal)
    (view : ReadView) (due due' : ℕ) (s : Store) (r : Rejection) (rs : List Rejection)
    → validate_proposal p (some view) ≡ some (r ∷ rs)
    → commit content_hash locks lock lock' p view due due' s ≡ (
      ok (refusal (r ∷ rs)),
      record s { rejections = s.rejections ++ map (logged p) (until_busy locks 0 (r ∷ rs)) },
    )
unfolding commit decide append_log
refused-audit ch locks lock lock' p view due due' s r rs h =
    rw h (ap (answer (r ∷ rs)) (audit-until_busy p locks 0 (r ∷ rs) s))
