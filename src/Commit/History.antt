-- ===== src/Commit/History.antt =====
-- commit_gate/gate.py over commit_gate/store.py: histories in which the gate alone appends.
use persistent_atp.Prelude.{
  ℕ, String, some, [], ◌∷◌, ◌++◌, ◌≡◌, refl, sym, ap, ◌∙◌, subst, inl, inr, true, false, Bool, All,
  All-append,
}
use persistent_atp.Json.{Json}
use persistent_atp.Gate.Proposal.{Proposal, to_dict}
use persistent_atp.Gate.State.{ReadView}
use persistent_atp.Gate.Validate.{validate_proposal}
use persistent_atp.Store.{Store, empty_store, JournalRow, Lock, ok}
use persistent_atp.Store.Head.{head_row, head_of}
use persistent_atp.Store.Journal.{append, next_row}
use persistent_atp.Store.Journal.Inversion.{append-Appended}
use persistent_atp.Store.Journal.Append.{insert_row-ok, journal-leased}
use persistent_atp.Store.Calls.{
  Call, acquires, issues, dispatches, releases, lists, appends, records, step,
}
use persistent_atp.Store.Calls.Quiet.{
  acquire_lease-Quiet, issue_lease-Quiet, dispatch_lease-Quiet, release_lease-Quiet,
  active_leases-Quiet, record_rejection-Quiet,
}
use persistent_atp.Store.Calls.Chained.{
  IsChained, append-IsChained, verify_chain-journal, empty-IsChained,
}
use persistent_atp.Commit.{commit}
use persistent_atp.Commit.Accepts.{commit-IsQuiet, decide-accepted}

abbrev pub is_append : Call → Bool
is_append (appends lock lock' p due due') = true
is_append (acquires lock pid lid ttl due now) = false
is_append (issues lock pid lid move base o score due now) = false
is_append (dispatches lock pid moves o due now) = false
is_append (releases lock pid lid) = false
is_append (lists lock pid now) = false
is_append (records lock pid reason payload) = false

module _ (content_hash : Json → String) where
  -- The gate commits, or somebody calls the store for anything but an append.
  pub data Step (s t : Store) : Type 0 where
    submits :
        (locks : ℕ → Lock) (lock lock' : Lock) (p : Proposal) (view : ReadView) (due due' : ℕ)
        → (commit content_hash locks lock lock' p view due due' s).1 ≡ t
        → Step s t
    works : (c : Call) → is_append c ≡ false → step content_hash s c ≡ t → Step s t

  pub data Reaches (s : Store) : Store → Type 0 where
    here : Reaches s s
    later : {t u : Store} → Reaches s t → Step t u → Reaches s u

  works-journal :
      (s : Store) (c : Call) → is_append c ≡ false → (step content_hash s c).journal ≡ s.journal
  unfolding step
  works-journal s (appends lock lock' p due due') h = absurd (cc)
  works-journal s (acquires lock pid lid ttl due now) h =
      (acquire_lease-Quiet lock pid lid ttl due now s).journal
  works-journal s (issues lock pid lid move base o score due now) h =
      (issue_lease-Quiet lock pid lid move base o score due now s).journal
  works-journal s (dispatches lock pid moves o due now) h =
      (dispatch_lease-Quiet lock pid moves o due now s).journal
  works-journal s (releases lock pid lid) h = (release_lease-Quiet lock pid lid s).journal
  works-journal s (lists lock pid now) h = (active_leases-Quiet lock pid now s).journal
  works-journal s (records lock pid reason payload) h =
      (record_rejection-Quiet lock pid reason payload s).journal

  append-journal :
      (lock lock' : Lock) (p : Proposal) (due due' : ℕ) (s s' : Store) (a : ℕ × String)
      → append content_hash lock lock' p due due' s ≡ (ok a, s')
      → s'.journal
        ≡ s.journal ++ next_row content_hash p (head_of (head_row p.proof_id s.journal)) ∷ []
  append-journal lock lock' p due due' s s' a h =
      let f = append-Appended content_hash lock lock' p due due' s s' a.0 a.1 h in
      ap (λ x. x.journal) (insert_row-ok _ f.between s' f.inserted)
      ∙ ap (λ j. j ++ next_row content_hash p (head_of (head_row p.proof_id s.journal)) ∷ [])
          (journal-leased p due s f.between f.lease)

  -- A commit leaves the journal, or its proposal is clean and has been appended.
  commit-cases :
      (P : Store → Type 0) (locks : ℕ → Lock) (lock lock' : Lock) (p : Proposal) (view : ReadView)
      (due due' : ℕ) (s : Store)
      → let t = (commit content_hash locks lock lock' p view due due' s).1 in
        (t.journal ≡ s.journal → P t)
        → ((a : ℕ × String)
            → validate_proposal p (some view) ≡ some []
            → append content_hash lock lock' p due due' s ≡ (ok a, t)
            → P t)
        → P t
  unfolding commit
  commit-cases P locks lock lock' p view due due' s quiet appended =
      let x = commit content_hash locks lock lock' p view due due' s in
      elim (commit-IsQuiet content_hash locks lock lock' p view due due' s) [
        | inl same ↦ quiet same
        | inr (r, e, accepted) ↦
            let (clean, (a, done, _)) =
              decide-accepted content_hash locks lock lock' p due due' s
                (validate_proposal p (some view)) r x.1 (ap (λ y. (y, x.1)) e) accepted in
            appended a clean done
      ]

-- The row holds a proposal that the validators found nothing against, with some view.
abbrev pub IsVetted : JournalRow → Type 0
IsVetted row =
    (p : Proposal) × (view : ReadView) × (row.payload ≡ to_dict p)
    × (validate_proposal p (some view) ≡ some [])

module _ (content_hash : Json → String) where
  abbrev Kept : Store → Type 0
  Kept s = All IsVetted s.journal × IsChained content_hash s

  same-Kept : (s t : Store) → Kept s → t.journal ≡ s.journal → Kept t
  same-Kept s t (vetted, chained) e = (
    subst (All IsVetted) (sym e) vetted,
    λ pid. ((chained pid).0, verify_chain-journal content_hash pid s t e ∙ (chained pid).1),
  )

  Step-Kept : (s t : Store) → Kept s → Step content_hash s t → Kept t
  Step-Kept s t kept (works c other e) =
      same-Kept s t kept (ap (λ x. x.journal) (sym e) ∙ works-journal content_hash s c other)
  Step-Kept s t kept (submits locks lock lock' p view due due' e) = subst Kept e (
      commit-cases content_hash Kept locks lock lock' p view due due' s (same-Kept s _ kept)
        (λ a clean done. (
          subst (All IsVetted) (sym (append-journal content_hash lock lock' p due due' s _ a done))
              (All-append IsVetted s.journal _ kept.0 ((p, view, refl, clean), tt)),
          subst (IsChained content_hash) (ap (λ x. x.1) done)
              (append-IsChained content_hash lock lock' p due due' s kept.1),
        )))

-- In any store that commits of the gate and calls other than an append reach from the empty one,
-- each event of the journal holds a proposal against which the validators found nothing in some
-- view, and every proof's chain verifies.
pub reached-IsVetted :
    (content_hash : Json → String) (s : Store)
    → Reaches content_hash empty_store s
    → All IsVetted s.journal × IsChained content_hash s
reached-IsVetted ch _ here = (tt, empty-IsChained ch)
reached-IsVetted ch s (later {t = t} before last) =
    Step-Kept ch t s (reached-IsVetted ch t before) last
