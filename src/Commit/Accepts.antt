-- ===== src/Commit/Accepts.antt =====
-- commit_gate/gate.py: an accepted proposal, and the journal.
use persistent_atp.Prelude.{
  ℕ, ◌+◌, String, Option, none, some, List, [], ◌∷◌, ◌≡◌, refl, sym, ap, ◌∙◌, arith, inl, inr, ◌⊎◌,
  true, subst,
}
use persistent_atp.Json.{Json}
use persistent_atp.Gate.Proposal.{Proposal, to_dict}
use persistent_atp.Gate.Reasons.{Rejection}
use persistent_atp.Gate.State.{ReadView}
use persistent_atp.Gate.Validate.{validate_proposal}
use persistent_atp.Store.{
  Store, JournalRow, Lock, concurrency, hash_chain_error, integrity_error, value_error, type_error,
  Result, ok, raises,
}
use persistent_atp.Store.Write.{Result-cases, eq_of_ok}
use persistent_atp.Store.Head.{head}
use persistent_atp.Store.Rows.{expire_due_leases}
use persistent_atp.Store.Journal.{append, verify_chain}
use persistent_atp.Store.Journal.Cases.{append-cases}
use persistent_atp.Store.Journal.Append.{append-verify_chain, Extended}
use persistent_atp.Commit.{
  audit, answer, refuse, commit, decide, settle, refusal, acceptance, lost, CommitResult,
}
use persistent_atp.Commit.Audit.{audit-journal}

answer-refuses :
    (rs : List Rejection) (x : Result (Unit {0}) × Store) (r : CommitResult) (s : Store)
    → answer rs x ≡ (ok r, s)
    → r.accepted ≡ true
    → ⊥
answer-refuses rs (ok u, t) r s h a = let q : ok (refusal rs) ≡ ok r = ap (λ y. y.0) h in cc
answer-refuses rs (raises e, t) r s h a = let q : raises e ≡ ok r = ap (λ y. y.0) h in cc

settle-accepted :
    (locks : ℕ → Lock) (p : Proposal) (x : Result (ℕ × String) × Store) (r : CommitResult)
    (s : Store)
    → settle locks p x ≡ (ok r, s)
    → r.accepted ≡ true
    → (event : ℕ × String) × (x ≡ (ok event, s)) × (r ≡ acceptance event)
unfolding settle
settle-accepted locks p (ok event, t) r s h a =
    (event, ap (λ u. (ok event, u)) (ap (λ y. y.1) h), sym (eq_of_ok (ap (λ y. y.0) h)))
settle-accepted locks p (raises (concurrency reason), t) r s h a =
    absurd (answer-refuses _ _ r s h a)
settle-accepted locks p (raises hash_chain_error, t) r s h a = absurd (ground arith)
settle-accepted locks p (raises integrity_error, t) r s h a = absurd (ground arith)
settle-accepted locks p (raises value_error, t) r s h a = absurd (ground arith)
settle-accepted locks p (raises type_error, t) r s h a = absurd (ground arith)

module _ (content_hash : Json → String) (locks : ℕ → Lock) (lock lock' : Lock) (p : Proposal)
    (due due' : ℕ) (s : Store) where
  pub decide-accepted :
      (found : Option (List Rejection)) (r : CommitResult) (s' : Store)
      → decide content_hash locks lock lock' p due due' found s ≡ (ok r, s')
      → r.accepted ≡ true
      → (found ≡ some [])
        × ((event : ℕ × String) × (append content_hash lock lock' p due due' s ≡ (ok event, s'))
            × (r ≡ acceptance event))
  unfolding decide
  decide-accepted none r s' h a = absurd (ground arith)
  decide-accepted (some []) r s' h a = (refl, settle-accepted locks p _ r s' h a)
  decide-accepted (some (x ∷ xs)) r s' h a = absurd (answer-refuses _ _ r s' h a)

-- If a proposal for a proof whose chain of n events verifies is accepted, the validators found
-- nothing against it, it was based on revision n or on none, and the journal is as it was but for
-- one row behind the others, which holds the proposal's journalled form, its actor and its class of
-- worker, under the answer's revision n + 1 and hash; these are the proof's head, and its chain is
-- one of n + 1 events that verifies.
pub accepted-verify_chain :
    (content_hash : Json → String) (locks : ℕ → Lock) (lock lock' : Lock) (p : Proposal)
    (view : ReadView) (due due' : ℕ) (s s' : Store) (n : ℕ) (r : CommitResult)
    → verify_chain content_hash p.proof_id s ≡ ok n
    → commit content_hash locks lock lock' p view due due' s ≡ (ok r, s')
    → r.accepted ≡ true
    → (validate_proposal p (some view) ≡ some [])
      × ((base : ℕ) → p.base_revision ≡ some base → base ≡ n)
      × ((hash : String) × (r ≡ acceptance (n + 1, hash))
          × Extended p (n + 1) hash s s'
          × (head p.proof_id s' ≡ (n + 1, hash)))
      × (verify_chain content_hash p.proof_id s' ≡ ok (n + 1))
unfolding commit
accepted-verify_chain ch locks lock lock' p view due due' s s' n r chained h a =
    let (clean, ((revision, hash), appended, answered)) =
      decide-accepted ch locks lock lock' p due due' s _ r s' h a in
    let (based, numbered, extended, headed, longer, rest) =
      append-verify_chain ch lock lock' p due due' s s' n revision hash chained appended in
    (
      clean,
      based,
      (
        hash,
        answered ∙ ap (λ k. acceptance (k, hash)) numbered,
        subst (λ k. Extended p k hash s s') numbered extended,
        headed ∙ ap (λ k. (k, hash)) numbered,
      ),
      longer,
    )

answer-store : (rs : List Rejection) (x : Result (Unit {0}) × Store) → (answer rs x).1 ≡ x.1
answer-store rs (ok u, t) = refl
answer-store rs (raises e, t) = refl

refuse-journal :
    (locks : ℕ → Lock) (p : Proposal) (rs : List Rejection) (s : Store)
    → (refuse locks p rs s).1.journal ≡ s.journal
refuse-journal locks p rs s =
    ap (λ t. t.journal) (answer-store rs (audit locks 0 p.proof_id (to_dict p) rs s))
    ∙ audit-journal locks 0 p.proof_id (to_dict p) rs s

-- What came of a commit: an acceptance, or the journal as it was.
abbrev pub IsQuiet : List JournalRow → Result CommitResult × Store → Type 0
IsQuiet journal x =
    (x.1.journal ≡ journal) ⊎ ((r : CommitResult) × (x.0 ≡ ok r) × (r.accepted ≡ true))

settle-IsQuiet :
    (locks : ℕ → Lock) (p : Proposal) (journal : List JournalRow) (x : Result (ℕ × String) × Store)
    → (x.1.journal ≡ journal) ⊎ ((event : ℕ × String) × (x.0 ≡ ok event))
    → IsQuiet journal (settle locks p x)
unfolding settle
settle-IsQuiet locks p j (ok event, s) h = inr (acceptance event, refl, refl)
settle-IsQuiet locks p j (raises (concurrency reason), s) (inl h) =
    inl (refuse-journal locks p (lost reason) s ∙ h)
settle-IsQuiet locks p j (raises hash_chain_error, s) (inl h) = inl h
settle-IsQuiet locks p j (raises integrity_error, s) (inl h) = inl h
settle-IsQuiet locks p j (raises value_error, s) (inl h) = inl h
settle-IsQuiet locks p j (raises type_error, s) (inl h) = inl h
settle-IsQuiet locks p j (raises (concurrency reason), s) (inr (e, h)) = absurd (cc)
settle-IsQuiet locks p j (raises hash_chain_error, s) (inr (e, h)) = absurd (cc)
settle-IsQuiet locks p j (raises integrity_error, s) (inr (e, h)) = absurd (cc)
settle-IsQuiet locks p j (raises value_error, s) (inr (e, h)) = absurd (cc)
settle-IsQuiet locks p j (raises type_error, s) (inr (e, h)) = absurd (cc)

append-quiet :
    (content_hash : Json → String) (lock lock' : Lock) (p : Proposal) (due due' : ℕ) (s : Store)
    → ((append content_hash lock lock' p due due' s).1.journal ≡ s.journal)
      ⊎ ((event : ℕ × String) × ((append content_hash lock lock' p due due' s).0 ≡ ok event))
append-quiet ch lock lock' p due due' s =
    elim (Result-cases (append ch lock lock' p due due' s).0) [
      | inl (event, e) ↦ inr (event, e)
      | inr (f, e) ↦ inl (
          append-cases ch (λ t. t.journal ≡ s.journal) lock lock' p due due' s refl
            (unfold expire_due_leases in refl)
            (λ event t h.
              let q : ◌≡◌ {A = Result (ℕ × String)} (raises f) (ok event) =
                sym e ∙ ap (λ y. y.0) h in
              absurd (cc)))
    ]

decide-IsQuiet :
    (content_hash : Json → String) (locks : ℕ → Lock) (lock lock' : Lock) (p : Proposal)
    (due due' : ℕ) (s : Store) (found : Option (List Rejection))
    → IsQuiet s.journal (decide content_hash locks lock lock' p due due' found s)
unfolding decide
decide-IsQuiet ch locks lock lock' p due due' s none = inl refl
decide-IsQuiet ch locks lock lock' p due due' s (some []) =
    settle-IsQuiet locks p s.journal _ (append-quiet ch lock lock' p due due' s)
decide-IsQuiet ch locks lock lock' p due due' s (some (r ∷ rs)) =
    inl (refuse-journal locks p (r ∷ rs) s)

-- However the store answers, a commit accepts the proposal or leaves the journal as it was: a
-- refusal, a lost race or an exception appends nothing.
pub commit-IsQuiet :
    (content_hash : Json → String) (locks : ℕ → Lock) (lock lock' : Lock) (p : Proposal)
    (view : ReadView) (due due' : ℕ) (s : Store)
    → IsQuiet s.journal (commit content_hash locks lock lock' p view due due' s)
unfolding commit
commit-IsQuiet ch locks lock lock' p view due due' s =
    decide-IsQuiet ch locks lock lock' p due due' s (validate_proposal p (some view))
