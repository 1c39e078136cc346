-- ===== src/Store/Journal/Append.antt =====
-- `append` on a journal that verifies.
use persistent_atp.Prelude.{
  ℕ, String, ◌+◌, ◌≤◌, ◌≡◌, ◌≢◌, refl, sym, subst, inl, inr, arith, true, false, if◌then◌else◌,
  some, List, [], ◌∷◌, ◌++◌, Bool-cases, str_eq, eq_iff, eq_refl, All-map, ap, ap₂, last?-snoc, ◌∙◌,
  length, length-append, last?, any,
}
use persistent_atp.Json.{Json}
use persistent_atp.Gate.Proposal.{Proposal, to_dict}
use persistent_atp.Store.{
  JournalRow, Store, Lock, Result, ok, raises, hash_chain_error, integrity_error,
}
use persistent_atp.Store.Write.{>>=-eq-ok, eq_of_ok}
use persistent_atp.Store.Head.{rows_of, head, head_of, head_row, genesis_hash}
use persistent_atp.Store.Rows.{expire_due_leases}
use persistent_atp.Store.Journal.{
  verify_from, verify_chain, append, leased, names_lease, check_lease, insert_row, clashes,
  next_row, is_stale, usable, find_lease,
}
use persistent_atp.Store.Journal.Inversion.{Appended, append-Appended}
use persistent_atp.Store.Journal.Order.{rows_of-snoc, rows_of-snoc_other}
use persistent_atp.Store.Journal.Chain.{
  verify_from-le, verify_from-snoc, head_of-verified, end_hash,
}

pub check_lease-ok :
    (p : Proposal) (due : ℕ) (s t : Store)
    → check_lease p due s ≡ ok t
    → t ≡ expire_due_leases p.proof_id due s
check_lease-ok p due s t h =
    let s' = expire_due_leases p.proof_id due s in
    let (_, _, e) =
      >>=-eq-ok (usable (find_lease p.proof_id p.lease_id s'.leases) p.fencing_token) (λ _. ok s')
        h in
    ground (arith, e)

pub journal-leased :
    (p : Proposal) (due : ℕ) (s t : Store) → leased p due s ≡ ok t → t.journal ≡ s.journal
journal-leased p due s t h = elim (Bool-cases (names_lease p)) [
  | inl e ↦
      ap (λ x. x.journal) (check_lease-ok p due s t (rw e at h)) ∙ unfold expire_due_leases in refl
  | inr e ↦ let q : ok s ≡ ok t = rw e at h in ground (arith, q)
]

-- The lease check leaves the store as it was, or lapses the due leases.
pub leased-cases :
    (P : Store → Type 0) (p : Proposal) (due : ℕ) (s t : Store)
    → P s
    → P (expire_due_leases p.proof_id due s)
    → leased p due s ≡ ok t
    → P t
leased-cases P p due s t old lapse h = elim (Bool-cases (names_lease p)) [
  | inl e ↦ subst P (sym (check_lease-ok p due s t (rw e at h))) lapse
  | inr e ↦ subst P (eq_of_ok (rw e at h)) old
]

pub insert_row-ok :
    (row : JournalRow) (s t : Store)
    → insert_row row s ≡ ok t
    → t ≡ record s { journal = s.journal ++ row ∷ [] }
insert_row-ok row s t h = elim (Bool-cases (any (clashes row) s.journal)) [
  | inl e ↦
      let q : ◌≡◌ {A = Result Store} (raises integrity_error) (ok t) = rw e at h in absurd (cc)
  | inr e ↦
      let q : ok (record s { journal = s.journal ++ row ∷ [] }) ≡ ok t = rw e at h in
      ground (arith, q)
]

-- The row of an event: the whole proposal, under a revision and a hash.
pub record Records (p : Proposal) (revision : ℕ) (hash : String) (row : JournalRow) : Type 0 where
  pub proof : row.proof_id ≡ p.proof_id
  pub at_revision : row.revision ≡ revision
  pub under_hash : row.event_hash ≡ hash
  pub by_actor : row.actor ≡ p.actor
  pub by_class : row.worker_class ≡ p.worker_class
  pub whole : row.payload ≡ to_dict p

-- The journal gained one row behind the others, which records the proposal.
abbrev pub Extended : Proposal → ℕ → String → Store → Store → Type 0
Extended p revision hash s s' =
    (row : JournalRow) × (s'.journal ≡ s.journal ++ row ∷ []) × Records p revision hash row

module _ (content_hash : Json → String) where
  pub verify_chain-ok :
      (pid : String) (s : Store) (n : ℕ)
      → verify_chain content_hash pid s ≡ ok n
      → (verify_from content_hash 1 genesis_hash (rows_of pid s.journal) ≡ true)
        × (length (rows_of pid s.journal) ≡ n)
  unfolding verify_chain
  verify_chain-ok pid s n h =
      elim (Bool-cases (verify_from content_hash 1 genesis_hash (rows_of pid s.journal))) [
        | inl e ↦
            let q : ok (length (rows_of pid s.journal)) ≡ ok n = rw e at h in (e, ground (arith, q))
        | inr e ↦
            let q : ◌≡◌ {A = Result ℕ} (raises hash_chain_error) (ok n) = rw e at h in absurd (cc)
      ]

  pub ok-verify_chain :
      (pid : String) (s : Store)
      → verify_from content_hash 1 genesis_hash (rows_of pid s.journal) ≡ true
      → verify_chain content_hash pid s ≡ ok (length (rows_of pid s.journal))
  unfolding verify_chain
  ok-verify_chain pid s t = rw t

  module _ (lock lock' : Lock) (p : Proposal) (due due' : ℕ) (s s' : Store) (n revision : ℕ)
      (hash : String) (chained : verify_chain content_hash p.proof_id s ≡ ok n)
      (appended : append content_hash lock lock' p due due' s ≡ (ok (revision, hash), s')) where
    abbrev rows : List JournalRow
    rows = rows_of p.proof_id s.journal

    abbrev row : JournalRow
    row = next_row content_hash p (n, end_hash genesis_hash rows)

    facts : Appended content_hash p due s s' revision hash
    facts = append-Appended content_hash lock lock' p due due' s s' revision hash appended

    sound : verify_from content_hash 1 genesis_hash rows ≡ true
    sound = (verify_chain-ok p.proof_id s n chained).0

    sized : length rows ≡ n
    sized = (verify_chain-ok p.proof_id s n chained).1

    head-rows : head_of (head_row p.proof_id s.journal) ≡ (n, end_hash genesis_hash rows)
    head-rows =
        head_of-verified content_hash rows sound ∙ ap (λ k. (k, end_hash genesis_hash rows)) sized

    -- The journal after the append is the one before and one row.
    journal-append : s'.journal ≡ s.journal ++ row ∷ []
    journal-append =
        ap (λ x. x.journal) (insert_row-ok _ facts.between s' facts.inserted)
        ∙ subst
            (λ k. facts.between.journal ++ next_row content_hash p k ∷ [] ≡ s.journal ++ row ∷ [])
            (sym head-rows)
            (ap (λ j. j ++ row ∷ []) (journal-leased p due s facts.between facts.lease))

    rows-append : rows_of p.proof_id s'.journal ≡ rows ++ row ∷ []
    rows-append =
        ap (rows_of p.proof_id) journal-append
        ∙ rows_of-snoc p.proof_id row s.journal (eq_refl p.proof_id) (
            All-map (λ q. q.revision ≤ 0 + length rows) (λ q. q.revision ≤ n + 1) rows
              (λ q b. omega (arith, sized)) (verify_from-le content_hash 0 genesis_hash rows sound))

    verified : verify_from content_hash 1 genesis_hash (rows_of p.proof_id s'.journal) ≡ true
    verified = rw rows-append (
        verify_from-snoc content_hash 1 genesis_hash rows row sound (omega (arith, sized)) refl
          (eq_refl row.event_hash))

    numbered : revision ≡ n + 1
    numbered = facts.numbered ∙ ap (λ k. (next_row content_hash p k).revision) head-rows

    hashed : hash ≡ row.event_hash
    hashed = facts.hashed ∙ ap (λ k. (next_row content_hash p k).event_hash) head-rows

    extended : Extended p revision hash s s'
    extended = (
      row,
      journal-append,
      record {
        proof = refl;
        at_revision = sym numbered;
        under_hash = sym hashed;
        by_actor = refl;
        by_class = refl;
        whole = refl;
      },
    )

    lengthened : length (rows_of p.proof_id s'.journal) ≡ n + 1
    lengthened = omega (arith, ap length rows-append, length-append rows (row ∷ []), sized)

    headed : head p.proof_id s' ≡ (revision, hash)
    unfolding head
    headed =
        ap (λ l. head_of (last? l)) rows-append
        ∙ ap head_of (last?-snoc rows row)
        ∙ ap₂ (λ k h. (k, h)) (sym numbered) (sym hashed)

    current : (base : ℕ) → p.base_revision ≡ some base → base ≡ n
    current base e =
        let fresh : is_stale (some base) n ≡ false =
          subst (λ b. is_stale b n ≡ false) e
            (subst (λ k. is_stale p.base_revision k.0 ≡ false) head-rows facts.current) in
        ground (arith, fresh)

    foreign : (pid : String) → pid ≢ p.proof_id → str_eq p.proof_id pid ≡ false
    foreign pid ne = elim (Bool-cases (str_eq p.proof_id pid)) [
      | inl e ↦ absurd (ne (sym ((eq_iff p.proof_id pid).0 e)))
      | inr e ↦ e
    ]

    other_chain :
        (pid : String)
        → pid ≢ p.proof_id
        → verify_chain content_hash pid s' ≡ verify_chain content_hash pid s
    unfolding verify_chain
    other_chain pid ne =
        ap
          (λ (l : List JournalRow).
            if verify_from content_hash 1 genesis_hash l
            then ok (length l)
            else raises hash_chain_error)
          (ap (rows_of pid) journal-append ∙ rows_of-snoc_other pid row s.journal (foreign pid ne))

-- An append to a proof whose chain of n events verifies, if it returns, was based on revision n or
-- on none; the journal is as it was but for one row behind the others, event n + 1 of the proof,
-- which holds the proposal's journalled form, its actor and its class of worker; that event is the
-- proof's head, its chain is one of n + 1 events that verifies, and the check of every other proof's
-- chain has the answer that it had.
pub append-verify_chain :
    (content_hash : Json → String) (lock lock' : Lock) (p : Proposal) (due due' : ℕ) (s s' : Store)
    (n revision : ℕ) (hash : String)
    → verify_chain content_hash p.proof_id s ≡ ok n
    → append content_hash lock lock' p due due' s ≡ (ok (revision, hash), s')
    → ((base : ℕ) → p.base_revision ≡ some base → base ≡ n)
      × (revision ≡ n + 1)
      × Extended p revision hash s s'
      × (head p.proof_id s' ≡ (revision, hash))
      × (verify_chain content_hash p.proof_id s' ≡ ok (n + 1))
      × ((pid : String)
          → pid ≢ p.proof_id
          → verify_chain content_hash pid s' ≡ verify_chain content_hash pid s)
append-verify_chain ch lock lock' p due due' s s' n revision hash chained appended = (
  current ch lock lock' p due due' s s' n revision hash chained appended,
  numbered ch lock lock' p due due' s s' n revision hash chained appended,
  extended ch lock lock' p due due' s s' n revision hash chained appended,
  headed ch lock lock' p due due' s s' n revision hash chained appended,
  ok-verify_chain ch p.proof_id s'
        (verified ch lock lock' p due due' s s' n revision hash chained appended)
      ∙ ap ok (lengthened ch lock lock' p due due' s s' n revision hash chained appended),
  other_chain ch lock lock' p due due' s s' n revision hash chained appended,
)
