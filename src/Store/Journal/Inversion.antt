-- ===== src/Store/Journal/Inversion.antt =====
-- What a successful append has checked and written.
use persistent_atp.Prelude.{ℕ, String, ◌≡◌, ◌≢◌, inl, inr, arith, false, ◌∙◌, ap, Bool-cases}
use persistent_atp.Json.{Json}
use persistent_atp.Gate.Proposal.{Proposal}
use persistent_atp.Store.{Store, Result, ok, raises, Failure, Lock, write}
use persistent_atp.Store.Write.{>>=-eq-ok, if-eq-ok, write-ok}
use persistent_atp.Store.Head.{head_row, head_of}
use persistent_atp.Store.Journal.{
  append, append_body, after_append, lapsed, is_not_held, check_row, is_stale, leased, insert_row,
  next_row,
}

ok_parts :
    {a c : ℕ} {b d : String} {s t : Store}
    → ◌≡◌ {A = Result ((ℕ × String) × Store)} (ok ((a, b), s)) (ok ((c, d), t))
    → (c ≡ a) × (d ≡ b) × (s ≡ t)
ok_parts h = ground arith

lapsed-raises :
    (e : Failure) (x : Result (Unit {0}) × Store) (a : ℕ × String) (s : Store)
    → lapsed (raises e) x ≢ (ok a, s)
lapsed-raises e (ok u, t) a s h = ground arith
lapsed-raises e (raises d, t) a s h = ground arith

after_append-ok :
    (lock : Lock) (pid : String) (due : ℕ) (x : Result (ℕ × String) × Store) (a : ℕ × String)
    (s' : Store)
    → after_append lock pid due x ≡ (ok a, s')
    → x ≡ (ok a, s')
unfolding after_append
after_append-ok lock pid due (ok b, t) a s' h = h
after_append-ok lock pid due (raises e, t) a s' h = elim (Bool-cases (is_not_held e)) [
  | inl q ↦ absurd (lapsed-raises e _ a s' (rw q at h))
  | inr q ↦ rw q at h
]

module _ (content_hash : Json → String) where
  -- The checks that an append passes, and the store that it writes.
  pub record Appended (p : Proposal) (due : ℕ) (s s' : Store) (revision : ℕ) (hash : String)
      : Type 0 where
    pub between : Store
    pub sound : check_row content_hash (head_row p.proof_id s.journal) ≡ ok tt
    pub current : is_stale p.base_revision (head_of (head_row p.proof_id s.journal)).0 ≡ false
    pub lease : leased p due s ≡ ok between
    pub inserted :
        insert_row (next_row content_hash p (head_of (head_row p.proof_id s.journal))) between
        ≡ ok s'
    pub numbered :
        revision ≡ (next_row content_hash p (head_of (head_row p.proof_id s.journal))).revision
    pub hashed :
        hash ≡ (next_row content_hash p (head_of (head_row p.proof_id s.journal))).event_hash

  append_body-Appended :
      (p : Proposal) (due : ℕ) (s s' : Store) (revision : ℕ) (hash : String)
      → append_body content_hash p due s ≡ ok ((revision, hash), s')
      → Appended p due s s' revision hash
  unfolding append_body
  append_body-Appended p due s s' revision hash h =
      let found = head_row p.proof_id s.journal in
      let (_, sound, h₁) = >>=-eq-ok (check_row content_hash found) _ h in
      let (current, h₂) = if-eq-ok (is_stale p.base_revision (head_of found).0) _ _ h₁ in
      let (s₁, lease, h₃) = >>=-eq-ok (leased p due s) _ h₂ in
      let (s₂, inserted, h₄) =
        >>=-eq-ok (insert_row (next_row content_hash p (head_of found)) s₁) _ h₃ in
      let parts = ok_parts h₄ in
      record {
        between = s₁;
        sound = sound;
        current = current;
        lease = lease;
        inserted = inserted ∙ ap ok parts.2;
        numbered = parts.0;
        hashed = parts.1;
      }

  -- A successful append has passed every check, in one transaction.
  pub append-Appended :
      (lock lock' : Lock) (p : Proposal) (due due' : ℕ) (s s' : Store) (revision : ℕ)
      (hash : String)
      → append content_hash lock lock' p due due' s ≡ (ok (revision, hash), s')
      → Appended p due s s' revision hash
  unfolding append
  append-Appended lock lock' p due due' s s' revision hash h =
      append_body-Appended p due s s' revision hash (
        write-ok lock (append_body content_hash p due) s s' (revision, hash)
          (after_append-ok lock' p.proof_id due' (write lock (append_body content_hash p due) s)
            (revision, hash) s' h))
