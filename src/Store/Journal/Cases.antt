-- ===== src/Store/Journal/Cases.antt =====
-- The stores that an append may leave.
use persistent_atp.Prelude.{ℕ, String, ◌≡◌, refl, ap, ap₂, subst, Bool-cases, inl, inr}
use persistent_atp.Json.{Json}
use persistent_atp.Gate.Proposal.{Proposal}
use persistent_atp.Store.{Store, Lock, Result, ok, raises, write, Failure}
use persistent_atp.Store.Write.{write-cases, write-raises, Result-cases, ok_parts}
use persistent_atp.Store.Rows.{expire_due_leases}
use persistent_atp.Store.Journal.{append, append_body, after_append, lapsed, is_not_held}

lapsed-store : (r : Result (ℕ × String)) (x : Result (Unit {0}) × Store) → (lapsed r x).1 ≡ x.1
lapsed-store r (ok u, s) = refl
lapsed-store r (raises e, s) = refl

after_append-cases :
    (P : Store → Type 0) (lock : Lock) (pid : String) (due : ℕ) (e : Failure) (s : Store)
    → P s
    → P (expire_due_leases pid due s)
    → P (after_append lock pid due (raises e, s)).1
unfolding after_append
after_append-cases P lock pid due e s p q = elim (Bool-cases (is_not_held e)) [
  | inr t ↦ rw t p
  | inl t ↦
      rw (t, lapsed-store)
        (write-cases P lock (λ s'. ok (tt, expire_due_leases pid due s')) s p
          (λ a s' h. subst P (ok_parts h).1 q))
]

module _ (content_hash : Json → String) where
  -- An append leaves the store as it was, lapses the due leases, or returns.
  pub append-cases :
      (P : Store → Type 0) (lock lock' : Lock) (p : Proposal) (due due' : ℕ) (s : Store)
      → P s
      → P (expire_due_leases p.proof_id due' s)
      → ((a : ℕ × String) (s' : Store)
          → append content_hash lock lock' p due due' s ≡ (ok a, s')
          → P s')
      → P (append content_hash lock lock' p due due' s).1
  unfolding append
  append-cases P lock lock' p due due' s old lapse done =
      let x = write lock (append_body content_hash p due) s in
      elim (Result-cases x.0) [
        | inl (a, e) ↦
            let q : x ≡ (ok a, x.1) = ap (λ r. (r, x.1)) e in
            rw (q, after_append) (done a x.1 (rw (q, after_append)))
        | inr (f, e) ↦
            let q : x ≡ (raises f, s) =
              ap₂ (λ r t. (r, t)) e (write-raises lock (append_body content_hash p due) s f e) in
            rw q (after_append-cases P lock' p.proof_id due' f s old lapse)
      ]
