-- ===== src/Store/Shutout.antt =====
-- An exclusive lease shuts out every other holder.
use persistent_atp.Prelude.{
  ℕ, String, ◌≡◌, refl, sym, subst, inl, inr, arith, Bool, true, false, ◌&&◌, some, List, [], ◌∷◌,
  Bool-cases, ap, ◌∙◌, All, All-of, All-mapped, In-All, Pairwise, str_eq, eq_iff, and_true,
}
use persistent_atp.Json.{Json}
use persistent_atp.Gate.Proposal.{Proposal}
use persistent_atp.Store.{Store, LeaseRow, LeaseStatus, ok, Lock, is_active, is_superseded}
use persistent_atp.Store.Write.{write-ok, ok_parts}
use persistent_atp.Store.Leases.{acquire_lease, acquire_body, acquired_row, others}
use persistent_atp.Store.Rows.{has_key, held_by, set_status, expire_due_leases, supersede, upsert}
use persistent_atp.Store.Leases.Apart.{Apart, other_key}
use persistent_atp.Store.Leases.Exclusive.{IsExclusive, expire-IsExclusive, supersede-IsExclusive}
use persistent_atp.Store.Journal.{append, names_lease}
use persistent_atp.Store.Fencing.{Holds, append-Holds}

-- Of the proof's leases only this one is active.
abbrev Only : String → String → ℕ → LeaseRow → Type 0
Only pid lid token r = held_by pid r ≡ true → (r.lease_id ≡ lid) × (r.fencing_token ≡ token)

abbrev Outside : String → String → LeaseRow → Type 0
Outside pid lid r = has_key pid lid r ≡ false → held_by pid r ≡ false

others_gone :
    (pid lid : String) (r : LeaseRow)
    → Outside pid lid (set_status (others pid lid) LeaseStatus.superseded r)
others_gone pid lid r h = ground (arith, h)

Outside-Only :
    (pid lid : String) (token : ℕ) (r : LeaseRow)
    → has_key pid lid r ≡ false
    → Outside pid lid r
    → Only pid lid token r
Outside-Only pid lid token r k o h = let c : false ≡ true = sym (o k) ∙ h in absurd (cc)

All-rest :
    (row r : LeaseRow) (rs : List LeaseRow)
    → has_key row.proof_id row.lease_id r ≡ true
    → All (Apart r) rs
    → All (Outside row.proof_id row.lease_id) rs
    → All (Only row.proof_id row.lease_id row.fencing_token) rs
All-rest row r [] h a o = tt
All-rest row r (q ∷ rs) h a o = (
  Outside-Only row.proof_id row.lease_id row.fencing_token q (other_key row r q h a.0) o.0,
  All-rest row r rs h a.1 o.1,
)

All-Only :
    (row : LeaseRow) (rs : List LeaseRow)
    → Pairwise Apart rs
    → All (Outside row.proof_id row.lease_id) rs
    → All (Only row.proof_id row.lease_id row.fencing_token) (upsert row rs)
unfolding upsert
All-Only row [] w o = (λ _. (refl, refl), tt)
All-Only row (r ∷ rs) w o = elim (Bool-cases (has_key row.proof_id row.lease_id r)) [
  | inl e ↦ rw e (λ _. (refl, refl), All-rest row r rs e w.0 o.1)
  | inr e ↦
      rw e
        (Outside-Only row.proof_id row.lease_id row.fencing_token r e o.0, All-Only row rs w.1 o.1)
]

acquire_lease-Only :
    (lock : Lock) (pid lid : String) (ttl due now : ℕ) (s s' : Store) (token : ℕ)
    → IsExclusive s
    → acquire_lease lock pid lid ttl due now s ≡ (ok token, s')
    → All (Only pid lid token) s'.leases
unfolding acquire_lease
acquire_lease-Only lock pid lid ttl due now s s' token w h =
    let e = write-ok lock (acquire_body pid lid ttl due now) s s' token h in
    let listed : LeaseRow → Bool = (λ r. str_eq r.proof_id pid && is_superseded r.status) in
    let s₀ = expire_due_leases pid due s in
    let s₁ = supersede (others pid lid) listed s₀ in
    let row = acquired_row pid lid ttl now s₁ in
    let all =
      All-Only row s₁.leases
        (supersede-IsExclusive (others pid lid) listed s₀ (expire-IsExclusive pid due s w))
        (All-mapped (Outside pid lid) (set_status (others pid lid) LeaseStatus.superseded) s₀.leases
          (All-of _ s₀.leases (others_gone pid lid))) in
    subst (λ (t : Store). All (Only pid lid token) t.leases) (ok_parts e).1
      (subst (λ k. All (Only pid lid k) (upsert row s₁.leases)) (ok_parts e).0 all)

-- In a store whose leases are apart, once a lease has been acquired on a proof, an append to that
-- proof that names a lease id or a token returns only under the acquired id and the token given for
-- it: every lease held before, the same id under an older token included, is shut out.
pub acquire_fences :
    (content_hash : Json → String) (lock lock₁ lock₂ : Lock) (lid : String)
    (ttl due now due₁ due₂ : ℕ) (s s₁ s₂ : Store) (token : ℕ) (p : Proposal) (revision : ℕ)
    (hash : String)
    → IsExclusive s
    → acquire_lease lock p.proof_id lid ttl due now s ≡ (ok token, s₁)
    → append content_hash lock₁ lock₂ p due₁ due₂ s₁ ≡ (ok (revision, hash), s₂)
    → names_lease p ≡ true
    → (p.lease_id ≡ some lid) × (p.fencing_token ≡ some token)
acquire_fences ch lock lock₁ lock₂ lid ttl due now due₁ due₂ s s₁ s₂ token p revision hash w got
      done named =
    let (r, m, holds) = append-Holds ch lock₁ lock₂ p due₁ due₂ s₁ s₂ revision hash done named in
    let only =
      In-All (Only p.proof_id lid token) r s₁.leases
        (acquire_lease-Only lock p.proof_id lid ttl due now s s₁ token w got) m in
    let both = only (held r holds) in (holds.id ∙ ap some both.0, holds.token ∙ ap some both.1)
  where
    held : (r : LeaseRow) → Holds p due₁ r → held_by p.proof_id r ≡ true
    held r h =
        rw ((eq_iff r.proof_id p.proof_id).1 h.proof) (and_true (is_active r.status) _ h.live).0
