-- ===== src/Store/Leases/Dispatch.antt =====
-- `dispatch_lease` grants the first candidate that no active lease covers.
use persistent_atp.Prelude.{
  ℕ, String, ◌≡◌, refl, sym, subst, inl, inr, arith, true, false, Option, none, some, List, [], ◌∷◌,
  ◌++◌, ◌+◌, ◌∙◌, Bool-cases, ap, any, ltb, All,
}
use persistent_atp.Json.{Json}
use persistent_atp.Store.{Store, LeaseRow, Result, ok, raises, value_error, Lock, active}
use persistent_atp.Store.Write.{write-ok, ok_parts, eq_of_ok, >>=-eq-ok, if-eq-ok}
use persistent_atp.Store.Head.{head}
use persistent_atp.Store.Leases.{
  Order, dispatch_lease, walk, grant, taken, dispatched_row, insert_lease,
}
use persistent_atp.Store.Rows.{has_key, next_token, expire_due_leases, next_lease_id}

-- An active lease of the proof on the move, for the time that the order asks for.
pub record Leases (pid : String) (o : Order) (now : ℕ) (move : String) (row : LeaseRow)
    : Type 0 where
  pub of_proof : row.proof_id ≡ pid
  pub on_move : row.selected_move_id ≡ some move
  pub is_held : row.status ≡ active
  pub expiry : row.expires_at ≡ some (now + o.ttl_seconds)
  pub for_class : row.worker_class ≡ o.worker_class

-- The outcome of a walk from the store `s`: every candidate is taken and the store is as it was, or the
-- first that is free has the row, the table's one addition, active for the order's time from `now` and
-- with the next token.
pub data Grants (pid : String) (o : Order) (now : ℕ) (moves : List (String × Option Json))
    (s s' : Store) : Option LeaseRow → Type 0 where
  nothing :
      All (λ c. taken pid s.leases c.0 ≡ true) moves → s' ≡ s → Grants pid o now moves s s' none
  first :
      (before : List (String × Option Json)) (move : String) (score : Option Json)
      (after : List (String × Option Json)) (row : LeaseRow)
      → moves ≡ before ++ (move, score) ∷ after
      → All (λ c. taken pid s.leases c.0 ≡ true) before
      → taken pid s.leases move ≡ false
      → Leases pid o now move row
      → row.fencing_token ≡ next_token pid s.leases
      → s'.leases ≡ s.leases ++ row ∷ []
      → Grants pid o now moves s s' (some row)

Grants-cons :
    (pid : String) (o : Order) (now : ℕ) (c : String × Option Json)
    (moves : List (String × Option Json)) (s s' : Store) (a : Option LeaseRow)
    → taken pid s.leases c.0 ≡ true
    → Grants pid o now moves s s' a
    → Grants pid o now (c ∷ moves) s s' a
Grants-cons pid o now c moves s s' _ t (nothing all same) = nothing (t, all) same
Grants-cons pid o now c moves s s' _ t (first before move score after row e all free m k i) =
    first (c ∷ before) move score after row (ap (◌∷◌ c) e) (t, all) free m k i

grant-Grants :
    (pid : String) (o : Order) (now : ℕ) (move : String) (score : Option Json)
    (moves : List (String × Option Json)) (s s' : Store) (a : Option LeaseRow)
    → taken pid s.leases move ≡ false
    → grant pid o now move score s ≡ ok (a, s')
    → Grants pid o now ((move, score) ∷ moves) s s' a
unfolding next_lease_id
grant-Grants pid o now move score moves s s' a free h =
    let (lid, s₁) = next_lease_id pid s in
    let row = dispatched_row pid lid (some move) o (head pid s₁).0 now s₁.leases in
    let (s₂, e, k) = >>=-eq-ok (insert_lease row s₁) _ h in
    let (_, i) = if-eq-ok (any (has_key row.proof_id row.lease_id) s₁.leases) _ _ e in
    let kept : s₂.leases ≡ s.leases ++ row ∷ [] = sym (ap (λ (t : Store). t.leases) (eq_of_ok i)) in
    let leased : Leases pid o now move row = record {
      of_proof = refl;
      on_move = refl;
      is_held = refl;
      expiry = refl;
      for_class = refl;
    } in
    subst (λ b. Grants pid o now ((move, score) ∷ moves) s s' b) (ok_parts k).0
      (first [] move score moves row refl tt free leased refl
        (sym (ap (λ (t : Store). t.leases) (ok_parts k).1) ∙ kept))

walk-Grants :
    (pid : String) (o : Order) (now : ℕ) (moves : List (String × Option Json)) (s s' : Store)
    (a : Option LeaseRow)
    → walk pid o now moves s ≡ ok (a, s')
    → Grants pid o now moves s s' a
unfolding walk
walk-Grants pid o now [] s s' a h =
    subst (λ b. Grants pid o now [] s s' b) (ok_parts h).0 (nothing tt (sym (ok_parts h).1))
walk-Grants pid o now ((move, score) ∷ moves) s s' a h =
    elim (Bool-cases (taken pid s.leases move)) [
      | inl e ↦
          Grants-cons pid o now (move, score) moves s s' a e
            (walk-Grants pid o now moves s s' a (rw e at h))
      | inr e ↦ grant-Grants pid o now move score moves s s' a e (rw e at h)
    ]

-- A dispatch that returns has lapsed the due leases; then it returns None exactly with every
-- candidate covered by an active lease and nothing more written, or it returns the one row that it
-- has added to the table: an active lease of the proof, for the first candidate in rank order that no
-- active lease covers, of the order's class of worker and time to live, with the next token.
pub dispatch_lease-Grants :
    (lock : Lock) (pid : String) (moves : List (String × Option Json)) (o : Order) (due now : ℕ)
    (s s' : Store) (a : Option LeaseRow)
    → dispatch_lease lock pid moves o due now s ≡ (ok a, s')
    → Grants pid o now moves (expire_due_leases pid due s) s' a
unfolding dispatch_lease
dispatch_lease-Grants lock pid moves o due now s s' a h = elim (Bool-cases (ltb 0 o.ttl_seconds)) [
  | inr e ↦
      let q : ◌≡◌ {A = Result (Option LeaseRow) × Store} (raises value_error, s) (ok a, s') =
        rw e at h in
      absurd (ground arith)
  | inl e ↦
      walk-Grants pid o now moves (expire_due_leases pid due s) s' a
        (write-ok lock (λ t. walk pid o now moves (expire_due_leases pid due t)) s s' a (rw e at h))
]
