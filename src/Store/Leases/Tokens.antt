-- ===== src/Store/Leases/Tokens.antt =====
-- The greatest fencing token of a proof never falls.
use persistent_atp.Prelude.{
  ℕ, String, ◌≤◌, ◌+◌, ◌≡◌, refl, sym, subst, inl, inr, arith, Bool, ◌&&◌, Option, none, some, List,
  [], ◌∷◌, ◌++◌, Bool-cases, str_eq, eq_iff, eq_refl, ap, ◌∙◌, any, ltb,
}
use persistent_atp.Json.{Json}
use persistent_atp.Store.{Store, LeaseRow, LeaseStatus, is_superseded, ok, Lock}
use persistent_atp.Store.Write.{write-cases, write-ok, ok_parts, eq_of_ok, >>=-eq-ok, if-eq-ok}
use persistent_atp.Store.Head.{head}
use persistent_atp.Store.Leases.{
  rivals, listed_rivals, others, Order, acquire_lease, issue_lease, dispatch_lease, release_lease,
  active_leases, walk, grant, taken, acquire_body, issue_body, release_body, active_body,
  dispatched_row, acquired_row, insert_lease, chosen_id, releasable, revision_or_head,
}
use persistent_atp.Store.Rows.{
  has_key, set_statuses, upsert, max_token, next_token, expire_due_leases, next_lease_id, is_due,
  supersede,
}

-- Setting statuses changes no token.
pub max_token-set_statuses :
    (pid : String) (test : LeaseRow → Bool) (status : LeaseStatus) (rows : List LeaseRow)
    → max_token pid (set_statuses test status rows) ≡ max_token pid rows
max_token-set_statuses pid test status [] = refl
max_token-set_statuses pid test status (r ∷ rs) =
    ground (arith, max_token-set_statuses pid test status rs)

-- A row whose token is above the proof's others raises the greatest of its proof, and no other.
max_token-upsert :
    (pid : String) (row : LeaseRow) (rows : List LeaseRow) (bound : ℕ)
    → max_token row.proof_id rows ≤ bound
    → bound ≤ row.fencing_token
    → max_token pid rows ≤ max_token pid (upsert row rows)
unfolding upsert
max_token-upsert pid row [] bound h b = ground arith
max_token-upsert pid row (r ∷ rs) bound h b = ground (
  arith,
  max_token-upsert pid row rs bound,
  eq_iff r.proof_id row.proof_id,
  eq_iff r.proof_id pid,
  eq_iff row.proof_id pid,
)

max_token-upsert_self :
    (row : LeaseRow) (rows : List LeaseRow)
    → row.fencing_token ≤ max_token row.proof_id (upsert row rows)
unfolding upsert
max_token-upsert_self row [] = ground (arith, eq_refl row.proof_id)
max_token-upsert_self row (r ∷ rs) =
    ground (arith, eq_refl row.proof_id, max_token-upsert_self row rs)

max_token-append :
    (pid : String) (row : LeaseRow) (rows : List LeaseRow)
    → max_token pid rows ≤ max_token pid (rows ++ row ∷ [])
max_token-append pid row [] = ground arith
max_token-append pid row (r ∷ rs) = ground (arith, max_token-append pid row rs)

-- No proof's greatest token falls.
pub record Rises (s t : Store) : Type 0 where
  pub at : (pid : String) → max_token pid s.leases ≤ max_token pid t.leases

pub Rises-refl : (s : Store) → Rises s s
Rises-refl s = record { at = λ pid. omega arith }

pub Rises-trans : (s t u : Store) → Rises s t → Rises t u → Rises s u
Rises-trans s t u a b = record { at = λ pid. omega (arith, a.at pid, b.at pid) }

pub expire-Rises : (pid : String) (now : ℕ) (s : Store) → Rises s (expire_due_leases pid now s)
unfolding expire_due_leases
expire-Rises pid now s = record {
  at = λ q. omega (arith, max_token-set_statuses q (is_due pid now) LeaseStatus.expired s.leases);
}

supersede-Rises : (out listed : LeaseRow → Bool) (s : Store) → Rises s (supersede out listed s)
supersede-Rises out listed s = record {
  at = λ q. omega (arith, max_token-set_statuses q out LeaseStatus.superseded s.leases);
}

upsert-Rises :
    (row : LeaseRow) (s t : Store)
    → row.fencing_token ≡ next_token row.proof_id s.leases
    → t.leases ≡ upsert row s.leases
    → Rises s t
upsert-Rises row s t fresh e = record {
  at = λ pid. rw e (
      max_token-upsert pid row s.leases (max_token row.proof_id s.leases) (omega arith)
        (omega (arith, fresh)));
}

next_lease_id-Rises : (pid : String) (s : Store) → Rises s (next_lease_id pid s).1
unfolding next_lease_id
next_lease_id-Rises pid s = record { at = λ q. omega arith }

chosen_id-Rises : (pid : String) (lid : Option String) (s : Store) → Rises s (chosen_id pid lid s).1
chosen_id-Rises pid none s = next_lease_id-Rises pid s
chosen_id-Rises pid (some lid) s = Rises-refl s

abbrev listed_by : String → LeaseRow → Bool
listed_by pid r = str_eq r.proof_id pid && is_superseded r.status

-- A lease that is acquired has a token above every earlier one of the proof.
pub acquire_lease-token :
    (lock : Lock) (pid lid : String) (ttl due now : ℕ) (s s' : Store) (token : ℕ)
    → acquire_lease lock pid lid ttl due now s ≡ (ok token, s')
    → (token ≡ max_token pid s.leases + 1) × (token ≤ max_token pid s'.leases)
unfolding acquire_lease
acquire_lease-token lock pid lid ttl due now s s' token h =
    let e = write-ok lock (acquire_body pid lid ttl due now) s s' token h in
    let s₀ = expire_due_leases pid due s in
    let s₁ = supersede (others pid lid) (listed_by pid) s₀ in
    let row = acquired_row pid lid ttl now s₁ in
    (
      sym (ok_parts e).0
          ∙ ap (λ k. k + 1)
              (max_token-set_statuses pid (others pid lid) LeaseStatus.superseded s₀.leases
                ∙ max_token-set_statuses pid (is_due pid due) LeaseStatus.expired s.leases),
      subst (λ t. token ≤ max_token pid t.leases) (ok_parts e).1
          (subst (λ k. k ≤ max_token pid (upsert row s₁.leases)) (ok_parts e).0
            (max_token-upsert_self row s₁.leases)),
    )

pub acquire_lease-Rises :
    (lock : Lock) (pid lid : String) (ttl due now : ℕ) (s : Store)
    → Rises s (acquire_lease lock pid lid ttl due now s).1
unfolding acquire_lease
acquire_lease-Rises lock pid lid ttl due now s =
    write-cases (Rises s) lock (acquire_body pid lid ttl due now) s (Rises-refl s) (λ a s' e.
      let s₀ = expire_due_leases pid due s in
      let s₁ = supersede (others pid lid) (listed_by pid) s₀ in
      let row = acquired_row pid lid ttl now s₁ in
      subst (Rises s) (ok_parts e).1 (
        Rises-trans s s₁ _
          (Rises-trans s s₀ s₁ (expire-Rises pid due s)
            (supersede-Rises (others pid lid) (listed_by pid) s₀))
          (upsert-Rises row s₁ _ refl refl)))

pub issue_lease-Rises :
    (lock : Lock) (pid : String) (lid move : Option String) (base : Option ℕ) (o : Order)
    (score : Option Json) (due now : ℕ) (s : Store)
    → Rises s (issue_lease lock pid lid move base o score due now s).1
unfolding issue_lease
issue_lease-Rises lock pid lid move base o score due now s =
    elim (Bool-cases (ltb 0 o.ttl_seconds)) [
      | inr e ↦ rw e (Rises-refl s)
      | inl e ↦ rw e (
          write-cases (Rises s) lock (issue_body pid lid move base o score due now) s (Rises-refl s)
            (λ a s' q.
              let s₀ = expire_due_leases pid due s in
              let c = chosen_id pid lid s₀ in
              let s₂ = supersede (rivals pid c.0 move) (listed_rivals pid c.0 move) c.1 in
              let row =
                dispatched_row pid c.0 move o (revision_or_head base pid s₂) now s₂.leases in
              subst (Rises s) (ok_parts q).1 (
                Rises-trans s s₀ _ (expire-Rises pid due s) (
                  Rises-trans s₀ c.1 _ (chosen_id-Rises pid lid s₀) (
                    Rises-trans c.1 s₂ _
                      (supersede-Rises (rivals pid c.0 move) (listed_rivals pid c.0 move) c.1)
                      (upsert-Rises row s₂ _ refl refl))))))
    ]

grant-Rises :
    (pid : String) (o : Order) (now : ℕ) (move : String) (score : Option Json) (s s' : Store)
    (a : Option LeaseRow)
    → grant pid o now move score s ≡ ok (a, s')
    → Rises s s'
grant-Rises pid o now move score s s' a h =
    let (lid, s₁) = next_lease_id pid s in
    let row = dispatched_row pid lid (some move) o (head pid s₁).0 now s₁.leases in
    let (s₂, e, k) = >>=-eq-ok (insert_lease row s₁) _ h in
    let (_, i) = if-eq-ok (any (has_key row.proof_id row.lease_id) s₁.leases) _ _ e in
    let made : Rises s₁ s₂ =
      subst (Rises s₁) (eq_of_ok i) (record { at = λ q. max_token-append q row s₁.leases }) in
    subst (Rises s) (ok_parts k).1 (
      Rises-trans s s₁ _ (next_lease_id-Rises pid s)
        (Rises-trans s₁ s₂ _ made (record { at = λ q. omega arith })))

walk-Rises :
    (pid : String) (o : Order) (now : ℕ) (moves : List (String × Option Json)) (s s' : Store)
    (a : Option LeaseRow)
    → walk pid o now moves s ≡ ok (a, s')
    → Rises s s'
unfolding walk
walk-Rises pid o now [] s s' a h = subst (Rises s) (ok_parts h).1 (Rises-refl s)
walk-Rises pid o now ((move, score) ∷ moves) s s' a h =
    elim (Bool-cases (taken pid s.leases move)) [
      | inl e ↦ walk-Rises pid o now moves s s' a (rw e at h)
      | inr e ↦ grant-Rises pid o now move score s s' a (rw e at h)
    ]

pub dispatch_lease-Rises :
    (lock : Lock) (pid : String) (moves : List (String × Option Json)) (o : Order) (due now : ℕ)
    (s : Store)
    → Rises s (dispatch_lease lock pid moves o due now s).1
unfolding dispatch_lease
dispatch_lease-Rises lock pid moves o due now s = elim (Bool-cases (ltb 0 o.ttl_seconds)) [
  | inr e ↦ rw e (Rises-refl s)
  | inl e ↦ rw e (
      write-cases (Rises s) lock (λ s'. walk pid o now moves (expire_due_leases pid due s')) s
        (Rises-refl s)
        (λ a s' q.
          Rises-trans s _ s' (expire-Rises pid due s)
            (walk-Rises pid o now moves (expire_due_leases pid due s) s' a q)))
]

pub release_lease-Rises :
    (lock : Lock) (pid lid : String) (s : Store) → Rises s (release_lease lock pid lid s).1
unfolding release_lease
release_lease-Rises lock pid lid s =
    write-cases (Rises s) lock (release_body pid lid) s (Rises-refl s) released
  where
    released : (a : Bool) (s' : Store) → release_body pid lid s ≡ ok (a, s') → Rises s s'
    released a s' e = elim (Bool-cases (any (releasable pid lid) s.leases)) [
      | inl t ↦ subst (Rises s) (ok_parts (rw t at e)).1 (record {
        at = λ q.
            omega
              (arith, max_token-set_statuses q (releasable pid lid) LeaseStatus.released s.leases);
      })
      | inr t ↦ subst (Rises s) (ok_parts (rw t at e)).1 (Rises-refl s)
    ]

pub active_leases-Rises :
    (lock : Lock) (pid : String) (now : ℕ) (s : Store) → Rises s (active_leases lock pid now s).1
unfolding active_leases
active_leases-Rises lock pid now s =
    write-cases (Rises s) lock (active_body pid now) s (Rises-refl s)
      (λ a s' e. subst (Rises s) (ok_parts e).1 (expire-Rises pid now s))
