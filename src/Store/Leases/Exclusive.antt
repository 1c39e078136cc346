-- ===== src/Store/Leases/Exclusive.antt =====
-- Every lease operation keeps the leases apart.
use persistent_atp.Prelude.{
  ℕ, String, ◌≤◌, ◌≡◌, ◌≢◌, refl, sym, subst, inl, inr, arith, Bool, true, false, ◌&&◌, Option,
  none, some, List, [], ◌∷◌, Bool-cases, str_eq, eq_iff, All, All-map, All-of, All-mapped, All-zip,
  ◌∙◌, Pairwise, Pairwise-snoc, eq_of_some, any, any-false, ltb,
}
use persistent_atp.Json.{Json}
use persistent_atp.Store.{Store, LeaseRow, LeaseStatus, is_active, is_superseded, ok, Lock}
use persistent_atp.Store.Write.{write-cases, ok_parts, eq_of_ok, >>=-eq-ok, if-eq-ok}
use persistent_atp.Store.Leases.{
  rivals, listed_rivals, others, Order, acquire_lease, issue_lease, dispatch_lease, release_lease,
  active_leases, walk, grant, taken, acquire_body, issue_body, release_body, dispatched_row,
  insert_lease, chosen_id, active_body, releasable, acquired_row, revision_or_head,
}
use persistent_atp.Store.Rows.{
  has_key, covers, held_by, set_status, set_statuses, upsert, max_token, next_token,
  expire_due_leases, next_lease_id, is_due, supersede,
}
use persistent_atp.Store.Head.{head}
use persistent_atp.Store.Leases.Apart.{
  Apart, Apart-sym, Fits, Pairwise-set_statuses, Pairwise-upsert, max_token-ge,
}

abbrev pub IsExclusive : Store → Type 0
IsExclusive s = Pairwise Apart s.leases

-- No active lease of another key is on the row's move.
abbrev Clear : LeaseRow → LeaseRow → Type 0
Clear row q =
    has_key row.proof_id row.lease_id q ≡ false
    → q.proof_id ≡ row.proof_id
    → is_active q.status ≡ true
    → (m : String) → row.selected_move_id ≡ some m
    → q.selected_move_id ≢ some m

Fits-new :
    (row : LeaseRow) (rows : List LeaseRow)
    → row.fencing_token ≡ next_token row.proof_id rows
    → All (Clear row) rows
    → Fits row rows
Fits-new row rows fresh clear =
    All-zip (λ q. q.proof_id ≡ row.proof_id → q.fencing_token ≤ max_token row.proof_id rows)
      (Clear row) _ rows
      (λ q low c other. record {
        key = λ p e. differ other (
            rw ((eq_iff q.proof_id row.proof_id).1 (sym p))
              ((eq_iff q.lease_id row.lease_id).1 (sym e)));
        token = λ p e. let b = low (sym p) in omega (arith, fresh, e);
        move = λ p h g m e. c other (sym p) g m e;
      })
      (max_token-ge row.proof_id rows) clear
  where
    differ : {b : Bool} → b ≡ false → b ≡ true → ⊥
    differ p q = cc

Clear-none :
    (row : LeaseRow) (rows : List LeaseRow) → row.selected_move_id ≡ none → All (Clear row) rows
Clear-none row rows e = All-of (Clear row) rows (λ q _ _ _ m f. cc)

rival_gone :
    (row r : LeaseRow) (move : String)
    → row.selected_move_id ≡ some move
    → Clear row (set_status (rivals row.proof_id row.lease_id (some move)) LeaseStatus.superseded r)
rival_gone row r move e other p act m f g =
    elim (Bool-cases (rivals row.proof_id row.lease_id (some move) r)) [
      | inl t ↦ ground (arith, t)
      | inr t ↦ left (rw t at p) (rw t at act) (rw t at g) (rw t at other) t
    ]
  where
    left :
        r.proof_id ≡ row.proof_id
        → is_active r.status ≡ true
        → r.selected_move_id ≡ some m
        → has_key row.proof_id row.lease_id r ≡ false
        → rivals row.proof_id row.lease_id (some move) r ≡ false
        → ⊥
    left p' act' g' other' t =
        let same : m ≡ move = eq_of_some (sym f ∙ e) in
        let on : covers move r ≡ true = rw (g', covers) ((eq_iff m move).1 same) in
        ground (arith, on, (eq_iff r.proof_id row.proof_id).1 p')

-- Lapsing the due leases.
pub expire-IsExclusive :
    (pid : String) (now : ℕ) (s : Store) → IsExclusive s → IsExclusive (expire_due_leases pid now s)
unfolding expire_due_leases
expire-IsExclusive pid now s w =
    Pairwise-set_statuses LeaseStatus.expired refl (is_due pid now) s.leases w

next_lease_id-IsExclusive :
    (pid : String) (s : Store) → IsExclusive s → IsExclusive (next_lease_id pid s).1
unfolding next_lease_id
next_lease_id-IsExclusive pid s w = w

pub supersede-IsExclusive :
    (out listed : LeaseRow → Bool) (s : Store)
    → IsExclusive s
    → IsExclusive (supersede out listed s)
supersede-IsExclusive out listed s w =
    Pairwise-set_statuses LeaseStatus.superseded refl out s.leases w

pub acquire_lease-IsExclusive :
    (lock : Lock) (pid lid : String) (ttl due now : ℕ) (s : Store)
    → IsExclusive s
    → IsExclusive (acquire_lease lock pid lid ttl due now s).1
unfolding acquire_lease
acquire_lease-IsExclusive lock pid lid ttl due now s w =
    write-cases IsExclusive lock (acquire_body pid lid ttl due now) s w (λ a s' e.
      let s₁ =
        supersede (others pid lid) (λ r. str_eq r.proof_id pid && is_superseded r.status)
          (expire_due_leases pid due s) in
      let w₁ =
        supersede-IsExclusive (others pid lid)
          (λ r. str_eq r.proof_id pid && is_superseded r.status) (expire_due_leases pid due s)
          (expire-IsExclusive pid due s w) in
      let row = acquired_row pid lid ttl now s₁ in
      subst IsExclusive (ok_parts e).1 (
        Pairwise-upsert row s₁.leases w₁
          (Fits-new row s₁.leases refl (Clear-none row s₁.leases refl))))

rivals-Clear :
    (row : LeaseRow) (move : Option String) (rows : List LeaseRow)
    → row.selected_move_id ≡ move
    → All
        (Clear row)
        (set_statuses (rivals row.proof_id row.lease_id move) LeaseStatus.superseded rows)
rivals-Clear row none rows e = Clear-none row _ e
rivals-Clear row (some move) rows e =
    All-mapped (Clear row) _ rows (All-of _ rows (λ r. rival_gone row r move e))

issued-IsExclusive :
    (pid lid : String) (move : Option String) (o : Order) (revision now : ℕ) (s : Store)
    → IsExclusive s
    → let s₂ = supersede (rivals pid lid move) (listed_rivals pid lid move) s in
      Pairwise Apart (upsert (dispatched_row pid lid move o revision now s₂.leases) s₂.leases)
issued-IsExclusive pid lid move o revision now s w =
    let s₂ = supersede (rivals pid lid move) (listed_rivals pid lid move) s in
    let row = dispatched_row pid lid move o revision now s₂.leases in
    Pairwise-upsert row s₂.leases
      (supersede-IsExclusive (rivals pid lid move) (listed_rivals pid lid move) s w)
      (Fits-new row s₂.leases refl (rivals-Clear row move s.leases refl))

chosen_id-IsExclusive :
    (pid : String) (lid : Option String) (s : Store)
    → IsExclusive s
    → IsExclusive (chosen_id pid lid s).1
chosen_id-IsExclusive pid none s w = next_lease_id-IsExclusive pid s w
chosen_id-IsExclusive pid (some lid) s w = w

pub issue_lease-IsExclusive :
    (lock : Lock) (pid : String) (lid move : Option String) (base : Option ℕ) (o : Order)
    (score : Option Json) (due now : ℕ) (s : Store)
    → IsExclusive s
    → IsExclusive (issue_lease lock pid lid move base o score due now s).1
unfolding issue_lease
issue_lease-IsExclusive lock pid lid move base o score due now s w =
    elim (Bool-cases (ltb 0 o.ttl_seconds)) [
      | inr e ↦ rw e w
      | inl e ↦ rw e (
          write-cases IsExclusive lock (issue_body pid lid move base o score due now) s w (λ a s' q.
            let s₀ = expire_due_leases pid due s in
            let c = chosen_id pid lid s₀ in
            let s₂ = supersede (rivals pid c.0 move) (listed_rivals pid c.0 move) c.1 in
            subst IsExclusive (ok_parts q).1 (
              issued-IsExclusive pid c.0 move o (revision_or_head base pid s₂) now c.1
                (chosen_id-IsExclusive pid lid s₀ (expire-IsExclusive pid due s w)))))
    ]

-- Nobody holds a move that is not taken.
free-Clear :
    (row : LeaseRow) (move : String) (rows : List LeaseRow)
    → row.selected_move_id ≡ some move
    → taken row.proof_id rows move ≡ false
    → All (Clear row) rows
free-Clear row move rows e free =
    All-map _ (Clear row) rows (λ q not_it other p act m f g. held q p act m f g not_it)
      (any-false _ rows free)
  where
    held :
        (q : LeaseRow)
        → q.proof_id ≡ row.proof_id
        → is_active q.status ≡ true
        → (m : String) → row.selected_move_id ≡ some m
        → q.selected_move_id ≡ some m
        → (held_by row.proof_id q && covers move q) ≡ false
        → ⊥
    held q p act m f g h =
        let same : m ≡ move = eq_of_some (sym f ∙ e) in
        let on : covers move q ≡ true = rw (g, covers) ((eq_iff m move).1 same) in
        ground (arith, on, (eq_iff q.proof_id row.proof_id).1 p)

insert_lease-IsExclusive :
    (row : LeaseRow) (s s' : Store)
    → row.fencing_token ≡ next_token row.proof_id s.leases
    → All (Clear row) s.leases
    → IsExclusive s
    → insert_lease row s ≡ ok s'
    → IsExclusive s'
insert_lease-IsExclusive row s s' fresh clear w h =
    let (new, e) = if-eq-ok (any (has_key row.proof_id row.lease_id) s.leases) _ _ h in
    subst IsExclusive (eq_of_ok e) (
      Pairwise-snoc Apart s.leases row w (
        All-zip _ (λ q. has_key row.proof_id row.lease_id q ≡ false → Apart row q)
          (λ q. Apart q row) s.leases (λ q other fit. Apart-sym row q (fit other))
          (any-false _ s.leases new) (Fits-new row s.leases fresh clear)))

grant-IsExclusive :
    (pid : String) (o : Order) (now : ℕ) (move : String) (score : Option Json) (s s' : Store)
    (a : Option LeaseRow)
    → IsExclusive s
    → taken pid s.leases move ≡ false
    → grant pid o now move score s ≡ ok (a, s')
    → IsExclusive s'
unfolding next_lease_id
grant-IsExclusive pid o now move score s s' a w free h =
    let (lid, s₁) = next_lease_id pid s in
    let row = dispatched_row pid lid (some move) o (head pid s₁).0 now s₁.leases in
    let (s₂, e, k) = >>=-eq-ok (insert_lease row s₁) _ h in
    let w₂ : IsExclusive s₂ =
      insert_lease-IsExclusive row s₁ s₂ refl (free-Clear row move s.leases refl free)
        (next_lease_id-IsExclusive pid s w) e in
    subst IsExclusive (ok_parts k).1 w₂

walk-IsExclusive :
    (pid : String) (o : Order) (now : ℕ) (moves : List (String × Option Json)) (s s' : Store)
    (a : Option LeaseRow)
    → IsExclusive s
    → walk pid o now moves s ≡ ok (a, s')
    → IsExclusive s'
unfolding walk
walk-IsExclusive pid o now [] s s' a w h = subst IsExclusive (ok_parts h).1 w
walk-IsExclusive pid o now ((move, score) ∷ moves) s s' a w h =
    elim (Bool-cases (taken pid s.leases move)) [
      | inl e ↦ walk-IsExclusive pid o now moves s s' a w (rw e at h)
      | inr e ↦ grant-IsExclusive pid o now move score s s' a w e (rw e at h)
    ]

pub dispatch_lease-IsExclusive :
    (lock : Lock) (pid : String) (moves : List (String × Option Json)) (o : Order) (due now : ℕ)
    (s : Store)
    → IsExclusive s
    → IsExclusive (dispatch_lease lock pid moves o due now s).1
unfolding dispatch_lease
dispatch_lease-IsExclusive lock pid moves o due now s w = elim (Bool-cases (ltb 0 o.ttl_seconds)) [
  | inr e ↦ rw e w
  | inl e ↦ rw e (
      write-cases IsExclusive lock (λ s'. walk pid o now moves (expire_due_leases pid due s')) s w
        (λ a s' q.
          walk-IsExclusive pid o now moves (expire_due_leases pid due s) s' a
            (expire-IsExclusive pid due s w) q))
]

pub release_lease-IsExclusive :
    (lock : Lock) (pid lid : String) (s : Store)
    → IsExclusive s
    → IsExclusive (release_lease lock pid lid s).1
unfolding release_lease
release_lease-IsExclusive lock pid lid s w =
    write-cases IsExclusive lock (release_body pid lid) s w (λ a s' e. released a s' e)
  where
    released : (a : Bool) (s' : Store) → release_body pid lid s ≡ ok (a, s') → IsExclusive s'
    released a s' e = elim (Bool-cases (any (releasable pid lid) s.leases)) [
      | inl t ↦
          subst IsExclusive (ok_parts (rw t at e)).1
            (Pairwise-set_statuses LeaseStatus.released refl (releasable pid lid) s.leases w)
      | inr t ↦ subst IsExclusive (ok_parts (rw t at e)).1 w
    ]

pub active_leases-IsExclusive :
    (lock : Lock) (pid : String) (now : ℕ) (s : Store)
    → IsExclusive s
    → IsExclusive (active_leases lock pid now s).1
unfolding active_leases
active_leases-IsExclusive lock pid now s w =
    write-cases IsExclusive lock (active_body pid now) s w
      (λ a s' e. subst IsExclusive (ok_parts e).1 (expire-IsExclusive pid now s w))
