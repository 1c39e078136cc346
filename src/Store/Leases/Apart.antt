-- ===== src/Store/Leases/Apart.antt =====
-- Two leases of a proof have different ids and tokens, and are not both active on one move.
use persistent_atp.Prelude.{
  String, ◌≤◌, ◌≡◌, ◌≢◌, sym, inl, inr, arith, Bool, true, false, some, List, [], ◌∷◌, Bool-cases,
  str_eq, eq_iff, All, All-map, ◌∙◌, Pairwise, Pairwise-map, and_true,
}
use persistent_atp.Store.{LeaseRow, LeaseStatus, is_active}
use persistent_atp.Store.Rows.{has_key, set_status, set_statuses, upsert, max_token}

pub record Apart (r q : LeaseRow) : Type 0 where
  pub key : r.proof_id ≡ q.proof_id → r.lease_id ≢ q.lease_id
  pub token : r.proof_id ≡ q.proof_id → r.fencing_token ≢ q.fencing_token
  pub move :
      r.proof_id ≡ q.proof_id
      → is_active r.status ≡ true
      → is_active q.status ≡ true
      → (m : String) → r.selected_move_id ≡ some m
      → q.selected_move_id ≢ some m

pub Apart-sym : (r q : LeaseRow) → Apart r q → Apart q r
Apart-sym r q a = record {
  key = λ p e. a.key (sym p) (sym e);
  token = λ p e. a.token (sym p) (sym e);
  move = λ p h g m e f. a.move (sym p) g h m f e;
}

set_status-cases :
    (P : LeaseRow → Type 0) (test : LeaseRow → Bool) (status : LeaseStatus) (r : LeaseRow)
    → P r
    → P (record r { status = status })
    → P (set_status test status r)
set_status-cases P test status r old new = elim (Bool-cases (test r)) [
  | inl e ↦ rw e new
  | inr e ↦ rw e old
]

module _ (status : LeaseStatus) (ended : is_active status ≡ false) where
  Apart-end_left : (r q : LeaseRow) → Apart r q → Apart (record r { status = status }) q
  Apart-end_left r q a = record {
    key = a.key;
    token = a.token;
    move = λ p h g m e f. let c : false ≡ true = sym ended ∙ h in cc;
  }

  Apart-set_status :
      (test : LeaseRow → Bool) (r q : LeaseRow)
      → Apart r q
      → Apart (set_status test status r) (set_status test status q)
  Apart-set_status test r q a =
      set_status-cases (λ x. Apart x (set_status test status q)) test status r right
        (Apart-end_left r (set_status test status q) right)
    where
      right : Apart r (set_status test status q)
      right =
          set_status-cases (λ x. Apart r x) test status q a
            (Apart-sym (record q { status = status }) r (Apart-end_left q r (Apart-sym r q a)))

  -- Ending leases keeps the rest of them apart.
  pub Pairwise-set_statuses :
      (test : LeaseRow → Bool) (rows : List LeaseRow)
      → Pairwise Apart rows
      → Pairwise Apart (set_statuses test status rows)
  Pairwise-set_statuses test rows w =
      Pairwise-map Apart (set_status test status) rows (Apart-set_status test) w

pub All-upsert :
    (P : LeaseRow → Type 0) (row : LeaseRow) (rows : List LeaseRow)
    → P row
    → All P rows
    → All P (upsert row rows)
unfolding upsert
All-upsert P row [] p a = (p, tt)
All-upsert P row (r ∷ rs) p a = elim (Bool-cases (has_key row.proof_id row.lease_id r)) [
  | inl e ↦ rw e (p, a.1)
  | inr e ↦ rw e (a.0, All-upsert P row rs p a.1)
]

-- The new row is apart from every row with another key.
abbrev pub Fits : LeaseRow → List LeaseRow → Type 0
Fits row rows = All (λ q. has_key row.proof_id row.lease_id q ≡ false → Apart row q) rows

pub has_key-eq :
    (pid lid : String) (q : LeaseRow)
    → has_key pid lid q ≡ true
    → (q.proof_id ≡ pid) × (q.lease_id ≡ lid)
has_key-eq pid lid q h =
    let b = and_true (str_eq q.proof_id pid) (str_eq q.lease_id lid) h in
    ((eq_iff q.proof_id pid).0 b.0, (eq_iff q.lease_id lid).0 b.1)

-- A row apart from one under the key is not under the key.
pub other_key :
    (row r q : LeaseRow)
    → has_key row.proof_id row.lease_id r ≡ true
    → Apart r q
    → has_key row.proof_id row.lease_id q ≡ false
other_key row r q h a = elim (Bool-cases (has_key row.proof_id row.lease_id q)) [
  | inr e ↦ e
  | inl e ↦
      let x = has_key-eq row.proof_id row.lease_id r h in
      let y = has_key-eq row.proof_id row.lease_id q e in
      absurd (a.key (x.0 ∙ sym y.0) (x.1 ∙ sym y.1))
]

All-Fits :
    (row r : LeaseRow) (rows : List LeaseRow)
    → has_key row.proof_id row.lease_id r ≡ true
    → All (Apart r) rows
    → Fits row rows
    → All (Apart row) rows
All-Fits row r [] h a f = tt
All-Fits row r (q ∷ rows) h a f = (f.0 (other_key row r q h a.0), All-Fits row r rows h a.1 f.1)

pub Pairwise-upsert :
    (row : LeaseRow) (rows : List LeaseRow)
    → Pairwise Apart rows
    → Fits row rows
    → Pairwise Apart (upsert row rows)
unfolding upsert
Pairwise-upsert row [] w f = (tt, tt)
Pairwise-upsert row (r ∷ rs) w f = elim (Bool-cases (has_key row.proof_id row.lease_id r)) [
  | inl e ↦ rw e (All-Fits row r rs e w.0 f.1, w.1)
  | inr e ↦
      rw e
        (All-upsert (Apart r) row rs (Apart-sym row r (f.0 e)) w.0, Pairwise-upsert row rs w.1 f.1)
]

-- No token of the proof passes the greatest.
pub max_token-ge :
    (pid : String) (rows : List LeaseRow)
    → All (λ q. q.proof_id ≡ pid → q.fencing_token ≤ max_token pid rows) rows
max_token-ge pid [] = tt
max_token-ge pid (r ∷ rs) = (
  λ e. ground (arith, (eq_iff r.proof_id pid).1 e),
  All-map (λ q. q.proof_id ≡ pid → q.fencing_token ≤ max_token pid rs) _ rs
      (λ q h e. let b = h e in ground arith) (max_token-ge pid rs),
)
