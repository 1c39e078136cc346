-- ===== src/Store/Leases.antt =====
-- commit_gate/store.py: the lease operations.
pub mod Apart
pub mod Exclusive
pub mod Tokens
pub mod Dispatch
use Prim.Native.Nat.{max}
use Prim.Native.String
use persistent_atp.Prelude.{
  ℕ, zero, suc, ◌+◌, ◌/◌, ◌%◌, String, Bool, true, false, not, ◌&&◌, Option, none, some, List, [],
  ◌∷◌, ◌++◌, map, keep, any, ltb, leb, ◌==◌, str_eq, if◌then◌else◌, lookup, insert, is_some,
}
use persistent_atp.Json.{Json}
use persistent_atp.Store.{
  Store, LeaseRow, LeaseEvent, LeaseStatus, LeaseTransition, is_active, is_superseded, Result, ok,
  raises, value_error, integrity_error, ◌>>=◌, Lock, write,
}
use persistent_atp.Store.Head.{head}
use persistent_atp.Store.Rows.{
  held_by, has_key, covers, is_due, set_status, set_statuses, transition, expire_due_leases,
  max_token, next_token, last_serial, next_serial, next_lease_id, upsert, supersede, issued,
}

-- The rows that `acquire_lease` supersedes: every other active lease on the proof.
abbrev pub others : String → String → LeaseRow → Bool
others pid lid r = held_by pid r && not (str_eq r.lease_id lid)

abbrev pub acquired_row : String → String → ℕ → ℕ → Store → LeaseRow
acquired_row pid lid ttl now s = record {
  proof_id = pid;
  lease_id = lid;
  worker_class = "";
  selected_move_id = none;
  fencing_token = next_token pid s.leases;
  base_revision = (head pid s).0;
  ttl_seconds = ttl;
  issued_at = now;
  expires_at = if ltb 0 ttl then some (now + ttl) else none;
  status = LeaseStatus.active;
}

abbrev pub acquire_body : String → String → ℕ → ℕ → ℕ → Store → Result (ℕ × Store)
acquire_body pid lid ttl due now s =
    let s₁ =
      supersede (others pid lid) (λ r. str_eq r.proof_id pid && is_superseded r.status)
        (expire_due_leases pid due s) in
    let row = acquired_row pid lid ttl now s₁ in
    ok (
      row.fencing_token,
      record s₁ {
        leases = upsert row s₁.leases;
        lease_events = s₁.lease_events ++ issued row none none ∷ [];
      },
    )

unfoldable pub acquire_lease : Lock → String → String → ℕ → ℕ → ℕ → Store → Result ℕ × Store
unfolding write expire_due_leases upsert
acquire_lease lock pid lid ttl due now = write lock (acquire_body pid lid ttl due now)

-- The arguments of a dispatch.
pub record Order : Type 0 where
  pub worker_class : String
  pub ttl_seconds : ℕ

abbrev pub dispatched_row :
    String → String → Option String → Order → ℕ → ℕ → List LeaseRow → LeaseRow
dispatched_row pid lid move o revision now rows = record {
  proof_id = pid;
  lease_id = lid;
  worker_class = o.worker_class;
  selected_move_id = move;
  fencing_token = next_token pid rows;
  base_revision = revision;
  ttl_seconds = o.ttl_seconds;
  issued_at = now;
  expires_at = some (now + o.ttl_seconds);
  status = LeaseStatus.active;
}

-- The rows that `issue_lease` supersedes: the other active leases on the move.
abbrev pub rivals : String → String → Option String → LeaseRow → Bool
rivals pid lid none r = false
rivals pid lid (some move) r = held_by pid r && covers move r && not (str_eq r.lease_id lid)

abbrev pub listed_rivals : String → String → Option String → LeaseRow → Bool
listed_rivals pid lid none r = false
listed_rivals pid lid (some move) r =
    str_eq r.proof_id pid && is_superseded r.status && covers move r && not (str_eq r.lease_id lid)

abbrev pub chosen_id : String → Option String → Store → String × Store
chosen_id pid none s = next_lease_id pid s
chosen_id pid (some lid) s = (lid, s)

abbrev pub revision_or_head : Option ℕ → String → Store → ℕ
revision_or_head none pid s = (head pid s).0
revision_or_head (some n) pid s = n

abbrev pub issue_body :
    String
    → Option String
    → Option String
    → Option ℕ
    → Order
    → Option Json
    → ℕ
    → ℕ
    → Store
    → Result (LeaseRow × Store)
issue_body pid lease_id move base o score due now s =
    let (lid, s₁) = chosen_id pid lease_id (expire_due_leases pid due s) in
    let s₂ = supersede (rivals pid lid move) (listed_rivals pid lid move) s₁ in
    let row = dispatched_row pid lid move o (revision_or_head base pid s₂) now s₂.leases in
    ok (
      row,
      record s₂ {
        leases = upsert row s₂.leases;
        lease_events = s₂.lease_events ++ issued row (some o.worker_class) score ∷ [];
      },
    )

unfoldable pub issue_lease :
    Lock
    → String
    → Option String
    → Option String
    → Option ℕ
    → Order
    → Option Json
    → ℕ
    → ℕ
    → Store
    → Result LeaseRow × Store
unfolding write expire_due_leases upsert next_lease_id
issue_lease lock pid lease_id move base o score due now s =
    if ltb 0 o.ttl_seconds
    then write lock (issue_body pid lease_id move base o score due now) s
    else (raises value_error, s)

-- move_id in taken
abbrev pub taken : String → List LeaseRow → String → Bool
taken pid rows move = any (λ r. held_by pid r && covers move r) rows

-- INSERT INTO leases: a second row under a key is an IntegrityError.
abbrev pub insert_lease : LeaseRow → Store → Result Store
insert_lease row s =
    if any (has_key row.proof_id row.lease_id) s.leases
    then raises integrity_error
    else ok (record s { leases = s.leases ++ row ∷ [] })

abbrev pub grant :
    String → Order → ℕ → String → Option Json → Store → Result (Option LeaseRow × Store)
grant pid o now move score s =
    let (lid, s₁) = next_lease_id pid s in
    let row = dispatched_row pid lid (some move) o (head pid s₁).0 now s₁.leases in
    do
      s₂ ← insert_lease row s₁
      ok (
        some row,
        record s₂ { lease_events = s₂.lease_events ++ issued row (some o.worker_class) score ∷ [] },
      )

-- The walk over the ranked candidates.
unfoldable pub walk :
    String → Order → ℕ → List (String × Option Json) → Store → Result (Option LeaseRow × Store)
unfolding next_lease_id
walk pid o now [] s = ok (none, s)
walk pid o now ((move, score) ∷ moves) s =
    let rest = walk pid o now moves s in
    if taken pid s.leases move then rest else grant pid o now move score s

unfoldable pub dispatch_lease :
    Lock
    → String
    → List (String × Option Json)
    → Order
    → ℕ
    → ℕ
    → Store
    → Result (Option LeaseRow) × Store
unfolding write expire_due_leases walk
dispatch_lease lock pid moves o due now s =
    if ltb 0 o.ttl_seconds
    then write lock (λ s'. walk pid o now moves (expire_due_leases pid due s')) s
    else (raises value_error, s)

-- The active lease under the key.
abbrev pub releasable : String → String → LeaseRow → Bool
releasable pid lid r = has_key pid lid r && is_active r.status

abbrev pub release_body : String → String → Store → Result (Bool × Store)
release_body pid lid s =
    if any (releasable pid lid) s.leases
    then ok (
      true,
      record s {
        leases = set_statuses (releasable pid lid) LeaseStatus.released s.leases;
        lease_events =
            s.lease_events
            ++ record {
              proof_id = pid;
              lease_id = lid;
              event = LeaseTransition.releases;
              fencing_token = none;
              worker_class = none;
              selected_move_id = none;
              score_snapshot = none;
            }
              ∷ [];
      },
    )
    else ok (false, s)

unfoldable pub release_lease : Lock → String → String → Store → Result Bool × Store
unfolding write
release_lease lock pid lid = write lock (release_body pid lid)

abbrev pub active_body : String → ℕ → Store → Result (List LeaseRow × Store)
active_body pid now s =
    let s' = expire_due_leases pid now s in ok (keep (held_by pid) s'.leases, s')

unfoldable pub active_leases : Lock → String → ℕ → Store → Result (List LeaseRow) × Store
unfolding write expire_due_leases
active_leases lock pid now = write lock (active_body pid now)
