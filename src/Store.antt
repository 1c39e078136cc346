-- ===== src/Store.antt =====
-- commit_gate/store.py: the tables, the write transaction, and what its operations share. The child
-- modules hold the lease operations, the journal and the proofs. Times are whole numbers of clock
-- ticks; a method takes the readings of its clock as arguments, in the order in which it makes them.
pub mod Write
pub mod Head
pub mod Rows
pub mod Leases
pub mod Journal
pub mod Fencing
pub mod Shutout
pub mod Calls
use persistent_atp.Prelude.{
  ℕ, String, Bool, true, false, ◌&&◌, ◌<◌, Option, none, some, List, [], ltb, if◌then◌else◌,
  is_none,
}
use persistent_atp.Json.{Json}
use persistent_atp.Gate.Reasons.{Reason, journal_busy}

pub data LeaseStatus : Type 0 where
  active expired released superseded : LeaseStatus

abbrev pub is_active : LeaseStatus → Bool
is_active active = true
is_active expired = false
is_active released = false
is_active superseded = false

abbrev pub is_superseded : LeaseStatus → Bool
is_superseded active = false
is_superseded expired = false
is_superseded released = false
is_superseded superseded = true

pub record LeaseRow : Type 0 where
  pub proof_id : String
  pub lease_id : String
  pub worker_class : String
  pub selected_move_id : Option String
  pub fencing_token : ℕ
  pub base_revision : ℕ
  pub ttl_seconds : ℕ
  pub issued_at : ℕ
  pub expires_at : Option ℕ
  pub status : LeaseStatus

-- Held and unexpired.
abbrev pub is_live : LeaseRow → ℕ → Bool
is_live r now = is_active r.status && elim r.expires_at [ none ↦ true | some t ↦ ltb now t ]

pub data LeaseTransition : Type 0 where
  issues expires releases supersedes : LeaseTransition

-- `score_snapshot` is the tree that the column's text encodes.
pub record LeaseEvent : Type 0 where
  pub proof_id : String
  pub lease_id : String
  pub event : LeaseTransition
  pub fencing_token : Option ℕ
  pub worker_class : Option String
  pub selected_move_id : Option String
  pub score_snapshot : Option Json

-- `payload` is the tree that the column's text encodes.
pub record JournalRow : Type 0 where
  pub proof_id : String
  pub revision : ℕ
  pub event_hash : String
  pub prev_hash : String
  pub actor : String
  pub worker_class : String
  pub payload : Json

pub record RejectionRow : Type 0 where
  pub proof_id : String
  pub reason : Reason
  pub payload : Option Json

-- The tables, each in the order of insertion.
pub record Store : Type 0 where
  pub journal : List JournalRow
  pub leases : List LeaseRow
  pub lease_events : List LeaseEvent
  pub lease_serials : List (String × ℕ)
  pub rejections : List RejectionRow

abbrev pub empty_store : Store
empty_store = record {
  journal = [];
  leases = [];
  lease_events = [];
  lease_serials = [];
  rejections = [];
}

pub data Failure : Type 0 where
  concurrency : Reason → Failure
  hash_chain_error integrity_error value_error type_error : Failure

pub data Result {ℓ} (A : Type ℓ) : Type ℓ where
  ok : A → Result A
  raises : Failure → Result A

infixl 5 ◌>>=◌ ◌>>◌
abbrev pub ◌>>=◌ {κ ℓ} : {B : Type κ} {A : Type ℓ} → Result A → (A → Result B) → Result B
raises e >>= next = raises e
ok x >>= next = next x

abbrev pub ◌>>◌ {ℓ} : {B : Type ℓ} → Result (Unit {0}) → Result B → Result B
first >> next = first >>= λ done. next

-- What SQLite answers to BEGIN IMMEDIATE and to COMMIT.
pub data Lock : Type 0 where
  granted busy_begin busy_commit : Lock

abbrev pub conclude : {A : Type 0} → Lock → Store → Result (A × Store) → Result A × Store
conclude granted s (ok (a, s')) = (ok a, s')
conclude granted s (raises e) = (raises e, s)
conclude busy_begin s r = (raises (concurrency journal_busy), s)
conclude busy_commit s (ok (a, s')) = (raises (concurrency journal_busy), s)
conclude busy_commit s (raises e) = (raises e, s)

-- The `_write` context: the block's effects are kept only if it returns and the commit succeeds.
unfoldable pub write : {A : Type 0} → Lock → (Store → Result (A × Store)) → Store → Result A × Store
write lock body s = conclude lock s (body s)
