-- ===== src/Store/Journal.antt =====
-- commit_gate/store.py: the journal, with commit_gate/canon.py. `content_hash`, the SHA-256 of the
-- canonical JSON text, is a parameter: hashlib and json are not the program's.
pub mod Inversion
pub mod Order
pub mod Chain
pub mod Append
pub mod Tamper
pub mod Cases
use persistent_atp.Prelude.{
  ℕ, suc, ◌+◌, String, Bool, true, false, not, ◌&&◌, ◌||◌, Option, none, some, List, [], ◌∷◌, ◌++◌,
  map, any, length, ◌==◌, str_eq, if◌then◌else◌, is_none, is_some,
}
use persistent_atp.Json.{Json, obj, end, member}
use persistent_atp.Gate.Ops.{text}
use persistent_atp.Gate.Proposal.{Proposal, to_dict}
use persistent_atp.Gate.Reasons.{
  Reason, lease_not_held, fencing_token_superseded, stale_base_revision,
}
use persistent_atp.Store.{
  Store, JournalRow, RejectionRow, LeaseRow, is_active, Failure, concurrency, hash_chain_error,
  integrity_error, Result, ok, raises, ◌>>=◌, Lock, write, value_error, type_error, ◌>>◌,
}
use persistent_atp.Store.Head.{genesis_hash, rows_of, head_row, head_of}
use persistent_atp.Store.Rows.{has_key, expire_due_leases}

-- SELECT * FROM leases WHERE proof_id = ? AND lease_id = ?; a NULL id matches no row.
abbrev pub find_lease : String → Option String → List LeaseRow → Option LeaseRow
find_lease pid none rows = none
find_lease pid (some lid) [] = none
find_lease pid (some lid) (r ∷ rs) =
    let rest = find_lease pid (some lid) rs in if has_key pid lid r then some r else rest

abbrev pub token_is : Option ℕ → ℕ → Bool
token_is none n = false
token_is (some m) n = m == n

abbrev pub usable : Option LeaseRow → Option ℕ → Result (Unit {0})
usable none token = raises (concurrency lease_not_held)
usable (some r) token =
    if not (is_active r.status)
    then raises (concurrency lease_not_held)
    else if token_is token r.fencing_token
    then ok tt
    else raises (concurrency fencing_token_superseded)

-- `_check_lease`: it lapses the due leases first.
abbrev pub check_lease : Proposal → ℕ → Store → Result Store
check_lease p due s =
    let s' = expire_due_leases p.proof_id due s in
    do usable (find_lease p.proof_id p.lease_id s'.leases) p.fencing_token; ok s'

abbrev pub is_stale : Option ℕ → ℕ → Bool
is_stale none head = false
is_stale (some base) head = not (base == head)

abbrev pub names_lease : Proposal → Bool
names_lease p = is_some p.lease_id || is_some p.fencing_token

abbrev pub leased : Proposal → ℕ → Store → Result Store
leased p due s = if names_lease p then check_lease p due s else ok s

-- PRIMARY KEY (proof_id, revision), and UNIQUE event_hash
abbrev pub clashes : JournalRow → JournalRow → Bool
clashes row r =
    (str_eq r.proof_id row.proof_id && r.revision == row.revision)
    || str_eq r.event_hash row.event_hash

-- INSERT INTO journal
abbrev pub insert_row : JournalRow → Store → Result Store
insert_row row s =
    if any (clashes row) s.journal
    then raises integrity_error
    else ok (record s { journal = s.journal ++ row ∷ [] })

abbrev lapsed : Result (ℕ × String) → Result (Unit {0}) × Store → Result (ℕ × String) × Store
lapsed r (ok u, s) = (r, s)
lapsed r (raises e, s) = (raises e, s)

abbrev pub is_not_held : Failure → Bool
is_not_held (concurrency reason) = elim reason [ lease_not_held ↦ true | _ ↦ false ]
is_not_held hash_chain_error = false
is_not_held integrity_error = false
is_not_held value_error = false
is_not_held type_error = false

-- After a refused lease, its lapse is written again in a transaction of its own, which may fail too.
unfoldable pub after_append :
    Lock → String → ℕ → Result (ℕ × String) × Store → Result (ℕ × String) × Store
unfolding write expire_due_leases
after_append lock pid due (ok a, s) = (ok a, s)
after_append lock pid due (raises e, s) =
    if is_not_held e
    then lapsed (raises e) (write lock (λ s'. ok (tt, expire_due_leases pid due s')) s)
    else (raises e, s)

abbrev pub rejection_body : String → Reason → Option Json → Store → Result (ℕ × Store)
rejection_body pid reason payload s = ok (
  length s.rejections + 1,
  record s {
    rejections = s.rejections ++ record { proof_id = pid; reason = reason; payload = payload } ∷ [];
  },
)

-- `record_rejection`: the row's number.
unfoldable pub record_rejection : Lock → String → Reason → Option Json → Store → Result ℕ × Store
unfolding write
record_rejection lock pid reason payload = write lock (rejection_body pid reason payload)

-- The `(revision, event_hash, prev_hash)` of each event, in order, and the payloads.
unfoldable pub read_chain : String → Store → List (ℕ × String × String)
read_chain pid s = map (λ r. (r.revision, r.event_hash, r.prev_hash)) (rows_of pid s.journal)

unfoldable pub read_events : String → Store → List Json
read_events pid s = map (λ r. r.payload) (rows_of pid s.journal)

module _ (content_hash : Json → String) where
  -- chain_hash
  abbrev pub chain_hash : String → Json → String
  chain_hash prev body = content_hash (obj (member "prev" (text prev) (member "body" body end)))

  -- `_verify_row`: the row's hash is that of its contents.
  abbrev pub verifies : JournalRow → Bool
  verifies r = str_eq (chain_hash r.prev_hash r.payload) r.event_hash

  -- The loop of `verify_chain`, over the rows left, from the revision expected and the last hash.
  unfoldable pub verify_from : ℕ → String → List JournalRow → Bool
  verify_from n prev [] = true
  verify_from n prev (r ∷ rs) =
      r.revision == n
      && (str_eq r.prev_hash prev && (verifies r && verify_from (suc n) r.event_hash rs))

  unfoldable pub verify_chain : String → Store → Result ℕ
  verify_chain pid s =
      let rows = rows_of pid s.journal in
      if verify_from 1 genesis_hash rows then ok (length rows) else raises hash_chain_error

  abbrev pub check_row : Option JournalRow → Result (Unit {0})
  check_row none = ok tt
  check_row (some r) = if verifies r then ok tt else raises hash_chain_error

  abbrev pub next_row : Proposal → ℕ × String → JournalRow
  next_row p (revision, hash) = record {
    proof_id = p.proof_id;
    revision = revision + 1;
    event_hash = chain_hash hash (to_dict p);
    prev_hash = hash;
    actor = p.actor;
    worker_class = p.worker_class;
    payload = to_dict p;
  }

  unfoldable pub append_body : Proposal → ℕ → Store → Result ((ℕ × String) × Store)
  append_body p due s =
      let found = head_row p.proof_id s.journal in
      do
        check_row found
        if is_stale p.base_revision (head_of found).0
            then raises (concurrency stale_base_revision)
            else (do
              s' ← leased p due s
              let row = next_row p (head_of found)
              s'' ← insert_row row s'
              ok ((row.revision, row.event_hash), s''))

  -- `append`, with SQLite's two answers and the clock's two readings.
  unfoldable pub append : Lock → Lock → Proposal → ℕ → ℕ → Store → Result (ℕ × String) × Store
  unfolding append_body write after_append
  append lock lock' p due due' s =
      after_append lock' p.proof_id due' (write lock (append_body p due) s)
