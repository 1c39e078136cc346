-- ===== src/Store/Rows.antt =====
-- commit_gate/store.py: the rows of the lease table, their updates, and the tokens and ids that it
-- mints.
use Prim.Native.Nat.{max}
use Prim.Native.String
use persistent_atp.Prelude.{
  ℕ, ◌+◌, String, Bool, false, ◌&&◌, Option, none, some, List, [], ◌∷◌, ◌++◌, map, keep, leb,
  str_eq, if◌then◌else◌, lookup, insert,
}
use persistent_atp.Decimal.{decimal}
use persistent_atp.Json.{Json}
use persistent_atp.Store.{Store, LeaseRow, LeaseEvent, LeaseStatus, LeaseTransition, is_active}

abbrev pub held_by : String → LeaseRow → Bool
held_by pid r = str_eq r.proof_id pid && is_active r.status

-- WHERE proof_id = ? AND lease_id = ?
abbrev pub has_key : String → String → LeaseRow → Bool
has_key pid lid r = str_eq r.proof_id pid && str_eq r.lease_id lid

-- selected_move_id IS ?
abbrev pub covers : String → LeaseRow → Bool
covers move r = elim r.selected_move_id [ none ↦ false | some m ↦ str_eq m move ]

abbrev pub is_due : String → ℕ → LeaseRow → Bool
is_due pid now r = held_by pid r && elim r.expires_at [ none ↦ false | some t ↦ leb t now ]

abbrev pub set_status : (LeaseRow → Bool) → LeaseStatus → LeaseRow → LeaseRow
set_status test status r = if test r then record r { status = status } else r

-- UPDATE leases SET status = ? WHERE …
abbrev pub set_statuses : (LeaseRow → Bool) → LeaseStatus → List LeaseRow → List LeaseRow
set_statuses test status rows = map (set_status test status) rows

abbrev pub transition : LeaseTransition → LeaseRow → LeaseEvent
transition event r = record {
  proof_id = r.proof_id;
  lease_id = r.lease_id;
  event = event;
  fencing_token = none;
  worker_class = none;
  selected_move_id = none;
  score_snapshot = none;
}

-- The loop's UPDATE by primary key sets the status of the due row that it has read.
unfoldable pub expire_due_leases : String → ℕ → Store → Store
expire_due_leases pid now s = record s {
  leases = set_statuses (is_due pid now) LeaseStatus.expired s.leases;
  lease_events =
      s.lease_events ++ map (transition LeaseTransition.expires) (keep (is_due pid now) s.leases);
}

-- COALESCE(MAX(fencing_token), 0)
abbrev pub max_token : String → List LeaseRow → ℕ
max_token pid [] = 0
max_token pid (r ∷ rs) =
    max (if str_eq r.proof_id pid then r.fencing_token else 0) (max_token pid rs)

abbrev pub next_token : String → List LeaseRow → ℕ
next_token pid rows = max_token pid rows + 1

abbrev pub last_serial : Option ℕ → ℕ
last_serial none = 0
last_serial (some n) = n

abbrev pub next_serial : String → Store → ℕ
next_serial pid s = last_serial (lookup pid s.lease_serials) + 1

-- The minted id, and the store with the serial taken.
unfoldable pub next_lease_id : String → Store → String × Store
unfolding decimal
next_lease_id pid s = (
  String.◌++◌ pid (String.◌++◌ "/ls-" (decimal (next_serial pid s))),
  record s { lease_serials = insert pid (next_serial pid s) s.lease_serials },
)

-- INSERT … ON CONFLICT(proof_id, lease_id) DO UPDATE SET every other column
unfoldable pub upsert : LeaseRow → List LeaseRow → List LeaseRow
upsert row [] = row ∷ []
upsert row (r ∷ rs) = if has_key row.proof_id row.lease_id r then row ∷ rs else r ∷ upsert row rs

-- UPDATE … SET status = 'superseded' WHERE `out`, and an event for each row that `listed` reads then.
abbrev pub supersede : (LeaseRow → Bool) → (LeaseRow → Bool) → Store → Store
supersede out listed s =
    let leases = set_statuses out LeaseStatus.superseded s.leases in
    record s {
      leases = leases;
      lease_events =
          s.lease_events ++ map (transition LeaseTransition.supersedes) (keep listed leases);
    }

abbrev pub issued : LeaseRow → Option String → Option Json → LeaseEvent
issued row worker score = record {
  proof_id = row.proof_id;
  lease_id = row.lease_id;
  event = LeaseTransition.issues;
  fencing_token = some row.fencing_token;
  worker_class = worker;
  selected_move_id = row.selected_move_id;
  score_snapshot = score;
}
