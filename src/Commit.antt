-- ===== src/Commit.antt =====
-- commit_gate/gate.py. A call takes the store's answers as arguments: those of SQLite to each
-- transaction, and the readings of the clock, in their order.
pub mod Accepts
pub mod Audit
pub mod History
use persistent_atp.Prelude.{ℕ, suc, String, Bool, true, false, Option, none, some, List, [], ◌∷◌}
use persistent_atp.Json.{Json}
use persistent_atp.Gate.Proposal.{Proposal, to_dict}
use persistent_atp.Gate.Reasons.{Reason, Rejection}
use persistent_atp.Gate.State.{ReadView}
use persistent_atp.Gate.Validate.{validate_proposal}
use persistent_atp.Store.{
  Store, Lock, Failure, concurrency, type_error, hash_chain_error, integrity_error, value_error,
  Result, ok, raises,
}
use persistent_atp.Store.Journal.{append, record_rejection}

pub record CommitResult : Type 0 where
  pub accepted : Bool
  pub rejections : List Rejection
  pub event_hash : Option String
  pub revision : Option ℕ

abbrev pub refusal : List Rejection → CommitResult
refusal rejections = record {
  accepted = false;
  rejections = rejections;
  event_hash = none;
  revision = none;
}

abbrev pub acceptance : ℕ × String → CommitResult
acceptance (revision, event_hash) = record {
  accepted = true;
  rejections = [];
  event_hash = some event_hash;
  revision = some revision;
}

-- After one `record_rejection`: a lost race ends the loop, and any other exception leaves it.
abbrev pub audited :
    Result ℕ × Store → (Store → Result (Unit {0}) × Store) → Result (Unit {0}) × Store
audited (ok row, s) next = next s
audited (raises (concurrency reason), s) next = (ok tt, s)
audited (raises hash_chain_error, s) next = (raises hash_chain_error, s)
audited (raises integrity_error, s) next = (raises integrity_error, s)
audited (raises value_error, s) next = (raises value_error, s)
audited (raises type_error, s) next = (raises type_error, s)

-- `_audit`, where `locks i` is the answer to the i-th transaction.
unfoldable pub audit :
    (ℕ → Lock) → ℕ → String → Json → List Rejection → Store → Result (Unit {0}) × Store
audit locks i pid payload [] s = (ok tt, s)
audit locks i pid payload (r ∷ rs) s =
    audited (record_rejection (locks i) pid r.reason (some payload) s)
      (audit locks (suc i) pid payload rs)

abbrev pub answer : List Rejection → Result (Unit {0}) × Store → Result CommitResult × Store
answer rejections (ok u, s) = (ok (refusal rejections), s)
answer rejections (raises e, s) = (raises e, s)

abbrev pub refuse : (ℕ → Lock) → Proposal → List Rejection → Store → Result CommitResult × Store
refuse locks p rejections s = answer rejections (audit locks 0 p.proof_id (to_dict p) rejections s)

abbrev pub lost : Reason → List Rejection
lost reason = record { reason = reason; op_index = none } ∷ []

-- After the append: a lost race is a rejection, and any other exception is the caller's.
unfoldable pub settle :
    (ℕ → Lock) → Proposal → Result (ℕ × String) × Store → Result CommitResult × Store
unfolding audit
settle locks p (ok event, s) = (ok (acceptance event), s)
settle locks p (raises (concurrency reason), s) = refuse locks p (lost reason) s
settle locks p (raises hash_chain_error, s) = (raises hash_chain_error, s)
settle locks p (raises integrity_error, s) = (raises integrity_error, s)
settle locks p (raises value_error, s) = (raises value_error, s)
settle locks p (raises type_error, s) = (raises type_error, s)

module _ (content_hash : Json → String) where
  unfoldable pub decide :
      (ℕ → Lock)
      → Lock
      → Lock
      → Proposal
      → ℕ
      → ℕ
      → Option (List Rejection)
      → Store
      → Result CommitResult × Store
  unfolding audit
  decide locks lock lock' p due due' none s = (raises type_error, s)
  decide locks lock lock' p due due' (some []) s =
      settle locks p (append content_hash lock lock' p due due' s)
  decide locks lock lock' p due due' (some (r ∷ rs)) s = refuse locks p (r ∷ rs) s

  unfoldable pub commit :
      (ℕ → Lock) → Lock → Lock → Proposal → ReadView → ℕ → ℕ → Store → Result CommitResult × Store
  unfolding decide
  commit locks lock lock' p view due due' s =
      decide locks lock lock' p due due' (validate_proposal p (some view)) s
