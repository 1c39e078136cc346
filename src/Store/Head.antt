-- ===== src/Store/Head.antt =====
-- commit_gate/store.py: a proof's journal in revision order, and its head.
use persistent_atp.Prelude.{
  ℕ, String, Option, none, some, List, [], ◌∷◌, keep, leb, str_eq, if◌then◌else◌, last?,
}
use persistent_atp.Store.{Store, JournalRow}

-- "sha256:" + "0" * 64
abbrev pub genesis_hash : String
genesis_hash = "sha256:0000000000000000000000000000000000000000000000000000000000000000"

-- ORDER BY revision ASC
abbrev pub place : JournalRow → List JournalRow → List JournalRow
place r [] = r ∷ []
place r (q ∷ qs) =
    let rest = place r qs in if leb r.revision q.revision then r ∷ q ∷ qs else q ∷ rest

abbrev pub by_revision : List JournalRow → List JournalRow
by_revision [] = []
by_revision (r ∷ rs) = place r (by_revision rs)

-- SELECT … FROM journal WHERE proof_id = ? ORDER BY revision ASC
abbrev pub rows_of : String → List JournalRow → List JournalRow
rows_of pid rows = by_revision (keep (λ r. str_eq r.proof_id pid) rows)

-- … ORDER BY revision DESC LIMIT 1
abbrev pub head_row : String → List JournalRow → Option JournalRow
head_row pid rows = last? (rows_of pid rows)

abbrev pub head_of : Option JournalRow → ℕ × String
head_of none = (0, genesis_hash)
head_of (some r) = (r.revision, r.event_hash)

unfoldable pub head : String → Store → ℕ × String
head pid s = head_of (head_row pid s.journal)
