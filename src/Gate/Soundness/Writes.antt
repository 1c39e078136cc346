-- ===== src/Gate/Soundness/Writes.antt =====
-- commit_gate/validate.py: what the validators ask of a write to a field of a committed node.
use persistent_atp.Prelude.{String, lookup}
use persistent_atp.Json.{Value, or_null}
use persistent_atp.Gate.Proposal.{Proposal}
use persistent_atp.Gate.State.{NodeRecord}

-- d.get(field), of a node's fields
abbrev pub current : NodeRecord → String → Value
current r field = or_null (lookup field r.fields)
