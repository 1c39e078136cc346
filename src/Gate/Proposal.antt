-- ===== src/Gate/Proposal.antt =====
-- commit_gate/proposal.py.
pub mod RoundTrip
use persistent_atp.Prelude.{ℕ, zero, suc, String, if◌then◌else◌, Option, none, some, List, []}
use persistent_atp.Json.{
  ℤ, pos, negsuc, Value, Json, Items, Members, null, num, bool, str, int, scalar, arr, obj, nil,
  cons, end, member,
}
use persistent_atp.Gate.Ops.{Op, text, find, is_falsy, ops_to_dicts, ops_from_dicts, ◌>>=◌}

pub record Proposal : Type 0 where
  pub proof_id : String
  pub actor : String
  pub worker_class : String
  pub ops : List Op
  pub base_revision : Option ℕ
  pub lease_id : Option String
  pub fencing_token : Option ℕ

abbrev pub number_or_null : Option ℕ → Json
number_or_null none = scalar null
number_or_null (some n) = scalar (int n)

abbrev pub text_or_null : Option String → Json
text_or_null none = scalar null
text_or_null (some s) = text s

unfoldable pub to_dict : Proposal → Json
to_dict p = obj (
    member "proof_id" (text p.proof_id) (
      member "actor" (text p.actor) (
        member "worker_class" (text p.worker_class) (
          member "base_revision" (number_or_null p.base_revision) (
            member "lease_id" (text_or_null p.lease_id) (
              member "fencing_token" (number_or_null p.fencing_token)
                (member "ops" (arr (ops_to_dicts p.ops)) end)))))))

-- raw[key] at a text
abbrev required_text : Option Json → Option String
required_text (some (scalar (str s))) = some s
required_text _ = none

-- raw.get(key) at a whole number, and at a text
abbrev optional_number : Option Json → Option (Option ℕ)
optional_number none = some none
optional_number (some (scalar null)) = some none
optional_number (some (scalar (num (pos n) k))) = elim k [ zero ↦ some (some n) | suc _ ↦ none ]
optional_number (some _) = none

abbrev optional_text : Option Json → Option (Option String)
optional_text none = some none
optional_text (some (scalar null)) = some none
optional_text (some (scalar (str s))) = some (some s)
optional_text (some _) = none

-- raw.get("ops") or (): a falsy value holds no ops; another that is no list fails, a text or an object
-- at its first character or key.
abbrev optional_ops : Option Json → Option (List Op)
optional_ops none = some []
optional_ops (some (arr raws)) = ops_from_dicts raws
optional_ops (some (scalar v)) = if is_falsy v then some [] else none
optional_ops (some (obj end)) = some []
optional_ops (some (obj (member name value rest))) = none

-- `none` is an exception, or a member of a type that no proposal of the model can hold.
unfoldable pub from_dict : Json → Option Proposal
from_dict (obj raw) = do
  proof_id ← required_text (find "proof_id" raw)
  actor ← required_text (find "actor" raw)
  worker_class ← required_text (find "worker_class" raw)
  ops ← optional_ops (find "ops" raw)
  base_revision ← optional_number (find "base_revision" raw)
  lease_id ← optional_text (find "lease_id" raw)
  fencing_token ← optional_number (find "fencing_token" raw)
  some (record {
    proof_id = proof_id;
    actor = actor;
    worker_class = worker_class;
    ops = ops;
    base_revision = base_revision;
    lease_id = lease_id;
    fencing_token = fencing_token;
  })
from_dict _ = none
