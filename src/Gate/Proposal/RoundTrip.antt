-- ===== src/Gate/Proposal/RoundTrip.antt =====
-- A proposal is rebuilt from its journalled form.
use persistent_atp.Prelude.{ℕ, String, Option, none, some, List, [], ◌∷◌, ◌≡◌, refl}
use persistent_atp.Gate.Ops.{
  Op, Fields, fields_to_dict, members_to_fields, op_to_dict, op_from_dict, ops_to_dicts,
  ops_from_dicts,
}
use persistent_atp.Gate.Proposal.{
  Proposal, to_dict, from_dict, optional_number, optional_text, number_or_null, text_or_null,
}

fields_round_trip : (fields : Fields) → members_to_fields (fields_to_dict fields) ≡ some fields
fields_round_trip [] = refl
fields_round_trip ((k, v) ∷ fields) = rw (fields_round_trip fields)

-- An op is rebuilt from its journalled form, `prior` or its absence included.
pub op_from_dict-op_to_dict : (op : Op) → op_from_dict (op_to_dict op) ≡ some op
unfolding op_from_dict op_to_dict
op_from_dict-op_to_dict (Op.upsert_node label n fields) = rw (fields_round_trip fields)
op_from_dict-op_to_dict (Op.set_field label n f v none) = refl
op_from_dict-op_to_dict (Op.set_field label n f v (some w)) = refl
op_from_dict-op_to_dict (Op.add_edge rel src dst e fields) = rw (fields_round_trip fields)
op_from_dict-op_to_dict (Op.remove_edge rel e) = refl

pub ops_round_trip : (ops : List Op) → ops_from_dicts (ops_to_dicts ops) ≡ some ops
unfolding ops_from_dicts
ops_round_trip [] = refl
ops_round_trip (op ∷ ops) = rw (op_from_dict-op_to_dict op, ops_round_trip ops)

number_round_trip : (n : Option ℕ) → optional_number (some (number_or_null n)) ≡ some n
number_round_trip none = refl
number_round_trip (some n) = refl

text_round_trip : (s : Option String) → optional_text (some (text_or_null s)) ≡ some s
text_round_trip none = refl
text_round_trip (some s) = refl

-- A proposal is rebuilt from its journalled form: every op, and every expectation or its absence.
pub from_dict-to_dict : (p : Proposal) → from_dict (to_dict p) ≡ some p
unfolding from_dict to_dict
from_dict-to_dict p = rw (
  ops_round_trip p.ops,
  number_round_trip p.base_revision,
  text_round_trip p.lease_id,
  number_round_trip p.fencing_token,
)
