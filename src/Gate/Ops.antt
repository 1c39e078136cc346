-- ===== src/Gate/Ops.antt =====
-- commit_gate/ops.py and commit_gate/proposal.py.
use Prim.Native.String.{len, slice}
use persistent_atp.Prelude.{
  String, Bool, true, ◌-◌, ◌&&◌, Option, none, some, List, [], ◌∷◌, str_eq, leb, if◌then◌else◌, not,
}
use persistent_atp.Json.{
  Value, Json, Members, Items, scalar, arr, obj, nil, cons, end, member, str, null, num, bool, int,
  value_eq,
}
use persistent_atp.Vocab.{annotation_fields}
use persistent_atp.Vocab.Labels.{contains}

abbrev pub Fields : Type 0
Fields = List (String × Value)

-- The last argument of `set_field` is `prior`: `none` is UNSET.
pub data Op : Type 0 where
  upsert_node : String → String → Fields → Op
  set_field : String → String → String → Value → Option Value → Op
  add_edge : String → String → String → String → Fields → Op
  remove_edge : String → String → Op

pub data OpClass : Type 0 where
  structural status annotation : OpClass

-- s.endswith(t)
abbrev pub ends_with : String → String → Bool
ends_with s t = leb (len t) (len s) && str_eq (slice s (len s - len t) (len s)) t

unfoldable pub field_class : String → OpClass
field_class field =
    if contains annotation_fields field
    then annotation
    else if ends_with field "status"
    then status
    else if ends_with field "verdict"
    then status
    else structural

unfoldable pub op_class : Op → OpClass
op_class (upsert_node label node_id fields) = structural
op_class (set_field label node_id field value prior) = field_class field
op_class (add_edge rel src dst edge_id fields) = structural
op_class (remove_edge rel edge_id) = structural

abbrev pub fields_to_dict : Fields → Members
fields_to_dict [] = end
fields_to_dict ((k, v) ∷ fields) = member k (scalar v) (fields_to_dict fields)

abbrev prior_member : Option Value → Members
prior_member none = end
prior_member (some v) = member "prior" (scalar v) end

abbrev pub text : String → Json
text s = scalar (str s)

unfoldable pub op_to_dict : Op → Json
op_to_dict (upsert_node label node_id fields) = obj (
    member "op" (text "upsert_node") (
      member "label" (text label)
        (member "id" (text node_id) (member "fields" (obj (fields_to_dict fields)) end))))
op_to_dict (set_field label node_id field value prior) = obj (
    member "op" (text "set_field") (
      member "label" (text label) (
        member "id" (text node_id)
          (member "field" (text field) (member "value" (scalar value) (prior_member prior))))))
op_to_dict (add_edge rel src dst edge_id fields) = obj (
    member "op" (text "add_edge") (
      member "rel" (text rel) (
        member "src" (text src) (
          member "dst" (text dst) (
            member "edge_id" (text edge_id) (member "fields" (obj (fields_to_dict fields)) end))))))
op_to_dict (remove_edge rel edge_id) = obj (
    member "op" (text "remove_edge")
      (member "rel" (text rel) (member "edge_id" (text edge_id) end)))

abbrev pub ops_to_dicts : List Op → Items
ops_to_dicts [] = nil
ops_to_dicts (op ∷ ops) = cons (op_to_dict op) (ops_to_dicts ops)

-- raw.get(key)
abbrev pub find : String → Members → Option Json
find k end = none
find k (member j v rest) = if str_eq j k then some v else find k rest

infixl 5 ◌>>=◌
abbrev pub ◌>>=◌ : {A B : Type 0} → Option A → (A → Option B) → Option B
none >>= f = none
some a >>= f = f a

abbrev as_text : Option Json → Option String
as_text (some (scalar (str s))) = some s
as_text _ = none

abbrev as_value : Option Json → Option Value
as_value (some (scalar v)) = some v
as_value _ = none

abbrev pub members_to_fields : Members → Option Fields
members_to_fields end = some []
members_to_fields (member k (scalar v) rest) = do
  fields ← members_to_fields rest
  some ((k, v) ∷ fields)
members_to_fields (member k (arr i) rest) = none
members_to_fields (member k (obj i) rest) = none

abbrev pub is_falsy : Value → Bool
is_falsy null = true
is_falsy (bool b) = not b
is_falsy (num z k) = value_eq (num z k) (int 0)
is_falsy (str s) = str_eq s ""

-- raw.get("fields") or {}
abbrev as_fields : Option Json → Option Fields
as_fields none = some []
as_fields (some (obj m)) = members_to_fields m
as_fields (some (scalar v)) = if is_falsy v then some [] else none
as_fields (some (arr nil)) = some []
as_fields (some (arr (cons j js))) = none

-- raw["prior"] if "prior" in raw else UNSET
abbrev as_prior : Option Json → Option (Option Value)
as_prior none = some none
as_prior (some (scalar v)) = some (some v)
as_prior (some _) = none

abbrev members_to_op : String → Members → Option Op
members_to_op kind raw =
    if str_eq kind "upsert_node"
    then (do
      label ← as_text (find "label" raw)
      node_id ← as_text (find "id" raw)
      fields ← as_fields (find "fields" raw)
      some (upsert_node label node_id fields))
    else if str_eq kind "set_field"
    then (do
      label ← as_text (find "label" raw)
      node_id ← as_text (find "id" raw)
      field ← as_text (find "field" raw)
      value ← as_value (find "value" raw)
      prior ← as_prior (find "prior" raw)
      some (set_field label node_id field value prior))
    else if str_eq kind "add_edge"
    then (do
      rel ← as_text (find "rel" raw)
      src ← as_text (find "src" raw)
      dst ← as_text (find "dst" raw)
      edge_id ← as_text (find "edge_id" raw)
      fields ← as_fields (find "fields" raw)
      some (add_edge rel src dst edge_id fields))
    else if str_eq kind "remove_edge"
    then (do
      rel ← as_text (find "rel" raw)
      edge_id ← as_text (find "edge_id" raw)
      some (remove_edge rel edge_id))
    else none

-- `none` is a ValueError or KeyError, and a member that no op of the model can hold.
unfoldable pub op_from_dict : Json → Option Op
op_from_dict (obj raw) = do kind ← as_text (find "op" raw); members_to_op kind raw
op_from_dict _ = none

unfoldable pub ops_from_dicts : Items → Option (List Op)
ops_from_dicts nil = some []
ops_from_dicts (cons raw raws) = do
  op ← op_from_dict raw
  ops ← ops_from_dicts raws
  some (op ∷ ops)
