-- ===== src/Gate/Apply/Idempotence.antt =====
-- Applying an op that is already applied changes nothing.
use persistent_atp.Prelude.{
  String, Option, none, some, ◌≡◌, sym, ◌∙◌, ap, fun_ext, subst, inl, inr, eq_refl, arith, true,
  is_some, Option-cases, eq_of_some, insert, insert-insert,
}
use persistent_atp.Json.{Value}
use persistent_atp.Gate.Ops.{Op, Fields}
use persistent_atp.Gate.State.{MemoryView, NodeRecord, update, remove_edge, set_field}
use persistent_atp.Gate.Apply.{apply_op}

update-update {ℓ} :
    {A : Type ℓ} (d : String → A) (k : String) (v w : A) (j : String)
    → update (update d k v) k w j ≡ update d k w j
update-update d k v w j = ground arith

update_self {ℓ} : {A : Type ℓ} (d : String → A) (k : String) (v : A) → update d k v k ≡ v
update_self d k v = rw (eq_refl k)

set_field-known :
    (n f : String) (v : Value) (m : MemoryView) (c : NodeRecord)
    → m.nodes n ≡ some c
    → set_field n f v m
      ≡ some (record m {
        nodes =
            update m.nodes n
              (some (record { node_id = n; label = c.label; fields = insert f v c.fields }));
      })
unfolding set_field
set_field-known n f v m c e = rw e

set_field_twice :
    (n f : String) (v : Value) (m m' : MemoryView)
    → set_field n f v m ≡ some m'
    → set_field n f v m' ≡ some m'
unfolding set_field
set_field_twice n f v m m' h = elim (Option-cases (m.nodes n)) [
  | inl e ↦ ground (arith, e)
  | inr (c, e) ↦
      let made : NodeRecord = record {
        node_id = n;
        label = c.label;
        fields = insert f v c.fields;
      } in
      let m₁ : MemoryView = record m { nodes = update m.nodes n (some made) } in
      let same : m₁ ≡ m' = eq_of_some (sym (set_field-known n f v m c e) ∙ h) in
      subst (λ x. set_field n f v x ≡ some x) same
        (set_field-known n f v m₁ made (update_self m.nodes n (some made))
          ∙ ap (λ (g : String → Option NodeRecord). some (record m { nodes = g }))
              (fun_ext (λ j.
                update-update m.nodes n (some made)
                  (some (record made { fields = insert f v made.fields })) j
                ∙ ap (λ g. update m.nodes n (some (record made { fields = g })) j)
                    (insert-insert f v v c.fields))))
]

upsert_there :
    (m m' : MemoryView) (label n : String) (fields : Fields)
    → apply_op m (Op.upsert_node label n fields) ≡ some m'
    → is_some (m'.nodes n) ≡ true
unfolding apply_op
upsert_there m m' label n fields h = ground (arith, eq_refl n)

add_there :
    (m m' : MemoryView) (rel src dst e : String) (fields : Fields)
    → apply_op m (Op.add_edge rel src dst e fields) ≡ some m'
    → is_some (m'.edges e) ≡ true
unfolding apply_op
add_there m m' rel src dst e fields h = ground (arith, eq_refl e)

remove_gone : (m m' : MemoryView) (e : String) → remove_edge e m ≡ some m' → m'.edges e ≡ none
unfolding remove_edge
remove_gone m m' e h = ground (arith, eq_refl e)

-- An op that has been applied to a view changes it no further.
pub apply_op_twice :
    (m m' : MemoryView) (op : Op) → apply_op m op ≡ some m' → apply_op m' op ≡ some m'
unfolding apply_op remove_edge
apply_op_twice m m' (Op.upsert_node label n fields) h = rw (upsert_there m m' label n fields h)
apply_op_twice m m' (Op.set_field label n f v prior) h = set_field_twice n f v m m' h
apply_op_twice m m' (Op.add_edge rel src dst e fields) h =
    rw (add_there m m' rel src dst e fields h)
apply_op_twice m m' (Op.remove_edge rel e) h = rw (remove_gone m m' e h, remove_edge)
