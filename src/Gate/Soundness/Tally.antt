-- ===== src/Gate/Soundness/Tally.antt =====
-- commit_gate/validate.py: the tables of tactics and their edges, against the ops.
use persistent_atp.Prelude.{
  ℕ, zero, suc, ◌+◌, ◌≤◌, String, some, List, [], ◌∷◌, ◌++◌, ◌≡◌, refl, arith, Bool, true, false,
  ◌&&◌, get_elem?, lookup, insert, lookup-insert, length, Bool-cases, inl, inr, ◌⊎◌, ap, ap₂, sym,
  ◌∙◌, str_eq, eq_iff, eq_refl, subst, eq_of_some, length-append, if◌then◌else◌,
}
use persistent_atp.Gate.Ops.{Op, Fields, upsert_node, set_field, add_edge, remove_edge}
use persistent_atp.Gate.Validate.Tactics.{tactics_of, Child, push, child, children_of, entries_of}

-- The edges of a relation that leave a node.
abbrev pub is_edge : String → String → Op → Bool
is_edge rel t (add_edge r src dst e fields) = str_eq r rel && str_eq src t
is_edge rel t (upsert_node label n fields) = false
is_edge rel t (set_field label n field value prior) = false
is_edge rel t (remove_edge r e) = false

abbrev pub count_edges : String → String → List Op → ℕ
count_edges rel t [] = 0
count_edges rel t (op ∷ ops) =
    let rest = count_edges rel t ops in if is_edge rel t op then suc rest else rest

entries_of-push :
    (t k : String) (x : Child) (d : List (String × List Child))
    → entries_of t (push k x d) ≡ (if str_eq k t then entries_of t d ++ x ∷ [] else entries_of t d)
unfolding push lookup
entries_of-push t k x [] = ground arith
entries_of-push t k x ((j, xs) ∷ d) =
    ground (arith, eq_iff k t, eq_iff j k, eq_iff j t, entries_of-push t k x d)

push-length :
    (t k : String) (x : Child) (d : List (String × List Child))
    → length (entries_of t (push k x d)) ≡ length (entries_of t d) + (if str_eq k t then 1 else 0)
push-length t k x d = elim (Bool-cases (str_eq k t)) [
  | inl e ↦ rw (entries_of-push t k x d, e) (length-append (entries_of t d) (x ∷ []))
  | inr e ↦ rw (entries_of-push t k x d, e) (omega arith)
]

added :
    (t : String) (b c : Bool) (pushed d : List (String × List Child)) (rest : ℕ)
    → length (entries_of t pushed) ≡ length (entries_of t d) + (if c then 1 else 0)
    → length (entries_of t (if b then pushed else d)) + rest
      ≡ length (entries_of t d) + (if b && c then suc rest else rest)
added t true true pushed d rest h = omega (arith, h)
added t true false pushed d rest h = omega (arith, h)
added t false c pushed d rest h = refl

pub children_of-length :
    (rel t : String) (i : ℕ) (d : List (String × List Child)) (ops : List Op)
    → length (entries_of t (children_of rel i d ops))
      ≡ length (entries_of t d) + count_edges rel t ops
children_of-length rel t i d [] = omega (arith)
children_of-length rel t i d (add_edge r src dst e fields ∷ ops) =
    children_of-length rel t (suc i) (if str_eq r rel then push src (child i dst fields) d else d)
      ops
    ∙ added t (str_eq r rel) (str_eq src t) (push src (child i dst fields) d) d
        (count_edges rel t ops) (push-length t src (child i dst fields) d)
children_of-length rel t i d (upsert_node label n fields ∷ ops) =
    children_of-length rel t (suc i) d ops
children_of-length rel t i d (set_field label n field value prior ∷ ops) =
    children_of-length rel t (suc i) d ops
children_of-length rel t i d (remove_edge r e ∷ ops) = children_of-length rel t (suc i) d ops

pub count_edges-pos :
    (rel t : String) (k : ℕ) (ops : List Op) (op : Op)
    → get_elem? ops k ≡ some op
    → is_edge rel t op ≡ true
    → 1 ≤ count_edges rel t ops
count_edges-pos rel t k [] op e h = absurd (cc)
count_edges-pos rel t zero (o ∷ ops) op e h =
    let q : is_edge rel t o ≡ true = ap (is_edge rel t) (eq_of_some e) ∙ h in ground (arith, q)
count_edges-pos rel t (suc k) (o ∷ ops) op e h = ground (arith, count_edges-pos rel t k ops op e h)

later :
    (t : String) (i j : ℕ) (f : Fields) (d : List (String × (ℕ × Fields))) (op : Op) (ops : List Op)
    → (lookup t d ≡ some (j, f))
      ⊎ ((k : ℕ) × (j ≡ suc i + k) × (get_elem? ops k ≡ some (upsert_node "TacticApplication" t f)))
    → (lookup t d ≡ some (j, f))
      ⊎ ((k : ℕ) × (j ≡ i + k)
          × (get_elem? (op ∷ ops) k ≡ some (upsert_node "TacticApplication" t f)))
later t i j f d op ops (inl h) = inl h
later t i j f d op ops (inr (k, e, h)) = inr (suc k, omega (arith, e), h)

made :
    (n t : String) (v : ℕ × Fields) (d : List (String × (ℕ × Fields)))
    → str_eq n t ≡ true
    → lookup t (insert n v d) ≡ some v
made n t v d e = rw (lookup-insert n t v d, e) refl

kept :
    (n t : String) (v : ℕ × Fields) (d : List (String × (ℕ × Fields)))
    → str_eq n t ≡ false
    → lookup t (insert n v d) ≡ lookup t d
kept n t v d e = rw (lookup-insert n t v d, e) refl

-- A tactic of the table is an op of the proposal, at its index.
pub tactics_of-op :
    (t : String) (i j : ℕ) (f : Fields) (d : List (String × (ℕ × Fields))) (ops : List Op)
    → lookup t (tactics_of i d ops) ≡ some (j, f)
    → (lookup t d ≡ some (j, f))
      ⊎ ((k : ℕ) × (j ≡ i + k) × (get_elem? ops k ≡ some (upsert_node "TacticApplication" t f)))
tactics_of-op t i j f d [] h = inl h
tactics_of-op t i j f d (upsert_node label n fields ∷ ops) h =
    elim (later t i j f (if str_eq label "TacticApplication" then insert n (i, fields) d else d)
      (upsert_node label n fields) ops (tactics_of-op t (suc i) j f _ ops h)) [
        | inr found ↦ inr found
        | inl old ↦ elim (Bool-cases (str_eq label "TacticApplication")) [
          | inr e ↦ inl (rw e at old)
          | inl e ↦ elim (Bool-cases (str_eq n t)) [
            | inr q ↦ inl (sym (kept n t (i, fields) d q) ∙ rw e at old)
            | inl q ↦
                let there = made n t (i, fields) d q in
                let same = eq_of_some (sym there ∙ rw e at old) in
                inr (
                  0,
                  omega (arith, ap (λ x. x.0) same),
                  ap₂ (λ l m. some (upsert_node l m fields))
                        ((eq_iff label "TacticApplication").0 e) ((eq_iff n t).0 q)
                      ∙ ap (λ (x : ℕ × Fields). some (upsert_node "TacticApplication" t x.1)) same,
                )
          ]
        ]
      ]
tactics_of-op t i j f d (set_field label n field value prior ∷ ops) h =
    later t i j f d _ ops (tactics_of-op t (suc i) j f d ops h)
tactics_of-op t i j f d (add_edge r src dst e fields ∷ ops) h =
    later t i j f d _ ops (tactics_of-op t (suc i) j f d ops h)
tactics_of-op t i j f d (remove_edge r e ∷ ops) h =
    later t i j f d _ ops (tactics_of-op t (suc i) j f d ops h)

-- No later op upserts the tactic.
abbrev pub IsLast : List Op → ℕ → String → Type 0
IsLast ops j t =
    (k : ℕ) (fields : Fields)
    → get_elem? ops k ≡ some (upsert_node "TacticApplication" t fields)
    → k ≤ j

from_start :
    (t : String) (i j : ℕ) (g f : Fields) (d : List (String × (ℕ × Fields))) (ops : List Op)
    → lookup t (tactics_of (suc i) (insert t (i, g) d) ops) ≡ some (j, f)
    → i ≤ j
from_start t i j g f d ops h = elim (tactics_of-op t (suc i) j f (insert t (i, g) d) ops h) [
  | inl q ↦
      let same = eq_of_some (sym (made t t (i, g) d (eq_refl t)) ∙ q) in
      omega (arith, ap (λ (x : ℕ × Fields). x.0) same)
  | inr (k, e, op) ↦ omega (arith, e)
]

-- The table of tactics keeps the last upsert of each.
pub tactics_of-last :
    (t : String) (i j : ℕ) (f : Fields) (d : List (String × (ℕ × Fields))) (ops : List Op)
    → lookup t (tactics_of i d ops) ≡ some (j, f)
    → (k : ℕ) (g : Fields) → get_elem? ops k ≡ some (upsert_node "TacticApplication" t g)
    → i + k ≤ j
tactics_of-last t i j f d [] h k g e = absurd (cc)
tactics_of-last t i j f d (upsert_node label n fields ∷ ops) h (suc k) g e =
    omega (arith, tactics_of-last t (suc i) j f _ ops h k g e)
tactics_of-last t i j f d (upsert_node label n fields ∷ ops) h zero g e =
    let q : upsert_node label n fields ≡ upsert_node "TacticApplication" t g = eq_of_some e in
    let is_tactic : label ≡ "TacticApplication" = cc in
    let at_t : n ≡ t = cc in
    let h' : lookup t (tactics_of (suc i) (insert n (i, fields) d) ops) ≡ some (j, f) =
      rw ((eq_iff label "TacticApplication").1 is_tactic) at h in
    omega (
      arith,
      from_start t i j fields f d ops (
          subst (λ x. lookup t (tactics_of (suc i) (insert x (i, fields) d) ops) ≡ some (j, f)) at_t
            h'),
    )
tactics_of-last t i j f d (set_field label n field value prior ∷ ops) h zero g e = absurd (cc)
tactics_of-last t i j f d (set_field label n field value prior ∷ ops) h (suc k) g e =
    omega (arith, tactics_of-last t (suc i) j f d ops h k g e)
tactics_of-last t i j f d (add_edge r src dst e' fields ∷ ops) h zero g e = absurd (cc)
tactics_of-last t i j f d (add_edge r src dst e' fields ∷ ops) h (suc k) g e =
    omega (arith, tactics_of-last t (suc i) j f d ops h k g e)
tactics_of-last t i j f d (remove_edge r e' ∷ ops) h zero g e = absurd (cc)
tactics_of-last t i j f d (remove_edge r e' ∷ ops) h (suc k) g e =
    omega (arith, tactics_of-last t (suc i) j f d ops h k g e)
