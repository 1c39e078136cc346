-- ===== src/Gate/Validate/Tactics.antt =====
-- commit_gate/validate.py: check_subgoal_conservation and check_executor_result.
use persistent_atp.Prelude.{
  ℕ, zero, suc, ◌*◌, ◌^◌, String, Bool, true, false, not, ◌&&◌, Option, none, some, List, [], ◌∷◌,
  ◌++◌, map, any, all, keep, str_eq, ltb, length, if◌then◌else◌, is_none, lookup, insert,
}
use persistent_atp.Json.{
  ℤ, pos, negsuc, Value, null, bool, num, str, int, value_eq, or_null, is_null, is_text,
}
use persistent_atp.Vocab.{terminal_executor_failures}
use persistent_atp.Vocab.Labels.{contains}
use persistent_atp.Gate.Ops.{Op, Fields, upsert_node, set_field, add_edge, remove_edge}
use persistent_atp.Gate.Proposal.{Proposal}
use persistent_atp.Gate.Reasons.{
  Rejection, missing_required_field, subgoal_count_mismatch, subgoal_duplicated,
  subgoal_index_invalid, orphan_subgoal_edge, formal_requires_removal, executor_failure_as_success,
  closure_without_lean_accepted, closure_without_zero_goals, dead_edge_missing_diagnostic,
  failure_with_mathematical_diagnostic, orphan_closure_edge,
}
use persistent_atp.Gate.Validate.Scan.{scan, at, when, text_in}

-- tactics[op.node_id] = (index, op.fields)
abbrev pub tactics_of : ℕ → List (String × (ℕ × Fields)) → List Op → List (String × (ℕ × Fields))
tactics_of i d [] = d
tactics_of i d (upsert_node label n fields ∷ ops) =
    tactics_of (suc i) (if str_eq label "TacticApplication" then insert n (i, fields) d else d) ops
tactics_of i d (set_field label n field value prior ∷ ops) = tactics_of (suc i) d ops
tactics_of i d (add_edge rel src dst e fields ∷ ops) = tactics_of (suc i) d ops
tactics_of i d (remove_edge rel e ∷ ops) = tactics_of (suc i) d ops

-- An edge of a tactic: its op's index, its target, and its `child_index`.
pub record Child : Type 0 where
  pub index : ℕ
  pub target : String
  pub position : Value

-- d[k].append(x), on a defaultdict(list)
unfoldable pub push {ℓ} :
    {A : Type ℓ} → String → A → List (String × List A) → List (String × List A)
push k x [] = (k, x ∷ []) ∷ []
push k x ((j, xs) ∷ d) = if str_eq j k then (j, xs ++ x ∷ []) ∷ d else (j, xs) ∷ push k x d

abbrev pub child : ℕ → String → Fields → Child
child i dst fields = record {
  index = i;
  target = dst;
  position = or_null (lookup "child_index" fields);
}

-- The edges of one relation, by their tactic.
abbrev pub children_of :
    String → ℕ → List (String × List Child) → List Op → List (String × List Child)
children_of wanted i d [] = d
children_of wanted i d (add_edge rel src dst e fields ∷ ops) =
    children_of wanted (suc i) (if str_eq rel wanted then push src (child i dst fields) d else d)
      ops
children_of wanted i d (upsert_node label n fields ∷ ops) = children_of wanted (suc i) d ops
children_of wanted i d (set_field label n field value prior ∷ ops) =
    children_of wanted (suc i) d ops
children_of wanted i d (remove_edge rel e ∷ ops) = children_of wanted (suc i) d ops

abbrev pub removal_of : ℕ → Op → List Rejection
removal_of i (remove_edge rel e) =
    when (str_eq rel "FORMAL_REQUIRES") (at formal_requires_removal i)
removal_of i (upsert_node label n fields) = []
removal_of i (set_field label n field value prior) = []
removal_of i (add_edge rel src dst e fields) = []

-- entries[0][0]
abbrev first_index : List Child → ℕ
first_index [] = 0
first_index (c ∷ cs) = c.index

abbrev pub orphans : List (String × (ℕ × Fields)) → List (String × List Child) → List Rejection
orphans tactics [] = []
orphans tactics ((t, entries) ∷ children) =
    when (is_none (lookup t tactics)) (at orphan_subgoal_edge (first_index entries))
    ++ orphans tactics children

abbrev pub or_empty : Option (List Child) → List Child
or_empty none = []
or_empty (some entries) = entries

-- children.get(t, [])
abbrev pub entries_of : String → List (String × List Child) → List Child
entries_of t children = or_empty (lookup t children)

-- {t for t in targets if targets.count(t) > 1}, each once: `seen` are the targets before.
abbrev again : List String → List String → List String
again seen [] = []
again seen (t ∷ ts) =
    let rest = again (t ∷ seen) ts in
    if contains ts t && not (contains seen t) then t ∷ rest else rest

abbrev repeats : ℕ → List String → List Rejection
repeats index [] = []
repeats index (t ∷ ts) = at subgoal_duplicated index ++ repeats index ts

abbrev num_lt : ℤ → ℕ → ℤ → ℕ → Bool
num_lt (pos a) k (pos b) l = ltb (a * 2 ^ l) (b * 2 ^ k)
num_lt (pos a) k (negsuc b) l = false
num_lt (negsuc a) k (pos b) l = true
num_lt (negsuc a) k (negsuc b) l = ltb (suc b * 2 ^ k) (suc a * 2 ^ l)

-- A bool or a number, as a number.
abbrev pub numeric : Value → Option (ℤ × ℕ)
numeric null = none
numeric (bool b) = some (pos (if b then 1 else 0), 0)
numeric (num z k) = some (z, k)
numeric (str s) = none

abbrev is_str : Value → Bool
is_str v = is_none (numeric v)

abbrev value_lt : Value → Value → Bool
value_lt (bool a) (bool b) = not a && b
value_lt (bool a) (num z k) = num_lt (pos (if a then 1 else 0)) 0 z k
value_lt (num z k) (bool b) = num_lt z k (pos (if b then 1 else 0)) 0
value_lt (num z k) (num w l) = num_lt z k w l
value_lt _ _ = false

abbrev place_in_order : Value → List Value → List Value
place_in_order v [] = v ∷ []
place_in_order v (w ∷ vs) =
    let rest = place_in_order v vs in if value_lt v w then v ∷ w ∷ vs else w ∷ rest

abbrev sort : List Value → List Value
sort [] = []
sort (v ∷ vs) = place_in_order v (sort vs)

-- vs == list(range(i, i + n))
abbrev pub is_range : ℕ → ℕ → List Value → Bool
is_range i zero [] = true
is_range i zero (v ∷ vs) = false
is_range i (suc n) [] = false
is_range i (suc n) (v ∷ vs) = value_eq v (int i) && is_range (suc i) n vs

-- sorted(positions) == list(range(n)). Sorting a text among numbers raises TypeError, `none`; texts
-- alone, in whatever order, equal no numbers.
unfoldable pub covers : ℕ → List Value → Option Bool
covers n positions =
    if any is_str positions
    then (if all is_str positions then some false else none)
    else some (is_range 0 n (sort positions))

abbrev pub count_of : ℕ → Value → ℕ → List Rejection
count_of index declared n =
    if is_null declared
    then at missing_required_field index
    else when (not (value_eq declared (int n))) (at subgoal_count_mismatch index)

abbrev pub positions_of : List Child → List Value
positions_of entries = keep (λ v. not (is_null v)) (map (λ c. c.position) entries)

abbrev pub arity_of : ℕ → Fields → List Child → Option (List Rejection)
arity_of index fields entries = elim (covers (length entries) (positions_of entries)) [
  | none ↦ none
  | some good ↦ some (
      (count_of index (or_null (lookup "subgoal_count" fields)) (length entries)
        ++ repeats index (again [] (map (λ c. c.target) entries)))
      ++ when (not good) (at subgoal_index_invalid index))
]

abbrev pub both : Option (List Rejection) → Option (List Rejection) → Option (List Rejection)
both none b = none
both (some a) none = none
both (some a) (some b) = some (a ++ b)

abbrev pub arities :
    List (String × List Child) → List (String × (ℕ × Fields)) → Option (List Rejection)
arities children [] = some []
arities children ((t, (index, fields)) ∷ tactics) =
    both (arity_of index fields (entries_of t children)) (arities children tactics)

-- `none` is the TypeError of a sort.
unfoldable pub check_subgoal_conservation : Proposal → Option (List Rejection)
unfolding scan
check_subgoal_conservation p =
    let tactics = tactics_of 0 [] p.ops in
    let children = children_of "FORMAL_REQUIRES" 0 [] p.ops in
    both (some (scan removal_of 0 p.ops ++ orphans tactics children)) (arities children tactics)

abbrev pub result_of : ℕ → Fields → List Rejection
result_of index fields =
    let result = or_null (lookup "executor_result" fields) in
    let no_diagnostic = is_null (or_null (lookup "diagnostic_artifact" fields)) in
    if is_null result
    then at missing_required_field index
    else if text_in terminal_executor_failures result
    then when (is_text "closed" (or_null (lookup "status" fields)))
        (at executor_failure_as_success index)
      ++ when (not no_diagnostic) (at failure_with_mathematical_diagnostic index)
    else when (is_text "lean-rejected" result && no_diagnostic)
        (at dead_edge_missing_diagnostic index)

abbrev pub results : List (String × (ℕ × Fields)) → List Rejection
results [] = []
results ((t, (index, fields)) ∷ tactics) = result_of index fields ++ results tactics

abbrev pub closure_of : Fields → List Child → List Rejection
closure_of fields [] = []
closure_of fields (c ∷ cs) =
    (when (not (is_text "lean-accepted" (or_null (lookup "executor_result" fields))))
        (at closure_without_lean_accepted c.index)
      ++ when (not (value_eq (or_null (lookup "subgoal_count" fields)) (int 0)))
          (at closure_without_zero_goals c.index))
    ++ closure_of fields cs

abbrev pub closure_by : Option (ℕ × Fields) → List Child → List Rejection
closure_by none entries = at orphan_closure_edge (first_index entries)
closure_by (some (index, fields)) entries = closure_of fields entries

abbrev pub closures : List (String × (ℕ × Fields)) → List (String × List Child) → List Rejection
closures tactics [] = []
closures tactics ((t, entries) ∷ rest) =
    closure_by (lookup t tactics) entries ++ closures tactics rest

unfoldable pub check_executor_result : Proposal → List Rejection
check_executor_result p =
    let tactics = tactics_of 0 [] p.ops in
    results tactics ++ closures tactics (children_of "CLOSES_STATE" 0 [] p.ops)
