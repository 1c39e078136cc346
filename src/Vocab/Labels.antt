-- ===== src/Vocab/Labels.antt =====
-- shared/vocab.py: translations between the gate's labels and the graph's, and retired literals.
use Prim.Native.Char.{Char, code}
use persistent_atp.Prelude.{
  String, Bool, not, ◌&&◌, Option, none, some, List, map, any, str_eq, if◌then◌else◌, ◌==◌, lookup,
}
use persistent_atp.Vocab.Words.{graph_to_gate_label, gate_labels, legacy_status_aliases}

-- x in frozenset
abbrev pub contains : List String → String → Bool
contains xs x = any (λ y. str_eq y x) xs

-- {gate: graph for graph, gate in ...}
abbrev pub gate_to_graph_label : List (String × String)
gate_to_graph_label = map (λ e. (e.1, e.0)) graph_to_gate_label

abbrev pub graph_labels : List String
graph_labels = map (λ e. e.0) graph_to_gate_label

-- `none` is the ValueError.
unfoldable pub gate_label : String → Option String
unfolding lookup
gate_label label =
    if contains gate_labels label && not (contains graph_labels label)
    then some label
    else lookup label graph_to_gate_label

unfoldable pub graph_label : String → Option String
unfolding lookup
graph_label label =
    if contains graph_labels label && not (contains (map (λ e. e.0) gate_to_graph_label) label)
    then some label
    else lookup label gate_to_graph_label

-- value.replace("_", "-")
abbrev pub hyphenated : String → String
hyphenated String.[] = ""
hyphenated (String.◌∷◌ c s) =
    let rest = hyphenated s in
    String.◌∷◌ (if code c == b'_' then Prim.Native.Char.char b'-' tt else c) rest

abbrev pub aliased : List String → Option String → Option String
aliased allowed none = none
aliased allowed (some w) = if contains allowed w then some w else none

unfoldable pub canonical_status : String → List String → Option String
unfolding lookup
canonical_status value allowed =
    if contains allowed value
    then some value
    else if contains allowed (hyphenated value)
    then some (hyphenated value)
    else aliased allowed (lookup value legacy_status_aliases)
