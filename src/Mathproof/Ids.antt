-- ===== src/Mathproof/Ids.antt =====
-- mathproof/ids.py. A serial below 1 is 0 here: the source refuses every such number alike.
pub mod Parse
pub mod Fresh
pub mod Scope
use Prim.Native.Char.{code}
use Prim.Native.String
use persistent_atp.Prelude.{
  ℕ, ◌+◌, String, Bool, true, false, Option, none, some, List, [], ◌∷◌, ltb, ◌==◌, str_eq,
  if◌then◌else◌, lookup, insert,
}
use persistent_atp.Decimal.{decimal, read_serial}

pub data IdType : Type 0 where
  research_state research_move claim formal_declaration formal_run formal_state tactic_application
        alignment obstruction certificate lean_replay environment formal_checkpoint
        speculative_hypothesis attempt lease :
      IdType

abbrev pub prefix : IdType → String
prefix research_state = "rs"
prefix research_move = "rm"
prefix claim = "c"
prefix formal_declaration = "fd"
prefix formal_run = "fr"
prefix formal_state = "fs"
prefix tactic_application = "ta"
prefix alignment = "al"
prefix obstruction = "obs"
prefix certificate = "cert"
prefix lean_replay = "lr"
prefix environment = "env"
prefix formal_checkpoint = "fc"
prefix speculative_hypothesis = "sh"
prefix attempt = "at"
prefix lease = "ls"

-- _BY_PREFIX
abbrev pub id_types : List IdType
id_types =
    research_state ∷ research_move ∷ claim ∷ formal_declaration ∷ formal_run ∷ formal_state
    ∷ tactic_application ∷ alignment ∷ obstruction ∷ certificate ∷ lean_replay ∷ environment
    ∷ formal_checkpoint ∷ speculative_hypothesis ∷ attempt ∷ lease ∷ []

abbrev pub find_type : String → List IdType → Option IdType
find_type s [] = none
find_type s (t ∷ ts) = if str_eq (prefix t) s then some t else find_type s ts

abbrev pub by_prefix : String → Option IdType
by_prefix s = find_type s id_types

-- `id_type: IdType | str`
pub data Kind : Type 0 where
  typed : IdType → Kind
  named : String → Kind

-- `_resolve` and `_resolve_typed`: `none` is the ValueError, or the KeyError.
abbrev pub resolve : Kind → Option IdType
resolve (typed t) = some t
resolve (named s) = by_prefix s

-- f"{prefix}-{serial}"
abbrev pub spelled : IdType → ℕ → String
spelled t serial = String.◌++◌ (prefix t) (String.◌∷◌ "-" (decimal serial))

abbrev pub spelled_from_one : ℕ → Option IdType → Option String
spelled_from_one serial none = none
spelled_from_one serial (some t) = if ltb serial 1 then none else some (spelled t serial)

unfoldable pub local_id : Kind → ℕ → Option String
local_id kind serial = spelled_from_one serial (resolve kind)

abbrev pub scoped : String → String → String
scoped pid id = String.◌++◌ (String.◌++◌ pid "/") id

abbrev pub scoped_in : String → Option String → Option String
scoped_in pid none = none
scoped_in pid (some id) = some (scoped pid id)

unfoldable pub full_id : String → Kind → ℕ → Option String
unfolding local_id
full_id pid kind serial = scoped_in pid (local_id kind serial)

-- No prefix has a dash in it, so the pattern's `prefix` group is what stands before the first dash.
unfoldable pub split_dash : String → Option (String × String)
split_dash String.[] = none
split_dash (String.◌∷◌ c s) =
    let rest = split_dash s in
    if code c == b'-'
    then some ("", s)
    else elim rest [ none ↦ none | some (a, b) ↦ some (String.◌∷◌ c a, b) ]

abbrev pub pair : Option IdType → Option ℕ → Option (IdType × ℕ)
pair none n = none
pair (some t) none = none
pair (some t) (some n) = some (t, n)

abbrev pub matched : Option (String × String) → Option (IdType × ℕ)
matched none = none
matched (some (a, b)) = pair (by_prefix a) (read_serial b)

-- LOCAL_ID_RE.match: `none` is the ValueError.
unfoldable pub parse_local_id : String → Option (IdType × ℕ)
unfolding split_dash
parse_local_id raw = matched (split_dash raw)

-- The counters are keyed by the text of the type, a StrEnum.
pub record IdAllocator : Type 0 where
  pub proof_id : String
  pub counters : List (String × ℕ)

abbrev pub or_zero : Option ℕ → ℕ
or_zero none = 0
or_zero (some n) = n

abbrev pub counter : IdAllocator → IdType → ℕ
counter a t = or_zero (lookup (prefix t) a.counters)

abbrev pub minted : IdAllocator → IdType → Option (String × IdAllocator)
minted a t =
    let serial = counter a t + 1 in
    elim (full_id a.proof_id (typed t) serial) [
      | none ↦ none
      | some id ↦ some (id, record a { counters = insert (prefix t) serial a.counters })
    ]

abbrev pub minted_for : IdAllocator → Option IdType → Option (String × IdAllocator)
minted_for a none = none
minted_for a (some t) = minted a t

-- `next`
unfoldable pub next_id : Kind → IdAllocator → Option (String × IdAllocator)
unfolding full_id
next_id kind a = minted_for a (resolve kind)

-- `used`: the default dict keeps the zero that it answers with.
abbrev pub used_of : IdAllocator → Option IdType → Option (ℕ × IdAllocator)
used_of a none = none
used_of a (some t) =
    some (counter a t, record a { counters = insert (prefix t) (counter a t) a.counters })

unfoldable pub used : Kind → IdAllocator → Option (ℕ × IdAllocator)
used kind a = used_of a (resolve kind)

-- `__init__`, over the entries of `start`
abbrev pub started : List (String × ℕ) → List (Kind × ℕ) → Option (List (String × ℕ))
started counters [] = some counters
started counters ((kind, last) ∷ start) = elim (resolve kind) [
  | none ↦ none
  | some t ↦ started (insert (prefix t) last counters) start
]

unfoldable pub allocator : String → List (Kind × ℕ) → Option IdAllocator
allocator pid start = elim (started [] start) [
  | none ↦ none
  | some counters ↦ some (record { proof_id = pid; counters = counters })
]
