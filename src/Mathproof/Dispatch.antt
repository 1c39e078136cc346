-- ===== src/Mathproof/Dispatch.antt =====
-- mathproof/dispatch.py: the verdict of a critic and the outcome of an explorer as operations, and the
-- serials of the ids that they take. Of a result, what is read: `none` is a missing key.
pub mod Fresh
pub mod Reviewed
use Prim.Native.Char.{code}
use Prim.Native.Nat.{max}
use Prim.Native.String
use persistent_atp.Prelude.{
  ℕ, ◌+◌, String, Bool, true, false, Option, none, some, List, [], ◌∷◌, str_eq, ◌==◌, if◌then◌else◌,
}
use persistent_atp.Json.{Value, str}
use persistent_atp.Vocab.Labels.{contains}
use persistent_atp.Decimal.{decimal, read_serial}
use persistent_atp.Gate.Ops.{Op, upsert_node, set_field, add_edge}

-- The text before the first slash, and the text behind it.
abbrev pub scope_of : String → String
scope_of String.[] = ""
scope_of (String.◌∷◌ c s) = if code c == b'/' then "" else String.◌∷◌ c (scope_of s)

abbrev pub local_of : String → Option String
local_of String.[] = none
local_of (String.◌∷◌ c s) = if code c == b'/' then some s else local_of s

-- What follows a literal text.
abbrev pub strip : String → String → Option String
strip String.[] s = some s
strip (String.◌∷◌ c p) String.[] = none
strip (String.◌∷◌ c p) (String.◌∷◌ d s) = if code c == code d then strip p s else none

abbrev pub serial_text : Option String → Option ℕ
serial_text none = none
serial_text (some s) = read_serial s

abbrev pub serial_behind : String → Option String → Option ℕ
serial_behind prefix none = none
serial_behind prefix (some s) = serial_text (strip (String.◌++◌ prefix "-") s)

-- pattern.match: the serial of an id with the prefix.
abbrev pub serial_in : String → String → Option ℕ
serial_in prefix id = if str_eq (scope_of id) "" then none else serial_behind prefix (local_of id)

abbrev pub or_zero : Option ℕ → ℕ
or_zero none = 0
or_zero (some n) = n

abbrev pub highest : String → List String → ℕ
highest prefix [] = 0
highest prefix (id ∷ ids) = max (or_zero (serial_in prefix id)) (highest prefix ids)

-- `_next_serial`, over the ids that the view lists; a view that lists none has the serial 1.
unfoldable pub next_serial : String → List String → ℕ
next_serial prefix ids = highest prefix ids + 1

-- f"{proof_id}/{prefix}-{serial}"
unfoldable pub minted_id : String → String → ℕ → String
minted_id pid prefix serial =
    String.◌++◌ pid (String.◌∷◌ "/" (String.◌++◌ prefix (String.◌∷◌ "-" (decimal serial))))

pub record CriticResult : Type 0 where
  pub verdict : Option String
  pub actor : Option String
  pub review_edge_id : Option String

abbrev pub or_text : String → Option String → String
or_text default none = default
or_text default (some s) = s

abbrev pub promotion : String → String → List Op
promotion claim_id verdict =
    if contains ("supported" ∷ "critic-accepted" ∷ []) verdict
    then set_field "Claim" claim_id "status" (str "critic-accepted") (some (str "provisional")) ∷ []
    else []

abbrev pub review : CriticResult → String → String → Option String → Option (List Op)
review r claim_id attempt_id none = none
review r claim_id attempt_id (some verdict) = some (
    upsert_node "Attempt" attempt_id (
      ("actor", str (or_text "critic" r.actor))
      ∷ ("worker_class", str "critic")
      ∷ ("status", str verdict)
      ∷ [])
    ∷ add_edge "REVIEWS_CLAIM" attempt_id claim_id
        (or_text (String.◌++◌ attempt_id "-reviews") r.review_edge_id) []
    ∷ promotion claim_id verdict)

-- `none` is the KeyError of a result without a verdict.
unfoldable pub critic_result_to_ops : CriticResult → String → String → Option (List Op)
critic_result_to_ops r claim_id attempt_id = review r claim_id attempt_id r.verdict

pub record ResearchResult : Type 0 where
  pub parent_state_id : Option String
  pub move_id : Option String
  pub detail : Value

-- result.get("move_id") or …
abbrev pub own_or : String → Option String → String
own_or other none = other
own_or other (some s) = if str_eq s "" then other else s

abbrev pub move_ops : String → String → Value → List Op
move_ops parent move_id detail =
    upsert_node "ResearchMove" move_id (("status", str "queued") ∷ ("detail", detail) ∷ [])
    ∷ add_edge "PROPOSES" parent move_id (String.◌++◌ move_id "-proposed") []
    ∷ []

abbrev pub under_parent : ResearchResult → String → Option String → Option (List Op)
under_parent r fresh none = none
under_parent r fresh (some parent) = some (move_ops parent (own_or fresh r.move_id) r.detail)

-- `none` is the KeyError of a result without a parent.
unfoldable pub research_result_to_ops : ResearchResult → String → List String → Option (List Op)
unfolding next_serial minted_id
research_result_to_ops r pid ids =
    under_parent r (minted_id pid "rm" (next_serial "rm" ids)) r.parent_state_id
