-- ===== src/Mathproof/Soundness/Payload.antt =====
-- The violations, what is read of a result, and the tests that the checks share.
use Prim.Native.Char.{Char, code}
use Prim.Native.String
use Prim.Native.String.{len, slice}
use text.Mathlib.Text.{starts_with}
use persistent_atp.Prelude.{
  ℕ, zero, suc, String, Bool, true, false, ◌&&◌, ◌||◌, Option, none, some, List, [], ◌∷◌, ◌++◌,
  str_eq, leb, if◌then◌else◌,
}
use persistent_atp.Json.{Value, null, str, bool, num}
use persistent_atp.Vocab.Labels.{contains}
use persistent_atp.Decimal.{decimal, at_end}

pub data SoundnessReason : Type 0 where
  subgoal_count_mismatch omitted_subgoal duplicated_subgoal unknown_child_state
        executor_failure_as_success closure_without_zero_goals heuristic_closure_attempt
        non_kernel_closure score_as_truth missing_environment_hash malformed_environment_hash
        obstruction_environment_mismatch certificate_required promotion_without_replay
        replay_environment_mismatch environment_stale :
      SoundnessReason

pub record SoundnessViolation : Type 0 where
  pub reason : SoundnessReason
  pub pointer : String

pub record Obstruction : Type 0 where
  pub environment_hash : Value

pub record TacticEdge : Type 0 where
  pub source_state_id : Option String
  pub tactic_label : Option String
  pub executor_result : Option String
  pub subgoal_count : Value
  pub produced_goal_ids : List String

pub record FormalState : Type 0 where
  pub state_id : Option String
  pub status : Option String
  pub annotations : List String

pub record ReplayResult : Type 0 where
  pub status : Option String
  pub environment_hash : Value

pub record Certificate : Type 0 where
  pub declaration_id : Option String
  pub environment_hash : Value
  pub status : Option String
  pub replay_result : Option ReplayResult

pub record SearchResult : Type 0 where
  pub environment_hash : Value
  pub disposition : Option String
  pub obstructions : List Obstruction
  pub states : List FormalState
  pub tactic_edges : List TacticEdge
  pub certificate : Option Certificate

-- x == y, with None for `none`
abbrev pub text_eq : Option String → Option String → Bool
text_eq none none = true
text_eq none (some t) = false
text_eq (some s) none = false
text_eq (some s) (some t) = str_eq s t

-- x in texts
abbrev pub is_one_of : List String → Option String → Bool
is_one_of texts none = false
is_one_of texts (some s) = contains texts s

abbrev pub truth_like_annotations : List String
truth_like_annotations = "truth" ∷ "is_true" ∷ "proved" ∷ "valid" ∷ "certainty_of_truth" ∷ []

abbrev pub is_hex : Char → Bool
is_hex c = (leb b'0' (code c) && leb (code c) b'9') || (leb b'a' (code c) && leb (code c) b'f')

abbrev pub hex_run : ℕ → String → Bool
hex_run zero s = at_end s
hex_run (suc n) String.[] = false
hex_run (suc n) (String.◌∷◌ c s) = is_hex c && hex_run n s

-- SHA256_RE.match
unfoldable pub is_sha256 : String → Bool
is_sha256 s = starts_with s "sha256:" && hex_run 64 (slice s 7 (len s))

abbrev pub is_address : Value → Bool
is_address null = false
is_address (bool b) = false
is_address (num z k) = false
is_address (str s) = is_sha256 s

abbrev pub violation : SoundnessReason → String → List SoundnessViolation
violation reason pointer = record { reason = reason; pointer = pointer } ∷ []

-- f"{text}[{index}]"
abbrev pub indexed : String → ℕ → String
indexed text index = String.◌++◌ text (String.◌++◌ "[" (String.◌++◌ (decimal index) "]"))

abbrev pub below : String → String → String
below pointer name = String.◌++◌ pointer name

abbrev pub when : Bool → List SoundnessViolation → List SoundnessViolation
when b vs = if b then vs else []

-- for index, x in enumerate(xs)
abbrev pub each :
    {A : Type 0} → (ℕ → A → List SoundnessViolation) → ℕ → List A → List SoundnessViolation
each check index [] = []
each check index (x ∷ xs) = check index x ++ each check (suc index) xs
