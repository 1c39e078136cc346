-- ===== src/Mathproof/Scheduler/Statistics.antt =====
-- SchedulerStatistics: the dict of its counters in insertion order. `to_dict` prints them.
pub mod Counts
use persistent_atp.Prelude.{
  ℕ, ◌+◌, String, Bool, true, false, ◌&&◌, Option, none, some, List, [], ◌∷◌, str_eq, ◌==◌,
  if◌then◌else◌,
}
use persistent_atp.Mathproof.Scheduler.Numbers.{Float}

abbrev pub Outcomes : Type 0
Outcomes = List ((String × String) × ℕ)

abbrev pub is_key : String → String → String × String → Bool
is_key c o key = str_eq key.0 c && str_eq key.1 o

-- self._outcomes.get((category, outcome), 0)
abbrev pub outcomes : String → String → Outcomes → ℕ
outcomes c o [] = 0
outcomes c o ((key, n) ∷ d) = if is_key c o key then n else outcomes c o d

abbrev pub put : String → String → ℕ → Outcomes → Outcomes
put c o n [] = ((c, o), n) ∷ []
put c o n ((key, m) ∷ d) = if is_key c o key then (key, n) ∷ d else (key, m) ∷ put c o n d

-- `record`
unfoldable pub record_outcome : String → String → Outcomes → Outcomes
record_outcome c o d = put c o (outcomes c o d + 1) d

unfoldable pub attempts : String → Outcomes → ℕ
attempts c [] = 0
attempts c ((key, n) ∷ d) = (if str_eq key.0 c then n else 0) + attempts c d

unfoldable pub failure_risk : {W : Type 0} ⦃f : Float W⦄ → String → Outcomes → W
unfolding attempts
failure_risk ⦃f⦄ c d =
    if attempts c d == 0 then f.decimal 5 1 else f.ratio (outcomes c "failed" d) (attempts c d)

-- `update_statistics`, of a result that is accepted or not
unfoldable pub update_statistics : Bool → String → Outcomes → Outcomes
unfolding record_outcome
update_statistics accepted c d = record_outcome c (if accepted then "succeeded" else "failed") d
