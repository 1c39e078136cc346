-- ===== src/Json/Equality.antt =====
-- Equality of JSON trees is decidable.
use native.Mathlib.Decide.{ℕ_discrete}
use persistent_atp.Prelude.{
  String, str_eq, eq_iff, Bool-cases, inl, inr, true, false, ◌≡◌, sym, ◌∙◌,
}
use persistent_atp.Json.{Value, ℤ, Json}

pub String-discrete : Discrete String
String-discrete s t = elim (Bool-cases (str_eq s t)) [
  | inl e ↦ yes ((eq_iff s t).0 e)
  | inr e ↦ no (λ p. differ (sym e ∙ (eq_iff s t).1 p))
]
  where
    differ : ¬ (false ≡ true)
    differ h = cc

pub ℤ-discrete : Discrete ℤ
ℤ-discrete = hlevel ℕ_discrete

pub Value-discrete : Discrete Value
Value-discrete = hlevel (ℕ_discrete, String-discrete, ℤ-discrete)

pub Json-discrete : Discrete Json
Json-discrete = hlevel (Value-discrete, String-discrete)
