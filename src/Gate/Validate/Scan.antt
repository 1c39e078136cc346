-- ===== src/Gate/Validate/Scan.antt =====
-- The validators' loop, `for index, op in enumerate(proposal.ops)`, and look-ups in their tables.
use persistent_atp.Prelude.{
  ℕ, zero, suc, ◌+◌, String, ◌≡◌, refl, Bool, false, ◌&&◌, Option, none, some, List, [], ◌∷◌, ◌++◌,
  str_eq, if◌then◌else◌, arith, get_elem?, ap, ◌∙◌, subst, eq_of_some,
}
use persistent_atp.Json.{Value, str, null, bool, num}
use persistent_atp.Vocab.Labels.{contains}
use persistent_atp.Gate.Ops.{Op}
use persistent_atp.Gate.Reasons.{Reason, Rejection}

abbrev pub at : Reason → ℕ → List Rejection
at reason index = record { reason = reason; op_index = some index } ∷ []

abbrev pub when : Bool → List Rejection → List Rejection
when b rs = if b then rs else []

unfoldable pub scan : (ℕ → Op → List Rejection) → ℕ → List Op → List Rejection
scan check i [] = []
scan check i (op ∷ ops) = check i op ++ scan check (suc i) ops

-- d.get((a, b))
abbrev pub lookup₂ {ℓ} : {V : Type ℓ} → String → String → List ((String × String) × V) → Option V
lookup₂ a b [] = none
lookup₂ a b (((c, d), v) ∷ t) = if str_eq c a && str_eq d b then some v else lookup₂ a b t

-- value in frozenset
abbrev pub text_in : List String → Value → Bool
text_in xs (str s) = contains xs s
text_in xs null = false
text_in xs (bool b) = false
text_in xs (num z k) = false

append-eq-nil : (xs ys : List Rejection) → (xs ++ ys) ≡ [] → (xs ≡ []) × (ys ≡ [])
append-eq-nil [] ys h = (refl, h)
append-eq-nil (x ∷ xs) ys h = absurd (cc)

-- A loop that finds nothing found nothing at any op.
pub scan-eq-nil :
    (check : ℕ → Op → List Rejection) (i k : ℕ) (ops : List Op) (op : Op)
    → scan check i ops ≡ []
    → get_elem? ops k ≡ some op
    → check (i + k) op ≡ []
unfolding scan
scan-eq-nil check i k [] op h e = absurd (cc)
scan-eq-nil check i zero (o ∷ ops) op h e =
    subst (λ x. check (i + 0) x ≡ []) (eq_of_some e)
      (ap (λ j. check j o) (omega arith) ∙ (append-eq-nil (check i o) (scan check (suc i) ops) h).0)
scan-eq-nil check i (suc k) (o ∷ ops) op h e =
    ap (λ j. check j op) (omega arith)
    ∙ scan-eq-nil check (suc i) k ops op (append-eq-nil (check i o) (scan check (suc i) ops) h).1 e

pub eq-nil_left : (xs ys : List Rejection) → (xs ++ ys) ≡ [] → xs ≡ []
eq-nil_left xs ys h = (append-eq-nil xs ys h).0

pub eq-nil_right : (xs ys : List Rejection) → (xs ++ ys) ≡ [] → ys ≡ []
eq-nil_right xs ys h = (append-eq-nil xs ys h).1
