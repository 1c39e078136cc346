-- ===== src/Mathproof/Scheduler/Numbers.antt =====
-- All that the scheduler does with a `float`.
use persistent_atp.Prelude.{
  ℕ, List, [], ◌∷◌, ◌+◌, ◌*◌, ◌/◌, ◌^◌, ◌≡◌, Bool, true, false, ltb, if◌then◌else◌, arith,
}
use persistent_atp.Json.{Value, int}

-- `decimal m k` is the literal m / 10^k, `ratio` the division of two ints, and `to_value` the number
-- in a stored snapshot. `sum` is the builtin, whose rounding differs between versions of Python.
pub record Float {ℓ} (W : Type ℓ) : Type ℓ where
  pub decimal : ℕ → ℕ → W
  pub negative : W → W
  pub of_nat : ℕ → W
  pub ratio : ℕ → ℕ → W
  pub sum : List W → W
  pub mul : W → W → W
  pub lt : W → W → Bool
  pub to_value : W → Value

-- min(x, y)
abbrev pub least {ℓ} : {W : Type ℓ} ⦃f : Float W⦄ → W → W → W
least ⦃f⦄ x y = if f.lt y x then y else x

-- `<` as the standard of binary floats has it: `is_number` is being no NaN.
pub record IsOrdered {ℓ} (W : Type ℓ) ⦃f : Float W⦄ : Type ℓ where
  pub is_number : W → Bool
  pub lt-asym : (x y : W) → f.lt x y ≡ true → f.lt y x ≡ false
  pub not_lt-trans :
      (x y z : W) → is_number y ≡ true → f.lt x y ≡ false → f.lt y z ≡ false → f.lt x z ≡ false

-- The laws can be met: thousandths, with no number below 0.
abbrev pub Thousandths : Type 0
Thousandths = ℕ

abbrev pub total : List ℕ → ℕ
total [] = 0
total (x ∷ xs) = x + total xs

instance abbrev pub thousandths_float : Float Thousandths
thousandths_float = record {
  decimal = λ m k. m * 1000 / 10 ^ k;
  negative = λ x. 0;
  of_nat = λ n. n * 1000;
  ratio = λ a b. a * 1000 / b;
  sum = total;
  mul = λ x y. x * y / 1000;
  lt = ltb;
  to_value = λ x. int x;
}

pub ltb-asym : (x y : ℕ) → ltb x y ≡ true → ltb y x ≡ false
ltb-asym x y h = ground arith

pub not_ltb_trans : (x y z : ℕ) → ltb x y ≡ false → ltb y z ≡ false → ltb x z ≡ false
not_ltb_trans x y z h k = ground arith

abbrev pub thousandths_ordered : IsOrdered Thousandths
thousandths_ordered = record {
  is_number = λ x. true;
  lt-asym = ltb-asym;
  not_lt-trans = λ x y z n. not_ltb_trans x y z;
}
