-- ===== src/Decimal.antt =====
-- Python's str(n) of a whole number, and the decimal texts that the program's patterns read,
-- [1-9][0-9]* before `$`, which also stands before a line feed that ends the text.
pub mod Digits
pub mod RoundTrip
use Prim.Native.Char.{Char, code}
use Prim.Native.String
use persistent_atp.Prelude.{
  ℕ, zero, suc, ◌+◌, ◌-◌, ◌*◌, ◌/◌, ◌%◌, String, Bool, true, false, ◌&&◌, Option, none, some, ltb,
  leb, ◌==◌, if◌then◌else◌, ◌≡◌, refl,
}

abbrev pub digit : ℕ → Char
digit n = elim n [
  | zero ↦ "0"
  | suc zero ↦ "1"
  | suc (suc zero) ↦ "2"
  | suc (suc (suc zero)) ↦ "3"
  | suc (suc (suc (suc zero))) ↦ "4"
  | suc (suc (suc (suc (suc zero)))) ↦ "5"
  | suc (suc (suc (suc (suc (suc zero))))) ↦ "6"
  | suc (suc (suc (suc (suc (suc (suc zero)))))) ↦ "7"
  | suc (suc (suc (suc (suc (suc (suc (suc zero))))))) ↦ "8"
  | _ ↦ "9"
]

-- The digits of n before a text.
pub decimal_from : ℕ → ℕ → String → String
decimal_from zero n acc = acc
decimal_from (suc fuel) n acc =
    let longer = String.◌∷◌ (digit (n % 10)) acc in
    let rest = decimal_from fuel (n / 10) longer in if ltb n 10 then longer else rest

-- A number has at most as many digits as it counts, and one.
unfoldable pub decimal : ℕ → String
unfolding decimal_from
decimal n = decimal_from (suc n) n ""

abbrev pub is_digit : Char → Bool
is_digit c = leb b'0' (code c) && leb (code c) b'9'

-- A last line feed, or nothing.
abbrev pub at_end : String → Bool
at_end String.[] = true
at_end (String.◌∷◌ c String.[]) = code c == 10
at_end (String.◌∷◌ c (String.◌∷◌ d s)) = false

-- [0-9]*$, behind digits of the value n
unfoldable pub read : ℕ → String → Option ℕ
read n String.[] = some n
read n (String.◌∷◌ c s) =
    let rest = read (n * 10 + (code c - b'0')) s in
    if is_digit c then rest else if at_end (String.◌∷◌ c s) then some n else none

-- [1-9][0-9]*$
unfoldable pub read_serial : String → Option ℕ
unfolding read
read_serial String.[] = none
read_serial (String.◌∷◌ c s) =
    if leb b'1' (code c) && leb (code c) b'9' then read (code c - b'0') s else none

printed : decimal 1070 ≡ "1070"
unfolding decimal
printed = refl

read_back : read_serial "1070" ≡ some 1070
unfolding read_serial
read_back = refl

leading_zero : read_serial "07" ≡ none
unfolding read_serial
leading_zero = refl
