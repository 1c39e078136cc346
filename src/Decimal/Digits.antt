-- ===== src/Decimal/Digits.antt =====
-- Single digits, and how the digits of a number are built up.
use Prim.Native.Char.{Char, code}
use Prim.Native.String
use text.Mathlib.TextEquality.{Char-path}
use text.Mathlib.TextLemmas.{cons-append, nil-append, append_assoc}
use persistent_atp.Prelude.{
  ℕ, zero, suc, ◌+◌, ◌-◌, ◌*◌, ◌/◌, ◌%◌, ◌<◌, ◌≤◌, String, true, false, ltb, ◌≡◌, refl, sym, ap,
  ap₂, ◌∙◌, arith, Bool-cases, inl, inr,
}
use persistent_atp.Decimal.{digit, decimal_from, decimal, is_digit}

pub code-digit : (d : ℕ) → d < 10 → code (digit d) ≡ 48 + d
code-digit zero h = refl
code-digit (suc zero) h = refl
code-digit (suc (suc zero)) h = refl
code-digit (suc (suc (suc zero))) h = refl
code-digit (suc (suc (suc (suc zero)))) h = refl
code-digit (suc (suc (suc (suc (suc zero))))) h = refl
code-digit (suc (suc (suc (suc (suc (suc zero)))))) h = refl
code-digit (suc (suc (suc (suc (suc (suc (suc zero))))))) h = refl
code-digit (suc (suc (suc (suc (suc (suc (suc (suc zero)))))))) h = refl
code-digit (suc (suc (suc (suc (suc (suc (suc (suc (suc zero))))))))) h = refl
code-digit (suc (suc (suc (suc (suc (suc (suc (suc (suc (suc n)))))))))) h = absurd (omega arith)

pub digit-code : (c : Char) → is_digit c ≡ true → digit (code c - 48) ≡ c
digit-code c h =
    Char-path (digit (code c - 48)) c (code-digit (code c - 48) (ground arith) ∙ ground arith)

-- More fuel prints the same.
pub decimal_from-fuel :
    (f g n : ℕ) (acc : String) → n < f → n < g → decimal_from f n acc ≡ decimal_from g n acc
unfolding decimal_from
decimal_from-fuel zero g n acc h k = elim h [ ]
decimal_from-fuel (suc f) zero n acc h k = elim k [ ]
decimal_from-fuel (suc f) (suc g) n acc h k = elim (Bool-cases (ltb n 10)) [
  | inl e ↦ rw e refl
  | inr e ↦ rw e (
      decimal_from-fuel f g (n / 10) (String.◌∷◌ (digit (n % 10)) acc) (ground (arith, e))
        (ground (arith, e)))
]

pub decimal_from-append :
    (f n : ℕ) (acc s : String)
    → decimal_from f n (String.◌++◌ acc s) ≡ String.◌++◌ (decimal_from f n acc) s
unfolding decimal_from
decimal_from-append zero n acc s = refl
decimal_from-append (suc f) n acc s = elim (Bool-cases (ltb n 10)) [
  | inl e ↦ rw e (sym (cons-append (digit (n % 10)) acc s))
  | inr e ↦ rw e (
      ap (decimal_from f (n / 10)) (sym (cons-append (digit (n % 10)) acc s))
      ∙ decimal_from-append f (n / 10) (String.◌∷◌ (digit (n % 10)) acc) s)
]

one_more :
    (m d : ℕ)
    → 1 ≤ m
    → d < 10
    → decimal (m * 10 + d) ≡ String.◌++◌ (decimal m) (String.◌∷◌ (digit d) "")
unfolding decimal decimal_from
one_more m d h k =
    let n = m * 10 + d in
    let more : ltb n 10 ≡ false = ground arith in
    rw more (
      ap₂ (λ q r. decimal_from n q (String.◌∷◌ (digit r) "")) (omega arith) (omega arith)
      ∙ decimal_from-fuel n (suc m) m (String.◌∷◌ (digit d) "") (omega arith) (omega arith)
      ∙ ap (decimal_from (suc m) m) (sym (nil-append (String.◌∷◌ (digit d) "")))
      ∙ decimal_from-append (suc m) m "" (String.◌∷◌ (digit d) ""))

-- One digit more.
pub decimal-snoc :
    (m d : ℕ) (s : String)
    → 1 ≤ m
    → d < 10
    → String.◌++◌ (decimal m) (String.◌∷◌ (digit d) s) ≡ String.◌++◌ (decimal (m * 10 + d)) s
decimal-snoc m d s h k =
    ap (String.◌++◌ (decimal m))
      (sym (cons-append (digit d) "" s ∙ ap (String.◌∷◌ (digit d)) (nil-append s)))
    ∙ sym (append_assoc (decimal m) (String.◌∷◌ (digit d) "") s)
    ∙ ap (λ t. String.◌++◌ t s) (sym (one_more m d h k))
