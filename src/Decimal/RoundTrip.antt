-- ===== src/Decimal/RoundTrip.antt =====
-- The pattern reads exactly the decimal texts of the positive numbers, and such a text with a line
-- feed behind it.
use Prim.Native.Char.{Char, code}
use Prim.Native.String
use text.Mathlib.TextEquality.{Char-path}
use text.Mathlib.TextLemmas.{cons-append, nil-append, append-nil}
use persistent_atp.Prelude.{
  ℕ, zero, suc, ◌+◌, ◌-◌, ◌*◌, ◌/◌, ◌%◌, ◌<◌, ◌≤◌, String, true, ◌&&◌, some, ltb, leb, ==_iff, ◌≡◌,
  refl, sym, ap, ap₂, subst, ◌∙◌, ◌⊎◌, arith, Bool-cases, inl, inr, eq_of_some,
}
use persistent_atp.Decimal.{digit, decimal_from, decimal, is_digit, at_end, read, read_serial}
use persistent_atp.Decimal.Digits.{code-digit, digit-code, decimal_from-append, decimal-snoc}

read-digit : (m d : ℕ) (s : String) → d < 10 → read m (String.◌∷◌ (digit d) s) ≡ read (m * 10 + d) s
unfolding read
read-digit m d s h = ground (arith, code-digit d h)

read-decimal_from : (f n : ℕ) (acc : String) → n < f → read 0 (decimal_from f n acc) ≡ read n acc
unfolding decimal_from
read-decimal_from zero n acc h = elim h [ ]
read-decimal_from (suc f) n acc h = elim (Bool-cases (ltb n 10)) [
  | inl e ↦
      rw e (read-digit 0 (n % 10) acc (omega arith) ∙ ap (λ k. read k acc) (ground (arith, e)))
  | inr e ↦ rw e (
      read-decimal_from f (n / 10) (String.◌∷◌ (digit (n % 10)) acc) (ground (arith, e))
      ∙ read-digit (n / 10) (n % 10) acc (omega arith)
      ∙ ap (λ k. read k acc) (omega arith))
]

-- The first digit of a positive number is not a zero.
abbrev Leads : String → Type 0
Leads String.[] = ⊥
Leads (String.◌∷◌ c s) = (49 ≤ code c) × (code c ≤ 57)

decimal_from-Leads : (f n : ℕ) (acc : String) → n < f → 1 ≤ n → Leads (decimal_from f n acc)
unfolding decimal_from
decimal_from-Leads zero n acc h k = elim h [ ]
decimal_from-Leads (suc f) n acc h k = elim (Bool-cases (ltb n 10)) [
  | inl e ↦ rw e (ground (arith, e, code-digit (n % 10)))
  | inr e ↦ rw e (
      decimal_from-Leads f (n / 10) (String.◌∷◌ (digit (n % 10)) acc) (ground (arith, e))
        (ground (arith, e)))
]

read_serial-Leads : (s : String) → Leads s → read_serial s ≡ read 0 s
unfolding read_serial read
read_serial-Leads String.[] h = absurd h
read_serial-Leads (String.◌∷◌ c s) h = ground arith

-- A positive number is read back from its decimal text.
pub read_serial-decimal : (n : ℕ) → 1 ≤ n → read_serial (decimal n) ≡ some n
unfolding decimal read
read_serial-decimal n h =
    read_serial-Leads (decimal_from (suc n) n "") (decimal_from-Leads (suc n) n "" (omega arith) h)
    ∙ read-decimal_from (suc n) n "" (omega arith)

-- The text, alone or with a line feed behind it.
abbrev pub Spells : String → String → Type 0
Spells raw text = (raw ≡ text) ⊎ (raw ≡ String.◌++◌ text "\n")

at_end-feed : (c : Char) (s : String) → at_end (String.◌∷◌ c s) ≡ true → String.◌∷◌ c s ≡ "\n"
at_end-feed c String.[] h = ap (λ x. String.◌∷◌ x "") (Char-path c "\n" ((==_iff (code c) 10).0 h))
at_end-feed c (String.◌∷◌ d s) h = absurd (cc)

read-Spells :
    (m n : ℕ) (s : String)
    → 1 ≤ m
    → read m s ≡ some n
    → Spells (String.◌++◌ (decimal m) s) (decimal n) × (m ≤ n)
unfolding read
read-Spells m n String.[] h e =
    (inl (append-nil (decimal m) ∙ ap decimal (eq_of_some e)), omega (arith, eq_of_some e))
read-Spells m n (String.◌∷◌ c s) h e = elim (Bool-cases (is_digit c)) [
  | inl q ↦
      let d = code c - 48 in
      let (spelt, le) = read-Spells (m * 10 + d) n s (omega arith) (rw q at e) in
      let same : String.◌++◌ (decimal m) (String.◌∷◌ c s) ≡ String.◌++◌ (decimal (m * 10 + d)) s =
        ap (λ x. String.◌++◌ (decimal m) (String.◌∷◌ x s)) (sym (digit-code c q))
        ∙ decimal-snoc m d s h (ground (arith, q)) in
      (subst (λ x. Spells x (decimal n)) (sym same) spelt, omega (arith, le))
  | inr q ↦ elim (Bool-cases (at_end (String.◌∷◌ c s))) [
    | inl r ↦
        let same : m ≡ n = eq_of_some (rw (q, r) at e) in
        (inr (ap₂ String.◌++◌ (ap decimal same) (at_end-feed c s r)), omega (arith, same))
    | inr r ↦ absurd (ground (arith, q, r))
  ]
]

decimal-below : (m : ℕ) → m < 10 → decimal m ≡ String.◌∷◌ (digit m) ""
unfolding decimal decimal_from
decimal-below m h =
    let small : ltb m 10 ≡ true = ground arith in
    rw small (ap (λ k. String.◌∷◌ (digit k) "") (omega arith))

-- What is read is positive, and its decimal text is what was there.
pub read_serial-Spells :
    (s : String) (n : ℕ) → read_serial s ≡ some n → Spells s (decimal n) × (1 ≤ n)
unfolding read_serial
read_serial-Spells String.[] n e = absurd (cc)
read_serial-Spells (String.◌∷◌ c s) n e =
    elim (Bool-cases (leb b'1' (code c) && leb (code c) b'9')) [
      | inl q ↦
          let m = code c - 48 in
          let (spelt, le) = read-Spells m n s (ground (arith, q)) (rw q at e) in
          let whole : String.◌++◌ (decimal m) s ≡ String.◌∷◌ c s =
            ap (λ x. String.◌++◌ x s) (decimal-below m (ground (arith, q)))
            ∙ cons-append (digit m) "" s
            ∙ ap (String.◌∷◌ (digit m)) (nil-append s)
            ∙ ap (λ x. String.◌∷◌ x s) (digit-code c (ground (arith, q))) in
          (subst (λ x. Spells x (decimal n)) whole spelt, ground (arith, q, le))
      | inr q ↦ absurd (ground (arith, q))
    ]

pub read_serial-feed : (n : ℕ) → 1 ≤ n → read_serial (String.◌++◌ (decimal n) "\n") ≡ some n
unfolding decimal
read_serial-feed n h =
    ap read_serial
      (sym (decimal_from-append (suc n) n "" "\n") ∙ ap (decimal_from (suc n) n) (nil-append "\n"))
    ∙ read_serial-Leads (decimal_from (suc n) n "\n")
        (decimal_from-Leads (suc n) n "\n" (omega arith) h)
    ∙ read-decimal_from (suc n) n "\n" (omega arith)
    ∙ unfold read in refl
