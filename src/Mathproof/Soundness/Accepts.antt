-- ===== src/Mathproof/Soundness/Accepts.antt =====
-- What a check that finds nothing has looked at.
use native.Mathlib.Nat.{pow-suc}
use persistent_atp.Prelude.{
  ℕ, zero, suc, ◌*◌, ◌^◌, ◌≤◌, String, Bool, true, false, not, Option, none, some, List, [], ◌∷◌,
  ◌++◌, str_eq, eq_iff, eq_refl, ==_iff, In-any, length, if◌then◌else◌, ◌≡◌, refl, ap, subst, ◌∙◌,
  inl, inr, arith, In, Distinct, eq_of_some,
}
use persistent_atp.Json.{Value, null, str, bool, num, int, pos, negsuc, value_eq}
use persistent_atp.Vocab.Labels.{contains}
use persistent_atp.Mathproof.Soundness.{
  SoundnessReason, SoundnessViolation, violation, when, each, joined, both, count, text_eq,
  is_one_of,
}

module _ {A : Type 0} where
  pub append-eq-nil : (xs ys : List A) → (xs ++ ys) ≡ [] → (xs ≡ []) × (ys ≡ [])
  append-eq-nil [] ys h = (refl, h)
  append-eq-nil (x ∷ xs) ys h = absurd (cc)

pub when-nil :
    (b : Bool) (reason : SoundnessReason) (pointer : String)
    → when b (violation reason pointer) ≡ []
    → b ≡ false
when-nil true reason pointer h = absurd (cc)
when-nil false reason pointer h = refl

-- A check that stops at its first finding.
pub stop-nil :
    (b : Bool) (reason : SoundnessReason) (pointer : String) (rest : List SoundnessViolation)
    → (if b then violation reason pointer else rest) ≡ []
    → (b ≡ false) × (rest ≡ [])
stop-nil true reason pointer rest h = absurd (cc)
stop-nil false reason pointer rest h = (refl, h)

pub each-nil :
    {A : Type 0} (check : ℕ → A → List SoundnessViolation) (i : ℕ) (x : A) (xs : List A)
    → each check i xs ≡ []
    → In x xs
    → (k : ℕ) × (check k x ≡ [])
each-nil check i x [] h m = absurd m
each-nil check i x (y ∷ xs) h (inl e) =
    (i, subst (λ z. check i z ≡ []) e (append-eq-nil (check i y) (each check (suc i) xs) h).0)
each-nil check i x (y ∷ xs) h (inr m) =
    each-nil check (suc i) x xs (append-eq-nil (check i y) (each check (suc i) xs) h).1 m

pub joined-nil :
    (vs : List SoundnessViolation) (o : Option (List SoundnessViolation))
    → joined vs o ≡ some []
    → (vs ≡ []) × (o ≡ some [])
joined-nil vs none h = absurd (cc)
joined-nil vs (some ws) h = let (e, q) = append-eq-nil vs ws (eq_of_some h) in (e, ap some q)

pub both-nil :
    (o other : Option (List SoundnessViolation))
    → both o other ≡ some []
    → (o ≡ some []) × (other ≡ some [])
both-nil none other h = absurd (cc)
both-nil (some vs) other h = let (e, q) = joined-nil vs other h in (ap some e, q)

pub not-false : (b : Bool) → not b ≡ false → b ≡ true
not-false b h = ground (arith, h)

pub text_eq-eq : (o : Option String) (t : String) → text_eq o (some t) ≡ true → o ≡ some t
text_eq-eq none t h = absurd (cc)
text_eq-eq (some s) t h = ap some ((eq_iff s t).0 h)

pub eq-text_eq : (o : Option String) (t : String) → o ≡ some t → text_eq o (some t) ≡ true
eq-text_eq o t h = ap (λ x. text_eq x (some t)) h ∙ eq_refl t

pub In-contains : (xs : List String) (s : String) → In s xs → contains xs s ≡ true
In-contains xs s i = In-any (λ y. str_eq y s) s xs i (eq_refl s)

pub In-is_one_of :
    (xs : List String) (o : Option String) (s : String)
    → o ≡ some s
    → In s xs
    → is_one_of xs o ≡ true
In-is_one_of xs o s e i = ap (is_one_of xs) e ∙ In-contains xs s i

-- No text that is counted once stands twice.
In-count : (xs : List String) (c : String) → In c xs → 1 ≤ count xs c
In-count [] c m = absurd m
In-count (x ∷ xs) c (inl e) = ground (arith, eq_iff x c, e)
In-count (x ∷ xs) c (inr m) = ground (arith, In-count xs c m)

pub count-Distinct : (xs : List String) → ((c : String) → In c xs → count xs c ≤ 1) → Distinct xs
count-Distinct [] h = tt
count-Distinct (x ∷ xs) h = (
  λ m. let one = h x (inl refl) in absurd (ground (arith, eq_refl x, In-count xs x m, one)),
  count-Distinct xs (λ c m. let one = h c (inr m) in ground (arith, one)),
)

le-scaled : (n k : ℕ) → n ≤ n * 2 ^ k
le-scaled n zero = omega arith
le-scaled n (suc k) =
    let ih = le-scaled n k in omega (arith, ih, ap (λ (t : ℕ). n * t) (pow-suc 2 k))

-- A count that equals both a length and zero.
pub no_goals-length :
    (n : ℕ) (v : Value) → value_eq (int n) v ≡ true → value_eq v (int 0) ≡ true → n ≡ 0
unfolding value_eq
no_goals-length n null h k = absurd (cc)
no_goals-length n (str s) h k = absurd (cc)
no_goals-length n (bool true) h k = absurd (ground arith)
no_goals-length n (bool false) h k = ground (arith, h)
no_goals-length n (num (pos m) e) h k =
    let low : n * 2 ^ e ≡ m * 2 ^ 0 = (==_iff (n * 2 ^ e) (m * 2 ^ 0)).0 h in
    let zeroed : m * 2 ^ 0 ≡ 0 * 2 ^ e = (==_iff (m * 2 ^ 0) (0 * 2 ^ e)).0 k in
    omega (arith, low, zeroed, le-scaled n e)
no_goals-length n (num (negsuc m) e) h k = absurd (cc)

pub length-zero : {A : Type 0} (xs : List A) → length xs ≡ 0 → xs ≡ []
length-zero [] h = refl
length-zero (x ∷ xs) h = absurd (omega (arith, h))
