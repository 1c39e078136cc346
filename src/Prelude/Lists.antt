-- ===== src/Prelude/Lists.antt =====
-- Lists measured and indexed by native numbers, with Boolean quantifiers that compute.
use Prim.Native.Nat.{ℕ, zero, suc, ◌+◌}
use mathlib.Core.Path.{◌≡◌, refl, subst, sym}
use mathlib.Core.Logic.{◌⊎◌, inl, inr}
use mathlib.Core.List.{List, [], ◌∷◌, ◌++◌, map}
use mathlib.Core.Option.{Option, none, some}
use mathlib.Core.Bool.{Bool, true, false, ◌&&◌, ◌||◌}
use native.Mathlib.Omega.{arith}
use persistent_atp.Prelude.Tests.{if◌then◌else◌, Bool-cases, and_true, or_false}

module _ {ℓ} {A : Type ℓ} where
  abbrev pub length : List A → ℕ
  length [] = 0
  length (x ∷ xs) = suc (length xs)

  abbrev pub get_elem? : List A → ℕ → Option A
  get_elem? [] i = none
  get_elem? (x ∷ xs) zero = some x
  get_elem? (x ∷ xs) (suc i) = get_elem? xs i

  pub length-append : (xs ys : List A) → length (xs ++ ys) ≡ length xs + length ys
  length-append [] ys = omega arith
  length-append (x ∷ xs) ys = omega (arith, length-append xs ys)

  -- The rows that pass a test, in order.
  abbrev pub keep : (A → Bool) → List A → List A
  keep p [] = []
  keep p (x ∷ xs) = let rest = keep p xs in if p x then x ∷ rest else rest

  abbrev pub any : (A → Bool) → List A → Bool
  any p [] = false
  any p (x ∷ xs) = p x || any p xs

  abbrev pub all : (A → Bool) → List A → Bool
  all p [] = true
  all p (x ∷ xs) = p x && all p xs

  abbrev pub last? : List A → Option A
  last? [] = none
  last? (x ∷ []) = some x
  last? (x ∷ y ∷ xs) = last? (y ∷ xs)

module _ {ℓ} {A : Type ℓ} where
  pub last?-snoc : (xs : List A) (x : A) → last? (xs ++ x ∷ []) ≡ some x
  last?-snoc [] x = refl
  last?-snoc (y ∷ []) x = refl
  last?-snoc (y ∷ z ∷ xs) x = last?-snoc (z ∷ xs) x

module _ {A : Type 0} where
  -- Membership, and a property of every element, by recursion: the tactics read both.
  abbrev pub In : A → List A → Type 0
  In a [] = ⊥
  In a (x ∷ xs) = (x ≡ a) ⊎ In a xs

  abbrev pub All : (A → Type 0) → List A → Type 0
  All P [] = Unit
  All P (x ∷ xs) = P x × All P xs

  pub All-In : (P : A → Type 0) (xs : List A) → ((x : A) → In x xs → P x) → All P xs
  All-In P [] h = tt
  All-In P (x ∷ xs) h = (h x (inl refl), All-In P xs (λ y m. h y (inr m)))

  pub In-All : (P : A → Type 0) (x : A) (xs : List A) → All P xs → In x xs → P x
  In-All P x [] a m = elim m [ ]
  In-All P x (y ∷ xs) a (inl e) = subst P e a.0
  In-All P x (y ∷ xs) a (inr m) = In-All P x xs a.1 m

  pub All-append : (P : A → Type 0) (xs ys : List A) → All P xs → All P ys → All P (xs ++ ys)
  All-append P [] ys a b = b
  All-append P (x ∷ xs) ys a b = (a.0, All-append P xs ys a.1 b)

  pub All-map : (P Q : A → Type 0) (xs : List A) → ((x : A) → P x → Q x) → All P xs → All Q xs
  All-map P Q [] f a = tt
  All-map P Q (x ∷ xs) f a = (f x a.0, All-map P Q xs f a.1)

  pub In-append_left : (a : A) (xs ys : List A) → In a xs → In a (xs ++ ys)
  In-append_left a [] ys m = elim m [ ]
  In-append_left a (x ∷ xs) ys (inl e) = inl e
  In-append_left a (x ∷ xs) ys (inr m) = inr (In-append_left a xs ys m)

  pub In-append_right : (a : A) (xs ys : List A) → In a ys → In a (xs ++ ys)
  In-append_right a [] ys m = m
  In-append_right a (x ∷ xs) ys m = inr (In-append_right a xs ys m)

  pub In-append : (a : A) (xs ys : List A) → In a (xs ++ ys) → In a xs ⊎ In a ys
  In-append a [] ys m = inr m
  In-append a (x ∷ xs) ys (inl e) = inl (inl e)
  In-append a (x ∷ xs) ys (inr m) = elim (In-append a xs ys m) [
    | inl l ↦ inl (inr l)
    | inr r ↦ inr r
  ]

  pub keep-In : (p : A → Bool) (a : A) (xs : List A) → In a (keep p xs) → In a xs × (p a ≡ true)
  keep-In p a [] m = elim m [ ]
  keep-In p a (x ∷ xs) m = elim (Bool-cases (p x)) [
    | inl e ↦ elim (let m' : (x ≡ a) ⊎ In a (keep p xs) = rw e at m in m') [
      | inl q ↦ (inl q, subst (λ y. p y ≡ true) q e)
      | inr r ↦ (inr (keep-In p a xs r).0, (keep-In p a xs r).1)
    ]
    | inr e ↦ let r = keep-In p a xs (rw e at m) in (inr r.0, r.1)
  ]

  pub In-keep : (p : A → Bool) (a : A) (xs : List A) → In a xs → p a ≡ true → In a (keep p xs)
  In-keep p a [] m h = elim m [ ]
  In-keep p a (x ∷ xs) (inl e) h =
      let t : p x ≡ true = subst (λ y. p y ≡ true) (sym e) h in rw t (inl e)
  In-keep p a (x ∷ xs) (inr m) h = elim (Bool-cases (p x)) [
    | inl e ↦ rw e (inr (In-keep p a xs m h))
    | inr e ↦ rw e (In-keep p a xs m h)
  ]

  pub any-In : (p : A → Bool) (xs : List A) → any p xs ≡ true → (a : A) × In a xs × (p a ≡ true)
  any-In p [] h = absurd (cc)
  any-In p (x ∷ xs) h = elim (Bool-cases (p x)) [
    | inl e ↦ (x, inl refl, e)
    | inr e ↦ let (a, m, t) = any-In p xs (rw e at h) in (a, inr m, t)
  ]

  pub In-any : (p : A → Bool) (a : A) (xs : List A) → In a xs → p a ≡ true → any p xs ≡ true
  In-any p a [] m h = elim m [ ]
  In-any p a (x ∷ xs) (inl e) h = let t : p x ≡ true = subst (λ y. p y ≡ true) (sym e) h in rw t
  In-any p a (x ∷ xs) (inr m) h = ground (arith, In-any p a xs m h)

  pub all-In : (p : A → Bool) (a : A) (xs : List A) → all p xs ≡ true → In a xs → p a ≡ true
  all-In p a [] h m = elim m [ ]
  all-In p a (x ∷ xs) h (inl e) = rw (← e) (and_true (p x) (all p xs) h).0
  all-In p a (x ∷ xs) h (inr m) = all-In p a xs (and_true (p x) (all p xs) h).1 m

  abbrev pub Distinct : List A → Type 0
  Distinct [] = Unit
  Distinct (x ∷ xs) = (¬ In x xs) × Distinct xs

  pub Distinct-snoc : (xs : List A) (a : A) → Distinct xs → ¬ In a xs → Distinct (xs ++ a ∷ [])
  Distinct-snoc [] a d h = (λ m. m, tt)
  Distinct-snoc (x ∷ xs) a d h =
      (λ m. fresh (In-append x xs (a ∷ []) m), Distinct-snoc xs a d.1 (λ m. h (inr m)))
    where
      fresh : In x xs ⊎ In x (a ∷ []) → ⊥
      fresh (inl m) = d.0 m
      fresh (inr (inl e)) = h (inl (sym e))
      fresh (inr (inr m)) = m

  abbrev pub Pairwise : (A → A → Type 0) → List A → Type 0
  Pairwise R [] = Unit
  Pairwise R (x ∷ xs) = All (R x) xs × Pairwise R xs

  pub All-of : (P : A → Type 0) (xs : List A) → ((x : A) → P x) → All P xs
  All-of P [] f = tt
  All-of P (x ∷ xs) f = (f x, All-of P xs f)

  pub All-mapped :
      (P : A → Type 0) (f : A → A) (xs : List A) → All (λ x. P (f x)) xs → All P (map f xs)
  All-mapped P f [] a = tt
  All-mapped P f (x ∷ xs) a = (a.0, All-mapped P f xs a.1)

  pub Pairwise-map :
      (R : A → A → Type 0) (f : A → A) (xs : List A)
      → ((x y : A) → R x y → R (f x) (f y))
      → Pairwise R xs
      → Pairwise R (map f xs)
  Pairwise-map R f [] g w = tt
  Pairwise-map R f (x ∷ xs) g w = (
    All-mapped (R (f x)) f xs (All-map (R x) (λ y. R (f x) (f y)) xs (g x) w.0),
    Pairwise-map R f xs g w.1,
  )

  pub Pairwise-snoc :
      (R : A → A → Type 0) (xs : List A) (z : A)
      → Pairwise R xs
      → All (λ x. R x z) xs
      → Pairwise R (xs ++ z ∷ [])
  Pairwise-snoc R [] z w a = (tt, tt)
  Pairwise-snoc R (x ∷ xs) z w a =
      (All-append (R x) xs (z ∷ []) w.0 (a.0, tt), Pairwise-snoc R xs z w.1 a.1)

  pub any-false : (p : A → Bool) (xs : List A) → any p xs ≡ false → All (λ x. p x ≡ false) xs
  any-false p [] h = tt
  any-false p (x ∷ xs) h = let q = or_false (p x) (any p xs) h in (q.0, any-false p xs q.1)

  pub All-zip :
      (P Q R : A → Type 0) (xs : List A)
      → ((x : A) → P x → Q x → R x)
      → All P xs
      → All Q xs
      → All R xs
  All-zip P Q R [] f a b = tt
  All-zip P Q R (x ∷ xs) f a b = (f x a.0 b.0, All-zip P Q R xs f a.1 b.1)

  pub In-map : (f : A → A) (y : A) (xs : List A) → In y (map f xs) → (x : A) × In x xs × (f x ≡ y)
  In-map f y [] m = absurd m
  In-map f y (x ∷ xs) (inl e) = (x, inl refl, e)
  In-map f y (x ∷ xs) (inr m) = let (z, n, e) = In-map f y xs m in (z, inr n, e)
