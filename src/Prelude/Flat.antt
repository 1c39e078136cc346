-- ===== src/Prelude/Flat.antt =====
-- Lists that a loop builds by extending them, and maps to another type.
use mathlib.Core.Path.{◌≡◌, refl, subst, sym, ap}
use mathlib.Core.Logic.{inl, inr}
use mathlib.Core.List.{List, [], ◌∷◌, ◌++◌, map}
use persistent_atp.Prelude.Lists.{In, In-append, In-append_left, In-append_right}

module _ {A B : Type 0} where
  abbrev pub flat_map : (A → List B) → List A → List B
  flat_map f [] = []
  flat_map f (x ∷ xs) = f x ++ flat_map f xs

  pub flat_map-In :
      (f : A → List B) (y : B) (xs : List A) → In y (flat_map f xs) → (x : A) × In x xs × In y (f x)
  flat_map-In f y [] m = absurd m
  flat_map-In f y (x ∷ xs) m = elim (In-append y (f x) (flat_map f xs) m) [
    | inl l ↦ (x, inl refl, l)
    | inr r ↦ let (z, i, j) = flat_map-In f y xs r in (z, inr i, j)
  ]

  pub In-flat_map :
      (f : A → List B) (y : B) (x : A) (xs : List A) → In x xs → In y (f x) → In y (flat_map f xs)
  In-flat_map f y x [] m i = absurd m
  In-flat_map f y x (z ∷ xs) (inl e) i =
      In-append_left y (f z) (flat_map f xs) (subst (λ w. In y (f w)) (sym e) i)
  In-flat_map f y x (z ∷ xs) (inr m) i =
      In-append_right y (f z) (flat_map f xs) (In-flat_map f y x xs m i)

  pub In-mapped : (f : A → B) (x : A) (xs : List A) → In x xs → In (f x) (map f xs)
  In-mapped f x [] m = absurd m
  In-mapped f x (z ∷ xs) (inl e) = inl (ap f e)
  In-mapped f x (z ∷ xs) (inr m) = inr (In-mapped f x xs m)

  pub mapped-In :
      (f : A → B) (y : B) (xs : List A) → In y (map f xs) → (x : A) × In x xs × (f x ≡ y)
  mapped-In f y [] m = absurd m
  mapped-In f y (x ∷ xs) (inl e) = (x, inl refl, e)
  mapped-In f y (x ∷ xs) (inr m) = let (z, n, e) = mapped-In f y xs m in (z, inr n, e)
