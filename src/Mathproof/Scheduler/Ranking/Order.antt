-- ===== src/Mathproof/Scheduler/Ranking/Order.antt =====
-- The ranking keeps the entries, and puts none below one of a lower priority.
use persistent_atp.Prelude.{
  true, false, ◌≡◌, subst, inl, inr, ◌↔◌, List, [], ◌∷◌, Bool-cases, In, All, All-In, In-All,
  All-map, Pairwise,
}
use persistent_atp.Mathproof.Scheduler.Numbers.{Float, IsOrdered}
use persistent_atp.Mathproof.Scheduler.Ranking.{Scored, place, rank}

module _ {W : Type 0} ⦃f : Float W⦄ where
  place-In : (x y : Scored W) (ys : List (Scored W)) → In y (place x ys) ↔ In y (x ∷ ys)
  place-In x y [] = (λ m. m, λ m. m)
  place-In x y (z ∷ ys) = elim (Bool-cases (f.lt x.priority z.priority)) [
    | inl e ↦ rw e (later (place-In x y ys))
    | inr e ↦ rw e (λ m. m, λ m. m)
  ]
    where
      later : In y (place x ys) ↔ In y (x ∷ ys) → In y (z ∷ place x ys) ↔ In y (x ∷ z ∷ ys)
      later h = (swap, back)
        where
          swap : In y (z ∷ place x ys) → In y (x ∷ z ∷ ys)
          swap (inl e) = inr (inl e)
          swap (inr m) = elim (h.0 m) [ inl e ↦ inl e | inr n ↦ inr (inr n) ]

          back : In y (x ∷ z ∷ ys) → In y (z ∷ place x ys)
          back (inl e) = inr (h.1 (inl e))
          back (inr (inl e)) = inl e
          back (inr (inr m)) = inr (h.1 (inr m))

  under :
      (x y : Scored W) (xs ys : List (Scored W)) → In y xs ↔ In y ys → In y (x ∷ xs) ↔ In y (x ∷ ys)
  under x y xs ys h = (side xs ys h.0, side ys xs h.1)
    where
      side : (us vs : List (Scored W)) → (In y us → In y vs) → In y (x ∷ us) → In y (x ∷ vs)
      side us vs g (inl e) = inl e
      side us vs g (inr m) = inr (g m)

  pub rank-In : (y : Scored W) (xs : List (Scored W)) → In y (rank xs) ↔ In y xs
  unfolding rank
  rank-In y [] = (λ m. m, λ m. m)
  rank-In y (x ∷ xs) =
      let h = place-In x y (rank xs) in
      let k = under x y (rank xs) xs (rank-In y xs) in (λ m. k.0 (h.0 m), λ m. h.1 (k.1 m))

  -- No entry is followed by one of a higher priority.
  abbrev pub NotBelow : Scored W → Scored W → Type 0
  NotBelow x y = f.lt x.priority y.priority ≡ false

  abbrev pub Descends : List (Scored W) → Type 0
  Descends = Pairwise NotBelow

  module _ (laws : IsOrdered W) where
    place-Descends :
        (x : Scored W) (ys : List (Scored W))
        → All (λ (y : Scored W). laws.is_number y.priority ≡ true) ys
        → Descends ys
        → Descends (place x ys)
    place-Descends x [] n d = (tt, tt)
    place-Descends x (z ∷ ys) n d = elim (Bool-cases (f.lt x.priority z.priority)) [
      | inl e ↦ rw e (
        All-In (NotBelow z) (place x ys)
            (λ y m. below y ((place-In x y ys).0 m) (laws.lt-asym x.priority z.priority e)),
        place-Descends x ys n.1 d.1,
      )
      | inr e ↦ rw e (
        (
          e,
          All-map (NotBelow z) (NotBelow x) ys
              (λ y h. laws.not_lt-trans x.priority z.priority y.priority n.0 e h) d.0,
        ),
        d,
      )
    ]
      where
        below : (y : Scored W) → In y (x ∷ ys) → NotBelow z x → NotBelow z y
        below y (inl e) h = subst (NotBelow z) e h
        below y (inr m) h = In-All (NotBelow z) y ys d.0 m

    pub rank-Descends :
        (xs : List (Scored W))
        → All (λ (y : Scored W). laws.is_number y.priority ≡ true) xs
        → Descends (rank xs)
    unfolding rank
    rank-Descends [] n = tt
    rank-Descends (x ∷ xs) n =
        place-Descends x (rank xs)
          (All-In (λ (y : Scored W). laws.is_number y.priority ≡ true) (rank xs)
            (λ y m.
              In-All (λ (z : Scored W). laws.is_number z.priority ≡ true) y xs n.1
                ((rank-In y xs).0 m)))
          (rank-Descends xs n.1)
