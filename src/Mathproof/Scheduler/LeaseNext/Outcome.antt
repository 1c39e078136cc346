-- ===== src/Mathproof/Scheduler/LeaseNext/Outcome.antt =====
-- What the store's answer to a dispatch comes to.
use persistent_atp.Prelude.{
  ℕ, In-append_right, In-keep, str_eq, String, true, false, ◌≡◌, ◌≢◌, refl, sym, subst, ap, ap₂,
  ◌∙◌, ◌⊎◌, inl, inr, Option, none, some, List, [], ◌∷◌, ◌++◌, map, keep, eq_iff, arith,
  Option-cases, In, All, In-All, All-In, In-mapped, Pairwise, eq_of_some,
}
use persistent_atp.Json.{Json}
use persistent_atp.Store.{Store, LeaseRow, Result, ok, raises}
use persistent_atp.Store.Rows.{held_by}
use persistent_atp.Store.Leases.{Order, taken}
use persistent_atp.Store.Leases.Dispatch.{Grants, nothing, first}
use persistent_atp.Mathproof.Scheduler.Numbers.{Float}
use persistent_atp.Mathproof.Scheduler.Scoring.{Features}
use persistent_atp.Mathproof.Scheduler.Ranking.{Scored, is_active_move}
use persistent_atp.Mathproof.Scheduler.LeaseNext.{
  Lease, from_row, answers, encoded, snapshot_for, handed, leased,
}

-- The moves that the active leases cover.
pub is_active_move-taken :
    (pid m : String) (rows : List LeaseRow)
    → is_active_move (keep (held_by pid) rows) m ≡ taken pid rows m
is_active_move-taken pid m [] = refl
is_active_move-taken pid m (r ∷ rows) = ground (arith, is_active_move-taken pid m rows)

pub map-split :
    {A B : Type 0} (g : A → B) (xs : List A) (before : List B) (y : B) (after : List B)
    → map g xs ≡ before ++ y ∷ after
    → (b : List A) × (x : A) × (a : List A) × (xs ≡ b ++ x ∷ a) × (g x ≡ y) × (map g b ≡ before)
map-split g [] [] y after h = absurd (cc)
map-split g [] (z ∷ before) y after h = absurd (cc)
map-split g (x ∷ xs) [] y after h = ([], x, xs, refl, cc, refl)
map-split g (x ∷ xs) (z ∷ before) y after h =
    let (b, w, a, e, k, l) = map-split g xs before y after (cc) in
    (x ∷ b, w, a, ap (◌∷◌ x) e, k, cc)

abbrev pub Granted : String → List (String × Option Json) → Store → Store → LeaseRow → Type 0
Granted pid moves u s' row =
    (before : List (String × Option Json)) × (c : String × Option Json) × (after : List
      (String × Option Json))
    × (moves ≡ before ++ c ∷ after)
    × All (λ b. taken pid u.leases b.0 ≡ true) before
    × (taken pid u.leases c.0 ≡ false)
    × (row.selected_move_id ≡ some c.0)
    × In row (keep (held_by pid) s'.leases)

pub Grants-none :
    (pid : String) (o : Order) (now : ℕ) (moves : List (String × Option Json)) (u s' : Store)
    (a : Option LeaseRow)
    → Grants pid o now moves u s' a
    → a ≡ none
    → All (λ c. taken pid u.leases c.0 ≡ true) moves × (s' ≡ u)
Grants-none pid o now moves u s' _ (nothing all same) h = (all, same)
Grants-none pid o now moves u s' _ (first before move score after row e all free m k i) h =
    absurd (cc)

pub Grants-some :
    (pid : String) (o : Order) (now : ℕ) (moves : List (String × Option Json)) (u s' : Store)
    (a : Option LeaseRow) (row : LeaseRow)
    → Grants pid o now moves u s' a
    → a ≡ some row
    → Granted pid moves u s' row
Grants-some pid o now moves u s' _ row (nothing all same) h = absurd (cc)
Grants-some pid o now moves u s' _ row (first before move score after row' e all free m k i) h =
    let own : str_eq row'.proof_id pid ≡ true = (eq_iff row'.proof_id pid).1 m.of_proof in
    let held : held_by pid row' ≡ true = rw (held_by, own, m.is_held) refl in
    let there : In row' s'.leases =
      subst (In row') (sym i) (In-append_right row' u.leases (row' ∷ []) (inl refl)) in
    subst (Granted pid moves u s') (eq_of_some h) (
      before,
      (move, score),
      after,
      e,
      all,
      free,
      m.on_move,
      In-keep (held_by pid) row' s'.leases there held,
    )

pub Pairwise-after :
    {A : Type 0} (R : A → A → Type 0) (b : List A) (x : A) (a : List A)
    → Pairwise R (b ++ x ∷ a)
    → All (R x) a
Pairwise-after R [] x a w = w.0
Pairwise-after R (y ∷ b) x a w = Pairwise-after R b x a w.1

module _ {W : Type 0} ⦃f : Float W⦄ where
  -- What the call makes of the store's answer.
  pub leased-answers :
      (name : String) (xs : List (Scored W)) (r : Result (Option LeaseRow) × Store)
      (a : Option (Lease W)) (s' : Store)
      → leased name xs r ≡ (answers a, s')
      → ((r ≡ (ok none, s')) × (a ≡ none))
        ⊎ ((row : LeaseRow) × (snapshot : Features W) × (r ≡ (ok (some row), s'))
            × (snapshot_for row.selected_move_id xs ≡ some snapshot)
            × (a ≡ some (from_row row snapshot name)))
  leased-answers name xs (raises e, s) a s' h = absurd (cc)
  leased-answers name xs (ok none, s) a s' h = inl (ap (λ z. (ok none, z)) (cc), cc)
  leased-answers name xs (ok (some row), s) a s' h =
      elim (Option-cases (snapshot_for row.selected_move_id xs)) [
        | inl e ↦ absurd (cc)
        | inr (snapshot, e) ↦ inr (
          row,
          snapshot,
          ap (λ z. (ok (some row), z)) (cc),
          e,
          let got : answers a ≡ answers (some (from_row row snapshot name)) =
                sym (ap (λ p. p.0) h) ∙ ap (handed name row) e in
              cc,
        )
      ]

  pub snapshot_for-append :
      (m : String) (b : List (Scored W)) (x : Scored W) (a : List (Scored W))
      → All (λ (y : Scored W). y.move_id ≢ m) b
      → x.move_id ≡ m
      → snapshot_for (some m) (b ++ x ∷ a) ≡ some x.snapshot
  snapshot_for-append m [] x a h e = rw ((eq_iff x.move_id m).1 e) refl
  snapshot_for-append m (y ∷ b) x a h e =
      ground (arith, h.0, eq_iff y.move_id m, snapshot_for-append m b x a h.1 e)

  -- The granted row is on the move of the first entry that is not taken, and its snapshot is found.
  pub Granted-split :
      (pid : String) (u s' : Store) (row : LeaseRow) (xs : List (Scored W))
      → Granted pid (map encoded xs) u s' row
      → (b : List (Scored W)) × (x : Scored W) × (a : List (Scored W)) × (xs ≡ b ++ x ∷ a)
        × ((y : Scored W) → In y b → taken pid u.leases y.move_id ≡ true)
        × (taken pid u.leases x.move_id ≡ false)
        × (row.selected_move_id ≡ some x.move_id)
        × In row (keep (held_by pid) s'.leases)
        × (snapshot_for row.selected_move_id xs ≡ some x.snapshot)
  Granted-split pid u s' row xs (before, g, after, e, all, free, m, i) =
      let (b, x, a, split, enc, mb) = map-split encoded xs before g after e in
      let at : x.move_id ≡ g.0 = ap (λ p. p.0) enc in
      let x_free : taken pid u.leases x.move_id ≡ false =
        subst (λ z. taken pid u.leases z ≡ false) (sym at) free in
      let m' : row.selected_move_id ≡ some x.move_id = m ∙ ap some (sym at) in
      (
        b,
        x,
        a,
        split,
        earlier b before mb all,
        x_free,
        m',
        i,
        ap₂ snapshot_for m' split
            ∙ snapshot_for-append x.move_id b x a
                (All-In (λ (y : Scored W). y.move_id ≢ x.move_id) b
                  (λ y j q. clash y x q (earlier b before mb all y j) x_free))
                refl,
      )
    where
      earlier :
          (b : List (Scored W)) (before : List (String × Option Json))
          → map encoded b ≡ before
          → All (λ (c : String × Option Json). taken pid u.leases c.0 ≡ true) before
          → (y : Scored W) → In y b
          → taken pid u.leases y.move_id ≡ true
      earlier b before mb all y j =
          In-All (λ (c : String × Option Json). taken pid u.leases c.0 ≡ true) (encoded y) before
            all (subst (In (encoded y)) mb (In-mapped encoded y b j))

      clash :
          (y x : Scored W)
          → y.move_id ≡ x.move_id
          → taken pid u.leases y.move_id ≡ true
          → taken pid u.leases x.move_id ≡ false
          → ⊥
      clash y x q held free =
          let held' : taken pid u.leases x.move_id ≡ true =
            subst (λ z. taken pid u.leases z ≡ true) q held in
          absurd (ground (arith, held', free))
