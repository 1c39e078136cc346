-- ===== src/Store/Journal/Order.antt =====
-- A row with the greatest revision comes last in revision order.
use persistent_atp.Prelude.{
  String, ◌≤◌, ◌≡◌, refl, inl, inr, arith, Bool, true, false, if◌then◌else◌, List, [], ◌∷◌, ◌++◌,
  Bool-cases, leb, str_eq, keep, All, leb_iff,
}
use persistent_atp.Store.{JournalRow}
use persistent_atp.Store.Head.{place, by_revision, rows_of}

place-snoc :
    (r z : JournalRow) (qs : List JournalRow)
    → r.revision ≤ z.revision
    → place r (qs ++ z ∷ []) ≡ place r qs ++ z ∷ []
place-snoc r z [] h = rw ((leb_iff r.revision z.revision).1 h)
place-snoc r z (q ∷ qs) h = elim (Bool-cases (leb r.revision q.revision)) [
  | inl e ↦ rw e
  | inr e ↦ rw (e, place-snoc r z qs h)
]

by_revision-snoc :
    (z : JournalRow) (rs : List JournalRow)
    → All (λ q. q.revision ≤ z.revision) rs
    → by_revision (rs ++ z ∷ []) ≡ by_revision rs ++ z ∷ []
by_revision-snoc z [] h = refl
by_revision-snoc z (r ∷ rs) h = rw (by_revision-snoc z rs h.1) (place-snoc r z (by_revision rs) h.0)

All-place :
    (P : JournalRow → Type 0) (r : JournalRow) (qs : List JournalRow)
    → All P (place r qs)
    → P r × All P qs
All-place P r [] a = (a.0, tt)
All-place P r (q ∷ qs) a = elim (Bool-cases (leb r.revision q.revision)) [
  | inl e ↦ let b : P r × (P q × All P qs) = rw e at a in b
  | inr e ↦
      let b : P q × All P (place r qs) = rw e at a in
      let c = All-place P r qs b.1 in (c.0, (b.0, c.1))
]

All-by_revision :
    (P : JournalRow → Type 0) (rs : List JournalRow) → All P (by_revision rs) → All P rs
All-by_revision P [] a = tt
All-by_revision P (r ∷ rs) a =
    let b = All-place P r (by_revision rs) a in (b.0, All-by_revision P rs b.1)

keep-snoc :
    (p : JournalRow → Bool) (z : JournalRow) (rs : List JournalRow)
    → keep p (rs ++ z ∷ []) ≡ (if p z then keep p rs ++ z ∷ [] else keep p rs)
keep-snoc p z [] = ground arith
keep-snoc p z (r ∷ rs) = ground (arith, keep-snoc p z rs)

-- A row of the proof that has the greatest revision is its last.
pub rows_of-snoc :
    (pid : String) (z : JournalRow) (rs : List JournalRow)
    → str_eq z.proof_id pid ≡ true
    → All (λ q. q.revision ≤ z.revision) (rows_of pid rs)
    → rows_of pid (rs ++ z ∷ []) ≡ rows_of pid rs ++ z ∷ []
rows_of-snoc pid z rs own top =
    let mine : JournalRow → Bool = (λ r. str_eq r.proof_id pid) in
    rw (keep-snoc mine z rs, own)
      (by_revision-snoc z (keep mine rs)
        (All-by_revision (λ q. q.revision ≤ z.revision) (keep mine rs) top))

-- A row of another proof is not among a proof's rows.
pub rows_of-snoc_other :
    (pid : String) (z : JournalRow) (rs : List JournalRow)
    → str_eq z.proof_id pid ≡ false
    → rows_of pid (rs ++ z ∷ []) ≡ rows_of pid rs
rows_of-snoc_other pid z rs foreign = rw (keep-snoc (λ r. str_eq r.proof_id pid) z rs, foreign)
