-- ===== src/Mathproof/Scheduler/Statistics/Counts.antt =====
-- The counters against the history that they sum up.
use persistent_atp.Prelude.{
  ℕ, ◌+◌, ◌≤◌, String, Bool, true, false, List, [], ◌∷◌, str_eq, eq_iff, if◌then◌else◌, ◌≡◌, ap,
  arith, Bool-cases, inl, inr,
}
use persistent_atp.Mathproof.Scheduler.Statistics.{
  Outcomes, is_key, outcomes, put, record_outcome, attempts, update_statistics,
}

-- The counters after a history of commits, oldest first: whether each was accepted, and its category.
abbrev pub told : List (Bool × String) → Outcomes → Outcomes
told [] d = d
told ((accepted, c) ∷ h) d = told h (update_statistics accepted c d)

-- How many of the history's commits are of the category; how many of these were refused.
abbrev pub of_category : String → List (Bool × String) → ℕ
of_category c [] = 0
of_category c ((accepted, k) ∷ h) = (if str_eq k c then 1 else 0) + of_category c h

abbrev pub refused : String → List (Bool × String) → ℕ
refused c [] = 0
refused c ((accepted, k) ∷ h) =
    (if str_eq k c then (if accepted then 0 else 1) else 0) + refused c h

attempts-put :
    (c o : String) (n : ℕ) (k : String) (d : Outcomes)
    → attempts k (put c o n d) + (if str_eq c k then outcomes c o d else 0)
      ≡ attempts k d + (if str_eq c k then n else 0)
unfolding attempts
attempts-put c o n k [] = ground arith
attempts-put c o n k (((a, b), m) ∷ d) =
    ground (arith, eq_iff a c, eq_iff b o, eq_iff a k, eq_iff c k, attempts-put c o n k d)

outcomes-put :
    (c o : String) (n : ℕ) (k p : String) (d : Outcomes)
    → outcomes k p (put c o n d) ≡ (if is_key k p (c, o) then n else outcomes k p d)
outcomes-put c o n k p [] = ground arith
outcomes-put c o n k p (((a, b), m) ∷ d) = ground (
  arith,
  eq_iff a c,
  eq_iff b o,
  eq_iff a k,
  eq_iff c k,
  eq_iff b p,
  eq_iff o p,
  outcomes-put c o n k p d,
)

outcomes-le : (c o : String) (d : Outcomes) → outcomes c o d ≤ attempts c d
unfolding attempts
outcomes-le c o [] = omega arith
outcomes-le c o ((key, n) ∷ d) = ground (arith, outcomes-le c o d)

attempts-record :
    (c o k : String) (d : Outcomes)
    → attempts k (record_outcome c o d) ≡ attempts k d + (if str_eq c k then 1 else 0)
unfolding record_outcome
attempts-record c o k d = ground (arith, attempts-put c o (outcomes c o d + 1) k d)

update-attempts :
    (accepted : Bool) (k c : String) (d : Outcomes)
    → attempts c (update_statistics accepted k d) ≡ attempts c d + (if str_eq k c then 1 else 0)
unfolding update_statistics
update-attempts accepted k c d = attempts-record k (if accepted then "succeeded" else "failed") c d

update-failed :
    (accepted : Bool) (k c : String) (d : Outcomes)
    → outcomes c "failed" (update_statistics accepted k d)
      ≡ outcomes c "failed" d + (if str_eq k c then (if accepted then 0 else 1) else 0)
unfolding update_statistics record_outcome
update-failed true k c d =
    ground
      (arith, eq_iff k c, outcomes-put k "succeeded" (outcomes k "succeeded" d + 1) c "failed" d)
update-failed false k c d = elim (Bool-cases (str_eq k c)) [
  | inl q ↦
      let same : outcomes k "failed" d ≡ outcomes c "failed" d =
        ap (λ x. outcomes x "failed" d) ((eq_iff k c).0 q) in
      ground (arith, q, same, outcomes-put k "failed" (outcomes k "failed" d + 1) c "failed" d)
  | inr q ↦ ground (arith, q, outcomes-put k "failed" (outcomes k "failed" d + 1) c "failed" d)
]

told-counts :
    (h : List (Bool × String)) (c : String) (d : Outcomes)
    → (attempts c (told h d) ≡ attempts c d + of_category c h)
      × (outcomes c "failed" (told h d) ≡ outcomes c "failed" d + refused c h)
told-counts [] c d = (omega arith, omega arith)
told-counts ((accepted, k) ∷ h) c d =
    let (all, bad) = told-counts h c (update_statistics accepted k d) in
    (
      omega (arith, all, update-attempts accepted k c d),
      omega (arith, bad, update-failed accepted k c d),
    )

-- From no outcomes, a history of commits leaves counters by which a category has as many attempts as
-- the history has commits of it, and as many failures as the history has refused ones, and never more
-- failures than attempts.
pub told-counts_empty :
    (h : List (Bool × String)) (c : String)
    → (attempts c (told h []) ≡ of_category c h)
      × (outcomes c "failed" (told h []) ≡ refused c h)
      × (outcomes c "failed" (told h []) ≤ attempts c (told h []))
unfolding attempts
told-counts_empty h c =
    let (all, bad) = told-counts h c [] in
    (omega (arith, all), omega (arith, bad), outcomes-le c "failed" (told h []))
