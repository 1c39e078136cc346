-- ===== src/Mathproof/Ids/Fresh.antt =====
-- IdAllocator over a run of calls.
use Prim.Native.String
use text.Mathlib.TextLemmas.{append_cancel_left}
use persistent_atp.Prelude.{
  ℕ, ◌+◌, ◌<◌, ◌≤◌, String, none, some, List, [], ◌∷◌, str_eq, eq_iff, All, All-map, In-All,
  Distinct, ◌≡◌, refl, sym, ap, subst, ◌∙◌, arith, Bool-cases, Option-cases, inl, inr, eq_of_some,
  lookup, insert, lookup-insert,
}
use persistent_atp.Decimal.{decimal}
use persistent_atp.Decimal.RoundTrip.{read_serial-decimal}
use persistent_atp.Mathproof.Ids.{
  IdType, Kind, prefix, resolve, spelled, full_id, scoped, parse_local_id, pair, IdAllocator,
  counter, minted, minted_for, next_id, or_zero,
}
use persistent_atp.Mathproof.Ids.Parse.{parse_local_id-spelled, local_id-typed}

spelled-eq :
    (t u : IdType) (m n : ℕ) → 1 ≤ m → 1 ≤ n → spelled t m ≡ spelled u n → (t ≡ u) × (m ≡ n)
spelled-eq t u m n hm hn e =
    let same : (t, m) ≡ (u, n) = eq_of_some (
      sym (ap (pair (some t)) (read_serial-decimal m hm))
      ∙ sym (parse_local_id-spelled t (decimal m))
      ∙ ap parse_local_id e
      ∙ parse_local_id-spelled u (decimal n)
      ∙ ap (pair (some u)) (read_serial-decimal n hn)) in
    (ap (λ p. p.0) same, ap (λ p. p.1) same)

abbrev raised : IdAllocator → IdType → IdAllocator
raised a t = record a { counters = insert (prefix t) (counter a t + 1) a.counters }

minted-some :
    (a : IdAllocator) (t : IdType)
    → minted a t ≡ some (scoped a.proof_id (spelled t (counter a t + 1)), raised a t)
unfolding full_id
minted-some a t = rw (minted, local_id-typed t (counter a t + 1) (omega arith)) refl

next_id-minted :
    (kind : Kind) (a : IdAllocator) (t : IdType)
    → resolve kind ≡ some t
    → next_id kind a ≡ some (scoped a.proof_id (spelled t (counter a t + 1)), raised a t)
unfolding next_id
next_id-minted kind a t r = ap (minted_for a) r ∙ minted-some a t

next_id-some :
    (kind : Kind) (a b : IdAllocator) (id : String)
    → next_id kind a ≡ some (id, b)
    → (t : IdType) × (id ≡ scoped a.proof_id (spelled t (counter a t + 1))) × (b ≡ raised a t)
unfolding next_id
next_id-some kind a b id h = elim (Option-cases (resolve kind)) [
  | inl r ↦ absurd (ground (arith, r))
  | inr (t, r) ↦
      let same : (id, b) ≡ (scoped a.proof_id (spelled t (counter a t + 1)), raised a t) =
        eq_of_some (sym h ∙ next_id-minted kind a t r) in
      (t, ap (λ p. p.0) same, ap (λ p. p.1) same)
]

counter-raised : (a : IdAllocator) (t : IdType) → counter (raised a t) t ≡ counter a t + 1
counter-raised a t =
    ap or_zero (lookup-insert (prefix t) (prefix t) (counter a t + 1) a.counters)
    ∙ ground (arith, eq_iff (prefix t) (prefix t))

counter-grows : (a : IdAllocator) (t u : IdType) → counter a u ≤ counter (raised a t) u
counter-grows a t u =
    let read = ap or_zero (lookup-insert (prefix t) (prefix u) (counter a t + 1) a.counters) in
    elim (Bool-cases (str_eq (prefix t) (prefix u))) [
      | inl q ↦
          let same : counter a t ≡ counter a u =
            ap (λ k. or_zero (lookup k a.counters)) ((eq_iff (prefix t) (prefix u)).0 q) in
          let now : counter (raised a t) u ≡ counter a t + 1 = read ∙ rw q refl in
          omega (arith, same, now)
      | inr q ↦
          let now : counter (raised a t) u ≡ counter a u = read ∙ rw q refl in omega (arith, now)
    ]

-- The ids that a run of `next` returns; a call that raises leaves the allocator as it was.
unfoldable pub issue : List Kind → IdAllocator → List String
issue [] a = []
issue (kind ∷ kinds) a = elim (next_id kind a) [
  | none ↦ issue kinds a
  | some (id, b) ↦ id ∷ issue kinds b
]

abbrev pub Above : IdAllocator → String → Type 0
Above a id = (t : IdType) × (n : ℕ) × (counter a t < n) × (id ≡ scoped a.proof_id (spelled t n))

Above-raised : (a : IdAllocator) (t : IdType) (id : String) → Above (raised a t) id → Above a id
Above-raised a t id (u, n, lt, e) = (u, n, omega (arith, counter-grows a t u), e)

issue-none :
    (kind : Kind) (kinds : List Kind) (a : IdAllocator)
    → next_id kind a ≡ none
    → issue (kind ∷ kinds) a ≡ issue kinds a
unfolding issue
issue-none kind kinds a r = rw (issue, r) refl

issue-some :
    (kind : Kind) (kinds : List Kind) (a b : IdAllocator) (id : String)
    → next_id kind a ≡ some (id, b)
    → issue (kind ∷ kinds) a ≡ id ∷ issue kinds b
unfolding issue
issue-some kind kinds a b id r = rw (issue, r) refl

pub issue-Above : (kinds : List Kind) (a : IdAllocator) → All (Above a) (issue kinds a)
unfolding issue
issue-Above [] a = tt
issue-Above (kind ∷ kinds) a = elim (Option-cases (next_id kind a)) [
  | inl r ↦ subst (All (Above a)) (sym (issue-none kind kinds a r)) (issue-Above kinds a)
  | inr ((id, b), r) ↦
      let (t, e, same) = next_id-some kind a b id r in
      subst (All (Above a)) (sym (issue-some kind kinds a b id r)) (
        (t, counter a t + 1, omega arith, e),
        All-map (Above (raised a t)) (Above a) (issue kinds b) (Above-raised a t)
            (subst (λ c. All (Above c) (issue kinds b)) same (issue-Above kinds b)),
      )
]

-- The serial that was taken is not above the counter.
taken :
    (a : IdAllocator) (t : IdType)
    → ¬ Above (raised a t) (scoped a.proof_id (spelled t (counter a t + 1)))
taken a t (u, n, lt, e) =
    let local : spelled t (counter a t + 1) ≡ spelled u n =
      append_cancel_left (String.◌++◌ a.proof_id "/") (spelled t (counter a t + 1)) (spelled u n)
        e in
    let (same, serial) =
      spelled-eq t u (counter a t + 1) n (omega arith) (omega (arith, lt)) local in
    let low : counter (raised a t) u ≡ counter a t + 1 =
      ap (counter (raised a t)) (sym same) ∙ counter-raised a t in
    omega (arith, lt, serial, low)

-- No two of the ids that a run of `next` returns are the same, whichever types it asks for and
-- whatever the counters stand at.
pub issue-Distinct : (kinds : List Kind) (a : IdAllocator) → Distinct (issue kinds a)
unfolding issue
issue-Distinct [] a = tt
issue-Distinct (kind ∷ kinds) a = elim (Option-cases (next_id kind a)) [
  | inl r ↦ subst Distinct (sym (issue-none kind kinds a r)) (issue-Distinct kinds a)
  | inr ((id, b), r) ↦
      let (t, e, same) = next_id-some kind a b id r in
      subst Distinct (sym (issue-some kind kinds a b id r)) (
        (λ m. taken a t (
            subst (Above (raised a t)) e (
              In-All (Above (raised a t)) id (issue kinds b)
                (subst (λ c. All (Above c) (issue kinds b)) same (issue-Above kinds b)) m))),
        issue-Distinct kinds b,
      )
]
