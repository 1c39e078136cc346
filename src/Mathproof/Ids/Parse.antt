-- ===== src/Mathproof/Ids/Parse.antt =====
-- The local ids that are read, against those that are written.
use Prim.Native.String
use Prim.Native.Char.{code}
use text.Mathlib.TextLemmas.{cons-append, nil-append, append_assoc}
use text.Mathlib.TextEquality.{Char-path}
use persistent_atp.Prelude.{
  ℕ, ◌≤◌, String, Bool, true, not, ◌&&◌, Option, none, some, List, [], ◌∷◌, ltb, ◌==◌, ==_iff,
  str_eq, eq_iff, ◌≡◌, refl, sym, ap, ap₂, subst, ◌∙◌, ◌↔◌, arith, Bool-cases, Option-cases, inl,
  inr, eq_of_some,
}
use persistent_atp.Decimal.{decimal, read_serial}
use persistent_atp.Decimal.RoundTrip.{
  Spells, read_serial-decimal, read_serial-Spells, read_serial-feed,
}
use persistent_atp.Mathproof.Ids.{
  Kind, resolve, IdType, research_state, research_move, claim, formal_declaration, formal_run,
  formal_state, tactic_application, alignment, obstruction, certificate, lean_replay, environment,
  formal_checkpoint, speculative_hypothesis, attempt, lease, prefix, id_types, find_type, by_prefix,
  typed, spelled, local_id, split_dash, matched, pair, parse_local_id,
}

abbrev dashless : String → Bool
dashless String.[] = true
dashless (String.◌∷◌ c s) = not (code c == b'-') && dashless s

split_dash-append :
    (a b : String) → dashless a ≡ true → split_dash (String.◌++◌ a (String.◌∷◌ "-" b)) ≡ some (a, b)
unfolding split_dash
split_dash-append String.[] b h = rw nil-append refl
split_dash-append (String.◌∷◌ c a) b h =
    rw (cons-append c a (String.◌∷◌ "-" b), split_dash-append a b (ground (arith, h)))
      (ground (arith, h))

split_dash-eq : (s a b : String) → split_dash s ≡ some (a, b) → s ≡ String.◌++◌ a (String.◌∷◌ "-" b)
unfolding split_dash
split_dash-eq String.[] a b h = absurd (cc)
split_dash-eq (String.◌∷◌ c s) a b h = elim (Bool-cases (code c == b'-')) [
  | inl q ↦
      let here : ("", s) ≡ (a, b) = eq_of_some (rw q at h) in
      ap₂ String.◌∷◌ (Char-path c "-" ((==_iff (code c) b'-').0 q)) (ap (λ p. p.1) here)
      ∙ sym (nil-append (String.◌∷◌ "-" b))
      ∙ ap (λ x. String.◌++◌ x (String.◌∷◌ "-" b)) (ap (λ p. p.0) here)
  | inr q ↦ elim (Option-cases (split_dash s)) [
    | inl r ↦ absurd (ground (arith, q, r))
    | inr ((x, y), r) ↦
        let here : (String.◌∷◌ c x, y) ≡ (a, b) = eq_of_some (rw (q, r) at h) in
        ap (String.◌∷◌ c) (split_dash-eq s x y r)
        ∙ sym (cons-append c x (String.◌∷◌ "-" y))
        ∙ ap (λ p. String.◌++◌ p.0 (String.◌∷◌ "-" p.1)) here
  ]
]

prefix-dashless : (t : IdType) → dashless (prefix t) ≡ true
prefix-dashless research_state = refl
prefix-dashless research_move = refl
prefix-dashless claim = refl
prefix-dashless formal_declaration = refl
prefix-dashless formal_run = refl
prefix-dashless formal_state = refl
prefix-dashless tactic_application = refl
prefix-dashless alignment = refl
prefix-dashless obstruction = refl
prefix-dashless certificate = refl
prefix-dashless lean_replay = refl
prefix-dashless environment = refl
prefix-dashless formal_checkpoint = refl
prefix-dashless speculative_hypothesis = refl
prefix-dashless attempt = refl
prefix-dashless lease = refl

pub by_prefix-prefix : (t : IdType) → by_prefix (prefix t) ≡ some t
by_prefix-prefix research_state = refl
by_prefix-prefix research_move = refl
by_prefix-prefix claim = refl
by_prefix-prefix formal_declaration = refl
by_prefix-prefix formal_run = refl
by_prefix-prefix formal_state = refl
by_prefix-prefix tactic_application = refl
by_prefix-prefix alignment = refl
by_prefix-prefix obstruction = refl
by_prefix-prefix certificate = refl
by_prefix-prefix lean_replay = refl
by_prefix-prefix environment = refl
by_prefix-prefix formal_checkpoint = refl
by_prefix-prefix speculative_hypothesis = refl
by_prefix-prefix attempt = refl
by_prefix-prefix lease = refl

find_type-eq : (s : String) (ts : List IdType) (t : IdType) → find_type s ts ≡ some t → s ≡ prefix t
find_type-eq s [] t h = absurd (cc)
find_type-eq s (u ∷ ts) t h = elim (Bool-cases (str_eq (prefix u) s)) [
  | inl q ↦ sym ((eq_iff (prefix u) s).0 q) ∙ ap prefix (eq_of_some (rw q at h))
  | inr q ↦ find_type-eq s ts t (rw q at h)
]

pub parse_local_id-spelled :
    (t : IdType) (s : String)
    → parse_local_id (String.◌++◌ (prefix t) (String.◌∷◌ "-" s)) ≡ pair (some t) (read_serial s)
unfolding parse_local_id
parse_local_id-spelled t s =
    ap matched (split_dash-append (prefix t) s (prefix-dashless t))
    ∙ ap (λ x. pair x (read_serial s)) (by_prefix-prefix t)

pub by_prefix-eq : (s : String) (t : IdType) → by_prefix s ≡ some t → s ≡ prefix t
by_prefix-eq s t h = find_type-eq s id_types t h

pub local_id-spelled :
    (kind : Kind) (n : ℕ) (text : String)
    → local_id kind n ≡ some text
    → (t : IdType) × (resolve kind ≡ some t) × (1 ≤ n) × (text ≡ spelled t n)
unfolding local_id
local_id-spelled kind n text h = elim (Option-cases (resolve kind)) [
  | inl r ↦ absurd (ground (arith, r))
  | inr (t, r) ↦ elim (Bool-cases (ltb n 1)) [
    | inl q ↦ absurd (ground (arith, r, q))
    | inr q ↦ (t, r, ground (arith, q), sym (eq_of_some (rw (r, q) at h)))
  ]
]

matched-some :
    (w : Option (String × String)) (t : IdType) (n : ℕ)
    → matched w ≡ some (t, n)
    → (b : String) × (w ≡ some (prefix t, b)) × (read_serial b ≡ some n)
matched-some none t n h = absurd (cc)
matched-some (some (a, b)) t n h = elim (Option-cases (by_prefix a)) [
  | inl q ↦ absurd (ground (arith, q))
  | inr (u, q) ↦ elim (Option-cases (read_serial b)) [
    | inl r ↦ absurd (ground (arith, q, r))
    | inr (m, r) ↦
        let same : (u, m) ≡ (t, n) = eq_of_some (rw (q, r) at h) in
        (
          b,
          ap (λ x. some (x, b)) (by_prefix-eq a u q ∙ ap (λ p. prefix p.0) same),
          r ∙ ap (λ p. some p.1) same,
        )
  ]
]

pub local_id-typed : (t : IdType) (n : ℕ) → 1 ≤ n → local_id (typed t) n ≡ some (spelled t n)
unfolding local_id
local_id-typed t n h = ground (arith, h)

spelled_feed :
    (t : IdType) (n : ℕ)
    → String.◌++◌ (spelled t n) "\n"
      ≡ String.◌++◌ (prefix t) (String.◌∷◌ "-" (String.◌++◌ (decimal n) "\n"))
spelled_feed t n =
    append_assoc (prefix t) (String.◌∷◌ "-" (decimal n)) "\n"
    ∙ ap (String.◌++◌ (prefix t)) (cons-append "-" (decimal n) "\n")

Spells-prefixed :
    (t : IdType) (b : String) (n : ℕ)
    → Spells b (decimal n)
    → Spells (String.◌++◌ (prefix t) (String.◌∷◌ "-" b)) (spelled t n)
Spells-prefixed t b n (inl e) = inl (ap (λ x. String.◌++◌ (prefix t) (String.◌∷◌ "-" x)) e)
Spells-prefixed t b n (inr e) =
    inr (ap (λ x. String.◌++◌ (prefix t) (String.◌∷◌ "-" x)) e ∙ sym (spelled_feed t n))

reads :
    (raw : String) (t : IdType) (n : ℕ)
    → parse_local_id raw ≡ some (t, n)
    → (text : String) × (local_id (typed t) n ≡ some text) × Spells raw text
unfolding parse_local_id
reads raw t n h =
    let (b, w, r) = matched-some (split_dash raw) t n h in
    let (spelt, le) = read_serial-Spells b n r in
    let whole : raw ≡ String.◌++◌ (prefix t) (String.◌∷◌ "-" b) =
      split_dash-eq raw (prefix t) b w in
    (
      spelled t n,
      local_id-typed t n le,
      subst (λ x. Spells x (spelled t n)) (sym whole) (Spells-prefixed t b n spelt),
    )

written :
    (raw : String) (t : IdType) (n : ℕ) (text : String)
    → local_id (typed t) n ≡ some text
    → Spells raw text
    → parse_local_id raw ≡ some (t, n)
written raw t n text h (inl e) =
    let (u, r, le, s) = local_id-spelled (typed t) n text h in
    ap parse_local_id (e ∙ s ∙ ap (λ v. spelled v n) (sym (eq_of_some r)))
    ∙ parse_local_id-spelled t (decimal n)
    ∙ ap (pair (some t)) (read_serial-decimal n le)
written raw t n text h (inr e) =
    let (u, r, le, s) = local_id-spelled (typed t) n text h in
    ap parse_local_id (
      e
      ∙ ap (λ x. String.◌++◌ x "\n") (s ∙ ap (λ v. spelled v n) (sym (eq_of_some r)))
      ∙ spelled_feed t n)
    ∙ parse_local_id-spelled t (String.◌++◌ (decimal n) "\n")
    ∙ ap (pair (some t)) (read_serial-feed n le)

-- `parse_local_id` reads a type and a serial exactly from the text that `local_id` renders for them
-- and from that text with one line feed behind it: it refuses every other text.
pub parse_local_id_iff :
    (raw : String) (t : IdType) (n : ℕ)
    → parse_local_id raw ≡ some (t, n)
      ↔ ((text : String) × (local_id (typed t) n ≡ some text) × Spells raw text)
parse_local_id_iff raw t n = (reads raw t n, λ w. written raw t n w.0 w.1 w.2)
