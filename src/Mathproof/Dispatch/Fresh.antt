-- ===== src/Mathproof/Dispatch/Fresh.antt =====
-- The ids that are minted for a critic's attempt and an explorer's move.
use Prim.Native.Char.{code}
use Prim.Native.String
use text.Mathlib.TextLemmas.{cons-append, nil-append, append_assoc}
use persistent_atp.Prelude.{
  ℕ, ◌+◌, ◌≤◌, String, Bool, true, not, ◌&&◌, some, List, [], ◌∷◌, str_eq, eq_iff, ◌==◌, ==_iff,
  ◌≡◌, ◌≢◌, refl, sym, ap, ◌∙◌, inl, inr, arith, Bool-cases, In,
}
use persistent_atp.Decimal.{decimal}
use persistent_atp.Decimal.RoundTrip.{read_serial-decimal}
use persistent_atp.Mathproof.Dispatch.{
  scope_of, local_of, strip, serial_text, serial_behind, serial_in, or_zero, highest, next_serial,
  minted_id,
}

-- No slash in the text.
abbrev pub is_slashless : String → Bool
is_slashless String.[] = true
is_slashless (String.◌∷◌ c s) = not (code c == b'/') && is_slashless s

scope_of-append :
    (a b : String) → is_slashless a ≡ true → scope_of (String.◌++◌ a (String.◌∷◌ "/" b)) ≡ a
scope_of-append String.[] b h = rw nil-append refl
scope_of-append (String.◌∷◌ c a) b h =
    ap scope_of (cons-append c a (String.◌∷◌ "/" b)) ∙ ground (arith, h, scope_of-append a b)

local_of-append :
    (a b : String) → is_slashless a ≡ true → local_of (String.◌++◌ a (String.◌∷◌ "/" b)) ≡ some b
local_of-append String.[] b h = rw nil-append refl
local_of-append (String.◌∷◌ c a) b h =
    ap local_of (cons-append c a (String.◌∷◌ "/" b)) ∙ ground (arith, h, local_of-append a b)

strip-append : (p s : String) → strip p (String.◌++◌ p s) ≡ some s
strip-append String.[] s = ap some (nil-append s)
strip-append (String.◌∷◌ c p) s =
    ap (strip (String.◌∷◌ c p)) (cons-append c p s)
    ∙ ground (arith, strip-append p s, (==_iff (code c) (code c)).1 refl)

highest-ge :
    (prefix id : String) (ids : List String)
    → In id ids
    → or_zero (serial_in prefix id) ≤ highest prefix ids
highest-ge prefix id [] m = absurd m
highest-ge prefix id (x ∷ ids) (inl e) =
    let same : or_zero (serial_in prefix x) ≡ or_zero (serial_in prefix id) =
      ap (λ y. or_zero (serial_in prefix y)) e in
    omega (arith, same)
highest-ge prefix id (x ∷ ids) (inr m) = omega (arith, highest-ge prefix id ids m)

dashed :
    (prefix d : String)
    → String.◌++◌ (String.◌++◌ prefix "-") d ≡ String.◌++◌ prefix (String.◌∷◌ "-" d)
dashed prefix d =
    append_assoc prefix "-" d
    ∙ ap (String.◌++◌ prefix) (cons-append "-" "" d ∙ ap (String.◌∷◌ "-") (nil-append d))

serial_in-minted_id :
    (pid prefix : String) (n : ℕ)
    → is_slashless pid ≡ true
    → pid ≢ ""
    → 1 ≤ n
    → serial_in prefix (minted_id pid prefix n) ≡ some n
unfolding minted_id
serial_in-minted_id pid prefix n h ne le =
    let rest = String.◌++◌ prefix (String.◌∷◌ "-" (decimal n)) in
    let id = String.◌++◌ pid (String.◌∷◌ "/" rest) in
    elim (Bool-cases (str_eq (scope_of id) "")) [
      | inl q ↦ absurd (ne (sym (scope_of-append pid rest h) ∙ (eq_iff (scope_of id) "").0 q))
      | inr q ↦
          rw (serial_in, q)
            (ap (serial_behind prefix) (local_of-append pid rest h)
              ∙ ap (λ x. serial_text (strip (String.◌++◌ prefix "-") x))
                  (sym (dashed prefix (decimal n)))
              ∙ ap serial_text (strip-append (String.◌++◌ prefix "-") (decimal n))
              ∙ read_serial-decimal n le)
    ]

-- In a proof whose id is not empty and has no slash, the id that is minted with the next serial of its
-- prefix is none of those that the view lists.
pub next_serial-minted_id :
    (pid prefix : String) (ids : List String)
    → is_slashless pid ≡ true
    → pid ≢ ""
    → ¬ In (minted_id pid prefix (next_serial prefix ids)) ids
unfolding next_serial
next_serial-minted_id pid prefix ids h ne m =
    let n = highest prefix ids + 1 in
    let read : or_zero (serial_in prefix (minted_id pid prefix n)) ≡ n =
      ap or_zero (serial_in-minted_id pid prefix n h ne (omega arith)) in
    omega (arith, read, highest-ge prefix (minted_id pid prefix n) ids m)
