-- ===== src/Prelude/Dict.antt =====
-- Python's `dict` with text keys, as an association list in insertion order.
use Prim.Native.String.{String}
use mathlib.Core.Path.{◌≡◌, refl}
use mathlib.Core.Logic.{inl, inr}
use mathlib.Core.List.{List, [], ◌∷◌}
use mathlib.Core.Option.{Option, none, some}
use mathlib.Core.Bool.{Bool, true}
use native.Mathlib.Omega.{arith}
use text.Mathlib.Text.{◌==◌}
use text.Mathlib.TextEquality.{eq_iff}
use persistent_atp.Prelude.Tests.{if◌then◌else◌, and_true, Bool-cases}
use persistent_atp.Prelude.Lists.{all}

module _ {ℓ} {V : Type ℓ} where
  -- d.get(k)
  unfoldable pub lookup : String → List (String × V) → Option V
  lookup k [] = none
  lookup k ((j, v) ∷ d) = if j == k then some v else lookup k d

  -- {**d, k: v}: a key that is there keeps its place.
  unfoldable pub insert : String → V → List (String × V) → List (String × V)
  insert k v [] = (k, v) ∷ []
  insert k v ((j, w) ∷ d) = if j == k then (j, v) ∷ d else (j, w) ∷ insert k v d

  pub lookup-insert :
      (k j : String) (v : V) (d : List (String × V))
      → lookup j (insert k v d) ≡ (if k == j then some v else lookup j d)
  unfolding lookup insert
  lookup-insert k j v [] = refl
  lookup-insert k j v ((i, w) ∷ d) =
      ground (arith, eq_iff k j, eq_iff i k, eq_iff i j, lookup-insert k j v d)

  pub insert-insert :
      (k : String) (v w : V) (d : List (String × V)) → insert k v (insert k w d) ≡ insert k v d
  unfolding insert
  insert-insert k v w [] = ground (arith, eq_iff k k)
  insert-insert k v w ((j, u) ∷ d) = ground (arith, eq_iff j k, insert-insert k v w d)

  -- What a test finds true of each entry is true of a looked-up one.
  pub all-lookup :
      (p : String × V → Bool) (k : String) (v : V) (d : List (String × V))
      → all p d ≡ true
      → lookup k d ≡ some v
      → p (k, v) ≡ true
  unfolding lookup
  all-lookup p k v [] h e = cc
  all-lookup p k v ((j, w) ∷ d) h e = elim (Bool-cases (j == k)) [
    | inl q ↦ ground (arith, (eq_iff j k).0 q, and_true (p (j, w)) (all p d) h)
    | inr q ↦ all-lookup p k v d (and_true (p (j, w)) (all p d) h).1 (ground (arith, q))
  ]
