-- ===== src/Store/Write.antt =====
-- What a write transaction that returned, or raised, has done to the store.
use persistent_atp.Prelude.{◌≡◌, refl, ◌⊎◌, inl, inr, arith, true, false, if◌then◌else◌, Bool}
use persistent_atp.Store.{
  Store, Result, ok, raises, Failure, Lock, granted, busy_begin, busy_commit, conclude, write,
  ◌>>=◌,
}

pub Result-cases {ℓ} :
    {A : Type ℓ} (r : Result A) → ((a : A) × (r ≡ ok a)) ⊎ ((e : Failure) × (r ≡ raises e))
Result-cases (ok a) = inl (a, refl)
Result-cases (raises e) = inr (e, refl)

-- A chain of two steps that returns: what the first has returned, and that the second returned.
pub >>=-eq-ok {κ ℓ} :
    {B : Type κ} {A : Type ℓ} (first : Result A) (next : A → Result B) {y : B}
    → (first >>= next) ≡ ok y
    → (x : A) × (first ≡ ok x) × (next x ≡ ok y)
>>=-eq-ok (raises e) next returned = absurd (cc)
>>=-eq-ok (ok x) next returned = (x, refl, returned)

-- A guard that raises, passed.
pub if-eq-ok {ℓ} :
    {A : Type ℓ} (guard : Bool) (e : Failure) (rest : Result A) {x : A}
    → (if guard then raises e else rest) ≡ ok x
    → (guard ≡ false) × (rest ≡ ok x)
if-eq-ok false e rest returned = (refl, returned)
if-eq-ok true e rest returned = absurd (cc)

module _ {A : Type 0} where
  conclude-ok :
      (lock : Lock) (s s' : Store) (r : Result (A × Store)) (a : A)
      → conclude lock s r ≡ (ok a, s')
      → r ≡ ok (a, s')
  conclude-ok granted s s' (ok (b, t)) a h = ground arith
  conclude-ok granted s s' (raises e) a h = absurd (ground arith)
  conclude-ok busy_begin s s' r a h = absurd (ground arith)
  conclude-ok busy_commit s s' (ok (b, t)) a h = absurd (ground arith)
  conclude-ok busy_commit s s' (raises e) a h = absurd (ground arith)

  -- A write that returns has run its block.
  pub write-ok :
      (lock : Lock) (body : Store → Result (A × Store)) (s s' : Store) (a : A)
      → write lock body s ≡ (ok a, s')
      → body s ≡ ok (a, s')
  unfolding write
  write-ok lock body s s' a h = conclude-ok lock s s' (body s) a h

  conclude-cases :
      (P : Store → Type 0) (lock : Lock) (s : Store) (r : Result (A × Store))
      → P s
      → ((a : A) (s' : Store) → r ≡ ok (a, s') → P s')
      → P (conclude lock s r).1
  conclude-cases P granted s (ok (a, t)) p f = f a t refl
  conclude-cases P granted s (raises e) p f = p
  conclude-cases P busy_begin s r p f = p
  conclude-cases P busy_commit s (ok (a, t)) p f = p
  conclude-cases P busy_commit s (raises e) p f = p

  -- A write leaves the store as it was, or as its block left it.
  pub write-cases :
      (P : Store → Type 0) (lock : Lock) (body : Store → Result (A × Store)) (s : Store)
      → P s
      → ((a : A) (s' : Store) → body s ≡ ok (a, s') → P s')
      → P (write lock body s).1
  unfolding write
  write-cases P lock body s p f = conclude-cases P lock s (body s) p f

  conclude-raises :
      (lock : Lock) (s : Store) (r : Result (A × Store)) (e : Failure)
      → (conclude lock s r).0 ≡ raises e
      → (conclude lock s r).1 ≡ s
  conclude-raises granted s (ok (a, t)) e h = absurd (cc)
  conclude-raises granted s (raises d) e h = refl
  conclude-raises busy_begin s r e h = refl
  conclude-raises busy_commit s (ok (a, t)) e h = refl
  conclude-raises busy_commit s (raises d) e h = refl

  -- A write that raises has left the store as it was.
  pub write-raises :
      (lock : Lock) (body : Store → Result (A × Store)) (s : Store) (e : Failure)
      → (write lock body s).0 ≡ raises e
      → (write lock body s).1 ≡ s
  unfolding write
  write-raises lock body s e h = conclude-raises lock s (body s) e h

-- The store, and the value, that a block has returned.
pub ok_parts :
    {A : Type 0} {a b : A} {s t : Store}
    → ◌≡◌ {A = Result (A × Store)} (ok (a, s)) (ok (b, t))
    → (a ≡ b) × (s ≡ t)
ok_parts h = (ground arith, ground arith)

pub eq_of_ok {ℓ} : {A : Type ℓ} {a b : A} → ok a ≡ ok b → a ≡ b
eq_of_ok h = cc
