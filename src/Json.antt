-- ===== src/Json.antt =====
-- The values of Python that cross the program's boundaries: JSON scalars as field values, and JSON
-- trees as journalled forms. `num z k` is the finite number z / 2^k: an int at k = 0, and each
-- finite float at some k.
pub mod Equality
use persistent_atp.Prelude.{
  ℕ, String, Bool, true, false, Option, none, some, ◌*◌, ◌^◌, suc, str_eq, ◌==◌, ◌≡◌, refl, arith,
  eq_refl, if◌then◌else◌,
}

pub data ℤ : Type 0 where
  pos : ℕ → ℤ
  negsuc : ℕ → ℤ

pub data Value : Type 0 where
  null : Value
  bool : Bool → Value
  num : ℤ → ℕ → Value
  str : String → Value

abbrev pub int : ℕ → Value
int n = num (pos n) 0

-- Two numbers are equal when z * 2^l and w * 2^k are.
abbrev pub num_eq : ℤ → ℕ → ℤ → ℕ → Bool
num_eq (pos a) k (pos b) l = a * 2 ^ l == b * 2 ^ k
num_eq (negsuc a) k (negsuc b) l = suc a * 2 ^ l == suc b * 2 ^ k
num_eq _ k _ l = false

-- Python's `==` on scalars: `True == 1` and `False == 0` hold.
unfoldable pub value_eq : Value → Value → Bool
value_eq null null = true
value_eq (str s) (str t) = str_eq s t
value_eq (bool a) (bool b) = if a then b else (if b then false else true)
value_eq (bool a) (num z k) = num_eq (pos (if a then 1 else 0)) 0 z k
value_eq (num z k) (bool a) = num_eq z k (pos (if a then 1 else 0)) 0
value_eq (num z k) (num w l) = num_eq z k w l
value_eq _ _ = false

-- `value == "literal"`
abbrev pub is_text : String → Value → Bool
is_text t (str s) = str_eq s t
is_text t null = false
is_text t (bool b) = false
is_text t (num z k) = false

-- d.get(k), with None for a missing key
abbrev pub or_null : Option Value → Value
or_null none = null
or_null (some v) = v

abbrev pub is_null : Value → Bool
is_null null = true
is_null (bool b) = false
is_null (num z k) = false
is_null (str s) = false

abbrev pub is_false : Value → Bool
is_false (bool false) = true
is_false (bool true) = false
is_false null = false
is_false (num z k) = false
is_false (str s) = false

mutual
  pub data Json : Type 0 where
    scalar : Value → Json
    arr : Items → Json
    obj : Members → Json

  pub data Items : Type 0 where
    nil : Items
    cons : Json → Items → Items

  pub data Members : Type 0 where
    end : Members
    member : String → Json → Members → Members

num_eq_refl : (z : ℤ) (k : ℕ) → num_eq z k z k ≡ true
num_eq_refl (pos a) k = ground arith
num_eq_refl (negsuc a) k = ground arith

pub value_eq_refl : (v : Value) → value_eq v v ≡ true
unfolding value_eq
value_eq_refl null = refl
value_eq_refl (bool true) = refl
value_eq_refl (bool false) = refl
value_eq_refl (num z k) = num_eq_refl z k
value_eq_refl (str s) = eq_refl s
