-- ===== src/Base/Float.antt =====
-- Go's `float64`, of which the model uses only what is named here: conversions, literals, a
-- product, a quotient and the two comparisons. The laws are those of the IEEE order, NaN included.
use ppmmx.Base.Tests.{ltb, leb}
use Prim.Native.Nat.{ℕ, ◌*◌, ◌/◌, ◌^◌}
use mathlib.Core.Bool.{Bool, true, false}
use mathlib.Core.Path.{◌≡◌}
use native.Mathlib.Omega.{arith}

pub record Float64 : Type 1 where
  pub Carrier : Type 0
  pub of_uint64 : ℕ → Carrier
  -- `literal m d` is the literal m / 10 ^ d.
  pub literal : ℕ → ℕ → Carrier
  pub mul : Carrier → Carrier → Carrier
  pub div : Carrier → Carrier → Carrier
  pub lt : Carrier → Carrier → Bool
  pub le : Carrier → Carrier → Bool
  pub lt_le : (a b : Carrier) → lt a b ≡ true → le a b ≡ true
  -- a < b excludes b <= a
  pub lt_not_le : (a b : Carrier) → lt a b ≡ true → le b a ≡ false
  -- a <= b < c gives a < c
  pub le_lt_trans : (a b c : Carrier) → le a b ≡ true → lt b c ≡ true → lt a c ≡ true

-- Fixed-point numbers with six decimals, which meet those laws and run in tests.
abbrev pub scale : ℕ
scale = 10 ^ 6

pub fixed_lt_not_le : (a b : ℕ) → ltb a b ≡ true → leb b a ≡ false
fixed_lt_not_le a b h = ground arith

pub fixed_le_lt_trans : (a b c : ℕ) → leb a b ≡ true → ltb b c ≡ true → ltb a c ≡ true
fixed_le_lt_trans a b c h k = ground arith

pub fixed_lt_le : (a b : ℕ) → ltb a b ≡ true → leb a b ≡ true
fixed_lt_le a b h = ground arith

abbrev pub fixed_point : Float64
fixed_point = record {
  Carrier = ℕ;
  of_uint64 = λ n. n * scale;
  literal = λ m d. m * scale / 10 ^ d;
  mul = λ a b. a * b / scale;
  div = λ a b. a * scale / b;
  lt = ltb;
  le = leb;
  lt_le = fixed_lt_le;
  lt_not_le = fixed_lt_not_le;
  le_lt_trans = fixed_le_lt_trans;
}
