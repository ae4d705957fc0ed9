-- ===== src/Base/Bits.antt =====
-- `|` of a shifted number and one that fits below the shift, as a sum, at every width.
use Prim.Native.Nat.{
  ℕ, zero, suc, ◌+◌, ◌*◌, ◌/◌, ◌%◌, ◌^◌, ◌≤◌, ◌<◌, max, min, bit_and, bit_or, digits,
  bit_and-bitwise, bit_or-bitwise,
}
use mathlib.Core.Path.{◌≡◌, refl, ap, ◌∙◌}
use native.Mathlib.Nat.{pow-suc}
use native.Mathlib.Omega.{arith}

-- The digit recursion that `bit_or` stands for, `n` digits deep.
abbrev or_to_depth : ℕ → ℕ → ℕ → ℕ
or_to_depth n a b = digits (λ d. d) max n a b

-- Two depths that both reach the last digit of `a` agree.
depths_agree : (n m a b : ℕ) → a ≤ n → a ≤ m → or_to_depth n a b ≡ or_to_depth m a b
depths_agree (suc n) (suc m) (suc a) b h k =
    omega (arith, depths_agree n m (suc a / 2) (b / 2) (omega arith) (omega arith))
depths_agree zero zero a b h k = refl
depths_agree (suc n) (suc m) zero b h k = refl
depths_agree (suc n) zero zero b h k = refl
depths_agree zero (suc m) zero b h k = refl
depths_agree _ _ (suc a) b h k = absurd (omega arith)

or-digit : (a b : ℕ) → bit_or a b ≡ bit_or (a / 2) (b / 2) * 2 + max (a % 2) (b % 2)
or-digit zero b = omega (arith, bit_or-bitwise 0 b, bit_or-bitwise 0 (b / 2))
or-digit (suc a) b = omega (
  arith,
  bit_or-bitwise (suc a) b,
  depths_agree a (suc a / 2) (suc a / 2) (b / 2) (omega arith) (omega arith),
  bit_or-bitwise (suc a / 2) (b / 2),
)

or-none_below : (n a : ℕ) → a ≤ n → bit_or a 0 ≡ a
or-none_below n zero h = refl
or-none_below zero (suc a) h = absurd (omega arith)
or-none_below (suc n) (suc a) h =
    omega (arith, or-digit (suc a) 0, or-none_below n (suc a / 2) (omega arith))

pub or-shifted : (k q r : ℕ) → r < 2 ^ k → bit_or (q * 2 ^ k) r ≡ q * 2 ^ k + r
or-shifted zero q r h = ground (arith, or-none_below q q)
or-shifted (suc k) q r h = omega (
  arith,
  or-digit (q * 2 ^ suc k) r,
  pow-suc 2 k,
  ap (λ (t : ℕ). q * t) (pow-suc 2 k),
  or-shifted k q (r / 2) (omega (arith, pow-suc 2 k)),
  ap (λ (t : ℕ). bit_or t (r / 2)) half,
)
  where
    half : q * 2 ^ suc k / 2 ≡ q * 2 ^ k
    half = omega (arith, ap (λ (t : ℕ). q * t) (pow-suc 2 k))

-- A number with no bits in common with 0, and 0 with those of a number.
digits_none : (n a : ℕ) → digits (λ b. zero) min n a 0 ≡ 0
digits_none zero a = refl
digits_none (suc n) zero = refl
digits_none (suc n) (suc a) =
    omega (arith, digits_none n (suc a / 2), ap (λ (t : ℕ). t * 2) (digits_none n (suc a / 2)))

pub bit_and-zero : (a : ℕ) → bit_and a 0 ≡ 0
bit_and-zero a = bit_and-bitwise a 0 ∙ digits_none a a

pub bit_or-zero : (a : ℕ) → bit_or 0 a ≡ a
bit_or-zero a = bit_or-bitwise 0 a
