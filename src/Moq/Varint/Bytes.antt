-- ===== src/Moq/Varint/Bytes.antt =====
-- The two byte loops of internal/protocols/moq/varint/varint.go: shifting the bytes of a number out
-- and joining them again, and the tags of the first byte as tables.
use Prim.Native.Nat.{bit_and, bit_or}
use native.Mathlib.Numerals.{towards_suc}
use native.Mathlib.Nat.{
  mul-le-mul_right, one-le-pow, div-add-mod, mod-lt, mod-eq_of_lt, mul-add-mod_self_left,
}
use ppmmx.Base.{
  ℕ, zero, suc, ◌+◌, ◌*◌, ◌/◌, ◌%◌, ◌^◌, ◌≤◌, ◌<◌, ◌≡◌, refl, ap, ◌∙◌, Bool, true, false, ◌&&◌,
  Option, none, some, List, length, All, ◌==◌, arith,
}
use ppmmx.Base.Bits.{or-shifted}
use ppmmx.Moq.{IsByte}
use ppmmx.Moq.Varint.{size_of, payload_mask, shl, join, low_bytes}

-- Over a small range, a test is checked by running it.
unfoldable pub holds_below : ℕ → (ℕ → Bool) → Bool
holds_below zero p = true
holds_below (suc n) p = p n && holds_below n p

pub holds_below-at : (n : ℕ) (p : ℕ → Bool) (x : ℕ) → x < n → holds_below n p ≡ true → p x ≡ true
unfolding holds_below
holds_below-at zero p x lt h = absurd (omega arith)
holds_below-at (suc n) p x lt h = ground (arith, holds_below-at n p x)

abbrev size_is : Option ℕ → ℕ → Bool
size_is none s = false
size_is (some n) s = n == s

-- A first byte made of a tag and `x` tells the size `s`, and gives `x` back under its mask.
abbrev tag_test : ℕ → ℕ → ℕ → Bool
tag_test tag s x =
    size_is (size_of (bit_or tag x)) s && (bit_and (bit_or tag x) (payload_mask s) == x)

abbrev pub TellsSize : ℕ → ℕ → ℕ → Type 0
TellsSize tag s x =
    (size_of (bit_or tag x) ≡ some s) × (bit_and (bit_or tag x) (payload_mask s) ≡ x)

size_is-some : (o : Option ℕ) (s : ℕ) → size_is o s ≡ true → o ≡ some s
size_is-some none s h = cc
size_is-some (some n) s h = ground arith

test-TellsSize : (tag s x : ℕ) → tag_test tag s x ≡ true → TellsSize tag s x
test-TellsSize tag s x h = (size_is-some (size_of (bit_or tag x)) s (ground arith), ground arith)

module _ (x : ℕ) where
  pub tags_2 : x < 64 → TellsSize 0x80 2 x
  unfolding holds_below size_of payload_mask
  tags_2 h = test-TellsSize 0x80 2 x (holds_below-at 64 (tag_test 0x80 2) x h refl)

  pub tags_3 : x < 32 → TellsSize 0xC0 3 x
  unfolding holds_below size_of payload_mask
  tags_3 h = test-TellsSize 0xC0 3 x (holds_below-at 32 (tag_test 0xC0 3) x h refl)

  pub tags_4 : x < 16 → TellsSize 0xE0 4 x
  unfolding holds_below size_of payload_mask
  tags_4 h = test-TellsSize 0xE0 4 x (holds_below-at 16 (tag_test 0xE0 4) x h refl)

  pub tags_5 : x < 8 → TellsSize 0xF0 5 x
  unfolding holds_below size_of payload_mask
  tags_5 h = test-TellsSize 0xF0 5 x (holds_below-at 8 (tag_test 0xF0 5) x h refl)

  pub tags_6 : x < 4 → TellsSize 0xF8 6 x
  unfolding holds_below size_of payload_mask
  tags_6 h = test-TellsSize 0xF8 6 x (holds_below-at 4 (tag_test 0xF8 6) x h refl)

  pub tags_7 : x < 2 → TellsSize 0xFC 7 x
  unfolding holds_below size_of payload_mask
  tags_7 h = test-TellsSize 0xFC 7 x (holds_below-at 2 (tag_test 0xFC 7) x h refl)

  pub small_size : x < 128 → size_of x ≡ some 1
  unfolding holds_below size_of
  small_size h =
      size_is-some (size_of x) 1 (holds_below-at 128 (λ b. size_is (size_of b) 1) x h refl)

pub length-low_bytes : (n v : ℕ) → length (low_bytes n v) ≡ n
unfolding low_bytes
length-low_bytes zero v = refl
length-low_bytes (suc n) v = ap suc (length-low_bytes n v)

pub low_bytes-IsByte : (n v : ℕ) → All IsByte (low_bytes n v)
unfolding low_bytes
low_bytes-IsByte zero v = tt
low_bytes-IsByte (suc n) v = (omega arith, low_bytes-IsByte n v)

pub pow_byte : (n : ℕ) → 2 ^ (8 * suc n) ≡ 256 * 2 ^ (8 * n)
pow_byte n = rw (eight n) (simp towards_suc (omega arith))
  where
    eight : (k : ℕ) → 8 * suc k ≡ 8 * k + 8
    eight k = omega arith

byte_fits : (x n : ℕ) → x < 256 → x * 2 ^ (8 * n) < 2 ^ (8 * suc n)
byte_fits x n h = omega (
  arith,
  pow_byte n,
  mul-le-mul_right {m = suc x} {n = 256} (2 ^ (8 * n)) h,
  one-le-pow (8 * n) 2,
)

-- One round of `join` over a byte `x` above `n` more of them.
join_round :
    (q x n : ℕ)
    → x < 256
    → q * 2 ^ (8 * suc n) + 2 ^ (8 * suc n) ≤ 2 ^ 64
    → bit_or (q * 2 ^ (8 * suc n)) (shl x (8 * n)) ≡ (q * 256 + x) * 2 ^ (8 * n)
join_round q x n h fits = omega (
  arith,
  ap (λ (t : ℕ). bit_or (q * 2 ^ (8 * suc n)) t) unwrapped,
  or-shifted (8 * suc n) q (x * 2 ^ (8 * n)) (byte_fits x n h),
  ap (λ (t : ℕ). q * t) (pow_byte n),
)
  where
    unwrapped : shl x (8 * n) ≡ x * 2 ^ (8 * n)
    unwrapped = omega (arith, byte_fits x n h)

-- The highest of `n + 1` bytes of `v`, and the others.
low_part : (n v : ℕ) → v % 2 ^ (8 * suc n) ≡ v / 2 ^ (8 * n) % 256 * 2 ^ (8 * n) + v % 2 ^ (8 * n)
low_part n v =
    rw (pow_byte n) (ap (λ (t : ℕ). t % (256 * unit)) regrouped ∙ wrapped ∙ mod-eq_of_lt below)
  where
    unit : ℕ
    unit = 2 ^ (8 * n)

    digit : ℕ
    digit = v / unit

    low : ℕ
    low = digit % 256 * unit + v % unit

    below : low < 256 * unit
    below = omega (
      arith,
      mul-le-mul_right {m = suc (digit % 256)} {n = 256} unit (omega arith),
      mod-lt v {m = unit} (one-le-pow (8 * n) 2 (omega arith)),
    )

    regrouped : v ≡ 256 * unit * (digit / 256) + low
    regrouped = omega (arith, div-add-mod v unit, ap (λ (t : ℕ). unit * t) (div-add-mod digit 256))

    wrapped : (256 * unit * (digit / 256) + low) % (256 * unit) ≡ low % (256 * unit)
    wrapped = mul-add-mod_self_left (256 * unit) (digit / 256) low

-- Joining the low bytes of `v` below `q` gives the number with those digits.
pub join-low_bytes :
    (n q v : ℕ)
    → q * 2 ^ (8 * n) + 2 ^ (8 * n) ≤ 2 ^ 64
    → join (q * 2 ^ (8 * n)) (low_bytes n v) ≡ q * 2 ^ (8 * n) + v % 2 ^ (8 * n)
unfolding join low_bytes
join-low_bytes zero q v fits = omega arith
join-low_bytes (suc n) q v fits =
    let x : ℕ = v / 2 ^ (8 * n) % 256 in
    let acc : ℕ = q * 2 ^ (8 * suc n) in
    let others : List ℕ = low_bytes n v in
    ap (λ (m : ℕ). join (bit_or acc (shl x (8 * m))) others) (length-low_bytes n v)
    ∙ ap (λ (t : ℕ). join t others) (join_round q x n (omega arith) fits)
    ∙ join-low_bytes n (q * 256 + x) v (
        omega (
          arith,
          mul-le-mul_right {m = suc x} {n = 256} (2 ^ (8 * n)) (omega arith),
          pow_byte n,
          ap (λ (t : ℕ). q * t) (pow_byte n),
        ))
    ∙ omega (arith, low_part n v, ap (λ (t : ℕ). q * t) (pow_byte n))
