-- ===== src/Moq/Varint/Agreement.antt =====
-- internal/protocols/moq/varint/varint.go: the two switches of `Read` against those of `Unmarshal`.
use Prim.Native.Nat.{bit_and, bit_or}
use ppmmx.Base.{ℕ, suc, ◌≡◌, ◌≤◌, refl, ap, sym, ◌∙◌, ◌*◌, List, [], ◌∷◌, length, arith}
use ppmmx.Base.Bits.{bit_and-zero, bit_or-zero}
use ppmmx.Moq.Varint.{
  size_of, payload_mask, shl, join, value_of, read_size, byte_at, or_two, read_value,
}

-- The size of a whole encoding.
pub read_size-size_of : (b : ℕ) → read_size b ≡ size_of b
unfolding read_size size_of
read_size-size_of b = refl

-- No bit of the first byte belongs to the value.
join-unmasked :
    (b k : ℕ) (x : ℕ) (xs : List ℕ)
    → shl 0 k ≡ 0
    → join (shl (bit_and b 0) k) (x ∷ xs) ≡ join (shl x (8 * length xs)) xs
unfolding join
join-unmasked b k x xs z =
    ap (λ (t : ℕ). join (shl t k) (x ∷ xs)) (bit_and-zero b)
    ∙ ap (λ (t : ℕ). join (bit_or t (shl x (8 * length xs))) xs) z
    ∙ ap (λ (t : ℕ). join t xs) (bit_or-zero (shl x (8 * length xs)))

-- The value of an encoding of 2 to 9 bytes.
pub read_value-value_of :
    (b : ℕ) (x : ℕ) (xs : List ℕ)
    → length xs ≤ 7
    → read_value (suc (suc (length xs))) b (x ∷ xs) ≡ value_of (suc (suc (length xs))) b (x ∷ xs)
unfolding read_value value_of payload_mask join byte_at or_two
read_value-value_of b x [] h = refl
read_value-value_of b x (x1 ∷ []) h = refl
read_value-value_of b x (x1 ∷ x2 ∷ []) h = refl
read_value-value_of b x (x1 ∷ x2 ∷ x3 ∷ []) h = refl
read_value-value_of b x (x1 ∷ x2 ∷ x3 ∷ x4 ∷ []) h = refl
read_value-value_of b x (x1 ∷ x2 ∷ x3 ∷ x4 ∷ x5 ∷ []) h = refl
read_value-value_of b x (x1 ∷ x2 ∷ x3 ∷ x4 ∷ x5 ∷ x6 ∷ []) h =
    sym (join-unmasked b 56 x (x1 ∷ x2 ∷ x3 ∷ x4 ∷ x5 ∷ x6 ∷ []) refl)
read_value-value_of b x (x1 ∷ x2 ∷ x3 ∷ x4 ∷ x5 ∷ x6 ∷ x7 ∷ []) h =
    sym (join-unmasked b 64 x (x1 ∷ x2 ∷ x3 ∷ x4 ∷ x5 ∷ x6 ∷ x7 ∷ []) refl)
read_value-value_of b x (x1 ∷ x2 ∷ x3 ∷ x4 ∷ x5 ∷ x6 ∷ x7 ∷ x8 ∷ xs) h = absurd (omega arith)
