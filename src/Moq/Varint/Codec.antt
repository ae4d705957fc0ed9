-- ===== src/Moq/Varint/Codec.antt =====
-- internal/protocols/moq/varint/varint.go: the encoder against the two decoders.
use Prim.Native.Nat.{bit_and, bit_or}
use native.Mathlib.Nat.{div-add-mod, mod-eq_of_lt, one-le-pow}
use ppmmx.Base.{
  subst, ℕ, suc, ◌+◌, ◌-◌, ◌*◌, ◌/◌, ◌%◌, ◌^◌, ◌≤◌, ◌<◌, ◌≡◌, refl, ap, sym, ◌∙◌, ◌⊎◌, inl, inr,
  some, List, ◌∷◌, ◌++◌, length, length-append, take, take-append, arith,
}
use ppmmx.Moq.{ok, IsU64}
use ppmmx.Moq.Varint.{
  size_of, payload_mask, shl, join, value_of, unmarshal, marshal_size, low_bytes, tagged, marshal,
}
use ppmmx.Moq.Varint.Bytes.{
  TellsSize, tags_2, tags_3, tags_4, tags_5, tags_6, tags_7, small_size, length-low_bytes,
  join-low_bytes,
}

-- The bytes written for a value, uint64 or larger, are `MarshalSize` many.
pub length-marshal : (v : ℕ) → length (marshal v) ≡ marshal_size v
unfolding marshal marshal_size
length-marshal v = ground arith

-- A decoder's answer to a buffer with a first byte `b` that tells `n + 1` bytes, at least two.
unmarshal_found :
    (b n : ℕ) (others rest : List ℕ)
    → size_of b ≡ some (suc (suc n))
    → length others ≡ suc n
    → unmarshal (b ∷ others ++ rest) ≡ ok (value_of (suc (suc n)) b others, suc (suc n))
unfolding unmarshal
unmarshal_found b n others rest s len =
    rw s (ground (arith, length-append others rest, first_bytes))
  where
    first_bytes : take (suc (suc n) - 1) (others ++ rest) ≡ others
    first_bytes =
        subst (λ m. take m (others ++ rest) ≡ others) (len ∙ omega arith) (take-append others rest)

value_of-tagged :
    (b q n v : ℕ)
    → bit_and b (payload_mask (suc n)) ≡ q
    → q ≡ v / 2 ^ (8 * n)
    → q * 2 ^ (8 * n) + 2 ^ (8 * n) ≤ 2 ^ 64
    → value_of (suc n) b (low_bytes n v) ≡ v
unfolding value_of
value_of-tagged b q n v mask e fits =
    ap (λ (t : ℕ). join t (low_bytes n v)) head
    ∙ join-low_bytes n q v fits
    ∙ omega (arith, div-add-mod v (2 ^ (8 * n)), ap (λ (t : ℕ). t * 2 ^ (8 * n)) e)
  where
    head : shl (bit_and b (payload_mask (suc n))) (8 * (suc n - 1)) ≡ q * 2 ^ (8 * n)
    head =
        rw mask
          (ap (λ (k : ℕ). q * 2 ^ (8 * k) % 2 ^ 64) (less n) ∙ omega (arith, one-le-pow (8 * n) 2))
      where
        less : (k : ℕ) → suc k - 1 ≡ k
        less k = omega arith

-- A value whose bits above its `n + 1` low bytes are the tagged `q`.
tagged-unmarshal :
    (tag n v : ℕ) (rest : List ℕ)
    → TellsSize tag (suc (suc n)) (v / 2 ^ (8 * suc n))
    → v / 2 ^ (8 * suc n) < 256
    → v / 2 ^ (8 * suc n) * 2 ^ (8 * suc n) + 2 ^ (8 * suc n) ≤ 2 ^ 64
    → unmarshal (tagged tag (suc n) v ++ rest) ≡ ok (v, suc (suc n))
tagged-unmarshal tag n v rest (size, mask) small fits =
    let q : ℕ = v / 2 ^ (8 * suc n) in
    let b : ℕ = bit_or tag q in
    rw (mod-eq_of_lt small) (
      unmarshal_found b n (low_bytes (suc n) v) rest size (length-low_bytes (suc n) v)
      ∙ ap (λ (t : ℕ). ok (t, suc (suc n))) (value_of-tagged b q (suc n) v mask refl fits))

all_tag_8 : (size_of 0xFE ≡ some 8) × (bit_and 0xFE (payload_mask 8) ≡ 0)
unfolding size_of payload_mask
all_tag_8 = (refl, refl)

all_tag_9 : (size_of 0xFF ≡ some 9) × (bit_and 0xFF (payload_mask 9) ≡ 0)
unfolding size_of payload_mask
all_tag_9 = (refl, refl)

-- The nine shapes of an encoding.
marshal_shapes :
    (v : ℕ)
    → ((v < 2 ^ 7) × (marshal v ≡ low_bytes 1 v))
      ⊎ ((v < 2 ^ 14) × (marshal v ≡ tagged 0x80 1 v))
      ⊎ ((v < 2 ^ 21) × (marshal v ≡ tagged 0xC0 2 v))
      ⊎ ((v < 2 ^ 28) × (marshal v ≡ tagged 0xE0 3 v))
      ⊎ ((v < 2 ^ 35) × (marshal v ≡ tagged 0xF0 4 v))
      ⊎ ((v < 2 ^ 42) × (marshal v ≡ tagged 0xF8 5 v))
      ⊎ ((v < 2 ^ 49) × (marshal v ≡ tagged 0xFC 6 v))
      ⊎ ((v < 2 ^ 56) × (marshal v ≡ 0xFE ∷ low_bytes 7 v))
      ⊎ (marshal v ≡ 0xFF ∷ low_bytes 8 v)
unfolding marshal
marshal_shapes v = ground arith

one_byte-unmarshal : (v : ℕ) (rest : List ℕ) → v < 128 → unmarshal (v ∷ rest) ≡ ok (v, 1)
unfolding unmarshal
one_byte-unmarshal v rest h = rw (small_size v h)

-- A first byte with all its bits in the tag, before the low bytes of a number that they hold.
untagged-unmarshal :
    (b n v : ℕ) (rest : List ℕ)
    → size_of b ≡ some (suc (suc n))
    → bit_and b (payload_mask (suc (suc n))) ≡ 0
    → v / 2 ^ (8 * suc n) ≡ 0
    → 2 ^ (8 * suc n) ≤ 2 ^ 64
    → unmarshal (b ∷ low_bytes (suc n) v ++ rest) ≡ ok (v, suc (suc n))
untagged-unmarshal b n v rest size mask zero_top fits =
    unmarshal_found b n (low_bytes (suc n) v) rest size (length-low_bytes (suc n) v)
    ∙ ap (λ (t : ℕ). ok (t, suc (suc n)))
        (value_of-tagged b 0 (suc n) v mask (sym zero_top) (omega arith))

-- The answer that is wanted, for an encoding of `v`.
abbrev ReadsBack : ℕ → List ℕ → List ℕ → Type 0
ReadsBack v rest enc = unmarshal (enc ++ rest) ≡ ok (v, length enc)

-- For a uint64, `Unmarshal` on what `Marshal` wrote, whatever follows it, gives the value and the
-- number of bytes that were written.
pub unmarshal-marshal :
    (v : ℕ) (rest : List ℕ) → IsU64 v → unmarshal (marshal v ++ rest) ≡ ok (v, length (marshal v))
unfolding low_bytes
unmarshal-marshal v rest h = elim (marshal_shapes v) [
  | inl (b, e) ↦
      by_shape e (ap (λ (t : ℕ). unmarshal (t ∷ rest)) (omega arith) ∙ one_byte-unmarshal v rest b)
  | inr (inl (b, e)) ↦
      by_shape e
        (tagged-unmarshal 0x80 0 v rest (tags_2 _ (omega arith)) (omega arith) (omega arith))
  | inr (inr (inl (b, e))) ↦
      by_shape e
        (tagged-unmarshal 0xC0 1 v rest (tags_3 _ (omega arith)) (omega arith) (omega arith))
  | inr (inr (inr (inl (b, e)))) ↦
      by_shape e
        (tagged-unmarshal 0xE0 2 v rest (tags_4 _ (omega arith)) (omega arith) (omega arith))
  | inr (inr (inr (inr (inl (b, e))))) ↦
      by_shape e
        (tagged-unmarshal 0xF0 3 v rest (tags_5 _ (omega arith)) (omega arith) (omega arith))
  | inr (inr (inr (inr (inr (inl (b, e)))))) ↦
      by_shape e
        (tagged-unmarshal 0xF8 4 v rest (tags_6 _ (omega arith)) (omega arith) (omega arith))
  | inr (inr (inr (inr (inr (inr (inl (b, e))))))) ↦
      by_shape e
        (tagged-unmarshal 0xFC 5 v rest (tags_7 _ (omega arith)) (omega arith) (omega arith))
  | inr (inr (inr (inr (inr (inr (inr (inl (b, e)))))))) ↦
      by_shape e
        (untagged-unmarshal 0xFE 6 v rest all_tag_8.0 all_tag_8.1 (omega arith) (omega arith))
  | inr (inr (inr (inr (inr (inr (inr (inr e))))))) ↦
      by_shape e
        (untagged-unmarshal 0xFF 7 v rest all_tag_9.0 all_tag_9.1 (omega arith) (omega arith))
]
  where
    by_shape :
        {enc : List ℕ} → marshal v ≡ enc → ReadsBack v rest enc → ReadsBack v rest (marshal v)
    by_shape e r = subst (ReadsBack v rest) (sym e) r
