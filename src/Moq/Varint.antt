-- ===== src/Moq/Varint.antt =====
-- internal/protocols/moq/varint/varint.go: integers of 1 to 9 bytes, whose first byte tells the
-- size by its leading ones.
mod Agreement
mod Bytes
pub mod Codec
pub mod Readers
mod Tests
use Prim.Native.Nat.{bit_and, bit_or}
use ppmmx.Base.{
  ℕ, zero, suc, ◌+◌, ◌-◌, ◌*◌, ◌/◌, ◌%◌, ◌^◌, Option, none, some, List, [], ◌∷◌, ltb, leb, ◌==◌,
  if◌then◌else◌, length, take, drop,
}
use ppmmx.Moq.{
  Error, Result, ok, err, panic, ◌>>=◌, not_enough_bytes, unsupported_prefix, read_full,
}

-- The switch of `Unmarshal` on the first byte: the size of the whole encoding, 1 for a byte that is the value.
unfoldable pub size_of : ℕ → Option ℕ
size_of b =
    if bit_and b 0x80 == 0
    then some 1
    else if bit_and b 0xC0 == 0x80
    then some 2
    else if bit_and b 0xE0 == 0xC0
    then some 3
    else if bit_and b 0xF0 == 0xE0
    then some 4
    else if bit_and b 0xF8 == 0xF0
    then some 5
    else if bit_and b 0xFC == 0xF8
    then some 6
    else if bit_and b 0xFE == 0xFC
    then some 7
    else if b == 0xFE
    then some 8
    else if b == 0xFF
    then some 9
    else none

-- The bits of the first byte that belong to the value, by the size; none for the sizes 8 and 9.
unfoldable pub payload_mask : ℕ → ℕ
payload_mask size =
    if size == 2
    then 0x3F
    else if size == 3
    then 0x1F
    else if size == 4
    then 0x0F
    else if size == 5
    then 0x07
    else if size == 6
    then 0x03
    else if size == 7
    then 0x01
    else 0

-- Varint(x)<<k
abbrev pub shl : ℕ → ℕ → ℕ
shl x k = x * 2 ^ k % 2 ^ 64

-- acc | Varint(x)<<(8*n) | ... | Varint(y), over the bytes that follow the first
unfoldable pub join : ℕ → List ℕ → ℕ
join acc [] = acc
join acc (x ∷ xs) = join (bit_or acc (shl x (8 * length xs))) xs

-- The switch of `Unmarshal` on the size, over the first byte and the others.
unfoldable pub value_of : ℕ → ℕ → List ℕ → ℕ
value_of size b others = join (shl (bit_and b (payload_mask size)) (8 * (size - 1))) others

-- `Unmarshal`: the value and the number of bytes that it takes.
abbrev pub unmarshal_sized : Option ℕ → ℕ → List ℕ → Result (ℕ × ℕ)
unmarshal_sized none b others = err (unsupported_prefix b)
unmarshal_sized (some size) b others =
    if size == 1
    then ok (b, 1)
    else if ltb (suc (length others)) size
    then err not_enough_bytes
    else ok (value_of size b (take (size - 1) others), size)

unfoldable pub unmarshal : List ℕ → Result (ℕ × ℕ)
unmarshal [] = err not_enough_bytes
unmarshal (b ∷ others) = unmarshal_sized (size_of b) b others

-- The switch of `Read` on the first byte.
unfoldable pub read_size : ℕ → Option ℕ
read_size b =
    if bit_and b 0x80 == 0
    then some 1
    else if bit_and b 0xC0 == 0x80
    then some 2
    else if bit_and b 0xE0 == 0xC0
    then some 3
    else if bit_and b 0xF0 == 0xE0
    then some 4
    else if bit_and b 0xF8 == 0xF0
    then some 5
    else if bit_and b 0xFC == 0xF8
    then some 6
    else if bit_and b 0xFE == 0xFC
    then some 7
    else if b == 0xFE
    then some 8
    else if b == 0xFF
    then some 9
    else none

-- rest[i]
unfoldable pub byte_at : List ℕ → ℕ → ℕ
byte_at [] i = 0
byte_at (x ∷ xs) zero = x
byte_at (x ∷ xs) (suc i) = byte_at xs i

-- a | Varint(rest[i])<<8 | Varint(rest[i+1]), the last bytes of a value
unfoldable pub or_two : ℕ → List ℕ → ℕ → ℕ
or_two a rest i = bit_or (bit_or a (shl (byte_at rest i) 8)) (shl (byte_at rest (i + 1)) 0)

-- The switch of `Read` on the size, over the first byte and the `size - 1` bytes that follow it.
unfoldable pub read_value : ℕ → ℕ → List ℕ → ℕ
read_value size b rest =
    if size == 2
    then bit_or (shl (bit_and b 0x3F) 8) (shl (byte_at rest 0) 0)
    else if size == 3
    then or_two (shl (bit_and b 0x1F) 16) rest 0
    else if size == 4
    then or_two (bit_or (shl (bit_and b 0x0F) 24) (shl (byte_at rest 0) 16)) rest 1
    else if size == 5
    then or_two
        (bit_or (bit_or (shl (bit_and b 0x07) 32) (shl (byte_at rest 0) 24))
          (shl (byte_at rest 1) 16))
        rest 2
    else if size == 6
    then or_two
        (bit_or
          (bit_or (bit_or (shl (bit_and b 0x03) 40) (shl (byte_at rest 0) 32))
            (shl (byte_at rest 1) 24))
          (shl (byte_at rest 2) 16))
        rest 3
    else if size == 7
    then or_two
        (bit_or
          (bit_or
            (bit_or (bit_or (shl (bit_and b 0x01) 48) (shl (byte_at rest 0) 40))
              (shl (byte_at rest 1) 32))
            (shl (byte_at rest 2) 24))
          (shl (byte_at rest 3) 16))
        rest 4
    else if size == 8
    then or_two
        (bit_or
          (bit_or
            (bit_or (bit_or (shl (byte_at rest 0) 48) (shl (byte_at rest 1) 40))
              (shl (byte_at rest 2) 32))
            (shl (byte_at rest 3) 24))
          (shl (byte_at rest 4) 16))
        rest 5
    else or_two
        (bit_or
          (bit_or
            (bit_or
              (bit_or (bit_or (shl (byte_at rest 0) 56) (shl (byte_at rest 1) 48))
                (shl (byte_at rest 2) 40))
              (shl (byte_at rest 3) 32))
            (shl (byte_at rest 4) 24))
          (shl (byte_at rest 5) 16))
        rest 6

-- `Read`, from a reader: the value and what is left to read.
abbrev pub read_sized : Option ℕ → ℕ → List ℕ → Result (ℕ × List ℕ)
read_sized none b r = err (unsupported_prefix b)
read_sized (some size) b r =
    if size == 1
    then ok (b, r)
    else read_full (size - 1) r >>= λ (p : List ℕ × List ℕ). ok (read_value size b p.0, p.1)

abbrev read_first : List ℕ → List ℕ → Result (ℕ × List ℕ)
read_first [] r = err (unsupported_prefix 0)
read_first (b ∷ rest) r = read_sized (read_size b) b r

unfoldable pub read : List ℕ → Result (ℕ × List ℕ)
read r = read_full 1 r >>= λ (p : List ℕ × List ℕ). read_first p.0 p.1

unfoldable pub marshal_size : ℕ → ℕ
marshal_size v =
    if ltb v (2 ^ 7)
    then 1
    else if ltb v (2 ^ 14)
    then 2
    else if ltb v (2 ^ 21)
    then 3
    else if ltb v (2 ^ 28)
    then 4
    else if ltb v (2 ^ 35)
    then 5
    else if ltb v (2 ^ 42)
    then 6
    else if ltb v (2 ^ 49)
    then 7
    else if ltb v (2 ^ 56)
    then 8
    else 9

-- byte(v>>(8*(n-1))), ..., byte(v>>8), byte(v)
unfoldable pub low_bytes : ℕ → ℕ → List ℕ
low_bytes zero v = []
low_bytes (suc n) v = (v / 2 ^ (8 * n)) % 256 ∷ low_bytes n v

-- prefix | byte(v>>(8*n)), and the n bytes below it
abbrev pub tagged : ℕ → ℕ → ℕ → List ℕ
tagged prefix n v = bit_or prefix ((v / 2 ^ (8 * n)) % 256) ∷ low_bytes n v

-- `Marshal`: the bytes that `MarshalTo` writes at the front of its buffer.
unfoldable pub marshal : ℕ → List ℕ
unfolding low_bytes
marshal v =
    if ltb v (2 ^ 7)
    then low_bytes 1 v
    else if ltb v (2 ^ 14)
    then tagged 0x80 1 v
    else if ltb v (2 ^ 21)
    then tagged 0xC0 2 v
    else if ltb v (2 ^ 28)
    then tagged 0xE0 3 v
    else if ltb v (2 ^ 35)
    then tagged 0xF0 4 v
    else if ltb v (2 ^ 42)
    then tagged 0xF8 5 v
    else if ltb v (2 ^ 49)
    then tagged 0xFC 6 v
    else if ltb v (2 ^ 56)
    then 0xFE ∷ low_bytes 7 v
    else 0xFF ∷ low_bytes 8 v
