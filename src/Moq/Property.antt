-- ===== src/Moq/Property.antt =====
-- internal/protocols/moq/property: the properties of an object. The timestamp is the only type of
-- property. An index that a decoder gives is within the buffer, so `buf[n:]` is written `drop`
-- there. When `Unmarshal` fails, what it appended before is left out.
pub mod Loop
pub mod Termination
pub mod Codec
mod Tests
use ppmmx.Base.{
  ℕ, zero, suc, ◌+◌, ◌-◌, ◌%◌, ◌^◌, Option, none, some, List, [], ◌∷◌, ◌++◌, ◌==◌, if◌then◌else◌,
  length, drop,
}
use ppmmx.Base.Int.{ℤ, pos, negsuc, ◌+ℤ◌, ◌-ℤ◌, ltb_ℤ}
use ppmmx.Moq.{Result, ok, err, panic, ◌>>=◌, not_enough_for_property, int_of, slice_from}
use ppmmx.Moq.Varint.{unmarshal, marshal, marshal_size}

-- An int64.
pub data Property : Type 0 where
  timestamp : ℤ → Property

abbrev pub timestamp_type : ℕ
timestamp_type = 0x06

abbrev pub prop_type : Property → ℕ
prop_type (timestamp t) = timestamp_type

-- Varint(t) of an int64
abbrev pub uint_of : ℤ → ℕ
uint_of (pos n) = n
uint_of (negsuc k) = 2 ^ 64 - suc k

abbrev pub value_bits : Property → ℕ
value_bits (timestamp t) = uint_of t

-- One round of the loop: the property, if it is a known one, the type and what is left to decode.
pub record Round : Type 0 where
  pub found : Option Property
  pub current_type : ℕ
  pub left : List ℕ

abbrev pub read_timestamp : ℕ → List ℕ → Result Round
read_timestamp t buf = unmarshal buf >>= λ (p : ℕ × ℕ).
    ok (record { found = some (timestamp (int_of p.0)); current_type = t; left = drop p.1 buf })

-- An unknown property of an odd type: a length and as many bytes.
unfoldable pub skip_bytes : ℕ → List ℕ → Result Round
skip_bytes t buf = unmarshal buf >>= λ (p : ℕ × ℕ).
    if ltb_ℤ (pos (length buf) -ℤ pos p.1) (int_of p.0)
    then err not_enough_for_property
    else slice_from buf (pos p.1 +ℤ int_of p.0) >>= λ (left : List ℕ).
        ok (record { found = none; current_type = t; left = left })

-- An unknown property of an even type: a number.
abbrev pub skip_number : ℕ → List ℕ → Result Round
skip_number t buf = unmarshal buf >>= λ (p : ℕ × ℕ).
    ok (record { found = none; current_type = t; left = drop p.1 buf })

abbrev pub by_type : ℕ → List ℕ → Result Round
by_type t buf =
    if t == timestamp_type
    then read_timestamp t buf
    else if t % 2 == 1
    then skip_bytes t buf
    else skip_number t buf

unfoldable pub round : ℕ → List ℕ → Result Round
round t buf = unmarshal buf >>= λ (p : ℕ × ℕ). by_type ((t + p.0) % 2 ^ 64) (drop p.1 buf)

abbrev pub found_before : Option Property → Result (List Property) → Result (List Property)
found_before none r = r
found_before (some p) r = r >>= λ (ps : List Property). ok (p ∷ ps)

-- What follows a round, by the rest of the loop, `none` when that has no fuel.
abbrev pub follow :
    Option Property → Option (Result (List Property)) → Option (Result (List Property))
follow p none = none
follow p (some r) = some (found_before p r)

-- An error ends the loop.
abbrev pub after_round :
    Result Round → (Round → Option (Result (List Property))) → Option (Result (List Property))
after_round (ok r) go_on = go_on r
after_round (err e) go_on = some (err e)
after_round panic go_on = some panic

unfoldable pub loop : ℕ → ℕ → List ℕ → Option (Result (List Property))
loop zero t buf = none
loop (suc fuel) t [] = some (ok [])
loop (suc fuel) t (b ∷ bs) =
    after_round (round t (b ∷ bs)) (λ (r : Round). follow r.found (loop fuel r.current_type r.left))

-- `Properties.Unmarshal`, with fuel for as many rounds as there are bytes.
unfoldable pub unmarshal_properties : List ℕ → Option (Result (List Property))
unmarshal_properties buf = loop (suc (length buf)) 0 buf

-- t - prevType, of uint64
abbrev pub delta : ℕ → ℕ → ℕ
delta t prev = (t + 2 ^ 64 - prev) % 2 ^ 64

unfoldable pub marshal_from : ℕ → List Property → List ℕ
marshal_from prev [] = []
marshal_from prev (p ∷ ps) =
    marshal (delta (prop_type p) prev) ++ (marshal (value_bits p) ++ marshal_from (prop_type p) ps)

-- The bytes that `Properties.MarshalTo` writes.
abbrev pub marshal_properties : List Property → List ℕ
marshal_properties ps = marshal_from 0 ps

unfoldable pub size_from : ℕ → List Property → ℕ
size_from prev [] = 0
size_from prev (p ∷ ps) =
    marshal_size (delta (prop_type p) prev)
    + marshal_size (value_bits p)
    + size_from (prop_type p) ps

-- `Properties.MarshalSize`
abbrev pub properties_size : List Property → ℕ
properties_size ps = size_from 0 ps
