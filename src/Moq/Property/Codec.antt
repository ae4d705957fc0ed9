-- ===== src/Moq/Property/Codec.antt =====
-- internal/protocols/moq/property: the encoder of properties against the decoder.
use ppmmx.Base.{
  ℕ, zero, suc, ◌+◌, ◌%◌, ◌^◌, ◌≤◌, ◌<◌, ◌≡◌, refl, ap, ◌∙◌, some, List, [], ◌∷◌, ◌++◌, All, length,
  length-append, drop, drop-append, arith,
}
use ppmmx.Base.Int.{ℤ, pos, negsuc}
use ppmmx.Moq.{Result, ok, ◌>>=◌, int_of, IsU64}
use ppmmx.Moq.Varint.{marshal, marshal_size}
use ppmmx.Moq.Varint.Codec.{unmarshal-marshal, length-marshal}
use ppmmx.Moq.Property.{
  Property, timestamp, timestamp_type, prop_type, uint_of, value_bits, Round, by_type,
  read_timestamp, round, follow, after_round, loop, unmarshal_properties, delta, marshal_from,
  marshal_properties, size_from, properties_size,
}

-- A number of type int64.
abbrev pub IsI64 : ℤ → Type 0
IsI64 (pos n) = n < 2 ^ 63
IsI64 (negsuc k) = k < 2 ^ 63

abbrev pub IsProperty : Property → Type 0
IsProperty (timestamp t) = IsI64 t

uint_of-IsU64 : (t : ℤ) → IsI64 t → IsU64 (uint_of t)
uint_of-IsU64 (pos n) h = omega arith
uint_of-IsU64 (negsuc k) h = omega arith

int_of-uint_of : (t : ℤ) → IsI64 t → int_of (uint_of t) ≡ t
int_of-uint_of (pos n) h = ground arith
int_of-uint_of (negsuc k) h = ground arith

-- Nothing is lost at the front of what follows a number.
drop-unmarshal : (v : ℕ) (rest : List ℕ) → drop (length (marshal v)) (marshal v ++ rest) ≡ rest
drop-unmarshal v rest = drop-append (marshal v) rest

read_timestamp-marshal :
    (t : ℕ) (value : ℤ) (rest : List ℕ)
    → IsI64 value
    → read_timestamp t (marshal (uint_of value) ++ rest)
      ≡ ok (record { found = some (timestamp value); current_type = t; left = rest })
read_timestamp-marshal t value rest h =
    rw (unmarshal-marshal (uint_of value) rest (uint_of-IsU64 value h))
      (rw (int_of-uint_of value h) (rw (drop-unmarshal (uint_of value) rest) refl))

round-marshal :
    (prev : ℕ) (value : ℤ) (rest : List ℕ)
    → prev < 2 ^ 64
    → IsI64 value
    → round prev (marshal (delta timestamp_type prev) ++ (marshal (uint_of value) ++ rest))
      ≡ ok (record { found = some (timestamp value); current_type = timestamp_type; left = rest })
unfolding round
round-marshal prev value rest p h =
    let d : ℕ = delta timestamp_type prev in
    let others : List ℕ = marshal (uint_of value) ++ rest in
    let buf : List ℕ = marshal d ++ others in
    let after_type : ℕ × ℕ → Result Round =
      λ (q : ℕ × ℕ). by_type ((prev + q.0) % 2 ^ 64) (drop q.1 buf) in
    ap (λ (r : Result (ℕ × ℕ)). r >>= after_type) (unmarshal-marshal d others (omega arith))
    ∙ ap (λ (t : ℕ). by_type t (drop (length (marshal d)) buf)) (type_again prev p)
    ∙ ap (λ (l : List ℕ). by_type timestamp_type l) (drop-unmarshal d others)
    ∙ read_timestamp-marshal timestamp_type value rest h
  where
    type_again : (t : ℕ) → t < 2 ^ 64 → (t + delta timestamp_type t) % 2 ^ 64 ≡ timestamp_type
    type_again t lt = omega arith

marshal_size-pos : (n : ℕ) → 1 ≤ marshal_size n
unfolding marshal_size
marshal_size-pos n = ground arith

pub length-marshal_pos : (v : ℕ) (rest : List ℕ) → 1 ≤ length (marshal v ++ rest)
length-marshal_pos v rest =
    omega (arith, length-append (marshal v) rest, length-marshal v, marshal_size-pos v)

loop-round :
    (fuel t : ℕ) (buf : List ℕ) (r : Round)
    → 1 ≤ length buf
    → round t buf ≡ ok r
    → loop (suc fuel) t buf ≡ follow r.found (loop fuel r.current_type r.left)
unfolding loop
loop-round fuel t [] r h e = absurd (omega arith)
loop-round fuel t (b ∷ bs) r h e =
    ap
      (λ (x : Result Round).
        after_round x (λ (q : Round). follow q.found (loop fuel q.current_type q.left)))
      e

loop-marshal :
    (ps : List Property) (fuel prev : ℕ)
    → prev < 2 ^ 64
    → length ps ≤ fuel
    → All IsProperty ps
    → loop (suc fuel) prev (marshal_from prev ps) ≡ some (ok ps)
unfolding marshal_from loop
loop-marshal [] fuel prev p h k = refl
loop-marshal (x ∷ ps) zero prev p h k = absurd (omega arith)
loop-marshal (timestamp value ∷ ps) (suc fuel) prev p h (k, ks) =
    let rest : List ℕ = marshal_from timestamp_type ps in
    let d : ℕ = delta timestamp_type prev in
    let r : Round = record {
      found = some (timestamp value);
      current_type = timestamp_type;
      left = rest;
    } in
    loop-round (suc fuel) prev (marshal d ++ (marshal (uint_of value) ++ rest)) r
      (length-marshal_pos d (marshal (uint_of value) ++ rest)) (round-marshal prev value rest p k)
    ∙ ap (follow (some (timestamp value)))
        (loop-marshal ps fuel timestamp_type (omega arith) (omega arith) ks)

length-marshal_from :
    (ps : List Property) (prev : ℕ) → length (marshal_from prev ps) ≡ size_from prev ps
unfolding marshal_from size_from
length-marshal_from [] prev = refl
length-marshal_from (p ∷ ps) prev =
    let d : ℕ = delta (prop_type p) prev in
    let rest : List ℕ = marshal_from (prop_type p) ps in
    omega (
      arith,
      length-append (marshal d) (marshal (value_bits p) ++ rest),
      length-append (marshal (value_bits p)) rest,
      length-marshal d,
      length-marshal (value_bits p),
      length-marshal_from ps (prop_type p),
    )

-- For all properties, `MarshalTo` writes `MarshalSize` bytes.
pub length-marshal_properties :
    (ps : List Property) → length (marshal_properties ps) ≡ properties_size ps
length-marshal_properties ps = length-marshal_from ps 0

pub fewer : (ps : List Property) (prev : ℕ) → length ps ≤ length (marshal_from prev ps)
unfolding marshal_from
fewer [] prev = omega arith
fewer (p ∷ ps) prev =
    let d : ℕ = delta (prop_type p) prev in
    let rest : List ℕ = marshal_from (prop_type p) ps in
    omega (
      arith,
      length-append (marshal d) (marshal (value_bits p) ++ rest),
      length-append (marshal (value_bits p)) rest,
      length-marshal_pos d [],
      length-append (marshal d) [],
      fewer ps (prop_type p),
    )

-- `Unmarshal` gives back any list of timestamps in the range of int64 that `MarshalTo` wrote, and
-- within the fuel.
pub unmarshal_properties-marshal :
    (ps : List Property)
    → All IsProperty ps
    → unmarshal_properties (marshal_properties ps) ≡ some (ok ps)
unfolding unmarshal_properties
unmarshal_properties-marshal ps k =
    loop-marshal ps (length (marshal_from 0 ps)) 0 (omega arith) (fewer ps 0) k
