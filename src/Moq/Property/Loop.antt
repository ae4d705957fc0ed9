-- ===== src/Moq/Property/Loop.antt =====
-- internal/protocols/moq/property: the loop of `Properties.Unmarshal` ends, and what it does with
-- the length of an unknown property.
use ppmmx.Base.{
  ℕ, suc, ◌+◌, ◌-◌, ◌%◌, ◌^◌, ◌≤◌, ◌<◌, ◌≡◌, refl, ap, ◌∙◌, false, some, List, [], ◌∷◌, ◌++◌,
  length, length-append, drop, drop-append, arith,
}
use ppmmx.Base.Int.{pos, negsuc, ◌+ℤ◌, ◌-ℤ◌, ltb_ℤ}
use ppmmx.Moq.{Result, panic, ◌>>=◌, int_of, slice_from}
use ppmmx.Moq.Varint.{marshal}
use ppmmx.Moq.Varint.Codec.{unmarshal-marshal}
use ppmmx.Moq.Property.Codec.{length-marshal_pos}
use ppmmx.Moq.Property.{
  Round, by_type, skip_bytes, round, follow, after_round, loop, unmarshal_properties,
}

-- A length that no int64 holds is read as a negative number, which passes the test of the bounds.
module _ (n size : ℕ) (big : 2 ^ 63 ≤ size) (below : size < 2 ^ 64 - n) where
  wrapped_index : pos n +ℤ int_of size ≡ negsuc (2 ^ 64 - size - n - 1)
  unfolding ◌+ℤ◌
  wrapped_index = ground arith

  wrapped_test : (len : ℕ) → n ≤ len → ltb_ℤ (pos len -ℤ pos n) (int_of size) ≡ false
  unfolding ◌-ℤ◌
  wrapped_test len h = ground arith

wrapped-skip_bytes :
    (t size : ℕ) (rest : List ℕ)
    → 2 ^ 63 ≤ size
    → size < 2 ^ 64 - length (marshal size)
    → skip_bytes t (marshal size ++ rest) ≡ panic
unfolding skip_bytes slice_from
wrapped-skip_bytes t size rest big below =
    let n : ℕ = length (marshal size) in
    let len : ℕ = length (marshal size ++ rest) in
    rw (unmarshal-marshal size rest (omega arith)) (
      rw (wrapped_test n size big below len (omega (arith, length-append (marshal size) rest)))
        (rw (wrapped_index n size big below) refl))

loop-panic :
    (fuel t : ℕ) (buf : List ℕ)
    → 1 ≤ length buf
    → round t buf ≡ panic
    → loop (suc fuel) t buf ≡ some panic
unfolding loop
loop-panic fuel t [] h e = absurd (omega arith)
loop-panic fuel t (b ∷ bs) h e =
    ap
      (λ (x : Result Round).
        after_round x (λ (q : Round). follow q.found (loop fuel q.current_type q.left)))
      e

-- An unknown property of the odd type `t`, at the start of a buffer, whose length is 2^63 or more
-- and not within the size of its own encoding of 2^64, makes `Unmarshal` panic, whatever follows.
pub unmarshal_properties-panic :
    (t size : ℕ) (rest : List ℕ)
    → t < 2 ^ 64
    → t % 2 ≡ 1
    → 2 ^ 63 ≤ size
    → size < 2 ^ 64 - length (marshal size)
    → unmarshal_properties (marshal t ++ (marshal size ++ rest)) ≡ some panic
unfolding unmarshal_properties round
unmarshal_properties-panic t size rest t64 odd big below =
    let others : List ℕ = marshal size ++ rest in
    let buf : List ℕ = marshal t ++ others in
    let after_type : ℕ × ℕ → Result Round =
      λ (q : ℕ × ℕ). by_type ((0 + q.0) % 2 ^ 64) (drop q.1 buf) in
    loop-panic (length buf) 0 buf (length-marshal_pos t others) (
      ap (λ (r : Result (ℕ × ℕ)). r >>= after_type) (unmarshal-marshal t others t64)
      ∙ ap (λ (k : ℕ). by_type k (drop (length (marshal t)) buf)) {x = (0 + t) % 2 ^ 64} {y = t}
          (omega arith)
      ∙ ap (λ (l : List ℕ). by_type t l) (drop-append (marshal t) others)
      ∙ by_type-odd
      ∙ wrapped-skip_bytes t size rest big below)
  where
    by_type-odd : by_type t (marshal size ++ rest) ≡ skip_bytes t (marshal size ++ rest)
    by_type-odd = ground arith
