-- ===== src/Moq/ControlMessage/Strings.antt =====
-- internal/protocols/moq/controlmessage: the fields that the messages share, decoded again.
use ppmmx.Base.{
  ℕ, ◌^◌, ◌≤◌, ◌<◌, ◌≡◌, refl, ap, sym, ◌∙◌, List, [], ◌∷◌, ◌++◌, leb, if◌then◌else◌, length, drop,
  All, append_assoc, length-append, take-append, drop-append, arith,
}
use ppmmx.Base.Int.{pos, ltb_ℤ}
use ppmmx.Moq.{Result, ok, err, panic, Error, not_enough_for_namespace, IsU64, int_of}
use ppmmx.Moq.Varint.{marshal, marshal_size}
use ppmmx.Moq.Varint.Codec.{unmarshal-marshal, length-marshal}
use ppmmx.Moq.Subgroup.Codec.{then_ok}
use ppmmx.Moq.Parameter.{Parameter, marshal_parameters}
use ppmmx.Moq.Parameter.Codec.{IsParameter, length-marshal_after, unmarshal_parameters-marshal}
use ppmmx.Moq.ControlMessage.{
  cut_varint, split_string, cut_string, cut_parts, cut_namespace, cut_parameters,
}
use ppmmx.Moq.ControlMessage.Encode.{
  marshal_string, marshal_parts, marshal_namespace, marshal_counted, string_size, parts_size,
}

pub cut_varint-marshal :
    (v : ℕ) (rest : List ℕ) → IsU64 v → cut_varint (marshal v ++ rest) ≡ ok (v, rest)
unfolding cut_varint
cut_varint-marshal v rest h =
    then_ok _ (unmarshal-marshal v rest h)
      (ap (λ (bs : List ℕ). ok (v, bs)) (drop-append (marshal v) rest))

length-marshal_string : (s : List ℕ) → length (marshal_string s) ≡ string_size s
length-marshal_string s =
    omega (arith, length-append (marshal (length s)) s, length-marshal (length s))

split_string-append :
    (e : Error) (s rest : List ℕ)
    → length s < 2 ^ 63
    → split_string e (length s) (s ++ rest) ≡ ok (s, rest)
split_string-append e s rest h =
    in_range (length s) (length (s ++ rest)) _ h (omega (arith, length-append s rest))
    ∙ rw (take-append s rest) (rw (drop-append s rest) refl)
  where
    in_range :
        (l n : ℕ) (x : Result (List ℕ × List ℕ))
        → l < 2 ^ 63
        → l ≤ n
        → (if ltb_ℤ (pos n) (int_of l) then err e else if leb l n then x else panic) ≡ x
    in_range l n x h k = ground arith

pub cut_string-marshal :
    (e : Error) (s rest : List ℕ)
    → length s < 2 ^ 63
    → cut_string e (marshal_string s ++ rest) ≡ ok (s, rest)
unfolding cut_string
cut_string-marshal e s rest h = rw (append_assoc (marshal (length s)) s rest) (
    then_ok _ (cut_varint-marshal (length s) (s ++ rest) (omega arith))
      (split_string-append e s rest h))

pub length-marshal_parts : (parts : List (List ℕ)) → length (marshal_parts parts) ≡ parts_size parts
unfolding marshal_parts parts_size
length-marshal_parts [] = refl
length-marshal_parts (part ∷ parts) = omega (
  arith,
  length-append (marshal_string part) (marshal_parts parts),
  length-marshal_string part,
  length-marshal_parts parts,
)

cut_parts-marshal :
    (parts : List (List ℕ)) (rest : List ℕ)
    → parts_size parts < 2 ^ 63
    → cut_parts (length parts) (marshal_parts parts ++ rest) ≡ ok (parts, rest)
unfolding cut_parts marshal_parts parts_size
cut_parts-marshal [] rest h = refl
cut_parts-marshal (part ∷ parts) rest h =
    rw (append_assoc (marshal_string part) (marshal_parts parts) rest) (
      then_ok _
        (cut_string-marshal not_enough_for_namespace part (marshal_parts parts ++ rest)
          (omega arith))
        (then_ok _ (cut_parts-marshal parts rest (omega arith)) refl))

pub cut_namespace-marshal :
    (max_parts : ℕ) (parts : List (List ℕ)) (rest : List ℕ)
    → IsU64 (length parts)
    → length parts ≤ max_parts
    → parts_size parts < 2 ^ 63
    → cut_namespace max_parts (marshal_namespace parts ++ rest) ≡ ok (parts, rest)
unfolding cut_namespace
cut_namespace-marshal max_parts parts rest u fits h =
    rw (append_assoc (marshal (length parts)) (marshal_parts parts) rest) (
      then_ok _ (cut_varint-marshal (length parts) (marshal_parts parts ++ rest) u)
        (when_fits (length parts) _ fits ∙ cut_parts-marshal parts rest h))
  where
    when_fits :
        (n : ℕ) (x : Result (List (List ℕ) × List ℕ))
        → n ≤ max_parts
        → (if leb n max_parts then x else panic) ≡ x
    when_fits n x k = ground arith

pub cut_parameters-marshal :
    (ps : List Parameter) (rest : List ℕ)
    → IsU64 (length ps)
    → All IsParameter ps
    → cut_parameters (marshal_counted ps ++ rest) ≡ ok (ps, rest)
unfolding cut_parameters
cut_parameters-marshal ps rest u k =
    let bytes : List ℕ = marshal_parameters ps in
    rw (append_assoc (marshal (length ps)) bytes rest) (
      then_ok _ (cut_varint-marshal (length ps) (bytes ++ rest) u) (
        then_ok _ (unmarshal_parameters-marshal ps rest k) (
          ap (λ (n : ℕ). ok (ps, drop n (bytes ++ rest))) (sym (length-marshal_after ps 0))
          ∙ ap (λ (bs : List ℕ). ok (ps, bs)) (drop-append bytes rest))))

-- The number of the parts is bounded by their bytes.
pub length_parts-size : (parts : List (List ℕ)) → length parts ≤ parts_size parts
unfolding parts_size marshal_size
length_parts-size [] = omega arith
length_parts-size (part ∷ parts) = let more = length_parts-size parts in ground arith
