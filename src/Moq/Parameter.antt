-- ===== src/Moq/Parameter.antt =====
-- internal/protocols/moq/parameter: the parameters of a control message. The authorization token is
-- the only type of parameter. When `Unmarshal` fails, what it appended before is left out.
pub mod Codec
mod Tests
use ppmmx.Base.{
  ℕ, zero, suc, ◌+◌, ◌-◌, ◌%◌, ◌^◌, ◌&&◌, List, [], ◌∷◌, ◌++◌, leb, ◌==◌, if◌then◌else◌, length,
  take, drop,
}
use ppmmx.Base.Int.{ℤ, pos, negsuc, ◌+ℤ◌, ◌-ℤ◌, ltb_ℤ}
use ppmmx.Moq.{
  Result, ok, err, panic, ◌>>=◌, Error, not_enough_for_parameter, unsupported_parameter_type,
  unsupported_token_alias_type, in_authorization_token, int_of,
}
use ppmmx.Moq.Varint.{unmarshal, marshal, marshal_size}

pub record AuthorizationToken : Type 0 where
  pub alias_type : ℕ
  pub token_type : ℕ
  pub token_value : List ℕ

pub data Parameter : Type 0 where
  authorization_token : AuthorizationToken → Parameter

abbrev pub type_authorization_token : ℕ
type_authorization_token = 0x03

abbrev pub alias_type_use_value : ℕ
alias_type_use_value = 0x03

-- buf[from:to], which panics out of range
unfoldable pub slice_between : List ℕ → ℕ → ℤ → Result (List ℕ)
slice_between buf from (pos to) =
    if leb from to && leb to (length buf) then ok (take (to - from) (drop from buf)) else panic
slice_between buf from (negsuc k) = panic

abbrev pub read_token : ℕ → List ℕ → Result AuthorizationToken
read_token alias buf = unmarshal buf >>= λ (type : ℕ × ℕ).
    ok (record { alias_type = alias; token_type = type.0; token_value = drop type.1 buf })

-- What `AuthorizationToken.unmarshal` reads inside of the length.
unfoldable pub token_of : List ℕ → Result AuthorizationToken
token_of buf = unmarshal buf >>= λ (alias : ℕ × ℕ).
    if alias.0 == alias_type_use_value
    then read_token alias.0 (drop alias.1 buf)
    else err (unsupported_token_alias_type alias.0)

-- `AuthorizationToken.unmarshal`, with the number of bytes that it used.
unfoldable pub unmarshal_token : List ℕ → Result (AuthorizationToken × ℕ)
unmarshal_token buf = unmarshal buf >>= λ (size : ℕ × ℕ).
    if ltb_ℤ (pos (length buf) -ℤ pos size.1) (int_of size.0)
    then err not_enough_for_parameter
    else slice_between buf size.1 (pos size.1 +ℤ int_of size.0) >>= λ (inner : List ℕ).
        token_of inner >>= λ (t : AuthorizationToken). ok (t, size.1 + size.0)

abbrev pub in_token : Result (AuthorizationToken × ℕ) → Result (AuthorizationToken × ℕ)
in_token (ok t) = ok t
in_token (err e) = err (in_authorization_token e)
in_token panic = panic

-- A parameter, by its type, with the number of bytes that it used.
abbrev pub by_parameter_type : ℕ → List ℕ → Result (Parameter × ℕ)
by_parameter_type t buf =
    if t == type_authorization_token
    then (in_token (unmarshal_token buf) >>= λ (p : AuthorizationToken × ℕ).
        ok (authorization_token p.0, p.1))
    else err (unsupported_parameter_type t)

-- `Parameters.Unmarshal` from the type `t` on, with the number of bytes that it used.
unfoldable pub unmarshal_from : ℕ → ℕ → List ℕ → Result (List Parameter × ℕ)
unmarshal_from zero t buf = ok ([], 0)
unmarshal_from (suc count) t buf = unmarshal buf >>= λ (d : ℕ × ℕ).
    by_parameter_type ((t + d.0) % 2 ^ 64) (drop d.1 buf) >>= λ (p : Parameter × ℕ).
    unmarshal_from count ((t + d.0) % 2 ^ 64) (drop p.1 (drop d.1 buf))
    >>= λ (rest : List Parameter × ℕ). ok (p.0 ∷ rest.0, d.1 + p.1 + rest.1)

-- `Parameters.Unmarshal`; `count` is a uint64 there too.
abbrev pub unmarshal_parameters : ℕ → List ℕ → Result (List Parameter × ℕ)
unmarshal_parameters count buf = unmarshal_from count 0 buf

abbrev pub inner_size : AuthorizationToken → ℕ
inner_size t = marshal_size t.alias_type + marshal_size t.token_type + length t.token_value

-- The bytes that `AuthorizationToken.marshalTo` writes.
unfoldable pub marshal_token : AuthorizationToken → List ℕ
marshal_token t =
    marshal (inner_size t) ++ (marshal t.alias_type ++ (marshal t.token_type ++ t.token_value))

-- t - prevType, of uint64, for the only type
abbrev pub type_delta : ℕ → ℕ
type_delta prev = (type_authorization_token + 2 ^ 64 - prev) % 2 ^ 64

-- The bytes that `Parameters.MarshalTo` writes, after the type `prev`.
unfoldable pub marshal_after : ℕ → List Parameter → List ℕ
marshal_after prev [] = []
marshal_after prev (authorization_token t ∷ ps) =
    marshal (type_delta prev) ++ (marshal_token t ++ marshal_after type_authorization_token ps)

abbrev pub marshal_parameters : List Parameter → List ℕ
marshal_parameters ps = marshal_after 0 ps

unfoldable pub token_size : AuthorizationToken → ℕ
token_size t = marshal_size (inner_size t) + inner_size t

unfoldable pub size_after : ℕ → List Parameter → ℕ
size_after prev [] = 0
size_after prev (authorization_token t ∷ ps) =
    marshal_size (type_delta prev) + token_size t + size_after type_authorization_token ps

-- `Parameters.MarshalSize`
abbrev pub parameters_size : List Parameter → ℕ
parameters_size ps = size_after 0 ps
