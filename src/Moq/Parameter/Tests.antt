-- ===== src/Moq/Parameter/Tests.antt =====
-- internal/protocols/moq/parameter on concrete parameters.
use ppmmx.Base.{◌^◌, ◌≡◌, refl, List, [], ◌∷◌, arith}
use ppmmx.Base.Int.{◌+ℤ◌, ◌-ℤ◌}
use ppmmx.Moq.{panic}
use ppmmx.Moq.Varint.{
  marshal, marshal_size, unmarshal, low_bytes, size_of, value_of, join, payload_mask,
}
use ppmmx.Moq.Parameter.{
  AuthorizationToken, Parameter, authorization_token, slice_between, unmarshal_token,
}
use ppmmx.Moq.Parameter.Codec.{IsToken}

abbrev token : AuthorizationToken
token = record { alias_type = 3; token_type = 500; token_value = 116 ∷ 111 ∷ 107 ∷ [] }

abbrev parameters : List Parameter
parameters = authorization_token token ∷ authorization_token token ∷ []

token-IsToken : IsToken token
unfolding marshal_size
token-IsToken = record { use_value = refl; type_fits = omega arith; size_fits = omega arith }

-- A size of 2 ^ 63 is a negative int.
huge_size_panics : unmarshal_token (marshal (2 ^ 63)) ≡ panic
unfolding unmarshal_token slice_between ◌+ℤ◌ ◌-ℤ◌ unmarshal marshal low_bytes size_of value_of join
    payload_mask
huge_size_panics = refl
