-- ===== src/Moq/ControlMessage/Tests.antt =====
-- internal/protocols/moq/controlmessage on concrete messages.
use ppmmx.Base.{ℕ, zero, suc, ◌^◌, ◌≤◌, ◌<◌, ◌≡◌, refl, inl, List, [], ◌∷◌, ◌++◌, length, arith}
use ppmmx.Base.Int.{pos, negsuc}
use ppmmx.Moq.{ok, panic}
use ppmmx.Moq.Varint.{marshal, marshal_size, low_bytes}
use ppmmx.Moq.Property.{timestamp, size_from}
use ppmmx.Moq.Parameter.{AuthorizationToken, authorization_token, size_after, token_size}
use ppmmx.Moq.Parameter.Codec.{IsToken}
use ppmmx.Moq.ControlMessage.{Message, publish, request_error, read_message}
use ppmmx.Moq.ControlMessage.Encode.{payload_size, parts_size, marshal_message, framed}
use ppmmx.Moq.ControlMessage.RoundTrip.{read_message-marshal}
use ppmmx.Moq.ControlMessage.Limits.{read_message-long, read_message-panic}

abbrev token : AuthorizationToken
token = record { alias_type = 3; token_type = 500; token_value = 116 ∷ 111 ∷ [] }

token-IsToken : IsToken token
unfolding marshal_size
token-IsToken = record { use_value = refl; type_fits = omega arith; size_fits = omega arith }

abbrev announced : Message
announced = publish (record {
  request_id = 7;
  namespace = (108 ∷ 105 ∷ []) ∷ (97 ∷ []) ∷ [];
  track_name = 118 ∷ [];
  track_alias = 3;
  parameters = authorization_token token ∷ [];
  track_properties = timestamp (pos 90000) ∷ timestamp (negsuc 4) ∷ [];
})

announced_small : payload_size announced < 2 ^ 16
unfolding payload_size parts_size marshal_size size_after token_size size_from
announced_small = omega arith

read_message-marshal_example :
    read_message 100 (marshal_message announced ++ (9 ∷ [])) ≡ ok (announced, 9 ∷ [])
read_message-marshal_example =
    read_message-marshal 100 announced (9 ∷ [])
      (
        omega arith,
        omega arith,
        omega arith,
        omega arith,
        (token-IsToken, tt),
        (omega arith, (omega arith, tt)),
      )
      announced_small

unfoldable letters : ℕ → List ℕ
letters zero = []
letters (suc n) = 97 ∷ letters n

length-letters : (n : ℕ) → length (letters n) ≡ n
unfolding letters
length-letters zero = refl
length-letters (suc n) = omega (arith, length-letters n)

abbrev long_reason : Message
long_reason = request_error (record { code = 1; reason = letters 65536 })

long_reason_size : 2 ^ 16 ≤ payload_size long_reason
unfolding payload_size
long_reason_size = omega (arith, length-letters 65536)

read_message-long_example :
    ¬ (read_message 100 (marshal_message long_reason ++ []) ≡ ok (long_reason, []))
read_message-long_example = read_message-long 100 long_reason [] long_reason_size

-- The count is 2 ^ 60.
hostile_size : length (marshal 7 ++ (marshal (2 ^ 60) ++ [])) < 2 ^ 16
unfolding marshal low_bytes
hostile_size = omega arith

read_message-panic_example :
    read_message 1000 (
      framed 0x03
        (length (marshal 7 ++ (marshal (2 ^ 60) ++ [])))
        (marshal 7 ++ (marshal (2 ^ 60) ++ []))
      ++ [])
    ≡ panic
read_message-panic_example =
    read_message-panic 1000 0x03 7 (2 ^ 60) [] [] (inl refl) (omega arith) (omega arith)
      (omega arith) hostile_size
