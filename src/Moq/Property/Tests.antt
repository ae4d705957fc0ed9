-- ===== src/Moq/Property/Tests.antt =====
-- internal/protocols/moq/property on concrete bytes: runs, and the theorems applied.
use ppmmx.Base.{ℕ, ◌-◌, ◌^◌, ◌<◌, ◌≡◌, refl, some, List, [], ◌∷◌, ◌++◌, length, arith}
use ppmmx.Base.Int.{pos, negsuc}
use ppmmx.Moq.{ok, panic}
use ppmmx.Moq.Varint.{marshal, low_bytes}
use ppmmx.Moq.Property.{Property, timestamp, unmarshal_properties, marshal_properties}
use ppmmx.Moq.Property.Codec.{unmarshal_properties-marshal}
use ppmmx.Moq.Property.Loop.{unmarshal_properties-panic}
use ppmmx.Moq.Property.Termination.{Ends, unmarshal_properties-Ends}

abbrev stamps : List Property
stamps = timestamp (pos 90000) ∷ timestamp (negsuc 4) ∷ []

-- The length of the unknown property 1 is the largest uint64 but ten.
abbrev hostile_length : ℕ
hostile_length = 2 ^ 64 - 11

unmarshal_properties-marshal_example :
    unmarshal_properties (marshal_properties stamps) ≡ some (ok stamps)
unmarshal_properties-marshal_example =
    unmarshal_properties-marshal stamps (omega arith, (omega arith, tt))

not_within : hostile_length < 2 ^ 64 - length (marshal hostile_length)
unfolding marshal low_bytes
not_within = omega arith

unmarshal_properties-panic_example :
    unmarshal_properties (marshal 1 ++ (marshal hostile_length ++ [])) ≡ some panic
unmarshal_properties-panic_example =
    unmarshal_properties-panic 1 hostile_length [] (omega arith) refl (omega arith) not_within

unmarshal_properties-Ends_example : Ends (unmarshal_properties (6 ∷ 0x83 ∷ []))
unmarshal_properties-Ends_example = unmarshal_properties-Ends (6 ∷ 0x83 ∷ [])
