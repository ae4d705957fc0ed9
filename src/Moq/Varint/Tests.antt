-- ===== src/Moq/Varint/Tests.antt =====
-- internal/protocols/moq/varint/varint.go on concrete bytes: runs, and the theorems applied.
use ppmmx.Base.{ℕ, ◌-◌, ◌^◌, ◌≡◌, refl, List, [], ◌∷◌, ◌++◌, length, arith}
use ppmmx.Moq.{ok, err, io_unexpected_eof, read_full}
use ppmmx.Moq.Varint.{marshal, unmarshal, read, read_size, read_value, byte_at, or_two, low_bytes}
use ppmmx.Moq.Varint.Codec.{unmarshal-marshal}
use ppmmx.Moq.Varint.Readers.{ReadsAs, read-ReadsAs}

marshal_thousand : marshal 1000 ≡ 0x83 ∷ 0xE8 ∷ []
unfolding marshal low_bytes
marshal_thousand = refl

marshal_largest : marshal (2 ^ 64 - 1) ≡ 255 ∷ 255 ∷ 255 ∷ 255 ∷ 255 ∷ 255 ∷ 255 ∷ 255 ∷ 255 ∷ []
unfolding marshal low_bytes
marshal_largest = refl

read_cut : read (0xC1 ∷ 2 ∷ []) ≡ err io_unexpected_eof
unfolding read read_size read_full
read_cut = refl

unmarshal-marshal_example : unmarshal (marshal 1000 ++ (7 ∷ [])) ≡ ok (1000, length (marshal 1000))
unmarshal-marshal_example = unmarshal-marshal 1000 (7 ∷ []) (omega arith)

abbrev three_and_more : List ℕ
three_and_more = 0xC1 ∷ 2 ∷ 3 ∷ 9 ∷ []

read_three : read three_and_more ≡ ok (0x010203, 9 ∷ [])
unfolding read read_size read_value byte_at or_two read_full
read_three = refl

read-ReadsAs_example : ReadsAs three_and_more (unmarshal three_and_more) (read three_and_more)
read-ReadsAs_example = read-ReadsAs three_and_more
