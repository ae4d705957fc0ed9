-- ===== src/Moq/Subgroup/Tests.antt =====
-- internal/protocols/moq/subgroup on a concrete stream.
use ppmmx.Base.{◌^◌, ◌≡◌, refl, inl, true, [], ◌∷◌, ◌++◌, arith}
use ppmmx.Base.Int.{pos}
use ppmmx.Moq.{ok}
use ppmmx.Moq.Varint.{marshal_size}
use ppmmx.Moq.Property.{timestamp, size_from}
use ppmmx.Moq.Subgroup.{Header, Object, read_subgroup, marshal_subgroup}
use ppmmx.Moq.Subgroup.Codec.{IsWritable, single, read_subgroup-marshal}

abbrev first_header : Header
first_header = record { properties = true; first_object = true; track_alias = 2; group_id = 300 }

abbrev stamped : Object
stamped = record { id_delta = 0; properties = timestamp (pos 90000) ∷ []; payload = 1 ∷ 2 ∷ 3 ∷ [] }

stamped-IsWritable : IsWritable (2 ^ 20) first_header stamped
unfolding size_from marshal_size
stamped-IsWritable = record {
  id = omega arith;
  announced = inl refl;
  stamps = (omega arith, tt);
  allocated = omega arith;
  size = omega arith;
  small = omega arith;
}

read_subgroup-marshal_example :
    read_subgroup (2 ^ 20) (marshal_subgroup (single first_header stamped) ++ (9 ∷ []))
    ≡ ok (single first_header stamped, 9 ∷ [])
read_subgroup-marshal_example =
    read_subgroup-marshal (2 ^ 20) first_header stamped (9 ∷ []) (omega arith) (omega arith)
      stamped-IsWritable
