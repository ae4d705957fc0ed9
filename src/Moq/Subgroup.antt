-- ===== src/Moq/Subgroup.antt =====
-- internal/protocols/moq/subgroup: a subgroup stream, its header and its objects. The reader gives
-- the byte that `Header.read` asks for, or io.EOF. A slice of more bytes than memory holds makes
-- `make` panic: `max_alloc` is the largest length that it takes, which the Go runtime sets.
pub mod Codec
pub mod Size
mod Tests
use Prim.Native.Nat.{bit_and, bit_or}
use ppmmx.Base.{
  ℕ, zero, suc, ◌+◌, ◌*◌, Bool, true, false, not, ◌||◌, Option, none, some, List, [], ◌∷◌, ◌++◌,
  ltb, leb, ◌==◌, if◌then◌else◌, length,
}
use ppmmx.Moq.{
  Result, ok, err, panic, ◌>>=◌, read_full, unexpected_status, payload_too_large,
  unexpected_second_object, out_of_fuel,
}
use ppmmx.Moq.Varint.{read, marshal, marshal_size}
use ppmmx.Moq.Property.{Property, unmarshal_properties, marshal_properties, properties_size}

pub record Header : Type 0 where
  pub properties : Bool
  pub first_object : Bool
  pub track_alias : ℕ
  pub group_id : ℕ

pub record Object : Type 0 where
  pub id_delta : ℕ
  pub properties : List Property
  pub payload : List ℕ

pub record SubGroup : Type 0 where
  pub header : Header
  pub objects : List Object

-- maxPayloadSize, 10 MiB
abbrev pub max_payload_size : ℕ
max_payload_size = 10 * 1024 * 1024

abbrev pub header_of : List ℕ → ℕ → ℕ → Header
header_of [] alias group = record {
  properties = false;
  first_object = false;
  track_alias = alias;
  group_id = group;
}
header_of (b ∷ bs) alias group = record {
  properties = not (bit_and b 0x01 == 0);
  first_object = not (bit_and b 0x40 == 0);
  track_alias = alias;
  group_id = group;
}

unfoldable pub read_header : List ℕ → Result (Header × List ℕ)
read_header r = read_full 1 r >>= λ (b : List ℕ × List ℕ). read b.1 >>= λ (alias : ℕ × List ℕ).
    read alias.1 >>= λ (group : ℕ × List ℕ). ok (header_of b.0 alias.0 group.0, group.1)

-- The byte 0x30, with the flags.
abbrev pub stream_type : Header → ℕ
stream_type h =
    bit_or (bit_or 0x30 (if h.properties then 0x01 else 0)) (if h.first_object then 0x40 else 0)

unfoldable pub marshal_header : Header → List ℕ
marshal_header h = marshal (stream_type h) ++ (marshal h.track_alias ++ marshal h.group_id)

abbrev pub decoded : Option (Result (List Property)) → Result (List Property)
decoded none = err out_of_fuel
decoded (some r) = r

abbrev read_some_properties : ℕ → List ℕ → Result (List Property × List ℕ)
read_some_properties size r = read_full size r >>= λ (bytes : List ℕ × List ℕ).
    decoded (unmarshal_properties bytes.0) >>= λ (ps : List Property). ok (ps, bytes.1)

-- The properties of `Object.read`; `make` panics on a length above `max_alloc`.
unfoldable pub read_properties : ℕ → Bool → List ℕ → Result (List Property × List ℕ)
read_properties max_alloc false r = ok ([], r)
read_properties max_alloc true r = read r >>= λ (size : ℕ × List ℕ).
    if size.0 == 0
    then ok ([], size.1)
    else if leb size.0 max_alloc
    then read_some_properties size.0 size.1
    else panic

abbrev read_status : List ℕ → Result (List ℕ × List ℕ)
read_status r = read r >>= λ (status : ℕ × List ℕ).
    if status.0 == 0x03 || status.0 == 0x04
    then ok ([], status.1)
    else err (unexpected_status status.0)

-- The payload of `Object.read`, or a status.
unfoldable pub read_payload : List ℕ → Result (List ℕ × List ℕ)
read_payload r = read r >>= λ (size : ℕ × List ℕ).
    if size.0 == 0
    then read_status size.1
    else if ltb max_payload_size size.0
    then err (payload_too_large size.0)
    else read_full size.0 size.1

unfoldable pub read_object : ℕ → Header → List ℕ → Result (Object × List ℕ)
read_object max_alloc h r = read r >>= λ (id : ℕ × List ℕ).
    read_properties max_alloc h.properties id.1 >>= λ (ps : List Property × List ℕ).
    read_payload ps.1 >>= λ (p : List ℕ × List ℕ).
    ok (record { id_delta = id.0; properties = ps.0; payload = p.0 }, p.1)

abbrev no_payload : List ℕ → Bool
no_payload [] = true
no_payload (b ∷ bs) = false

-- `SubGroup.Read`, with what the reader has left
unfoldable pub read_subgroup : ℕ → List ℕ → Result (SubGroup × List ℕ)
read_subgroup max_alloc r = read_header r >>= λ (h : Header × List ℕ).
    read_object max_alloc h.0 h.1 >>= λ (first : Object × List ℕ).
    read_object max_alloc h.0 first.1 >>= λ (second : Object × List ℕ).
    if no_payload second.0.payload
    then ok (record { header = h.0; objects = first.0 ∷ [] }, second.1)
    else err unexpected_second_object

unfoldable pub marshal_object_properties : Bool → List Property → List ℕ
marshal_object_properties false ps = []
marshal_object_properties true ps = marshal (properties_size ps) ++ marshal_properties ps

unfoldable pub marshal_payload : List ℕ → List ℕ
marshal_payload [] = 0x00 ∷ 0x03 ∷ []
marshal_payload (b ∷ bs) = marshal (length (b ∷ bs)) ++ (b ∷ bs)

unfoldable pub marshal_object : Header → Object → List ℕ
marshal_object h o =
    marshal o.id_delta
    ++ (marshal_object_properties h.properties o.properties ++ marshal_payload o.payload)

-- The object that ends the stream.
abbrev pub last_object : Object
last_object = record { id_delta = 0; properties = []; payload = [] }

unfoldable pub marshal_objects : Header → List Object → List ℕ
marshal_objects h [] = marshal_object h last_object
marshal_objects h (o ∷ os) = marshal_object h o ++ marshal_objects h os

-- `SubGroup.Marshal`
unfoldable pub marshal_subgroup : SubGroup → List ℕ
marshal_subgroup s = marshal_header s.header ++ marshal_objects s.header s.objects

-- `Header.marshalSize`
unfoldable pub header_size : Header → ℕ
header_size h = marshal_size (stream_type h) + marshal_size h.track_alias + marshal_size h.group_id

unfoldable pub properties_field_size : Bool → List Property → ℕ
properties_field_size false ps = 0
properties_field_size true ps = marshal_size (properties_size ps) + properties_size ps

-- `Object.marshalSize`
unfoldable pub object_size : Header → Object → ℕ
object_size h o =
    let field = properties_field_size h.properties o.properties in
    if length o.payload == 0
    then marshal_size o.id_delta + field + 2
    else marshal_size o.id_delta + field + marshal_size (length o.payload) + length o.payload

unfoldable pub objects_size : Header → List Object → ℕ
objects_size h [] = 0
objects_size h (o ∷ os) = object_size h o + objects_size h os

-- `SubGroup.marshalSize`
unfoldable pub subgroup_size : SubGroup → ℕ
subgroup_size s =
    header_size s.header + objects_size s.header s.objects + object_size s.header last_object
