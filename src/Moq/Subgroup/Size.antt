-- ===== src/Moq/Subgroup/Size.antt =====
-- internal/protocols/moq/subgroup: the size of the buffer that `SubGroup.Marshal` makes.
use ppmmx.Base.{
  ℕ, ◌+◌, ◌≡◌, refl, Bool, true, false, List, [], ◌∷◌, ◌++◌, ◌==◌, if◌then◌else◌, length,
  length-append, arith,
}
use ppmmx.Moq.Varint.{marshal, marshal_size}
use ppmmx.Moq.Varint.Codec.{length-marshal}
use ppmmx.Moq.Property.{Property, marshal_properties, properties_size}
use ppmmx.Moq.Property.Codec.{length-marshal_properties}
use ppmmx.Moq.Subgroup.{
  Header, Object, SubGroup, stream_type, marshal_header, marshal_object_properties, marshal_payload,
  marshal_object, marshal_objects, marshal_subgroup, last_object, header_size,
  properties_field_size, object_size, objects_size, subgroup_size,
}

length-marshal_header : (h : Header) → length (marshal_header h) ≡ header_size h
unfolding marshal_header header_size
length-marshal_header h = omega (
  arith,
  length-append (marshal (stream_type h)) (marshal h.track_alias ++ marshal h.group_id),
  length-append (marshal h.track_alias) (marshal h.group_id),
  length-marshal (stream_type h),
  length-marshal h.track_alias,
  length-marshal h.group_id,
)

length-marshal_object_properties :
    (given : Bool) (ps : List Property)
    → length (marshal_object_properties given ps) ≡ properties_field_size given ps
unfolding marshal_object_properties properties_field_size
length-marshal_object_properties false ps = refl
length-marshal_object_properties true ps = omega (
  arith,
  length-append (marshal (properties_size ps)) (marshal_properties ps),
  length-marshal (properties_size ps),
  length-marshal_properties ps,
)

-- What both branches of `Object.marshalSize` add for the payload.
abbrev payload_size : List ℕ → ℕ
payload_size payload = length (marshal_payload payload)

object_size-by_payload :
    (id field : ℕ) (payload : List ℕ)
    → (if length payload == 0
        then id + field + 2
        else id + field + marshal_size (length payload) + length payload)
      ≡ id + field + payload_size payload
unfolding marshal_payload
object_size-by_payload id field [] = refl
object_size-by_payload id field (b ∷ bs) =
    let n = length-append (marshal (length (b ∷ bs))) (b ∷ bs) in
    let m = length-marshal (length (b ∷ bs)) in ground arith

length-marshal_object : (h : Header) (o : Object) → length (marshal_object h o) ≡ object_size h o
unfolding marshal_object object_size
length-marshal_object h o =
    let props = marshal_object_properties h.properties o.properties in
    let field = properties_field_size h.properties o.properties in
    omega (
      arith,
      length-append (marshal o.id_delta) (props ++ marshal_payload o.payload),
      length-append props (marshal_payload o.payload),
      length-marshal o.id_delta,
      length-marshal_object_properties h.properties o.properties,
      object_size-by_payload (marshal_size o.id_delta) field o.payload,
    )

length-marshal_objects :
    (h : Header) (os : List Object)
    → length (marshal_objects h os) ≡ objects_size h os + object_size h last_object
unfolding marshal_objects objects_size
length-marshal_objects h [] = let last = length-marshal_object h last_object in omega arith
length-marshal_objects h (o ∷ os) = omega (
  arith,
  length-append (marshal_object h o) (marshal_objects h os),
  length-marshal_object h o,
  length-marshal_objects h os,
)

-- The buffer that `SubGroup.Marshal` makes for any subgroup is exactly as long as what `marshalTo`
-- writes to it, with or without properties, and for payloads of every length.
pub length-marshal_subgroup : (s : SubGroup) → length (marshal_subgroup s) ≡ subgroup_size s
unfolding marshal_subgroup subgroup_size
length-marshal_subgroup s = omega (
  arith,
  length-append (marshal_header s.header) (marshal_objects s.header s.objects),
  length-marshal_header s.header,
  length-marshal_objects s.header s.objects,
)
