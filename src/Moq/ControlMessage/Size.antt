-- ===== src/Moq/ControlMessage/Size.antt =====
-- internal/protocols/moq/controlmessage: the encoders write as many bytes as `marshalSize` sums up.
use ppmmx.Base.{ℕ, ◌+◌, ◌≡◌, refl, List, ◌∷◌, ◌++◌, length, length-append, arith}
use ppmmx.Moq.Varint.{marshal, marshal_size}
use ppmmx.Moq.Varint.Codec.{length-marshal}
use ppmmx.Moq.Property.{marshal_properties}
use ppmmx.Moq.Property.Codec.{length-marshal_properties}
use ppmmx.Moq.Parameter.{Parameter, marshal_parameters, parameters_size}
use ppmmx.Moq.Parameter.Codec.{length-marshal_after}
use ppmmx.Moq.ControlMessage.{
  Message, setup, subscribe, subscribe_ok, request_error, publish, request_ok,
}
use ppmmx.Moq.ControlMessage.Encode.{
  marshal_string, marshal_namespace, marshal_parts, marshal_counted, message_payload, payload_size,
  parts_size,
}
use ppmmx.Moq.ControlMessage.Strings.{length-marshal_parts}

length-marshal_counted :
    (ps : List Parameter)
    → length (marshal_counted ps) ≡ marshal_size (length ps) + parameters_size ps
length-marshal_counted ps = omega (
  arith,
  length-append (marshal (length ps)) (marshal_parameters ps),
  length-marshal (length ps),
  length-marshal_after ps 0,
)

length-marshal_namespace :
    (parts : List (List ℕ))
    → length (marshal_namespace parts) ≡ marshal_size (length parts) + parts_size parts
length-marshal_namespace parts = omega (
  arith,
  length-append (marshal (length parts)) (marshal_parts parts),
  length-marshal (length parts),
  length-marshal_parts parts,
)

length-counted_string :
    (s : List ℕ) → length (marshal_string s) ≡ marshal_size (length s) + length s
length-counted_string s =
    omega (arith, length-append (marshal (length s)) s, length-marshal (length s))

pub length-message_payload : (m : Message) → length (message_payload m) ≡ payload_size m
unfolding message_payload payload_size
length-message_payload setup = refl
length-message_payload (subscribe s) = omega (
  arith,
  length-append (marshal s.request_id) (
      marshal_namespace s.namespace
      ++ (marshal_string s.track_name ++ marshal_counted s.parameters)),
  length-append (marshal_namespace s.namespace)
      (marshal_string s.track_name ++ marshal_counted s.parameters),
  length-append (marshal_string s.track_name) (marshal_counted s.parameters),
  length-marshal s.request_id,
  length-marshal_namespace s.namespace,
  length-counted_string s.track_name,
  length-marshal_counted s.parameters,
)
length-message_payload (subscribe_ok s) = omega (
  arith,
  length-append (marshal s.track_alias)
      (marshal_counted s.parameters ++ marshal_properties s.track_properties),
  length-append (marshal_counted s.parameters) (marshal_properties s.track_properties),
  length-marshal s.track_alias,
  length-marshal_counted s.parameters,
  length-marshal_properties s.track_properties,
)
length-message_payload (request_error e) = omega (
  arith,
  length-append (marshal e.code) (0x00 ∷ marshal_string e.reason),
  length-marshal e.code,
  length-counted_string e.reason,
)
length-message_payload (publish p) =
    let properties : List ℕ = marshal_properties p.track_properties in
    let params : List ℕ = marshal_counted p.parameters ++ properties in
    let alias : List ℕ = marshal p.track_alias ++ params in
    let name : List ℕ = marshal_string p.track_name ++ alias in
    omega (
      arith,
      length-append (marshal p.request_id) (marshal_namespace p.namespace ++ name),
      length-append (marshal_namespace p.namespace) name,
      length-append (marshal_string p.track_name) alias,
      length-append (marshal p.track_alias) params,
      length-append (marshal_counted p.parameters) properties,
      length-marshal p.request_id,
      length-marshal_namespace p.namespace,
      length-counted_string p.track_name,
      length-marshal p.track_alias,
      length-marshal_counted p.parameters,
      length-marshal_properties p.track_properties,
    )
length-message_payload (request_ok o) = omega (
  arith,
  length-append (marshal_counted o.parameters) (marshal_properties o.track_properties),
  length-marshal_counted o.parameters,
  length-marshal_properties o.track_properties,
)
