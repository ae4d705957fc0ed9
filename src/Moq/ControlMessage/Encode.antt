-- ===== src/Moq/ControlMessage/Encode.antt =====
-- internal/protocols/moq/controlmessage: the encoders of the messages, the bytes that each `marshalTo`
-- writes at the front of its buffer, and the sizes that the code sums up for them.
use ppmmx.Base.{ℕ, ◌+◌, ◌/◌, ◌%◌, List, [], ◌∷◌, ◌++◌, length}
use ppmmx.Moq.Varint.{marshal, marshal_size}
use ppmmx.Moq.Property.{marshal_properties, properties_size}
use ppmmx.Moq.Parameter.{Parameter, marshal_parameters, parameters_size}
use ppmmx.Moq.ControlMessage.{
  Message, Subscribe, SubscribeOk, RequestError, Publish, RequestOk, setup, subscribe, subscribe_ok,
  request_error, publish, request_ok, type_of,
}

abbrev pub marshal_string : List ℕ → List ℕ
marshal_string s = marshal (length s) ++ s

unfoldable pub marshal_parts : List (List ℕ) → List ℕ
marshal_parts [] = []
marshal_parts (part ∷ parts) = marshal_string part ++ marshal_parts parts

abbrev pub marshal_namespace : List (List ℕ) → List ℕ
marshal_namespace parts = marshal (length parts) ++ marshal_parts parts

abbrev pub marshal_counted : List Parameter → List ℕ
marshal_counted ps = marshal (length ps) ++ marshal_parameters ps

abbrev pub subscribe_payload : Subscribe → List ℕ
subscribe_payload s =
    marshal s.request_id
    ++ (marshal_namespace s.namespace
        ++ (marshal_string s.track_name ++ marshal_counted s.parameters))

abbrev pub subscribe_ok_payload : SubscribeOk → List ℕ
subscribe_ok_payload s =
    marshal s.track_alias ++ (marshal_counted s.parameters ++ marshal_properties s.track_properties)

abbrev pub request_error_payload : RequestError → List ℕ
request_error_payload e = marshal e.code ++ (0x00 ∷ marshal_string e.reason)

abbrev pub publish_payload : Publish → List ℕ
publish_payload p =
    marshal p.request_id
    ++ (marshal_namespace p.namespace
        ++ (marshal_string p.track_name
            ++ (marshal p.track_alias
                ++ (marshal_counted p.parameters ++ marshal_properties p.track_properties))))

abbrev pub request_ok_payload : RequestOk → List ℕ
request_ok_payload o = marshal_counted o.parameters ++ marshal_properties o.track_properties

-- The payload that `marshalTo` writes.
unfoldable pub message_payload : Message → List ℕ
message_payload setup = []
message_payload (subscribe s) = subscribe_payload s
message_payload (subscribe_ok s) = subscribe_ok_payload s
message_payload (request_error e) = request_error_payload e
message_payload (publish p) = publish_payload p
message_payload (request_ok o) = request_ok_payload o

abbrev pub string_size : List ℕ → ℕ
string_size s = marshal_size (length s) + length s

unfoldable pub parts_size : List (List ℕ) → ℕ
parts_size [] = 0
parts_size (part ∷ parts) = string_size part + parts_size parts

abbrev pub namespace_size : List (List ℕ) → ℕ
namespace_size parts = marshal_size (length parts) + parts_size parts

abbrev pub counted_size : List Parameter → ℕ
counted_size ps = marshal_size (length ps) + parameters_size ps

abbrev pub subscribe_payload_size : Subscribe → ℕ
subscribe_payload_size s =
    marshal_size s.request_id
    + namespace_size s.namespace
    + string_size s.track_name
    + counted_size s.parameters

abbrev pub subscribe_ok_payload_size : SubscribeOk → ℕ
subscribe_ok_payload_size s =
    marshal_size s.track_alias + counted_size s.parameters + properties_size s.track_properties

abbrev pub request_error_payload_size : RequestError → ℕ
request_error_payload_size e = marshal_size e.code + 1 + string_size e.reason

abbrev pub publish_payload_size : Publish → ℕ
publish_payload_size p =
    marshal_size p.request_id
    + namespace_size p.namespace
    + string_size p.track_name
    + marshal_size p.track_alias
    + counted_size p.parameters
    + properties_size p.track_properties

abbrev pub request_ok_payload_size : RequestOk → ℕ
request_ok_payload_size o = counted_size o.parameters + properties_size o.track_properties

-- payloadSize
unfoldable pub payload_size : Message → ℕ
payload_size setup = 0
payload_size (subscribe s) = subscribe_payload_size s
payload_size (subscribe_ok s) = subscribe_ok_payload_size s
payload_size (request_error e) = request_error_payload_size e
payload_size (publish p) = publish_payload_size p
payload_size (request_ok o) = request_ok_payload_size o

-- The type, the two bytes of the size, and the payload.
abbrev pub framed : ℕ → ℕ → List ℕ → List ℕ
framed t size payload = marshal t ++ ((size / 256) % 256 ∷ size % 256 ∷ payload)

-- `Marshal`
unfoldable pub marshal_message : Message → List ℕ
marshal_message m = framed (type_of m) (payload_size m) (message_payload m)

-- `marshalSize`, the length of the buffer of `Marshal`
abbrev pub message_size : Message → ℕ
message_size m = marshal_size (type_of m) + 2 + payload_size m
