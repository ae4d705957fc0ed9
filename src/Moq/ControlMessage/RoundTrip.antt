-- ===== src/Moq/ControlMessage/RoundTrip.antt =====
-- internal/protocols/moq/controlmessage: what `Marshal` writes, read again.
use ppmmx.Base.{
  subst, ℕ, ◌+◌, ◌*◌, ◌/◌, ◌%◌, ◌^◌, ◌≤◌, ◌<◌, ◌≡◌, refl, ap, ◌∙◌, List, [], ◌∷◌, ◌++◌, length, All,
  append_assoc, append-nil, arith,
}
use ppmmx.Moq.{ok, not_enough_bytes, not_enough_for_track_name, IsU64}
use ppmmx.Moq.Varint.{marshal, low_bytes}
use ppmmx.Moq.Subgroup.{decoded}
use ppmmx.Moq.Subgroup.Codec.{then_ok}
use ppmmx.Moq.Property.{Property, unmarshal_properties, marshal_properties}
use ppmmx.Moq.Property.Codec.{IsProperty, unmarshal_properties-marshal}
use ppmmx.Moq.Parameter.{Parameter}
use ppmmx.Moq.Parameter.Codec.{IsParameter}
use ppmmx.Moq.ControlMessage.{
  Message, setup, subscribe, subscribe_ok, request_error, publish, request_ok, type_of, Subscribe,
  SubscribeOk, RequestError, Publish, RequestOk, cut_string, cut_parameters, unmarshal_subscribe,
  unmarshal_subscribe_ok, unmarshal_request_error, unmarshal_publish, unmarshal_request_ok,
  by_message_type, read_message,
}
use ppmmx.Moq.ControlMessage.Encode.{
  marshal_string, marshal_namespace, marshal_counted, message_payload, payload_size,
  marshal_message,
}
use ppmmx.Moq.ControlMessage.Strings.{
  cut_varint-marshal, cut_string-marshal, cut_namespace-marshal, cut_parameters-marshal,
  length_parts-size,
}
use ppmmx.Moq.ControlMessage.Size.{length-message_payload}
use ppmmx.Moq.ControlMessage.Frame.{type_of-IsU64, read_message-whole}

-- Numbers of type uint64, parameters and properties that their decoders know, and no more parts
-- and parameters than `make` takes and a uint64 counts.
abbrev pub IsMessage : ℕ → Message → Type 0
IsMessage max_parts setup = Unit
IsMessage max_parts (subscribe s) =
    IsU64 s.request_id
    × (length s.namespace ≤ max_parts)
    × IsU64 (length s.parameters)
    × All IsParameter s.parameters
IsMessage max_parts (subscribe_ok s) =
    IsU64 s.track_alias
    × IsU64 (length s.parameters)
    × All IsParameter s.parameters
    × All IsProperty s.track_properties
IsMessage max_parts (request_error e) = IsU64 e.code
IsMessage max_parts (publish p) =
    IsU64 p.request_id
    × (length p.namespace ≤ max_parts)
    × IsU64 p.track_alias
    × IsU64 (length p.parameters)
    × All IsParameter p.parameters
    × All IsProperty p.track_properties
IsMessage max_parts (request_ok o) =
    IsU64 (length o.parameters) × All IsParameter o.parameters × All IsProperty o.track_properties

cut_parameters-last :
    (ps : List Parameter)
    → IsU64 (length ps)
    → All IsParameter ps
    → cut_parameters (marshal_counted ps) ≡ ok (ps, [])
cut_parameters-last ps u k =
    subst (λ bs. cut_parameters bs ≡ ok (ps, [])) (append-nil (marshal_counted ps))
      (cut_parameters-marshal ps [] u k)

decoded-marshal :
    (ps : List Property)
    → All IsProperty ps
    → decoded (unmarshal_properties (marshal_properties ps)) ≡ ok ps
decoded-marshal ps k = ap decoded (unmarshal_properties-marshal ps k)

unmarshal_subscribe-marshal :
    (max_parts : ℕ) (s : Subscribe)
    → IsMessage max_parts (subscribe s)
    → payload_size (subscribe s) < 2 ^ 16
    → unmarshal_subscribe max_parts (message_payload (subscribe s)) ≡ ok (subscribe s)
unfolding unmarshal_subscribe message_payload payload_size
unmarshal_subscribe-marshal max_parts s (id, parts, count, ps) h =
    let params : List ℕ = marshal_counted s.parameters in
    let name : List ℕ = marshal_string s.track_name ++ params in
    let few = length_parts-size s.namespace in
    then_ok _ (cut_varint-marshal s.request_id (marshal_namespace s.namespace ++ name) id) (
      then_ok _ (cut_namespace-marshal max_parts s.namespace name (omega arith) parts (omega arith))
        (then_ok _ (cut_string-marshal not_enough_for_track_name s.track_name params (omega arith))
          (then_ok _ (cut_parameters-last s.parameters count ps) refl)))

unmarshal_subscribe_ok-marshal :
    (s : SubscribeOk)
    → IsMessage 0 (subscribe_ok s)
    → unmarshal_subscribe_ok (message_payload (subscribe_ok s)) ≡ ok (subscribe_ok s)
unfolding unmarshal_subscribe_ok message_payload
unmarshal_subscribe_ok-marshal s (alias, count, ps, stamps) =
    let properties : List ℕ = marshal_properties s.track_properties in
    then_ok _ (cut_varint-marshal s.track_alias (marshal_counted s.parameters ++ properties) alias)
      (then_ok _ (cut_parameters-marshal s.parameters properties count ps)
        (then_ok _ (decoded-marshal s.track_properties stamps) refl))

unmarshal_request_error-marshal :
    (e : RequestError)
    → IsU64 e.code
    → payload_size (request_error e) < 2 ^ 16
    → unmarshal_request_error (message_payload (request_error e)) ≡ ok (request_error e)
unfolding unmarshal_request_error message_payload payload_size marshal low_bytes
unmarshal_request_error-marshal e code h =
    let reason : List ℕ = marshal_string e.reason in
    then_ok _ (cut_varint-marshal e.code (0x00 ∷ reason) code) (
      then_ok _ (cut_varint-marshal 0 reason (omega arith))
        (then_ok _ (cut_reason e.reason (omega arith)) refl))
  where
    cut_reason :
        (s : List ℕ)
        → length s < 2 ^ 63
        → cut_string not_enough_bytes (marshal_string s) ≡ ok (s, [])
    cut_reason s k =
        subst (λ bs. cut_string not_enough_bytes bs ≡ ok (s, [])) (append-nil (marshal_string s))
          (cut_string-marshal not_enough_bytes s [] k)

unmarshal_publish-marshal :
    (max_parts : ℕ) (p : Publish)
    → IsMessage max_parts (publish p)
    → payload_size (publish p) < 2 ^ 16
    → unmarshal_publish max_parts (message_payload (publish p)) ≡ ok (publish p)
unfolding unmarshal_publish message_payload payload_size
unmarshal_publish-marshal max_parts p (id, parts, alias, count, ps, stamps) h =
    let properties : List ℕ = marshal_properties p.track_properties in
    let params : List ℕ = marshal_counted p.parameters ++ properties in
    let after_name : List ℕ = marshal p.track_alias ++ params in
    let name : List ℕ = marshal_string p.track_name ++ after_name in
    let few = length_parts-size p.namespace in
    then_ok _ (cut_varint-marshal p.request_id (marshal_namespace p.namespace ++ name) id) (
      then_ok _ (cut_namespace-marshal max_parts p.namespace name (omega arith) parts (omega arith))
        (then_ok _
          (cut_string-marshal not_enough_for_track_name p.track_name after_name (omega arith))
          (then_ok _ (cut_varint-marshal p.track_alias params alias) (
            then_ok _ (cut_parameters-marshal p.parameters properties count ps)
              (then_ok _ (decoded-marshal p.track_properties stamps) refl)))))

unmarshal_request_ok-marshal :
    (o : RequestOk)
    → IsMessage 0 (request_ok o)
    → unmarshal_request_ok (message_payload (request_ok o)) ≡ ok (request_ok o)
unfolding unmarshal_request_ok message_payload
unmarshal_request_ok-marshal o (count, ps, stamps) =
    then_ok _ (cut_parameters-marshal o.parameters (marshal_properties o.track_properties) count ps)
      (then_ok _ (decoded-marshal o.track_properties stamps) refl)

by_message_type-marshal :
    (max_parts : ℕ) (m : Message)
    → IsMessage max_parts m
    → payload_size m < 2 ^ 16
    → by_message_type max_parts (type_of m) (message_payload m) ≡ ok m
unfolding by_message_type
by_message_type-marshal max_parts setup k h = refl
by_message_type-marshal max_parts (subscribe s) k h = unmarshal_subscribe-marshal max_parts s k h
by_message_type-marshal max_parts (subscribe_ok s) k h = unmarshal_subscribe_ok-marshal s k
by_message_type-marshal max_parts (request_error e) k h = unmarshal_request_error-marshal e k h
by_message_type-marshal max_parts (publish p) k h = unmarshal_publish-marshal max_parts p k h
by_message_type-marshal max_parts (request_ok o) k h = unmarshal_request_ok-marshal o k

-- For each of the six messages with numbers, parameters and properties that fit their types, no more
-- parts of a namespace than `make` takes, and a payload below 2 ^ 16 bytes: `Read` on what `Marshal`
-- wrote, whatever follows it, gives the message back and leaves the reader behind it.
pub read_message-marshal :
    (max_parts : ℕ) (m : Message) (rest : List ℕ)
    → IsMessage max_parts m
    → payload_size m < 2 ^ 16
    → read_message max_parts (marshal_message m ++ rest) ≡ ok (m, rest)
unfolding marshal_message
read_message-marshal max_parts m rest k h =
    let n : ℕ = payload_size m in
    let a : ℕ = (n / 256) % 256 in
    let b : ℕ = n % 256 in
    let payload : List ℕ = message_payload m in
    let size : (a * 256 + b ≡ length payload) = omega (arith, length-message_payload m) in
    rw (append_assoc (marshal (type_of m)) (a ∷ b ∷ payload) rest) (
      read_message-whole max_parts (type_of m) a b payload rest (type_of-IsU64 m) size
      ∙ then_ok _ (by_message_type-marshal max_parts m k h) refl)
