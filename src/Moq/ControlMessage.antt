-- ===== src/Moq/ControlMessage.antt =====
-- internal/protocols/moq/controlmessage: the control messages. A string is the list of its bytes. A
-- namespace of more parts than memory holds makes `make` panic: `max_parts` is the largest number
-- that it takes, which the Go runtime sets.
pub mod Encode
pub mod Strings
pub mod Size
pub mod RoundTrip
pub mod Frame
pub mod Limits
mod Tests
use ppmmx.Base.{ℕ, zero, suc, ◌+◌, ◌*◌, List, [], ◌∷◌, leb, ◌==◌, if◌then◌else◌, length, take, drop}
use ppmmx.Base.Int.{pos, ltb_ℤ}
use ppmmx.Moq.{
  Result, ok, err, panic, ◌>>=◌, Error, not_enough_bytes, not_enough_for_namespace,
  not_enough_for_track_name, unknown_message_type, int_of, read_full,
}
use ppmmx.Moq.Varint.{read, unmarshal}
use ppmmx.Moq.Property.{Property, unmarshal_properties}
use ppmmx.Moq.Parameter.{Parameter, unmarshal_parameters}
use ppmmx.Moq.Subgroup.{decoded}

pub record Subscribe : Type 0 where
  pub request_id : ℕ
  pub namespace : List (List ℕ)
  pub track_name : List ℕ
  pub parameters : List Parameter

pub record SubscribeOk : Type 0 where
  pub track_alias : ℕ
  pub parameters : List Parameter
  pub track_properties : List Property

pub record RequestError : Type 0 where
  pub code : ℕ
  pub reason : List ℕ

pub record Publish : Type 0 where
  pub request_id : ℕ
  pub namespace : List (List ℕ)
  pub track_name : List ℕ
  pub track_alias : ℕ
  pub parameters : List Parameter
  pub track_properties : List Property

pub record RequestOk : Type 0 where
  pub parameters : List Parameter
  pub track_properties : List Property

pub data Message : Type 0 where
  setup : Message
  subscribe : Subscribe → Message
  subscribe_ok : SubscribeOk → Message
  request_error : RequestError → Message
  publish : Publish → Message
  request_ok : RequestOk → Message

abbrev pub type_of : Message → ℕ
type_of setup = 0x2F00
type_of (subscribe s) = 0x03
type_of (subscribe_ok s) = 0x04
type_of (request_error e) = 0x05
type_of (publish p) = 0x1d
type_of (request_ok o) = 0x07

-- A varint at the front of the buffer, and the buffer after it.
unfoldable pub cut_varint : List ℕ → Result (ℕ × List ℕ)
cut_varint buf = unmarshal buf >>= λ (v : ℕ × ℕ). ok (v.0, drop v.1 buf)

-- buf[:l] and buf[int(l):] of a uint64 `l`, after the test with the error `e`
abbrev pub split_string : Error → ℕ → List ℕ → Result (List ℕ × List ℕ)
split_string e l buf =
    if ltb_ℤ (pos (length buf)) (int_of l)
    then err e
    else if leb l (length buf)
    then ok (take l buf, drop l buf)
    else panic

unfoldable pub cut_string : Error → List ℕ → Result (List ℕ × List ℕ)
cut_string e buf = cut_varint buf >>= λ (l : ℕ × List ℕ). split_string e l.0 l.1

-- The loop over the parts of a namespace.
unfoldable pub cut_parts : ℕ → List ℕ → Result (List (List ℕ) × List ℕ)
cut_parts zero buf = ok ([], buf)
cut_parts (suc n) buf = cut_string not_enough_for_namespace buf >>= λ (part : List ℕ × List ℕ).
    cut_parts n part.1 >>= λ (rest : List (List ℕ) × List ℕ). ok (part.0 ∷ rest.0, rest.1)

unfoldable pub cut_namespace : ℕ → List ℕ → Result (List (List ℕ) × List ℕ)
cut_namespace max_parts buf = cut_varint buf >>= λ (count : ℕ × List ℕ).
    if leb count.0 max_parts then cut_parts count.0 count.1 else panic

unfoldable pub cut_parameters : List ℕ → Result (List Parameter × List ℕ)
cut_parameters buf = cut_varint buf >>= λ (count : ℕ × List ℕ).
    unmarshal_parameters count.0 count.1 >>= λ (ps : List Parameter × ℕ).
    ok (ps.0, drop ps.1 count.1)

unfoldable pub unmarshal_subscribe : ℕ → List ℕ → Result Message
unmarshal_subscribe max_parts buf = cut_varint buf >>= λ (id : ℕ × List ℕ).
    cut_namespace max_parts id.1 >>= λ (namespace : List (List ℕ) × List ℕ).
    cut_string not_enough_for_track_name namespace.1 >>= λ (name : List ℕ × List ℕ).
    cut_parameters name.1 >>= λ (ps : List Parameter × List ℕ). ok (
      subscribe (record {
        request_id = id.0;
        namespace = namespace.0;
        track_name = name.0;
        parameters = ps.0;
      }))

unfoldable pub unmarshal_subscribe_ok : List ℕ → Result Message
unmarshal_subscribe_ok buf = cut_varint buf >>= λ (alias : ℕ × List ℕ).
    cut_parameters alias.1 >>= λ (ps : List Parameter × List ℕ).
    decoded (unmarshal_properties ps.1) >>= λ (properties : List Property). ok (
      subscribe_ok
        (record { track_alias = alias.0; parameters = ps.0; track_properties = properties }))

-- The retry interval is read and dropped.
unfoldable pub unmarshal_request_error : List ℕ → Result Message
unmarshal_request_error buf = cut_varint buf >>= λ (code : ℕ × List ℕ).
    cut_varint code.1 >>= λ (retry : ℕ × List ℕ).
    cut_string not_enough_bytes retry.1 >>= λ (reason : List ℕ × List ℕ).
    ok (request_error (record { code = code.0; reason = reason.0 }))

unfoldable pub unmarshal_publish : ℕ → List ℕ → Result Message
unmarshal_publish max_parts buf = cut_varint buf >>= λ (id : ℕ × List ℕ).
    cut_namespace max_parts id.1 >>= λ (namespace : List (List ℕ) × List ℕ).
    cut_string not_enough_for_track_name namespace.1 >>= λ (name : List ℕ × List ℕ).
    cut_varint name.1 >>= λ (alias : ℕ × List ℕ).
    cut_parameters alias.1 >>= λ (ps : List Parameter × List ℕ).
    decoded (unmarshal_properties ps.1) >>= λ (properties : List Property). ok (
      publish (record {
        request_id = id.0;
        namespace = namespace.0;
        track_name = name.0;
        track_alias = alias.0;
        parameters = ps.0;
        track_properties = properties;
      }))

unfoldable pub unmarshal_request_ok : List ℕ → Result Message
unmarshal_request_ok buf = cut_parameters buf >>= λ (ps : List Parameter × List ℕ).
    decoded (unmarshal_properties ps.1) >>= λ (properties : List Property).
    ok (request_ok (record { parameters = ps.0; track_properties = properties }))

-- The switch of `Read` on the type.
unfoldable pub by_message_type : ℕ → ℕ → List ℕ → Result Message
by_message_type max_parts t payload =
    if t == 0x2F00
    then ok setup
    else if t == 0x03
    then unmarshal_subscribe max_parts payload
    else if t == 0x04
    then unmarshal_subscribe_ok payload
    else if t == 0x05
    then unmarshal_request_error payload
    else if t == 0x1d
    then unmarshal_publish max_parts payload
    else if t == 0x07
    then unmarshal_request_ok payload
    else err (unknown_message_type t)

-- uint16(lenBuf[0])<<8 | uint16(lenBuf[1]), of two bytes
abbrev pub length_of : List ℕ → ℕ
length_of [] = 0
length_of (b ∷ []) = b * 256
length_of (b ∷ c ∷ bs) = b * 256 + c

-- `Read`, with what the reader has left
unfoldable pub read_message : ℕ → List ℕ → Result (Message × List ℕ)
read_message max_parts r = read r >>= λ (t : ℕ × List ℕ).
    read_full 2 t.1 >>= λ (size : List ℕ × List ℕ).
    read_full (length_of size.0) size.1 >>= λ (payload : List ℕ × List ℕ).
    by_message_type max_parts t.0 payload.0 >>= λ (m : Message). ok (m, payload.1)
