-- ===== src/Moq/ControlMessage/Frame.antt =====
-- internal/protocols/moq/controlmessage: what `Read` does with the type and the size of a message.
use ppmmx.Base.{
  ℕ, ◌+◌, ◌*◌, ◌≤◌, ◌≡◌, refl, ap, ◌∙◌, List, ◌∷◌, ◌++◌, length, take, drop, length-append,
  take-append, drop-append, arith,
}
use ppmmx.Moq.{ok, ◌>>=◌, IsU64, read_full}
use ppmmx.Moq.Varint.{marshal}
use ppmmx.Moq.Subgroup.Codec.{then_ok, read-marshal}
use ppmmx.Moq.ControlMessage.{
  Message, setup, subscribe, subscribe_ok, request_error, publish, request_ok, type_of,
  by_message_type, read_message,
}

pub type_of-IsU64 : (m : Message) → IsU64 (type_of m)
type_of-IsU64 setup = omega arith
type_of-IsU64 (subscribe s) = omega arith
type_of-IsU64 (subscribe_ok s) = omega arith
type_of-IsU64 (request_error e) = omega arith
type_of-IsU64 (publish p) = omega arith
type_of-IsU64 (request_ok o) = omega arith

read_full-enough :
    (n : ℕ) (bytes : List ℕ)
    → n ≤ length bytes
    → read_full n bytes ≡ ok (take n bytes, drop n bytes)
unfolding read_full
read_full-enough n bytes h = ground arith

-- `Read` takes as many bytes for the payload as the two bytes after the type say.
pub read_message-framed :
    (max_parts t a b : ℕ) (bytes : List ℕ)
    → IsU64 t
    → a * 256 + b ≤ length bytes
    → read_message max_parts (marshal t ++ (a ∷ b ∷ bytes)) ≡ (
        by_message_type max_parts t (take (a * 256 + b) bytes) >>= λ (m : Message).
        ok (m, drop (a * 256 + b) bytes))
unfolding read_message
read_message-framed max_parts t a b bytes u h = then_ok _ (read-marshal t (a ∷ b ∷ bytes) u) (
    then_ok _ (read_full-enough 2 (a ∷ b ∷ bytes) (omega arith))
      (then_ok _ (read_full-enough (a * 256 + b) bytes h) refl))

-- The same, for a payload of the size that is announced.
pub read_message-whole :
    (max_parts t a b : ℕ) (payload rest : List ℕ)
    → IsU64 t
    → a * 256 + b ≡ length payload
    → read_message max_parts (marshal t ++ (a ∷ b ∷ payload ++ rest))
      ≡ (by_message_type max_parts t payload >>= λ (m : Message). ok (m, rest))
read_message-whole max_parts t a b payload rest u e =
    read_message-framed max_parts t a b (payload ++ rest) u
      (omega (arith, length-append payload rest))
    ∙ ap
        (λ (bs : List ℕ). by_message_type max_parts t bs >>= λ (m : Message).
          ok (m, drop (a * 256 + b) (payload ++ rest)))
        (ap (λ (n : ℕ). take n (payload ++ rest)) e ∙ take-append payload rest)
    ∙ ap (λ (bs : List ℕ). by_message_type max_parts t payload >>= λ (m : Message). ok (m, bs))
        (ap (λ (n : ℕ). drop n (payload ++ rest)) e ∙ drop-append payload rest)
