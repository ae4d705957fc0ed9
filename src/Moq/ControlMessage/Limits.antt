-- ===== src/Moq/ControlMessage/Limits.antt =====
-- internal/protocols/moq/controlmessage: messages that are too large, at the writer and at the reader.
use ppmmx.Base.{
  ℕ, ◌+◌, ◌*◌, ◌/◌, ◌%◌, ◌^◌, ◌≤◌, ◌<◌, ◌≡◌, ◌⊎◌, inl, inr, ap, sym, ◌∙◌, List, ◌∷◌, ◌++◌, leb,
  if◌then◌else◌, length, append_assoc, length-append, length-drop, arith,
}
use ppmmx.Moq.{Result, ok, err, panic, ◌>>=◌, IsU64}
use ppmmx.Moq.Varint.{marshal}
use ppmmx.Moq.Subgroup.Codec.{then_ok}
use ppmmx.Moq.ControlMessage.{
  Message, type_of, cut_namespace, cut_parts, unmarshal_subscribe, unmarshal_publish,
  by_message_type, read_message,
}
use ppmmx.Moq.ControlMessage.Encode.{message_payload, payload_size, marshal_message, framed}
use ppmmx.Moq.ControlMessage.Strings.{cut_varint-marshal}
use ppmmx.Moq.ControlMessage.Size.{length-message_payload}
use ppmmx.Moq.ControlMessage.Frame.{type_of-IsU64, read_message-framed, read_message-whole}

abbrev with_left : List ℕ → Message → Result (Message × List ℕ)
with_left left m = ok (m, left)

left_of :
    (x : Result Message) (m : Message) (left left' : List ℕ)
    → (x >>= with_left left) ≡ ok (m, left')
    → left ≡ left'
left_of (ok m') m left left' e = grind arith
left_of (err e') m left left' e = grind arith
left_of panic m left left' e = grind arith

then_panic {ℓ κ} :
    {A : Type ℓ} {B : Type κ} {x : Result A} (f : A → Result B) → x ≡ panic → (x >>= f) ≡ panic
then_panic f e = ap (λ r. r >>= f) e

-- A message whose payload has 2 ^ 16 bytes or more is not read back from what `Marshal` wrote,
-- whatever follows it: its size is written modulo 2 ^ 16.
pub read_message-long :
    (max_parts : ℕ) (m : Message) (rest : List ℕ)
    → 2 ^ 16 ≤ payload_size m
    → ¬ (read_message max_parts (marshal_message m ++ rest) ≡ ok (m, rest))
unfolding marshal_message
read_message-long max_parts m rest h e =
    let n : ℕ = payload_size m in
    let a : ℕ = (n / 256) % 256 in
    let b : ℕ = n % 256 in
    let bytes : List ℕ = message_payload m ++ rest in
    let all_bytes = length-append (message_payload m) rest in
    let payload = length-message_payload m in
    let framed_read =
      read_message-framed max_parts (type_of m) a b bytes (type_of-IsU64 m) (omega arith) in
    let left = left_of _ m _ rest (
      sym framed_read
      ∙ ap (read_message max_parts)
          (sym (append_assoc (marshal (type_of m)) (a ∷ b ∷ message_payload m) rest))
      ∙ e) in
    omega (arith, length-drop (a * 256 + b) bytes, ap length left)

cut_namespace-panics :
    (max_parts count : ℕ) (bytes : List ℕ)
    → IsU64 count
    → max_parts < count
    → cut_namespace max_parts (marshal count ++ bytes) ≡ panic
unfolding cut_namespace
cut_namespace-panics max_parts count bytes u h =
    then_ok _ (cut_varint-marshal count bytes u) (too_many count (cut_parts count bytes) h)
  where
    too_many :
        (n : ℕ) (x : Result (List (List ℕ) × List ℕ))
        → max_parts < n
        → (if leb n max_parts then x else panic) ≡ panic
    too_many n x k = ground arith

by_message_type-panics :
    (max_parts t id count : ℕ) (bytes : List ℕ)
    → ((t ≡ 0x03) ⊎ (t ≡ 0x1d))
    → IsU64 id
    → IsU64 count
    → max_parts < count
    → by_message_type max_parts t (marshal id ++ (marshal count ++ bytes)) ≡ panic
unfolding by_message_type unmarshal_subscribe unmarshal_publish
by_message_type-panics max_parts t id count bytes (inl e) i u h = rw e (
    then_ok _ (cut_varint-marshal id (marshal count ++ bytes) i)
      (then_panic _ (cut_namespace-panics max_parts count bytes u h)))
by_message_type-panics max_parts t id count bytes (inr e) i u h = rw e (
    then_ok _ (cut_varint-marshal id (marshal count ++ bytes) i)
      (then_panic _ (cut_namespace-panics max_parts count bytes u h)))

-- A SUBSCRIBE or a PUBLISH, with an id of type uint64, that announces more parts of its namespace
-- than `make` takes makes `Read` panic, whatever bytes come after the count.
pub read_message-panic :
    (max_parts t id count : ℕ) (more rest : List ℕ)
    → ((t ≡ 0x03) ⊎ (t ≡ 0x1d))
    → IsU64 id
    → IsU64 count
    → max_parts < count
    → length (marshal id ++ (marshal count ++ more)) < 2 ^ 16
    → read_message max_parts (
        framed t
          (length (marshal id ++ (marshal count ++ more)))
          (marshal id ++ (marshal count ++ more))
        ++ rest)
      ≡ panic
read_message-panic max_parts t id count more rest k i u h small =
    let payload : List ℕ = marshal id ++ (marshal count ++ more) in
    let n : ℕ = length payload in
    let a : ℕ = (n / 256) % 256 in
    let b : ℕ = n % 256 in
    rw (append_assoc (marshal t) (a ∷ b ∷ payload) rest) (
      read_message-whole max_parts t a b payload rest (is_small t k) (omega arith)
      ∙ then_panic _ (by_message_type-panics max_parts t id count more k i u h))
  where
    is_small : (t : ℕ) → ((t ≡ 0x03) ⊎ (t ≡ 0x1d)) → IsU64 t
    is_small t (inl e) = omega arith
    is_small t (inr e) = omega arith
