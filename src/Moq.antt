-- ===== src/Moq.antt =====
-- internal/protocols/moq: the codecs of Media over QUIC. A byte slice or a reader is the list of
-- the bytes that are left, each a number below 256. A Go function that returns (value, error) is
-- one that returns a `Result`, with a case of its own for a run-time panic.
pub mod Varint
pub mod Property
pub mod Subgroup
pub mod Reorderer
pub mod Parameter
pub mod ControlMessage
use Prim.Native.Nat.{ℕ, ◌<◌, ◌≤◌, ◌+◌, ◌-◌, ◌^◌}
use mathlib.Core.Path.{◌≡◌, refl}
use mathlib.Core.List.{List}
use ppmmx.Base.Tests.{ltb, leb, if◌then◌else◌}
use ppmmx.Base.Lists.{length, take, drop}
use ppmmx.Base.Int.{ℤ, pos, negsuc}

-- The errors, by their messages; `io_eof` and `io_unexpected_eof` are those of package io, and
-- `out_of_fuel` is no error of the code.
pub data Error : Type 0 where
  io_eof io_unexpected_eof : Error
  out_of_fuel : Error
  not_enough_bytes not_enough_for_property : Error
  unsupported_prefix : ℕ → Error
  unexpected_status : ℕ → Error
  payload_too_large : ℕ → Error
  unexpected_second_object : Error
  not_enough_for_parameter : Error
  unsupported_parameter_type unsupported_token_alias_type : ℕ → Error
  in_authorization_token : Error → Error
  not_enough_for_namespace not_enough_for_track_name : Error
  unknown_message_type : ℕ → Error

pub data Result {ℓ} (A : Type ℓ) : Type ℓ where
  ok : A → Result A
  err : Error → Result A
  panic : Result A

infixl 5 ◌>>=◌
abbrev pub ◌>>=◌ {ℓ κ} : {A : Type ℓ} {B : Type κ} → Result A → (A → Result B) → Result B
ok a >>= f = f a
err e >>= f = err e
panic >>= f = panic

abbrev pub IsByte : ℕ → Type 0
IsByte b = b < 256

abbrev pub IsU64 : ℕ → Type 0
IsU64 v = v < 2 ^ 64

-- int(v) of a uint64
abbrev pub int_of : ℕ → ℤ
int_of v = if ltb v (2 ^ 63) then pos v else negsuc (2 ^ 64 - v - 1)

-- buf[from:], which panics out of range
unfoldable pub slice_from : List ℕ → ℤ → Result (List ℕ)
slice_from buf (pos from) = if leb from (length buf) then ok (drop from buf) else panic
slice_from buf (negsuc k) = panic

-- io.ReadFull into `size` bytes: the bytes and what is left
unfoldable pub read_full : ℕ → List ℕ → Result (List ℕ × List ℕ)
read_full size r =
    if leb size (length r)
    then ok (take size r, drop size r)
    else if ltb 0 (length r)
    then err io_unexpected_eof
    else err io_eof
