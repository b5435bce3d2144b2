-- ===== src/Codec/Values.antt =====
-- internal/codec/connect.go and properties.go: reading values at an offset of a packet. A result is the
-- value and how many bytes it takes.
pub mod Within
pub mod Written
use dmqtt.Base.{
  ℕ, zero, suc, ◌+◌, ◌*◌, ◌/◌, ◌%◌, Bytes, List, [], ◌∷◌, ◌++◌, length, ltb, leb, nat_beq,
  if◌then◌else◌, Bool, ◌||◌, bit_and,
}
use dmqtt.Codec.{
  Reason, Error, malformed, Result, panic, err, ok, ◌>>=◌, index, slice, uint16, uint32,
  truncated_var_int, var_int_exceeds_4_bytes, truncated_byte, truncated_uint16, truncated_uint32,
}
use dmqtt.Codec.FixedHeader.{encode_remaining_length}

-- `binary.BigEndian.Uint16(data[offset : offset+2])`, and the same for 32 bits.
unfoldable pub uint16_at : Bytes → ℕ → Result ℕ
uint16_at bytes offset = slice bytes offset (offset + 2) >>= uint16

unfoldable pub uint32_at : Bytes → ℕ → Result ℕ
uint32_at bytes offset = slice bytes offset (offset + 4) >>= uint32

-- The bytes behind a length of two bytes.
unfoldable pub counted : Bytes → ℕ → ℕ → Result (Bytes × ℕ)
counted bytes offset count = do s ← slice bytes (offset + 2) (offset + 2 + count); ok (s, 2 + count)

-- `readUTF8String` and `readBinaryData`, which differ in their reasons.
unfoldable pub read_block : Reason → Reason → Bytes → ℕ → Result (Bytes × ℕ)
read_block no_length no_data bytes offset =
    if ltb (length bytes) (offset + 2)
    then err (malformed no_length)
    else uint16_at bytes offset >>= (λ count.
      if ltb (length bytes) (offset + 2 + count)
      then err (malformed no_data)
      else counted bytes offset count)

-- `readPropString` and `readPropBinaryData`.
unfoldable pub read_prop_block : Reason → Reason → Bytes → ℕ → ℕ → Result (Bytes × ℕ)
read_prop_block no_length no_data bytes offset end =
    if ltb end (offset + 2) || ltb (length bytes) (offset + 2)
    then err (malformed no_length)
    else uint16_at bytes offset >>= (λ count.
      if ltb end (offset + 2 + count) || ltb (length bytes) (offset + 2 + count)
      then err (malformed no_data)
      else counted bytes offset count)

unfoldable pub read_byte : Bytes → ℕ → ℕ → Result (ℕ × ℕ)
read_byte bytes offset end =
    if leb end offset || leb (length bytes) offset
    then err (malformed truncated_byte)
    else index bytes offset >>= (λ b. ok (b, 1))

unfoldable pub read_uint16 : Bytes → ℕ → ℕ → Result (ℕ × ℕ)
read_uint16 bytes offset end =
    if ltb end (offset + 2) || ltb (length bytes) (offset + 2)
    then err (malformed truncated_uint16)
    else uint16_at bytes offset >>= (λ v. ok (v, 2))

unfoldable pub read_uint32 : Bytes → ℕ → ℕ → Result (ℕ × ℕ)
read_uint32 bytes offset end =
    if ltb end (offset + 4) || ltb (length bytes) (offset + 4)
    then err (malformed truncated_uint32)
    else uint32_at bytes offset >>= (λ v. ok (v, 4))

-- The loop of `decodeVarInt`: `rounds` counts down from 4 as `i` counts up.
unfoldable pub var_int_loop : ℕ → Bytes → ℕ → ℕ → ℕ → ℕ → Result (ℕ × ℕ)
var_int_loop zero bytes offset i multiplier value = err (malformed var_int_exceeds_4_bytes)
var_int_loop (suc rounds) bytes offset i multiplier value =
    if leb (length bytes) (offset + i)
    then err (malformed truncated_var_int)
    else index bytes (offset + i) >>= (λ b.
      if nat_beq (bit_and b 0x80) 0
      then ok (value + bit_and b 0x7f * multiplier, i + 1)
      else var_int_loop rounds bytes offset (i + 1) (multiplier * 128)
          (value + bit_and b 0x7f * multiplier))

unfoldable pub decode_var_int : Bytes → ℕ → Result (ℕ × ℕ)
decode_var_int bytes offset = var_int_loop 4 bytes offset 0 1 0

-- `encodeVarInt` is the same loop as that of `EncodeRemainingLength`.
unfoldable pub encode_var_int : ℕ → Bytes
encode_var_int n = encode_remaining_length n

-- `byte(n >> 8), byte(n)`, and `PutUint32`.
unfoldable pub put_uint16 : ℕ → Bytes
put_uint16 n = n / 256 % 256 ∷ n % 256 ∷ []

unfoldable pub put_uint32 : ℕ → Bytes
put_uint32 n = n / 16777216 % 256 ∷ n / 65536 % 256 ∷ n / 256 % 256 ∷ n % 256 ∷ []

-- `appendUTF8`, and the same for binary data.
unfoldable pub append_block : Bytes → Bytes
append_block s = put_uint16 (length s) ++ s
