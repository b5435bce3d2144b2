-- ===== src/Codec/FixedHeader.antt =====
-- internal/codec/fixed_header.go, reader.go and ping.go: the fixed header of every packet, and
-- reading one whole packet from a stream. A reader is the list of bytes that are still to come,
-- after which the stream ends.
pub mod RoundTrip
pub mod Bounds
use dmqtt.Base.{
  ℕ, zero, suc, ◌+◌, ◌*◌, ◌/◌, ◌%◌, ◌<◌, bit_and, bit_or, Bytes, [], ◌∷◌, ◌++◌, length, take, drop,
  ltb, nat_beq, not, if◌then◌else◌, Bool, arith,
}
use dmqtt.Base.Order.{lt_wf}
use mathlib.Core.WellFounded.{Acc}
use mathlib.Core.Logic.{dite}
use native.Mathlib.Decide.{dec_lt}
use dmqtt.Codec.{
  Result, ok, err, eof, unexpected_eof, malformed, remaining_length_exceeds_4_bytes, ◌>>=◌,
}

pub record FixedHeader : Type 0 where
  pub packet_type : ℕ
  pub dup : Bool
  pub qos : ℕ
  pub retain : Bool
  pub remaining_length : ℕ

quotient_shrinks : (n : ℕ) → 0 < n / 128 → n / 128 < n
quotient_shrinks n h = omega arith

-- The bytes that the loop appends for `length`; it goes on while the quotient is not 0.
pub encode_loop : (n : ℕ) → Acc ◌<◌ n → Bytes
encode_loop n (Acc.intro _ smaller) =
    dite (dec_lt 0 (n / 128))
      (λ more. bit_or (n % 128) 0x80 ∷ encode_loop (n / 128) (smaller _ (quotient_shrinks n more)))
      (λ _. n % 128 ∷ [])

unfoldable pub encode_remaining_length : ℕ → Bytes
unfolding encode_loop quotient_shrinks lt_wf dec_lt
encode_remaining_length n = encode_loop n (lt_wf.apply n)

-- `rounds` counts down from 4, as `i` counts up.
unfoldable pub decode_loop : ℕ → Bytes → ℕ → ℕ → Result (ℕ × Bytes)
decode_loop zero r multiplier value = err (malformed remaining_length_exceeds_4_bytes)
decode_loop (suc rounds) [] multiplier value = err eof
decode_loop (suc rounds) (b ∷ r) multiplier value =
    let value' = value + bit_and b 0x7f * multiplier in
    let rest = decode_loop rounds r (multiplier * 128) value' in
    if nat_beq (bit_and b 0x80) 0 then ok (value', r) else rest

unfoldable pub decode_remaining_length : Bytes → Result (ℕ × Bytes)
unfolding decode_loop
decode_remaining_length r = decode_loop 4 r 1 0

-- A byte holds eight bits: `PacketType << 4` drops the others.
unfoldable pub first_byte : FixedHeader → ℕ
first_byte fh =
    let b0 = fh.packet_type * 16 % 256 in
    let b1 = if fh.dup then bit_or b0 0x08 else b0 in
    let b2 = bit_or b1 (bit_and fh.qos 0x03 * 2) in if fh.retain then bit_or b2 0x01 else b2

unfoldable pub encode : FixedHeader → Bytes
encode fh = first_byte fh ∷ encode_remaining_length fh.remaining_length

unfoldable pub decode_fixed_header : Bytes → Result (FixedHeader × Bytes)
decode_fixed_header [] = err eof
decode_fixed_header (b ∷ r) = do
  (remaining, r') ← decode_remaining_length r
  ok (
    record {
      packet_type = bit_and (b / 16) 0x0f;
      dup = not (nat_beq (bit_and b 0x08) 0);
      qos = bit_and (b / 2) 0x03;
      retain = not (nat_beq (bit_and b 0x01) 0);
      remaining_length = remaining;
    },
    r',
  )

-- `io.ReadFull` of `n` bytes.
unfoldable pub read_full : ℕ → Bytes → Result (Bytes × Bytes)
read_full n r =
    if ltb (length r) n
    then (if nat_beq (length r) 0 then err eof else err unexpected_eof)
    else ok (take n r, drop n r)

-- The branch of `ReadPacket` on the announced length; with 0 it reads nothing.
unfoldable pub read_payload : ℕ → Bytes → Result (Bytes × Bytes)
read_payload n r = if ltb 0 n then read_full n r else ok ([], r)

unfoldable pub read_packet : Bytes → Result (FixedHeader × Bytes × Bytes)
read_packet r = do
  (fh, r') ← decode_fixed_header r
  (payload, rest) ← read_payload fh.remaining_length r'
  ok (fh, payload, rest)

unfoldable pub encode_pingresp : Bytes
encode_pingresp = 13 * 16 % 256 ∷ 0x00 ∷ []
