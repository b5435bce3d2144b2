-- ===== src/Codec/FixedHeader/Bounds.antt =====
-- The fixed header decoder on any input, well formed or not: fixed_header.go and reader.go.
use dmqtt.Base.{
  ℕ, zero, suc, ◌+◌, ◌*◌, ◌/◌, ◌%◌, ◌^◌, ◌≤◌, ◌<◌, ◌≡◌, refl, [], ◌∷◌, ◌++◌, Bytes, length,
  length-take, length-drop, ltb, bit_and, arith, All, true, ◌&&◌,
}
use dmqtt.Base.Tables.{all_below, all_below_sound, low_bits}
use dmqtt.Base.Order.{lt_wf}
use dmqtt.Codec.{ok, err, malformed, remaining_length_exceeds_4_bytes, >>=-eq-ok}
use dmqtt.Codec.FixedHeader.{
  FixedHeader, encode_loop, encode_remaining_length, decode_loop, decode_remaining_length,
  decode_fixed_header, read_full, read_payload, read_packet,
}
use dmqtt.Codec.FixedHeader.RoundTrip.{inner_round}
use mathlib.Core.WellFounded.{Acc}
use native.Mathlib.Nat.{pow-suc}

abbrev pub IsByte : ℕ → Type 0
IsByte b = b < 256

pow_step : (m k : ℕ) → m * 128 ^ suc k ≡ m * 128 * 128 ^ k
pow_step m k = rw (pow-suc 128 k) (omega arith)

pow_large : (m k : ℕ) → m ≤ m * 128 ^ k
pow_large m zero = omega arith
pow_large m (suc k) = omega (arith, pow_step m k, pow_large (m * 128) k)

-- What `k` rounds can read: below `128 ^ k` multiples of `m`, from one to `k` bytes.
decode_loop_bounds :
    (k m v : ℕ) (r rest : Bytes) (n : ℕ)
    → All IsByte r
    → decode_loop k r m v ≡ ok (n, rest)
    → (n + m ≤ v + m * 128 ^ k) × (length rest < length r) × (length r ≤ length rest + k)
unfolding decode_loop
decode_loop_bounds zero m v r rest n hr e = cc
decode_loop_bounds (suc k) m v [] rest n hr e = cc
decode_loop_bounds (suc k) m v (b ∷ r) rest n (hb, hr) e = ground (
  arith,
  low_bits b hb,
  round,
  pow_step m k,
  pow_large (m * 128) k,
  decode_loop_bounds k (m * 128) (v + bit_and b 0x7f * m) r rest n hr,
)
  where
    round : b % 128 * m + m ≤ m * 128
    round = grind arith

read_payload_bounds :
    (n : ℕ) (r p rest : Bytes)
    → read_payload n r ≡ ok (p, rest)
    → (length p ≡ n) × (length r ≡ length p + length rest)
unfolding read_payload read_full
read_payload_bounds n r p rest e = ground (arith, length-take n r, length-drop n r)

fields_table :
    all_below 256 (λ b. ltb (bit_and (b / 16) 0x0f) 16 && ltb (bit_and (b / 2) 0x03) 4) ≡ true
unfolding all_below
fields_table = refl

fields_bounds : (b : ℕ) → b < 256 → (bit_and (b / 16) 0x0f < 16) × (bit_and (b / 2) 0x03 < 4)
fields_bounds b h = ground (arith, all_below_sound _ 256 b h fields_table)

abbrev pub HeaderFits : FixedHeader → Type 0
HeaderFits fh = (fh.packet_type < 16) × (fh.qos < 4) × (fh.remaining_length < 128 ^ 4)

decode_fixed_header_bounds :
    (r rest : Bytes) (fh : FixedHeader)
    → All IsByte r
    → decode_fixed_header r ≡ ok (fh, rest)
    → HeaderFits fh × (length rest + 2 ≤ length r) × (length r ≤ length rest + 5)
unfolding decode_fixed_header decode_remaining_length
decode_fixed_header_bounds [] rest fh hr e = cc
decode_fixed_header_bounds (b ∷ r) rest fh (hb, hr) e =
    let (p, e1, e2) = >>=-eq-ok (decode_loop 4 r 1 0) _ e in
    ground (arith, e1, e2, fields_bounds b hb, decode_loop_bounds 4 1 0 r p.1 p.0 hr)

-- Whatever bytes arrive, a packet that `ReadPacket` returns has a type and a QoS of their widths, a
-- length within MQTT's limit and a payload of exactly that length; the reader has moved by the
-- payload and a header of two to five bytes.
pub read_packet_bounds :
    (r payload rest : Bytes) (fh : FixedHeader)
    → All IsByte r
    → read_packet r ≡ ok (fh, payload, rest)
    → HeaderFits fh
      × (length payload ≡ fh.remaining_length)
      × (length payload + length rest + 2 ≤ length r)
      × (length r ≤ length payload + length rest + 5)
unfolding read_packet
read_packet_bounds r payload rest fh hr e =
    let (p, e1, e2) = >>=-eq-ok (decode_fixed_header r) _ e in
    let (q, e3, e4) = >>=-eq-ok (read_payload p.0.remaining_length p.1) _ e2 in
    ground (
      arith,
      e4,
      decode_fixed_header_bounds r p.1 p.0 hr e1,
      read_payload_bounds p.0.remaining_length p.1 q.0 q.1 e3,
    )

-- More than four bytes of length.
too_long :
    (k n m v : ℕ) (w : Acc ◌<◌ n) (r : Bytes)
    → 128 ^ k ≤ n
    → decode_loop k (encode_loop n w ++ r) m v ≡ err (malformed remaining_length_exceeds_4_bytes)
unfolding encode_loop
too_long zero n m v w r h = unfold decode_loop in refl
too_long (suc k) n m v (Acc.intro _ smaller) r h = grind (
  arith,
  pow_step 1 k,
  pow_large 1 k,
  λ (w : Acc ◌<◌ (n / 128)).
      inner_round k (n % 128) m v (encode_loop (n / 128) w ++ r) (omega arith),
  λ (w : Acc ◌<◌ (n / 128)). too_long k (n / 128) (m * 128) (v + n % 128 * m) w r,
)

-- A length of 128 ^ 4 or more is written in five bytes or more, which the decoder refuses: of the
-- lengths that can be written, exactly those that MQTT allows can be read.
pub decode_remaining_length-encode_large :
    (n : ℕ) (r : Bytes)
    → 128 ^ 4 ≤ n
    → decode_remaining_length (encode_remaining_length n ++ r)
      ≡ err (malformed remaining_length_exceeds_4_bytes)
unfolding decode_remaining_length encode_remaining_length
decode_remaining_length-encode_large n r h = too_long 4 n 1 0 (lt_wf.apply n) r h
