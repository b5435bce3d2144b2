-- ===== src/Codec/Runs.antt =====
-- The codec on concrete packets, and its theorems at concrete inputs.
use dmqtt.Base.{ℕ, [], ◌∷◌, ◌++◌, ◌≤◌, ◌+◌, ◌≡◌, refl, true, length, arith}
use dmqtt.Codec.{ok}
use dmqtt.Codec.FixedHeader.{
  FixedHeader, encode_remaining_length, decode_remaining_length, first_byte, encode,
  decode_fixed_header, read_full, read_payload, read_packet,
}
use dmqtt.Codec.FixedHeader.RoundTrip.{read_packet-encode}
use dmqtt.Codec.FixedHeader.Bounds.{HeaderFits, read_packet_bounds}

abbrev publish_header : FixedHeader
publish_header = record {
  packet_type = 3;
  dup = true;
  qos = 2;
  retain = true;
  remaining_length = 2;
}

encode_run : encode publish_header ≡ 0x3d ∷ 2 ∷ []
unfolding encode first_byte encode_remaining_length
encode_run = refl

encode_321 : encode_remaining_length 321 ≡ 0xc1 ∷ 2 ∷ []
unfolding encode_remaining_length
encode_321 = refl

read_run : read_packet (0x3d ∷ 2 ∷ 7 ∷ 8 ∷ 9 ∷ []) ≡ ok (publish_header, 7 ∷ 8 ∷ [], 9 ∷ [])
unfolding read_packet decode_fixed_header decode_remaining_length read_payload read_full
read_run = refl

read_packet-encode_example :
    read_packet (encode publish_header ++ ((7 ∷ 8 ∷ []) ++ (9 ∷ [])))
    ≡ ok (publish_header, 7 ∷ 8 ∷ [], 9 ∷ [])
read_packet-encode_example =
    read_packet-encode publish_header (7 ∷ 8 ∷ []) (9 ∷ []) (omega arith) (omega arith)
      (omega arith) refl

read_packet_bounds_example :
    HeaderFits publish_header
    × (length {A = ℕ} (7 ∷ 8 ∷ []) ≡ 2)
    × (length {A = ℕ} (7 ∷ 8 ∷ []) + length {A = ℕ} (9 ∷ []) + 2 ≤ 5)
    × (5 ≤ length {A = ℕ} (7 ∷ 8 ∷ []) + length {A = ℕ} (9 ∷ []) + 5)
read_packet_bounds_example =
    read_packet_bounds (0x3d ∷ 2 ∷ 7 ∷ 8 ∷ 9 ∷ []) (7 ∷ 8 ∷ []) (9 ∷ []) publish_header
      (omega arith) read_run
