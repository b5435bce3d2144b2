-- ===== src/Codec/FixedHeader/RoundTrip.antt =====
-- The fixed header reads back what was written: fixed_header.go and reader.go.
use dmqtt.Base.{
  ℕ, zero, suc, ◌+◌, ◌*◌, ◌/◌, ◌%◌, ◌^◌, ◌<◌, ◌≡◌, refl, ap, Bool, true, false, not, ◌&&◌, [], ◌∷◌,
  ◌++◌, Bytes, length, length-append, take-length_append, drop-length_append, nat_beq, bit_and,
  bit_or, arith,
}
use dmqtt.Base.Tables.{all_below, all_below_sound, low_bits, top_bit, set_top_bit}
use dmqtt.Codec.{ok}
use dmqtt.Codec.FixedHeader.{
  FixedHeader, encode_loop, encode_remaining_length, decode_loop, decode_remaining_length,
  first_byte, encode, decode_fixed_header, read_full, read_payload, read_packet,
}
use mathlib.Core.WellFounded.{Acc}
use native.Mathlib.Nat.{div-add-mod}
use dmqtt.Base.Order.{lt_wf}

-- One round of the decoder on a last byte, and on a byte with the top bit set over the group `g`.
last_round :
    (k b m v : ℕ) (r : Bytes) → b < 128 → decode_loop (suc k) (b ∷ r) m v ≡ ok (v + b * m, r)
unfolding decode_loop
last_round k b m v r h = ground (arith, low_bits b, top_bit b)

pub inner_round :
    (k g m v : ℕ) (r : Bytes)
    → g < 128
    → decode_loop (suc k) (bit_or g 0x80 ∷ r) m v ≡ decode_loop k r (m * 128) (v + g * m)
unfolding decode_loop
inner_round k g m v r h =
    ground (arith, set_top_bit g, low_bits (g + 128) (omega arith), top_bit (g + 128) (omega arith))

split_group : (n m : ℕ) → n * m ≡ n % 128 * m + n / 128 * (m * 128)
split_group n m = omega (arith, ap (λ (t : ℕ). t * m) (div-add-mod n 128))

decode_loop-encode_loop :
    (k n m v : ℕ) (w : Acc ◌<◌ n) (r : Bytes)
    → n < 128 ^ suc k
    → decode_loop (suc k) (encode_loop n w ++ r) m v ≡ ok (v + n * m, r)
unfolding encode_loop
decode_loop-encode_loop zero n m v (Acc.intro _ smaller) r h = ground (arith, last_round 0 n m v r)
decode_loop-encode_loop (suc k) n m v (Acc.intro _ smaller) r h = grind (
  arith,
  last_round (suc k) n m v r,
  split_group n m,
  λ (w : Acc ◌<◌ (n / 128)).
      inner_round (suc k) (n % 128) m v (encode_loop (n / 128) w ++ r) (omega arith),
  λ (w : Acc ◌<◌ (n / 128)).
      decode_loop-encode_loop k (n / 128) (m * 128) (v + n % 128 * m) w r (omega arith),
)

-- Every remaining length that MQTT allows reads back, whatever follows it.
pub decode_remaining_length-encode :
    (n : ℕ) (r : Bytes)
    → n < 128 ^ 4
    → decode_remaining_length (encode_remaining_length n ++ r) ≡ ok (n, r)
unfolding decode_remaining_length encode_remaining_length
decode_remaining_length-encode n r h =
    let e : 0 + n * 1 ≡ n = omega arith in
    rw e at (decode_loop-encode_loop 3 n 1 0 (lt_wf.apply n) r h)

-- The four fields of the first byte, for one choice of the two flags.
abbrev flags : ℕ → Bool → ℕ → Bool → FixedHeader
flags t d q r = record { packet_type = t; dup = d; qos = q; retain = r; remaining_length = 0 }

abbrev same : Bool → Bool → Bool
same true b = b
same false b = not b

abbrev keeps_fields : Bool → Bool → ℕ → ℕ → Bool
keeps_fields d r t q =
    let b = first_byte (flags t d q r) in
    nat_beq (bit_and (b / 16) 0x0f) t
    && (same (not (nat_beq (bit_and b 0x08) 0)) d
        && (nat_beq (bit_and (b / 2) 0x03) q && same (not (nat_beq (bit_and b 0x01) 0)) r))

keeps_fields_table :
    (d r : Bool) → all_below 16 (λ t. all_below 4 (λ q. keeps_fields d r t q)) ≡ true
unfolding all_below first_byte
keeps_fields_table true true = refl
keeps_fields_table true false = refl
keeps_fields_table false true = refl
keeps_fields_table false false = refl

keeps_fields_all : (d r : Bool) (t q : ℕ) → t < 16 → q < 4 → keeps_fields d r t q ≡ true
keeps_fields_all d r t q ht hq =
    all_below_sound (keeps_fields d r t) 4 q hq
      (all_below_sound (λ t. all_below 4 (keeps_fields d r t)) 16 t ht (keeps_fields_table d r))

same→eq : (a b : Bool) → same a b ≡ true → a ≡ b
same→eq true b h = cc
same→eq false true h = cc
same→eq false false h = refl

-- The first byte without the record around it.
first_byte_fields :
    (d r : Bool) (t q : ℕ)
    → t < 16
    → q < 4
    → (bit_and (first_byte (flags t d q r) / 16) 0x0f ≡ t)
      × (not (nat_beq (bit_and (first_byte (flags t d q r)) 0x08) 0) ≡ d)
      × (bit_and (first_byte (flags t d q r) / 2) 0x03 ≡ q)
      × (not (nat_beq (bit_and (first_byte (flags t d q r)) 0x01) 0) ≡ r)
first_byte_fields d r t q ht hq =
    let b : ℕ = first_byte (flags t d q r) in
    ground (
      arith,
      keeps_fields_all d r t q ht hq,
      same→eq (not (nat_beq (bit_and b 0x08) 0)) d,
      same→eq (not (nat_beq (bit_and b 0x01) 0)) r,
    )

first_byte-flags :
    (fh : FixedHeader) → first_byte fh ≡ first_byte (flags fh.packet_type fh.dup fh.qos fh.retain)
unfolding first_byte
first_byte-flags fh = refl

pub decode_fixed_header-encode :
    (fh : FixedHeader) (r : Bytes)
    → fh.packet_type < 16
    → fh.qos < 4
    → fh.remaining_length < 128 ^ 4
    → decode_fixed_header (encode fh ++ r) ≡ ok (fh, r)
unfolding decode_fixed_header encode
decode_fixed_header-encode fh r ht hq hn =
    rw (decode_remaining_length-encode fh.remaining_length r hn, first_byte-flags fh)
      (ground (arith, first_byte_fields fh.dup fh.retain fh.packet_type fh.qos ht hq))

read_full-append : (p r : Bytes) (n : ℕ) → length p ≡ n → read_full n (p ++ r) ≡ ok (p, r)
unfolding read_full
read_full-append p r n e =
    rw (← e)
      (rw (take-length_append p r, drop-length_append p r) (ground (arith, length-append p r)))

read_payload-append : (p r : Bytes) (n : ℕ) → length p ≡ n → read_payload n (p ++ r) ≡ ok (p, r)
unfolding read_payload
read_payload-append [] r n e = ground arith
read_payload-append (b ∷ p) r n e = ground (arith, read_full-append (b ∷ p) r n e)

-- A packet read from a stream is the one that was written, header and payload, and the reader stands
-- behind it: for every packet type and QoS that fit their bits, every pair of flags, and every
-- payload of the announced length below 128 ^ 4.
pub read_packet-encode :
    (fh : FixedHeader) (payload rest : Bytes)
    → fh.packet_type < 16
    → fh.qos < 4
    → fh.remaining_length < 128 ^ 4
    → length payload ≡ fh.remaining_length
    → read_packet (encode fh ++ (payload ++ rest)) ≡ ok (fh, payload, rest)
unfolding read_packet
read_packet-encode fh payload rest ht hq hn hl = rw (
  decode_fixed_header-encode fh (payload ++ rest) ht hq hn,
  read_payload-append payload rest fh.remaining_length hl,
)
