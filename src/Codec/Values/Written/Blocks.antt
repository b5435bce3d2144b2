-- ===== src/Codec/Values/Written/Blocks.antt =====
-- A block of bytes, a variable byte integer and a property's value read back where they stand.
use dmqtt.Base.{
  ℕ, zero, suc, ◌+◌, ◌*◌, ◌^◌, ◌≤◌, ◌<◌, ◌≡◌, refl, ap, ◌∙◌, Bytes, [], ◌∷◌, ◌++◌, length, ltb, leb,
  nat_beq, length-append, bit_and, arith, inl, inr, Bool-cases, ◌||◌, false, true, subst,
}
use dmqtt.Codec.{Reason, ok}
use dmqtt.Codec.FixedHeader.{decode_loop, decode_remaining_length, encode_remaining_length}
use dmqtt.Codec.FixedHeader.RoundTrip.{decode_remaining_length-encode}
use dmqtt.Codec.Values.{
  uint16_at, counted, read_block, read_prop_block, read_byte, read_uint16, read_uint32,
  var_int_loop, decode_var_int, encode_var_int, put_uint16, put_uint32, append_block,
}
use dmqtt.Codec.Values.Written.{
  Stands, Stands-length, Stands-after, index_here, slice_here, uint16_here, uint32_here,
}

counted_here :
    (bytes : Bytes) (offset : ℕ) (x s : Bytes)
    → Stands bytes (offset + 2) (x ++ s)
    → counted bytes offset (length x) ≡ ok (x, 2 + length x)
unfolding counted
counted_here bytes offset x s h = rw (slice_here bytes (offset + 2) x s h) refl

pub length-append_block : (x : Bytes) → length (append_block x) ≡ 2 + length x
unfolding append_block put_uint16
length-append_block x = omega arith

behind_length :
    (bytes : Bytes) (offset : ℕ) (x s : Bytes)
    → Stands bytes offset (append_block x ++ s)
    → Stands bytes (offset + 2) (x ++ s)
unfolding append_block put_uint16
behind_length bytes offset x s h = Stands-after bytes offset (put_uint16 (length x)) (x ++ s) h

block_length :
    (bytes : Bytes) (offset : ℕ) (x s : Bytes)
    → length x < 65536
    → Stands bytes offset (append_block x ++ s)
    → uint16_at bytes offset ≡ ok (length x)
unfolding append_block put_uint16
block_length bytes offset x s k h = uint16_here bytes offset (length x) (x ++ s) k h

block_inside :
    (bytes : Bytes) (offset : ℕ) (x s : Bytes)
    → Stands bytes offset (append_block x ++ s)
    → offset + 2 + length x ≤ length bytes
block_inside bytes offset x s h = omega (
  arith,
  Stands-length bytes offset (append_block x ++ s) h,
  length-append (append_block x) s,
  length-append_block x,
)

pub block_here :
    (no_length no_data : Reason) (bytes : Bytes) (offset : ℕ) (x s : Bytes)
    → length x < 65536
    → Stands bytes offset (append_block x ++ s)
    → read_block no_length no_data bytes offset ≡ ok (x, 2 + length x)
unfolding read_block
block_here no_length no_data bytes offset x s k h =
    let e : ltb (length bytes) (offset + 2) ≡ false =
      ground (arith, block_inside bytes offset x s h) in
    let f : ltb (length bytes) (offset + 2 + length x) ≡ false =
      ground (arith, block_inside bytes offset x s h) in
    rw (e, block_length bytes offset x s k h, f)
      (counted_here bytes offset x s (behind_length bytes offset x s h))

pub prop_block_here :
    (no_length no_data : Reason) (bytes : Bytes) (offset end : ℕ) (x s : Bytes)
    → length x < 65536
    → offset + 2 + length x ≤ end
    → Stands bytes offset (append_block x ++ s)
    → read_prop_block no_length no_data bytes offset end ≡ ok (x, 2 + length x)
unfolding read_prop_block
prop_block_here no_length no_data bytes offset end x s k l h =
    let e : (ltb end (offset + 2) || ltb (length bytes) (offset + 2)) ≡ false =
      ground (arith, block_inside bytes offset x s h) in
    let f : (ltb end (offset + 2 + length x) || ltb (length bytes) (offset + 2 + length x))
        ≡ false =
      ground (arith, block_inside bytes offset x s h) in
    rw (e, block_length bytes offset x s k h, f)
      (counted_here bytes offset x s (behind_length bytes offset x s h))

pub byte_here :
    (bytes : Bytes) (offset end c : ℕ) (s : Bytes)
    → offset + 1 ≤ end
    → Stands bytes offset (c ∷ s)
    → read_byte bytes offset end ≡ ok (c, 1)
unfolding read_byte
byte_here bytes offset end c s l h =
    let e : (leb end offset || leb (length bytes) offset) ≡ false =
      ground (arith, Stands-length bytes offset (c ∷ s) h) in
    rw (e, index_here bytes offset c s h) refl

pub read_uint16_here :
    (bytes : Bytes) (offset end n : ℕ) (s : Bytes)
    → n < 65536
    → offset + 2 ≤ end
    → Stands bytes offset (put_uint16 n ++ s)
    → read_uint16 bytes offset end ≡ ok (n, 2)
unfolding read_uint16 put_uint16
read_uint16_here bytes offset end n s k l h =
    let e : (ltb end (offset + 2) || ltb (length bytes) (offset + 2)) ≡ false =
      ground (arith, Stands-length bytes offset (put_uint16 n ++ s) h) in
    rw (e, uint16_here bytes offset n s k h) refl

pub read_uint32_here :
    (bytes : Bytes) (offset end n : ℕ) (s : Bytes)
    → n < 4294967296
    → offset + 4 ≤ end
    → Stands bytes offset (put_uint32 n ++ s)
    → read_uint32 bytes offset end ≡ ok (n, 4)
unfolding read_uint32 put_uint32
read_uint32_here bytes offset end n s k l h =
    let e : (ltb end (offset + 4) || ltb (length bytes) (offset + 4)) ≡ false =
      ground (arith, Stands-length bytes offset (put_uint32 n ++ s) h) in
    rw (e, uint32_here bytes offset n s k h) refl

last_decoded :
    (rounds b m v n : ℕ) (r rest : Bytes)
    → nat_beq (bit_and b 0x80) 0 ≡ true
    → decode_loop (suc rounds) (b ∷ r) m v ≡ ok (n, rest)
    → (v + bit_and b 0x7f * m ≡ n) × (r ≡ rest)
unfolding decode_loop
last_decoded rounds b m v n r rest g e = let f = rw g at e in (cc, cc)

more_decoded :
    (rounds b m v n : ℕ) (r rest : Bytes)
    → nat_beq (bit_and b 0x80) 0 ≡ false
    → decode_loop (suc rounds) (b ∷ r) m v ≡ ok (n, rest)
    → decode_loop rounds r (m * 128) (v + bit_and b 0x7f * m) ≡ ok (n, rest)
unfolding decode_loop
more_decoded rounds b m v n r rest g e = rw g at e

-- The loop at an offset reads what the loop of the fixed header reads from a stream.
var_int_loop-decode_loop :
    (rounds : ℕ) (bytes : Bytes) (offset i multiplier value : ℕ) (r rest : Bytes) (n : ℕ)
    → Stands bytes (offset + i) r
    → decode_loop rounds r multiplier value ≡ ok (n, rest)
    → (k : ℕ) × (var_int_loop rounds bytes offset i multiplier value ≡ ok (n, k))
      × (k + length rest ≡ i + length r)
unfolding var_int_loop decode_loop
var_int_loop-decode_loop zero bytes offset i m v r rest n h e = cc
var_int_loop-decode_loop (suc rounds) bytes offset i m v [] rest n h e = cc
var_int_loop-decode_loop (suc rounds) bytes offset i m v (b ∷ r) rest n h e =
    let more : leb (length bytes) (offset + i) ≡ false =
      ground (arith, Stands-length bytes (offset + i) (b ∷ r) h) in
    let here = index_here bytes (offset + i) b r h in
    elim (Bool-cases (nat_beq (bit_and b 0x80) 0)) [
      | inl g ↦
          let (value, same) = last_decoded rounds b m v n r rest g e in
          (i + 1, rw (more, here, g) (ap (λ x. ok (x, i + 1)) value), omega (arith, ap length same))
      | inr g ↦
          let after = more_decoded rounds b m v n r rest g e in
          let (k, f, l) =
            var_int_loop-decode_loop rounds bytes offset (i + 1) (m * 128) (v + bit_and b 0x7f * m)
              r rest n (next h) after in
          (k, rw (more, here, g) f, omega (arith, l))
    ]
  where
    next : Stands bytes (offset + i) (b ∷ r) → Stands bytes (offset + (i + 1)) r
    next h' =
        subst (λ o. Stands bytes o r) (omega arith) (Stands-after bytes (offset + i) (b ∷ []) r h')

pub var_int_here :
    (bytes : Bytes) (offset n : ℕ) (s : Bytes)
    → n < 128 ^ 4
    → Stands bytes offset (encode_var_int n ++ s)
    → decode_var_int bytes offset ≡ ok (n, length (encode_var_int n))
unfolding decode_var_int encode_var_int decode_remaining_length
var_int_here bytes offset n s k h =
    let (taken, e, l) =
      var_int_loop-decode_loop 4 bytes offset 0 1 0 (encode_remaining_length n ++ s) s n
        (subst (λ o. Stands bytes o (encode_remaining_length n ++ s)) (omega arith) h)
        (decode_remaining_length-encode n s k) in
    e ∙ ap (λ t. ok (n, t)) (omega (arith, l, length-append (encode_remaining_length n) s))
