-- ===== src/Codec/Values/Within.antt =====
-- Reading a value at an offset: no read is out of range, and the offset stays inside the bytes.
use dmqtt.Base.{
  ℕ, zero, suc, ◌+◌, ◌*◌, ◌-◌, ◌≤◌, ◌<◌, ◌≡◌, refl, Bytes, [], ◌∷◌, length, take, drop, ltb, leb,
  nat_beq, length-take, length-drop, arith, bit_and, inl, inr, Bool-cases, ◌||◌, nat_eq,
}
use dmqtt.Codec.{Reason, Result, panic, err, ok, ◌>>=◌, index, slice, uint16, uint32, Returns}
use dmqtt.Codec.Values.{
  uint16_at, uint32_at, counted, read_block, read_prop_block, read_byte, read_uint16, read_uint32,
  var_int_loop, decode_var_int,
}

-- A read at an offset that does not panic, and leaves the offset inside the bytes.
abbrev pub Within {ℓ} : {A : Type ℓ} → Bytes → ℕ → Result (A × ℕ) → Type 0
Within bytes offset panic = 1 ≤ 0
Within bytes offset (err e) = Unit
Within bytes offset (ok (a, n)) = offset + n ≤ length bytes

pub Within-Returns {ℓ} :
    {A : Type ℓ} (bytes : Bytes) (offset : ℕ) (r : Result (A × ℕ))
    → Within bytes offset r
    → Returns r
Within-Returns bytes offset panic h = absurd (omega (arith, h))
Within-Returns bytes offset (err e) h = λ p. cc
Within-Returns bytes offset (ok a) h = λ p. cc

-- A chain of reads, counted from `start`; the first of them reads at `offset`.
pub then_Within {ℓ κ} :
    {A : Type ℓ} {B : Type κ} (bytes : Bytes) (start offset : ℕ) (r : Result (A × ℕ))
    (k : A × ℕ → Result (B × ℕ))
    → Within bytes offset r
    → ((a : A) (n : ℕ) → offset + n ≤ length bytes → Within bytes start (k (a, n)))
    → Within bytes start (r >>= k)
then_Within bytes start offset panic k h f = absurd (omega (arith, h))
then_Within bytes start offset (err e) k h f = tt
then_Within bytes start offset (ok (a, n)) k h f = f a n h

pub then_Returns {ℓ κ} :
    {A : Type ℓ} {B : Type κ} (bytes : Bytes) (offset : ℕ) (r : Result (A × ℕ))
    (k : A × ℕ → Result B)
    → Within bytes offset r
    → ((a : A) (n : ℕ) → offset + n ≤ length bytes → Returns (k (a, n)))
    → Returns (r >>= k)
then_Returns bytes offset panic k h f = absurd (omega (arith, h))
then_Returns bytes offset (err e) k h f = λ p. cc
then_Returns bytes offset (ok (a, n)) k h f = f a n h

pub index_inside : (bytes : Bytes) (i : ℕ) → i < length bytes → (b : ℕ) × (index bytes i ≡ ok b)
unfolding index
index_inside [] i h = absurd (omega arith)
index_inside (b ∷ bs) zero h = (b, refl)
index_inside (b ∷ bs) (suc i) h = index_inside bs i (omega arith)

pub slice_inside :
    (bytes : Bytes) (lo hi : ℕ)
    → lo ≤ hi
    → hi ≤ length bytes
    → slice bytes lo hi ≡ ok (take (hi - lo) (drop lo bytes))
unfolding slice
slice_inside bytes lo hi h k = ground arith

uint16_two : (s : Bytes) → length s ≡ 2 → (n : ℕ) × (uint16 s ≡ ok n)
unfolding uint16
uint16_two (a ∷ b ∷ s) h = (a * 256 + b, refl)
uint16_two (a ∷ []) h = absurd (omega arith)
uint16_two [] h = absurd (omega arith)

uint32_four : (s : Bytes) → length s ≡ 4 → (n : ℕ) × (uint32 s ≡ ok n)
unfolding uint32
uint32_four (a ∷ b ∷ c ∷ d ∷ s) h = (((a * 256 + b) * 256 + c) * 256 + d, refl)
uint32_four (a ∷ b ∷ c ∷ []) h = absurd (omega arith)
uint32_four (a ∷ b ∷ []) h = absurd (omega arith)
uint32_four (a ∷ []) h = absurd (omega arith)
uint32_four [] h = absurd (omega arith)

pub uint16_inside :
    (bytes : Bytes) (offset : ℕ)
    → offset + 2 ≤ length bytes
    → (n : ℕ) × (uint16_at bytes offset ≡ ok n)
unfolding uint16_at
uint16_inside bytes offset h = rw (slice_inside bytes offset (offset + 2) (omega arith) h) (
    uint16_two (take (offset + 2 - offset) (drop offset bytes)) (
      omega
        (arith, length-take (offset + 2 - offset) (drop offset bytes), length-drop offset bytes)))

uint32_inside :
    (bytes : Bytes) (offset : ℕ)
    → offset + 4 ≤ length bytes
    → (n : ℕ) × (uint32_at bytes offset ≡ ok n)
unfolding uint32_at
uint32_inside bytes offset h = rw (slice_inside bytes offset (offset + 4) (omega arith) h) (
    uint32_four (take (offset + 4 - offset) (drop offset bytes)) (
      omega
        (arith, length-take (offset + 4 - offset) (drop offset bytes), length-drop offset bytes)))

counted-Within :
    (bytes : Bytes) (offset count : ℕ)
    → offset + 2 + count ≤ length bytes
    → Within bytes offset (counted bytes offset count)
unfolding counted
counted-Within bytes offset count h =
    rw (slice_inside bytes (offset + 2) (offset + 2 + count) (omega arith) h) (omega arith)

pub read_block-Within :
    (no_length no_data : Reason) (bytes : Bytes) (offset : ℕ)
    → Within bytes offset (read_block no_length no_data bytes offset)
unfolding read_block
read_block-Within no_length no_data bytes offset =
    elim (Bool-cases (ltb (length bytes) (offset + 2))) [
      | inl e ↦ rw e tt
      | inr e ↦
          let (count, f) = uint16_inside bytes offset (ground arith) in
          elim (Bool-cases (ltb (length bytes) (offset + 2 + count))) [
            | inl g ↦ rw (e, f, g) tt
            | inr g ↦ rw (e, f, g) (counted-Within bytes offset count (ground arith))
          ]
    ]

pub read_prop_block-Within :
    (no_length no_data : Reason) (bytes : Bytes) (offset end : ℕ)
    → Within bytes offset (read_prop_block no_length no_data bytes offset end)
unfolding read_prop_block
read_prop_block-Within no_length no_data bytes offset end =
    elim (Bool-cases (ltb end (offset + 2) || ltb (length bytes) (offset + 2))) [
      | inl e ↦ rw e tt
      | inr e ↦
          let (count, f) = uint16_inside bytes offset (ground arith) in
          elim (Bool-cases
            (ltb end (offset + 2 + count) || ltb (length bytes) (offset + 2 + count))) [
              | inl g ↦ rw (e, f, g) tt
              | inr g ↦ rw (e, f, g) (counted-Within bytes offset count (ground arith))
            ]
    ]

pub read_byte-Within :
    (bytes : Bytes) (offset end : ℕ) → Within bytes offset (read_byte bytes offset end)
unfolding read_byte
read_byte-Within bytes offset end =
    elim (Bool-cases (leb end offset || leb (length bytes) offset)) [
      | inl e ↦ rw e tt
      | inr e ↦ let (b, f) = index_inside bytes offset (ground arith) in rw (e, f) (ground arith)
    ]

pub read_uint16-Within :
    (bytes : Bytes) (offset end : ℕ) → Within bytes offset (read_uint16 bytes offset end)
unfolding read_uint16
read_uint16-Within bytes offset end =
    elim (Bool-cases (ltb end (offset + 2) || ltb (length bytes) (offset + 2))) [
      | inl e ↦ rw e tt
      | inr e ↦ let (v, f) = uint16_inside bytes offset (ground arith) in rw (e, f) (ground arith)
    ]

pub read_uint32-Within :
    (bytes : Bytes) (offset end : ℕ) → Within bytes offset (read_uint32 bytes offset end)
unfolding read_uint32
read_uint32-Within bytes offset end =
    elim (Bool-cases (ltb end (offset + 4) || ltb (length bytes) (offset + 4))) [
      | inl e ↦ rw e tt
      | inr e ↦ let (v, f) = uint32_inside bytes offset (ground arith) in rw (e, f) (ground arith)
    ]

var_int_loop-Within :
    (rounds : ℕ) (bytes : Bytes) (offset i multiplier value : ℕ)
    → Within bytes offset (var_int_loop rounds bytes offset i multiplier value)
unfolding var_int_loop
var_int_loop-Within zero bytes offset i multiplier value = tt
var_int_loop-Within (suc rounds) bytes offset i multiplier value =
    elim (Bool-cases (leb (length bytes) (offset + i))) [
      | inl e ↦ rw e tt
      | inr e ↦
          let (b, f) = index_inside bytes (offset + i) (ground arith) in
          elim (Bool-cases (nat_beq (bit_and b 0x80) 0)) [
            | inl g ↦ rw (e, f, g) (ground arith)
            | inr g ↦
                rw (e, f, g)
                  (var_int_loop-Within rounds bytes offset (i + 1) (multiplier * 128)
                    (value + bit_and b 0x7f * multiplier))
          ]
    ]

pub decode_var_int-Within :
    (bytes : Bytes) (offset : ℕ) → Within bytes offset (decode_var_int bytes offset)
unfolding decode_var_int
decode_var_int-Within bytes offset = var_int_loop-Within 4 bytes offset 0 1 0

then_counted {ℓ} :
    {B : Type ℓ} (bytes : Bytes) (offset count : ℕ) (k : Bytes × ℕ → Result B)
    → offset + 2 + count ≤ length bytes
    → ((s : Bytes) (n : ℕ) → 2 ≤ n → offset + n ≤ length bytes → Returns (k (s, n)))
    → Returns (counted bytes offset count >>= k)
unfolding counted
then_counted bytes offset count k h f =
    rw (slice_inside bytes (offset + 2) (offset + 2 + count) (omega arith) h)
      (f _ (2 + count) (omega arith) (omega arith))

-- What follows a block of at least the two bytes of its length.
pub then_block {ℓ} :
    {B : Type ℓ} (no_length no_data : Reason) (bytes : Bytes) (offset : ℕ)
    (k : Bytes × ℕ → Result B)
    → ((s : Bytes) (n : ℕ) → 2 ≤ n → offset + n ≤ length bytes → Returns (k (s, n)))
    → Returns (read_block no_length no_data bytes offset >>= k)
unfolding read_block
then_block no_length no_data bytes offset k h =
    elim (Bool-cases (ltb (length bytes) (offset + 2))) [
      | inl e ↦ rw e (λ q. cc)
      | inr e ↦
          let (count, f) = uint16_inside bytes offset (ground arith) in
          elim (Bool-cases (ltb (length bytes) (offset + 2 + count))) [
            | inl g ↦ rw (e, f, g) (λ q. cc)
            | inr g ↦ rw (e, f, g) (then_counted bytes offset count k (ground arith) h)
          ]
    ]
